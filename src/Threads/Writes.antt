-- ===== src/Threads/Writes.antt =====
-- The writes of the program to sockets and to the client, as its code has them.
use power_boot.Prelude.{ℕ, Bool, false, Option, some, []}
use power_boot.Prelude.Text.{Text}
use power_boot.World.{World}
use power_boot.World.Sockets.{SocketAddress}
use power_boot.World.Session.{Rc, open_state}
use power_boot.Effects.{Env, put_sftp, modify}
use power_boot.Sftp.{put_rc}
use power_boot.Threads.{
  May, Role, set_halting, set_send_halt, clear_recv_halt, empty_recv_buf, empty_send_buf,
  set_snd_call, set_rc, set_sock, set_hostaddr, set_sin_port, set_session, set_sftp_pointer,
  set_channel, set_userauthlist, set_open,
}
use power_boot.Threads.Rules.{Rely, Preserves}
use power_boot.Threads.Calls.{Preserves-modify, Preserves-put_sftp, preserving}

module _ {role : Role} {P : World → Type 0} {env : Env} (k : Rely role P env) where
  pub halting_set : (b : Bool) (fd : ℕ) → Preserves P (modify fd (λ s. record s { halting = b }))
  halting_set b fd = Preserves-modify k fd (set_halting b)

  pub send_halt_set :
      (b : Bool) (fd : ℕ) → Preserves P (modify fd (λ s. record s { send_halt = b }))
  send_halt_set b fd = Preserves-modify k fd (set_send_halt b)

  pub recv_halt_cleared : (fd : ℕ) → Preserves P (modify fd (λ s. record s { recv_halt = false }))
  recv_halt_cleared fd = Preserves-modify k fd clear_recv_halt

  pub recv_buf_emptied : (fd : ℕ) → Preserves P (modify fd (λ s. record s { recv_buf = [] }))
  recv_buf_emptied fd = Preserves-modify k fd empty_recv_buf

  pub send_buf_emptied : (fd : ℕ) → Preserves P (modify fd (λ s. record s { send_buf = [] }))
  send_buf_emptied fd = Preserves-modify k fd empty_send_buf

  pub snd_call_set :
      (a : SocketAddress) (fd : ℕ) → Preserves P (modify fd (λ s. record s { snd_call = some a }))
  snd_call_set a fd = Preserves-modify k fd (set_snd_call a)

  pub rc_put : (c : Rc) → Preserves P (put_rc c)
  rc_put c = Preserves-put_sftp k (set_rc c) λ w p. tt

  pub sock_put : (n : ℕ) → Preserves P (put_sftp (λ s. record s { sock = n }))
  sock_put n = Preserves-put_sftp k (set_sock n) λ w p. tt

  pub hostaddr_put : (n : ℕ) → Preserves P (put_sftp (λ s. record s { hostaddr = n }))
  hostaddr_put n = Preserves-put_sftp k (set_hostaddr n) λ w p. tt

  pub sin_port_put : (n : ℕ) → Preserves P (put_sftp (λ s. record s { sin_port = n }))
  sin_port_put n = Preserves-put_sftp k (set_sin_port n) λ w p. tt

  pub session_put : (p : Option ℕ) → Preserves P (put_sftp (λ s. record s { session = p }))
  session_put p = Preserves-put_sftp k (set_session p) λ w p. tt

  pub sftp_pointer_put :
      (p : Option ℕ) → Preserves P (put_sftp (λ s. record s { sftp_pointer = p }))
  sftp_pointer_put p = Preserves-put_sftp k (set_sftp_pointer p) λ w p. tt

  pub channel_put : (p : Option ℕ) → Preserves P (put_sftp (λ s. record s { channel = p }))
  channel_put p = Preserves-put_sftp k (set_channel p) λ w p. tt

  pub userauthlist_put :
      (t : Option Text) → Preserves P (put_sftp (λ s. record s { userauthlist = t }))
  userauthlist_put t = Preserves-put_sftp k (set_userauthlist t) λ w p. tt

pub open_put :
    {role : Role} {P : World → Type 0} {env : Env}
    → Rely role P env
    → ((w : World) → P w → May role w set_open)
    → Preserves P (put_sftp (λ s. record s { read_thread_state = open_state }))
open_put k may = Preserves-put_sftp k set_open may

pub ruleset preserved = (
  preserving, halting_set, send_halt_set, recv_halt_cleared, recv_buf_emptied, send_buf_emptied,
  snd_call_set, rc_put, sock_put, hostaddr_put, sin_port_put, session_put, sftp_pointer_put,
  channel_put, userauthlist_put,
)
