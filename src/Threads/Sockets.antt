-- ===== src/Threads/Sockets.antt =====
-- The socket layer in steps of the shared state: what every step keeps, `socket`, `connect`,
-- `recv`, `send`, `select`, the thread that opens a connection and the notifier keep.
use Prim.Native.String.{String}
use power_boot.Prelude.{length, ℕ, true, false, refl, Option, none, some, Bool}
use power_boot.Prelude.Text.{Text}
use power_boot.World.{World}
use power_boot.World.Sockets.{Socket, SocketAddress, new_socket}
use power_boot.World.Calls.{OtCall, OtResult, count, error}
use power_boot.Effects.{Env, ◌>>=◌, ◌>>◌, get, insert_socket}
use power_boot.Net.{
  configure, register, socket, connect, deliver, received, recv, sent, request, send, select_on,
  select,
}
use power_boot.Net.Connect.{check, set_up, dial, connect_thread}
use power_boot.Net.Notifier.{
  OtEvent, t_connect, t_data, t_exdata, t_disconnect, on_size, on_data, on_connect, on_disconnect,
  report_event, on_event, notifier, unhandled,
}
use power_boot.Net.FdSets.{FdSet}
use power_boot.Threads.{Role, inserted}
use power_boot.Threads.Rules.{Preserves-pure, Rely, Preserves, Preserves-then, Preserves-skip}
use power_boot.Threads.Calls.{Preserves-yield, Preserves-deref_quiet, Preserves-printf, preserving}
use power_boot.Threads.Writes.{send_halt_set, snd_call_set, halting_set, preserved}

module _ {role : Role} {P : World → Type 0} {env : Env} (k : Rely role P env) where
  configure-Preserves : (type : ℕ) → Preserves P (configure env type)
  unfolding configure
  configure-Preserves type = search preserving depth 20

  register-Preserves :
      (cfg endpoint : Option ℕ)
      → Preserves P (register env (record new_socket { cfg = cfg; endpoint = endpoint }))
  unfolding register insert_socket ◌>>=◌ ◌>>◌ get
  register-Preserves cfg endpoint = record {
    run = λ w p.
        (Preserves-then _ _ (Preserves-yield k) (Preserves-pure (length w.sockets))).run _ (
          k.inv.step w _ p (
            inserted (record new_socket { cfg = cfg; endpoint = endpoint })
              (record { no_halt = refl; no_recv = refl; no_send = refl })));
  }

  pub socket-Preserves : (type : ℕ) → Preserves P (socket env type)
  unfolding socket
  socket-Preserves type = search (preserving, configure-Preserves, register-Preserves) depth 30

  pub connect-Preserves : (fuel : ℕ) → Preserves P (connect env fuel)
  unfolding connect
  connect-Preserves fuel = search preserving depth 20

  deliver-Preserves : (fd nbytes : ℕ) → Preserves P (deliver env fd nbytes)
  unfolding deliver
  deliver-Preserves fd nbytes = search preserved depth 20

  pub recv-Preserves : (fuel fd nbytes : ℕ) → Preserves P (recv env fuel fd nbytes)
  unfolding recv received
  recv-Preserves fuel fd nbytes = search (preserved, deliver-Preserves) depth 20

  pub send-Preserves : (fuel fd : ℕ) (buf : Text) → Preserves P (send env fuel fd buf)
  unfolding send request sent
  send-Preserves fuel fd buf =
      search (preserved, send_halt_set k true, send_halt_set k false) depth 20

  select_on-Preserves :
      (fuel : ℕ) (halted : Socket → Bool) (o : Option FdSet)
      → Preserves P (select_on env fuel halted o)
  unfolding select_on
  select_on-Preserves fuel halted none = search preserving
  select_on-Preserves fuel halted (some fds) = search preserving depth 10

  pub select-Preserves : (fuel : ℕ) (a b : Option FdSet) → Preserves P (select env fuel a b)
  unfolding select
  select-Preserves fuel a b = search (preserving, select_on-Preserves)

  check-Preserves : (line : ℕ) (func : Text) (c : OtCall) → Preserves P (check env line func c)
  unfolding check
  check-Preserves line func c = search preserving

  set_up-Preserves : (fd : ℕ) (endpoint : Option ℕ) → Preserves P (set_up env fd endpoint)
  unfolding set_up
  set_up-Preserves fd endpoint = search (preserving, check-Preserves) depth 20

  dial-Preserves :
      (fd : ℕ) (endpoint : Option ℕ) (a : SocketAddress) → Preserves P (dial env fd endpoint a)
  unfolding dial
  dial-Preserves fd endpoint a = search (preserved, snd_call_set k a, halting_set k true) depth 20

  pub connect_thread-Preserves :
      (fd : ℕ) (a : SocketAddress) → Preserves P (connect_thread env fd a)
  unfolding connect_thread
  connect_thread-Preserves fd a =
      search (preserved, halting_set k true, set_up-Preserves, dial-Preserves) depth 20

  -- No data is ever read: nothing has asked for it.
  on_size-Preserves : (fuel fd : ℕ) (size : OtResult) → Preserves P (on_size env fuel fd size)
  unfolding on_size
  on_size-Preserves fuel fd (error e) = search preserving
  on_size-Preserves fuel fd (count size) =
      Preserves-then _ _ (Preserves-printf k _)
        (Preserves-deref_quiet k fd _ λ s q. rw q.no_halt Preserves-skip)

  on_data-Preserves : (fuel fd : ℕ) → Preserves P (on_data env fuel fd)
  unfolding on_data
  on_data-Preserves fuel fd = search (preserving, on_size-Preserves)

  on_connect-Preserves : (fd : ℕ) → Preserves P (on_connect env fd)
  unfolding on_connect
  on_connect-Preserves fd = search preserving depth 10

  on_disconnect-Preserves : (fd : ℕ) → Preserves P (on_disconnect env fd)
  unfolding on_disconnect
  on_disconnect-Preserves fd = search preserving

  report_event-Preserves : (o : Option String) → Preserves P (report_event env o)
  unfolding report_event
  report_event-Preserves none = search preserving
  report_event-Preserves (some name) = search preserving

  on_event-Preserves : (fuel fd : ℕ) (e : OtEvent) → Preserves P (on_event env fuel fd e)
  unfolding on_event
  on_event-Preserves fuel fd t_connect = on_connect-Preserves fd
  on_event-Preserves fuel fd t_data = on_data-Preserves fuel fd
  on_event-Preserves fuel fd t_exdata = on_data-Preserves fuel fd
  on_event-Preserves fuel fd t_disconnect = on_disconnect-Preserves fd
  on_event-Preserves fuel fd e = report_event-Preserves (unhandled e)

  pub notifier-Preserves :
      (fuel fd : ℕ) (code : OtEvent) (res : OtResult) → Preserves P (notifier env fuel fd code res)
  unfolding notifier
  notifier-Preserves fuel fd code res =
      search (preserved, halting_set k false, on_event-Preserves) depth 20
