-- ===== src/Threads/Reading.antt =====
-- The thread that serves the session in steps of the shared state, from its SFTP session on.
use power_boot.Prelude.{
  if◌then◌else◌, ◌++◌, Option, none, some, ℕ, zero, suc, ◌≡◌, ◌⊎◌, refl, inl, inr, true, ◌&&◌,
}
use power_boot.Prelude.Text.{codes}
use power_boot.World.{World}
use power_boot.Threads.{Past, spawned, Role, shaken, ready, opened, makes}
use power_boot.Threads.Stages.{
  Past-IsLasting, Preserves-behind, Preserves-behind_then, ssh_call-Leads,
}
use power_boot.World.Session.{Rc, ok, open_state}
use power_boot.World.Calls.{SshCall, ssh, read_thread}
use power_boot.Threads.Outcomes.{
  Gives, Gives-Leads, Gives-sooner, Gives-bind, Gives-later, Gives-then, Gives-spinning,
  ssh_call-Gives,
}
use power_boot.Effects.{Env, M, get, ◌>>=◌, ◌>>◌, skip, put_sftp, pure, ssh_call}
use power_boot.Sftp.{is_again, is_zero, error_text, read_error_throw, wait}
use power_boot.Sftp.Session.{is_open}
use power_boot.Transfer.{ConnectionOptions}
use power_boot.Sftp.ReadThread.{
  is_exit, is_read, auth_methods, authenticate, init_loop, receive, serve, read_thread_main,
}
use power_boot.Threads.Rules.{
  Preserves-if, Rely, Rely-and, Preserves, Preserves-bind, Preserves-then, Preserves-skip,
  Preserves-cases, Preserves-get, Preserves-spinning,
}
use power_boot.Threads.Calls.{Preserves-ssh_call, Preserves-free_call, Preserves-yield, preserving}
use power_boot.Threads.Writes.{sftp_pointer_put, channel_put, open_put}
use power_boot.Threads.Client.{Preserves-read_error_throw, Preserves-error_text, Preserves-wait}
use power_boot.Threads.Connecting.{
  open_connection-Leads, auth_methods-Preserves, authenticate-Preserves,
}

-- Behind the handshake.
module _ {role : Role} {P : World → Type 0} {env : Env} (k : Rely role P env)
    (come : (w : World) → P w → Past role (some shaken) w) where
  -- An SFTP session that libssh2 gives is one that counts.
  ready-made :
      (session : Option ℕ) (w : World)
      → (p : ℕ) × ((env.ssh_reply w (SshCall.sftp_init session)).pointer ≡ some p)
      → (role.free ≡ true) ⊎ (makes role ready w.trace (ssh (SshCall.sftp_init session)) ≡ true)
  ready-made session w (p, e) = elim k.truthful [
    | inl free ↦ inl free
    | inr t ↦ inr (t.sessions w session p e)
  ]

  -- Without the SFTP session the next round, `m`, comes.
  again-Gives :
      (waits : ℕ) {m : M (Unit {0})}
      → Gives P P (λ _. Past role (some ready)) m
      → Gives P P
          (λ _. Past role (some ready))
          (do
            put_sftp (λ s. record s { sftp_pointer = none })
            w ← get
            e ← ssh_call env (SshCall.last_errno w.sftp.session)
            if is_again e.rc then wait env waits >> skip else (do
              st ← error_text env (ok 0)
              read_error_throw env (codes "Unable to init SFTP session: " ++ st ++ codes "\n"))
            m)
  again-Gives waits g = Gives-then _ _ (sftp_pointer_put k none) (
      Gives-later get _ Preserves-get λ w. Gives-later _ _ (Preserves-free_call k _ refl) λ e.
        Gives-then _ _
          (search (preserving, Preserves-wait, Preserves-error_text, Preserves-read_error_throw)
            depth 20)
          g)

  ended-Gives :
      (p : ℕ)
      → Gives
          (λ w. P w × Past role (some ready) w)
          P
          (λ _. Past role (some ready))
          (put_sftp (λ s. record s { sftp_pointer = some p }) >> skip)
  unfolding ◌>>=◌ ◌>>◌ skip pure put_sftp
  ended-Gives p = record { run = λ w (h, q). ((sftp_pointer_put k (some p)).run w h, q) }

  -- With the SFTP session the loop ends.
  initialized-Gives :
      (waits : ℕ) (o : Option ℕ) {m : M (Unit {0})}
      → Gives P P (λ _. Past role (some ready)) m
      → Gives
          (λ w. P w × ((p : ℕ) × (o ≡ some p) → Past role (some ready) w))
          P
          (λ _. Past role (some ready))
          (put_sftp (λ s. record s { sftp_pointer = o }) >> elim o [
            | some p ↦ skip
            | none ↦ (do
              w ← get
              e ← ssh_call env (SshCall.last_errno w.sftp.session)
              if is_again e.rc then wait env waits >> skip else (do
                st ← error_text env (ok 0)
                read_error_throw env (codes "Unable to init SFTP session: " ++ st ++ codes "\n"))
              m)
          ])
  initialized-Gives waits (some p) g = Gives-sooner (λ w (h, q). (h, q (p, refl))) (ended-Gives p)
  initialized-Gives waits none g = Gives-sooner (λ w (h, _). h) (again-Gives waits g)

  init_loop-Gives :
      (fuel waits : ℕ) → Gives P P (λ _. Past role (some ready)) (init_loop env fuel waits)
  unfolding init_loop
  init_loop-Gives zero waits = Gives-spinning
  init_loop-Gives (suc fuel) waits = Gives-later get _ Preserves-get λ w.
      Gives-bind _ _
        (ssh_call-Gives k ready (SshCall.sftp_init w.sftp.session)
          (λ r. (p : ℕ) × (r.pointer ≡ some p)) (ready-made w.sftp.session) come)
        λ r. initialized-Gives waits r.pointer (init_loop-Gives fuel waits)

-- Behind the channel.
module _ {role : Role} {P : World → Type 0} {env : Env} (k : Rely role P env)
    (come : (w : World) → P w → Past role (some opened) w) where
  receive-Preserves : (fuel : ℕ) → Preserves P (receive env fuel)
  unfolding receive
  receive-Preserves zero = Preserves-spinning
  receive-Preserves (suc fuel) = Preserves-bind get _ Preserves-get λ w.
      Preserves-cases (is_read w.sftp.read_thread_command && is_open w.sftp.read_thread_state)
        (Preserves-bind _ _ (Preserves-ssh_call k _ λ w p. come w p) λ e.
          Preserves-cases (is_zero e.rc)
            (Preserves-bind get _ Preserves-get λ w.
              Preserves-bind _ _ (Preserves-ssh_call k _ λ w p. come w p) λ r.
                Preserves-then _ _ (search (preserving, Preserves-read_error_throw))
                  (Preserves-then _ _ (Preserves-yield k) (receive-Preserves fuel)))
            Preserves-skip)
        Preserves-skip

  -- From the channel on, to the end of the thread.
  served-Preserves :
      (reads : role.reads ≡ true) (fuel : ℕ) (channel : Option ℕ)
      → Preserves P (do
        put_sftp (λ s. record s { channel = channel })
        put_sftp (λ s. record s { read_thread_state = open_state })
        receive env fuel
        read_error_throw env (codes "Disconnected by server.\n"))
  served-Preserves reads fuel channel = Preserves-then _ _ (channel_put k channel) (
      Preserves-then _ _ (open_put k λ w p. (reads, come w p))
        (Preserves-then _ _ (receive-Preserves fuel) (Preserves-read_error_throw k _)))

-- Behind the SFTP session.
module _ {role : Role} {P : World → Type 0} {env : Env} (k : Rely role P env)
    (reads : role.reads ≡ true) where
  channel-Preserves :
      (come : (w : World) → P w → Past role (some ready) w) (fuel : ℕ)
      → Preserves P (do
        w ← get
        c ← ssh_call env (SshCall.channel_open w.sftp.session)
        put_sftp (λ s. record s { channel = c.pointer })
        put_sftp (λ s. record s { read_thread_state = open_state })
        receive env fuel
        read_error_throw env (codes "Disconnected by server.\n"))
  channel-Preserves come fuel = Preserves-bind get _ Preserves-get λ w.
      Preserves-behind _ _ (ssh_call-Leads k opened _ (λ trace. refl) λ w p. come w p) λ c.
        served-Preserves (Rely-and k (Past-IsLasting role (some opened))) (λ w (p, q). q) reads fuel
          c.pointer

module _ {role : Role} {P : World → Type 0} {env : Env} (k : Rely role P env)
    (reads : role.reads ≡ true) where
  serve-Preserves :
      ((w : World) → P w → Past role (some shaken) w) → (fuel : ℕ) → Preserves P (serve env fuel)
  unfolding serve
  serve-Preserves come fuel =
      Preserves-behind_then _ _ (Gives-Leads (init_loop-Gives k come fuel fuel)) (
        channel-Preserves (Rely-and k (Past-IsLasting role (some ready))) reads (λ w (p, q). q)
          fuel)

-- The thread for reading.
module _ {role : Role} {P : World → Type 0} {env : Env} (k : Rely role P env)
    (reads : role.reads ≡ true) where
  -- Behind the connection.
  connected-Preserves :
      ((w : World) → P w → Past role (some shaken) w)
      → (fuel : ℕ) (options : ConnectionOptions) (rc : Rc)
      → Preserves P (do
        w ← get
        ssh_call env (SshCall.hostkey_hash w.sftp.session)
        list ← auth_methods env fuel fuel options
        authenticate env options rc list
        serve env fuel)
  connected-Preserves come fuel options rc = Preserves-bind get _ Preserves-get λ w.
      Preserves-then _ _ (Preserves-ssh_call k _ λ w p. come w p) (
        Preserves-bind _ _ (auth_methods-Preserves k come fuel fuel options) λ list.
          Preserves-then _ _ (authenticate-Preserves k come options rc list)
            (serve-Preserves k reads come fuel))

module _ {role : Role} {P : World → Type 0} {env : Env} (k : Rely role P env)
    (reads : role.reads ≡ true) (mine : (role.free ≡ true) ⊎ (env.me ≡ read_thread)) where
  pub read_thread-Preserves :
      ((w : World) → P w → Past role (some spawned) w)
      → (fuel : ℕ) (options : ConnectionOptions) → Preserves P (read_thread_main env fuel options)
  unfolding read_thread_main
  read_thread-Preserves past fuel options = Preserves-bind get _ Preserves-get λ w.
      Preserves-if (is_exit w.sftp.read_thread_command) _ _ Preserves-skip (
        Preserves-behind _ _ (open_connection-Leads k mine past fuel options) (
          connected-Preserves (Rely-and k (Past-IsLasting role (some shaken))) reads (λ w (p, q). q)
            fuel options))
