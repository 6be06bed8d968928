-- ===== src/Threads/Connecting.antt =====
-- The thread that serves the session in steps of the shared state, up to its authentication.
use power_boot.Prelude.{
  ◌≡◌, ◌⊎◌, Option, inl, true, Bool-cases, some, if◌then◌else◌, ◌++◌, ℕ, zero, suc, refl, inr,
}
use power_boot.Prelude.Text.{Text, codes}
use power_boot.World.{World}
use power_boot.Threads.{spawned, Role, Past, needed, shaken, makes}
use power_boot.Threads.Stages.{Leads, Leads-later, Leads-then}
use power_boot.Threads.Outcomes.{
  Gives, Gives-Leads, Gives-kept, Gives-sooner, Gives-bind, Gives-later, Gives-then, Gives-end,
  Gives-spinning, Gives-pure, Gives-cases, ssh_call-Gives, read_error_throw-Gives,
}
use power_boot.World.Session.{Rc, ok}
use power_boot.World.Calls.{ssh, SshCall, read_thread}
use power_boot.Effects.{Env, get, ◌>>=◌, ◌>>◌, skip, pure}
use power_boot.Net.{sock_stream}
use power_boot.Sftp.{is_again, is_zero, error_text, read_error_throw}
use power_boot.Transfer.{ConnectionOptions}
use power_boot.Sftp.ReadThread.{
  publickey_call, password_call, handshake, open_connection, auth_methods, attempt, authenticate,
}
use power_boot.Threads.Rules.{
  Rely, Preserves, Preserves-pure, Preserves-bind, Preserves-then, Preserves-option, Preserves-get,
  Preserves-spinning,
}
use power_boot.Threads.Calls.{Preserves-ssh_call, Preserves-yield, preserving}
use power_boot.Threads.Writes.{sock_put, hostaddr_put, sin_port_put, userauthlist_put}
use power_boot.Threads.Sockets
use power_boot.Threads.Client.{Preserves-read_error_throw, Preserves-error_text, Preserves-wait}

-- The thread for reading, up to the handshake.
module _ {role : Role} {P : World → Type 0} {env : Env} (k : Rely role P env)
    (past : (w : World) → P w → Past role (some spawned) w) where
  -- A handshake without an error is one that counts.
  shaken-made :
      (session : Option ℕ) (sock : ℕ) (w : World)
      → is_zero (env.ssh_reply w (SshCall.handshake session sock)).rc ≡ true
      → (role.free ≡ true)
        ⊎ (makes role shaken w.trace (ssh (SshCall.handshake session sock)) ≡ true)
  shaken-made session sock w e = elim k.truthful [
    | inl free ↦ inl free
    | inr t ↦ inr (t.handshakes w session sock e)
  ]

  handshake-Gives :
      (fuel : ℕ)
      → Gives P P (λ rc w. is_zero rc ≡ true → Past role (some shaken) w) (handshake env fuel)
  unfolding handshake
  handshake-Gives zero = Gives-spinning
  handshake-Gives (suc fuel) = Gives-later get _ Preserves-get λ w.
      Gives-bind _ _
        (ssh_call-Gives k shaken (SshCall.handshake w.sftp.session w.sftp.sock)
          (λ r. is_zero r.rc ≡ true) (shaken-made w.sftp.session w.sftp.sock) past)
        λ r.
          Gives-cases (is_again r.rc)
            (Gives-sooner (λ w (p, _). p)
              (Gives-then _ _ (Preserves-yield k) (handshake-Gives fuel)))
            (Gives-pure r.rc)

module _ {role : Role} {P : World → Type 0} {env : Env} (k : Rely role P env)
    (mine : (role.free ≡ true) ⊎ (env.me ≡ read_thread)) where
  -- The report of a handshake with an error, behind which the thread does not return.
  failed-Gives :
      (rc : Rc)
      → Gives P P
          (λ _. Past role (some shaken))
          ((do
            st ← error_text env (ok 0)
            read_error_throw env (codes "\nFailure establishing SSH session: " ++ st))
            >> pure rc)
  failed-Gives rc = elim mine [
    | inl free ↦
        Gives-kept
          (λ w p.
            (Preserves-then _ _
                (Preserves-bind _ _ (Preserves-error_text k _) λ st. Preserves-read_error_throw k _)
                (Preserves-pure rc)).run
              w p)
          (λ w a u e p. inl free)
    | inr me ↦
        Gives-end _ _
          (Gives-later _ _ (Preserves-error_text k _) λ st. read_error_throw-Gives k _ me)
  ]

  -- What `open_connection` does with the status of the handshake.
  concluded-Gives :
      (rc : Rc)
      → Gives
          (λ w. P w × (is_zero rc ≡ true → Past role (some shaken) w))
          P
          (λ _. Past role (some shaken))
          ((if is_zero rc then skip else (do
            st ← error_text env (ok 0)
            read_error_throw env (codes "\nFailure establishing SSH session: " ++ st)))
            >> pure rc)
  unfolding ◌>>=◌ ◌>>◌ skip pure
  concluded-Gives rc = elim (Bool-cases (is_zero rc)) [
    | inl e ↦ rw e (record { run = λ w (p, q). (p, q refl) })
    | inr e ↦ rw e (Gives-sooner (λ w (p, _). p) (failed-Gives rc))
  ]

  pub open_connection-Leads :
      ((w : World) → P w → Past role (some spawned) w)
      → (fuel : ℕ) (options : ConnectionOptions)
      → Leads P (Past role (some shaken)) (open_connection env fuel options)
  unfolding open_connection
  open_connection-Leads past fuel options =
      Leads-later _ _ (Sockets.socket-Preserves k sock_stream) λ sock.
        Leads-then _ _ (sock_put k sock) (
          Leads-then _ _ (hostaddr_put k _) (
            Leads-then _ _ (sin_port_put k _) (
              Leads-later _ _ (Sockets.connect-Preserves k fuel) λ status.
                Leads-then _ _ (search (preserving, Preserves-read_error_throw))
                  (Gives-Leads (Gives-bind _ _ (handshake-Gives k past fuel) concluded-Gives)))))

-- Behind the handshake.
module _ {role : Role} {P : World → Type 0} {env : Env} (k : Rely role P env)
    (come : (w : World) → P w → Past role (some shaken) w) where
  pub auth_methods-Preserves :
      (fuel waits : ℕ) (options : ConnectionOptions)
      → Preserves P (auth_methods env fuel waits options)
  unfolding auth_methods
  auth_methods-Preserves zero waits options = Preserves-spinning
  auth_methods-Preserves (suc fuel) waits options = Preserves-bind get _ Preserves-get λ w.
      Preserves-option w.sftp.userauthlist
        (Preserves-bind get _ Preserves-get λ w.
          Preserves-bind _ _ (Preserves-ssh_call k _ λ w p. come w p) λ r.
            Preserves-then _ _ (userauthlist_put k r.text) (
              Preserves-then _ _ (Preserves-wait k waits)
                (auth_methods-Preserves fuel waits options)))
        (λ list. Preserves-pure list)

  attempt-Preserves :
      (method : Text) (call : SshCall) (name : Text) (rc : Rc) (list : Text)
      → ((w : World) → P w → Past role (needed (ssh call)) w)
      → Preserves P (attempt env method call name rc list)
  unfolding attempt
  attempt-Preserves method call name rc list admits =
      search (preserving, Preserves-ssh_call, Preserves-error_text) depth 10

  pub authenticate-Preserves :
      (options : ConnectionOptions) (rc : Rc) (list : Text)
      → Preserves P (authenticate env options rc list)
  unfolding authenticate
  authenticate-Preserves options rc list =
      search
        (
          preserving,
          attempt-Preserves _ (publickey_call options) _ _ _ (λ w p. come w p),
          attempt-Preserves _ (password_call options) _ _ _ (λ w p. come w p),
          Preserves-read_error_throw,
        )
        depth 10
