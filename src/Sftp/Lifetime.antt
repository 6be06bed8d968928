-- ===== src/Sftp/Lifetime.antt =====
-- The whole of `read_thread` over the table of sockets, from the new socket to the end.
use power_boot.Prelude.{ℕ, zero, suc, ◌≡◌, false, ◌++◌, ◌==◌, if◌then◌else◌}
use power_boot.Prelude.Text.{codes}
use power_boot.World.{World}
use power_boot.World.Session.{Rc, ok}
use power_boot.World.Calls.{read_thread, SshCall}
use power_boot.Effects.{Env, ◌>>=◌, ◌>>◌, skip, get, ssh_call}
use power_boot.Effects.Keeps.{
  Pred, Post, Meets, Respects, Keeps, Meets-pure, Meets-bind, Meets-then, Meets-if, Meets-loop,
  Meets-option, Meets-skip, Meets-get, Meets-put_sftp, Meets-yield, Meets-ssh_call,
}
use power_boot.Net.{sock_stream}
use power_boot.Net.Table.{IsTable}
use power_boot.Net.Invariant.{AllRespect, socket-Meets, connect-Meets}
use power_boot.Sftp.{is_again, is_zero, error_text, read_error_throw}
use power_boot.Transfer.{ConnectionOptions}
use power_boot.Sftp.ReadThread.{
  is_exit, handshake, open_connection, auth_methods, authenticate, serve, read_thread_main,
}
use power_boot.Sftp.Outcome.{Keeps-read_error_throw, Keeps-error_text, Keeps-wait}
use power_boot.Sftp.Thread.{authenticate-Meets, serve-Meets}

module _ {P : Pred} {env : Env} (r : Respects P env) where
  handshake-Keeps : (fuel : ℕ) → Keeps P (handshake env fuel)
  unfolding handshake
  handshake-Keeps zero = record { run = λ w p. p }
  handshake-Keeps (suc fuel) = Meets-bind _ _ Meets-get λ w _ _.
      Meets-bind _ _ (Meets-ssh_call env r _) λ a _ _.
        Meets-loop (is_again a.rc) (Meets-then _ _ (Meets-yield env r) (handshake-Keeps fuel))
          (Meets-pure a.rc (λ _ _. tt))

  auth_methods-Keeps :
      (fuel waits : ℕ) (options : ConnectionOptions) → Keeps P (auth_methods env fuel waits options)
  unfolding auth_methods
  auth_methods-Keeps zero waits options = record { run = λ w p. p }
  auth_methods-Keeps (suc fuel) waits options = Meets-bind _ _ Meets-get λ w _ _.
      Meets-option w.sftp.userauthlist
        (Meets-bind _ _ Meets-get λ w _ _. Meets-bind _ _ (Meets-ssh_call env r _) λ a _ _.
          Meets-then _ _ (Meets-put_sftp _)
            (Meets-then _ _ (Keeps-wait r waits) (auth_methods-Keeps fuel waits options)))
        (λ list _. Meets-pure list (λ _ _. tt))

  report_handshake-Keeps :
      (rc : Rc)
      → Keeps P (
          if is_zero rc
          then skip
          else (error_text env (ok 0) >>= λ st.
              read_error_throw env (codes "\nFailure establishing SSH session: " ++ st)))
  report_handshake-Keeps rc =
      Meets-if (is_zero rc) _ _ (λ _. Meets-skip)
        (λ _. Meets-bind _ _ (Keeps-error_text r (ok 0)) λ st _ _. Keeps-read_error_throw r _)

module _ {env : Env} (rs : AllRespect env) {n : ℕ} where
  open_connection-Keeps :
      (fuel : ℕ) (options : ConnectionOptions)
      → Keeps (IsTable n) (open_connection env fuel options)
  unfolding open_connection
  open_connection-Keeps fuel options = Meets-bind _ _ (socket-Meets env rs sock_stream) λ sock _ _.
      Meets-then _ _ (Meets-put_sftp _) (
        Meets-then _ _ (Meets-put_sftp _) (
          Meets-then _ _ (Meets-put_sftp _) (
            Meets-bind _ _ (connect-Meets env (rs n) fuel) λ status _ _.
              Meets-then _ _
                (Meets-if (status == 0) _ _ (λ _. Meets-skip)
                  (λ _. Keeps-read_error_throw (rs n) _))
                (Meets-bind _ _ (handshake-Keeps (rs n) fuel) λ rc _ _.
                  Meets-then _ _ (report_handshake-Keeps (rs n) rc) (Meets-pure rc (λ _ _. tt))))))

  served :
      (fuel : ℕ) (options : ConnectionOptions)
      → env.me ≡ read_thread
      → Meets
          (IsTable n)
          (IsTable n)
          (λ _ _. ⊥)
          (open_connection env fuel options >>= λ rc. get >>= λ w.
            ssh_call env (SshCall.hostkey_hash w.sftp.session)
            >> (auth_methods env fuel fuel options >>= λ list.
                authenticate env options rc list >> serve env fuel))
  served fuel options own = Meets-bind _ _ (open_connection-Keeps fuel options) λ rc _ _.
      Meets-bind get _ Meets-get λ w _ _. Meets-then _ _ (Meets-ssh_call env (rs n) _) (
        Meets-bind _ _ (auth_methods-Keeps (rs n) fuel fuel options) λ list _ _.
          Meets-then _ _ (authenticate-Meets (rs n) options rc list own)
            (serve-Meets (rs n) fuel own))

  -- Where its command is not to exit, on a table as it should be and with other threads that keep
  -- it so and spare this one, `read_thread` in its own thread never returns: it ends in a report,
  -- an exception, undefined behaviour or a loop that outlasts the fuel, whatever Open Transport and
  -- the server reply, and the table then still has its form and no fewer than `n` sockets.
  pub read_thread-Ends :
      (fuel : ℕ) (options : ConnectionOptions) (w : World)
      → env.me ≡ read_thread
      → is_exit w.sftp.read_thread_command ≡ false
      → IsTable n w.sockets
      → Post (IsTable n) (IsTable n) (λ _ _. ⊥) (read_thread_main env fuel options w)
  unfolding read_thread_main ◌>>=◌ get
  read_thread-Ends fuel options w own stays is = rw stays ((served fuel options own).run w is)
