-- ===== src/Sftp/Thread.antt =====
-- The thread that serves a session: what it takes to pass the authentication, how the thread
-- ends, and that it keeps the table of sockets.
use power_boot.Prelude.{
  ℕ, zero, suc, ◌≡◌, refl, ◌⊎◌, inl, inr, Bool, true, false, ◌&&◌, ◌||◌, if◌then◌else◌,
}
use power_boot.Prelude.Text.{Text, codes}
use power_boot.World.{World}
use power_boot.World.Session.{Rc, ok}
use power_boot.World.Calls.{read_thread, SshCall}
use power_boot.Effects.{Env, pure, skip}
use power_boot.Effects.Keeps.{
  Pred, Post, Meets, Respects, Keeps, Meets-pure, Meets-bind, Meets-mono, Meets-then,
  Meets-then_known, Meets-if, Meets-loop, Meets-option, Meets-skip, Meets-get, Meets-put_sftp,
  Meets-yield, Meets-printf, Meets-ssh_call, Meets-ssh_reply,
}
use power_boot.Sftp.{is_again, is_negative, is_zero, read_error_throw}
use power_boot.Sftp.Session.{is_open}
use power_boot.Transfer.{ConnectionOptions}
use power_boot.Sftp.ReadThread.{
  publickey_call, password_call, is_read, contains, attempt, authenticate, init_loop, receive,
  serve,
}
use power_boot.Sftp.Outcome.{
  Keeps-read_error_throw, Ends-read_error_throw, Keeps-error_text, Keeps-wait,
}

-- The server offered a method, and accepted it.
abbrev Accepts : Env → Text → Text → SshCall → Type 0
Accepts env method list call =
    (contains method list ≡ true) × ((w : World) × (is_negative (env.ssh_reply w call).rc ≡ false))

abbrev pub Authenticated : Env → ConnectionOptions → Text → Type 0
Authenticated env options list =
    Accepts env (codes "publickey") list (publickey_call options)
    ⊎ Accepts env (codes "password") list (password_call options)

module _ {P : Pred} {env : Env} (r : Respects P env) where
  attempt-Accepts :
      (method : Text) (call : SshCall) (name : Text) (rc : Rc) (list : Text)
      → Meets P P
          (λ b _. b ≡ true → Accepts env method list call)
          (attempt env method call name rc list)
  unfolding attempt
  attempt-Accepts method call name rc list =
      Meets-if (contains method list) _ _
        (λ offered. Meets-bind _ _ (Meets-ssh_reply env r call) λ a _ (w, e).
          Meets-if (is_negative a.rc) _ _
            (λ _.
              Meets-bind _ _ (Keeps-error_text r rc)
                λ st _ _. Meets-then _ _ (Meets-printf env r _) (Meets-pure false (λ _ _ h. cc)))
            (λ fine. Meets-pure true (λ _ _ _. (offered, (w, rw (← e) fine)))))
        (λ _. Meets-pure false (λ _ _ h. cc))

  pub authenticate-Meets :
      (options : ConnectionOptions) (rc : Rc) (list : Text)
      → env.me ≡ read_thread
      → Meets P P (λ _ _. Authenticated env options list) (authenticate env options rc list)
  unfolding authenticate
  authenticate-Meets options rc list own = Meets-then _ _ (Meets-printf env r _) (
      Meets-bind _ _ (attempt-Accepts (codes "publickey") (publickey_call options) _ rc list)
        λ b _ hb. Meets-bind _ _ (second b hb) λ c _ hc.
          Meets-then_known _ _ (passed c hc) λ _ _ h. Meets-mono (Meets-printf env r _) λ _ _ _. h)
    where
      second :
          (b : Bool)
          → (b ≡ true → Accepts env (codes "publickey") list (publickey_call options))
          → Meets P P
              (λ c _. c ≡ true → Authenticated env options list)
              (if b
                then pure true
                else attempt env
                    (codes "password")
                    (password_call options)
                    (codes "Password")
                    rc
                    list)
      second true hb = Meets-pure true (λ _ _ _. inl (hb refl))
      second false hb = Meets-mono (attempt-Accepts _ _ _ rc list) λ c _ hc e. inr (hc e)

      passed :
          (c : Bool)
          → (c ≡ true → Authenticated env options list)
          → Meets P P
              (λ _ _. Authenticated env options list)
              (if c then skip else read_error_throw env (codes "failed to connect"))
      passed true hc = Meets-mono Meets-skip λ _ _ _. hc refl
      passed false hc = Ends-read_error_throw r _ own

  init_loop-Keeps : (fuel waits : ℕ) → Keeps P (init_loop env fuel waits)
  unfolding init_loop
  init_loop-Keeps zero waits = record { run = λ w p. p }
  init_loop-Keeps (suc fuel) waits = Meets-bind _ _ Meets-get λ w _ _.
      Meets-bind _ _ (Meets-ssh_call env r _) λ a _ _. Meets-then _ _ (Meets-put_sftp _) (
        Meets-option a.pointer
          (Meets-bind _ _ Meets-get λ w _ _. Meets-bind _ _ (Meets-ssh_call env r _) λ e _ _.
            Meets-then _ _
              (Meets-if (is_again e.rc) _ _ (λ _. Meets-then _ _ (Keeps-wait r waits) Meets-skip)
                (λ _.
                  Meets-bind _ _ (Keeps-error_text r (ok 0)) λ st _ _. Keeps-read_error_throw r _))
              (init_loop-Keeps fuel waits))
          (λ _ _. Meets-skip))

  receive-Keeps : (fuel : ℕ) → Keeps P (receive env fuel)
  unfolding receive
  receive-Keeps zero = record { run = λ w p. p }
  receive-Keeps (suc fuel) = Meets-bind _ _ Meets-get λ w _ _.
      Meets-loop (is_read w.sftp.read_thread_command && is_open w.sftp.read_thread_state)
        (Meets-bind _ _ (Meets-ssh_call env r _) λ e _ _.
          Meets-loop (is_zero e.rc)
            (Meets-bind _ _ Meets-get λ w _ _. Meets-bind _ _ (Meets-ssh_call env r _) λ a _ _.
              Meets-then _ _
                (Meets-if (is_negative a.rc || is_zero a.rc) _ _ (λ _. Keeps-read_error_throw r _)
                  (λ _. Meets-skip))
                (Meets-then _ _ (Meets-yield env r) (receive-Keeps fuel)))
            Meets-skip)
        Meets-skip

  pub serve-Meets : (fuel : ℕ) → env.me ≡ read_thread → Meets P P (λ _ _. ⊥) (serve env fuel)
  unfolding serve
  serve-Meets fuel own = Meets-then _ _ (init_loop-Keeps fuel fuel) (
      Meets-bind _ _ Meets-get λ w _ _. Meets-bind _ _ (Meets-ssh_call env r _) λ c _ _.
        Meets-then _ _ (Meets-put_sftp _) (
          Meets-then _ _ (Meets-put_sftp _)
            (Meets-then _ _ (receive-Keeps fuel) (Ends-read_error_throw r _ own))))

module _ {P : Pred} {env : Env} (r : Respects P env) where
  -- In its own thread, with a `P` of the table that other threads keep, which spare this one,
  -- `authenticate` returns only where the list names one of the two methods and libssh2 accepts, in
  -- some state, that method with the credentials of the options.
  pub authenticate-Authenticated :
      (options : ConnectionOptions) (rc : Rc) (list : Text) (w : World)
      → env.me ≡ read_thread
      → P w.sockets
      → Post P P (λ _ _. Authenticated env options list) (authenticate env options rc list w)
  authenticate-Authenticated options rc list w own p =
      (authenticate-Meets r options rc list own).run w p

  -- In its own thread, with a `P` of the table that other threads keep, which spare this one,
  -- `serve` never returns: whatever the server does, the thread is disposed of with a report, or
  -- ends in an exception, in undefined behaviour or in a loop that outlasts the fuel.
  serve-Ends :
      (fuel : ℕ) (w : World)
      → env.me ≡ read_thread
      → P w.sockets
      → Post P P (λ _ _. ⊥) (serve env fuel w)
  serve-Ends fuel w own p = (serve-Meets r fuel own).run w p
