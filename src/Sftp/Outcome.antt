-- ===== src/Sftp/Outcome.antt =====
-- How the operations of the client end, over a predicate `P` of the table of sockets that every
-- thread keeps: what a value that they return says of the replies of libssh2.
use power_boot.Prelude.{
  ℕ, zero, suc, ◌≡◌, refl, Bool, true, false, Option, none, some, inl, inr, Bool-cases,
}
use power_boot.Prelude.Text.{Text}
use power_boot.World.{World}
use power_boot.World.Sockets.{Socket}
use power_boot.World.Session.{Rc, again}
use power_boot.World.Calls.{Thread, main_thread, read_thread, SshCall}
use power_boot.Effects.{Env, M, same_thread, dispose_thread}
use power_boot.Effects.Keeps.{
  Pred, Post, Meets, Respects, Anything, Keeps, Meets-pure, Meets-bind, Meets-then, Meets-end,
  Meets-if, Meets-cases, Meets-skip, Meets-get, Meets-yield, Meets-printf, Meets-ssh_call,
  Meets-ssh_reply, Keeps-at, Keeps-deref, Keeps-undefined, Keeps-dispose, Keeps-yield_while,
}
use power_boot.Net.{select_on, select}
use power_boot.Net.FdSets.{FdSet, first_word}
use power_boot.Sftp.{
  is_again, is_negative, is_one, require, error_throw, read_error_throw, error_msg, error_text,
  wait, retry, rc_err_handle,
}

Keeps-require : {P : Pred} {A : Type 0} (o : Option A) → Keeps P (require o)
unfolding require
Keeps-require none = Keeps-undefined
Keeps-require (some a) = Meets-pure a (λ _ _. tt)

-- A thread that disposes of itself does not go on.
same_thread_refl : (t : Thread) → same_thread t t ≡ true
same_thread_refl Thread.main_thread = refl
same_thread_refl Thread.read_thread = refl
same_thread_refl Thread.connect_thread = refl
same_thread_refl Thread.other_thread = refl

module _ {P : Pred} {env : Env} (r : Respects P env) where
  Ends-dispose : (t : Thread) → env.me ≡ t → Meets P P (λ _ _. ⊥) (dispose_thread env t)
  unfolding dispose_thread
  Ends-dispose t e = record { run = λ w p. rw (e, same_thread_refl t, dispose_thread, Post) p }

  pub Keeps-error_throw : (s : Text) → Keeps P (error_throw env s)
  unfolding error_throw
  Keeps-error_throw s =
      Meets-then _ _ (Meets-printf env r _)
        (Meets-then _ _ (Keeps-dispose r main_thread) (Meets-yield env r))

  pub Keeps-read_error_throw : (s : Text) → Keeps P (read_error_throw env s)
  unfolding read_error_throw
  Keeps-read_error_throw s =
      Meets-then _ _ (Meets-printf env r _)
        (Meets-then _ _ (Keeps-dispose r read_thread) (Meets-yield env r))

  Ends-error_throw :
      {Q : Unit {0} → Pred} (s : Text) → env.me ≡ main_thread → Meets P P Q (error_throw env s)
  unfolding error_throw
  Ends-error_throw s e =
      Meets-then _ _ (Meets-printf env r _) (Meets-end _ _ (Ends-dispose main_thread e))

  pub Ends-read_error_throw :
      {Q : Unit {0} → Pred} (s : Text) → env.me ≡ read_thread → Meets P P Q (read_error_throw env s)
  unfolding read_error_throw
  Ends-read_error_throw s e =
      Meets-then _ _ (Meets-printf env r _) (Meets-end _ _ (Ends-dispose read_thread e))

  pub Keeps-error_text : (err : Rc) → Keeps P (error_text env err)
  unfolding error_text error_msg
  Keeps-error_text err =
      Meets-bind _ _
        (Meets-if {Q = Anything} (is_one err) _ _ (λ _. Meets-pure none (λ _ _. tt))
          (λ _. Meets-bind _ _ Meets-get λ w _ _.
            Meets-bind _ _ (Meets-ssh_call env r _)
              λ a _ _. Meets-bind _ _ (Keeps-require a.text) λ st _ _. Meets-pure _ (λ _ _. tt)))
        λ o _ _. Keeps-require o

  Keeps-select_on :
      (fuel : ℕ) (halted : Socket → Bool) (o : Option FdSet) → Keeps P (select_on env fuel halted o)
  unfolding select_on
  Keeps-select_on fuel halted none = Meets-skip
  Keeps-select_on fuel halted (some fds) = Meets-then _ _ (Keeps-at (first_word fds)) (
      Keeps-yield_while r fuel _
        (Meets-bind _ _ (Keeps-deref (first_word fds)) λ s _ _. Meets-pure (halted s) (λ _ _. tt)))

  Keeps-select : (fuel : ℕ) (a b : Option FdSet) → Keeps P (select env fuel a b)
  unfolding select
  Keeps-select fuel a b =
      Meets-then _ _ (Keeps-select_on fuel _ a)
        (Meets-then _ _ (Keeps-select_on fuel _ b) (Meets-pure 0 (λ _ _. tt)))

  pub Keeps-wait : (fuel : ℕ) → Keeps P (wait env fuel)
  unfolding wait
  Keeps-wait fuel = Meets-bind _ _ Meets-get λ w _ _. Keeps-select fuel _ _

  -- What the loop of RC_ERR_HANDLE returns is a reply, and not LIBSSH2_ERROR_EAGAIN.
  retry-reply :
      (fuel waits : ℕ) (store : Rc → M (Unit {0})) (call : SshCall)
      → ((rc : Rc) → Keeps P (store rc))
      → Meets P P
          (λ a _. (is_again a.rc ≡ false) × ((w : World) × (a ≡ env.ssh_reply w call)))
          (retry env fuel waits store call)
  unfolding retry
  retry-reply zero waits store call ks = record { run = λ w p. p }
  retry-reply (suc fuel) waits store call ks =
      Meets-bind _ _ (Meets-ssh_reply env r call) λ a _ known. Meets-then _ _ (ks a.rc) (
        Meets-cases (is_again a.rc)
          (λ _. Meets-then _ _ (Keeps-wait waits) (retry-reply fuel waits store call ks))
          (λ e. Meets-pure a (λ _ _. (e, known))))

  pub rc_err_handle-Meets :
      (fuel : ℕ) (store : Rc → M (Unit {0})) (funcname : Text) (call : SshCall)
      → ((rc : Rc) → Keeps P (store rc))
      → env.me ≡ main_thread
      → Meets P P
          (λ a _. (is_negative a.rc ≡ false) × ((w : World) × (a ≡ env.ssh_reply w call)))
          (rc_err_handle env fuel store funcname call)
  unfolding rc_err_handle
  rc_err_handle-Meets fuel store funcname call ks main = Meets-then _ _ (ks again) (
      Meets-bind _ _ (retry-reply fuel fuel store call ks) λ a _ (e, known).
        elim (Bool-cases (is_negative a.rc)) [
          | inl neg ↦ rw neg (
              Meets-end _ _
                (Meets-bind _ _ (Keeps-error_text a.rc) λ st _ _. Ends-error_throw _ main))
          | inr fine ↦ rw fine (Meets-then _ _ Meets-skip (Meets-pure a (λ _ _. (fine, known))))
        ])

module _ {P : Pred} {env : Env} (r : Respects P env) where
  -- Where `P` of the table is kept by other threads, which spare this one, and by the assignment,
  -- RC_ERR_HANDLE in the main thread keeps it, and if it returns, it gives a reply that libssh2 has
  -- to the call in some state, whose status is no error.
  pub rc_err_handle-succeeds :
      (fuel : ℕ) (store : Rc → M (Unit {0})) (funcname : Text) (call : SshCall) (w : World)
      → ((rc : Rc) → Keeps P (store rc))
      → env.me ≡ main_thread
      → P w.sockets
      → Post P P
          (λ a _. (is_negative a.rc ≡ false) × ((w : World) × (a ≡ env.ssh_reply w call)))
          (rc_err_handle env fuel store funcname call w)
  rc_err_handle-succeeds fuel store funcname call w ks main p =
      (rc_err_handle-Meets r fuel store funcname call ks main).run w p
