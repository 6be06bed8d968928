-- ===== src/Effects/Keeps/Calls.antt =====
-- What the single steps, the reports of errors and the loops that wait keep.
use power_boot.Prelude.{
  ℕ, zero, suc, ◌≡◌, refl, Bool, true, false, some, ◌∷◌, Option-cases, inl, inr, if◌then◌else◌,
}
use power_boot.Prelude.Text.{Text, show}
use power_boot.Errors.{OsErr, error_name, report}
use power_boot.World.{World, lookup, update}
use power_boot.World.Sockets.{Socket}
use power_boot.World.Session.{Sftp}
use power_boot.World.Calls.{Thread, main_thread, OtCall, OtResult, count, error, SshCall}
use power_boot.Effects.{
  Env, done, stopped, undefined, M, skip, get, put_sftp, put_finished, at, deref, modify,
  same_thread, yield, ot_call, ssh_call, printf, new_thread_of, dispose_thread, mac_error_throw,
  throw_os_err, throw_result, yield_while,
}
use power_boot.Effects.Keeps.Rules.{
  Table, Pred, Post, Meets, Respects, Anything, Keeps, Meets-pure, Meets-bind, Meets-then,
  Meets-loop, Meets-resume,
}

module _ {P E : Pred} where
  pub Meets-skip : Meets P E Anything skip
  unfolding skip
  Meets-skip = Meets-pure tt (λ _ _. tt)

  pub Meets-get : Meets P E Anything get
  unfolding get
  Meets-get = record { run = λ w p. (p, tt) }

  pub Meets-put_sftp : (f : Sftp → Sftp) → Meets P E Anything (put_sftp f)
  unfolding put_sftp
  Meets-put_sftp f = record { run = λ w p. (p, tt) }

  pub Meets-put_finished : (b : Bool) → Meets P E Anything (put_finished b)
  unfolding put_finished
  Meets-put_finished b = record { run = λ w p. (p, tt) }

  -- What `P` says of the entry is known of the object.
  pub Meets-deref :
      (fd : ℕ) (K : Socket → Type 0)
      → ((t : Table) → P t → (s : Socket) × (lookup fd t ≡ some s) × K s)
      → Meets P E (λ s _. K s) (deref fd)
  unfolding deref
  Meets-deref fd K know = record {
    run = λ w p. let (s, e, k) = know w.sockets p in rw (e, deref, Post) (p, k);
  }

  pub Meets-at :
      (fd : ℕ) (K : Socket → Type 0)
      → ((t : Table) → P t → (s : Socket) × (lookup fd t ≡ some s) × K s)
      → Meets P E (λ s _. K s) (at fd)
  unfolding at
  Meets-at fd K know = record {
    run = λ w p. let (s, e, k) = know w.sockets p in rw (e, at, Post) (p, k);
  }

  pub Meets-modify :
      (fd : ℕ) (f : Socket → Socket)
      → ((t : Table) → P t → (s : Socket) × (lookup fd t ≡ some s))
      → ((t : Table) → P t → P (update fd f t))
      → Meets P E Anything (modify fd f)
  unfolding modify
  Meets-modify fd f know kept = record {
    run = λ w p. let (s, e) = know w.sockets p in rw (e, modify, Post) (kept w.sockets p, tt);
  }

  module _ (env : Env) where
    pub Meets-ot_call : (c : OtCall) → Meets P E Anything (ot_call env c)
    unfolding ot_call
    Meets-ot_call c = record { run = λ w p. (p, tt) }

    -- The value is the reply in some state.
    pub Meets-ot_reply :
        (c : OtCall) → Meets P E (λ a _. (w : World) × (a ≡ env.ot_reply w c)) (ot_call env c)
    unfolding ot_call
    Meets-ot_reply c = record { run = λ w p. (p, (w, refl)) }

    pub Meets-new_thread_of : (t : Thread) → Meets P E Anything (new_thread_of env t)
    unfolding new_thread_of
    Meets-new_thread_of t = record { run = λ w p. (p, tt) }

    pub Meets-yield : Respects P env → Meets P E Anything (yield env)
    unfolding yield
    Meets-yield r = record { run = λ w p. Meets-resume _ _ r tt _ p (λ t. tt) }

    pub Meets-printf : Respects P env → (s : Text) → Meets P E Anything (printf env s)
    unfolding printf yield
    Meets-printf r s = record { run = λ w p. Meets-resume _ _ r tt _ p (λ t. tt) }

    pub Meets-ssh_call : Respects P env → (c : SshCall) → Meets P E Anything (ssh_call env c)
    unfolding ssh_call
    Meets-ssh_call r c = record { run = λ w p. Meets-resume _ _ r _ _ p (λ t. tt) }

    pub Meets-ssh_reply :
        Respects P env
        → (c : SshCall) → Meets P E (λ a _. (w : World) × (a ≡ env.ssh_reply w c)) (ssh_call env c)
    unfolding ssh_call
    Meets-ssh_reply r c = record { run = λ w p. Meets-resume _ _ r _ _ p (λ t. (w, refl)) }

    -- A loop whose test fails at once does not yield.
    pub Meets-yield_while-false :
        (fuel : ℕ) (test : M Bool)
        → Meets P E (λ b _. b ≡ false) test
        → Meets P E Anything (yield_while env (suc fuel) test)
    unfolding yield_while
    Meets-yield_while-false fuel test kt = Meets-bind test _ kt λ b t e. rw e Meets-skip

pub Keeps-undefined : {P : Pred} {A : Type 0} → Keeps {A = A} P undefined
Keeps-undefined = record { run = λ w p. p }

-- A missing socket ends the code in `thrown` or `undefined`.
module _ {P : Pred} (fd : ℕ) where
  pub Keeps-at : Keeps P (at fd)
  unfolding at
  Keeps-at = record {
    run = λ w p. elim (Option-cases (lookup fd w.sockets)) [
      | inl e ↦ rw (e, at, Post) p
      | inr (s, e) ↦ rw (e, at, Post) (p, tt)
    ];
  }

  pub Keeps-deref : Keeps P (deref fd)
  unfolding deref
  Keeps-deref = record {
    run = λ w p. elim (Option-cases (lookup fd w.sockets)) [
      | inl e ↦ rw (e, deref, Post) p
      | inr (s, e) ↦ rw (e, deref, Post) (p, tt)
    ];
  }

-- Any loop, and the reports of errors, keep `P`.
module _ {P : Pred} {env : Env} (r : Respects P env) where
  pub Keeps-dispose : (t : Thread) → Keeps P (dispose_thread env t)
  unfolding dispose_thread
  Keeps-dispose t = record { run = λ w p. ended (same_thread env.me t) w p }
    where
      ended :
          (b : Bool) (w : World)
          → P w.sockets
          → Post P P Anything (
              let w' : World = record w { ended = t ∷ w.ended } in
              if b then stopped w' else done tt w')
      ended true w p = p
      ended false w p = (p, tt)

  pub Keeps-mac_error_throw : (s : Text) → Keeps P (mac_error_throw env s)
  unfolding mac_error_throw
  Keeps-mac_error_throw s =
      Meets-then _ _ (Meets-printf env r _)
        (Meets-then _ _ (Keeps-dispose main_thread) (Meets-yield env r))

  Keeps-throw_os_err :
      (file : Text) (line : ℕ) (func : Text) (err : OsErr)
      → Keeps P (throw_os_err env file line func err)
  unfolding throw_os_err
  Keeps-throw_os_err file line func err = elim (Option-cases (error_name err)) [
    | inl e ↦ rw (e, throw_os_err) Meets-skip
    | inr (name, e) ↦
        rw (e, throw_os_err) (Keeps-mac_error_throw (report func file (show line) name))
  ]

  pub Keeps-throw_result :
      (file : Text) (line : ℕ) (func : Text) (o : OtResult)
      → Keeps P (throw_result env file line func o)
  unfolding throw_result
  Keeps-throw_result file line func (count n) = Meets-skip
  Keeps-throw_result file line func (error e) = Keeps-throw_os_err file line func e

  pub Keeps-yield_while :
      (fuel : ℕ) (test : M Bool) → Keeps P test → Keeps P (yield_while env fuel test)
  unfolding yield_while
  Keeps-yield_while zero test kt = record { run = λ w p. p }
  Keeps-yield_while (suc fuel) test kt = Meets-bind test _ kt λ b t _.
      Meets-loop b (Meets-then _ _ (Meets-yield env r) (Keeps-yield_while fuel test kt)) Meets-skip
