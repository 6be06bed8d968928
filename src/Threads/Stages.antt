-- ===== src/Threads/Stages.antt =====
-- Code that keeps what every step keeps and comes, if it returns, to a further stage.
use power_boot.Prelude.{
  Option, none, some, Bool, true, false, ◌≡◌, refl, ◌||◌, List, [], ◌∷◌, ◌++◌, ap, sym, Bool-cases,
  inl, inr, suc, zero, ℕ, not,
}
use power_boot.World.{World}
use power_boot.Effects.{
  Env, resume, Run, done, thrown, stopped, undefined, M, and_then, pure, spinning, ◌>>=◌, ◌>>◌, get,
  ssh_call, yield, yield_while, skip,
}
use power_boot.Effects.Steps.{left_by}
use mathlib.Core.Path.{subst}
use power_boot.World.Calls.{Call, ssh, SshCall}
use power_boot.World.Session.{ReadThreadState, open_state}
use power_boot.Sftp.Session.{is_open}
use power_boot.Threads.{Past, needed, Role, Stage, makes, came, Past, needed, called}
use power_boot.Threads.Lasting.{Lasts}
use power_boot.Threads.Rules.{Rely, IsLasting, Preserves}
use power_boot.Threads.Calls.{Preserves-yield}

-- The session is open.
abbrev pub Opened : World → Type 0
Opened w = w.sftp.read_thread_state ≡ open_state

pub or_right : (a : Bool) {b : Bool} → b ≡ true → (a || b) ≡ true
or_right true e = refl
or_right false e = e

came-append :
    (role : Role) (stage : Stage) (more old : List Call)
    → came role stage old ≡ true
    → came role stage (more ++ old) ≡ true
came-append role stage [] old e = e
came-append role stage (c ∷ more) old e =
    or_right (makes role stage (more ++ old) c) (came-append role stage more old e)

-- A stage that was come to is behind for good.
pub Past-IsLasting : (role : Role) (stage : Option Stage) → IsLasting (Past role stage)
Past-IsLasting role none = record { stays = λ w u l e. inr tt }
Past-IsLasting role (some stage) = record { stays = λ w u l e. later w u l e }
  where
    later : (w u : World) → Lasts w u → Past role (some stage) w → Past role (some stage) u
    later w u l (inl free) = inl free
    later w u l (inr e) =
        let (more, grown) = l.grown.trace in
        inr (
          subst (λ t. came role stage t ≡ true) (sym grown) (came-append role stage more w.trace e))

pub Opened-IsLasting : IsLasting Opened
Opened-IsLasting = record { stays = λ w u l e. l.client.stays_open e }

is_open-Opened : (s : ReadThreadState) → is_open s ≡ true → s ≡ open_state
is_open-Opened open_state e = refl
is_open-Opened ReadThreadState.uninitialized e = absurd (cc e)
is_open-Opened ReadThreadState.cleanup e = absurd (cc e)
is_open-Opened ReadThreadState.done_state e = absurd (cc e)

-- `Q` where the code has returned.
abbrev pub Returned : {A : Type 0} → (World → Type 0) → Run A → Type 0
Returned Q (done a w) = Q w
Returned Q _ = Unit

-- `m` keeps `P`, however it ends, and where it returns, `Q` holds.
pub record Leads {A : Type 0} (P Q : World → Type 0) (m : M A) : Type 0 where
  pub run : (w : World) → P w → P (left_by (m w)) × Returned Q (m w)

resume-Returned :
    (P Q : World → Type 0) (env : Env) {A : Type 0} (a : A) (w : World)
    → P w
    → Q w
    → P (left_by (resume env a w)) × Returned Q (resume env a w)
unfolding resume
resume-Returned P Q env a w p q = elim (Bool-cases (env.resumes w)) [
  | inl e ↦ rw e (p, q)
  | inr e ↦ rw e (p, tt)
]

module _ {P Q : World → Type 0} where
  -- The stage is behind `m`: it was come to before.
  pub Preserves-behind :
      {A B : Type 0} (m : M A) (f : A → M B)
      → Leads P Q m
      → ((a : A) → Preserves (λ w. P w × Q w) (f a))
      → Preserves P (m >>= f)
  unfolding ◌>>=◌
  Preserves-behind {A} {B} m f km kf = record { run = λ w p. after (m w) (km.run w p) }
    where
      after : (r : Run A) → P (left_by r) × Returned Q r → P (left_by (and_then r f))
      after (done a w) h = ((kf a).run w h).0
      after (thrown w) h = h.0
      after (stopped w) h = h.0
      after (spinning w) h = h.0
      after (undefined w) h = h.0

  -- The stage is made by `m`, and lasts.
  pub Leads-first :
      {A B : Type 0} (m : M A) (f : A → M B)
      → Leads P Q m
      → ((a : A) → Preserves (λ w. P w × Q w) (f a))
      → Leads P Q (m >>= f)
  unfolding ◌>>=◌
  Leads-first {A} {B} m f km kf = record { run = λ w p. after (m w) (km.run w p) }
    where
      returned : (r : Run B) → P (left_by r) × Q (left_by r) → P (left_by r) × Returned Q r
      returned (done a w) h = h
      returned (thrown w) h = (h.0, tt)
      returned (stopped w) h = (h.0, tt)
      returned (spinning w) h = (h.0, tt)
      returned (undefined w) h = (h.0, tt)

      after :
          (r : Run A)
          → P (left_by r) × Returned Q r
          → P (left_by (and_then r f)) × Returned Q (and_then r f)
      after (done a w) h = returned (f a w) ((kf a).run w h)
      after (thrown w) h = h
      after (stopped w) h = h
      after (spinning w) h = h
      after (undefined w) h = h

  -- The stage is made behind `m`.
  pub Leads-later :
      {A B : Type 0} (m : M A) (f : A → M B)
      → Preserves P m
      → ((a : A) → Leads P Q (f a))
      → Leads P Q (m >>= f)
  unfolding ◌>>=◌
  Leads-later {A} {B} m f km kf = record { run = λ w p. after (m w) (km.run w p) }
    where
      after : (r : Run A) → P (left_by r) → P (left_by (and_then r f)) × Returned Q (and_then r f)
      after (done a w) h = (kf a).run w h
      after (thrown w) h = (h, tt)
      after (stopped w) h = (h, tt)
      after (spinning w) h = (h, tt)
      after (undefined w) h = (h, tt)

  pub Preserves-behind_then :
      {A B : Type 0} (m : M A) (n : M B)
      → Leads P Q m
      → Preserves (λ w. P w × Q w) n
      → Preserves P (m >> n)
  unfolding ◌>>◌
  Preserves-behind_then m n km kn = Preserves-behind m (λ _. n) km (λ _. kn)

  pub Leads-then :
      {A B : Type 0} (m : M A) (n : M B) → Preserves P m → Leads P Q n → Leads P Q (m >> n)
  unfolding ◌>>◌
  Leads-then m n km kn = Leads-later m (λ _. n) km (λ _. kn)

  pub Leads-spinning : {A : Type 0} → Leads {A = A} P Q spinning
  Leads-spinning = record { run = λ w p. (p, tt) }

module _ {role : Role} {P : World → Type 0} {env : Env} (k : Rely role P env) where
  -- The call that makes a stage.
  pub ssh_call-Leads :
      (stage : Stage) (c : SshCall)
      → ((trace : List Call) → makes role stage trace (ssh c) ≡ true)
      → ((w : World) → P w → Past role (needed (ssh c)) w)
      → Leads P (Past role (some stage)) (ssh_call env c)
  unfolding ssh_call
  ssh_call-Leads stage c e admits = record {
    run = λ w p.
        let called_it = k.inv.step w _ p (called (ssh c) (admits w p)) in
        resume-Returned P (Past role (some stage)) env _ _ (k.interfere _ called_it) (
          (Past-IsLasting role (some stage)).stays _ _ (k.lasts _ called_it)
            (inr (ap (λ b. b || came role stage w.trace) (e w.trace))));
  }

  -- The loop of `SFTP::connect` ends where the session is open.
  pub await_open-Leads :
      (fuel : ℕ)
      → Leads P Opened
          (yield_while env fuel (get >>= λ w. pure (not (is_open w.sftp.read_thread_state))))
  unfolding yield_while ◌>>=◌ get pure skip
  await_open-Leads zero = Leads-spinning
  await_open-Leads (suc fuel) = record {
    run = λ w p. elim (Bool-cases (is_open w.sftp.read_thread_state)) [
      | inl e ↦ rw e (p, is_open-Opened _ e)
      | inr e ↦
          rw e ((Leads-then (yield env) _ (Preserves-yield k) (await_open-Leads fuel)).run w p)
    ];
  }
