-- ===== src/Threads/Outcomes.antt =====
-- Code that keeps what every step keeps, and what then holds with the value that it returns.
use power_boot.Prelude.{
  Bool, true, false, ◌≡◌, ◌⊎◌, inl, inr, ap, refl, some, ◌∷◌, ◌||◌, Bool-cases,
}
use power_boot.Prelude.Text.{Text}
use power_boot.World.{World}
use power_boot.World.Calls.{SshCall, SshReply, ssh, read_thread}
use power_boot.Effects.{
  Env, resume, Run, done, thrown, stopped, spinning, undefined, M, and_then, pure, ◌>>=◌, ◌>>◌,
  ssh_call, dispose_thread,
}
use power_boot.Effects.Steps.{left_by}
use power_boot.Sftp.{read_error_throw}
use power_boot.Threads.{Past, needed, Role, Stage, makes, came, called, disposed}
use power_boot.Threads.Rules.{Rely, Preserves}
use power_boot.Threads.Calls.{Preserves-printf}
use power_boot.Threads.Stages.{Leads, Returned, Past-IsLasting}

-- `S` where the code has returned, of its value.
abbrev pub ReturnedAs : {A : Type 0} → (A → World → Type 0) → Run A → Type 0
ReturnedAs S (done a w) = S a w
ReturnedAs S _ = Unit

-- From where `R` holds `m` leads to `P`, however it ends, and where it returns, to `S` as well.
pub record Gives {A : Type 0} (R P : World → Type 0) (S : A → World → Type 0) (m : M A)
    : Type 0 where
  pub run : (w : World) → R w → P (left_by (m w)) × ReturnedAs S (m w)

module _ {P : World → Type 0} where
  pub Gives-Leads : {A : Type 0} {Q : World → Type 0} {m : M A} → Gives P P (λ _. Q) m → Leads P Q m
  Gives-Leads {A} {Q} {m} g = record { run = λ w p. from (m w) (g.run w p) }
    where
      from : (r : Run A) → P (left_by r) × ReturnedAs (λ _. Q) r → P (left_by r) × Returned Q r
      from (done a w) h = h
      from (thrown w) h = h
      from (stopped w) h = h
      from (spinning w) h = h
      from (undefined w) h = h

  -- What holds of any value in any state that `m` leads to.
  pub Gives-kept :
      {A : Type 0} {R : World → Type 0} {S : A → World → Type 0} {m : M A}
      → ((w : World) → R w → P (left_by (m w)))
      → ((w : World) (a : A) (u : World) → m w ≡ done a u → R w → S a u)
      → Gives R P S m
  Gives-kept {A} {R} {S} {m} keeps known = record { run = λ w q. (keeps w q, from w q (m w) refl) }
    where
      from : (w : World) → R w → (r : Run A) → m w ≡ r → ReturnedAs S r
      from w q (done a u) e = known w a u e q
      from w q (thrown u) e = tt
      from w q (stopped u) e = tt
      from w q (spinning u) e = tt
      from w q (undefined u) e = tt

  pub Gives-sooner :
      {A : Type 0} {R T : World → Type 0} {S : A → World → Type 0} {m : M A}
      → ((w : World) → T w → R w)
      → Gives R P S m
      → Gives T P S m
  Gives-sooner f g = record { run = λ w t. g.run w (f w t) }

  pub Gives-bind :
      {A B : Type 0} {R : World → Type 0} {S : A → World → Type 0} {T : B → World → Type 0}
      (m : M A) (f : A → M B)
      → Gives R P S m
      → ((a : A) → Gives (λ w. P w × S a w) P T (f a))
      → Gives R P T (m >>= f)
  unfolding ◌>>=◌
  Gives-bind {A} {B} {R} {S} {T} m f g h = record { run = λ w q. after (m w) (g.run w q) }
    where
      after :
          (r : Run A)
          → P (left_by r) × ReturnedAs S r
          → P (left_by (and_then r f)) × ReturnedAs T (and_then r f)
      after (done a w) k = (h a).run w k
      after (thrown w) k = (k.0, tt)
      after (stopped w) k = (k.0, tt)
      after (spinning w) k = (k.0, tt)
      after (undefined w) k = (k.0, tt)

  -- Behind code that keeps `P`.
  pub Gives-later :
      {A B : Type 0} {T : B → World → Type 0} (m : M A) (f : A → M B)
      → Preserves P m
      → ((a : A) → Gives P P T (f a))
      → Gives P P T (m >>= f)
  Gives-later m f km h =
      Gives-bind {S = λ _ _. Unit} m f (Gives-kept (λ w p. km.run w p) (λ w a u e p. tt))
        (λ a. Gives-sooner (λ w (p, _). p) (h a))

  pub Gives-then :
      {A B : Type 0} {T : B → World → Type 0} (m : M A) (n : M B)
      → Preserves P m
      → Gives P P T n
      → Gives P P T (m >> n)
  unfolding ◌>>◌
  Gives-then m n km h = Gives-later m (λ _. n) km (λ _. h)

  -- Code that does not return.
  pub Gives-end :
      {A B : Type 0} {T : B → World → Type 0} (m : M A) (n : M B)
      → Gives P P (λ _ _. ⊥) m
      → Gives P P T (m >> n)
  unfolding ◌>>◌
  Gives-end m n g = Gives-bind m (λ _. n) g (λ a. record { run = λ w (p, f). absurd f })

  pub Gives-spinning : {A : Type 0} {T : A → World → Type 0} → Gives P P T spinning
  Gives-spinning = record { run = λ w p. (p, tt) }

  pub Gives-pure :
      {A : Type 0} {S : A → World → Type 0} (a : A) → Gives (λ w. P w × S a w) P S (pure a)
  unfolding pure
  Gives-pure a = record { run = λ w h. h }

  pub Gives-cases :
      {A : Type 0} {R : World → Type 0} {S : A → World → Type 0} (b : Bool) {m n : M A}
      → Gives R P S m
      → Gives R P S n
      → Gives R P S (elim b [ true ↦ m | false ↦ n ])
  Gives-cases true g h = g
  Gives-cases false g h = h

module _ {role : Role} {P : World → Type 0} {env : Env} (k : Rely role P env) where
  -- A call that makes a stage where its reply is as it should be.
  pub ssh_call-Gives :
      (stage : Stage) (c : SshCall) (fine : SshReply → Type 0)
      → ((w : World)
          → fine (env.ssh_reply w c)
          → (role.free ≡ true) ⊎ (makes role stage w.trace (ssh c) ≡ true))
      → ((w : World) → P w → Past role (needed (ssh c)) w)
      → Gives P P (λ r w. fine r → Past role (some stage) w) (ssh_call env c)
  unfolding ssh_call resume
  ssh_call-Gives stage c fine made admits = record {
    run = λ w p.
        let called_it = k.inv.step w _ p (called (ssh c) (admits w p)) in
        let behind = k.interfere _ called_it in
        elim (Bool-cases (env.resumes (env.interfere (record w { trace = ssh c ∷ w.trace })))) [
          | inr e ↦ rw e (behind, tt)
          | inl e ↦ rw e (
            behind,
            λ f.
                (Past-IsLasting role (some stage)).stays _ _ (k.lasts _ called_it)
                  (elim (made w f) [
                    | inl free ↦ inl free
                    | inr m ↦ inr (ap (λ b. b || came role stage w.trace) m)
                  ]),
          )
        ];
  }

  -- `read_error_throw` in the thread that it disposes of.
  pub read_error_throw-Gives :
      (s : Text) → env.me ≡ read_thread → Gives P P (λ _ _. ⊥) (read_error_throw env s)
  unfolding read_error_throw dispose_thread
  read_error_throw-Gives s me =
      Gives-then _ _ (Preserves-printf k _) (
        Gives-end _ _ (record { run = λ w p. rw me (k.inv.step w _ p (disposed read_thread), tt) }))
