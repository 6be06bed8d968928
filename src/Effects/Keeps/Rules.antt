-- ===== src/Effects/Keeps/Rules.antt =====
-- Code that meets its specification, and how specifications compose.
use power_boot.Prelude.{ℕ, ◌≡◌, refl, Bool, true, false, Option, none, some, List, if◌then◌else◌}
use power_boot.World.{World}
use power_boot.World.Sockets.{Socket}
use power_boot.Effects.{
  Env, Run, done, thrown, stopped, spinning, undefined, M, pure, and_then, ◌>>=◌, ◌>>◌, resume,
}

abbrev pub Table : Type 0
Table = List (ℕ × Socket)

abbrev pub Pred : Type 1
Pred = Table → Type 0

abbrev pub Post : {A : Type 0} → Pred → Pred → (A → Pred) → Run A → Type 0
Post P E Q (done a w) = P w.sockets × Q a w.sockets
Post P E Q (thrown w) = E w.sockets
Post P E Q (stopped w) = E w.sockets
Post P E Q (spinning w) = E w.sockets
Post P E Q (undefined w) = E w.sockets

pub record Meets {A : Type 0} (P E : Pred) (Q : A → Pred) (m : M A) : Type 0 where
  pub run : (w : World) → P w.sockets → Post P E Q (m w)

-- What other threads do between two turns of this one: they keep `P`, and spare this thread: none
-- disposes of it.
pub record Respects (P : Pred) (env : Env) : Type 0 where
  pub interfere : (w : World) → P w.sockets → P (env.interfere w).sockets
  pub resumes : (w : World) → P w.sockets → env.resumes (env.interfere w) ≡ true

pub Meets-resume :
    {P : Pred} (E : Pred) {env : Env} {A : Type 0} (Q : A → Pred) (r : Respects P env) (a : A)
    (w : World)
    → P w.sockets
    → ((t : Table) → Q a t)
    → Post P E Q (resume env a (env.interfere w))
unfolding resume
Meets-resume E {env} Q r a w p q = rw (r.resumes w p) (r.interfere w p, q (env.interfere w).sockets)

-- Nothing is claimed of a value.
abbrev pub Anything : {A : Type 0} → A → Pred
Anything a t = Unit

-- `m` keeps `P`, however it ends.
abbrev pub Keeps : {A : Type 0} → Pred → M A → Type 0
Keeps P m = Meets P P Anything m

-- `m` returns a value, of which `Q` holds, and keeps `P`.
abbrev pub Gives : {A : Type 0} → Pred → (A → Type 0) → M A → Type 0
Gives P Q m = Meets P (λ _. ⊥) (λ a _. Q a) m

module _ {P E : Pred} where
  pub Meets-pure :
      {A : Type 0} {Q : A → Pred} (a : A) → ((t : Table) → P t → Q a t) → Meets P E Q (pure a)
  unfolding pure
  Meets-pure a q = record { run = λ w p. (p, q w.sockets p) }

  pub Meets-bind :
      {A B : Type 0} {Q : A → Pred} {R : B → Pred} (m : M A) (f : A → M B)
      → Meets P E Q m
      → ((a : A) (t : Table) → Q a t → Meets P E R (f a))
      → Meets P E R (m >>= f)
  unfolding ◌>>=◌
  Meets-bind {A} {B} {Q} {R} m f km kf = record { run = λ w p. after (m w) (km.run w p) }
    where
      after : (r : Run A) → Post P E Q r → Post P E R (and_then r f)
      after (done a w) h = (kf a w.sockets h.1).run w h.0
      after (thrown w) h = h
      after (stopped w) h = h
      after (spinning w) h = h
      after (undefined w) h = h

  pub Meets-mono :
      {A : Type 0} {Q R : A → Pred} {m : M A}
      → Meets P E Q m
      → ((a : A) (t : Table) → Q a t → R a t)
      → Meets P E R m
  Meets-mono {A} {Q} {R} {m} km weaken = record { run = λ w p. go (m w) (km.run w p) }
    where
      go : (r : Run A) → Post P E Q r → Post P E R r
      go (done a w) h = (h.0, weaken a w.sockets h.1)
      go (thrown w) h = h
      go (stopped w) h = h
      go (spinning w) h = h
      go (undefined w) h = h

  pub Meets-then :
      {A B : Type 0} {Q : A → Pred} {R : B → Pred} (m : M A) (n : M B)
      → Meets P E Q m
      → Meets P E R n
      → Meets P E R (m >> n)
  unfolding ◌>>◌
  Meets-then m n km kn = Meets-bind m (λ _. n) km (λ _ _ _. kn)

  -- What is known of the first value serves for the rest.
  pub Meets-then_known :
      {A B : Type 0} {Q : A → Pred} {R : B → Pred} (m : M A) (n : M B)
      → Meets P E Q m
      → ((a : A) (t : Table) → Q a t → Meets P E R n)
      → Meets P E R (m >> n)
  unfolding ◌>>◌
  Meets-then_known m n km kn = Meets-bind m (λ _. n) km kn

  -- Nothing runs behind code that does not return.
  pub Meets-end :
      {A B : Type 0} {R : B → Pred} (m : M A) (n : M B)
      → Meets P E (λ _ _. ⊥) m
      → Meets P E R (m >> n)
  unfolding ◌>>◌
  Meets-end m n km = Meets-bind m (λ _. n) km (λ _ _ h. absurd h)

  pub Meets-if :
      {A : Type 0} {Q : A → Pred} (b : Bool) (m n : M A)
      → (b ≡ true → Meets P E Q m)
      → (b ≡ false → Meets P E Q n)
      → Meets P E Q (if b then m else n)
  Meets-if true m n km kn = km refl
  Meets-if false m n km kn = kn refl

  -- The branches of a loop, which wait for the test.
  pub Meets-loop :
      {A : Type 0} {Q : A → Pred} (b : Bool) {m n : M A}
      → Meets P E Q m
      → Meets P E Q n
      → Meets P E Q (elim b [ true ↦ m | false ↦ n ])
  Meets-loop true km kn = km
  Meets-loop false km kn = kn

  pub Meets-cases :
      {A : Type 0} {Q : A → Pred} (b : Bool) {m n : M A}
      → (b ≡ true → Meets P E Q m)
      → (b ≡ false → Meets P E Q n)
      → Meets P E Q (elim b [ true ↦ m | false ↦ n ])
  Meets-cases true km kn = km refl
  Meets-cases false km kn = kn refl

  pub Meets-option :
      {A B : Type 0} {Q : A → Pred} (o : Option B) {m : M A} {f : B → M A}
      → Meets P E Q m
      → ((b : B) → o ≡ some b → Meets P E Q (f b))
      → Meets P E Q (elim o [ none ↦ m | some b ↦ f b ])
  Meets-option none km kf = km
  Meets-option (some b) km kf = kf b refl
