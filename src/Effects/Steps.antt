-- ===== src/Effects/Steps.antt =====
-- The first step of a piece of code, where it is known what it does.
use power_boot.Prelude.{ℕ, Bool-cases, inl, inr, suc, ◌≡◌, true, some, ap, ◌∷◌}
use power_boot.Prelude.Text.{Text}
use power_boot.World.{World, lookup, update}
use power_boot.World.Sockets.{Socket}
use power_boot.Effects.{
  Run, done, thrown, stopped, spinning, undefined, M, and_then, ◌>>=◌, ◌>>◌, at, modify, Env,
  resume, ssh_call, yield, printf,
}
use power_boot.World.Calls.{SshCall, ssh}

-- The state that a piece of code leaves, however it ends.
abbrev pub left_by : {A : Type 0} → Run A → World
left_by (done a w) = w
left_by (thrown w) = w
left_by (stopped w) = w
left_by (spinning w) = w
left_by (undefined w) = w

module _ {A B : Type 0} where
  pub bind-done :
      (m : M A) (f : A → M B) (w : World) {a : A} {w' : World}
      → m w ≡ done a w'
      → (m >>= f) w ≡ f a w'
  unfolding ◌>>=◌
  bind-done m f w e = ap (λ r. and_then r f) e

  pub then-done :
      (m : M A) (n : M B) (w : World) {a : A} {w' : World} → m w ≡ done a w' → (m >> n) w ≡ n w'
  unfolding ◌>>◌ ◌>>=◌
  then-done m n w e = ap (λ r. and_then r (λ _. n)) e

pub at-done : (fd : ℕ) (w : World) (s : Socket) → lookup fd w.sockets ≡ some s → at fd w ≡ done s w
unfolding at
at-done fd w s e = rw (e, at)

pub modify-done :
    (fd : ℕ) (f : Socket → Socket) (w : World) (s : Socket)
    → lookup fd w.sockets ≡ some s
    → modify fd f w ≡ done tt (record w { sockets = update fd f w.sockets })
unfolding modify
modify-done fd f w s e = rw (e, modify)

-- The other threads spare this one: none disposes of it.
abbrev pub Resumes : Env → Type 0
Resumes env = (w : World) → env.resumes w ≡ true

resume-done :
    (env : Env) {A : Type 0} (a : A) (w : World) → env.resumes w ≡ true → resume env a w ≡ done a w
unfolding resume
resume-done env a w e = rw e

pub yield-done_at :
    (env : Env) (w : World)
    → env.resumes (env.interfere (record w { ticks = suc w.ticks })) ≡ true
    → yield env w ≡ done tt (env.interfere (record w { ticks = suc w.ticks }))
unfolding yield
yield-done_at env w e = resume-done env tt _ e

module _ (env : Env) (go : Resumes env) where
  pub ssh_call-done :
      (c : SshCall) (w : World)
      → ssh_call env c w
        ≡ done (env.ssh_reply w c) (env.interfere (record w { trace = ssh c ∷ w.trace }))
  unfolding ssh_call
  ssh_call-done c w = resume-done env _ _ (go _)

  pub yield-done :
      (w : World) → yield env w ≡ done tt (env.interfere (record w { ticks = suc w.ticks }))
  yield-done w = yield-done_at env w (go _)

  pub printf-done :
      (s : Text) (w : World)
      → printf env s w
        ≡ done tt (env.interfere (record w { stdout = s ∷ w.stdout; ticks = suc w.ticks }))
  unfolding printf
  printf-done s w = yield-done _

-- Whether or not the thread goes on, it leaves the state that it found.
pub left_by-resume :
    (P : World → Type 0) (env : Env) {A : Type 0} (a : A) (w : World)
    → P w
    → P (left_by (resume env a w))
unfolding resume
left_by-resume P env a w p = elim (Bool-cases (env.resumes w)) [ inl e ↦ rw e p | inr e ↦ rw e p ]
