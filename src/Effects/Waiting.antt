-- ===== src/Effects/Waiting.antt =====
-- A loop that waits for other threads, yield by yield.
use power_boot.Prelude.{ℕ, zero, suc, ◌<◌, ◌≡◌, true, false, Bool, arith}
use power_boot.World.{World}
use power_boot.Effects.{Env, done, pure, ◌>>=◌, ◌>>◌, skip, get, yield_while}
use power_boot.Effects.Steps.{Resumes, yield-done}

-- One `YieldToAnyThread`, and `k` of them.
abbrev pub turn : Env → World → World
turn env w = env.interfere (record w { ticks = suc w.ticks })

abbrev pub turns : Env → ℕ → World → World
turns env zero w = w
turns env (suc k) w = turns env k (turn env w)

-- Where a test of the state first fails after `k` yields, the loop ends there.
pub yield_while-done :
    (env : Env) (go : Resumes env) (test : World → Bool) (k fuel : ℕ) (w : World)
    → k < fuel
    → ((i : ℕ) → i < k → test (turns env i w) ≡ true)
    → test (turns env k w) ≡ false
    → yield_while env fuel (get >>= λ v. pure (test v)) w ≡ done tt (turns env k w)
unfolding yield_while ◌>>=◌ ◌>>◌ get pure skip
yield_while-done env go test k zero w lt before after = absurd (omega arith)
yield_while-done env go test zero (suc fuel) w lt before after = rw after
yield_while-done env go test (suc k) (suc fuel) w lt before after =
    rw (before 0 (omega arith), yield-done env go w)
      (yield_while-done env go test k fuel (turn env w) (omega arith)
        (λ i h. before (suc i) (omega arith)) after)
