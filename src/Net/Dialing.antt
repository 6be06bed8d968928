-- ===== src/Net/Dialing.antt =====
-- How long `connect` waits, and what becomes of its thread.
use power_boot.Prelude.{ℕ, ◌<◌, ◌≡◌, ap, true, false, not, ◌∷◌}
use power_boot.World.{World}
use power_boot.World.Calls.{connect_thread, new_thread}
use power_boot.Effects.{Env, done, pure, ◌>>=◌, ◌>>◌, same_thread, new_thread_of, dispose_thread}
use power_boot.Effects.Waiting.{turn, turns, yield_while-done}
use power_boot.Effects.Steps.{Resumes, yield-done}
use power_boot.Net.{connect}

-- Behind the creation of the thread.
abbrev pub created : World → World
created w = record w { trace = new_thread connect_thread ∷ w.trace }

-- Behind its end.
abbrev pub disposed : World → World
disposed w = record w { ended = connect_thread ∷ w.ended }

-- Where the flag `finished` is first set after `k` yields, `connect`, in a thread other than the
-- one that it creates, of which no other thread disposes, and with more fuel than `k`, disposes of
-- that thread behind these yields, yields once more and returns 0. With `k` 0, where the flag is
-- set from the start, that is before the thread has had a turn.
pub connect-returns :
    (env : Env) (go : Resumes env) (k fuel : ℕ) (w : World)
    → same_thread env.me connect_thread ≡ false
    → k < fuel
    → ((i : ℕ) → i < k → (turns env i (created w)).finished ≡ false)
    → (turns env k (created w)).finished ≡ true
    → connect env fuel w ≡ done 0 (turn env (disposed (turns env k (created w))))
unfolding connect new_thread_of dispose_thread pure ◌>>=◌ ◌>>◌
connect-returns env go k fuel w other lt before after = rw (
  yield_while-done env go (λ v. not v.finished) k fuel (created w) lt (λ i h. ap not (before i h))
      (ap not after),
  other,
  yield-done env go (disposed (turns env k (created w))),
)
