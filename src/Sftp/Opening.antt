-- ===== src/Sftp/Opening.antt =====
-- `SFTP::connect` waits for the thread that it starts.
use power_boot.Prelude.{
  ap, ℕ, zero, suc, ◌≡◌, true, false, none, ◌<◌, not, inl, inr, Option-cases, ◌∷◌,
}
use power_boot.World.{World}
use power_boot.World.Calls.{read_thread, new_thread}
use power_boot.Effects.{Env, done, M, pure, ◌>>=◌, ◌>>◌, skip, get, new_thread_of, yield_while}
use power_boot.Effects.Waiting.{turns, yield_while-done}
use power_boot.Effects.Steps.{Resumes, yield-done, printf-done}
use power_boot.Effects.Keeps.{Pred}
use power_boot.Net.Waiting.{Spins}
use power_boot.Sftp.Session.{is_open, connect}

abbrev IsOpen : World → Type 0
IsOpen w = is_open w.sftp.read_thread_state ≡ true

-- Behind the creation of the thread.
abbrev pub started : World → World
started w = record w { trace = new_thread read_thread ∷ w.trace }

abbrev pub IsClosed : World → Type 0
IsClosed w = is_open w.sftp.read_thread_state ≡ false

module _ (env : Env) (go : Resumes env) where
  -- The loop of `connect`.
  await_open : ℕ → M (Unit {0})
  await_open fuel =
      yield_while env fuel (get >>= λ w. pure (not (is_open w.sftp.read_thread_state)))

  await_open-done :
      (k fuel : ℕ) (w : World)
      → k < fuel
      → ((i : ℕ) → i < k → IsClosed (turns env i w))
      → IsOpen (turns env k w)
      → await_open fuel w ≡ done tt (turns env k w)
  unfolding await_open
  await_open-done k fuel w lt closed o =
      yield_while-done env go (λ v. not (is_open v.sftp.read_thread_state)) k fuel w lt
        (λ i h. ap not (closed i h)) (ap not o)

  -- The other threads do not open the session, as long as they keep `P` of the table.
  await_open-Spins :
      (P : Pred)
      → ((w : World)
          → P w.sockets
          → IsClosed w
          → P (env.interfere w).sockets × IsClosed (env.interfere w))
      → (fuel : ℕ) (w : World) → P w.sockets
      → IsClosed w
      → Spins (await_open fuel w)
  unfolding await_open yield_while ◌>>=◌ ◌>>◌ get pure skip
  await_open-Spins P shut zero w p c = tt
  await_open-Spins P shut (suc fuel) w p c =
      let (q, d) = shut _ p c in rw (c, yield-done env go w) (await_open-Spins P shut fuel _ q d)

  pub connect-Spins_while :
      (P : Pred)
      → ((w : World)
          → P w.sockets
          → IsClosed w
          → P (env.interfere w).sockets × IsClosed (env.interfere w))
      → (fuel : ℕ) (w : World) → P w.sockets
      → IsClosed w
      → Spins (connect env fuel w)
  unfolding connect new_thread_of ◌>>=◌ ◌>>◌ get skip await_open pure yield_while
  connect-Spins_while P shut fuel w p c = elim (Option-cases (env.thread_error (started w))) [
    | inl e ↦ rw e (await_open-Spins P shut fuel _ p c)
    | inr (err, e) ↦
        rw (e, printf-done env go _ (started w))
          (let (q, d) = shut _ p c in await_open-Spins P shut fuel _ q d)
  ]

  -- Where the thread is created, no other thread disposes of this one, and the session is first
  -- open after `k` yields, `SFTP::connect` with more fuel than `k` returns, behind these yields and
  -- in that state: no later and no earlier.
  pub connect-done :
      (k fuel : ℕ) (w : World)
      → env.thread_error (started w) ≡ none
      → k < fuel
      → ((i : ℕ) → i < k → IsClosed (turns env i (started w)))
      → IsOpen (turns env k (started w))
      → connect env fuel w ≡ done tt (turns env k (started w))
  unfolding connect new_thread_of ◌>>=◌ ◌>>◌ get skip pure await_open
  connect-done k fuel w created lt closed o =
      rw created (await_open-done k fuel (started w) lt closed o)

  -- Where no other thread disposes of this one or opens the session, `SFTP::connect` outlasts every
  -- fuel: also where the thread that is to open it could not be created.
  connect-Spins :
      (fuel : ℕ) (w : World)
      → ((w : World) → IsClosed w → IsClosed (env.interfere w))
      → IsClosed w
      → Spins (connect env fuel w)
  connect-Spins fuel w shut c =
      connect-Spins_while (λ _. Unit) (λ v _ d. (tt, shut v d)) fuel w tt c
