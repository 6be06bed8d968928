-- ===== src/Sftp/Retry.antt =====
-- RC_ERR_HANDLE step by step: how often the call is made, and what becomes of its waits.
use power_boot.Prelude.{ℕ, zero, suc, ◌^◌, ◌≤◌, ◌<◌, ◌≡◌, ap, ◌∙◌, true, false, ◌∷◌, arith, length}
use power_boot.World.{World}
use power_boot.World.Session.{Rc}
use power_boot.World.Calls.{ssh, SshCall, SshReply}
use power_boot.Effects.{Env, done, thrown, M, and_then, pure, ◌>>=◌, ◌>>◌, skip, get, ssh_call}
use power_boot.Effects.Steps.{Resumes, bind-done, then-done, ssh_call-done}
use power_boot.Net.{select_on, select}
use power_boot.Net.Table.{IsTable}
use power_boot.Net.Waiting.{select-thrown}
use power_boot.Sftp.{is_again, wait, retry}

-- A wait in no direction does nothing.
wait-skip :
    (env : Env) (fuel : ℕ) (w : World)
    → env.directions w ≡ (false, false)
    → wait env fuel w ≡ done 0 w
unfolding wait select select_on ◌>>=◌ ◌>>◌ get skip pure
wait-skip env fuel w e = rw e

-- `wait` for input on a small table throws.
wait-thrown :
    (env : Env) (fuel : ℕ) (w : World)
    → (env.directions w).0 ≡ true
    → w.sftp.sock < 32
    → IsTable 0 w.sockets
    → length w.sockets ≤ 2 ^ w.sftp.sock
    → wait env fuel w ≡ thrown w
unfolding wait ◌>>=◌ get
wait-thrown env fuel w inbound small is few =
    rw inbound (select-thrown env fuel w.sftp.sock _ w small is few)

then-thrown :
    {A B : Type 0} (m : M A) (n : M B) (w : World) {w' : World}
    → m w ≡ thrown w'
    → (m >> n) w ≡ thrown w'
unfolding ◌>>◌ ◌>>=◌
then-thrown m n w e = ap (λ r. and_then r (λ _. n)) e

-- `stored` is what the assignment of a status does to the state.
module _ (env : Env) (stored : Rc → World → World) (call : SshCall) where
  abbrev pub reply : World → SshReply
  reply w = env.ssh_reply w call

  -- The state behind a call and the assignment of its status.
  abbrev pub called : World → World
  called w = stored (reply w).rc (env.interfere (record w { trace = ssh call ∷ w.trace }))

  abbrev pub calls : ℕ → World → World
  calls zero w = w
  calls (suc k) w = calls k (called w)

  module _ (store : Rc → M (Unit {0}))
      (storing : (rc : Rc) (w : World) → store rc w ≡ done tt (stored rc w))
      (still : (w : World) → env.directions w ≡ (false, false)) (go : Resumes env) (waits : ℕ) where
    retry-again :
        (fuel : ℕ) (w : World)
        → is_again (reply w).rc ≡ true
        → retry env (suc fuel) waits store call w ≡ retry env fuel waits store call (called w)
    unfolding retry
    retry-again fuel w e = rw (
      bind-done (ssh_call env call) _ w (ssh_call-done env go call w),
      then-done (store (reply w).rc) _ _ (storing (reply w).rc _),
      e,
      then-done (wait env waits) _ _ (wait-skip env waits (called w) (still (called w))),
    )

    retry-last :
        (fuel : ℕ) (w : World)
        → is_again (reply w).rc ≡ false
        → retry env (suc fuel) waits store call w ≡ done (reply w) (called w)
    unfolding retry pure
    retry-last fuel w e = rw (
      bind-done (ssh_call env call) _ w (ssh_call-done env go call w),
      then-done (store (reply w).rc) _ _ (storing (reply w).rc _),
      e,
    )

    -- Where `wait` waits in no direction, no other thread disposes of this one, libssh2 answers
    -- LIBSSH2_ERROR_EAGAIN `k` times, then another status, and the fuel is more than `k`, the loop
    -- of RC_ERR_HANDLE makes the call `k + 1` times in a row, assigning each status, and returns
    -- the last reply.
    pub retry-first :
        (k fuel : ℕ) (w : World)
        → k < fuel
        → ((i : ℕ) → i < k → is_again (reply (calls i w)).rc ≡ true)
        → is_again (reply (calls k w)).rc ≡ false
        → retry env fuel waits store call w ≡ done (reply (calls k w)) (called (calls k w))
    retry-first zero zero w h busy last = absurd (omega arith)
    retry-first zero (suc fuel) w h busy last = retry-last fuel w last
    retry-first (suc k) zero w h busy last = absurd (omega arith)
    retry-first (suc k) (suc fuel) w h busy last =
        retry-again fuel w (busy 0 (omega arith))
        ∙ retry-first k fuel (called w) (omega arith) (λ i lt. busy (suc i) (omega arith)) last

  -- Where `wait` is to wait for input on a socket `sock` below 32, in a table as it should be of
  -- at most 2 ^ sock sockets, a first answer LIBSSH2_ERROR_EAGAIN ends the loop of RC_ERR_HANDLE
  -- in an exception, if no other thread disposes of this one meanwhile.
  pub retry-thrown :
      (store : Rc → M (Unit {0}))
      → ((rc : Rc) (w : World) → store rc w ≡ done tt (stored rc w))
      → Resumes env
      → (fuel waits : ℕ) (w : World) → is_again (reply w).rc ≡ true
      → (env.directions (called w)).0 ≡ true
      → (called w).sftp.sock < 32
      → IsTable 0 (called w).sockets
      → length (called w).sockets ≤ 2 ^ (called w).sftp.sock
      → retry env (suc fuel) waits store call w ≡ thrown (called w)
  unfolding retry
  retry-thrown store storing go fuel waits w e inbound small is few =
      rw
        (
          bind-done (ssh_call env call) _ w (ssh_call-done env go call w),
          then-done (store (reply w).rc) _ _ (storing (reply w).rc _),
          e,
        )
        (then-thrown (wait env waits) _ (called w)
          (wait-thrown env waits (called w) inbound small is few))
