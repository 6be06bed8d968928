-- ===== src/Sftp/Server/Applied.antt =====
-- The operations of the client against the abstract server.
use power_boot.Prelude.{
  ℕ, zero, suc, ◌≤◌, ◌<◌, ◌≡◌, refl, ap, ◌∙◌, Bool, true, false, inl, inr, Bool-cases, List, [],
  ◌∷◌, arith, if◌then◌else◌,
}
use mathlib.Core.Path.{subst}
use power_boot.Prelude.Text.{Text}
use power_boot.World.{World}
use power_boot.World.Session.{Rc, again}
use power_boot.World.Calls.{main_thread, ssh}
use power_boot.Effects.{Env, Run, stopped, done, ◌>>◌, ◌>>=◌, skip, pure, and_then}
use power_boot.Sftp.{is_again}
use power_boot.Sftp.Retry.{reply, called, calls}
use power_boot.Sftp.Exact.{Settles, asked, reported}
use power_boot.Sftp.Operations.{Operation, perform, request, stored_by}
use power_boot.Sftp.Performed.{perform-done, perform-stopped, behind_last}
use power_boot.Sftp.Server.{
  Server, asked_again, perform_all, state_behind, apply_all, Ended, Serves, request-is_query,
  busy-state, taken-state, refused-state,
}

stored_by-trace : (op : Operation) (rc : Rc) (w : World) → (stored_by op rc w).trace ≡ w.trace
stored_by-trace (Operation.file_write handle buf) rc w = refl
stored_by-trace (Operation.file_close handle) rc w = refl
stored_by-trace (Operation.file_sync handle) rc w = refl
stored_by-trace (Operation.dir_close handle) rc w = refl
stored_by-trace (Operation.file_setstat handle attr) rc w = refl
stored_by-trace _ rc w = refl

module _ {S : Type 0} {server : Server S} {env : Env} {patience : ℕ}
    (serves : Serves server env patience) where
  called-trace :
      (op : Operation) (w : World)
      → (called env (stored_by op) (request op) w).trace ≡ ssh (request op) ∷ w.trace
  called-trace op w = stored_by-trace op _ _ ∙ serves.alone _

  calls-trace :
      (op : Operation) (k : ℕ) (w : World)
      → (calls env (stored_by op) (request op) k w).trace ≡ asked_again k (request op) w.trace
  calls-trace op zero w = refl
  calls-trace op (suc k) w =
      calls-trace op k (called env (stored_by op) (request op) w)
      ∙ ap (asked_again k (request op)) (called-trace op w)

  -- The call of an operation, in the states in which it is made.
  at_call :
      (op : Operation) (i : ℕ) (w : World)
      → (calls env (stored_by op) (request op) i (stored_by op again w)).trace
        ≡ asked_again i (request op) w.trace
  at_call op i w =
      calls-trace op i (stored_by op again w)
      ∙ ap (asked_again i (request op)) (stored_by-trace op again w)

  again_at :
      (op : Operation) (i : ℕ) (w : World) (b : Bool)
      → server.is_busy (asked_again i (request op) w.trace) (request op) ≡ b
      → is_again
          (reply env
            (stored_by op)
            (request op)
            (calls env (stored_by op) (request op) i (stored_by op again w))).rc
        ≡ b
  again_at op i w b e =
      serves.again _ (request op) ∙ ap (λ t. server.is_busy t (request op)) (at_call op i w) ∙ e

  -- The state of the server does not change while it has the client ask again.
  state_at :
      (op : Operation) (k : ℕ) (w : World)
      → ((i : ℕ) → i < k → server.is_busy (asked_again i (request op) w.trace) (request op) ≡ true)
      → state_behind server (calls env (stored_by op) (request op) k (stored_by op again w)).trace
        ≡ state_behind server w.trace
  state_at op k w busy =
      ap (state_behind server) (at_call op k w) ∙ busy-state server k (request op) w.trace busy

  -- Nor by the report of an error.
  told-state :
      (s : Text) (w : World)
      → state_behind server (reported env s (asked env w)).trace ≡ state_behind server w.trace
  unfolding state_behind
  told-state s w = ap (state_behind server) (serves.alone _ ∙ serves.alone _)

  -- What one operation is to do, and whether it is the last.
  abbrev after : Bool → Operation → S → S × Bool
  after refused op s = if refused then (s, true) else (server.apply (request op) s, false)

  -- One operation: what it is to do is done, or it ends the thread.
  perform-Ended :
      (fuel : ℕ) (op : Operation) (w : World)
      → patience ≤ fuel
      → env.me ≡ main_thread
      → Ended server
          (after
            (server.refuses (state_behind server w.trace) (request op))
            op
            (state_behind server w.trace))
          (perform env fuel op w)
  perform-Ended fuel op w enough main =
      let c = request op in
      let (k, lt, busy, free) = serves.settles w.trace c in
      let settles : Settles env (stored_by op) c k (stored_by op again w) = record {
        busy = λ i h. again_at op i w true (busy i h);
        last = again_at op k w false free;
      } in
      let here = ap (λ t. server.is_busy t c) (at_call op k w) ∙ free in
      let there = state_at op k w busy in
      elim (Bool-cases (server.refuses (state_behind server w.trace) c)) [
        | inl refusal ↦
            let refused_here = ap (λ s. server.refuses s c) there ∙ refusal in
            let (n, bad) = serves.refused _ c here refused_here in
            let (st, text) = serves.text (behind_last env op k w) _ in
            rw
              (
                refusal,
                perform-stopped env op serves.undirected serves.resumes k fuel w
                    (omega (arith, lt, enough)) settles n st bad text main,
              )
              (told-state _ (behind_last env op k w)
                ∙ ap (state_behind server) (called-trace op _)
                ∙ refused-state server c _ refused_here
                ∙ there)
        | inr consent ↦
            rw
              (
                consent,
                perform-done env op serves.undirected serves.resumes k fuel w
                    (omega (arith, lt, enough)) settles
                    (serves.fine _ c here (ap (λ s. server.refuses s c) there ∙ consent)),
              )
              (ap (state_behind server) (called-trace op _)
                ∙ taken-state server c _ (request-is_query op) here
                    (ap (λ s. server.refuses s c) there ∙ consent)
                ∙ ap (server.apply c) there)
      ]

  then-Ended :
      (ops : List Operation) (fuel : ℕ) (r : Run (Unit {0})) (s : S) (b : Bool)
      → Ended server (s, b) r
      → ((w : World)
          → Ended server
              (apply_all server ops (state_behind server w.trace))
              (perform_all env fuel ops w))
      → Ended server
          (if b then (s, true) else apply_all server ops s)
          (and_then r (λ _. perform_all env fuel ops))
  then-Ended ops fuel (done a w) s false e rest =
      subst (λ s. Ended server (apply_all server ops s) (perform_all env fuel ops w)) e (rest w)
  then-Ended ops fuel (stopped w) s true e rest = e
  then-Ended ops fuel _ s false e rest = absurd e
  then-Ended ops fuel _ s true e rest = absurd e

  module _ (fuel : ℕ) (enough : patience ≤ fuel) (main : env.me ≡ main_thread) where
    -- Where the replies are those of an abstract server that settles each call after fewer than
    -- `patience` answers LIBSSH2_ERROR_EAGAIN, `wait` has no direction, and no other thread makes a
    -- call or disposes of this one: operations one after the other in the main thread, with that
    -- fuel, come to their end, or to that of the thread where the server refuses one of them, and
    -- the server has then done what each is to do, once, in their order, and nothing from the first
    -- refusal on.
    pub perform_all-Ended :
        (ops : List Operation) (w : World)
        → Ended server
            (apply_all server ops (state_behind server w.trace))
            (perform_all env fuel ops w)
    unfolding perform_all apply_all skip pure ◌>>◌ ◌>>=◌
    perform_all-Ended [] w = refl
    perform_all-Ended (op ∷ ops) w =
        let s : S = state_behind server w.trace in
        let ends = perform-Ended fuel op w enough main in
        elim (Bool-cases (server.refuses s (request op))) [
          | inl refusal ↦ rw refusal (
              then-Ended ops fuel (perform env fuel op w) s true
                (subst (λ b. Ended server (after b op s) (perform env fuel op w)) refusal ends)
                (perform_all-Ended ops))
          | inr consent ↦ rw consent (
              then-Ended ops fuel (perform env fuel op w) (server.apply (request op) s) false
                (subst (λ b. Ended server (after b op s) (perform env fuel op w)) consent ends)
                (perform_all-Ended ops))
        ]
