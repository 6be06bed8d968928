-- ===== src/Sftp/Server.antt =====
-- The client as its server sees it: an abstract server that takes each operation once, in their
-- order and up to the first that it refuses, however often it has the client ask again.
pub mod Applied
use power_boot.Prelude.{
  ℕ, zero, suc, ◌+◌, ◌≤◌, ◌<◌, ◌≡◌, refl, ap, sym, ◌∙◌, Bool, true, false, ◌||◌, Option, some, inl,
  inr, Bool-cases, List, [], ◌∷◌, arith, if◌then◌else◌,
}
use mathlib.Core.Path.{subst}
use power_boot.Prelude.Text.{Text}
use power_boot.World.{World}
use power_boot.World.Session.{Rc, again, failed}
use power_boot.World.Calls.{main_thread, SshCall, Call, ot, ssh, new_thread}
use power_boot.Effects.{Env, Run, stopped, done, M, ◌>>◌, ◌>>=◌, skip, pure, and_then}
use power_boot.Effects.Steps.{then-done}
use power_boot.Effects.Steps.{Resumes}
use power_boot.Sftp.{is_again, is_negative}
use power_boot.Sftp.Retry.{reply, called, calls}
use power_boot.Sftp.Exact.{Settles, Undirected, asked, reported}
use power_boot.Sftp.Operations.{Operation, perform, request, stored_by}
use power_boot.Sftp.Performed.{perform-done, perform-stopped, behind_last}

-- A server: what a call that it takes does to its state, which calls it refuses, and when it has
-- the client ask again, by the calls so far.
pub record Server (S : Type 0) : Type 0 where
  pub start : S
  pub apply : SshCall → S → S
  pub refuses : S → SshCall → Bool
  pub is_busy : List Call → SshCall → Bool

-- The text of the last error is at hand without the server.
abbrev pub is_query : SshCall → Bool
is_query (SshCall.last_error session) = true
is_query _ = false

pub request-is_query : (op : Operation) → is_query (request op) ≡ false
request-is_query (Operation.file_write handle buf) = refl
request-is_query _ = refl

-- The calls so far with `k` more of one call.
abbrev pub asked_again : ℕ → SshCall → List Call → List Call
asked_again zero call t = t
asked_again (suc k) call t = asked_again k call (ssh call ∷ t)

-- The operations one after the other.
unfoldable pub perform_all : Env → ℕ → List Operation → M (Unit {0})
perform_all env fuel [] = skip
perform_all env fuel (op ∷ ops) = perform env fuel op >> perform_all env fuel ops

or_second : (a b c : Bool) → b ≡ true → a || b || c ≡ true
or_second true b c e = refl
or_second false b c e = rw e

or_third : (a b c : Bool) → c ≡ true → a || b || c ≡ true
or_third true b c e = refl
or_third false true c e = refl
or_third false false c e = e

module _ {S : Type 0} (server : Server S) where
  -- The state of the server behind some calls, the newest first: a call that it was too busy for
  -- has done nothing.
  unfoldable pub state_behind : List Call → S
  state_behind [] = server.start
  state_behind (ot c ∷ t) = state_behind t
  state_behind (new_thread u ∷ t) = state_behind t
  state_behind (ssh c ∷ t) =
      let rest = state_behind t in
      if is_query c || server.is_busy t c || server.refuses rest c
      then rest
      else server.apply c rest

  -- What the operations are to do, each once, up to the first that is refused, and whether there
  -- is such a one.
  unfoldable pub apply_all : List Operation → S → S × Bool
  apply_all [] s = (s, false)
  apply_all (op ∷ ops) s =
      let rest = apply_all ops (server.apply (request op) s) in
      if server.refuses s (request op) then (s, true) else rest

  -- How they end: the thread comes to their end, or is disposed of.
  abbrev pub Ended : S × Bool → Run (Unit {0}) → Type 0
  Ended (s, false) (done a w) = state_behind w.trace ≡ s
  Ended (s, true) (stopped w) = state_behind w.trace ≡ s
  Ended _ _ = ⊥

  -- The replies are the server's, which settles a call after fewer than `patience` others, and
  -- which no other thread calls.
  pub record Serves (env : Env) (patience : ℕ) : Type 0 where
    pub again :
        (w : World) (c : SshCall) → is_again (env.ssh_reply w c).rc ≡ server.is_busy w.trace c
    pub fine :
        (w : World) (c : SshCall)
        → server.is_busy w.trace c ≡ false
        → server.refuses (state_behind w.trace) c ≡ false
        → is_negative (env.ssh_reply w c).rc ≡ false
    pub refused :
        (w : World) (c : SshCall)
        → server.is_busy w.trace c ≡ false
        → server.refuses (state_behind w.trace) c ≡ true
        → (n : ℕ) × ((env.ssh_reply w c).rc ≡ failed n)
    pub text :
        (w : World) (session : Option ℕ)
        → (st : Text) × ((env.ssh_reply w (SshCall.last_error session)).text ≡ some st)
    pub alone : (w : World) → (env.interfere w).trace ≡ w.trace
    pub undirected : Undirected env
    pub resumes : Resumes env
    pub settles :
        (t : List Call) (c : SshCall)
        → (k : ℕ) × (k < patience)
          × ((i : ℕ) → i < k → server.is_busy (asked_again i c t) c ≡ true)
          × (server.is_busy (asked_again k c t) c ≡ false)

  pub busy-state :
      (k : ℕ) (c : SshCall) (t : List Call)
      → ((i : ℕ) → i < k → server.is_busy (asked_again i c t) c ≡ true)
      → state_behind (asked_again k c t) ≡ state_behind t
  unfolding state_behind
  busy-state zero c t busy = refl
  busy-state (suc k) c t busy =
      busy-state k c (ssh c ∷ t) (λ i h. busy (suc i) (omega arith))
      ∙ rw (or_second (is_query c) (server.is_busy t c) _ (busy 0 (omega arith)))

  pub taken-state :
      (c : SshCall) (t : List Call)
      → is_query c ≡ false
      → server.is_busy t c ≡ false
      → server.refuses (state_behind t) c ≡ false
      → state_behind (ssh c ∷ t) ≡ server.apply c (state_behind t)
  unfolding state_behind
  taken-state c t asks free takes = rw (asks, free, takes)

  pub refused-state :
      (c : SshCall) (t : List Call)
      → server.refuses (state_behind t) c ≡ true
      → state_behind (ssh c ∷ t) ≡ state_behind t
  unfolding state_behind
  refused-state c t refusal = rw (or_third (is_query c) (server.is_busy t c) _ refusal)
