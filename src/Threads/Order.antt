-- ===== src/Threads/Order.antt =====
-- The order in which a session is made, its thread started, and libssh2 asked.
use power_boot.Prelude.{
  Option, none, ◌≡◌, ◌⊎◌, refl, sym, inl, inr, true, false, Bool-cases, ◌∙◌, some, List, [], ◌∷◌,
}
use mathlib.Core.Path.{subst}
use power_boot.World.{World}
use power_boot.World.Session.{open_state}
use power_boot.World.Calls.{read_thread, Call, ot, ssh, new_thread, SshCall}
use power_boot.Threads.{
  spawned, created, Role, Past, needed, Stage, shaken, ready, opened, needed, makes, came, IsBehind,
  set_rc, set_sock, set_hostaddr, set_sin_port, set_session, set_sftp_pointer, set_channel,
  set_userauthlist, set_open, Step, yielded, printed, called, disposed, finished, inserted, wrote,
  assigned,
}
use power_boot.Threads.Stages.{Opened, or_right}

-- Every call came behind the stage that it needs. The latest call stands first.
abbrev pub IsOrdered : Role → List Call → Type 0
IsOrdered role [] = Unit
IsOrdered role (c ∷ trace) = IsBehind role (needed c) trace × IsOrdered role trace

-- ... and the session is open behind its channel only.
pub record InOrder (role : Role) (w : World) : Type 0 where
  pub calls : IsOrdered role w.trace
  pub opens : w.sftp.read_thread_state ≡ open_state → came role opened w.trace ≡ true

opened-needed :
    (role : Role) (trace : List Call) (c : Call)
    → makes role opened trace c ≡ true
    → needed c ≡ some ready
opened-needed role trace (ssh (SshCall.channel_open session)) e = refl
opened-needed role trace (ssh _) e = absurd (cc e)
opened-needed role trace (ot c) e = absurd (cc e)
opened-needed role trace (new_thread t) e = absurd (cc e)

ready-needed :
    (role : Role) (trace : List Call) (c : Call)
    → makes role ready trace c ≡ true
    → needed c ≡ some shaken
ready-needed role trace (ssh (SshCall.sftp_init session)) e = refl
ready-needed role trace (ssh _) e = absurd (cc e)
ready-needed role trace (ot c) e = absurd (cc e)
ready-needed role trace (new_thread t) e = absurd (cc e)

shaken-needed :
    (role : Role) (trace : List Call) (c : Call)
    → makes role shaken trace c ≡ true
    → needed c ≡ some spawned
shaken-needed role trace (ssh (SshCall.handshake session sock)) e = refl
shaken-needed role trace (ssh _) e = absurd (cc e)
shaken-needed role trace (ot c) e = absurd (cc e)
shaken-needed role trace (new_thread t) e = absurd (cc e)

spawned-needed :
    (role : Role) (trace : List Call) (c : Call)
    → makes role spawned trace c ≡ true
    → needed c ≡ some created
spawned-needed role trace (new_thread read_thread) e = refl
spawned-needed role trace (new_thread _) e = absurd (cc e)
spawned-needed role trace (ot c) e = absurd (cc e)
spawned-needed role trace (ssh c) e = absurd (cc e)

-- A stage that is made by calls behind another comes behind it.
came-before :
    (role : Role) (later earlier : Stage)
    → ((trace : List Call) (c : Call) → makes role later trace c ≡ true → needed c ≡ some earlier)
    → (trace : List Call) → IsOrdered role trace
    → came role later trace ≡ true
    → came role earlier trace ≡ true
came-before role later earlier needs [] o e = absurd (cc e)
came-before role later earlier needs (c ∷ trace) (behind, o) e =
    elim (Bool-cases (makes role later trace c)) [
      | inl m ↦
          or_right (makes role earlier trace c)
            (subst (λ s. IsBehind role s trace) (needs trace c m) behind)
      | inr m ↦
          or_right (makes role earlier trace c)
            (came-before role later earlier needs trace o (cc (e, m)))
    ]

-- Behind the channel everything may be asked.
module _ (role : Role) (trace : List Call) (o : IsOrdered role trace)
    (e : came role opened trace ≡ true) where
  opened-ready : came role ready trace ≡ true
  opened-ready = came-before role opened ready (opened-needed role) trace o e

  opened-shaken : came role shaken trace ≡ true
  opened-shaken = came-before role ready shaken (ready-needed role) trace o opened-ready

  opened-spawned : came role spawned trace ≡ true
  opened-spawned = came-before role shaken spawned (shaken-needed role) trace o opened-shaken

  opened-all : (stage : Stage) → came role stage trace ≡ true
  opened-all opened = e
  opened-all ready = opened-ready
  opened-all shaken = opened-shaken
  opened-all spawned = opened-spawned
  opened-all created = came-before role spawned created (spawned-needed role) trace o opened-spawned

  opened-IsBehind : (stage : Option Stage) → IsBehind role stage trace
  opened-IsBehind none = tt
  opened-IsBehind (some stage) = opened-all stage

-- The threads that move may do anything, or all was in order so far.
abbrev pub Fair : Role → World → Type 0
Fair role w = (role.free ≡ true) ⊎ InOrder role w

-- Nothing of it is about the rest of the state.
same :
    {role : Role} {w u : World}
    → InOrder role w
    → u.trace ≡ w.trace
    → u.sftp.read_thread_state ≡ w.sftp.read_thread_state
    → InOrder role u
same {role} {w} {u} p trace state = record {
  calls = subst (IsOrdered role) (sym trace) p.calls;
  opens = λ o. subst (λ t. came role opened t ≡ true) (sym trace) (p.opens (sym state ∙ o));
}

pub Fair-Past :
    (role : Role) (w : World) → Fair role w → Opened w → (stage : Option Stage) → Past role stage w
Fair-Past role w (inl free) o stage = inl free
Fair-Past role w (inr p) o stage = inr (opened-IsBehind role w.trace p.calls (p.opens o) stage)

pub Step-Fair : {role : Role} {w u : World} → Fair role w → Step role w u → Fair role u
Step-Fair (inl free) s = inl free
Step-Fair (inr p) yielded = inr (same p refl refl)
Step-Fair (inr p) (printed s) = inr (same p refl refl)
Step-Fair (inr p) (called c (inl free)) = inl free
Step-Fair (inr p) (called c (inr behind)) =
    inr (record { calls = (behind, p.calls); opens = λ o. or_right _ (p.opens o) })
Step-Fair (inr p) (disposed t) = inr (same p refl refl)
Step-Fair (inr p) (finished b) = inr (same p refl refl)
Step-Fair (inr p) (inserted s q) = inr (same p refl refl)
Step-Fair (inr p) (wrote fd c) = inr (same p refl refl)
Step-Fair (inr p) (assigned set_open (reads, inl free)) = inl free
Step-Fair (inr p) (assigned set_open (reads, inr behind)) =
    inr (record { calls = p.calls; opens = λ o. behind })
Step-Fair (inr p) (assigned (set_rc c) may) = inr (same p refl refl)
Step-Fair (inr p) (assigned (set_sock n) may) = inr (same p refl refl)
Step-Fair (inr p) (assigned (set_hostaddr n) may) = inr (same p refl refl)
Step-Fair (inr p) (assigned (set_sin_port n) may) = inr (same p refl refl)
Step-Fair (inr p) (assigned (set_session q) may) = inr (same p refl refl)
Step-Fair (inr p) (assigned (set_sftp_pointer q) may) = inr (same p refl refl)
Step-Fair (inr p) (assigned (set_channel q) may) = inr (same p refl refl)
Step-Fair (inr p) (assigned (set_userauthlist t) may) = inr (same p refl refl)

pub Fair-InOrder : (role : Role) {w : World} → role.free ≡ false → Fair role w → InOrder role w
Fair-InOrder role bound (inl free) = absurd (cc (bound, free))
Fair-InOrder role bound (inr p) = p
