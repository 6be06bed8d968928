-- ===== src/Threads/Lasting.antt =====
-- What lasts of the shared state, whatever the threads do.
use power_boot.Prelude.{
  ℕ, ◌≤◌, ◌≡◌, refl, ap, sym, ◌∙◌, Option, none, some, List, [], ◌++◌, append_assoc, arith,
}
use power_boot.Prelude.Text.{Text}
use power_boot.World.{World, lookup}
use power_boot.World.Sockets.{Socket}
use power_boot.World.Session.{Sftp, open_state}
use power_boot.World.Calls.{Thread, Call}

-- The same object: its id, its endpoint and its configuration are set once.
pub record IsSameSocket (s t : Socket) : Type 0 where
  pub id : t.id ≡ s.id
  pub endpoint : t.endpoint ≡ s.endpoint
  pub cfg : t.cfg ≡ s.cfg

pub IsSameSocket-refl : (s : Socket) → IsSameSocket s s
IsSameSocket-refl s = record { id = refl; endpoint = refl; cfg = refl }

IsSameSocket-trans : {r s t : Socket} → IsSameSocket r s → IsSameSocket s t → IsSameSocket r t
IsSameSocket-trans p q = record {
  id = q.id ∙ p.id;
  endpoint = q.endpoint ∙ p.endpoint;
  cfg = q.cfg ∙ p.cfg;
}

-- An entry of the table, if there is one, later has still the same object.
abbrev pub IsKept : Option Socket → Option Socket → Type 0
IsKept none o = Unit
IsKept (some s) none = ⊥
IsKept (some s) (some t) = IsSameSocket s t

pub IsKept-refl : (o : Option Socket) → IsKept o o
IsKept-refl none = tt
IsKept-refl (some s) = IsSameSocket-refl s

IsKept-trans : (a b c : Option Socket) → IsKept a b → IsKept b c → IsKept a c
IsKept-trans none b c p q = tt
IsKept-trans (some r) none c p q = absurd p
IsKept-trans (some r) (some s) none p q = absurd q
IsKept-trans (some r) (some s) (some t) p q = IsSameSocket-trans p q

-- A list that has grown at its front.
abbrev pub Grows : {A : Type 0} → List A → List A → Type 0
Grows {A} old new = (more : List A) × (new ≡ more ++ old)

pub Grows-refl : {A : Type 0} (l : List A) → Grows l l
Grows-refl l = ([], refl)

Grows-trans : {A : Type 0} {a b c : List A} → Grows a b → Grows b c → Grows a c
Grows-trans {A} {a} (xs, p) (ys, q) =
    (ys ++ xs, q ∙ ap (λ l. ys ++ l) p ∙ sym (append_assoc ys xs a))

-- What lasts of the client: its command and its handle are never set again, nor is it closed.
pub record IsSameClient (s t : Sftp) : Type 0 where
  pub command : t.read_thread_command ≡ s.read_thread_command
  pub handle : t.sftp_handle ≡ s.sftp_handle
  pub stays_open : s.read_thread_state ≡ open_state → t.read_thread_state ≡ open_state

-- What only grows: the threads that were disposed of, the foreign calls, the output, the yields.
pub record Logs : Type 0 where
  pub ended : List Thread
  pub trace : List Call
  pub stdout : List Text
  pub ticks : ℕ

abbrev pub logs : World → Logs
logs w = record { ended = w.ended; trace = w.trace; stdout = w.stdout; ticks = w.ticks }

pub record HasGrown (a b : Logs) : Type 0 where
  pub ended : Grows a.ended b.ended
  pub trace : Grows a.trace b.trace
  pub stdout : Grows a.stdout b.stdout
  pub ticks : a.ticks ≤ b.ticks

-- What a later state has of an earlier one.
pub record Lasts (w u : World) : Type 0 where
  pub sockets : (fd : ℕ) → IsKept (lookup fd w.sockets) (lookup fd u.sockets)
  pub client : IsSameClient w.sftp u.sftp
  pub grown : HasGrown (logs w) (logs u)

pub IsSameClient-refl : (s : Sftp) → IsSameClient s s
IsSameClient-refl s = record { command = refl; handle = refl; stays_open = λ e. e }

pub HasGrown-refl : (a : Logs) → HasGrown a a
HasGrown-refl a = record {
  ended = Grows-refl a.ended;
  trace = Grows-refl a.trace;
  stdout = Grows-refl a.stdout;
  ticks = omega arith;
}

pub Lasts-refl : (w : World) → Lasts w w
Lasts-refl w = record {
  sockets = λ fd. IsKept-refl (lookup fd w.sockets);
  client = IsSameClient-refl w.sftp;
  grown = HasGrown-refl (logs w);
}

pub Lasts-trans : {v w u : World} → Lasts v w → Lasts w u → Lasts v u
Lasts-trans {v} {w} {u} p q = record {
  sockets = λ fd. IsKept-trans _ _ _ (p.sockets fd) (q.sockets fd);
  client = record {
    command = q.client.command ∙ p.client.command;
    handle = q.client.handle ∙ p.client.handle;
    stays_open = λ e. q.client.stays_open (p.client.stays_open e);
  };
  grown = record {
    ended = Grows-trans p.grown.ended q.grown.ended;
    trace = Grows-trans p.grown.trace q.grown.trace;
    stdout = Grows-trans p.grown.stdout q.grown.stdout;
    ticks = omega (arith, p.grown.ticks, q.grown.ticks);
  };
}
