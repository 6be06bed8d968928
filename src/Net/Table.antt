-- ===== src/Net/Table.antt =====
-- The table of open sockets: the ids are those from 0 on, in the order of creation, and no
-- received or sent bytes are ever waiting in it.
use power_boot.Prelude.{
  ℕ, suc, ◌+◌, ◌≤◌, ◌<◌, ◌≡◌, refl, inl, inr, false, Option, none, some, List, [], ◌∷◌, ◌++◌, arith,
  ◌==◌, ==_iff, ◌∙◌, length, length-append, if◌then◌else◌, Bool-cases,
}
use power_boot.World.{lookup, update, insert}
use power_boot.World.Sockets.{Socket}

abbrev pub Table : Type 0
Table = List (ℕ × Socket)

-- Nothing has set `recv_halt`, and both buffers are empty.
pub record IsQuiet (s : Socket) : Type 0 where
  pub no_halt : s.recv_halt ≡ false
  pub no_recv : s.recv_buf ≡ []
  pub no_send : s.send_buf ≡ []

-- The ids count up from `k`, each object has its own id, and each is quiet.
abbrev Counts : ℕ → Table → Type 0
Counts k [] = Unit
Counts k ((j, s) ∷ t) = (j ≡ k) × (s.id ≡ k) × IsQuiet s × Counts (suc k) t

-- The table, with at least `n` sockets.
pub record IsTable (n : ℕ) (t : Table) : Type 0 where
  pub counts : Counts 0 t
  pub enough : n ≤ length t

-- What the entry of an id is known to be.
abbrev pub IsEntry : ℕ → Option Socket → Type 0
IsEntry k none = ⊥
IsEntry k (some s) = (s.id ≡ k) × IsQuiet s

Counts-lookup :
    (k fd : ℕ) (t : Table) → Counts k t → k ≤ fd → fd < k + length t → IsEntry fd (lookup fd t)
unfolding lookup
Counts-lookup k fd [] c lo hi = absurd (omega arith)
Counts-lookup k fd ((j, s) ∷ t) c lo hi = elim (Bool-cases (j == fd)) [
  | inl e ↦ rw e (omega (arith, c.0, c.1, (==_iff j fd).0 e), c.2)
  | inr e ↦ rw e (Counts-lookup (suc k) fd t c.3 (ground (arith, c.0)) (omega arith))
]

pub IsTable-lookup : {n fd : ℕ} {t : Table} → IsTable n t → fd < n → IsEntry fd (lookup fd t)
IsTable-lookup {n} {fd} {t} is h =
    Counts-lookup 0 fd t is.counts (omega arith) (omega (arith, is.enough))

-- What is found, if anything is, is quiet.
abbrev pub IsQuietEntry : Option Socket → Type 0
IsQuietEntry none = Unit
IsQuietEntry (some s) = IsQuiet s

Counts-IsQuietEntry : (k fd : ℕ) (t : Table) → Counts k t → IsQuietEntry (lookup fd t)
unfolding lookup
Counts-IsQuietEntry k fd [] c = tt
Counts-IsQuietEntry k fd ((j, r) ∷ t) c = elim (Bool-cases (j == fd)) [
  | inl b ↦ rw b c.2
  | inr b ↦ rw b (Counts-IsQuietEntry (suc k) fd t c.3)
]

pub IsTable-IsQuietEntry : {n : ℕ} {t : Table} → IsTable n t → (fd : ℕ) → IsQuietEntry (lookup fd t)
IsTable-IsQuietEntry {t} is fd = Counts-IsQuietEntry 0 fd t is.counts

Counts-none : (k fd : ℕ) (t : Table) → Counts k t → k + length t ≤ fd → lookup fd t ≡ none
unfolding lookup
Counts-none k fd [] c h = refl
Counts-none k fd ((j, s) ∷ t) c h = elim (Bool-cases (j == fd)) [
  | inl e ↦ absurd (omega (arith, c.0, (==_iff j fd).0 e))
  | inr e ↦ rw e (Counts-none (suc k) fd t c.3 (omega arith))
]

pub IsTable-none : {n fd : ℕ} {t : Table} → IsTable n t → length t ≤ fd → lookup fd t ≡ none
IsTable-none {n} {fd} {t} is h = Counts-none 0 fd t is.counts (omega arith)

-- A write that keeps what is known of the object.
abbrev pub KeepsQuiet : (Socket → Socket) → Type 0
KeepsQuiet f = (s : Socket) → IsQuiet s → ((f s).id ≡ s.id) × IsQuiet (f s)

length-update : (fd : ℕ) (f : Socket → Socket) (t : Table) → length (update fd f t) ≡ length t
unfolding update
length-update fd f [] = refl
length-update fd f ((j, s) ∷ t) = omega (arith, length-update fd f t)

Counts-update :
    (k fd : ℕ) (f : Socket → Socket) (t : Table)
    → KeepsQuiet f
    → Counts k t
    → Counts k (update fd f t)
unfolding update
Counts-update k fd f [] q c = tt
Counts-update k fd f ((j, s) ∷ t) q c = elim (Bool-cases (j == fd)) [
  | inl e ↦ rw e (c.0, (q s c.2).0 ∙ c.1, (q s c.2).1, Counts-update (suc k) fd f t q c.3)
  | inr e ↦ rw e (c.0, c.1, c.2, Counts-update (suc k) fd f t q c.3)
]

pub IsTable-update :
    {n : ℕ} {t : Table} (fd : ℕ) (f : Socket → Socket)
    → KeepsQuiet f
    → IsTable n t
    → IsTable n (update fd f t)
IsTable-update {t} fd f q is = record {
  counts = Counts-update 0 fd f t q is.counts;
  enough = omega (arith, length-update fd f t, is.enough);
}

Counts-append :
    (k m : ℕ) (s : Socket) (t : Table)
    → m ≡ k + length t
    → s.id ≡ m
    → IsQuiet s
    → Counts k t
    → Counts k (t ++ (m, s) ∷ [])
Counts-append k m s [] h e q c = (omega arith, omega arith, q, tt)
Counts-append k m s ((j, r) ∷ t) h e q c =
    (c.0, c.1, c.2, Counts-append (suc k) m s t (omega arith) e q c.3)

-- An id that is not in the table is added behind all others.
insert-fresh :
    (k : ℕ) (s : Socket) (t : Table) → lookup k t ≡ none → insert k s t ≡ t ++ (k, s) ∷ []
unfolding lookup insert
insert-fresh k s [] e = refl
insert-fresh k s ((j, r) ∷ t) e = ground (arith, insert-fresh k s t)

lookup-append :
    (j k : ℕ) (s : Socket) (t : Table)
    → lookup k t ≡ none
    → lookup j (t ++ (k, s) ∷ []) ≡ (if j == k then some s else lookup j t)
unfolding lookup
lookup-append j k s [] e = ground arith
lookup-append j k s ((i, r) ∷ t) e = ground (arith, lookup-append j k s t)

module _ {n : ℕ} {t : Table} (is : IsTable n t) where
  lookup-none_size : lookup (length t) t ≡ none
  lookup-none_size = Counts-none 0 (length t) t is.counts (omega arith)

  insert-append : (s : Socket) → insert (length t) s t ≡ t ++ (length t, s) ∷ []
  insert-append s = insert-fresh (length t) s t lookup-none_size

  -- A new object under the next id.
  pub IsTable-insert :
      (s : Socket) → s.id ≡ length t → IsQuiet s → IsTable (suc (length t)) (insert (length t) s t)
  IsTable-insert s e q = rw (insert-append s) (record {
    counts = Counts-append 0 (length t) s t (omega arith) e q is.counts;
    enough = omega (arith, length-append t ((length t, s) ∷ []));
  })

  lookup-insert :
      (j : ℕ) (s : Socket)
      → lookup j (insert (length t) s t) ≡ (if j == length t then some s else lookup j t)
  lookup-insert j s = rw (insert-append s) (lookup-append j (length t) s t lookup-none_size)

pub IsTable-le : {m n : ℕ} {t : Table} → m ≤ n → IsTable n t → IsTable m t
IsTable-le h is = record { counts = is.counts; enough = omega (arith, h, is.enough) }
