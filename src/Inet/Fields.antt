-- ===== src/Inet/Fields.antt =====
-- `inet_addr` against a reference: the fields between the dots, each a numeral of its own base.
use power_boot.Prelude.{
  ℕ, zero, suc, ◌≡◌, refl, ◌≢◌, true, false, Option, none, some, List, [], ◌∷◌, ◌++◌, ◌||◌, ◌==◌,
  inl, inr, All, arith, leb, length, and_then, Bool-cases,
}
use power_boot.Prelude.Text.{Text}
use power_boot.Inet.{u32, prefix, separator, finish, part, parts, address_of, inet_addr}
use power_boot.Inet.Scan.{
  Dotless, tail, numeral, IsBase, octal, decimal, hexadecimal, found, scan-numeral,
}

-- The fields after the first, each behind its dot, and the whole text.
abbrev dotted_tail : List Text → Option Text
dotted_tail [] = none
dotted_tail (f ∷ fs) = some (f ++ tail (dotted_tail fs))

abbrev pub dotted : Text → List Text → Text
dotted f fs = f ++ tail (dotted_tail fs)

-- A field without wrap-around: `0x` and `0X` begin base 16, another `0` base 8.
unfoldable pub field_value : Text → Option ℕ
unfolding prefix numeral
field_value f = numeral (prefix f).0 0 (prefix f).1

unfoldable pub field_values : List Text → Option (List ℕ)
unfolding field_value
field_values [] = some []
field_values (f ∷ fs) =
    and_then (field_value f) λ v. and_then (field_values fs) λ vs. some (u32 v ∷ vs)

-- The first `k` values, with zeros for those that are missing.
unfoldable pub pad : ℕ → List ℕ → List ℕ
pad zero vs = []
pad (suc k) [] = 0 ∷ pad k []
pad (suc k) (v ∷ vs) = v ∷ pad k vs

-- At most `k` fields, every one a numeral.
unfoldable pub reference : ℕ → List Text → Option (List ℕ)
unfolding field_values pad
reference k fs = elim (leb (length fs) k) [
  | true ↦ and_then (field_values fs) λ vs. some (pad k vs)
  | false ↦ none
]

prefix-IsBase : (f : Text) → IsBase (prefix f).0
unfolding prefix
prefix-IsBase [] = decimal
prefix-IsBase (c ∷ []) = elim (Bool-cases (c == b'0')) [ inl e ↦ rw e octal | inr e ↦ rw e decimal ]
prefix-IsBase (c ∷ d ∷ s) = elim (Bool-cases (c == b'0')) [
  | inl e ↦ elim (Bool-cases ((d == b'x') || (d == b'X'))) [
    | inl x ↦ rw (e, x) hexadecimal
    | inr x ↦ rw (e, x) octal
  ]
  | inr e ↦ rw e decimal
]

prefix-append :
    (f : Text) (t : Option Text) → prefix (f ++ tail t) ≡ ((prefix f).0, (prefix f).1 ++ tail t)
unfolding prefix
prefix-append [] none = refl
prefix-append [] (some []) = refl
prefix-append [] (some (d ∷ r)) = refl
prefix-append (c ∷ []) none = ground arith
prefix-append (c ∷ []) (some r) = ground arith
prefix-append (c ∷ d ∷ s) t = ground arith

prefix-Dotless : (f : Text) → Dotless f → Dotless (prefix f).1
unfolding prefix
prefix-Dotless [] h = tt
prefix-Dotless (c ∷ []) h = elim (Bool-cases (c == b'0')) [ inl e ↦ rw e tt | inr e ↦ rw e h ]
prefix-Dotless (c ∷ d ∷ s) h = elim (Bool-cases (c == b'0')) [
  | inl e ↦ elim (Bool-cases ((d == b'x') || (d == b'X'))) [
    | inl x ↦ rw (e, x) h.1.1
    | inr x ↦ rw (e, x) h.1
  ]
  | inr e ↦ rw e h
]

part-field :
    (left : ℕ) (f : Text) (t : Option Text)
    → Dotless f
    → part left (f ++ tail t) ≡ found left t (field_value f)
unfolding part field_value
part-field left f t h =
    rw (prefix-append f t)
      (scan-numeral (prefix-IsBase f) left 0 (prefix f).1 t (prefix-Dotless f h))

parts-nil : (k : ℕ) → parts k [] ≡ some (pad k [])
unfolding parts pad
parts-nil zero = refl
parts-nil (suc k) = rw (parts-nil k)

leb-suc : (a b : ℕ) → leb (suc a) (suc b) ≡ leb a b
leb-suc a b = ground arith

reference_step :
    (k : ℕ) (f g : Text) (fs : List Text)
    → reference (suc (suc k)) (f ∷ g ∷ fs) ≡ (
        and_then (field_value f) λ v. and_then (reference (suc k) (g ∷ fs)) λ vs. some (u32 v ∷ vs))
unfolding reference field_values pad
reference_step k f g fs = ground (arith, leb-suc (suc (length fs)) (suc k))

-- The cases of the loop below, by the value of the field at hand.
last_field :
    (k : ℕ) (f : Text) (o : Option ℕ)
    → field_value f ≡ o
    → (and_then (found k none o) λ (v, r). and_then (parts k r) λ vs. some (v ∷ vs))
      ≡ reference (suc k) (f ∷ [])
unfolding reference field_values pad finish separator
last_field k f none e = ground arith
last_field k f (some v) e = ground (arith, parts-nil k)

extra_field :
    (f g : Text) (fs : List Text) (o : Option ℕ)
    → (and_then
        (found 0 (dotted_tail (g ∷ fs)) o)
        λ (v, r). and_then (parts 0 r) λ vs. some (v ∷ vs))
      ≡ reference 1 (f ∷ g ∷ fs)
unfolding reference finish separator
extra_field f g fs none = ground arith
extra_field f g fs (some v) = ground arith

next_field :
    (k : ℕ) (g : Text) (fs : List Text) (o : Option ℕ)
    → parts (suc k) (dotted g fs) ≡ reference (suc k) (g ∷ fs)
    → (and_then
        (found (suc k) (dotted_tail (g ∷ fs)) o)
        λ (v, r). and_then (parts (suc k) r) λ vs. some (v ∷ vs))
      ≡ (and_then o λ v. and_then (reference (suc k) (g ∷ fs)) λ vs. some (u32 v ∷ vs))
unfolding finish separator
next_field k g fs none ih = refl
next_field k g fs (some v) ih = ground arith

parts_step :
    (k : ℕ) (cp : Text)
    → parts (suc k) cp ≡ (and_then (part k cp) λ (v, r). and_then (parts k r) λ vs. some (v ∷ vs))
unfolding parts
parts_step k cp = refl

-- The loop of `inet_addr`, for every number of rounds.
parts-reference :
    (k : ℕ) (f : Text) (fs : List Text)
    → All Dotless (f ∷ fs)
    → parts (suc k) (dotted f fs) ≡ reference (suc k) (f ∷ fs)
parts-reference k f [] h =
    rw (parts_step k (dotted f []), part-field k f none h.0) (last_field k f (field_value f) refl)
parts-reference zero f (g ∷ fs) h =
    rw (parts_step 0 (dotted f (g ∷ fs)), part-field 0 f (dotted_tail (g ∷ fs)) h.0)
      (extra_field f g fs (field_value f))
parts-reference (suc k) f (g ∷ fs) h =
    rw
      (
        parts_step (suc k) (dotted f (g ∷ fs)),
        part-field (suc k) f (dotted_tail (g ∷ fs)) h.0,
        reference_step k f g fs,
      )
      (next_field k g fs (field_value f) (parts-reference k g fs h.1))

-- On every non-empty text of fields without dots, joined by dots, `inet_addr` returns the address
-- that the reference describes: for at most four fields, each a numeral of its own base, that of
-- their values modulo 2 ^ 32, with zeros for the fields that are missing; otherwise INADDR_NONE.
pub inet_addr-reference :
    (f : Text) (fs : List Text)
    → All Dotless (f ∷ fs)
    → dotted f fs ≢ []
    → inet_addr (some (dotted f fs)) ≡ address_of (reference 4 (f ∷ fs))
unfolding inet_addr
inet_addr-reference f fs h ne = rw (← parts-reference 3 f fs h) (nonempty (dotted f fs) ne)
  where
    nonempty : (cp : Text) → cp ≢ [] → inet_addr (some cp) ≡ address_of (parts 4 cp)
    nonempty [] ne = absurd (ne refl)
    nonempty (c ∷ s) ne = refl
