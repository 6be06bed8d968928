-- ===== src/Inet/Address.antt =====
-- What `inet_addr` makes of addresses with missing parts.
use power_boot.Prelude.{
  ℕ, zero, suc, ◌<◌, ◌≡◌, refl, ◌≢◌, true, Option, none, some, List, [], ◌∷◌, ◌++◌, All, arith,
  length, length-append, All-append, sym, ◌≤◌, leb, and_then, ap, ◌∙◌,
}
use power_boot.Prelude.Text.{Text}
use power_boot.Inet.{address_of, inet_addr}
use power_boot.Inet.Scan.{Dotless}
use power_boot.Inet.Fields.{dotted, field_values, pad, reference, inet_addr-reference}

leb_of_le : (a b : ℕ) → a ≤ b → leb a b ≡ true
leb_of_le a b h = ground arith

abbrev zero_field : Text
zero_field = b'0' ∷ []

pad-zero : (k : ℕ) (vs : List ℕ) → pad k (vs ++ 0 ∷ []) ≡ pad k vs
unfolding pad
pad-zero zero vs = refl
pad-zero (suc k) [] = refl
pad-zero (suc k) (v ∷ vs) = ap (λ us. v ∷ us) (pad-zero k vs)

field_values-zero :
    (fs : List Text)
    → field_values (fs ++ zero_field ∷ []) ≡ and_then (field_values fs) λ vs. some (vs ++ 0 ∷ [])
unfolding field_values
field_values-zero [] = refl
field_values-zero (f ∷ fs) = ground (arith, field_values-zero fs)

reference-zero :
    (f : Text) (fs : List Text)
    → length fs < 3
    → reference 4 (f ∷ fs ++ zero_field ∷ []) ≡ reference 4 (f ∷ fs)
unfolding reference
reference-zero f fs short =
    rw
      (
        leb_of_le (suc (length (fs ++ zero_field ∷ []))) 4 longer,
        leb_of_le (suc (length fs)) 4 (omega arith),
        field_values-zero (f ∷ fs),
        reference,
      )
      (padded (field_values (f ∷ fs)))
  where
    longer : suc (length (fs ++ zero_field ∷ [])) ≤ 4
    longer = omega (arith, length-append fs (zero_field ∷ []))

    padded :
        (o : Option (List ℕ))
        → (and_then (and_then o λ vs. some (vs ++ 0 ∷ [])) λ vs. some (pad 4 vs))
          ≡ (and_then o λ vs. some (pad 4 vs))
    padded none = refl
    padded (some vs) = ap some (pad-zero 4 vs)

dotted-ne-nil : (f : Text) (fs : List Text) → dotted f (fs ++ zero_field ∷ []) ≢ []
dotted-ne-nil [] [] = ground arith
dotted-ne-nil [] (g ∷ fs) = ground arith
dotted-ne-nil (c ∷ f) fs = ground arith

-- A non-empty text of up to three fields without dots, joined by dots, has the address that it
-- has with one more field `0` at its end.
pub inet_addr-missing :
    (f : Text) (fs : List Text)
    → All Dotless (f ∷ fs)
    → dotted f fs ≢ []
    → length fs < 3
    → inet_addr (some (dotted f fs)) ≡ inet_addr (some (dotted f (fs ++ zero_field ∷ [])))
inet_addr-missing f fs h ne short =
    inet_addr-reference f fs h ne
    ∙ sym (ap address_of (reference-zero f fs short))
    ∙ sym (
        inet_addr-reference f (fs ++ zero_field ∷ [])
          (h.0, All-append Dotless fs _ h.1 ((λ e. cc, tt), tt)) (dotted-ne-nil f fs))
