-- ===== src/Net/FdSets/Members.antt =====
-- The macros over `fd_set` make sets of descriptors below FD_SETSIZE of its words.
use power_boot.Prelude.{
  ℕ, zero, suc, ◌-◌, ◌*◌, ◌/◌, ◌%◌, ◌^◌, ◌<◌, ◌≡◌, refl, ap, ◌∙◌, false, not, inl, inr, Bool-cases,
  ==_iff, ◌&&◌, ◌||◌, bit_or, bit_and, [], ◌∷◌, arith, ◌==◌, length, replicate, if◌then◌else◌,
}
use power_boot.Prelude.Digits.{
  bit, bit-bit_or, bit-bit_and, bit-pow, bit-complement, bit-zero, bit-bound, pow-lt, mask-bit,
}
use power_boot.Net.FdSets.{
  FdSet, fd_words, fd_zero, or_word, fd_set, and_word, fd_clr, word, fd_isset,
}

word-or_word :
    (i j bits : ℕ) (s : FdSet)
    → i < length s
    → word j (or_word i bits s) ≡ (if j == i then bit_or (word j s) bits else word j s)
unfolding word or_word
word-or_word i j bits [] h = absurd (omega arith)
word-or_word zero zero bits (b ∷ bs) h = refl
word-or_word zero (suc j) bits (b ∷ bs) h = ground arith
word-or_word (suc i) zero bits (b ∷ bs) h = ground arith
word-or_word (suc i) (suc j) bits (b ∷ bs) h = word-or_word i j bits bs (omega arith) ∙ ground arith

word-and_word :
    (i j bits : ℕ) (s : FdSet)
    → i < length s
    → word j (and_word i bits s) ≡ (if j == i then bit_and (word j s) bits else word j s)
unfolding word and_word
word-and_word i j bits [] h = absurd (omega arith)
word-and_word zero zero bits (b ∷ bs) h = refl
word-and_word zero (suc j) bits (b ∷ bs) h = ground arith
word-and_word (suc i) zero bits (b ∷ bs) h = ground arith
word-and_word (suc i) (suc j) bits (b ∷ bs) h =
    word-and_word i j bits bs (omega arith) ∙ ground arith

word-replicate : (i n : ℕ) → word i (replicate n 0) ≡ 0
unfolding word
word-replicate i zero = refl
word-replicate zero (suc n) = refl
word-replicate (suc i) (suc n) = word-replicate i n

-- The bit of a descriptor.
abbrev bit_of : ℕ → FdSet → ℕ
bit_of d s = bit (d % 32) (word (d / 32) s)

fd_isset-bit : (d : ℕ) (s : FdSet) → fd_isset d s ≡ not (bit_of d s == 0)
unfolding fd_isset
fd_isset-bit d s = ap not (mask-bit (d % 32) (word (d / 32) s))

set-bit :
    (d e : ℕ) (s : FdSet)
    → d < 32 * length s
    → bit_of e (fd_set d s) ≡ (if e == d then 1 else bit_of e s)
unfolding fd_set
set-bit d e s h =
    rw (word-or_word (d / 32) (e / 32) (2 ^ (d % 32)) s (omega arith))
      (elim (Bool-cases (e / 32 == d / 32)) [
        | inl same ↦
            rw
              (
                same,
                bit-bit_or (e % 32) (word (e / 32) s) (2 ^ (d % 32)),
                bit-pow (e % 32) (d % 32),
              )
              (ground (arith, ==_iff (e / 32) (d / 32), bit-bound (e % 32) (word (e / 32) s)))
        | inr other ↦ rw other (ground arith)
      ])

clr-bit :
    (d e : ℕ) (s : FdSet)
    → d < 32 * length s
    → bit_of e (fd_clr d s) ≡ (if e == d then 0 else bit_of e s)
unfolding fd_clr
clr-bit d e s h =
    rw (word-and_word (d / 32) (e / 32) (2 ^ 32 - 1 - 2 ^ (d % 32)) s (omega arith))
      (elim (Bool-cases (e / 32 == d / 32)) [
        | inl same ↦
            rw
              (
                same,
                bit-bit_and (e % 32) (word (e / 32) s) (2 ^ 32 - 1 - 2 ^ (d % 32)),
                bit-complement 32 (e % 32) (2 ^ (d % 32)) (omega arith)
                    (pow-lt (d % 32) 32 (omega arith)),
                bit-pow (e % 32) (d % 32),
              )
              (ground (arith, ==_iff (e / 32) (d / 32), bit-bound (e % 32) (word (e / 32) s)))
        | inr other ↦ rw other (ground arith)
      ])

zero-bit : (e : ℕ) → bit_of e fd_zero ≡ 0
unfolding fd_zero
zero-bit e = ap (bit (e % 32)) (word-replicate (e / 32) fd_words) ∙ bit-zero (e % 32)

-- The macros over sets of `long`s make sets: for descriptors `d` that have a bit in the words of
-- `s`, a descriptor is in the set of FD_SET if it is `d` or in `s`, in that of FD_CLR if it is not
-- `d` and is in `s`, and in that of FD_ZERO never.
pub fd_isset-set :
    (d e : ℕ) (s : FdSet)
    → d < 32 * length s
    → (fd_isset e (fd_set d s) ≡ (e == d) || fd_isset e s)
      × (fd_isset e (fd_clr d s) ≡ not (e == d) && fd_isset e s)
      × (fd_isset e fd_zero ≡ false)
fd_isset-set d e s h = (
  fd_isset-bit e (fd_set d s) ∙ rw (set-bit d e s h, fd_isset-bit e s) (ground arith),
  fd_isset-bit e (fd_clr d s) ∙ rw (clr-bit d e s h, fd_isset-bit e s) (ground arith),
  fd_isset-bit e fd_zero ∙ rw (zero-bit e),
)
