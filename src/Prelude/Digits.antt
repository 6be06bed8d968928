-- ===== src/Prelude/Digits.antt =====
-- The binary digits of a number, and what the operations on words make of them.
use power_boot.Prelude.{
  ℕ, zero, suc, ◌-◌, ◌*◌, ◌/◌, ◌%◌, ◌^◌, ◌≤◌, ◌<◌, max, bit_or, bit_and, ◌≡◌, refl, ap, ◌∙◌, arith,
  ◌==◌, if◌then◌else◌,
}
use Prim.Native.Nat.{min}
use native.Mathlib.Nat.{pow-suc}
use power_boot.Prelude.Bits.{bit_or_step, bit_and-halves, no_mask}

-- The digit of 2 ^ k in `a`.
unfoldable pub bit : ℕ → ℕ → ℕ
bit zero a = a % 2
bit (suc k) a = bit k (a / 2)

pub bit-bit_or : (k a b : ℕ) → bit k (bit_or a b) ≡ max (bit k a) (bit k b)
unfolding bit
bit-bit_or zero a b = omega (arith, bit_or_step a b)
bit-bit_or (suc k) a b = ap (bit k) half ∙ bit-bit_or k (a / 2) (b / 2)
  where
    half : bit_or a b / 2 ≡ bit_or (a / 2) (b / 2)
    half = omega (arith, bit_or_step a b)

pub bit-bit_and : (k a b : ℕ) → bit k (bit_and a b) ≡ min (bit k a) (bit k b)
unfolding bit
bit-bit_and zero a b = omega (arith, bit_and-halves a b)
bit-bit_and (suc k) a b = ap (bit k) half ∙ bit-bit_and k (a / 2) (b / 2)
  where
    half : bit_and a b / 2 ≡ bit_and (a / 2) (b / 2)
    half = omega (arith, bit_and-halves a b)

pub bit-zero : (k : ℕ) → bit k 0 ≡ 0
unfolding bit
bit-zero zero = refl
bit-zero (suc k) = bit-zero k

pub bit-pow : (k j : ℕ) → bit k (2 ^ j) ≡ (if k == j then 1 else 0)
unfolding bit
bit-pow zero zero = refl
bit-pow zero (suc j) = grind (arith, pow-suc 2 j)
bit-pow (suc k) zero = bit-zero k ∙ ground arith
bit-pow (suc k) (suc j) = ap (bit k) half ∙ bit-pow k j ∙ ground arith
  where
    half : 2 ^ suc j / 2 ≡ 2 ^ j
    half = omega (arith, pow-suc 2 j)

-- The complement of a word of `w` bits.
pub bit-complement : (w k a : ℕ) → k < w → a < 2 ^ w → bit k (2 ^ w - 1 - a) ≡ 1 - bit k a
unfolding bit
bit-complement zero k a lt h = absurd (omega arith)
bit-complement (suc w) zero a lt h = omega (arith, pow-suc 2 w)
bit-complement (suc w) (suc k) a lt h =
    ap (bit k) half ∙ bit-complement w k (a / 2) (omega arith) (omega (arith, pow-suc 2 w))
  where
    half : (2 ^ suc w - 1 - a) / 2 ≡ 2 ^ w - 1 - a / 2
    half = omega (arith, pow-suc 2 w)

pow-positive : (k : ℕ) → 0 < 2 ^ k
pow-positive zero = omega arith
pow-positive (suc k) = omega (arith, pow-suc 2 k, pow-positive k)

pub pow-lt : (k w : ℕ) → k < w → 2 ^ k < 2 ^ w
pow-lt k zero h = absurd (omega arith)
pow-lt zero (suc w) h = omega (arith, pow-suc 2 w, pow-positive w)
pow-lt (suc k) (suc w) h = omega (arith, pow-suc 2 k, pow-suc 2 w, pow-lt k w (omega arith))

-- A mask of one bit.
bit_and-pow : (k a : ℕ) → bit_and a (2 ^ k) ≡ bit k a * 2 ^ k
unfolding bit
bit_and-pow zero a = omega (arith, bit_and-halves a 1, no_mask (a / 2))
bit_and-pow (suc k) a =
    bit_and-halves a (2 ^ suc k)
    ∙ rw (half, ones, bit_and-pow k (a / 2))
        (omega (arith, ap (λ t. bit k (a / 2) * t) (pow-suc 2 k)))
  where
    half : 2 ^ suc k / 2 ≡ 2 ^ k
    half = omega (arith, pow-suc 2 k)

    ones : min (a % 2) (2 ^ suc k % 2) ≡ 0
    ones = omega (arith, pow-suc 2 k)

pub bit-bound : (k a : ℕ) → bit k a ≤ 1
unfolding bit
bit-bound zero a = omega arith
bit-bound (suc k) a = bit-bound k (a / 2)

-- The test of one bit of a word.
pub mask-bit : (k a : ℕ) → (bit_and a (2 ^ k) == 0) ≡ (bit k a == 0)
mask-bit k a = rw (bit_and-pow k a) (from (bit k a) (bit-bound k a))
  where
    from : (b : ℕ) → b ≤ 1 → (b * 2 ^ k == 0) ≡ (b == 0)
    from zero h = ground arith
    from (suc zero) h = ground (arith, pow-positive k)
    from (suc (suc b)) h = absurd (omega arith)
