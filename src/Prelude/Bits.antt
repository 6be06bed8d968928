-- ===== src/Prelude/Bits.antt =====
-- Bitwise or and bitwise and at variables: the lowest digit; of the or, a bound and disjoint
-- fields.
use Prim.Native.Nat.{
  ℕ, zero, suc, ◌+◌, ◌*◌, ◌/◌, ◌%◌, ◌^◌, ◌≤◌, ◌<◌, max, min, bit_or, bit_and, digits,
  bit_or-bitwise, bit_and-bitwise,
}
use mathlib.Core.Path.{◌≡◌, refl, ap, sym, ◌∙◌}
use mathlib.Core.Logic.{◌⊎◌, inl, inr}
use native.Mathlib.Nat.{pow-suc}
use native.Mathlib.Omega.{arith}

last_round : (a r : ℕ) → a ≤ suc r → (a ≤ r) ⊎ (suc r ≡ a)
last_round a r le = ground arith

-- An operation on the binary digits, in more rounds than there are digits.
module _ (z : ℕ → ℕ) (f : ℕ → ℕ → ℕ) where
  -- One more round than digits changes nothing.
  spare_round : (r a b : ℕ) → a ≤ r → digits z f (suc r) a b ≡ digits z f r a b
  spare_round zero zero b le = refl
  spare_round (suc r) zero b le = refl
  spare_round zero (suc a) b le = absurd (omega arith)
  spare_round (suc r) (suc a) b le =
      ap (λ h. h * 2 + f (suc a % 2) (b % 2)) (spare_round r (suc a / 2) (b / 2) (omega arith))

  enough_rounds : (r a b : ℕ) → a ≤ r → digits z f r a b ≡ digits z f a a b
  enough_rounds zero a b le = ap (λ k. digits z f k a b) none_left
    where
      none_left : 0 ≡ a
      none_left = omega arith
  enough_rounds (suc r) a b le = elim (last_round a r le) [
    | inl small ↦ spare_round r a b small ∙ enough_rounds r a b small
    | inr full ↦ ap (λ k. digits z f k a b) full
  ]

pub zero-bit_or : (b : ℕ) → bit_or 0 b ≡ b
zero-bit_or = bit_or-bitwise 0

pub bit_or_step : (a b : ℕ) → bit_or a b ≡ bit_or (a / 2) (b / 2) * 2 + max (a % 2) (b % 2)
bit_or_step zero b = rw (zero-bit_or b, zero-bit_or (b / 2)) (omega arith)
bit_or_step (suc a) b =
    bit_or-bitwise (suc a) b
    ∙ ap (λ h. h * 2 + max (suc a % 2) (b % 2))
        (enough_rounds (λ b. b) max a (suc a / 2) (b / 2) (omega arith)
          ∙ sym (bit_or-bitwise (suc a / 2) (b / 2)))

bit_and-nothing : (y : ℕ) → bit_and 0 y ≡ 0
bit_and-nothing = bit_and-bitwise 0

pub bit_and-halves : (x y : ℕ) → bit_and x y ≡ min (x % 2) (y % 2) + 2 * bit_and (x / 2) (y / 2)
bit_and-halves zero y = omega (arith, bit_and-nothing (y / 2), bit_and-nothing y)
bit_and-halves (suc x) y =
    let rest = enough_rounds (λ _. zero) min x (suc x / 2) (y / 2) (omega arith) in
    omega (arith, bit_and-bitwise (suc x) y, rest, bit_and-bitwise (suc x / 2) (y / 2))

-- By the digits of `a`, of which there are at most `r`.
no_digits : (r a : ℕ) → a ≤ r → bit_or a 0 ≡ a
no_digits zero a le = omega (arith, zero-bit_or 0, ap (λ k. bit_or k 0) none_left)
  where
    none_left : a ≡ 0
    none_left = omega arith
no_digits (suc r) a le = omega (arith, bit_or_step a 0, no_digits r (a / 2) (omega arith))

bit_or-zero : (a : ℕ) → bit_or a 0 ≡ a
bit_or-zero a = no_digits a a (omega arith)

-- No digit is in both.
disjoint_digits : (r x : ℕ) → x ≤ r → bit_and x 0 ≡ 0
disjoint_digits zero x le = rw none_left (bit_and-nothing 0)
  where
    none_left : x ≡ 0
    none_left = omega arith
disjoint_digits (suc r) x le =
    bit_and-halves x 0 ∙ omega (arith, disjoint_digits r (x / 2) (omega arith))

pub no_mask : (x : ℕ) → bit_and x 0 ≡ 0
no_mask x = disjoint_digits x x (omega arith)

half-lt : (w a : ℕ) → a < 2 ^ suc w → a / 2 < 2 ^ w
half-lt w a h = omega (arith, pow-suc 2 w)

-- The or of two w-bit words is a w-bit word.
pub bit_or-lt : (w a b : ℕ) → a < 2 ^ w → b < 2 ^ w → bit_or a b < 2 ^ w
bit_or-lt zero zero b p q = omega (arith, zero-bit_or b)
bit_or-lt zero (suc a) b p q = absurd (omega arith)
bit_or-lt (suc w) a b p q = omega (
  arith,
  pow-suc 2 w,
  bit_or_step a b,
  bit_or-lt w (a / 2) (b / 2) (half-lt w a p) (half-lt w b q),
)

-- The or of a multiple of 2 ^ w and a w-bit word is their sum.
pub bit_or-disjoint : (w a b : ℕ) → b < 2 ^ w → bit_or (a * 2 ^ w) b ≡ a * 2 ^ w + b
bit_or-disjoint zero a zero q = omega (arith, bit_or-zero (a * 1))
bit_or-disjoint zero a (suc b) q = absurd (omega arith)
bit_or-disjoint (suc w) a b q =
    let e : a * 2 ^ suc w ≡ a * 2 ^ w * 2 = omega (arith, ap (λ t. a * t) (pow-suc 2 w)) in
    let half : a * 2 ^ suc w / 2 ≡ a * 2 ^ w = omega arith in
    omega (
      arith,
      bit_or_step (a * 2 ^ suc w) b,
      ap (λ t. bit_or t (b / 2)) half,
      bit_or-disjoint w a (b / 2) (half-lt w b q),
    )
