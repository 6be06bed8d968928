-- ===== src/Inet/Decimal.antt =====
-- The round trip of `inet_addr` on dotted quads of decimal bytes.
use power_boot.Prelude.{
  ℕ, zero, suc, ◌+◌, ◌*◌, ◌/◌, ◌%◌, ◌^◌, ◌<◌, ◌≡◌, refl, ◌≢◌, true, false, ◌&&◌, Bool, none, some,
  [], ◌∷◌, ◌++◌, arith, ◌≤◌, ltb, Bool-cases, ◌==◌, ==_iff, if◌then◌else◌, bit_or, ◌∙◌, inl, inr,
}
use power_boot.Prelude.Bits.{bit_or-disjoint}
use power_boot.Prelude.Text.{Text}
use power_boot.Inet.{u32, join, inet_addr}
use power_boot.Inet.Scan.{Dotless}
use power_boot.Inet.Fields.{dotted, field_value, field_values, pad, reference, inet_addr-reference}

-- A byte in decimal, without leading zeros.
unfoldable pub decimal : ℕ → Text
decimal n =
    if ltb n 10
    then (48 + n) ∷ []
    else if ltb n 100
    then (48 + n / 10) ∷ (48 + n % 10) ∷ []
    else (48 + n / 100) ∷ (48 + n / 10 % 10) ∷ (48 + n % 10) ∷ []

reads_back : ℕ → Bool
unfolding decimal field_value
reads_back n = elim (field_value (decimal n)) [ none ↦ false | some v ↦ v == n ]

and_both : (a b : Bool) → (a && b) ≡ true → (a ≡ true) × (b ≡ true)
and_both true b e = (refl, e)
and_both false b e = cc

-- A test of `k` numbers in a row, from `n` on.
run_of : (ℕ → Bool) → (n k : ℕ) → Bool
run_of test n zero = true
run_of test n (suc k) = test n && run_of test (suc n) k

member-run_of :
    (test : ℕ → Bool) (n k j : ℕ) → run_of test n k ≡ true → n ≤ j → j < n + k → test j ≡ true
unfolding run_of
member-run_of test n zero j all lo hi = absurd (omega arith)
member-run_of test n (suc k) j all lo hi = elim (Bool-cases (j == n)) [
  | inl e ↦ rw ((==_iff j n).0 e) (and_both (test n) _ all).0
  | inr e ↦ member-run_of test (suc n) k j (and_both (test n) _ all).1 (ground arith) (omega arith)
]

bytes_read_back : run_of reads_back 0 256 ≡ true
unfolding run_of reads_back
bytes_read_back = refl

from_reads_back : (n : ℕ) → reads_back n ≡ true → field_value (decimal n) ≡ some n
unfolding reads_back
from_reads_back n e = ground arith

field_value-decimal : (n : ℕ) → n < 256 → field_value (decimal n) ≡ some n
field_value-decimal n h =
    from_reads_back n (member-run_of reads_back 0 256 n bytes_read_back (omega arith) (omega arith))

decimal-Dotless : (n : ℕ) → n < 256 → Dotless (decimal n)
unfolding decimal
decimal-Dotless n h = ground arith

join-bytes :
    (a b c d : ℕ)
    → a < 256
    → b < 256
    → c < 256
    → d < 256
    → join (a ∷ b ∷ c ∷ d ∷ []) ≡ a * 2 ^ 24 + b * 2 ^ 16 + c * 2 ^ 8 + d
unfolding join
join-bytes a b c d ha hb hc hd = rw abc (bit_or-disjoint 8 _ d (omega arith) ∙ omega arith)
  where
    ea : u32 (a * 2 ^ 24) ≡ a * 2 ^ 24
    ea = omega arith

    eb : u32 (b * 2 ^ 16) ≡ b * 2 ^ 16
    eb = omega arith

    ec : u32 (c * 2 ^ 8) ≡ c * 2 ^ 8
    ec = omega arith

    ab : bit_or (u32 (a * 2 ^ 24)) (u32 (b * 2 ^ 16)) ≡ (a * 2 ^ 8 + b) * 2 ^ 16
    ab = rw (ea, eb) (bit_or-disjoint 24 a (b * 2 ^ 16) (omega arith) ∙ omega arith)

    abc :
        bit_or (bit_or (u32 (a * 2 ^ 24)) (u32 (b * 2 ^ 16))) (u32 (c * 2 ^ 8))
        ≡ (a * 2 ^ 16 + b * 2 ^ 8 + c) * 2 ^ 8
    abc = rw (ab, ec) (bit_or-disjoint 16 (a * 2 ^ 8 + b) (c * 2 ^ 8) (omega arith) ∙ omega arith)

decimal-ne-nil : (n : ℕ) (s : Text) → decimal n ++ s ≢ []
unfolding decimal
decimal-ne-nil n s = ground arith

u32-byte : (n : ℕ) → n < 256 → u32 n ≡ n
u32-byte n h = omega arith

-- A dotted quad of decimal bytes is read back as the number whose bytes they are, in order.
pub inet_addr-decimal :
    (a b c d : ℕ)
    → a < 256
    → b < 256
    → c < 256
    → d < 256
    → inet_addr (some (dotted (decimal a) (decimal b ∷ decimal c ∷ decimal d ∷ [])))
      ≡ a * 2 ^ 24 + b * 2 ^ 16 + c * 2 ^ 8 + d
unfolding reference field_values pad
inet_addr-decimal a b c d ha hb hc hd =
    rw
      (
        inet_addr-reference (decimal a) (decimal b ∷ decimal c ∷ decimal d ∷ [])
            (
              decimal-Dotless a ha,
              (decimal-Dotless b hb, (decimal-Dotless c hc, (decimal-Dotless d hd, tt))),
            )
            (decimal-ne-nil a _),
        field_value-decimal a ha,
        field_value-decimal b hb,
        field_value-decimal c hc,
        field_value-decimal d hd,
        u32-byte a ha,
        u32-byte b hb,
        u32-byte c hc,
        u32-byte d hd,
      )
      (join-bytes a b c d ha hb hc hd)
