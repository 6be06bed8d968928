-- ===== src/Inet/Scan.antt =====
-- The digit loop of `inet_addr` on a field, against the value of a numeral without wrap-around.
use power_boot.Prelude.{
  ℕ, ◌+◌, ◌*◌, ◌-◌, ◌≡◌, refl, ◌≢◌, inl, inr, true, false, ◌&&◌, Option, none, some, [], ◌∷◌, ◌++◌,
  All, arith, ltb, leb, if◌then◌else◌, and_then, Bool-cases, Option-cases,
}
use power_boot.Prelude.Text.{Text, is_digit}
use power_boot.Inet.{u32, digit, scan, separator, finish}

abbrev pub dot : ℕ
dot = b'.'

abbrev pub Dotless : Text → Type 0
Dotless = All (λ c. c ≢ dot)

-- The text from the end of a field on: nothing, or a dot and what stands behind it.
abbrev pub tail : Option Text → Text
tail none = []
tail (some r) = dot ∷ r

-- What a character stands for, from 0 to 15.
unfoldable digit_value : ℕ → Option ℕ
digit_value c =
    if is_digit c
    then some (c - b'0')
    else if leb b'a' c && leb c b'f'
    then some (c - 87)
    else if leb b'A' c && leb c b'F'
    then some (c - 55)
    else none

-- The value of a numeral read from the left behind `acc`, with no bound on it.
unfoldable pub numeral : ℕ → ℕ → Text → Option ℕ
unfolding digit_value
numeral base acc [] = some acc
numeral base acc (c ∷ s) = elim (digit_value c) [
  | none ↦ none
  | some d ↦ elim (ltb d base) [ true ↦ numeral base (acc * base + d) s | false ↦ none ]
]

pub data IsBase : ℕ → Type 0 where
  octal : IsBase 8
  decimal : IsBase 10
  hexadecimal : IsBase 16

u32_digit : {base : ℕ} → IsBase base → (acc d : ℕ) → u32 (u32 acc * base + d) ≡ u32 (acc * base + d)
u32_digit octal acc d = omega arith
u32_digit decimal acc d = omega arith
u32_digit hexadecimal acc d = omega arith

digit-some : {base : ℕ} → IsBase base → (c n : ℕ) → digit base c ≡ some n → digit_value c ≡ some n
unfolding digit digit_value
digit-some octal c n e = ground arith
digit-some decimal c n e = ground arith
digit-some hexadecimal c n e = ground arith

-- Where `digit` breaks, there is no numeral.
digit-none :
    {base : ℕ}
    → IsBase base
    → (acc c : ℕ) (s : Text) → digit base c ≡ none
    → numeral base acc (c ∷ s) ≡ none
unfolding digit numeral
digit-none octal acc c s e = ground arith
digit-none decimal acc c s e = ground arith
digit-none hexadecimal acc c s e = ground arith

digit-dot : (base : ℕ) → digit base dot ≡ none
unfolding digit
digit-dot base = ground arith

ltb_of_leb : (a b : ℕ) → leb a b ≡ false → ltb b a ≡ true
ltb_of_leb a b h = ground arith

not-ltb_of_leb : (a b : ℕ) → leb a b ≡ true → ltb b a ≡ false
not-ltb_of_leb a b h = ground arith

module _ (base val c : ℕ) (s : Text) where
  scan-break : digit base c ≡ none → scan base val (c ∷ s) ≡ some (val, c ∷ s)
  unfolding scan
  scan-break e = rw (e, scan)

  scan-over : (n : ℕ) → digit base c ≡ some n → leb base n ≡ true → scan base val (c ∷ s) ≡ none
  unfolding scan
  scan-over n e over = rw (e, scan) (rw over)

  scan-next :
      (n : ℕ)
      → digit base c ≡ some n
      → leb base n ≡ false
      → scan base val (c ∷ s) ≡ scan base (u32 (val * base + n)) s
  unfolding scan
  scan-next n e fits = rw (e, scan) (rw fits)

  numeral-over :
      (n : ℕ) → digit_value c ≡ some n → leb base n ≡ true → numeral base val (c ∷ s) ≡ none
  unfolding numeral
  numeral-over n e over = rw (e, numeral) (rw (not-ltb_of_leb base n over))

  numeral-next :
      (n : ℕ)
      → digit_value c ≡ some n
      → leb base n ≡ false
      → numeral base val (c ∷ s) ≡ numeral base (val * base + n) s
  unfolding numeral
  numeral-next n e fits = rw (e, numeral) (rw (ltb_of_leb base n fits))

abbrev pub found : ℕ → Option Text → Option ℕ → Option (ℕ × Text)
found left t none = none
found left t (some v) = finish left (u32 v, tail t)

-- The loop at one character that is no dot, given what it does behind it.
scan_step :
    {base : ℕ} (b : IsBase base) (left acc c : ℕ) (f : Text) (t : Option Text)
    → c ≢ dot
    → ((acc' : ℕ)
        → and_then (scan base (u32 acc') (f ++ tail t)) (finish left)
          ≡ found left t (numeral base acc' f))
    → and_then (scan base (u32 acc) (c ∷ (f ++ tail t))) (finish left)
      ≡ found left t (numeral base acc (c ∷ f))
unfolding finish separator
scan_step {base} b left acc c f t ne ih = elim (Option-cases (digit base c)) [
  | inl e ↦ rw (scan-break base (u32 acc) c (f ++ tail t) e, digit-none b acc c f e) (ground arith)
  | inr (n, e) ↦ elim (Bool-cases (leb base n)) [
    | inl over ↦ rw (
      scan-over base (u32 acc) c (f ++ tail t) n e over,
      numeral-over base acc c f n (digit-some b c n e) over,
    )
    | inr fits ↦
        rw
          (
            scan-next base (u32 acc) c (f ++ tail t) n e fits,
            numeral-next base acc c f n (digit-some b c n e) fits,
            u32_digit b acc n,
          )
          (ih (acc * base + n))
  ]
]

pub scan-numeral :
    {base : ℕ} (b : IsBase base) (left acc : ℕ) (f : Text) (t : Option Text)
    → Dotless f
    → and_then (scan base (u32 acc) (f ++ tail t)) (finish left) ≡ found left t (numeral base acc f)
unfolding scan numeral
scan-numeral b left acc [] none h = refl
scan-numeral {base} b left acc [] (some r) h =
    rw (scan-break base (u32 acc) dot r (digit-dot base), and_then)
scan-numeral {base} b left acc (c ∷ f) t h =
    scan_step b left acc c f t h.0 (λ acc'. scan-numeral b left acc' f t h.1)
