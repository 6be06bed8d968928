-- ===== src/Inet.antt =====
-- PowerNet/src/arpa: the dotted address parser of netinet.cpp and the byte order functions of
-- inet.cpp. PowerNet is built for Classic Mac OS only, where `unsigned long` has 32 bits; a C
-- string is the list of its bytes before the terminating NUL, a null pointer is `none`.
pub mod Scan
pub mod Fields
pub mod Address
pub mod Decimal
use power_boot.Prelude.{
  ℕ, zero, suc, ◌+◌, ◌-◌, ◌*◌, ◌%◌, ◌^◌, true, false, ◌&&◌, ◌||◌, Option, none, some, List, [], ◌∷◌,
  ◌==◌, leb, if◌then◌else◌, and_then, bit_or,
}
use power_boot.Prelude.Text.{Text, is_digit, is_xdigit, to_lower}

abbrev pub u32 : ℕ → ℕ
u32 n = n % 2 ^ 32

-- INADDR_NONE, what every failure returns
abbrev none_address : ℕ
none_address = 0xffff_ffff

-- `base` and `cp` after the prefix test at the head of a part
unfoldable pub prefix : Text → ℕ × Text
prefix [] = (10, [])
prefix (c ∷ []) = if c == b'0' then (8, []) else (10, c ∷ [])
prefix (c ∷ d ∷ s) =
    if c == b'0'
    then (if (d == b'x') || (d == b'X') then (16, s) else (8, d ∷ s))
    else (10, c ∷ d ∷ s)

-- `n` for the character `c`; `none` is the `break`
unfoldable pub digit : ℕ → ℕ → Option ℕ
digit base c =
    if is_digit c
    then some (c - b'0')
    else if (base == 16) && is_xdigit c
    then some (to_lower c - b'a' + 10)
    else none

-- The `while` over the digits of a part: the value and the rest of the text, or `none` for a
-- digit that the base does not have.
unfoldable pub scan : ℕ → ℕ → Text → Option (ℕ × Text)
scan base val [] = some (val, [])
scan base val (c ∷ s) = elim (digit base c) [
  | none ↦ some (val, c ∷ s)
  | some n ↦ elim (leb base n) [ true ↦ none | false ↦ scan base (u32 (val * base + n)) s ]
]

-- The test behind a part, with `left` rounds of the `for` still to come.
unfoldable pub separator : ℕ → Text → Option Text
separator left [] = some []
separator left (c ∷ s) = if c == b'.' then (if left == 0 then none else some s) else none

unfoldable pub finish : ℕ → ℕ × Text → Option (ℕ × Text)
unfolding separator
finish left (val, r) = and_then (separator left r) λ r'. some (val, r')

-- One part: its value and the text behind its separator.
unfoldable pub part : ℕ → Text → Option (ℕ × Text)
unfolding prefix scan digit finish
part left cp = let (base, s) = prefix cp in and_then (scan base 0 s) (finish left)

-- The `for` over the parts, with `left` rounds to go.
unfoldable pub parts : ℕ → Text → Option (List ℕ)
unfolding part
parts zero cp = some []
parts (suc left) cp =
    and_then (part left cp) λ (val, r). and_then (parts left r) λ vs. some (val ∷ vs)

-- `(parts[0] << 24) | (parts[1] << 16) | (parts[2] << 8) | parts[3]`
unfoldable pub join : List ℕ → ℕ
join (a ∷ b ∷ c ∷ d ∷ _) =
    bit_or (bit_or (bit_or (u32 (a * 2 ^ 24)) (u32 (b * 2 ^ 16))) (u32 (c * 2 ^ 8))) d
join _ = none_address

abbrev pub address_of : Option (List ℕ) → ℕ
address_of none = none_address
address_of (some vs) = join vs

unfoldable pub inet_addr : Option Text → ℕ
unfolding parts join
inet_addr none = none_address
inet_addr (some []) = none_address
inet_addr (some (c ∷ s)) = address_of (parts 4 (c ∷ s))

-- Classic Mac OS runs on big-endian processors, so that these change nothing.
unfoldable htonl : ℕ → ℕ
htonl hostlong = hostlong

unfoldable pub htons : ℕ → ℕ
htons hostshort = hostshort

unfoldable ntohl : ℕ → ℕ
ntohl netlong = netlong

unfoldable ntohs : ℕ → ℕ
ntohs netshort = netshort
