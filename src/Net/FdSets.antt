-- ===== src/Net/FdSets.antt =====
-- PowerNet/include/sys/select.h: sets of descriptors, on a machine whose `long` has 32 bits.
pub mod Members
use power_boot.Prelude.{
  ℕ, zero, suc, ◌/◌, ◌%◌, ◌^◌, ◌-◌, ◌==◌, Bool, not, bit_and, List, [], ◌∷◌, replicate, bit_or,
}

-- The words of `fds_bits`.
abbrev pub FdSet : Type 0
FdSet = List ℕ

-- FD_SETSIZE / 8 / sizeof(long)
abbrev pub fd_words : ℕ
fd_words = 32

unfoldable pub fd_zero : FdSet
fd_zero = replicate fd_words 0

-- A word of the array; a write out of bounds changes nothing here.
unfoldable pub or_word : ℕ → ℕ → FdSet → FdSet
or_word i bits [] = []
or_word zero bits (b ∷ bs) = bit_or b bits ∷ bs
or_word (suc i) bits (b ∷ bs) = b ∷ or_word i bits bs

-- FD_SET
unfoldable pub fd_set : ℕ → FdSet → FdSet
unfolding or_word
fd_set d s = or_word (d / 32) (2 ^ (d % 32)) s

-- A word is masked, in its 32 bits.
unfoldable pub and_word : ℕ → ℕ → FdSet → FdSet
and_word i bits [] = []
and_word zero bits (b ∷ bs) = bit_and b bits ∷ bs
and_word (suc i) bits (b ∷ bs) = b ∷ and_word i bits bs

-- FD_CLR
unfoldable pub fd_clr : ℕ → FdSet → FdSet
fd_clr d s = and_word (d / 32) (2 ^ 32 - 1 - 2 ^ (d % 32)) s

-- A word of the array; a read out of bounds finds 0 here.
unfoldable pub word : ℕ → FdSet → ℕ
word i [] = 0
word zero (b ∷ bs) = b
word (suc i) (b ∷ bs) = word i bs

-- FD_ISSET
unfoldable pub fd_isset : ℕ → FdSet → Bool
fd_isset d s = not (bit_and (word (d / 32) s) (2 ^ (d % 32)) == 0)

-- `fds_bits[0]`
unfoldable pub first_word : FdSet → ℕ
first_word [] = 0
first_word (b ∷ _) = b
