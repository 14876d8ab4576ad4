-- ===== src/Mtd/Swap.antt =====
-- swapI and swapSS of HLT_MTD/mtd_hlt_reader.h: the bytes of a 32-bit word, and those of its two halves,
-- in the opposite order. The or of parts without a common bit is written as their sum.
use star_hlt_tofmtd.Prelude.{ℕ, ◌+◌, ◌*◌, ◌/◌, ◌%◌, ◌^◌, ◌<◌, ◌≡◌, arith, List, get_or}
use star_hlt_tofmtd.Prelude.Bits.{field}

unfoldable pub swap_i : ℕ → ℕ
swap_i w = field w 24 8 + field w 16 8 * 2 ^ 8 + field w 8 8 * 2 ^ 16 + field w 0 8 * 2 ^ 24

unfoldable pub swap_ss : ℕ → ℕ
swap_ss w = field w 24 8 * 2 ^ 16 + field w 16 8 * 2 ^ 24 + field w 8 8 + field w 0 8 * 2 ^ 8

-- Entry i of an array of unsigned shorts, over the words that hold it.
abbrev pub short_at : List ℕ → ℕ → ℕ
short_at ws i = swap_ss (get_or ws (i / 2) 0) / 2 ^ (i % 2 * 16) % 2 ^ 16

-- Each of the two swaps undoes itself on a 32-bit word and stays within 32 bits, and one after the other
-- they exchange the halves of the word.
pub swap_i-swap_ss :
    (w : ℕ)
    → w < 2 ^ 32
    → (swap_i (swap_i w) ≡ w)
      × (swap_ss (swap_ss w) ≡ w)
      × (swap_i w < 2 ^ 32)
      × (swap_ss w < 2 ^ 32)
      × (swap_i (swap_ss w) ≡ w / 2 ^ 16 + w % 2 ^ 16 * 2 ^ 16)
unfolding swap_i swap_ss
swap_i-swap_ss w h = omega arith
