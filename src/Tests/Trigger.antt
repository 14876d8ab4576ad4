-- ===== src/Tests/Trigger.antt =====
-- A QT block of two lines, the sums of three pairs and the bits of a trigger word.
use star_hlt_tofmtd.Prelude.{
  ℕ, ◌+◌, ◌*◌, ◌≡◌, ◌≢◌, ◌⊎◌, refl, [], ◌∷◌, ◌++◌, ◌==◌, Option, some, none, arith, if◌then◌else◌,
}
use star_hlt_tofmtd.Prelude.Int.{ℤ, pos, negsuc, ◌≤ℤ◌}
use star_hlt_tofmtd.Mtd.Config.{init}
use star_hlt_tofmtd.Mtd.Qt.{Table, decode_qt}
use star_hlt_tofmtd.Mtd.Qt.Blocks.{Board, IsBoard, block_words, store_boards, decode_qt-block_words}
use star_hlt_tofmtd.Mtd.Reader.{no_table}
use star_hlt_tofmtd.Mtd.Trigger.{
  boards, Readout, store_qt, slewed, TacSum, no_sum, rank, rank_pairs, place_at, trig_positions,
}
use star_hlt_tofmtd.Mtd.Trigger.Channels.{store_qt-is_row}
use star_hlt_tofmtd.Mtd.Trigger.Fired.{fired_bit, trig_positions-fired_bit}
use star_hlt_tofmtd.Mtd.Trigger.Slewing.{InBin, slewed-init}
use star_hlt_tofmtd.Mtd.Trigger.TopTwo.{AtMost, Found, rank_pairs-AtMost}

abbrev two_lines : Board
two_lines = record {
  addr = 9;
  lines = record { ch = 4; adc = 700; tdc = 3 } ∷ record { ch = 31; adc = 4095; tdc = 31 } ∷ [];
}

two_lines-IsBoard : IsBoard two_lines
two_lines-IsBoard = record {
  addr_lt = omega arith;
  few = omega arith;
  good = (
    record { ch_lt = omega arith; adc_lt = omega arith; tdc_lt = omega arith },
    (record { ch_lt = omega arith; adc_lt = omega arith; tdc_lt = omega arith }, tt),
  );
}

decode_qt-block_words_example :
    decode_qt (block_words (two_lines ∷ []) ++ 0xac10 ∷ []) no_table no_table
    ≡ some (store_boards (two_lines ∷ []) (no_table, no_table))
decode_qt-block_words_example =
    decode_qt-block_words (two_lines ∷ []) no_table no_table (two_lines-IsBoard, tt)
      (unfold block_words in omega arith)

abbrev counting : Table
counting b i = b * 32 + i

abbrev zeros : Readout
zeros = record { tac = no_table; adc = no_table }

store_qt-is_row_example :
    ((store_qt 16 counting zeros).tac 3 5 ≡ 11 * 32 + 13)
    × ((store_qt 16 counting zeros).adc 3 5 ≡ 11 * 32 + 9)
store_qt-is_row_example =
    store_qt-is_row 16 counting zeros 3 11 5 (unfold boards in refl) (omega arith)

slewed-init_example :
    (l : ℕ) × InBin ((init 16).slew_bin_edge 0 2) 600 l
    × (slewed (init 16) 0 2 600 1000 ≡ 1000 + (init 16).slew_corr 0 2 l)
slewed-init_example =
    slewed-init 16 0 2 600 1000 (omega arith) (omega arith) (omega arith) (omega arith)

-- The sums of three pairs; the others are passed over.
abbrev three_sums : ℕ → Option ℤ
three_sums i =
    if i == 1
    then some (pos 900)
    else if i == 4
    then some (pos 1200)
    else if i == 6
    then some (pos 1000)
    else none

rank_pairs-AtMost_example :
    let s = rank_pairs 8 0 three_sums no_sum in
    Found three_sums 8 s.sum0 s.pos0
    × Found three_sums 8 s.sum1 s.pos1
    × (s.sum1 ≤ℤ s.sum0)
    × ((s.pos0 ≢ s.pos1) ⊎ (s.pos0 ≡ negsuc 0))
    × AtMost (three_sums 6) s.sum0
    × ((s.pos0 ≡ pos 7) ⊎ AtMost (three_sums 6) s.sum1)
rank_pairs-AtMost_example = rank_pairs-AtMost three_sums 8 6 (omega arith)

ranked :
    rank_pairs 8 0 three_sums no_sum
    ≡ record { sum0 = pos 1200; sum1 = pos 1000; pos0 = pos 5; pos1 = pos 7 }
unfolding rank_pairs rank no_sum
ranked = refl

abbrev same_sums : ℕ → TacSum
same_sums q = record { sum0 = pos 1200; sum1 = pos 1000; pos0 = pos 5; pos1 = pos 7 }

trig_positions-fired_bit_example :
    trig_positions 16 same_sums 32 64 1 0
    ≡ (if fired_bit 16 32 64 1 0 then place_at (same_sums 1) 0 else negsuc 0)
trig_positions-fired_bit_example =
    trig_positions-fired_bit 16 same_sums 32 64 1 0 (omega arith) (omega arith)
