-- ===== src/Mtd/Trigger.antt =====
-- mtd_hlt_reader::read_mtd_trigger of HLT_MTD/mtd_hlt_reader.cxx, from the decoded QT block on: the
-- TAC and ADC values of each QT board, the slewing and position corrections, and the two positions of
-- each board with the largest TAC sums, kept where the trigger word TF201 says that the board fired.
-- The layout of the trigger data block belongs to the DAQ's headers: its words come as arguments.
use star_hlt_tofmtd.Prelude.{
  ℕ, zero, suc, ◌+◌, ◌-◌, ◌*◌, ◌/◌, ◌%◌, ◌^◌, Bool, ◌&&◌, ◌||◌, List, [], ◌∷◌, Option, none, some,
  ltb, leb, ◌==◌, if◌then◌else◌,
}
use mathlib.Core.Bool.{not}
use star_hlt_tofmtd.Prelude.Int.{ℤ, pos, negsuc, ◌+ℤ◌, ◌-ℤ◌, ◌*ℤ◌, ltb_ℤ, abs, div_trunc}
use star_hlt_tofmtd.Mtd.Config.{Config, set2}
use star_hlt_tofmtd.Mtd.Hits.{TrigPos}
use star_hlt_tofmtd.Mtd.Qt.{Table}
pub mod Channels
pub mod TopTwo
pub mod Fired
pub mod Slewing

-- The row of mtdQTtac and mtdQTadc, and the address of the board that is read into it.
unfoldable pub boards : ℕ → List (ℕ × ℕ)
boards run_year =
    if leb run_year 15
    then (0, 0) ∷ (1, 10) ∷ (2, 12) ∷ (3, 14) ∷ []
    else if run_year == 16
    then (0, 0) ∷ (1, 9) ∷ (2, 10) ∷ (3, 11) ∷ (4, 12) ∷ (5, 13) ∷ (6, 14) ∷ (7, 15) ∷ []
    else (0, 0) ∷ (1, 9) ∷ (2, 11) ∷ (3, 13) ∷ []

-- mtdQTtac and mtdQTadc.
pub record Readout : Type 0 where
  pub tac : Table
  pub adc : Table

store_tac : List (ℕ × ℕ) → Table → ℕ → Readout → Readout
store_tac [] mxq i r = r
store_tac ((n, b) ∷ bs) mxq i r =
    store_tac bs mxq i (record r { tac = set2 r.tac n (i - i / 4 * 2 - 2) (mxq b i) })

store_adc : List (ℕ × ℕ) → Table → ℕ → Readout → Readout
store_adc [] mxq i r = r
store_adc ((n, b) ∷ bs) mxq i r =
    store_adc bs mxq i (record r { adc = set2 r.adc n (i - i / 4 * 2) (mxq b i) })

-- The channels i to i + left - 1: by fours, ADC and TAC values alternate.
store_channels : List (ℕ × ℕ) → Table → ℕ → ℕ → Readout → Readout
store_channels bs mxq zero i r = r
store_channels bs mxq (suc left) i r =
    store_channels bs mxq left (i + 1)
      (if i / 4 % 2 == 1 then store_tac bs mxq i r else store_adc bs mxq i r)

unfoldable pub store_qt : ℕ → Table → Readout → Readout
unfolding boards store_tac store_adc store_channels
store_qt run_year mxq r = store_channels (boards run_year) mxq 32 0 r

-- The slewing bin of an ADC value: bin 0 up to the first edge, bin l between two edges.
bin_from : ℕ → ℕ → (ℕ → ℕ) → ℕ → Option ℕ
bin_from zero l edge a = none
bin_from (suc left) l edge a =
    let rest = bin_from left (l + 1) edge a in
    if ltb (edge (l - 1)) a && leb a (edge l) then some l else rest

unfoldable pub slew_bin : (ℕ → ℕ) → ℕ → Option ℕ
unfolding bin_from
slew_bin edge a = if leb a (edge 0) then some 0 else bin_from 7 1 edge a

-- A TAC value with its correction, if there is a bin.
unfoldable pub slewed : Config → ℕ → ℕ → ℕ → ℕ → ℕ
slewed c im ch a j = elim (slew_bin (c.slew_bin_edge im ch) a) [
  | none ↦ j
  | some l ↦ j + c.slew_corr im ch l
]

-- int(j0 + j1 + abs(module-3)*1./8*(j0-j1)); the sum is exact in a double.
unfoldable pub position_sum : ℤ → ℕ → ℕ → ℤ
position_sum module' j0 j1 =
    div_trunc ((pos j0 +ℤ pos j1) *ℤ pos 8 +ℤ abs (module' -ℤ pos 3) *ℤ (pos j0 -ℤ pos j1)) 8

-- The sum of a pair of channels, or `none` for a pair that is passed over.
unfoldable pub sum_tac : ℤ → ℕ → ℕ → Option ℤ
sum_tac module' j0 j1 =
    if ltb j0 80 || ltb j1 80
    then none
    else if ltb_ℤ (pos 600) (abs (pos j0 -ℤ pos j1))
    then none
    else some (position_sum module' j0 j1)

-- mxq_tacsum and mxq_tacsum_pos of one board.
pub record TacSum : Type 0 where
  pub sum0 : ℤ
  pub sum1 : ℤ
  pub pos0 : ℤ
  pub pos1 : ℤ

unfoldable pub no_sum : TacSum
no_sum = record { sum0 = pos 0; sum1 = pos 0; pos0 = negsuc 0; pos1 = negsuc 0 }

unfoldable pub rank : ℤ → Option ℤ → TacSum → TacSum
rank place none s = s
rank place (some v) s =
    if ltb_ℤ s.sum0 v
    then record { sum0 = v; sum1 = s.sum0; pos0 = place; pos1 = s.pos0 }
    else if ltb_ℤ s.sum1 v
    then record s { sum1 = v; pos1 = place }
    else s

-- The pair of channels i of board im. In run year 16 only the odd pairs are read; in other years
-- there are four boards.
unfoldable pub pair_sum : ℕ → Config → Readout → ℕ → ℕ → Option ℤ
pair_sum run_year c r im i =
    if not (run_year == 16) && leb 4 im
    then none
    else if run_year == 16 && i % 2 == 0
    then none
    else sum_tac (c.qt_to_module im i) (slewed c im (i * 2) (r.adc im (i * 2)) (r.tac im (i * 2)))
        (slewed c im (i * 2 + 1) (r.adc im (i * 2 + 1)) (r.tac im (i * 2 + 1)))

unfoldable pub rank_pairs : ℕ → ℕ → (ℕ → Option ℤ) → TacSum → TacSum
rank_pairs zero i sums s = s
rank_pairs (suc left) i sums s = rank_pairs left (i + 1) sums (rank (pos (i + 1)) (sums i) s)

unfoldable pub board_sum : ℕ → Config → Readout → ℕ → TacSum
board_sum run_year c r im = rank_pairs 8 0 (pair_sum run_year c r im) no_sum

abbrev pub place_at : TacSum → ℕ → ℤ
place_at s zero = s.pos0
place_at s (suc j) = s.pos1

-- if((tf >> (i*2+j+4)) & 0x1) mTrigQTpos[qt][j] = …
abbrev pub fire : (ℕ → TacSum) → ℕ → ℕ → ℕ → ℕ → TrigPos → TrigPos
fire sums tf i j qt t a b =
    if (qt == a && j == b) && tf / 2 ^ (i * 2 + j + 4) % 2 == 1 then place_at (sums qt) j else t a b

abbrev fire_bit : ℕ → (ℕ → TacSum) → ℕ → ℕ → ℕ → ℕ → TrigPos → TrigPos
fire_bit run_year sums tf tf2 i j t =
    if run_year == 16
    then fire sums tf2 i j (i * 2 + 1) (fire sums tf i j (i * 2) t)
    else fire sums tf i j i t

unfoldable pub fire_bits : ℕ → ℕ → ℕ → (ℕ → TacSum) → ℕ → ℕ → TrigPos → TrigPos
fire_bits zero i run_year sums tf tf2 t = t
fire_bits (suc left) i run_year sums tf tf2 t =
    fire_bits left (i + 1) run_year sums tf tf2
      (fire_bit run_year sums tf tf2 i 1 (fire_bit run_year sums tf tf2 i 0 t))

-- mTrigQTpos is cleared to -1 first.
unfoldable pub trig_positions : ℕ → (ℕ → TacSum) → ℕ → ℕ → TrigPos
trig_positions run_year sums tf tf2 = fire_bits 4 0 run_year sums tf tf2 (λ a b. negsuc 0)
