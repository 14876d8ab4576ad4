-- ===== src/Mtd/Trigger/Fired.antt =====
-- Which positions read_mtd_trigger hands on: those of the boards that the trigger words name.
use star_hlt_tofmtd.Prelude.{
  ℕ, zero, suc, ◌+◌, ◌*◌, ◌/◌, ◌%◌, ◌^◌, ◌<◌, ◌≡◌, refl, Bool, true, false, ◌&&◌, arith, ltb, ◌==◌,
  if◌then◌else◌, map, Bool-cases, inl, inr,
}
use star_hlt_tofmtd.Prelude.Finite.{iota, agree_below}
use star_hlt_tofmtd.Prelude.Int.{ℤ, negsuc}
use star_hlt_tofmtd.Mtd.Trigger.{TacSum, place_at, fire_bits, trig_positions}

-- The bit of the trigger words for signal j of board q. In run year 16 the even boards are in the
-- first word and the odd ones in the second; in other years there are four boards, in the first.
abbrev pub fired_bit : ℕ → ℕ → ℕ → ℕ → ℕ → Bool
fired_bit y tf tf2 q j =
    if y == 16
    then (if q % 2 == 0
        then tf / 2 ^ (q / 2 * 2 + j + 4) % 2 == 1
        else tf2 / 2 ^ (q / 2 * 2 + j + 4) % 2 == 1)
    else ltb q 4 && tf / 2 ^ (q * 2 + j + 4) % 2 == 1

abbrev expected : ℕ → (ℕ → TacSum) → ℕ → ℕ → ℕ → ℕ → ℤ
expected y sums tf tf2 j q = if fired_bit y tf tf2 q j then place_at (sums q) j else negsuc 0

abbrev Agrees : ℕ → (ℕ → TacSum) → ℕ → ℕ → ℕ → Type 0
Agrees y sums tf tf2 j =
    map (λ q. trig_positions y sums tf tf2 q j) (iota 0 8)
    ≡ map (expected y sums tf tf2 j) (iota 0 8)

agrees16 :
    (y : ℕ) (sums : ℕ → TacSum) (tf tf2 : ℕ)
    → (y == 16) ≡ true
    → Agrees y sums tf tf2 0 × Agrees y sums tf tf2 1
unfolding iota trig_positions fire_bits
agrees16 y sums tf tf2 e = rw e (refl, refl)

agrees17 :
    (y : ℕ) (sums : ℕ → TacSum) (tf tf2 : ℕ)
    → (y == 16) ≡ false
    → Agrees y sums tf tf2 0 × Agrees y sums tf tf2 1
unfolding iota trig_positions fire_bits
agrees17 y sums tf tf2 e = rw e (refl, refl)

agrees : (y : ℕ) (sums : ℕ → TacSum) (tf tf2 : ℕ) → Agrees y sums tf tf2 0 × Agrees y sums tf tf2 1
agrees y sums tf tf2 = elim (Bool-cases (y == 16)) [
  | inl e ↦ agrees16 y sums tf tf2 e
  | inr e ↦ agrees17 y sums tf tf2 e
]

-- Of each of the eight boards the position of signal j, 0 or 1, is handed on if the board's bit of the
-- trigger words is set, and -1 stands for every other one, the boards 4 to 7 included in the run
-- years without them.
pub trig_positions-fired_bit :
    (y : ℕ) (sums : ℕ → TacSum) (tf tf2 q j : ℕ)
    → q < 8
    → j < 2
    → trig_positions y sums tf tf2 q j
      ≡ (if fired_bit y tf tf2 q j then place_at (sums q) j else negsuc 0)
trig_positions-fired_bit y sums tf tf2 q zero hq hj =
    agree_below 8 (λ k. trig_positions y sums tf tf2 k 0) (expected y sums tf tf2 0)
      (agrees y sums tf tf2).0 q hq
trig_positions-fired_bit y sums tf tf2 q (suc zero) hq hj =
    agree_below 8 (λ k. trig_positions y sums tf tf2 k 1) (expected y sums tf tf2 1)
      (agrees y sums tf tf2).1 q hq
trig_positions-fired_bit y sums tf tf2 q (suc (suc j)) hq hj = absurd (omega arith)
