-- ===== src/Mtd/Config/Wiring.antt =====
-- That the wiring tables of the two run periods are consistent.
use star_hlt_tofmtd.Prelude.{
  ℕ, zero, suc, ◌+◌, ◌-◌, ◌≤◌, ◌<◌, ◌≡◌, ◌≢◌, refl, Bool, true, ◌&&◌, Bool-cases, inl, inr, arith,
  leb, ◌==◌,
}
use star_hlt_tofmtd.Prelude.Int.{ℤ, pos, negsuc, pos_part, ◌==ℤ◌, ltb_ℤ}
use star_hlt_tofmtd.Prelude.Finite.{all_below, all_below_sound, implies, implies_elim}
use star_hlt_tofmtd.Mtd.Tables.{
  module2qt_run16, module2qt_run17, module2chan_run16, module2chan_run17,
}
use mathlib.Core.Bool.{not}
use star_hlt_tofmtd.Mtd.Rdo.{tray_of}
use star_hlt_tofmtd.Mtd.Rdo.Strips.{tray_of_le}
use star_hlt_tofmtd.Mtd.Config.{Config, slewing, init, wire_rows, blank}

-- What it means that module j of backleg i is read out by a QT board and can be found from there.
pub record IsWired (c : Config) (i j : ℕ) : Type 0 where
  pub qt : ℕ
  pub place : ℕ
  pub qt_eq : c.module_to_qt i j ≡ pos (suc qt)
  pub place_eq : c.module_to_qt_pos i j ≡ pos (suc place)
  pub qt_lt : qt < 8
  pub place_lt : place < 8
  pub back : c.qt_to_module qt place ≡ pos (j + 1)

-- The wiring alone, without the slewing tables.
abbrev wiring16 : Config
wiring16 = wire_rows module2qt_run16 module2chan_run16 30 0 blank

abbrev wiring17 : Config
wiring17 = wire_rows module2qt_run17 module2chan_run17 30 0 blank

wired_back : Config → ℕ → ℕ → Bool
wired_back c i j =
    let qt = c.module_to_qt i j in
    let place = c.module_to_qt_pos i j in
    ltb_ℤ (pos 0) qt
    && ltb_ℤ (pos 0) place
    && leb (pos_part qt) 8
    && leb (pos_part place) 8
    && c.qt_to_module (pos_part qt - 1) (pos_part place - 1) ==ℤ pos (j + 1)

-- The modules of backleg i + 1 that some TDIG reads.
read_out : ℕ → ℕ → ℕ → Bool
read_out i j t = not (i == 8) && tray_of (i + 1) t == j + 1

abbrev checks : Config → Bool
checks c =
    all_below 30 λ i. all_below 5 λ j. all_below 8 λ t. implies (read_out i j t) (wired_back c i j)

checks16 : checks wiring16 ≡ true
unfolding all_below wired_back read_out tray_of wire_rows blank module2qt_run16 module2chan_run16
checks16 = refl

checks17 : checks wiring17 ≡ true
unfolding all_below wired_back read_out tray_of wire_rows blank module2qt_run17 module2chan_run17
checks17 = refl

back_eq : {k : ℕ} (z : ℤ) → (z ==ℤ pos k) ≡ true → z ≡ pos k
back_eq z h = ground arith

sub-suc : (k : ℕ) → suc k - 1 ≡ k
sub-suc k = omega arith

wired_back-IsWired : (c : Config) (i j : ℕ) → wired_back c i j ≡ true → IsWired c i j
unfolding wired_back
wired_back-IsWired c i j e = from_parts (c.module_to_qt i j) (c.module_to_qt_pos i j) refl refl e
  where
    from_parts :
        (q p : ℤ)
        → c.module_to_qt i j ≡ q
        → c.module_to_qt_pos i j ≡ p
        → (ltb_ℤ (pos 0) q
            && ltb_ℤ (pos 0) p
            && leb (pos_part q) 8
            && leb (pos_part p) 8
            && c.qt_to_module (pos_part q - 1) (pos_part p - 1) ==ℤ pos (j + 1))
          ≡ true
        → IsWired c i j
    from_parts (pos (suc q)) (pos (suc p)) eq ep h = record {
      qt = q;
      place = p;
      qt_eq = eq;
      place_eq = ep;
      qt_lt = ground (arith, h);
      place_lt = ground (arith, h);
      back = back_eq (c.qt_to_module q p) (ground (arith, h, sub-suc q, sub-suc p));
    }
    from_parts (pos (suc q)) (pos zero) eq ep h = ground (arith, h)
    from_parts (pos (suc q)) (negsuc p) eq ep h = ground (arith, h)
    from_parts (pos zero) p eq ep h = ground (arith, h)
    from_parts (negsuc q) p eq ep h = ground (arith, h)

slewing-IsWired : (y : ℕ) (c : Config) (i j : ℕ) → IsWired c i j → IsWired (slewing y c) i j
unfolding slewing
slewing-IsWired y c i j w = elim (Bool-cases (y == 16)) [
  | inl e ↦ rw e (record {
    qt = w.qt;
    place = w.place;
    qt_eq = w.qt_eq;
    place_eq = w.place_eq;
    qt_lt = w.qt_lt;
    place_lt = w.place_lt;
    back = w.back;
  })
  | inr e ↦ rw e (record {
    qt = w.qt;
    place = w.place;
    qt_eq = w.qt_eq;
    place_eq = w.place_eq;
    qt_lt = w.qt_lt;
    place_lt = w.place_lt;
    back = w.back;
  })
]

init-wiring :
    (y i j : ℕ) → 14 ≤ y → IsWired wiring16 i j → IsWired wiring17 i j → IsWired (init y) i j
unfolding init
init-wiring y i j h w16 w17 = elim (Bool-cases (y == 16)) [
  | inl e ↦ rw (late, e) (slewing-IsWired y wiring16 i j w16)
  | inr e ↦ rw (late, e) (slewing-IsWired y wiring17 i j w17)
]
  where
    late : leb 14 y ≡ true
    late = ground arith

-- From run year 14 on, every module of a backleg in use that some TDIG reads has a QT board and a
-- position on it, both inside the arrays, and the board and position lead back to the module.
pub init-IsWired :
    (y b t j : ℕ)
    → 14 ≤ y
    → 1 ≤ b
    → b ≤ 30
    → b ≢ 9
    → t < 8
    → tray_of b t ≡ suc j
    → IsWired (init y) (b - 1) j
init-IsWired y b t j h low high nine ht e =
    init-wiring y (b - 1) j h (wired_back-IsWired wiring16 (b - 1) j (from_table wiring16 checks16))
      (wired_back-IsWired wiring17 (b - 1) j (from_table wiring17 checks17))
  where
    reads : read_out (b - 1) j t ≡ true
    reads = let back : b - 1 + 1 ≡ b = omega arith in unfold read_out in rw (back, e) (ground arith)

    j_lt : j < 5
    j_lt = omega (arith, tray_of_le b t (omega arith) ht)

    from_table : (c : Config) → checks c ≡ true → wired_back c (b - 1) j ≡ true
    from_table c all =
        implies_elim _ _
          (all_below_sound 8 _ t
            (all_below_sound 5 _ j (all_below_sound 30 _ (b - 1) all (omega arith)) j_lt) ht)
          reads
