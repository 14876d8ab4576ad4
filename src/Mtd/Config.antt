-- ===== src/Mtd/Config.antt =====
-- The wiring tables that mtd_hlt_reader::init of HLT_MTD/mtd_hlt_reader.cxx fills, for the run year.
-- An array is a function of its indices; before init every entry of the first three is -1, and
-- every entry of the two slewing tables 0.
use star_hlt_tofmtd.Prelude.{
  ℕ, zero, suc, ◌+◌, ◌-◌, ◌*◌, ◌/◌, ◌%◌, Bool, ◌&&◌, List, [], ◌∷◌, ltb, leb, ◌==◌, if◌then◌else◌,
  get_or,
}
use star_hlt_tofmtd.Prelude.Int.{ℤ, pos, negsuc, pos_part, ltb_ℤ}
use star_hlt_tofmtd.Mtd.Tables.{
  module2qt_run16, module2qt_run17, module2chan_run16, module2chan_run17,
}
use star_hlt_tofmtd.Mtd.SlewEdges.{qtslew_binedge_run16}
use star_hlt_tofmtd.Mtd.SlewCorr.{qtslew_corr_run16}
pub mod Wiring

pub record Config : Type 0 where
  pub module_to_qt : ℕ → ℕ → ℤ
  pub module_to_qt_pos : ℕ → ℕ → ℤ
  pub qt_to_module : ℕ → ℕ → ℤ
  pub slew_bin_edge : ℕ → ℕ → ℕ → ℕ
  pub slew_corr : ℕ → ℕ → ℕ → ℕ

-- The state that the constructor's memset calls leave.
unfoldable pub blank : Config
blank = record {
  module_to_qt = λ i j. negsuc 0;
  module_to_qt_pos = λ i j. negsuc 0;
  qt_to_module = λ i j. negsuc 0;
  slew_bin_edge = λ j i k. 0;
  slew_corr = λ j i k. 0;
}

abbrev pub set2 : {A : Type 0} → (ℕ → ℕ → A) → ℕ → ℕ → A → ℕ → ℕ → A
set2 f i j v a b = if i == a && j == b then v else f a b

-- The position on the board of a channel of the QT.
unfoldable pub qt_pos : ℤ → ℤ
qt_pos (negsuc n) = negsuc n
qt_pos (pos c) = if c % 8 == 1 then pos (1 + c / 8 * 2) else pos (2 + c / 8 * 2)

-- One pass of the inner loop, for backleg i and module j.
unfoldable pub wire : ℕ → ℕ → ℤ → ℤ → Config → Config
unfolding qt_pos
wire i j qt channel c =
    let place = qt_pos channel in
    record c {
      module_to_qt = set2 c.module_to_qt i j qt;
      module_to_qt_pos = set2 c.module_to_qt_pos i j place;
      qt_to_module =
          if ltb_ℤ (pos 0) qt && ltb_ℤ (pos 0) place
          then set2 c.qt_to_module (pos_part qt - 1) (pos_part place - 1) (pos (j + 1))
          else c.qt_to_module;
    }

abbrev pub entry : List (List ℤ) → ℕ → ℕ → ℤ
entry t i j = get_or (get_or t i []) j (negsuc 0)

-- Modules j to 4 of backleg i.
unfoldable pub wire_row : List (List ℤ) → List (List ℤ) → ℕ → ℕ → ℕ → Config → Config
unfolding wire
wire_row qts chans i zero j c = c
wire_row qts chans i (suc left) j c =
    wire_row qts chans i left (j + 1) (wire i j (entry qts i j) (entry chans i j) c)

-- Backlegs i to 29.
unfoldable pub wire_rows : List (List ℤ) → List (List ℤ) → ℕ → ℕ → Config → Config
unfolding wire_row
wire_rows qts chans zero i c = c
wire_rows qts chans (suc left) i c = wire_rows qts chans left (i + 1) (wire_row qts chans i 5 0 c)

-- index = j*16*8 + i*8 + k of the flat tables is row j*16 + i, column k.
unfoldable pub slewing : ℕ → Config → Config
slewing run_year c =
    if run_year == 16
    then record c {
      slew_bin_edge = λ j i k. get_or (get_or qtslew_binedge_run16 (j * 16 + i) []) k 0;
      slew_corr = λ j i k. get_or (get_or qtslew_corr_run16 (j * 16 + i) []) k 0;
    }
    else record c { slew_bin_edge = λ j i k. 4095; slew_corr = λ j i k. 0 }

unfoldable pub init : ℕ → Config
init run_year =
    if leb 14 run_year
    then slewing run_year (
        if run_year == 16
        then wire_rows module2qt_run16 module2chan_run16 30 0 blank
        else wire_rows module2qt_run17 module2chan_run17 30 0 blank)
    else blank
