-- ===== src/Tof/Rdo.antt =====
-- tof_hlt_sector::read_rdo_event of HLT_TOF/tof_hlt_sector.cxx. Whether it is compiled with
-- RUN13GMT is the argument `gmt`.
-- `none` is a read outside one of the calibration arrays.
use star_hlt_tofmtd.Prelude.{
  ℕ, ◌+◌, ◌-◌, ◌*◌, ◌/◌, ◌%◌, ◌^◌, Bool, ◌&&◌, ◌||◌, List, [], ◌∷◌, ◌++◌, Option, none, some, ltb,
  ◌==◌, if◌then◌else◌,
}
use mathlib.Core.Bool.{not}
use star_hlt_tofmtd.Prelude.Bits.{field}
use star_hlt_tofmtd.Prelude.Int.{ℤ, pos}
use star_hlt_tofmtd.Floats.{Floats, Arith}
use star_hlt_tofmtd.Mtd.Hits.{◌>>=◌}
use star_hlt_tofmtd.Tof.Types.{Calibration, TofRawHit, read_at, read_at_ℤ}
pub mod Range

-- halftrayid and trayid.
pub record Geo : Type 0 where
  pub half : ℕ
  pub tray : ℕ

abbrev pub tray_in_use : ℕ → Bool
tray_in_use t = not (ltb t 1 || (ltb 122 t && not (t == 124)))

-- globaltdcchan of a TDC word.
unfoldable pub global_tdc_chan : ℕ → ℕ → ℕ
global_tdc_chan half w =
    let tdcid = field w 24 4 in field w 21 3 + tdcid % 4 * 8 + tdcid / 4 * 24 + half * 96

-- The four trays that hold GMT modules.
abbrev pub is_gmt : ℕ → Bool
is_gmt tray = tray == 8 || tray == 23 || tray == 93 || tray == 108

-- globaltdcchan of the hit, which keeps its value from an earlier word if a GMT tray has a TDIG that it
-- should not have.
unfoldable pub next_chan : Bool → ℕ → ℕ → ℕ → ℕ → ℕ
unfolding global_tdc_chan
next_chan gmt before tray half w =
    let tdig = field w 24 4 / 4 in
    if gmt && is_gmt tray && tdig == 0
    then field w 21 3 + field w 24 4 % 4 * 8 + 24 + half * 96
    else if gmt && is_gmt tray && (half == 0 && tdig == 1 || half == 1 && tdig == 3)
    then before
    else global_tdc_chan half w

abbrev pub time_in_bin : ℕ → ℕ
time_in_bin w = w % 2 ^ 19 * 4 + field w 19 2

module _ (fl : Floats) where
  open fl use {Double, Float, double, float, to_float}

  pub record Scan : Type 0 where
    pub triggertime : Float
    pub geo : Option Geo
    -- mCellData.globaltdcchan
    pub chan : ℕ
    pub leading : List (TofRawHit fl)
    pub trailing : List (TofRawHit fl)

  module _ (gmt : Bool) (cal : Calibration fl) where
    -- The board that reads a channel.
    unfoldable pub board_of : ℕ → ℕ → Option ℤ
    board_of tray tdig =
        if tray == 121
        then read_at 8 cal.tdig_on_west_vpd tdig
        else if tray == 122
        then read_at 8 cal.tdig_on_east_vpd tdig
        else (read_at 120 cal.tdig_on_tray (tray - 1) >>= λ row. read_at 8 row tdig)

    -- The correction of a time bin, in hundredths.
    unfoldable pub inl_of : ℕ → ℕ → ℕ → Option ℤ
    unfolding board_of
    inl_of tray chan bin = board_of tray (chan / 24) >>= λ board.
        read_at_ℤ 4800 cal.board_id_2_index board >>= λ index.
        read_at_ℤ 1200 cal.inl_corr index >>= λ rows. some (rows (chan % 24) bin)

    unfoldable pub corrected : ℕ → ℤ → Float
    corrected w corr = to_float (
        double.div
          (double.mul
            (double.add (double.of_int (pos (time_in_bin w)))
              (double.div (double.of_int corr) (double.of_int (pos 100))))
            (double.of_int (pos 25)))
          (double.of_int (pos 1024)))

    unfoldable pub read_tdc : ℕ → Scan → Option Geo → ℕ → Option Scan
    unfolding inl_of corrected next_chan
    read_tdc rdo s none w = some s
    read_tdc rdo s (some g) w =
        let edge = field w 28 4 in
        let chan = next_chan gmt s.chan g.tray g.half w in
        if not (tray_in_use g.tray)
        then some s
        else if not (edge == 4 || edge == 5)
        then some s
        else (inl_of g.tray chan (time_in_bin w % 2 ^ 10) >>= λ corr.
            let hit : TofRawHit fl = record {
              fiberid = rdo - 1;
              trayid = g.tray;
              globaltdcchan = chan;
              tdc = corrected w corr;
              triggertime = s.triggertime;
            } in
            some (
              if edge == 4
              then record s { chan = chan; leading = s.leading ++ hit ∷ [] }
              else record s { chan = chan; trailing = s.trailing ++ hit ∷ [] }))

    -- The first trigger time other than 0 stays.
    unfoldable pub read_word : ℕ → Scan → ℕ → Option Scan
    unfolding read_tdc
    read_word rdo s w =
        let tag = field w 28 4 in
        if tag == 0xd || tag == 0xe || tag == 0xa
        then some s
        else if tag == 2
        then some (
            if float.eq s.triggertime (float.of_int (pos 0))
            then record s {
              triggertime =
                  to_float (double.mul (double.of_int (pos 25)) (double.of_int (pos (w % 2 ^ 12))));
            }
            else s)
        else if tag == 0xc
        then some (record s { geo = some (record { half = w % 2; tray = field w 1 7 }) })
        else read_tdc rdo s s.geo w

    unfoldable pub read_words : ℕ → Scan → List ℕ → Option Scan
    unfolding read_word
    read_words rdo s [] = some s
    read_words rdo s (w ∷ ws) = read_word rdo s w >>= λ t. read_words rdo t ws

    -- The whole function, on the two lists of hits. `garbage` is what globaltdcchan holds at first.
    unfoldable pub read_rdo_event :
        ℕ → ℕ → List ℕ → List (TofRawHit fl) → List (TofRawHit fl) → Option Scan
    unfolding read_words
    read_rdo_event garbage rdo ws lead trail =
        read_words rdo
          (record {
            triggertime = float.of_int (pos 0);
            geo = none;
            chan = garbage;
            leading = lead;
            trailing = trail;
          })
          ws
