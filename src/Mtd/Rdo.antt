-- ===== src/Mtd/Rdo.antt =====
-- mtd_hlt_reader::read_rdo_event of HLT_MTD/mtd_hlt_reader.cxx: the words of one RDO, one by one.
-- A masked and shifted field `(w & mask) >> lo` is `field w lo n`, with n the bits of the mask.
use star_hlt_tofmtd.Prelude.{
  ℕ, suc, ◌+◌, ◌-◌, ◌*◌, ◌%◌, ◌^◌, ◌||◌, List, [], ◌∷◌, ◌++◌, Option, none, some, ltb, ◌==◌,
  if◌then◌else◌, get_or, set,
}
use star_hlt_tofmtd.Prelude.Bits.{field}
use star_hlt_tofmtd.Prelude.Int.{ℤ, pos, negsuc, ◌+ℤ◌, ◌-ℤ◌, ◌*ℤ◌, ltb_ℤ, ◌==ℤ◌}
use star_hlt_tofmtd.Mtd.Tables.{tray2dig_map, strip_map}
use star_hlt_tofmtd.Mtd.Types.{RawHit, Geo, Scan}
pub mod Strips
pub mod Decode
pub mod Bounds

-- The tray whose TDIG is `tdigid`, from the backleg's row of the map; 0 if there is none.
find_tray : List ℤ → ℕ → ℕ → ℕ
find_tray [] tdigid i = 0
find_tray (d ∷ row) tdigid i = if d ==ℤ pos tdigid then i else find_tray row tdigid (i + 1)

unfoldable pub tray_of : ℕ → ℕ → ℕ
unfolding find_tray tray2dig_map
tray_of backleg tdigid = find_tray (get_or tray2dig_map (backleg - 1) []) tdigid 1

-- The strip, from 1, that a TDC channel reads; -1 if there is none.
find_strip : List ℕ → ℕ → ℕ → ℤ
find_strip [] chan i = negsuc 0
find_strip (s ∷ strips) chan i = if s == chan then pos (i + 1) else find_strip strips chan (i + 1)

-- Modules 4 and 5 are mounted the other way round.
flip : ℕ → ℤ → ℤ
unfolding ◌+ℤ◌ ◌-ℤ◌
flip tdigid s = if ltb 3 tdigid then (if ltb_ℤ (pos 12) s then s -ℤ pos 12 else s +ℤ pos 12) else s

local_strip : ℕ → ℕ → ℕ → ℤ
unfolding find_strip flip strip_map
local_strip tdigid tdcid tdcchan =
    flip tdigid (find_strip strip_map ((tdcid % 4 + 1) * 10 + tdcchan) 0)

unfoldable pub global_strip : ℕ → ℕ → ℕ → ℕ → ℤ
unfolding local_strip ◌+ℤ◌ ◌-ℤ◌ ◌*ℤ◌
global_strip tray tdigid tdcid tdcchan =
    local_strip tdigid tdcid tdcchan +ℤ (pos tray -ℤ pos 1) *ℤ pos 24

unfoldable pub tdig_of : ℕ → ℕ → ℕ
tdig_of tdcid half = field tdcid 2 2 + half * 4

-- The raw hit that a TDC word stands for.
unfoldable pub raw_hit : ℕ → Geo → ℕ → RawHit
unfolding tdig_of
raw_hit rdo g w =
    let tdcid = field w 24 4 in
    let tdigid = tdig_of tdcid g.half in
    record {
      tdc = w % 2 ^ 19 * 4 + field w 19 2;
      fiberid = rdo - 1;
      backleg = g.backleg;
      globaltdcchan = global_strip (tray_of g.backleg tdigid) tdigid tdcid (field w 21 3);
    }

-- The part of the loop's body below the geographical words.
unfoldable pub read_tdc : ℕ → Scan → Option Geo → ℕ → Scan
read_tdc rdo s none w = s
read_tdc rdo s (some g) w =
    let edge = field w 28 4 in
    if ltb g.backleg 1 || ltb 30 g.backleg
    then s
    else if edge == 4
    then record s { leading = s.leading ++ raw_hit rdo g w ∷ [] }
    else if edge == 5
    then record s { trailing = s.trailing ++ raw_hit rdo g w ∷ [] }
    else s

-- The body of the loop: header, separator and trigger flags are skipped, a trigger time is stored
-- for this RDO, and a geographical word sets the half backleg and the backleg.
unfoldable pub read_word : ℕ → Scan → ℕ → Scan
unfolding read_tdc
read_word rdo s w =
    let tag = field w 28 4 in
    if tag == 0xa || tag == 0xd || tag == 0xe
    then s
    else if tag == 2
    then record s { trigger_time = set s.trigger_time (rdo - 1) w }
    else if tag == 0xc
    then record s { geo = some (record { half = w % 2; backleg = field w 1 7 }) }
    else read_tdc rdo s s.geo w

unfoldable pub read_words : ℕ → Scan → List ℕ → Scan
read_words rdo s [] = s
read_words rdo s (w ∷ ws) = read_words rdo (read_word rdo s w) ws

-- The whole function: an RDO other than 1 and 2 is refused with -1 and nothing is read.
unfoldable pub read_rdo_event : ℕ → List ℕ → Scan → ℤ × Scan
read_rdo_event rdo ws s =
    if rdo == 1 || rdo == 2
    then (pos 0, read_words rdo (record s { geo = none }) ws)
    else (negsuc 0, s)
