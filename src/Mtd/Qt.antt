-- ===== src/Mtd/Qt.antt =====
-- mtd_hlt_reader::decodeQT of HLT_MTD/mtd_hlt_reader.cxx: the words of a QT block, headers and lines of
-- data. `none` is a write outside adc[16][32], which the code does not check for; a block that is
-- refused leaves the arrays alone.
use star_hlt_tofmtd.Prelude.{
  ℕ, zero, suc, ◌+◌, ◌-◌, ◌%◌, ◌^◌, Bool, true, false, ◌&&◌, List, [], ◌∷◌, Option, none, some, ltb,
  ◌==◌, if◌then◌else◌, length, take, get_or,
}
use star_hlt_tofmtd.Prelude.Bits.{field}
use star_hlt_tofmtd.Mtd.Config.{set2}
use star_hlt_tofmtd.Mtd.Hits.{◌>>=◌}
pub mod Blocks

abbrev pub Table : Type 0
Table = ℕ → ℕ → ℕ

-- The local variables of the loop and the two arrays.
pub record Scan : Type 0 where
  pub header : Bool
  pub addr : ℕ
  pub nline : ℕ
  pub adc : Table
  pub tdc : Table

-- A line of data; unsigned shorts and chars hold the masked fields.
unfoldable pub read_line : Scan → ℕ → Option Scan
read_line s d =
    let ch = field d 27 5 in
    let left = s.nline - 1 in
    if ltb s.addr 16
    then some (record {
      header = left == 0;
      addr = s.addr;
      nline = left;
      adc = set2 s.adc s.addr ch (d % 2 ^ 12);
      tdc = set2 s.tdc s.addr ch (field d 12 5);
    })
    else none

-- A header. The subtraction wraps around in an unsigned int.
unfoldable pub read_header : Scan → ℕ → Scan
read_header s d =
    let n = d % 2 ^ 8 in
    record s { header = n == 0; addr = (field d 16 8 + 2 ^ 32 - 0x10) % 2 ^ 32; nline = n }

unfoldable pub read_qt_word : Bool → Scan → ℕ → Option Scan
read_qt_word true s d = some (read_header s d)
read_qt_word false s d = read_line s d

unfoldable pub read_qt_words : Scan → List ℕ → Option Scan
read_qt_words s [] = some s
read_qt_words s (d ∷ ds) = read_qt_word s.header s d >>= λ t. read_qt_words t ds

unfoldable pub start : Table → Table → Scan
start adc tdc = record { header = true; addr = 0; nline = 0; adc = adc; tdc = tdc }

abbrev pub tables : Scan → Table × Table
tables s = (s.adc, s.tdc)

-- The whole function, for `ndata` the length of the list: an empty block, one of more than 529 words
-- and one whose last word is not 0xac10 are refused.
unfoldable pub decode_qt : List ℕ → Table → Table → Option (Table × Table)
decode_qt ws adc tdc =
    let n = length ws in
    if n == 0
    then some (adc, tdc)
    else if ltb 529 n
    then some (adc, tdc)
    else if get_or ws (n - 1) 0 == 0xac10
    then (read_qt_words (start adc tdc) (take (n - 1) ws) >>= λ s. some (tables s))
    else some (adc, tdc)
