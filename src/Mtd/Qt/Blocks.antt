-- ===== src/Mtd/Qt/Blocks.antt =====
-- Writing a QT block and reading it back.
use star_hlt_tofmtd.Prelude.{
  ℕ, suc, ◌+◌, ◌-◌, ◌*◌, ◌%◌, ◌^◌, ◌<◌, ◌≡◌, refl, ap, ◌∙◌, Bool, true, false, List, [], ◌∷◌, ◌++◌,
  map, Option, some, arith, ltb, ◌==◌, length, length-append, take, get_or, All,
}
use star_hlt_tofmtd.Prelude.Bits.{field}
use star_hlt_tofmtd.Mtd.Config.{set2}
use star_hlt_tofmtd.Mtd.Hits.{◌>>=◌}
use star_hlt_tofmtd.Mtd.Qt.{
  Table, Scan, read_line, read_header, read_qt_word, read_qt_words, start, decode_qt,
}

-- What one line says of a channel.
pub record Line : Type 0 where
  pub ch : ℕ
  pub adc : ℕ
  pub tdc : ℕ

pub record Board : Type 0 where
  pub addr : ℕ
  pub lines : List Line

pub record IsLine (l : Line) : Type 0 where
  pub ch_lt : l.ch < 32
  pub adc_lt : l.adc < 4096
  pub tdc_lt : l.tdc < 32

pub record IsBoard (b : Board) : Type 0 where
  pub addr_lt : b.addr < 16
  pub few : length b.lines < 256
  pub good : All IsLine b.lines

unfoldable pub line_word : Line → ℕ
line_word l = l.ch * 2 ^ 27 + l.tdc * 2 ^ 12 + l.adc

unfoldable pub header_word : Board → ℕ
header_word b = (b.addr + 0x10) * 2 ^ 16 + length b.lines

-- A board's header and lines.
unfoldable pub board_words : Board → List ℕ
unfolding header_word line_word
board_words b = header_word b ∷ map line_word b.lines

unfoldable pub block_words : List Board → List ℕ
unfolding board_words
block_words [] = []
block_words (b ∷ bs) = board_words b ++ block_words bs

-- What a line, a board and a block should store.
abbrev pub store_line : ℕ → Line → Table × Table → Table × Table
store_line addr l (adc, tdc) = (set2 adc addr l.ch l.adc, set2 tdc addr l.ch l.tdc)

abbrev pub store_lines : ℕ → List Line → Table × Table → Table × Table
store_lines addr [] t = t
store_lines addr (l ∷ ls) t = store_lines addr ls (store_line addr l t)

abbrev pub store_boards : List Board → Table × Table → Table × Table
store_boards [] t = t
store_boards (b ∷ bs) t = store_boards bs (store_lines b.addr b.lines t)

abbrev scan_of : Bool → ℕ → ℕ → Table × Table → Scan
scan_of header addr nline t = record {
  header = header;
  addr = addr;
  nline = nline;
  adc = t.0;
  tdc = t.1;
}

record LineFields (l : Line) : Type 0 where
  chan : field (line_word l) 27 5 ≡ l.ch
  low : line_word l % 2 ^ 12 ≡ l.adc
  high : field (line_word l) 12 5 ≡ l.tdc

line_word-LineFields : (l : Line) → IsLine l → LineFields l
unfolding line_word
line_word-LineFields l v = omega arith

read_line-line_word :
    (addr n : ℕ) (t : Table × Table) (l : Line)
    → addr < 16
    → IsLine l
    → read_line (scan_of false addr (suc n) t) (line_word l)
      ≡ some (scan_of (n == 0) addr n (store_line addr l t))
unfolding read_line
read_line-line_word addr n t l h v =
    let f = line_word-LineFields l v in
    let inside : ltb addr 16 ≡ true = ground arith in
    let left : suc n - 1 ≡ n = omega arith in rw (inside, f.chan, f.low, f.high, left) refl

-- The lines of a board, with words behind them.
read_qt_words-lines :
    (addr : ℕ) (ls : List Line) (rest : List ℕ) (t : Table × Table)
    → addr < 16
    → All IsLine ls
    → read_qt_words (scan_of (length ls == 0) addr (length ls) t) (map line_word ls ++ rest)
      ≡ read_qt_words (scan_of true addr 0 (store_lines addr ls t)) rest
unfolding read_qt_words read_qt_word
read_qt_words-lines addr [] rest t h v = refl
read_qt_words-lines addr (l ∷ ls) rest t h (v, vs) =
    let busy : (suc (length ls) == 0) ≡ false = ground arith in
    rw busy (
      ap (λ (m : Option Scan). m >>= λ s. read_qt_words s (map line_word ls ++ rest))
        (read_line-line_word addr (length ls) t l h v)
      ∙ read_qt_words-lines addr ls rest (store_line addr l t) h vs)

record HeaderFields (b : Board) : Type 0 where
  place : (field (header_word b) 16 8 + 2 ^ 32 - 0x10) % 2 ^ 32 ≡ b.addr
  count : header_word b % 2 ^ 8 ≡ length b.lines

header_word-HeaderFields : (b : Board) → IsBoard b → HeaderFields b
unfolding header_word
header_word-HeaderFields b v = omega (arith, v.addr_lt, v.few)

read_header-header_word :
    (addr : ℕ) (t : Table × Table) (b : Board)
    → IsBoard b
    → read_header (scan_of true addr 0 t) (header_word b)
      ≡ scan_of (length b.lines == 0) b.addr (length b.lines) t
unfolding read_header
read_header-header_word addr t b v = let f = header_word-HeaderFields b v in rw (f.count, f.place)

read_qt_words-blocks :
    (addr : ℕ) (bs : List Board) (t : Table × Table)
    → All IsBoard bs
    → (a : ℕ) × (read_qt_words (scan_of true addr 0 t) (block_words bs)
        ≡ some (scan_of true a 0 (store_boards bs t)))
unfolding read_qt_words read_qt_word block_words
read_qt_words-blocks addr [] t v = (addr, refl)
read_qt_words-blocks addr (b ∷ bs) t (v, vs) =
    let (a, rest) = read_qt_words-blocks b.addr bs (store_lines b.addr b.lines t) vs in
    (
      a,
      ap (λ (s : Scan). read_qt_words s (map line_word b.lines ++ block_words bs))
            (read_header-header_word addr t b v)
          ∙ read_qt_words-lines b.addr b.lines (block_words bs) t v.addr_lt v.good
          ∙ rest,
    )

last_word : (ws : List ℕ) (w : ℕ) → get_or (ws ++ w ∷ []) (length ws) 0 ≡ w
last_word [] w = refl
last_word (x ∷ ws) w = last_word ws w

take_all : (ws : List ℕ) (w : ℕ) → take (length ws) (ws ++ w ∷ []) ≡ ws
take_all [] w = refl
take_all (x ∷ ws) w = ap (◌∷◌ x) (take_all ws w)

-- A block of boards with addresses below 16, each with at most 255 lines, closed by 0xac10 and of at
-- most 529 words, decodes without a write outside the arrays. The arrays then hold the ADC and TDC
-- values of each board's lines at the board's address and the line's channel, the last one where a
-- channel comes twice, and are otherwise as they were.
pub decode_qt-block_words :
    (bs : List Board) (adc tdc : Table)
    → All IsBoard bs
    → length (block_words bs) < 529
    → decode_qt (block_words bs ++ 0xac10 ∷ []) adc tdc ≡ some (store_boards bs (adc, tdc))
unfolding decode_qt start
decode_qt-block_words bs adc tdc v few =
    let ws = block_words bs in
    let n : length (ws ++ 0xac10 ∷ []) ≡ suc (length ws) =
      omega (arith, length-append ws (0xac10 ∷ [])) in
    let pred : suc (length ws) - 1 ≡ length ws = omega arith in
    let some_words : (suc (length ws) == 0) ≡ false = ground arith in
    let not_long : ltb 529 (suc (length ws)) ≡ false = ground arith in
    let (a, done) = read_qt_words-blocks 0 bs (adc, tdc) v in
    rw (n, pred, some_words, not_long, last_word ws 0xac10, take_all ws 0xac10, done) refl
