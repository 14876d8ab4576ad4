-- ===== src/Mtd/Tables.antt =====
-- The run configuration tables of HLT_MTD/mtd_defs.h. -1 marks a module that is not read out.
use star_hlt_tofmtd.Prelude.{ℕ, List, [], ◌∷◌}
use star_hlt_tofmtd.Prelude.Int.{ℤ, pos, negsuc}

-- No module of a backleg is read out.
abbrev none_read : List ℤ
none_read = negsuc 0 ∷ negsuc 0 ∷ negsuc 0 ∷ negsuc 0 ∷ negsuc 0 ∷ []

abbrev row : ℕ → ℕ → ℕ → ℕ → ℕ → List ℤ
row a b c d e = pos a ∷ pos b ∷ pos c ∷ pos d ∷ pos e ∷ []

-- Only the three inner modules are read out.
abbrev inner : ℕ → ℕ → ℕ → List ℤ
inner b c d = negsuc 0 ∷ pos b ∷ pos c ∷ pos d ∷ negsuc 0 ∷ []

-- MTD_TRAY2DIG_MAP, five entries for each backleg.
unfoldable pub tray2dig_map : List (List ℤ)
tray2dig_map =
    (row 0 1 2 5 4)
    ∷ (row 0 1 2 5 4)
    ∷ (row 0 1 2 5 4)
    ∷ (row 0 1 2 5 4)
    ∷ (row 0 1 2 5 4)
    ∷ (row 0 1 2 5 4)
    ∷ (row 0 1 2 5 4)
    ∷ (row 0 1 2 5 4)
    ∷ (none_read)
    ∷ (row 0 1 2 5 4)
    ∷ (row 0 1 2 5 4)
    ∷ (inner 0 1 4)
    ∷ (inner 0 1 4)
    ∷ (inner 0 1 4)
    ∷ (inner 0 1 4)
    ∷ (inner 0 1 4)
    ∷ (inner 0 1 4)
    ∷ (inner 0 1 4)
    ∷ (inner 0 1 4)
    ∷ (inner 0 1 4)
    ∷ (row 0 1 2 5 4)
    ∷ (row 0 1 2 5 4)
    ∷ (none_read)
    ∷ (row 0 1 2 5 4)
    ∷ (row 0 1 2 5 4)
    ∷ (row 0 1 2 5 4)
    ∷ (row 0 1 2 5 4)
    ∷ (row 0 1 2 5 4)
    ∷ (row 0 1 2 5 4)
    ∷ (row 0 1 2 5 4)
    ∷ []

-- MODULE2QT_RUN16.
unfoldable pub module2qt_run16 : List (List ℤ)
module2qt_run16 =
    (row 2 4 2 4 2)
    ∷ (row 2 4 2 4 2)
    ∷ (row 3 3 4 3 3)
    ∷ (row 3 3 4 3 3)
    ∷ (row 3 3 4 3 3)
    ∷ (row 3 3 4 3 3)
    ∷ (row 3 3 4 3 3)
    ∷ (row 5 5 6 5 5)
    ∷ (none_read)
    ∷ (row 5 5 6 5 5)
    ∷ (row 5 5 6 5 5)
    ∷ (inner 5 6 5)
    ∷ (inner 8 6 8)
    ∷ (inner 8 6 8)
    ∷ (inner 8 6 8)
    ∷ (inner 8 6 8)
    ∷ (inner 8 6 8)
    ∷ (inner 7 8 7)
    ∷ (inner 7 8 7)
    ∷ (inner 7 8 7)
    ∷ (row 7 7 8 7 7)
    ∷ (row 7 7 8 7 7)
    ∷ (none_read)
    ∷ (row 1 1 2 1 1)
    ∷ (row 1 1 2 1 1)
    ∷ (row 1 1 2 1 1)
    ∷ (row 1 1 2 1 1)
    ∷ (row 2 4 2 4 2)
    ∷ (row 2 4 2 4 2)
    ∷ (row 2 4 2 4 2)
    ∷ []

-- MODULE2QT_RUN17.
unfoldable pub module2qt_run17 : List (List ℤ)
module2qt_run17 =
    (row 1 2 1 2 1)
    ∷ (row 1 2 1 2 1)
    ∷ (row 2 2 2 2 2)
    ∷ (row 2 2 2 2 2)
    ∷ (row 2 2 2 2 2)
    ∷ (row 2 2 2 2 2)
    ∷ (row 2 2 2 2 2)
    ∷ (row 3 3 3 3 3)
    ∷ (none_read)
    ∷ (row 3 3 3 3 3)
    ∷ (row 3 3 3 3 3)
    ∷ (inner 3 3 3)
    ∷ (inner 4 3 4)
    ∷ (inner 4 3 4)
    ∷ (inner 4 3 4)
    ∷ (inner 4 3 4)
    ∷ (inner 4 3 4)
    ∷ (inner 4 4 4)
    ∷ (inner 4 4 4)
    ∷ (inner 4 4 4)
    ∷ (row 4 4 4 4 4)
    ∷ (row 4 4 4 4 4)
    ∷ (none_read)
    ∷ (row 1 1 1 1 1)
    ∷ (row 1 1 1 1 1)
    ∷ (row 1 1 1 1 1)
    ∷ (row 1 1 1 1 1)
    ∷ (row 1 2 1 2 1)
    ∷ (row 1 2 1 2 1)
    ∷ (row 1 2 1 2 1)
    ∷ []

-- MODULE2CHAN_RUN16.
unfoldable pub module2chan_run16 : List (List ℤ)
module2chan_run16 =
    (row 19 19 11 27 27)
    ∷ (row 19 19 11 27 27)
    ∷ (row 3 19 3 27 11)
    ∷ (row 3 19 3 27 11)
    ∷ (row 3 19 3 27 11)
    ∷ (row 3 19 3 27 11)
    ∷ (row 3 19 3 27 11)
    ∷ (row 3 19 3 27 11)
    ∷ (none_read)
    ∷ (row 3 19 3 27 11)
    ∷ (row 3 19 3 27 11)
    ∷ (inner 19 3 27)
    ∷ (inner 19 11 27)
    ∷ (inner 19 11 27)
    ∷ (inner 19 11 27)
    ∷ (inner 19 11 27)
    ∷ (inner 19 11 27)
    ∷ (inner 19 3 27)
    ∷ (inner 19 3 27)
    ∷ (inner 19 3 27)
    ∷ (row 3 19 3 27 11)
    ∷ (row 3 19 3 27 11)
    ∷ (none_read)
    ∷ (row 3 19 3 27 11)
    ∷ (row 3 19 3 27 11)
    ∷ (row 3 19 3 27 11)
    ∷ (row 3 19 3 27 11)
    ∷ (row 19 19 11 27 27)
    ∷ (row 19 19 11 27 27)
    ∷ (row 19 19 11 27 27)
    ∷ []

-- MODULE2CHAN_RUN17.
unfoldable pub module2chan_run17 : List (List ℤ)
module2chan_run17 =
    (row 25 25 19 27 27)
    ∷ (row 25 25 19 27 27)
    ∷ (row 1 9 17 11 3)
    ∷ (row 1 9 17 11 3)
    ∷ (row 1 9 17 11 3)
    ∷ (row 1 9 17 11 3)
    ∷ (row 1 9 17 11 3)
    ∷ (row 1 9 17 11 3)
    ∷ (none_read)
    ∷ (row 1 9 17 11 3)
    ∷ (row 1 9 17 11 3)
    ∷ (inner 9 17 11)
    ∷ (inner 25 19 27)
    ∷ (inner 25 19 27)
    ∷ (inner 25 19 27)
    ∷ (inner 25 19 27)
    ∷ (inner 25 19 27)
    ∷ (inner 9 17 11)
    ∷ (inner 9 17 11)
    ∷ (inner 9 17 11)
    ∷ (row 1 9 17 11 3)
    ∷ (row 1 9 17 11 3)
    ∷ (none_read)
    ∷ (row 1 9 17 11 3)
    ∷ (row 1 9 17 11 3)
    ∷ (row 1 9 17 11 3)
    ∷ (row 1 9 17 11 3)
    ∷ (row 25 25 19 27 27)
    ∷ (row 25 25 19 27 27)
    ∷ (row 25 25 19 27 27)
    ∷ []

-- MTD_STRIP_MAP: the TDC channel of each strip, as (tdc + 1) * 10 + channel.
unfoldable pub strip_map : List ℕ
strip_map =
    21 ∷ 12 ∷ 32 ∷ 20 ∷ 14 ∷ 35 ∷ 25 ∷ 13 ∷ 30 ∷ 24 ∷ 11 ∷ 31 ∷ 34 ∷ 22 ∷ 10 ∷ 37 ∷ 27 ∷ 17 ∷ 33
    ∷ 23 ∷ 16 ∷ 36 ∷ 26 ∷ 15 ∷ []
