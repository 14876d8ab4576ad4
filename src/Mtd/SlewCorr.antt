-- ===== src/Mtd/SlewCorr.antt =====
-- MTD_QTSLEW_CORR_RUN16 of HLT_MTD/mtd_defs.h: the TAC correction of each of the eight ADC bins of each QT channel,
-- sixteen channels for each of the eight QT boards.
use star_hlt_tofmtd.Prelude.{ℕ, List, [], ◌∷◌}

abbrev row : ℕ → ℕ → ℕ → ℕ → ℕ → ℕ → ℕ → ℕ → List ℕ
row a b c d e f g h = a ∷ b ∷ c ∷ d ∷ e ∷ f ∷ g ∷ h ∷ []

unfoldable pub qtslew_corr_run16 : List (List ℕ)
qtslew_corr_run16 =
    row 0 0 0 0 0 0 0 0
    ∷ row 0 0 0 0 0 0 0 0
    ∷ row 25 24 22 17 9 3 1 0
    ∷ row 24 23 21 16 8 3 1 0
    ∷ row 0 0 0 0 0 0 0 0
    ∷ row 0 0 0 0 0 0 0 0
    ∷ row 27 16 12 8 3 1 0 0
    ∷ row 27 16 11 7 3 1 0 0
    ∷ row 0 0 0 0 0 0 0 0
    ∷ row 0 0 0 0 0 0 0 0
    ∷ row 26 23 19 14 7 2 1 0
    ∷ row 25 22 19 15 8 3 1 0
    ∷ row 0 0 0 0 0 0 0 0
    ∷ row 0 0 0 0 0 0 0 0
    ∷ row 27 23 20 15 8 3 1 0
    ∷ row 26 19 15 11 6 2 0 0
    ∷ row 0 0 0 0 0 0 0 0
    ∷ row 0 0 0 0 0 0 0 0
    ∷ row 28 10 7 5 2 1 0 0
    ∷ row 28 12 8 5 2 1 0 0
    ∷ row 0 0 0 0 0 0 0 0
    ∷ row 0 0 0 0 0 0 0 0
    ∷ row 28 9 6 3 1 0 0 0
    ∷ row 28 14 9 6 3 1 0 0
    ∷ row 0 0 0 0 0 0 0 0
    ∷ row 0 0 0 0 0 0 0 0
    ∷ row 28 10 7 5 2 1 0 0
    ∷ row 28 10 6 3 1 0 0 0
    ∷ row 0 0 0 0 0 0 0 0
    ∷ row 0 0 0 0 0 0 0 0
    ∷ row 28 11 8 5 2 1 0 0
    ∷ row 28 10 6 4 2 1 0 0
    ∷ row 0 0 0 0 0 0 0 0
    ∷ row 0 0 0 0 0 0 0 0
    ∷ row 27 23 18 13 7 2 0 0
    ∷ row 27 23 18 12 5 2 0 0
    ∷ row 0 0 0 0 0 0 0 0
    ∷ row 0 0 0 0 0 0 0 0
    ∷ row 27 14 10 7 3 1 0 0
    ∷ row 27 15 11 6 3 1 0 0
    ∷ row 0 0 0 0 0 0 0 0
    ∷ row 0 0 0 0 0 0 0 0
    ∷ row 28 17 12 8 4 1 0 0
    ∷ row 28 13 9 6 3 1 0 0
    ∷ row 0 0 0 0 0 0 0 0
    ∷ row 0 0 0 0 0 0 0 0
    ∷ row 28 14 10 6 3 1 0 0
    ∷ row 28 14 10 6 2 1 0 0
    ∷ row 0 0 0 0 0 0 0 0
    ∷ row 0 0 0 0 0 0 0 0
    ∷ row 28 13 9 6 3 1 0 0
    ∷ row 28 13 9 5 2 1 0 0
    ∷ row 0 0 0 0 0 0 0 0
    ∷ row 0 0 0 0 0 0 0 0
    ∷ row 0 0 0 0 0 0 0 0
    ∷ row 0 0 0 0 0 0 0 0
    ∷ row 0 0 0 0 0 0 0 0
    ∷ row 0 0 0 0 0 0 0 0
    ∷ row 28 10 7 5 2 1 0 0
    ∷ row 28 12 8 5 2 1 0 0
    ∷ row 0 0 0 0 0 0 0 0
    ∷ row 0 0 0 0 0 0 0 0
    ∷ row 28 18 12 7 3 1 0 0
    ∷ row 28 15 10 6 3 1 0 0
    ∷ row 0 0 0 0 0 0 0 0
    ∷ row 0 0 0 0 0 0 0 0
    ∷ row 28 21 17 13 7 3 1 0
    ∷ row 28 21 17 13 8 3 1 0
    ∷ row 0 0 0 0 0 0 0 0
    ∷ row 0 0 0 0 0 0 0 0
    ∷ row 28 16 12 7 3 1 0 0
    ∷ row 27 18 13 8 4 1 0 0
    ∷ row 0 0 0 0 0 0 0 0
    ∷ row 0 0 0 0 0 0 0 0
    ∷ row 28 17 13 9 5 2 0 0
    ∷ row 28 14 10 8 4 2 0 0
    ∷ row 0 0 0 0 0 0 0 0
    ∷ row 0 0 0 0 0 0 0 0
    ∷ row 28 15 11 7 3 1 0 0
    ∷ row 28 13 9 6 3 1 0 0
    ∷ row 0 0 0 0 0 0 0 0
    ∷ row 0 0 0 0 0 0 0 0
    ∷ row 28 16 12 8 4 1 0 0
    ∷ row 28 21 17 12 6 2 0 0
    ∷ row 0 0 0 0 0 0 0 0
    ∷ row 0 0 0 0 0 0 0 0
    ∷ row 28 16 12 8 4 1 0 0
    ∷ row 28 11 7 5 2 1 0 0
    ∷ row 0 0 0 0 0 0 0 0
    ∷ row 0 0 0 0 0 0 0 0
    ∷ row 0 0 0 0 0 0 0 0
    ∷ row 0 0 0 0 0 0 0 0
    ∷ row 0 0 0 0 0 0 0 0
    ∷ row 0 0 0 0 0 0 0 0
    ∷ row 0 0 0 0 0 0 0 0
    ∷ row 0 0 0 0 0 0 0 0
    ∷ row 0 0 0 0 0 0 0 0
    ∷ row 0 0 0 0 0 0 0 0
    ∷ row 29 12 9 6 2 1 0 0
    ∷ row 29 9 7 4 2 1 0 0
    ∷ row 0 0 0 0 0 0 0 0
    ∷ row 0 0 0 0 0 0 0 0
    ∷ row 29 21 15 10 5 2 0 0
    ∷ row 29 16 12 8 4 1 0 0
    ∷ row 0 0 0 0 0 0 0 0
    ∷ row 0 0 0 0 0 0 0 0
    ∷ row 28 22 17 12 6 2 0 0
    ∷ row 28 22 17 12 6 2 0 0
    ∷ row 0 0 0 0 0 0 0 0
    ∷ row 0 0 0 0 0 0 0 0
    ∷ row 29 7 5 3 1 0 0 0
    ∷ row 30 11 7 5 2 1 0 0
    ∷ row 0 0 0 0 0 0 0 0
    ∷ row 0 0 0 0 0 0 0 0
    ∷ row 28 16 12 7 3 1 0 0
    ∷ row 28 19 14 9 4 1 0 0
    ∷ row 0 0 0 0 0 0 0 0
    ∷ row 0 0 0 0 0 0 0 0
    ∷ row 0 0 0 0 0 0 0 0
    ∷ row 0 0 0 0 0 0 0 0
    ∷ row 0 0 0 0 0 0 0 0
    ∷ row 0 0 0 0 0 0 0 0
    ∷ row 28 9 6 4 2 1 0 0
    ∷ row 28 13 9 6 3 1 0 0
    ∷ row 0 0 0 0 0 0 0 0
    ∷ row 0 0 0 0 0 0 0 0
    ∷ row 28 9 6 4 2 1 0 0
    ∷ row 28 8 5 3 2 0 0 0
    ∷ []
