-- ===== src/Tof/Rdo/Range.antt =====
-- Where read_rdo_event of tof_hlt_sector reads its calibration arrays.
use star_hlt_tofmtd.Prelude.{
  ◌+◌, ◌*◌, ◌&&◌, ◌||◌, false, Option, ℕ, ◌-◌, ◌/◌, ◌%◌, ◌^◌, ◌≤◌, ◌<◌, ◌≡◌, refl, Bool, true, none,
  some, arith, ltb, ◌==◌, Bool-cases, inl, inr,
}
use star_hlt_tofmtd.Prelude.Bits.{field}
use star_hlt_tofmtd.Prelude.Int.{ℤ, pos, negsuc, pos_part, neg_part}
use star_hlt_tofmtd.Floats.{Floats}
use star_hlt_tofmtd.Tof.Types.{Calibration, read_at_ℤ}
use mathlib.Core.Bool.{not}
use star_hlt_tofmtd.Tof.Rdo.{
  Geo, Scan, next_chan, read_tdc, tray_in_use, global_tdc_chan, time_in_bin, board_of, inl_of,
}

-- An index of an array of `size` entries.
abbrev pub Inside : ℕ → ℤ → Type 0
Inside size z = (neg_part z ≡ 0) × (pos_part z < size)

module _ (fl : Floats) where
  -- The board numbers that the files give are inside the arrays that they index.
  pub record IsCalibration (cal : Calibration fl) : Type 0 where
    pub tray_board : (i j : ℕ) → Inside 4800 (cal.tdig_on_tray i j)
    pub west_board : (j : ℕ) → Inside 4800 (cal.tdig_on_west_vpd j)
    pub east_board : (j : ℕ) → Inside 4800 (cal.tdig_on_east_vpd j)
    pub board_index : (i : ℕ) → Inside 1200 (cal.board_id_2_index i)

  -- A read inside the array finds an entry, and what holds of every entry holds of it.
  read_at_ℤ-Inside :
      {A : Type 0} (P : A → Type 0) (size : ℕ) (f : ℕ → A) (z : ℤ)
      → ((i : ℕ) → P (f i))
      → Inside size z
      → (a : A) × (read_at_ℤ size f z ≡ some a) × P a
  read_at_ℤ-Inside P size f (pos i) all v =
      let e : ltb i size ≡ true = ground arith in (f i, rw e refl, all i)
  read_at_ℤ-Inside P size f (negsuc i) all v = absurd (omega arith)

  global_tdc_chan-lt :
      (half w : ℕ) → half < 2 → field w 24 4 + 16 * half < 31 → global_tdc_chan half w < 192
  unfolding global_tdc_chan
  global_tdc_chan-lt half w h c = omega arith

  next_chan-lt :
      (gmt : Bool) (before tray half w : ℕ)
      → half < 2
      → before < 192
      → field w 24 4 + 16 * half < 31
      → next_chan gmt before tray half w < 192
  unfolding next_chan
  next_chan-lt gmt before tray half w h b c =
      let plain = global_tdc_chan-lt half w h c in ground (arith, plain)

  module _ (gmt : Bool) (cal : Calibration fl) where
    board_of-Inside :
        (tray tdig : ℕ)
        → IsCalibration cal
        → 1 ≤ tray
        → tray ≤ 122
        → tdig < 8
        → (b : ℤ) × (board_of fl gmt cal tray tdig ≡ some b) × Inside 4800 b
    unfolding board_of
    board_of-Inside tray tdig v low high h =
        let col : ltb tdig 8 ≡ true = ground arith in
        elim (Bool-cases (tray == 121)) [
          | inl w ↦ (cal.tdig_on_west_vpd tdig, rw (w, col) refl, v.west_board tdig)
          | inr w ↦ elim (Bool-cases (tray == 122)) [
            | inl e ↦ (cal.tdig_on_east_vpd tdig, rw (w, e, col) refl, v.east_board tdig)
            | inr e ↦
                let row : ltb (tray - 1) 120 ≡ true = ground (arith, w, e) in
                (
                  cal.tdig_on_tray (tray - 1) tdig,
                  rw (w, e, row, col) refl,
                  v.tray_board (tray - 1) tdig,
                )
          ]
        ]

    -- Any channel of a tray below 192 has its correction.
    inl_of-inside :
        (tray chan bin : ℕ)
        → IsCalibration cal
        → 1 ≤ tray
        → tray ≤ 122
        → chan < 192
        → (corr : ℤ) × (inl_of fl gmt cal tray chan bin ≡ some corr)
    unfolding inl_of
    inl_of-inside tray chan bin v low high h =
        let tdig : chan / 24 < 8 = omega arith in
        let (board, eb, vb) = board_of-Inside tray (chan / 24) v low high tdig in
        let (index, ei, vi) =
          read_at_ℤ-Inside (Inside 1200) 4800 cal.board_id_2_index board v.board_index vb in
        let (rows, er, _) = read_at_ℤ-Inside (λ _. Unit) 1200 cal.inl_corr index (λ i. tt) vi in
        (rows (chan % 24) bin, rw (eb, ei, er) refl)

    -- A board past the eighth is read outside the arrays.
    inl_of-outside :
        (tray chan bin : ℕ)
        → 1 ≤ tray
        → tray ≤ 122
        → 192 ≤ chan
        → inl_of fl gmt cal tray chan bin ≡ none
    unfolding inl_of board_of
    inl_of-outside tray chan bin low high h =
        let col : ltb (chan / 24) 8 ≡ false = ground arith in
        elim (Bool-cases (tray == 121)) [
          | inl w ↦ rw (w, col) refl
          | inr w ↦ elim (Bool-cases (tray == 122)) [
            | inl e ↦ rw (w, e, col) refl
            | inr e ↦
                let row : ltb (tray - 1) 120 ≡ true = ground (arith, w, e) in
                rw (w, e, row, col) refl
          ]
        ]

    inl_of-tray_124 : (chan bin : ℕ) → inl_of fl gmt cal 124 chan bin ≡ none
    unfolding inl_of board_of
    inl_of-tray_124 chan bin = refl

    -- For the trays 1 to 122, where the files give board numbers and indices that are inside the arrays, and
    -- the channel before is below 192, every TDC word but one of chip 15 of the second half gives a channel
    -- below 192, with RUN13GMT or without, and its correction is read inside the arrays.
    pub inl_of-some :
        (tray half before w : ℕ)
        → IsCalibration cal
        → 1 ≤ tray
        → tray ≤ 122
        → half < 2
        → before < 192
        → field w 24 4 + 16 * half < 31
        → let chan = next_chan gmt before tray half w in
          (chan < 192)
          × ((corr : ℤ) × (inl_of fl gmt cal tray chan (time_in_bin w % 2 ^ 10) ≡ some corr))
    inl_of-some tray half before w v low high hh hb hc =
        let small = next_chan-lt gmt before tray half w hh hb hc in
        (
          small,
          inl_of-inside tray (next_chan gmt before tray half w) (time_in_bin w % 2 ^ 10) v low high
              small,
        )

  -- Whether the scan of the words goes on.
  abbrev pub goes_on : {A : Type 0} → Option A → Bool
  goes_on none = false
  goes_on (some a) = true

  -- The channel of chip 15 of the second half is not below 192.
  last_chip :
      (half w : ℕ)
      → half < 2
      → (half == 1 && field w 24 4 == 15) ≡ true
      → 192 ≤ global_tdc_chan half w
  unfolding global_tdc_chan
  last_chip half w hh e =
      let one : half ≡ 1 = ground arith in
      let chip : field w 24 4 ≡ 15 = ground arith in omega (arith, one, chip)

  -- Compiled without RUN13GMT, and where the files give board numbers and indices that are inside the
  -- arrays, a TDC word of an edge on a tray in use is read inside the arrays exactly when the tray is not
  -- 124 and the word is not of chip 15 of the second half.
  pub read_tdc-goes_on :
      (cal : Calibration fl) (rdo w : ℕ) (s : Scan fl) (g : Geo)
      → IsCalibration cal
      → tray_in_use g.tray ≡ true
      → g.half < 2
      → (field w 28 4 == 4 || field w 28 4 == 5) ≡ true
      → goes_on (read_tdc fl false cal rdo s (some g) w)
        ≡ not (g.tray == 124 || g.half == 1 && field w 24 4 == 15)
  unfolding read_tdc next_chan
  read_tdc-goes_on cal rdo w s g v used hh edge =
      let chan = global_tdc_chan g.half w in
      let bin = time_in_bin w % 2 ^ 10 in
      elim (Bool-cases (g.tray == 124)) [
        | inl e ↦
            let tray : g.tray ≡ 124 = ground arith in
            let stop : inl_of fl false cal g.tray chan bin ≡ none =
              rw tray (inl_of-tray_124 false cal chan bin) in
            rw (used, edge, stop, e) refl
        | inr e ↦
            let low : 1 ≤ g.tray = ground arith in
            let high : g.tray ≤ 122 = ground arith in
            elim (Bool-cases (g.half == 1 && field w 24 4 == 15)) [
              | inl last ↦
                  let past = last_chip g.half w hh last in
                  rw (used, edge, inl_of-outside false cal g.tray chan bin low high past, e, last)
                    refl
              | inr ok ↦
                  let few : field w 24 4 + 16 * g.half < 31 = ground (arith, hh, ok) in
                  let small = global_tdc_chan-lt g.half w hh few in
                  let (corr, got) = inl_of-inside false cal g.tray chan bin v low high small in
                  rw (used, edge, got, e, ok) refl
            ]
      ]
