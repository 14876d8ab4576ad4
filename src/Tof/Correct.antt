-- ===== src/Tof/Correct.antt =====
-- The corrections at the end of tof_hlt_sector::do_event of HLT_TOF/tof_hlt_sector.cxx, linearInter, and
-- do_event as a whole.
use star_hlt_tofmtd.Prelude.{
  ℕ, zero, suc, ◌+◌, ◌/◌, ◌%◌, ◌&&◌, ◌||◌, List, [], ◌∷◌, Option, none, some, ltb, leb, ◌==◌,
  if◌then◌else◌, length,
}
use star_hlt_tofmtd.Prelude.Int.{ℤ, pos, negsuc}
use star_hlt_tofmtd.Floats.{Floats}
use star_hlt_tofmtd.Mtd.Hits.{◌>>=◌, join}
use star_hlt_tofmtd.Tof.Types.{Calibration, TofRawHit, TofCell}
use star_hlt_tofmtd.Tof.Pairs.{groups, group_cells}

module _ (fl : Floats) where
  open fl use {Float, float}

  -- The correction tables. The last edge of a vertex detector's table is read one entry further on.
  pub record Corrections : Type 0 where
    pub tof_tot_edge : ℕ → ℕ → ℕ → Float
    pub tof_tot_corr : ℕ → ℕ → ℕ → Float
    pub tof_t0_corr : ℕ → ℕ → ℕ → Float
    pub pvpd_tot_edge : ℕ → ℕ → Float
    pub pvpd_tot_corr : ℕ → ℕ → Float

  -- linearInter
  unfoldable pub linear_inter : Float → Float → Float → Float → Float → Float
  linear_inter x1 x2 y1 y2 x =
      float.div (float.add (float.mul (float.sub x x1) y2) (float.mul (float.sub x2 x) y1))
        (float.sub x2 x1)

  -- while(tdc>51200) tdc-=51200
  unfoldable pub wrap_down : ℕ → Float → Option Float
  wrap_down zero d = none
  wrap_down (suc fuel) d =
      let rest = wrap_down fuel (float.sub d (float.of_int (pos 51200))) in
      if float.lt (float.of_int (pos 51200)) d then rest else some d

  -- The first k with edge k < tot < edge (k + 1), and the like with edge k <= tot.
  unfoldable pub bin_above : ℕ → ℕ → (ℕ → Float) → Float → Option ℕ
  bin_above zero k edge tot = none
  bin_above (suc left) k edge tot =
      let rest = bin_above left (k + 1) edge tot in
      if float.lt (edge k) tot && float.lt tot (edge (k + 1)) then some k else rest

  unfoldable pub bin_from_edge : ℕ → ℕ → (ℕ → Float) → Float → Option ℕ
  bin_from_edge zero k edge tot = none
  bin_from_edge (suc left) k edge tot =
      let rest = bin_from_edge left (k + 1) edge tot in
      if (float.lt (edge k) tot || float.eq (edge k) tot) && float.lt tot (edge (k + 1))
      then some k
      else rest

  module _ (cor : Corrections) where
    abbrev pub vpd_tof : ℕ → TofCell fl → TofCell fl
    vpd_tof channel c =
        let edge = cor.pvpd_tot_edge channel in
        let corr = cor.pvpd_tot_corr channel in
        elim (bin_above 51 0 edge c.tot) [
          | none ↦ c
          | some k ↦ record c {
            tof =
                float.sub c.tdc
                  (linear_inter (edge k) (edge (k + 1)) (corr k) (corr (k + 1)) c.tot);
          }
        ]

    abbrev pub tray_tof : ℕ → ℕ → Float → TofCell fl → TofCell fl
    tray_tof module' cell tdc c =
        let edge = cor.tof_tot_edge c.trayid (module' / 4) in
        let corr = cor.tof_tot_corr c.trayid (module' / 4) in
        elim (bin_from_edge 50 0 edge c.tot) [
          | none ↦ c
          | some k ↦ if float.eq (edge k) (edge (k + 1)) then c else record c {
            tof =
                float.sub (float.sub tdc (cor.tof_t0_corr c.trayid module' cell))
                  (linear_inter (edge k) (edge (k + 1)) (corr k) (corr (k + 1)) c.tot);
          }
        ]

    -- The body of the loop over the cells. A channel below 0 fails the checks on module and cell, save
    -- from -5 to -1, which the code takes for cells of module 0 and then refuses.
    unfoldable pub correct_cell : ℕ → TofCell fl → Option (TofCell fl)
    unfolding wrap_down
    correct_cell fuel c = wrap_down fuel (float.sub c.tdc (float.of_int (pos 0))) >>= λ tdc.
        some (corrected tdc c.channel)
      where
        corrected : Float → ℤ → TofCell fl
        corrected tdc (negsuc n) = c
        corrected tdc (pos channel) =
            if ltb 121 c.trayid
            then c
            else if leb 32 (channel / 6)
            then c
            else if c.trayid == 121
            then vpd_tof (channel + 19) c
            else if c.trayid == 120
            then vpd_tof channel c
            else tray_tof (channel / 6) (channel % 6) tdc c

    unfoldable pub correct_cells : ℕ → List (TofCell fl) → Option (List (TofCell fl))
    unfolding correct_cell
    correct_cells fuel [] = some []
    correct_cells fuel (c ∷ cs) =
        correct_cell fuel c >>= λ d. correct_cells fuel cs >>= λ ds. some (d ∷ ds)

  -- The cells of the groups, in order.
  unfoldable pub groups_cells :
      Calibration fl
      → ℕ
      → List (List (TofRawHit fl) × List (TofRawHit fl))
      → Option (List (TofCell fl))
  groups_cells cal fuel [] = some []
  groups_cells cal fuel ((ls, ts) ∷ gs) =
      join (group_cells fl cal fuel ls ts) (groups_cells cal fuel gs)

  -- do_event: the cells written to the buffer, which has room for 10000. The code writes on behind its
  -- end, which is `none` here, as is too little fuel for the loops over times.
  unfoldable pub do_event :
      Calibration fl
      → Corrections
      → ℕ
      → List (TofRawHit fl)
      → List (TofRawHit fl)
      → Option (List (TofCell fl))
  unfolding groups_cells
  do_event cal cor fuel lead trail =
      groups fl (suc (length lead + length trail)) lead trail >>= λ gs.
      groups_cells cal fuel gs >>= λ cs.
      if ltb 10000 (length cs) then none else correct_cells cor fuel cs
