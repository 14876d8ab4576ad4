-- ===== src/Tof/Pairs.antt =====
-- tof_hlt_sector::do_event of HLT_TOF/tof_hlt_sector.cxx, up to the corrections: the leading and trailing
-- hits of one RDO and tray are set against each other, and the pairs that pass the cuts become cells.
use star_hlt_tofmtd.Prelude.{
  ℕ, zero, suc, ◌+◌, ◌-◌, ◌*◌, Bool, true, false, ◌&&◌, ◌||◌, List, [], ◌∷◌, ◌++◌, Option, none,
  some, ltb, ◌==◌, if◌then◌else◌,
}
use mathlib.Core.Bool.{not}
use star_hlt_tofmtd.Prelude.Int.{ℤ, pos, negsuc, ◌==ℤ◌}
use star_hlt_tofmtd.Floats.{Floats, Arith}
use star_hlt_tofmtd.Mtd.Hits.{◌>>=◌, join}
use star_hlt_tofmtd.Tof.Types.{Calibration, TofRawHit, TofCell, read_at}
pub mod Groups

-- The search over upvpdLEchan and upvpdTEchan, from i; 19 channels for each side.
unfoldable pub find_pvpd : (ℕ → ℤ) → (ℕ → ℤ) → ℕ → ℕ → ℕ → ℕ → ℕ → Option ℕ
find_pvpd le te base zero i lead trail = none
find_pvpd le te base (suc left) i lead trail =
    let rest = find_pvpd le te base left (i + 1) lead trail in
    if pos lead ==ℤ le (i + base) && pos trail ==ℤ te (i + base) then some i else rest

module _ (fl : Floats) where
  open fl use {Double, Float, double, float, to_float, to_double}

  -- Of the same RDO and tray.
  abbrev pub same_tray : TofRawHit fl → TofRawHit fl → Bool
  same_tray a b = a.fiberid == b.fiberid && a.trayid == b.trayid

  -- The hits from the front of the list that are of the RDO and tray of `a`, and the rest of the list.
  unfoldable pub span :
      TofRawHit fl → List (TofRawHit fl) → List (TofRawHit fl) × List (TofRawHit fl)
  span a [] = ([], [])
  span a (h ∷ hs) =
      let rest = span a hs in if same_tray a h then (h ∷ rest.0, rest.1) else ([], h ∷ hs)

  -- The outer loop: the pairs of lists tmpTofLEHits and tmpTofTEHits, in order.
  unfoldable pub groups :
      ℕ
      → List (TofRawHit fl)
      → List (TofRawHit fl)
      → Option (List (List (TofRawHit fl) × List (TofRawHit fl)))
  unfolding span
  groups zero lead trail = none
  groups (suc fuel) [] trail = some []
  groups (suc fuel) (l ∷ ls) [] = some []
  groups (suc fuel) (l ∷ ls) (t ∷ ts) =
      let lead = span l (l ∷ ls) in
      let trail = span t (t ∷ ts) in
      let both = groups fuel lead.1 trail.1 in
      let skip_trail = groups fuel (l ∷ ls) ts in
      let skip_lead = groups fuel ls (t ∷ ts) in
      if l.fiberid == t.fiberid
      then (if l.trayid == t.trayid
          then (both >>= λ gs. some ((lead.0, trail.0) ∷ gs))
          else if ltb t.trayid l.trayid
          then skip_trail
          else skip_lead)
      else if ltb t.fiberid l.fiberid
      then skip_trail
      else skip_lead

  -- while(tDiff<0) tDiff += 51200
  unfoldable pub wrap_up : ℕ → Float → Option Float
  wrap_up zero d = none
  wrap_up (suc fuel) d =
      let rest = wrap_up fuel (float.add d (float.of_int (pos 51200))) in
      if float.lt d (float.of_int (pos 0)) then rest else some d

  module _ (cal : Calibration fl) where
    -- tot<0 || tot>100
    abbrev pub tot_outside : Float → Bool
    tot_outside tot = float.lt tot (float.of_int (pos 0)) || float.lt (float.of_int (pos 100)) tot

    -- d>cuthi[tray] || d<cutlow[tray]; `none` is a tray without an entry.
    unfoldable pub time_outside : ℕ → Double → Option Bool
    time_outside tray d = read_at 122 cal.cuthi tray >>= λ hi.
        read_at 122 cal.cutlow tray >>= λ low. some (double.lt hi d || double.lt d low)

    abbrev pub cell_of : ℕ → ℤ → TofRawHit fl → Float → TofCell fl
    cell_of tray channel l tot = record {
      trayid = tray;
      channel = channel;
      triggertime = l.triggertime;
      tdc = l.tdc;
      tot = tot;
      tof = float.of_int (negsuc 9998);
    }

    -- A pair of one of the two vertex detectors, whose channels start at `base`.
    unfoldable pub vpd_cell :
        ℕ → ℕ → TofRawHit fl → TofRawHit fl → Float → Option (List (TofCell fl))
    unfolding time_outside
    vpd_cell tray base l t d =
        let tot = float.sub t.tdc l.tdc in
        elim (find_pvpd cal.upvpd_le_chan cal.upvpd_te_chan base 19 0 l.globaltdcchan
          t.globaltdcchan) [
            | none ↦ some []
            | some i ↦
                time_outside tray (double.sub (to_double d) (cal.vpd_delay (i + base))) >>= λ late.
                some (if late || tot_outside tot then [] else cell_of tray (pos i) l tot ∷ [])
          ]

    -- A pair of an ordinary tray.
    unfoldable pub tray_cell : ℕ → TofRawHit fl → TofRawHit fl → Float → Option (List (TofCell fl))
    unfolding time_outside
    tray_cell tray l t d =
        let tot = float.sub t.tdc l.tdc in
        if not (l.globaltdcchan == t.globaltdcchan) || float.lt t.tdc l.tdc
        then some []
        else (time_outside tray (to_double d) >>= λ late.
            if late || tot_outside tot
            then some []
            else (read_at 192 cal.tdig_2_mrpc_chan l.globaltdcchan >>= λ chan.
                some (cell_of tray chan l tot ∷ [])))

    -- The body of the innermost loop.
    unfoldable pub pair_cell : ℕ → TofRawHit fl → TofRawHit fl → Option (List (TofCell fl))
    unfolding wrap_up vpd_cell tray_cell
    pair_cell fuel t l =
        if not (same_tray l t)
        then some []
        else (wrap_up fuel (float.sub l.tdc l.triggertime) >>= λ d.
            if l.trayid == 121
            then vpd_cell 120 0 l t d
            else if l.trayid == 122
            then vpd_cell 121 19 l t d
            else tray_cell (l.trayid - 1) l t d)

    unfoldable pub leads_cells : ℕ → TofRawHit fl → List (TofRawHit fl) → Option (List (TofCell fl))
    unfolding pair_cell
    leads_cells fuel t [] = some []
    leads_cells fuel t (l ∷ ls) = join (pair_cell fuel t l) (leads_cells fuel t ls)

    unfoldable pub group_cells :
        ℕ → List (TofRawHit fl) → List (TofRawHit fl) → Option (List (TofCell fl))
    unfolding leads_cells
    group_cells fuel ls [] = some []
    group_cells fuel ls (t ∷ ts) = join (leads_cells fuel t ls) (group_cells fuel ls ts)
