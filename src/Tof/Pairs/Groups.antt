-- ===== src/Tof/Pairs/Groups.antt =====
-- How do_event of tof_hlt_sector splits the hits into groups.
use star_hlt_tofmtd.Prelude.{
  ℕ, zero, suc, ◌+◌, ◌≤◌, ◌<◌, ◌≡◌, refl, subst, true, List, [], ◌∷◌, Option, some, arith, ltb,
  ◌==◌, length, All, Bool-cases, inl, inr,
}
use star_hlt_tofmtd.Floats.{Floats}
use star_hlt_tofmtd.Tof.Types.{TofRawHit}
use star_hlt_tofmtd.Tof.Pairs.{same_tray, span, groups}

module _ (fl : Floats) where
  abbrev pub At : ℕ → ℕ → TofRawHit fl → Type 0
  At fiber tray h = (h.fiberid ≡ fiber) × (h.trayid ≡ tray)

  -- Two lists of hits, neither empty, all of one RDO and tray.
  pub record IsGroup (g : List (TofRawHit fl) × List (TofRawHit fl)) : Type 0 where
    pub fiber : ℕ
    pub tray : ℕ
    pub leads_at : All (At fiber tray) g.0
    pub trails_at : All (At fiber tray) g.1
    pub some_lead : 1 ≤ length g.0
    pub some_trail : 1 ≤ length g.1

  span-At :
      (a : TofRawHit fl) (hs : List (TofRawHit fl))
      → All (At a.fiberid a.trayid) (span fl a hs).0 × (length (span fl a hs).1 ≤ length hs)
  unfolding span
  span-At a [] = (tt, omega arith)
  span-At a (h ∷ hs) =
      let (v, le) = span-At a hs in
      elim (Bool-cases (same_tray fl a h)) [
        | inl e ↦ rw e (((ground arith, ground arith), v), omega arith)
        | inr e ↦ rw e (tt, omega arith)
      ]

  -- The hit itself is in front.
  span_self :
      (a : TofRawHit fl) (hs : List (TofRawHit fl))
      → (1 ≤ length (span fl a (a ∷ hs)).0) × (length (span fl a (a ∷ hs)).1 ≤ length hs)
  unfolding span
  span_self a hs =
      let same : same_tray fl a a ≡ true = ground arith in
      let (v, le) = span-At a hs in rw same (omega arith, le)

  abbrev Grouped : Option (List (List (TofRawHit fl) × List (TofRawHit fl))) → Type 0
  Grouped r =
      (gs : List (List (TofRawHit fl) × List (TofRawHit fl))) × (r ≡ some gs) × All IsGroup gs

  front-IsGroup :
      (l t : TofRawHit fl) (ls ts : List (TofRawHit fl))
      → l.fiberid ≡ t.fiberid
      → l.trayid ≡ t.trayid
      → IsGroup ((span fl l (l ∷ ls)).0, (span fl t (t ∷ ts)).0)
  front-IsGroup l t ls ts f y = record {
    fiber = t.fiberid;
    tray = t.trayid;
    leads_at =
        subst (λ (k : ℕ). All (At k t.trayid) (span fl l (l ∷ ls)).0) f
          (subst (λ (k : ℕ). All (At l.fiberid k) (span fl l (l ∷ ls)).0) y (span-At l (l ∷ ls)).0);
    trails_at = (span-At t (t ∷ ts)).0;
    some_lead = (span_self l ls).0;
    some_trail = (span_self t ts).0;
  }

  -- The outer loop of do_event ends: it returns on any two lists if the fuel is more than their lengths.
  -- Each pair of lists that it forms has a leading and a trailing hit at least, all of one RDO and tray.
  pub groups-IsGroup :
      (fuel : ℕ) (lead trail : List (TofRawHit fl))
      → length lead + length trail < fuel
      → (gs : List (List (TofRawHit fl) × List (TofRawHit fl))) × (groups fl fuel lead trail
          ≡ some gs)
        × All IsGroup gs
  unfolding groups
  groups-IsGroup zero lead trail h = absurd (omega arith)
  groups-IsGroup (suc fuel) [] trail h = ([], refl, tt)
  groups-IsGroup (suc fuel) (l ∷ ls) [] h = ([], refl, tt)
  groups-IsGroup (suc fuel) (l ∷ ls) (t ∷ ts) h =
      let skip_trail = groups-IsGroup fuel (l ∷ ls) ts (omega arith) in
      let skip_lead = groups-IsGroup fuel ls (t ∷ ts) (omega arith) in
      let shorter = (span_self l ls).1 in
      let shorter' = (span_self t ts).1 in
      let (gs, e, v) =
        groups-IsGroup fuel (span fl l (l ∷ ls)).1 (span fl t (t ∷ ts)).1 (omega arith) in
      elim (Bool-cases (l.fiberid == t.fiberid)) [
        | inl f ↦ elim (Bool-cases (l.trayid == t.trayid)) [
          | inl y ↦
              rw (f, y, e)
                (
                  ((span fl l (l ∷ ls)).0, (span fl t (t ∷ ts)).0) ∷ gs,
                  refl,
                  (front-IsGroup l t ls ts (ground arith) (ground arith), v),
                )
          | inr y ↦ elim (Bool-cases (ltb t.trayid l.trayid)) [
            | inl b ↦ rw (f, y, b) skip_trail
            | inr b ↦ rw (f, y, b) skip_lead
          ]
        ]
        | inr f ↦ elim (Bool-cases (ltb t.fiberid l.fiberid)) [
          | inl b ↦ rw (f, b) skip_trail
          | inr b ↦ rw (f, b) skip_lead
        ]
      ]
