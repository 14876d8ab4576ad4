-- ===== src/Decider/Muons.antt =====
-- decide_MTDDiMuon and decide_MTDQuarkonium of L4_HLT/gl3TriggerDecider.cxx, on the hits that
-- mtd_hlt_reader sends (HLT_MTD) once they are matched to tracks.
use star_hlt_tofmtd.Prelude.{
  ℕ, Bool, true, false, ◌&&◌, ◌||◌, Option, none, some, List, [], ◌∷◌, if◌then◌else◌, get_elem?,
  leb, suc,
}
use star_hlt_tofmtd.Prelude.Int.{pos, negsuc, ltb_ℤ}
use star_hlt_tofmtd.Floats.{Floats}
use star_hlt_tofmtd.Mtd.Hits.{MtdHit}
use star_hlt_tofmtd.Decider.Types.{Trigger, Track, Node, Event, Parts}
use star_hlt_tofmtd.Decider.Cuts.{Cuts, trigger_bit}
use star_hlt_tofmtd.Decider.State.{Decider, MuonPair, restart, set_word, count_call}
use star_hlt_tofmtd.Decider.Loops.{for_pairs}
use star_hlt_tofmtd.Decider.Simple.{when_on, fire_if}
use star_hlt_tofmtd.Decider.Tracks.{Found, found}

module _ (fl : Floats) where
  -- The track of a hit that fired the trigger, if it is matched to one.
  unfoldable pub muon_track : MtdHit fl → Option ℕ
  muon_track h =
      if h.is_trigger then elim h.hlt_track_id [ pos k ↦ some k | negsuc k ↦ none ] else none

  unfoldable pub n_muon : List (MtdHit fl) → ℕ
  n_muon [] = 0
  n_muon (h ∷ hs) = elim (muon_track h) [ none ↦ n_muon hs | some k ↦ suc (n_muon hs) ]

  -- getGlobalTrack. `none` is a number past the last track: the first of them passes the check and gives
  -- what lies behind the array, any other gives a null pointer.
  unfoldable pub global_track : List (Node fl) → ℕ → Option (Track fl)
  global_track nodes k = elim (get_elem? nodes k) [ none ↦ none | some n ↦ some n.global_track ]

  -- What becomes of a hit: it is passed over, it is a muon, or the code reads a track that is not there.
  pub data MuonCheck : Type 0 where
    skipped : MuonCheck
    muon : ℕ → Track fl → MuonCheck
    bad_track : MuonCheck

module _ (fl : Floats) (parts : Parts fl) (cuts : Cuts fl) (ev : Event fl) where
  open fl use {Double, double, to_float, to_double}
  open parts use {cos, sin, fabs, Lorentz, xyzm, plus, m_of, pt_of, eta_of, phi_of}

  -- The test of the data, after the call is counted. The event behind the pointer is not tested: where
  -- there is none, the code follows a null pointer.
  unfoldable pub decide_mtd_di_muon : Decider fl → Bool × Decider fl
  decide_mtd_di_muon s =
      let cleared = set_word fl Trigger.mtd_di_muon 0 s in
      elim ev.mtd [
        | none ↦ (
          false,
          if cuts.trigger_on Trigger.mtd_di_muon
              then count_call fl Trigger.mtd_di_muon cleared
              else cleared,
        )
        | some event ↦ elim event [
          | none ↦
              let called = count_call fl Trigger.mtd_di_muon cleared in
              (
                false,
                if cuts.trigger_on Trigger.mtd_di_muon
                    then record called { fault = true }
                    else cleared,
              )
          | some hits ↦
              when_on fl (cuts.trigger_on Trigger.mtd_di_muon) Trigger.mtd_di_muon
                (fire_if fl cuts Trigger.mtd_di_muon (leb 2 (n_muon fl hits))) s
        ]
      ]

  -- The hits whose track and whose distance to it pass.
  unfoldable pub passes_muon : List (Node fl) → MtdHit fl → MuonCheck fl
  passes_muon nodes h = elim (muon_track fl h) [
    | none ↦ skipped
    | some k ↦ elim (global_track fl nodes k) [
      | none ↦ bad_track
      | some t ↦
          let c = cuts.muon in
          if ltb_ℤ t.n_hits c.n_hits
            || double.lt t.pt c.pt_sublead
            || double.lt c.dz_trk_hit (fabs (to_double h.delta_y))
            || double.lt c.dz_trk_hit (fabs (to_double h.delta_z))
          then skipped
          else muon k t
    ]
  ]

  -- trkId, with the tracks that the numbers stand for.
  unfoldable pub muon_list : List (Node fl) → List (MtdHit fl) → List (ℕ × Track fl)
  muon_list nodes [] = []
  muon_list nodes (h ∷ hs) =
      let rest = muon_list nodes hs in
      elim (passes_muon nodes h) [ skipped ↦ rest | muon k t ↦ (k, t) ∷ rest | bad_track ↦ rest ]

  -- Whether the loop over the hits reads a track that is not there.
  unfoldable pub reads_bad_track : List (Node fl) → List (MtdHit fl) → Bool
  reads_bad_track nodes [] = false
  reads_bad_track nodes (h ∷ hs) =
      let rest = reads_bad_track nodes hs in
      elim (passes_muon nodes h) [ skipped ↦ rest | muon k t ↦ rest | bad_track ↦ true ]

  -- SetXYZM with the momentum of a track and the mass of the muon
  unfoldable pub muon_vector : Track fl → Lorentz
  muon_vector t =
      xyzm (double.mul t.pt (cos t.psi)) (double.mul t.pt (sin t.psi)) (double.mul t.pt t.tanl)
        (double.decimal (pos 10566) 5)

  abbrev lead_pt : Track fl → Track fl → Double
  lead_pt a b = if double.lt b.pt a.pt then a.pt else b.pt

  -- leadpt>ptLead && ( (leadpt<2.5 && M>2.5) || leadpt>2.5 )
  unfoldable pub is_quarkonium : Track fl → Track fl → Bool
  is_quarkonium a b =
      let lead = lead_pt a b in
      let limit = double.decimal (pos 25) 1 in
      double.lt cuts.muon.pt_lead lead
      && (double.lt lead limit && double.lt limit (m_of (plus (muon_vector a) (muon_vector b)))
          || double.lt limit lead)

  -- The leading track is the first one only with the larger pt; `ipt<=jpt` takes the other one second.
  unfoldable pub muon_pair : ℕ × Track fl → ℕ × Track fl → MuonPair fl
  muon_pair (i, a) (j, b) =
      let sum = plus (muon_vector a) (muon_vector b) in
      let not_above = double.lt a.pt b.pt || double.eq a.pt b.pt in
      record {
        muon_track_id1 = if double.lt b.pt a.pt then i else j;
        muon_track_id2 = if not_above then i else j;
        pt = to_float (pt_of sum);
        eta = to_float (eta_of sum);
        phi = to_float (phi_of sum);
        inv_mass = to_float (m_of sum);
      }

  unfoldable pub try_muons : ℕ × Track fl → ℕ × Track fl → Found (MuonPair fl) → Found (MuonPair fl)
  try_muons a b f =
      if is_quarkonium a.1 b.1
      then found (trigger_bit fl cuts Trigger.mtd_quarkonium) (muon_pair a b) f
      else f

  unfoldable pub quarkonium_body : List (MtdHit fl) → Decider fl → Decider fl
  quarkonium_body hits s =
      let start : Found (MuonPair fl) = record { word = 0; bank = s.hlt_mtd_qkn } in
      let f = for_pairs try_muons (muon_list s.nodes hits) start in
      let fired = set_word fl Trigger.mtd_quarkonium f.word s in
      let fault = s.fault || reads_bad_track s.nodes hits in
      record fired { hlt_mtd_qkn = f.bank; fault = fault }

  -- event->mtd and event->mtd->mtdEvent
  unfoldable pub muon_event : Option (List (MtdHit fl))
  muon_event = elim ev.mtd [ none ↦ none | some event ↦ event ]

  unfoldable pub decide_mtd_quarkonium : Decider fl → Bool × Decider fl
  decide_mtd_quarkonium s =
      let blank : Decider fl = record s { hlt_mtd_qkn = restart s.hlt_mtd_qkn } in
      let cleared = set_word fl Trigger.mtd_quarkonium 0 blank in
      elim muon_event [
        | none ↦ (
          false,
          if cuts.trigger_on Trigger.mtd_quarkonium
              then count_call fl Trigger.mtd_quarkonium cleared
              else cleared,
        )
        | some hits ↦
            when_on fl (cuts.trigger_on Trigger.mtd_quarkonium) Trigger.mtd_quarkonium
              (quarkonium_body hits) blank
      ]
