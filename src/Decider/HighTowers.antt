-- ===== src/Decider/HighTowers.antt =====
-- decide_MatchedHT2 of L4_HLT/gl3TriggerDecider.cxx. Its array of tracks has room for 1000 and is not
-- checked: here it is a list.
use star_hlt_tofmtd.Prelude.{
  Bool, true, false, ◌||◌, Option, none, some, List, [], ◌∷◌, ◌++◌, if◌then◌else◌, length, ltb,
}
use star_hlt_tofmtd.Prelude.Int.{pos, negsuc, ltb_ℤ}
use star_hlt_tofmtd.Floats.{Floats}
use star_hlt_tofmtd.Decider.Types.{Trigger, Particle, Track, Tower, Node, Event, Parts}
use star_hlt_tofmtd.Decider.Cuts.{Cuts, trigger_bit}
use star_hlt_tofmtd.Decider.State.{Bank, Decider, HighTower, TrackPair, push, restart, set_word}
use star_hlt_tofmtd.Decider.Match.{momentum, n_sigma_dedx}
use star_hlt_tofmtd.Decider.Simple.{when_on}
use star_hlt_tofmtd.Decider.Electrons.{max_n_towers}
use star_hlt_tofmtd.Decider.Upc.{px_of, py_of, pz_of, invariant_mass}

module _ (fl : Floats) (parts : Parts fl) (cuts : Cuts fl) (ev : Event fl) where
  open fl use {Double, double, to_float, to_double}

  -- The towers from the threshold of 303 on, MaxADC, and whether the array was full.
  pub record HotTowers : Type 0 where
    pub towers : List (Tower fl)
    pub max_adc : Double
    pub full : Bool

  unfoldable pub hot_step : Tower fl → HotTowers → HotTowers
  hot_step tw h =
      let adc = double.of_int tw.adc in
      let top = if double.lt h.max_adc adc then adc else h.max_adc in
      if h.full || ltb_ℤ tw.adc (pos 303)
      then h
      else if ltb (length h.towers) max_n_towers
      then record { towers = h.towers ++ (tw ∷ []); max_adc = top; full = false }
      else record h { max_adc = top; full = true }

  unfoldable pub hot_towers : List (Tower fl) → HotTowers → HotTowers
  hot_towers [] h = h
  hot_towers (tw ∷ tws) h = hot_towers tws (hot_step tw h)

  -- matchTrack with the cuts of the trigger, and E/p up to 3.
  unfoldable pub fits_tower : Double → Track fl → Tower fl → Bool
  fits_tower p t tw =
      elim (parts.match_track tw t (to_double cuts.high_tower.d_phi)
        (to_double cuts.high_tower.d_z)) [
          | none ↦ false
          | some m ↦
              if double.lt (double.of_int (pos 3)) (double.div (to_double tw.energy) p)
              then false
              else true
        ]

  unfoldable pub first_tower : Double → Track fl → List (Tower fl) → Option (Tower fl)
  first_tower p t [] = none
  first_tower p t (tw ∷ tws) = elim (fits_tower p t tw) [
    | true ↦ some tw
    | false ↦ first_tower p t tws
  ]

  unfoldable pub high_tower_of : Double → Double → Track fl → Tower fl → HighTower fl
  high_tower_of max_adc p t tw = record {
    p0 = to_float p;
    e_over_p0 = to_float (double.div (to_double tw.energy) p);
    tower_adc = tw.adc;
    tower_soft_id = tw.soft_id;
    max_adc = double.trunc max_adc;
    r = to_float t.r0;
    phi = to_float t.phi0;
    z = to_float t.z0;
    eta = to_float t.eta;
    pt = to_float t.pt;
    psi = to_float t.psi;
    fired = true;
  }

  -- The track that matched a tower, if one has, with what hlt_hT2 says of it, and highPTracks.
  pub record HighTracks : Type 0 where
    pub trigger_track : Option (Track fl)
    pub bank : HighTower fl
    pub high_p_tracks : List (Track fl)

  unfoldable pub high_track : Node fl → Option (Track fl)
  high_track n = elim n.primary_track [
    | none ↦ none
    | some t ↦
        if ltb_ℤ t.n_hits cuts.high_tower.n_hits
          || double.lt (momentum fl parts t) (to_double cuts.high_tower.p)
        then none
        else some t
  ]

  -- The track goes to highPTracks unless it is the one that matches.
  unfoldable pub high_track_step : HotTowers → Node fl → HighTracks → HighTracks
  high_track_step hot n h = elim (high_track n) [
    | none ↦ h
    | some t ↦
        let p = momentum fl parts t in
        let kept : HighTracks = record h { high_p_tracks = h.high_p_tracks ++ (t ∷ []) } in
        elim h.trigger_track [
          | some u ↦ kept
          | none ↦ elim (first_tower p t hot.towers) [
            | none ↦ kept
            | some tw ↦ record h { trigger_track = some t; bank = high_tower_of hot.max_adc p t tw }
          ]
        ]
  ]

  unfoldable pub high_tracks : HotTowers → List (Node fl) → HighTracks → HighTracks
  high_tracks hot [] h = h
  high_tracks hot (n ∷ ns) h = high_tracks hot ns (high_track_step hot n h)

  abbrev electron_mass : Double
  electron_mass = double.decimal (pos 511) 6

  unfoldable pub track_pair : Track fl → Track fl → TrackPair fl
  track_pair a b =
      let sq : Double → Double = λ x. double.mul x x in
      record {
        p2 = to_float (
            parts.sqrt (
              double.add (double.add (sq (px_of fl parts b)) (sq (py_of fl parts b)))
                (sq (pz_of fl parts b))));
        inv_mass = to_float (invariant_mass fl parts electron_mass a b);
      }

  -- nSigmaDedxE > 1.0 || nSigmaDedxE < -1.0
  unfoldable pub far_from_electron : Track fl → Bool
  far_from_electron t =
      let n_sigma = n_sigma_dedx fl parts t Particle.electron cuts.sigma_dedx1 in
      double.lt (double.of_int (pos 1)) n_sigma || double.lt n_sigma (double.of_int (negsuc 0))

  unfoldable pub track_pairs :
      Track fl → List (Track fl) → Bank (TrackPair fl) → Bank (TrackPair fl)
  track_pairs a [] b = b
  track_pairs a (t ∷ ts) b =
      track_pairs a ts (if far_from_electron t then b else push (track_pair a t) b)

  -- The tracks of the event against its hot towers; without a hot tower no track is looked at.
  unfoldable pub match_high_tracks : Decider fl → HighTracks
  match_high_tracks s =
      let cold : HotTowers = record {
        towers = [];
        max_adc = double.of_int (pos 0);
        full = false;
      } in
      let hot = hot_towers ev.barrel_towers cold in
      let start : HighTracks = record {
        trigger_track = none;
        bank = s.hlt_h_t2;
        high_p_tracks = [];
      } in
      elim hot.towers [ [] ↦ start | tw ∷ tws ↦ high_tracks hot s.nodes start ]

  unfoldable pub matched_ht2_body : Decider fl → Decider fl
  matched_ht2_body s =
      let h = match_high_tracks s in
      elim h.trigger_track [
        | none ↦ s
        | some t ↦
            let fired =
              set_word fl Trigger.matched_ht2 (trigger_bit fl cuts Trigger.matched_ht2) s in
            record fired {
              hlt_h_t2 = h.bank;
              hlt_h_t2_pairs = track_pairs t h.high_p_tracks s.hlt_h_t2_pairs;
            }
      ]

  unfoldable pub decide_matched_ht2 : Decider fl → Bool × Decider fl
  decide_matched_ht2 s =
      let old = s.hlt_h_t2 in
      when_on fl (cuts.trigger_on Trigger.matched_ht2) Trigger.matched_ht2 matched_ht2_body
        (record s {
          hlt_h_t2 = record old { fired = false };
          hlt_h_t2_pairs = restart s.hlt_h_t2_pairs;
        })
