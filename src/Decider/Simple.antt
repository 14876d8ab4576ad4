-- ===== src/Decider/Simple.antt =====
-- The decisions of L4_HLT/gl3TriggerDecider.cxx that look at the vertex, at the number of tracks or at
-- nothing of the event: decide_AllEvents, decide_RandomEvents, decide_BesGoodEvents, decide_HLTGood2,
-- decide_diV0, decide_LowMult, decide_FixedTarget, decide_FixedTargetMonitor and decide_BesMonitor.
use star_hlt_tofmtd.Prelude.{ℕ, ◌+◌, ◌%◌, Bool, true, false, ◌&&◌, ◌==◌, if◌then◌else◌, length}
use star_hlt_tofmtd.Prelude.Int.{ℤ, pos, pos_part, neg_part, negsuc, ltb_ℤ}
use star_hlt_tofmtd.Floats.{Floats}
use star_hlt_tofmtd.Decider.Types.{Trigger, Event, Parts}
use star_hlt_tofmtd.Decider.Cuts.{Cuts, VertexCuts, trigger_bit}
use star_hlt_tofmtd.Decider.State.{Decider, set_word, count_call, settle}

module _ (fl : Floats) (cuts : Cuts fl) where
  -- if (condition) xTriggered = triggerBitX
  unfoldable pub fire_if : Trigger → Bool → Decider fl → Decider fl
  fire_if t condition s = if condition then set_word fl t (trigger_bit fl cuts t) s else s

module _ (fl : Floats) where
  -- xTriggered = 0; if(!triggerOnX) return false; NumOfCalled[X]++; …; the end of every decision
  unfoldable pub when_on :
      Bool → Trigger → (Decider fl → Decider fl) → Decider fl → Bool × Decider fl
  when_on on t body s =
      let cleared = set_word fl t 0 s in
      if on then settle fl t (body (count_call fl t cleared)) else (false, cleared)

module _ (fl : Floats) (parts : Parts fl) (cuts : Cuts fl) (ev : Event fl) where
  open fl use {Float, double, float, to_float, to_double}

  -- A decision by a condition on the event alone.
  unfoldable pub decide_by : Trigger → Bool → Decider fl → Bool × Decider fl
  decide_by t condition = when_on fl (cuts.trigger_on t) t (fire_if fl cuts t condition)

  unfoldable pub decide_all_events : Decider fl → Bool × Decider fl
  decide_all_events = decide_by Trigger.all_events true

  -- !(rand() % sampleScale); a scale of 0 is a division by zero, and its value here is the model's.
  unfoldable pub sampled : ℕ → ℤ → Bool
  sampled r scale = r % (pos_part scale + neg_part scale) == 0

  unfoldable pub decide_random_events : Decider fl → Bool × Decider fl
  decide_random_events = decide_by Trigger.random_events (sampled ev.random cuts.sample_scale)

  -- Getx() or Gety() less the centre of the beam pipe, 0, in a float.
  abbrev from_centre : fl.Double → Float
  from_centre x = to_float (double.sub x (to_double (float.of_int (pos 0))))

  abbrev radius : Float → Float → Float
  radius x y = parts.sqrt_float (float.add (float.mul x x) (float.mul y y))

  -- The condition of besGoodEvents and HLTGood2.
  unfoldable pub good_vertex : VertexCuts fl → Bool
  good_vertex c =
      let vr = radius (from_centre ev.vertex.getx) (from_centre ev.vertex.gety) in
      double.lt (parts.fabs ev.vertex.getz) (to_double c.z)
      && float.lt vr c.r
      && ltb_ℤ c.n_tracks ev.n_primary_tracks

  unfoldable pub decide_bes_good_events : Decider fl → Bool × Decider fl
  decide_bes_good_events = decide_by Trigger.bes_good_events (good_vertex cuts.bes_good)

  unfoldable pub decide_hlt_good2 : Decider fl → Bool × Decider fl
  decide_hlt_good2 = decide_by Trigger.hlt_good2 (good_vertex cuts.good2)

  unfoldable pub decide_di_v0 : Decider fl → Bool × Decider fl
  decide_di_v0 s = (false, count_call fl Trigger.di_v0 s)

  -- nTracks > nTracksLow_LowMult && nTracks < nTracksHigh_LowMult, of the global tracks
  unfoldable pub low_mult_body : Decider fl → Decider fl
  low_mult_body s =
      let n_tracks = pos (length s.nodes) in
      if ltb_ℤ cuts.n_tracks_low n_tracks && ltb_ℤ n_tracks cuts.n_tracks_high
      then (let fired = set_word fl Trigger.low_mult (trigger_bit fl cuts Trigger.low_mult) s in
          record fired { hlt_lm = n_tracks })
      else s

  -- The guard is `if(triggerOnLowMult) return false`.
  unfoldable pub decide_low_mult : Decider fl → Bool × Decider fl
  decide_low_mult s =
      let blank : Decider fl = record s { hlt_lm = negsuc 998 } in
      let off = if cuts.trigger_on Trigger.low_mult then false else true in
      when_on fl off Trigger.low_mult low_mult_body blank

  unfoldable pub in_target : Bool
  in_target =
      let vz = to_float ev.vertex.getz in
      let vr = radius (to_float ev.vertex.getx) (to_float ev.vertex.gety) in
      let c = cuts.target in
      float.lt c.z_low vz && float.lt vz c.z_high && float.lt c.r_low vr && float.lt vr c.r_high

  unfoldable pub decide_fixed_target : Decider fl → Bool × Decider fl
  decide_fixed_target = decide_by Trigger.fixed_target in_target

  unfoldable pub in_monitor : Bool
  in_monitor =
      let vz = to_float ev.vertex.getz in
      float.lt cuts.monitor_z_low vz && float.lt vz cuts.monitor_z_high

  unfoldable pub decide_fixed_target_monitor : Decider fl → Bool × Decider fl
  decide_fixed_target_monitor = decide_by Trigger.fixed_target_monitor in_monitor

  -- fabs(Vz), with Vz a float
  unfoldable pub bes_monitored : Bool
  bes_monitored =
      let vz = to_double (to_float ev.vertex.getz) in
      double.lt (parts.fabs vz) (to_double cuts.z_bes_monitor)
      && ltb_ℤ cuts.n_tracks_bes_monitor ev.n_primary_tracks

  unfoldable pub decide_bes_monitor : Decider fl → Bool × Decider fl
  decide_bes_monitor = decide_by Trigger.bes_monitor bes_monitored
