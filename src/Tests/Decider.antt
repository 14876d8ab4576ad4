-- ===== src/Tests/Decider.antt =====
-- Decisions on a small event.
use Prim.Native.Nat.{min, bit_and}
use star_hlt_tofmtd.Prelude.{
  ◌⊎◌, ℕ, ◌≡◌, ◌≢◌, refl, ◌≤◌, true, false, List, [], ◌∷◌, map, some, none, arith, length, All,
}
use star_hlt_tofmtd.Prelude.Int.{pos, abs}
use star_hlt_tofmtd.Prelude.Bits.{bit}
use star_hlt_tofmtd.Decider.Types.{Trigger, Tower}
use star_hlt_tofmtd.Decider.Cuts.{default_cuts, default_bit, trigger_bit}
use star_hlt_tofmtd.Decider.State.{entries, last_write}
use star_hlt_tofmtd.Decider.Settled.{Accounted}
use star_hlt_tofmtd.Decider.Settled.Every.{decide-Accounted}
use star_hlt_tofmtd.Decider.Tracks.{decide_high_pt, passes_high_pt}
use star_hlt_tofmtd.Decider.Muons.{muon_event, decide_mtd_quarkonium}
use star_hlt_tofmtd.Decider.DiElectron.{decide_di_electron, decide_upc_di_electron}
use star_hlt_tofmtd.Decider.Upc.{is_upc, decide_upc_pair}
use star_hlt_tofmtd.Decider.Run.{algorithms, decide, run_algorithms}
use star_hlt_tofmtd.Decider.Run.Accepted.{or_all, accepted, run_algorithms-accepted}
use star_hlt_tofmtd.Decider.Run.Bits.{
  OwnBits, default_bit-OwnBits, bit_place, is_in, one_if, some_bit, taken, whole_run, decision_bit,
  mask_bit,
}
use star_hlt_tofmtd.Decider.Run.Counters.{Reached, set_up, decided, Reached-succeed_le}
use star_hlt_tofmtd.Decider.Match.Best.{IsOrder, IsChosen, NotBelow, match_of, best_tower-best}
use star_hlt_tofmtd.Decider.Match.{best_tower}
use star_hlt_tofmtd.Decider.Gathered.{any}
use star_hlt_tofmtd.Decider.Gathered.HighPt.{positions, decide_high_pt-entries}
use star_hlt_tofmtd.Decider.Gathered.Pairs.{
  di_electron_electrons, two_tower_electrons, di_electron_pairs, muon_pairs,
  decide_di_electron-entries, decide_mtd_quarkonium-entries,
}
use star_hlt_tofmtd.Decider.Gathered.Rhos.{rho_list, matched, decide_upc_pair-entries}
use star_hlt_tofmtd.Decider.Gathered.Slots.{decide_upc_di_electron-slot}
use star_hlt_tofmtd.Decider.Gathered.Bounds.{IsSelected, electrons_fit}
use star_hlt_tofmtd.Tests.Decisions.{
  high_pt_count, di_electron_count, muon_count, muon_tracks, pion_count,
}
use star_hlt_tofmtd.Tests.Fixed.{fixed}
use star_hlt_tofmtd.Tests.Detector.{
  origin, toy, node, hard, three_nodes, two_muons, tower, event, start, cuts,
}

-- Each algorithm needed by a trigger of its own.
abbrev needed : Trigger → ℕ
needed t = default_bit t

decide-Accounted_example :
    Accounted fixed cuts Trigger.di_electron start
      (decide fixed toy cuts event Trigger.di_electron start)
decide-Accounted_example = decide-Accounted fixed toy cuts event Trigger.di_electron start

run_algorithms-accepted_example :
    let r = run_algorithms fixed toy cuts event 0x90000 needed algorithms (0, start) in
    let found = accepted fixed toy cuts event 0x90000 needed algorithms start in
    (r.0 ≡ or_all (λ t. bit_and 0x90000 (needed t)) found 0)
    × (r.1.hlt_decision ≡ or_all (trigger_bit fixed cuts) found 0)
run_algorithms-accepted_example =
    run_algorithms-accepted fixed toy cuts event 0x90000 needed algorithms 0 start

-- The parameters give each trigger its default bit.
same_bits : (t : Trigger) → trigger_bit fixed cuts t ≡ default_bit t
unfolding trigger_bit default_bit default_cuts fixed cuts
same_bits Trigger.all_events_no_hlt = refl
same_bits Trigger.high_pt = refl
same_bits Trigger.di_electron = refl
same_bits Trigger.heavy_fragment = refl
same_bits Trigger.all_events = refl
same_bits Trigger.random_events = refl
same_bits Trigger.bes_good_events = refl
same_bits Trigger.di_v0 = refl
same_bits Trigger.matched_ht2 = refl
same_bits Trigger.low_mult = refl
same_bits Trigger.upc_di_electron = refl
same_bits Trigger.upc_pair = refl
same_bits Trigger.mtd_di_muon = refl
same_bits Trigger.fixed_target = refl
same_bits Trigger.fixed_target_monitor = refl
same_bits Trigger.bes_monitor = refl
same_bits Trigger.hlt_good2 = refl
same_bits Trigger.mtd_quarkonium = refl
same_bits Trigger.di_electron2_twr = refl

cuts-OwnBits : OwnBits (trigger_bit fixed cuts) bit_place
cuts-OwnBits = record {
  one_bit = λ t. rw (same_bits t) (default_bit-OwnBits.one_bit t);
  apart = default_bit-OwnBits.apart;
}

high_pt_bit : trigger_bit fixed cuts Trigger.high_pt ≢ 0
high_pt_bit e = unfold default_bit in omega (arith, same_bits Trigger.high_pt, e)

di_electron_bit : trigger_bit fixed cuts Trigger.di_electron ≢ 0
di_electron_bit e = unfold default_bit in omega (arith, same_bits Trigger.di_electron, e)

quarkonium_bit : trigger_bit fixed cuts Trigger.mtd_quarkonium ≢ 0
quarkonium_bit e = unfold default_bit in omega (arith, same_bits Trigger.mtd_quarkonium, e)

upc_pair_bit : trigger_bit fixed cuts Trigger.upc_pair ≢ 0
upc_pair_bit e = unfold default_bit in omega (arith, same_bits Trigger.upc_pair, e)

decision_bit_example :
    bit
      (whole_run fixed toy cuts event 0x90000 needed start).1.hlt_decision
      (bit_place Trigger.high_pt)
    ≡ one_if (is_in Trigger.high_pt (taken fixed toy cuts event 0x90000 needed start))
decision_bit_example =
    decision_bit fixed toy cuts event 0x90000 needed bit_place Trigger.high_pt start cuts-OwnBits
      high_pt_bit

mask_bit_example :
    bit (whole_run fixed toy cuts event 0x90000 needed start).0 16
    ≡ min (bit 0x90000 16) (some_bit needed 16 (taken fixed toy cuts event 0x90000 needed start))
mask_bit_example = mask_bit fixed toy cuts event 0x90000 needed 16 start

reached : Reached fixed toy cuts 1 (decide fixed toy cuts event Trigger.high_pt start).1
reached = decided event Trigger.high_pt (set_up start (λ u. refl) (λ u. refl))

Reached-succeed_le_example :
    let r = (decide fixed toy cuts event Trigger.high_pt start).1 in
    (r.num_of_succeed Trigger.high_pt ≤ r.num_of_called Trigger.high_pt)
    × (r.num_of_called Trigger.high_pt ≤ 1)
Reached-succeed_le_example = Reached-succeed_le fixed toy cuts reached (omega arith) Trigger.high_pt

is_on : (t : Trigger) → cuts.trigger_on t ≡ true
unfolding default_cuts fixed cuts
is_on t = refl

decide_high_pt-entries_example :
    let r = decide_high_pt fixed toy cuts event start in
    let passing = positions (passes_high_pt fixed toy cuts event) 0 three_nodes in
    (entries r.1.hlt_hi_pt ≡ map (λ i. some i) passing)
    × (r.1.hlt_hi_pt.overrun ≡ false)
    × (r.0 ≡ any passing)
decide_high_pt-entries_example =
    decide_high_pt-entries fixed toy cuts event start (is_on Trigger.high_pt) high_pt_bit
      (omega (arith, high_pt_count))

decide_di_electron-entries_example :
    let r = decide_di_electron fixed toy cuts event start in
    let pairs = di_electron_pairs fixed toy cuts event three_nodes in
    (entries r.1.hlt_di_ep ≡ map (λ p. some p) pairs)
    × (r.1.hlt_di_ep.overrun ≡ false)
    × (r.0 ≡ any pairs)
decide_di_electron-entries_example =
    decide_di_electron-entries fixed toy cuts event start (is_on Trigger.di_electron)
      di_electron_bit (omega (arith, di_electron_count))

muons_there : muon_event fixed toy cuts event ≡ some two_muons
unfolding muon_event fixed event
muons_there = refl

decide_mtd_quarkonium-entries_example :
    let r = decide_mtd_quarkonium fixed toy cuts event start in
    let pairs = muon_pairs fixed toy cuts event three_nodes two_muons in
    (entries r.1.hlt_mtd_qkn ≡ map (λ p. some p) pairs)
    × (r.1.hlt_mtd_qkn.overrun ≡ false)
    × (r.1.fault ≡ false)
    × (r.0 ≡ any pairs)
decide_mtd_quarkonium-entries_example =
    decide_mtd_quarkonium-entries fixed toy cuts event start two_muons
      (is_on Trigger.mtd_quarkonium) quarkonium_bit (omega (arith, muon_count)) muons_there
      muon_tracks

upc_event : is_upc fixed toy cuts event ≡ true
unfolding is_upc default_cuts fixed abs event cuts origin toy
upc_event = refl

decide_upc_pair-entries_example :
    let r = decide_upc_pair fixed toy cuts event start in
    let pairs = rho_list fixed toy cuts event three_nodes in
    (entries r.1.hlt_upc_rho ≡ map (λ p. some p) pairs)
    × (r.1.hlt_upc_rho.overrun ≡ false)
    × (r.1.nodes ≡ map (matched fixed toy cuts event) three_nodes)
    × (r.0 ≡ any pairs)
decide_upc_pair-entries_example =
    decide_upc_pair-entries fixed toy cuts event start (is_on Trigger.upc_pair) upc_pair_bit
      upc_event (omega (arith, pion_count))

decide_upc_di_electron-slot_example :
    last_write 1 (decide_upc_di_electron fixed toy cuts event start).1.hlt_upc_di_ep.writes ≡ none
unfolding last_write
decide_upc_di_electron-slot_example =
    decide_upc_di_electron-slot fixed toy cuts event start 1 (λ e. omega arith)

electrons_fit_example :
    ((length (di_electron_electrons fixed toy cuts event three_nodes) ≤ 1000)
      × All (IsSelected fixed) (di_electron_electrons fixed toy cuts event three_nodes))
    × ((length (two_tower_electrons fixed toy cuts event three_nodes) ≤ 1000)
        × All (IsSelected fixed) (two_tower_electrons fixed toy cuts event three_nodes))
electrons_fit_example = electrons_fit fixed toy cuts event three_nodes

abbrev Any : fixed.Double → Type 0
Any a = Unit {0}

fixed-IsOrder : IsOrder fixed Any
unfolding fixed
fixed-IsOrder = record {
  irreflexive = λ a p. ground arith;
  asymmetric = λ a b p q h. ground arith;
  descending = λ a b c p q u h k. ground arith;
}

abbrev two_towers : List (ℕ × Tower fixed)
two_towers = (4, tower 600000) ∷ (9, tower 5000000) ∷ []

best_tower-best_example :
    let n = node hard none in
    let r = best_tower fixed toy hard two_towers n in
    ((r ≡ (fixed.double.of_int (pos 0), n)) ⊎ IsChosen fixed toy hard two_towers n r)
    × All
        (λ x. NotBelow fixed toy r.0 (match_of fixed toy hard x.1) (fixed.to_double x.1.energy))
        two_towers
best_tower-best_example =
    best_tower-best fixed toy Any fixed-IsOrder hard two_towers (node hard none) tt (tt, (tt, tt))
