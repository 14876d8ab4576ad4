-- ===== src/Decider/Run.antt =====
-- The loop of L4_HLT/L4HLTTask_cpu.cxx over the trigger algorithms: which decisions it calls and the
-- mask of the accepted triggers that it builds.
use Prim.Native.Nat.{bit_or, bit_and}
use star_hlt_tofmtd.Prelude.{ℕ, Bool, true, false, List, [], ◌∷◌, ◌==◌, if◌then◌else◌}
use star_hlt_tofmtd.Floats.{Floats}
use star_hlt_tofmtd.Decider.Types.{Trigger, Event, Parts}
use star_hlt_tofmtd.Decider.Cuts.{Cuts}
use star_hlt_tofmtd.Decider.State.{Decider}
use star_hlt_tofmtd.Decider.Simple.{
  decide_all_events, decide_random_events, decide_bes_good_events, decide_hlt_good2, decide_di_v0,
  decide_low_mult, decide_fixed_target, decide_fixed_target_monitor, decide_bes_monitor,
}
use star_hlt_tofmtd.Decider.Tracks.{decide_high_pt, decide_heavy_fragment}
use star_hlt_tofmtd.Decider.Muons.{decide_mtd_di_muon, decide_mtd_quarkonium}
use star_hlt_tofmtd.Decider.DiElectron.{decide_di_electron, decide_upc_di_electron}
use star_hlt_tofmtd.Decider.TwoTower.{decide_di_electron2_twr}
use star_hlt_tofmtd.Decider.Upc.{decide_upc_pair}
use star_hlt_tofmtd.Decider.HighTowers.{decide_matched_ht2}
pub mod Accepted
pub mod Bits
pub mod Counters

module _ (fl : Floats) (parts : Parts fl) (cuts : Cuts fl) (ev : Event fl) where
  -- switch (algo); case 1 accepts and calls nothing.
  unfoldable pub decide : Trigger → Decider fl → Bool × Decider fl
  decide Trigger.all_events_no_hlt s = (true, s)
  decide Trigger.high_pt s = decide_high_pt fl parts cuts ev s
  decide Trigger.di_electron s = decide_di_electron fl parts cuts ev s
  decide Trigger.heavy_fragment s = decide_heavy_fragment fl parts cuts ev s
  decide Trigger.all_events s = decide_all_events fl parts cuts ev s
  decide Trigger.random_events s = decide_random_events fl parts cuts ev s
  decide Trigger.bes_good_events s = decide_bes_good_events fl parts cuts ev s
  decide Trigger.di_v0 s = decide_di_v0 fl parts cuts ev s
  decide Trigger.matched_ht2 s = decide_matched_ht2 fl parts cuts ev s
  decide Trigger.low_mult s = decide_low_mult fl parts cuts ev s
  decide Trigger.upc_di_electron s = decide_upc_di_electron fl parts cuts ev s
  decide Trigger.upc_pair s = decide_upc_pair fl parts cuts ev s
  decide Trigger.mtd_di_muon s = decide_mtd_di_muon fl parts cuts ev s
  decide Trigger.fixed_target s = decide_fixed_target fl parts cuts ev s
  decide Trigger.fixed_target_monitor s = decide_fixed_target_monitor fl parts cuts ev s
  decide Trigger.bes_monitor s = decide_bes_monitor fl parts cuts ev s
  decide Trigger.hlt_good2 s = decide_hlt_good2 fl parts cuts ev s
  decide Trigger.mtd_quarkonium s = decide_mtd_quarkonium fl parts cuts ev s
  decide Trigger.di_electron2_twr s = decide_di_electron2_twr fl parts cuts ev s

  -- The loop body; the mask of a trigger is l2TrgMask & l3AlgoNeededMask[algo].
  unfoldable pub run_algorithm : ℕ → (Trigger → ℕ) → Trigger → ℕ × Decider fl → ℕ × Decider fl
  run_algorithm l2_mask needed t (l3_mask, s) =
      let m = bit_and l2_mask (needed t) in
      elim (m == 0) [
        | true ↦ (l3_mask, s)
        | false ↦
            let (satisfied, next) = decide t s in
            (if satisfied then bit_or l3_mask m else l3_mask, next)
      ]

  unfoldable pub run_algorithms : ℕ → (Trigger → ℕ) → List Trigger → ℕ × Decider fl → ℕ × Decider fl
  run_algorithms l2_mask needed [] s = s
  run_algorithms l2_mask needed (t ∷ ts) s =
      run_algorithms l2_mask needed ts (run_algorithm l2_mask needed t s)

-- for (int algo = 1; algo <= MaxNHLTTriggers; algo++)
unfoldable pub algorithms : List Trigger
algorithms =
    Trigger.all_events_no_hlt ∷ Trigger.high_pt ∷ Trigger.di_electron ∷ Trigger.heavy_fragment
    ∷ Trigger.all_events ∷ Trigger.random_events ∷ Trigger.bes_good_events ∷ Trigger.di_v0
    ∷ Trigger.matched_ht2 ∷ Trigger.low_mult ∷ Trigger.upc_di_electron ∷ Trigger.upc_pair
    ∷ Trigger.mtd_di_muon ∷ Trigger.fixed_target ∷ Trigger.fixed_target_monitor
    ∷ Trigger.bes_monitor ∷ Trigger.hlt_good2 ∷ Trigger.mtd_quarkonium ∷ Trigger.di_electron2_twr
    ∷ []
