-- ===== src/Decider/State.antt =====
-- The state of gl3TriggerDecider (L4_HLT/gl3TriggerDecider.h) with the nodes of the event, which the
-- decisions change, the data banks (L4_HLT/HLTFormats.h), resetEvent, and the statements that every
-- decide_X of L4_HLT/gl3TriggerDecider.cxx begins and ends with.
-- A bank's array holds 1000 entries and no decision checks that. A write past it goes to memory that is not
-- modelled: the bank then says `overrun`. The member `fault` is set where a decision on muons follows the null
-- pointer of an event without data or reads a track past the last one. What such a run does from there on is
-- undefined.
use Prim.Native.Nat.{bit_or}
use star_hlt_tofmtd.Prelude.{
  ℕ, suc, ◌+◌, Bool, true, false, List, [], ◌∷◌, Option, none, some, ◌==◌, ltb, ◌%◌, ◌^◌,
  if◌then◌else◌, map,
}
use star_hlt_tofmtd.Prelude.Int.{ℤ, negsuc}
use star_hlt_tofmtd.Prelude.Finite.{iota}
use star_hlt_tofmtd.Floats.{Floats}
use star_hlt_tofmtd.Decider.Types.{Trigger, number, Node}
pub mod Entries

-- The counter of a bank, the writes into its array, the last one first, and whether one went past it.
pub record Bank (A : Type 0) : Type 0 where
  pub count : ℕ
  pub writes : List (ℕ × A)
  pub overrun : Bool

-- The entries of the array of a bank.
abbrev pub bank_size : ℕ
bank_size = 1000

module _ {A : Type 0} where
  -- array[i] = x
  unfoldable pub write : ℕ → A → Bank A → Bank A
  write i x b =
      if ltb i bank_size
      then record b { writes = (i, x) ∷ b.writes }
      else record b { overrun = true }

  -- array[n] = x; n++
  unfoldable pub push : A → Bank A → Bank A
  unfolding write
  push x b = let c = write b.count x b in record c { count = suc b.count }

  -- n = 0; the array keeps what it holds.
  unfoldable pub restart : Bank A → Bank A
  restart b = record b { count = 0 }

  unfoldable pub last_write : ℕ → List (ℕ × A) → Option A
  last_write i [] = none
  last_write i ((j, x) ∷ ws) = let earlier = last_write i ws in if i == j then some x else earlier

  -- The entries below the counter.
  unfoldable pub entries : Bank A → List (Option A)
  entries b = map (λ i. last_write i b.writes) (iota 0 b.count)

-- A member or an array entry for each trigger.
unfoldable pub update : (Trigger → ℕ) → Trigger → ℕ → Trigger → ℕ
update f t v u = if number t == number u then v else f u

module _ (fl : Floats) where
  open fl use {Float, float}

  pub record DiElectronPair : Type 0 where
    pub dau1_node_sn : ℕ
    pub dau2_node_sn : ℕ
    pub invariant_mass : Float
    pub pt : Float
    pub psi : Float
    pub tanl : Float
    pub dau1_selection_bit : ℕ
    pub dau2_selection_bit : ℕ

  pub record DiPionPair : Type 0 where
    pub dau1_node_sn : ℕ
    pub dau2_node_sn : ℕ
    pub invariant_mass : Float
    pub pt : Float
    pub psi : Float
    pub tanl : Float
    pub deltphi : Float

  pub record MuonPair : Type 0 where
    pub muon_track_id1 : ℕ
    pub muon_track_id2 : ℕ
    pub pt : Float
    pub eta : Float
    pub phi : Float
    pub inv_mass : Float

  -- hlt_MatchedHT2
  pub record TrackPair : Type 0 where
    pub p2 : Float
    pub inv_mass : Float

  -- HLT_HT2 less its array and its counter: the track and the tower that fired.
  pub record HighTower : Type 0 where
    pub p0 : Float
    pub e_over_p0 : Float
    pub tower_adc : ℤ
    pub tower_soft_id : ℤ
    pub max_adc : ℤ
    pub r : Float
    pub phi : Float
    pub z : Float
    pub eta : Float
    pub pt : Float
    pub psi : Float
    pub fired : Bool

  pub record Decider : Type 0 where
    pub nodes : List (Node fl)
    -- highPtTriggered, diElectronTriggered, …
    pub triggered : Trigger → ℕ
    pub hlt_decision : ℕ
    pub num_of_called : Trigger → ℕ
    pub num_of_succeed : Trigger → ℕ
    pub hlt_hi_pt : Bank ℕ
    pub hlt_di_ep : Bank DiElectronPair
    pub hlt_upc_di_ep : Bank DiElectronPair
    pub hlt_di_ep2_twr : Bank DiElectronPair
    pub hlt_h_f : Bank ℕ
    pub hlt_upc_rho : Bank DiPionPair
    pub hlt_mtd_qkn : Bank MuonPair
    pub hlt_h_t2 : HighTower
    pub hlt_h_t2_pairs : Bank TrackPair
    -- hlt_lm.nPrimaryTracks
    pub hlt_lm : ℤ
    pub fault : Bool

  -- resetEvent; it leaves four of the words alone: MTDQuarkonium, FixedTarget, FixedTargetMonitor and
  -- besMonitor, which are written `kept`.
  unfoldable pub reset_event : Decider → Decider
  reset_event s =
      let kept : Trigger → Bool = λ t. elim t [
        | Trigger.mtd_quarkonium ↦ true
        | Trigger.fixed_target ↦ true
        | Trigger.fixed_target_monitor ↦ true
        | Trigger.bes_monitor ↦ true
        | _ ↦ false
      ] in
      let ht2 = s.hlt_h_t2 in
      record s {
        triggered = λ t. if kept t then s.triggered t else 0;
        hlt_decision = 0;
        hlt_hi_pt = restart s.hlt_hi_pt;
        hlt_di_ep = restart s.hlt_di_ep;
        hlt_upc_di_ep = restart s.hlt_upc_di_ep;
        hlt_di_ep2_twr = restart s.hlt_di_ep2_twr;
        hlt_h_f = restart s.hlt_h_f;
        hlt_upc_rho = restart s.hlt_upc_rho;
        hlt_mtd_qkn = restart s.hlt_mtd_qkn;
        hlt_h_t2 = record ht2 { fired = false };
        hlt_h_t2_pairs = restart s.hlt_h_t2_pairs;
        hlt_lm = negsuc 998;
      }

  -- xTriggered = w
  unfoldable pub set_word : Trigger → ℕ → Decider → Decider
  set_word t w s = record s { triggered = update s.triggered t w }

  -- NumOfCalled[X]++ on the 32 bits of an int
  unfoldable pub count_call : Trigger → Decider → Decider
  count_call t s = record s {
    num_of_called = update s.num_of_called t ((s.num_of_called t + 1) % 2 ^ 32);
  }

  -- hltDecision |= xTriggered; if (xTriggered) NumOfSucceed[X]++; return xTriggered
  unfoldable pub settle : Trigger → Decider → Bool × Decider
  settle t s =
      let w = s.triggered t in
      let decided : Decider = record s { hlt_decision = bit_or s.hlt_decision w } in
      if w == 0 then (false, decided) else (
        true,
        record decided {
          num_of_succeed = update s.num_of_succeed t ((s.num_of_succeed t + 1) % 2 ^ 32);
        },
      )
