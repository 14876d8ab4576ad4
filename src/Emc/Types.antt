-- ===== src/Emc/Types.antt =====
-- l3EmcTowerInfo, l3EmcCalibration (L4_HLT/l3EmcCalibration.h), gl3EmcTower and gl3EMC (L4_HLT/gl3EMC.h):
-- the calibration of the towers with its look-ups, and the towers of the event.
use star_hlt_tofmtd.Prelude.{ℕ, ◌-◌, ◌||◌, ◌&&◌, List, Option, none, some, ltb, if◌then◌else◌}
use star_hlt_tofmtd.Prelude.Int.{ℤ, pos, negsuc, ltb_ℤ, ◌==ℤ◌}
use star_hlt_tofmtd.Floats.{Floats}
use star_hlt_tofmtd.Mtd.Hits.{◌>>=◌}

module _ (fl : Floats) where
  open fl use {Float, float}

  -- l3EmcTowerInfo
  pub record TowerInfo : Type 0 where
    pub phi : Float
    pub eta : Float
    pub eta_min : Float
    pub eta_max : Float
    pub z : Float
    pub z_min : Float
    pub z_max : Float
    pub pedestal : Float
    pub gain : Float
    pub soft_id : ℤ
    pub daq_id : ℤ
    pub crate : ℤ
    pub crate_seq : ℤ
    pub phi_eta : ℤ

  -- l3EmcCalibration. `tower` and `daq2id` have n_towers entries, crateToDaqId is 30 by 160; what lies
  -- outside is not read by the operations below, which return `none` there.
  pub record EmcCalibration : Type 0 where
    pub n_towers : ℕ
    pub tower : ℕ → TowerInfo
    pub daq2id : ℕ → ℤ
    pub crate_to_daq_id : ℕ → ℕ → ℤ

  -- A read of an array of n entries.
  unfoldable pub entry : {A : Type 0} → ℕ → (ℕ → A) → ℤ → Option A
  entry n array (negsuc i) = none
  entry n array (pos i) = if ltb i n then some (array i) else none

  -- daqToId: the guard lets daq = nTowers through.
  unfoldable pub daq_to_id : EmcCalibration → ℤ → Option ℤ
  unfolding entry
  daq_to_id cal daq =
      if ltb_ℤ (pos cal.n_towers) daq then some (pos 0) else entry cal.n_towers cal.daq2id daq

  -- tower[softId-1]
  unfoldable pub tower_of_id : EmcCalibration → ℤ → Option TowerInfo
  unfolding entry
  tower_of_id cal (negsuc i) = none
  tower_of_id cal (pos i) = if ltb i 1 then none else entry cal.n_towers cal.tower (pos (i - 1))

  -- getTowerInfo(crate, crateSeq)
  unfoldable pub tower_info : EmcCalibration → ℕ → ℕ → Option TowerInfo
  unfolding daq_to_id tower_of_id
  tower_info cal crate seq =
      if ltb 0 crate && ltb (crate - 1) 30 && ltb seq 160
      then (daq_to_id cal (cal.crate_to_daq_id (crate - 1) seq) >>= λ id. tower_of_id cal id)
      else none

  -- gl3EmcTower, but for the number of tracks, which nothing here reads or writes.
  pub record EmcTower : Type 0 where
    pub adc : ℤ
    pub energy : Float
    pub info : TowerInfo

  -- setADC(x), with the pedestal.
  unfoldable pub set_adc : ℤ → EmcTower → EmcTower
  set_adc x t =
      let zero_f = float.of_int (pos 0) in
      let gain = t.info.gain in
      let pedestal = float.mul t.info.pedestal (float.of_int (pos 1)) in
      record t {
        adc = x;
        energy =
            if float.lt gain zero_f || float.eq gain zero_f || x ==ℤ pos 0
            then zero_f
            else float.mul (float.sub (float.of_int x) pedestal) gain;
      }

  -- setTowerInfo
  unfoldable pub set_tower_info : TowerInfo → EmcTower → EmcTower
  set_tower_info i t = record t { info = i }

  -- gl3EMC: `tower` has nTotalTowers entries and those of the barrel come first.
  pub record Emc : Type 0 where
    pub tower : List EmcTower
    pub n_barrel_towers : ℕ
    pub n_endcap_towers : ℕ
    pub err_flags : ℕ
    pub e_total : Float
    pub e_barrel : Float
    pub e_endcap : Float
    pub min_energy_for_tracking_seed : Float

  -- reset
  unfoldable pub reset : Emc → Emc
  reset s = record {
    tower = s.tower;
    n_barrel_towers = 0;
    n_endcap_towers = 0;
    err_flags = 0;
    e_total = float.of_int (pos 0);
    e_barrel = float.of_int (pos 0);
    e_endcap = float.of_int (pos 0);
    min_energy_for_tracking_seed = float.decimal (pos 5) 1;
  }
