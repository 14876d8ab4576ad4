-- ===== src/Emc/Read.antt =====
-- The readers of tower data of L4_HLT/gl3EMC.cxx: readRawBtowers and readFromDaqReader, which keep the
-- towers with energy, and the barrel part of readFromEvpReader.
use star_hlt_tofmtd.Prelude.{
  ℕ, zero, suc, ◌+◌, ◌-◌, ◌%◌, Bool, true, false, ◌||◌, Option, none, some, List, [], ◌∷◌, ltb,
  ◌==◌, length, get_elem?, set, if◌then◌else◌,
}
use star_hlt_tofmtd.Prelude.Int.{ℤ, pos, negsuc, ltb_ℤ}
use star_hlt_tofmtd.Floats.{Floats}
use star_hlt_tofmtd.Mtd.Hits.{◌>>=◌}
use star_hlt_tofmtd.Emc.Types.{
  TowerInfo, EmcCalibration, EmcTower, Emc, tower_info, daq_to_id, set_adc, set_tower_info,
}
pub mod Kept
pub mod Crates
pub mod Constructed

-- The crate of the i-th front end, as readFromDaqReader computes it.
unfoldable pub crate_of : ℕ → ℕ
crate_of i = if ltb i 3 then 18 - i else if ltb i 15 then 33 - i else if i == 15 then 1 else 31 - i

-- The crate of a front end, preamble[i][3]%1024.
unfoldable pub crate_number : ℕ → ℕ
crate_number preamble = preamble % 1024

unfoldable pub bad_crate : ℕ → Bool
bad_crate crate = ltb crate 1 || ltb 30 crate

module _ (fl : Floats) where
  open fl use {Float, float, double, to_double}

  -- getEnergy() > 0.5
  unfoldable pub above_half : Float → Bool
  above_half e = double.lt (double.decimal (pos 5) 1) (to_double e)

  -- getEnergy() > 0
  unfoldable pub above_zero : Float → Bool
  above_zero e = float.lt (float.of_int (pos 0)) e

module _ (fl : Floats) (cal : EmcCalibration fl) where
  open fl use {Float}

  -- The body of the inner loops: the tower in place nBarrelTowers is written, and it stays if it has
  -- the energy. `none` is a write past the array or a read outside the calibration.
  unfoldable pub read_tower : (Float → Bool) → ℕ → ℕ → ℤ → Emc fl → Option (Emc fl)
  read_tower enough crate j adc s = tower_info fl cal crate j >>= λ info.
      get_elem? s.tower s.n_barrel_towers >>= λ old.
      let new = set_adc fl adc (set_tower_info fl info old) in
      let n = s.n_barrel_towers in
      some (record s {
        tower = set s.tower n new;
        n_barrel_towers = if enough new.energy then suc n else n;
      })

  -- for(int j=0;j<BTOW_DATSIZE;j++) of readRawBtowers, with its break
  unfoldable pub read_crate : ℕ → ℕ → List ℤ → Emc fl → Option (Emc fl)
  unfolding read_tower above_half
  read_crate crate j [] s = some s
  read_crate crate j (adc ∷ adcs) s = read_tower (above_half fl) crate j adc s >>= λ t.
      let rest = read_crate crate (suc j) adcs t in
      if ltb t.n_barrel_towers (length t.tower) then rest else some t

  -- for(int i=0;i<BTOW_MAXFEE;i++): preamble[i][3] and adc[i] of each front end
  unfoldable pub read_fees : List (ℕ × List ℤ) → Emc fl → Option (Emc fl)
  unfolding read_crate
  read_fees [] s = some s
  read_fees (fee ∷ fees) s =
      let crate = crate_number fee.0 in
      let skip = read_fees fees s in
      if bad_crate crate then skip else (read_crate crate 0 fee.1 s >>= λ t. read_fees fees t)

  unfoldable pub read_raw_btowers : List (ℕ × List ℤ) → Emc fl → Option (Emc fl)
  unfolding read_fees
  read_raw_btowers fees s = read_fees fees (record s { n_barrel_towers = 0 })

  -- readFromDaqReader: no break and no check of the crate.
  unfoldable pub daq_crate : ℕ → ℕ → List ℤ → Emc fl → Option (Emc fl)
  unfolding read_tower above_zero
  daq_crate crate j [] s = some s
  daq_crate crate j (adc ∷ adcs) s =
      read_tower (above_zero fl) crate j adc s >>= λ t. daq_crate crate (suc j) adcs t

  unfoldable pub daq_crates : ℕ → List (List ℤ) → Emc fl → Option (Emc fl)
  unfolding daq_crate crate_of
  daq_crates i [] s = some s
  daq_crates i (adcs ∷ rest) s = daq_crate (crate_of i) 0 adcs s >>= λ t. daq_crates (suc i) rest t

  -- while(dd->iterate()): each block starts the list of towers again.
  unfoldable pub daq_blocks : List (List (List ℤ)) → Emc fl → Option (Emc fl)
  unfolding daq_crates
  daq_blocks [] s = some s
  daq_blocks (b ∷ bs) s = daq_crates 0 b (record s { n_barrel_towers = 0 }) >>= λ t. daq_blocks bs t

  -- The value returned, found, and the calorimeter.
  unfoldable pub read_from_daq_reader : List (List (List ℤ)) → Emc fl → Option (Bool × Emc fl)
  unfolding daq_blocks
  read_from_daq_reader [] s = some (false, s)
  read_from_daq_reader (b ∷ bs) s = daq_blocks (b ∷ bs) s >>= λ t. some (true, t)

  -- readFromEvpReader: setADC(0) of the towers below nBarrelTowers.
  unfoldable pub zero_towers : ℕ → List (EmcTower fl) → List (EmcTower fl)
  zero_towers zero ts = ts
  zero_towers (suc n) [] = []
  zero_towers (suc n) (t ∷ ts) = set_adc fl (pos 0) t ∷ zero_towers n ts

  -- The tower of the id gets its ADC value.
  unfoldable pub store_adc : ℤ → ℤ → List (EmcTower fl) → Option (List (EmcTower fl))
  store_adc (negsuc id) adc ts = none
  store_adc (pos id) adc ts = get_elem? ts id >>= λ t. some (set ts id (set_adc fl adc t))

  -- for(i=0;i<BTOW_MAXFEE*BTOW_DATSIZE;i++)
  unfoldable pub read_btow : ℕ → List ℤ → Emc fl → Option (Emc fl)
  unfolding store_adc
  read_btow i [] s = some s
  read_btow i (adc ∷ adcs) s =
      let skip = read_btow (suc i) adcs s in
      daq_to_id fl cal (pos i) >>= λ id.
      if ltb_ℤ id (pos s.n_barrel_towers)
      then (store_adc id adc s.tower >>= λ ts. read_btow (suc i) adcs (record s { tower = ts }))
      else skip

  unfoldable pub read_barrel : List ℤ → Emc fl → Option (Emc fl)
  unfolding zero_towers read_btow
  read_barrel btow s = read_btow 0 btow (record s { tower = zero_towers s.n_barrel_towers s.tower })
