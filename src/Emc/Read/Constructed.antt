-- ===== src/Emc/Read/Constructed.antt =====
-- readFromEvpReader (L4_HLT/gl3EMC.cxx) after gl3EMC::reset, which the constructor ends with.
use star_hlt_tofmtd.Prelude.{
  ℕ, suc, ◌+◌, ◌≤◌, ◌<◌, ◌≡◌, refl, List, [], ◌∷◌, some, arith, length, true, false, ltb,
}
use star_hlt_tofmtd.Prelude.Int.{ℤ, pos, ltb_ℤ}
use star_hlt_tofmtd.Floats.{Floats}
use star_hlt_tofmtd.Emc.Types.{EmcCalibration, Emc, daq_to_id, entry, reset}
use star_hlt_tofmtd.Emc.Read.{zero_towers, read_btow, read_barrel}

module _ (fl : Floats) (cal : EmcCalibration fl) where
  -- Every entry of daq2id is the id of a tower.
  abbrev pub IdMap : Type 0
  IdMap = (i : ℕ) → i < cal.n_towers → (k : ℕ) × (cal.daq2id i ≡ pos k)

  daq_to_id-inside :
      (i k : ℕ) → i < cal.n_towers → cal.daq2id i ≡ pos k → daq_to_id fl cal (pos i) ≡ some (pos k)
  unfolding daq_to_id entry
  daq_to_id-inside i k h id =
      let allowed : ltb_ℤ (pos cal.n_towers) (pos i) ≡ false = ground arith in
      let inside : ltb i cal.n_towers ≡ true = ground arith in rw allowed (rw inside (rw id refl))

  read_btow-none :
      IdMap
      → (i : ℕ) (btow : List ℤ) (s : Emc fl) → s.n_barrel_towers ≡ 0
      → i + length btow ≤ cal.n_towers
      → read_btow fl cal i btow s ≡ some s
  unfolding read_btow
  read_btow-none m i [] s e h = refl
  read_btow-none m i (adc ∷ adcs) s e h =
      let (k, id) = m i (omega arith) in
      let full : ltb_ℤ (pos k) (pos s.n_barrel_towers) ≡ false = ground arith in
      rw (daq_to_id-inside i k (omega arith) id)
        (rw full (read_btow-none m (suc i) adcs s e (omega arith)))

  -- After reset, with at most n_towers words that the calibration maps to towers, the barrel part of
  -- readFromEvpReader changes nothing: it stores no ADC value.
  pub read_barrel-reset :
      IdMap
      → (btow : List ℤ) (s : Emc fl) → length btow ≤ cal.n_towers
      → read_barrel fl cal btow (reset fl s) ≡ some (reset fl s)
  unfolding read_barrel zero_towers reset
  read_barrel-reset m btow s h = read_btow-none m 0 btow (reset fl s) refl (omega arith)
