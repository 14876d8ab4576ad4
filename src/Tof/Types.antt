-- ===== src/Tof/Types.antt =====
-- The members of tof_hlt_sector, in HLT_TOF/tof_hlt_sector.h.
use star_hlt_tofmtd.Prelude.{ℕ, Option, none, some, ltb, if◌then◌else◌}
use star_hlt_tofmtd.Prelude.Int.{ℤ, pos, negsuc}
use star_hlt_tofmtd.Floats.{Floats}

module _ (fl : Floats) where
  open fl use {Double, Float}

  -- The arrays that readparameters fills from its files, and the indices that they may be read at.
  pub record Calibration : Type 0 where
    -- mTdigOnTray[120][8], mTdigOnWestVpd[8], mTdigOnEastVpd[8]
    pub tdig_on_tray : ℕ → ℕ → ℤ
    pub tdig_on_west_vpd : ℕ → ℤ
    pub tdig_on_east_vpd : ℕ → ℤ
    -- mBoardId2Index[4800], mINLCorr[1200][24][1024]
    pub board_id_2_index : ℕ → ℤ
    pub inl_corr : ℕ → ℕ → ℕ → ℤ
    -- upvpdLEchan[38], upvpdTEchan[38], mVpdDelay[38]
    pub upvpd_le_chan : ℕ → ℤ
    pub upvpd_te_chan : ℕ → ℤ
    pub vpd_delay : ℕ → Double
    -- cutlow[122], cuthi[122]
    pub cutlow : ℕ → Double
    pub cuthi : ℕ → Double
    -- mTDIG2MRPCChan[192]
    pub tdig_2_mrpc_chan : ℕ → ℤ

  pub record TofRawHit : Type 0 where
    pub fiberid : ℕ
    pub trayid : ℕ
    pub globaltdcchan : ℕ
    pub tdc : Float
    pub triggertime : Float

  -- TofCell.
  pub record TofCell : Type 0 where
    pub trayid : ℕ
    pub channel : ℤ
    pub triggertime : Float
    pub tdc : Float
    pub tot : Float
    pub tof : Float

-- A read of an array of `size` entries; `none` is a read outside it, which the code does not check for.
abbrev pub read_at : {A : Type 0} → ℕ → (ℕ → A) → ℕ → Option A
read_at size f i = if ltb i size then some (f i) else none

-- The same at a signed index.
abbrev pub read_at_ℤ : {A : Type 0} → ℕ → (ℕ → A) → ℤ → Option A
read_at_ℤ size f (pos i) = read_at size f i
read_at_ℤ size f (negsuc i) = none
