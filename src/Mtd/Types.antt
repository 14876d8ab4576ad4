-- ===== src/Mtd/Types.antt =====
-- The hits of HLT_MTD/mtd_defs.h and what an RDO scan of mtd_hlt_reader keeps.
use star_hlt_tofmtd.Prelude.{ℕ, List, Option}
use star_hlt_tofmtd.Prelude.Int.{ℤ}

-- MtdRawHit. `globaltdcchan` is a signed char.
pub record RawHit : Type 0 where
  pub tdc : ℕ
  pub fiberid : ℕ
  pub backleg : ℕ
  pub globaltdcchan : ℤ

-- MtdSingleHit.
pub record SingleHit : Type 0 where
  pub fiber_id : ℕ
  pub backleg : ℕ
  pub tray : ℕ
  pub channel : ℕ
  pub leading_edge_time : List ℕ
  pub trailing_edge_time : List ℕ

-- The local variables `halfbackleg` and `backleg` of read_rdo_event, which are set together.
pub record Geo : Type 0 where
  pub half : ℕ
  pub backleg : ℕ

-- What a scan of an RDO's words changes. `none` stands for the initial -99 of both geo variables.
pub record Scan : Type 0 where
  pub geo : Option Geo
  pub trigger_time : List ℕ
  pub leading : List RawHit
  pub trailing : List RawHit
