-- ===== src/Mtd.antt =====
-- The muon telescope detector: HLT_MTD.
pub mod Tables
pub mod SlewEdges
pub mod SlewCorr
pub mod Types
pub mod Rdo
pub mod Singles
pub mod Config
pub mod Hits
pub mod Sectors
pub mod Qt
pub mod Trigger
pub mod Swap
pub mod Reader
