-- ===== src/Tests.antt =====
-- Runs at concrete inputs, and the theorems applied to them.
pub mod Fixed
pub mod Rdo
pub mod Singles
pub mod Trigger
pub mod Sectors
pub mod Reader
pub mod Tof
pub mod Detector
pub mod Decider
pub mod Decisions
pub mod Emc
