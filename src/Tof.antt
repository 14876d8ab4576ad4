-- ===== src/Tof.antt =====
-- The time-of-flight detector: HLT_TOF.
pub mod Types
pub mod Rdo
pub mod Pairs
pub mod Correct
