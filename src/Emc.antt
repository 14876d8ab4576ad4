-- ===== src/Emc.antt =====
-- The barrel calorimeter of L4_HLT: gl3EMC.cxx, gl3EMC.h and the look-ups of l3EmcCalibration.h.
pub mod Types
pub mod Read
pub mod Seeds
