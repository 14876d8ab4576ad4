-- ===== src/Decider.antt =====
-- The trigger decisions of the event: L4_HLT/gl3TriggerDecider.cxx, and the loop of
-- L4_HLT/L4HLTTask_cpu.cxx that runs them.
pub mod Types
pub mod Cuts
pub mod RunControl
pub mod State
pub mod Loops
pub mod Match
pub mod Simple
pub mod Tracks
pub mod Muons
pub mod Electrons
pub mod DiElectron
pub mod TwoTower
pub mod Upc
pub mod HighTowers
pub mod Run
pub mod Settled
pub mod Gathered
