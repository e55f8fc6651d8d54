-- ===== src/Scorer.antt =====
-- internal/scorer: how a case is scored from what the harness called and answered.
pub mod Text
pub mod Calls
pub mod Floats
pub mod Arguments
pub mod Trajectory
pub mod Case
pub mod Compose
pub mod Twins
pub mod Gate
mod Examples
