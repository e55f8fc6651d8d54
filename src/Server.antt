-- ===== src/Server.antt =====
-- cmd/dittobench-api/main.go: what the API server does around a run.
pub mod Memory
pub mod Cancel
pub mod Submit
pub mod Evidence
pub mod Environment
pub mod Job
pub mod Start
pub mod Diagnosis
mod Examples
