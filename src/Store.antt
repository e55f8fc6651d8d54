-- ===== src/Store.antt =====
-- internal/store/store.go: the in-memory store of evaluation jobs. The record and the store stand
-- in Store/Job.antt, the methods in Store/Methods.antt; the other children prove their laws.
pub mod Job
pub mod Methods
pub mod Isolation
pub mod Terminal
pub mod Pause
mod Examples
