-- ===== src/Broker.antt =====
-- cmd/dittobench-api/inference_broker.go and relay_preflight.go: the broker between a harness and
-- the platform's model proxy.
pub mod Session
pub mod Decline
pub mod Control
pub mod Table
pub mod Lanes
pub mod Lifecycle
pub mod Access
pub mod Tickets
pub mod Concurrency
pub mod Delivery
pub mod Embedding
pub mod Accounting
mod Examples
mod Scenarios
