-- ===== src/Retrieval.antt =====
-- The retrieval pipeline: app/domain/retrieval and app/workflows/retrieval.
pub mod Item
pub mod Fusion
pub mod Filters
pub mod Scoping
pub mod Plan
pub mod Policies
pub mod Contract
pub mod Resolve
pub mod Planning
pub mod Broker
pub mod Grounded
mod Tests
