-- ===== src/Ingestion.antt =====
-- The ingestion of documents: app/domain/ingestion, app/workflows/ingestion and the services of
-- app/infrastructure that they use.
pub mod Policy
pub mod Processor
pub mod Batch
pub mod Backpressure
pub mod Chunking
mod Tests
