-- ===== src/Worker.antt =====
-- The worker: the job queue (app/infrastructure/background_jobs/job_store.py over the table of
-- supabase/migrations), the poll loop (app/infrastructure/queue/base_worker.py) and the handlers of
-- app/workflows/ingestion.
pub mod Queue
pub mod Lookup
pub mod Dispatch
pub mod Poller
pub mod Transport
mod Tests
