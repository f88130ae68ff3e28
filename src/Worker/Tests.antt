-- ===== src/Worker/Tests.antt =====
-- The queue, the lookups and the poll loop on small tables.
use cire_rag.Base.{
  if◌then◌else◌, ℕ, zero, suc, ◌<◌, String, ◌≡◌, refl, true, false, Option, none, some, List, [],
  ◌∷◌, arith, ◌==◌,
}
use cire_rag.Base.Text.{contains, strip}
use cire_rag.Base.Value.{str, dict, Fields, end, field, Python, get, has_key}
use cire_rag.Concurrency.{empty, find}
use cire_rag.Ingestion.Processor
use cire_rag.Ingestion.Processor.{
  Answers, gives, throws, process, attempt, picked_up, handle_error, metadata_writable, meta_of,
}
use cire_rag.Ingestion.Policy.{
  value, should_process, is_exhausted, retry_count, tenant_isolation_holds,
}
use cire_rag.Ingestion.Batch.{resolve_tenant, resolve_is_global, resolve_storage_path}
use cire_rag.Worker.Queue
use cire_rag.Worker.Queue.{
  JobStatus, pending, processing, completed, failed, Job, Store, fetch_next_job, update_where,
  requeue_stale, maybe_requeue_stale, status_of,
}
use cire_rag.Worker.Queue.Laws.{fetch, requeue, stale, apply_all, fetch_claims, finished_stays}
use cire_rag.Worker.Lookup.{loaded}
use cire_rag.Worker.Dispatch.{Outcome, returned, handle_ingestion}
use cire_rag.Worker.Poller.{arrived, Calls, process_one_job}
use cire_rag.Worker.Poller.Laws.{mark_of, round_settles}
use cire_rag.Worker.Poller.Failures.{failed_document_counts_as_done}
use cire_rag.Worker.Transport
use cire_rag.Worker.Transport.{
  Reply, answered, empty_response, thrown, with_retries, load_of, is_transient,
  is_transient_supabase_transport_error,
}
use cire_rag.Worker.Transport.Retries.{settles}

instance abbrev ascii : Python
ascii = record {
  lower = λ s. if s == "RuntimeError" then "runtimeerror" else s;
  upper = λ s. s;
  show = λ v. "";
}

abbrev job_of : String → JobStatus → Job
job_of i s = record {
  id = i;
  job_type = "ingest_document";
  status = s;
  error_message = none;
  updated_at = 10;
}

abbrev table : List Job
table = job_of "a" completed ∷ job_of "b" pending ∷ job_of "c" processing ∷ []

abbrev claimed : Job
claimed = record (job_of "b" processing) { updated_at = 20 }

fetch_claims_example :
    (status_of "b" table ≡ some pending)
    × (claimed.job_type ≡ "ingest_document")
    × (status_of "a" (fetch_next_job "ingest_document" 20 table).1
        ≡ (if "a" == "b" then some processing else status_of "a" table))
unfolding fetch_next_job
fetch_claims_example =
    fetch_claims "ingest_document" 20 table (record (job_of "b" processing) { updated_at = 20 }) "a"
      (refl, (refl, (refl, tt))) refl

finished_stays_example :
    status_of "a" (
      apply_all
        (fetch "ingest_document" 20 ∷ requeue "a" "e" ∷ stale "ingest_document" 500 30 ∷ [])
        table)
    ≡ some completed
unfolding status_of
finished_stays_example =
    finished_stays
      (fetch "ingest_document" 20 ∷ requeue "a" "e" ∷ stale "ingest_document" 500 30 ∷ []) completed
      "a" table (λ e. absurd (ground arith)) (λ e. absurd (ground arith)) refl

abbrev store_settings : Queue.Settings
store_settings = record { requeue_stale_interval = 15; requeue_stale_processing = 120 }

abbrev calls : Outcome → Calls
calls o = record {
  monotonic = 3;
  now = 20;
  requeue_stored = true;
  fetched = arrived;
  outcome = o;
  error = "boom";
  first_mark = true;
  second_mark = true;
}

abbrev start : Store
start = record { last_stale_requeue_at = empty; jobs = table }

round_settles_example :
    status_of "b"
      (process_one_job store_settings "ingest_document" (calls (returned false)) start).1.jobs
    ≡ (if "b" == "b"
        then some (mark_of (returned false))
        else status_of "b"
            (maybe_requeue_stale store_settings "ingest_document" 3 20 true start).jobs)
unfolding fetch_next_job maybe_requeue_stale find
round_settles_example =
    round_settles store_settings "ingest_document" (calls (returned false)) start claimed "b"
      (refl, (refl, (refl, tt))) refl refl refl refl

abbrev job : Fields
job = field "id" (str "b") (field "payload" (dict (field "source_document_id" (str "d") end)) end)

-- The download fails.
abbrev failing : Answers
failing = record {
  start_logged = gives tt;
  start_stored = gives tt;
  downloaded = throws;
  metadata_mapped = true;
  strategy_resolved = gives tt;
  step_logged = gives tt;
  chunks_deleted = gives tt;
  dispatch = gives (record { status = "processed"; chunks_count = 2; chunks = 2 });
  persist = gives 2;
  visual = gives tt;
  enqueue = throws;
  enqueue_logged = gives tt;
  failure_logged = gives tt;
  raptor = gives tt;
  graph = gives tt;
  success_stored = gives tt;
  success_logged = gives tt;
  cleanup = gives tt;
  error_stored = gives tt;
  error_logged = gives tt;
}

abbrev source_document : Fields
source_document = field "id" (str "d") (
    field "batch_id" (str "x") (
      field "status" (str "queued")
        (field "institution_id" (str "acme") (field "storage_path" (str "p") end))))

abbrev processor_settings : Processor.Settings
processor_settings = record { visual_async_enabled = true; enrichment_async_enabled = true }

failing_run : (process processor_settings source_document failing).0 ≡ gives tt
unfolding value should_process is_exhausted retry_count tenant_isolation_holds attempt process
    picked_up handle_error metadata_writable meta_of resolve_is_global resolve_tenant
    resolve_storage_path get has_key
failing_run = refl

failed_document_counts_as_done_example :
    handle_ingestion 3 job
      (loaded (some source_document))
      true
      empty
      false
      (process processor_settings source_document failing)
    ≡ record { outcome = returned true; batch_updates = true ∷ [] }
unfolding get has_key strip metadata_writable picked_up should_process is_exhausted retry_count
failed_document_counts_as_done_example =
    failed_document_counts_as_done processor_settings failing 3 job source_document empty true refl
      refl refl refl refl refl (λ e. ground (arith, e, failing_run))

abbrev retry_settings : Transport.Settings
retry_settings = record { transient_max_retries = 3; transient_base_delay = 400 }

abbrev then_answered : ℕ → Reply (Option Fields)
then_answered zero = thrown "ReadError" "503"
then_answered (suc k) = answered (some source_document)

first_retried : (k : ℕ) → k < 1 → settles (then_answered k) ≡ false
unfolding is_transient is_transient_supabase_transport_error contains
first_retried zero h = refl
first_retried (suc k) h = absurd (omega arith)

abbrev no_answer : ℕ → Reply (Option Fields)
no_answer k = empty_response
