-- ===== src/Ingestion/Processor/Tests.antt =====
-- Runs of `process`.
use cire_rag.Base.Value.{pos, Value, null, int, str, dict, Fields, end, field, Python, get, has_key}
use cire_rag.Base.{any, String, ◌≡◌, refl, true, false}
use cire_rag.Ingestion.Policy.{
  value, should_process, is_exhausted, retry_count, tenant_isolation_holds,
}
use cire_rag.Ingestion.Processor.{
  Settings, Answers, Ack, gives, throws, cancels, picked_up, handle_error, metadata_writable,
  meta_of, is_failed, run_strategy, persist_chunks, enrich, pipeline, attempt, process,
  status_after,
}
use cire_rag.Ingestion.Processor.Laws.{null_metadata_never_fails}
use cire_rag.Ingestion.Batch.{resolve_tenant, resolve_is_global, resolve_storage_path}

abbrev settings : Settings
settings = record { visual_async_enabled = true; enrichment_async_enabled = true }

instance abbrev plain : Python
plain = record { lower = λ s. s; upper = λ s. s; show = λ v. "n" }

abbrev retried : Fields
retried = field "retry_count" (int (pos 1)) end

abbrev document_with : Value → Fields
document_with metadata = field "id" (str "d") (
    field "status" (str "queued") (
      field "institution_id" (str "acme")
        (field "storage_path" (str "p") (field "metadata" metadata end))))

abbrev document : Fields
document = document_with (dict retried)

abbrev fine : Answers
fine = record {
  start_logged = gives tt;
  start_stored = gives tt;
  downloaded = gives tt;
  metadata_mapped = true;
  strategy_resolved = gives tt;
  step_logged = gives tt;
  chunks_deleted = gives tt;
  dispatch = gives (record { status = "processed"; chunks_count = 2; chunks = 2 });
  persist = gives 2;
  visual = gives tt;
  enqueue = throws;
  enqueue_logged = gives tt;
  failure_logged = gives tt;
  raptor = gives tt;
  graph = gives tt;
  success_stored = gives tt;
  success_logged = gives tt;
  cleanup = gives tt;
  error_stored = gives tt;
  error_logged = gives tt;
}

program : Unit {0}
unfolding value should_process is_exhausted retry_count tenant_isolation_holds run_strategy
    persist_chunks enrich pipeline attempt process picked_up handle_error metadata_writable meta_of
    resolve_is_global resolve_tenant resolve_storage_path get has_key
program = tt

abbrev ends_as : Fields → Answers → Ack × String
ends_as d a = let (r, events) = process settings d a in (r, status_after "queued" events)

-- A run that succeeds, one whose chunks are not persisted, one that is cancelled, and one that fails
-- on a document with null metadata, and that raises.
runs :
    (ends_as document fine ≡ (gives tt, "processed"))
    × (ends_as document (record fine { persist = throws }) ≡ (gives tt, "failed"))
    × (ends_as document (record fine { persist = cancels }) ≡ (cancels, "processing"))
    × (ends_as (document_with null) (record fine { persist = throws }) ≡ (throws, "processing"))
unfolding program
runs = (refl, refl, refl, refl)

null_metadata_never_fails_example :
    any is_failed (process settings (document_with null) (record fine { persist = throws })).1
    ≡ false
unfolding metadata_writable get has_key
null_metadata_never_fails_example =
    null_metadata_never_fails settings (document_with null) (record fine { persist = throws }) refl
