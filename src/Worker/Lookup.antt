-- ===== src/Worker/Lookup.antt =====
-- app/workflows/ingestion/job_processor.py: `SourceDocumentJobProcessor` and
-- `TenantScopedJobProcessor`.
pub mod Bound
use cire_rag.Base.{ltb, if◌then◌else◌, ℕ, ◌+◌, String, Bool, true, false, Option, none, some}
use cire_rag.Base.Text.{is_empty}
use cire_rag.Base.Value.{Fields, Python, get, dict_or_empty, or_else, text_or_empty, clean}
use cire_rag.Concurrency.{Counts, find_or, store, remove}

-- What `load_source_document` answers: the row or `None`, an exception that
-- `is_transient_supabase_transport_error` accepts, or another one.
pub data Load : Type 0 where
  loaded : Option Fields → Load
  transient_error permanent_error : Load

-- How `_load_record_with_retries` ends: `cancelled` is the `CancelledError` after the requeue.
pub data LookupResult : Type 0 where
  record_of : Option Fields → LookupResult
  raised cancelled : LookupResult

pub record Lookup : Type 0 where
  pub result : LookupResult
  pub requeues : Counts
  pub requeued : Bool

-- `requeue_ok` tells whether `requeue_job_for_retry` returns.
unfoldable pub load_record_with_retries : ℕ → String → Load → Bool → Counts → Lookup
load_record_with_retries limit job_id (loaded rec) requeue_ok counts = record {
  result = record_of rec;
  requeues = remove job_id counts;
  requeued = false;
}
load_record_with_retries limit job_id permanent_error requeue_ok counts = record {
  result = raised;
  requeues = counts;
  requeued = false;
}
load_record_with_retries limit job_id transient_error requeue_ok counts =
    let attempts = find_or 0 job_id counts + 1 in
    let noted = store job_id attempts counts in
    if ltb limit attempts
    then record { result = record_of none; requeues = remove job_id noted; requeued = false }
    else if requeue_ok
    then record { result = cancelled; requeues = noted; requeued = true }
    else record { result = raised; requeues = noted; requeued = false }

pub record Prepared : Type 0 where
  source_doc_id : String
  pub payload : Fields
  pub lookup : Lookup

module _ ⦃py : Python⦄ where
  -- `prepare_source_record`; `none` is its `ValueError`.
  unfoldable pub prepare_source_record : ℕ → Fields → Bool → Load → Bool → Counts → Option Prepared
  prepare_source_record limit job retry_on_transient load requeue_ok counts =
      let job_id = text_or_empty (get "id" job) in
      let payload = dict_or_empty (get "payload" job) in
      let source_doc_id = clean (get "source_document_id" payload) in
      let retried = load_record_with_retries limit job_id load requeue_ok counts in
      let plain : Lookup = elim load [
        | loaded rec ↦ record { result = record_of rec; requeues = counts; requeued = false }
        | _ ↦ record { result = raised; requeues = counts; requeued = false }
      ] in
      if is_empty source_doc_id
      then none
      else some (record {
        source_doc_id = source_doc_id;
        payload = payload;
        lookup = if retry_on_transient then retried else plain;
      })

  -- `prepare_tenant_job`: the job's id, its tenant and the payload.
  unfoldable pub prepare_tenant_job : Fields → Option (String × String × Fields)
  prepare_tenant_job job =
      let payload = dict_or_empty (get "payload" job) in
      let tenant_id = clean (or_else (get "tenant_id" job) (get "tenant_id" payload)) in
      if is_empty tenant_id then none else some (clean (get "id" job), tenant_id, payload)
