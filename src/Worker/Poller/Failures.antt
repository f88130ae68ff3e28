-- ===== src/Worker/Poller/Failures.antt =====
-- What the poll loop makes of two failures of the ingestion handler.
use cire_rag.Base.{ℕ, ◌≡◌, ◌≢◌, Bool, true, false, some, [], ◌∷◌, arith}
use cire_rag.Base.Text.{is_empty}
use cire_rag.Base.Value.{Fields, end, field, Python, truthy, get, dict_or_empty, clean}
use cire_rag.Concurrency.{Counts}
use cire_rag.Ingestion.Processor
use cire_rag.Ingestion.Processor.{Answers, process, gives, cancels, metadata_writable, picked_up}
use cire_rag.Ingestion.Batch.{metadata_fields}
use cire_rag.Ingestion.Processor.Laws.{failure_is_swallowed}
use cire_rag.Worker.Queue
use cire_rag.Worker.Queue.{JobStatus, pending, completed, status_of}
use cire_rag.Worker.Lookup.{loaded, load_record_with_retries, prepare_source_record}
use cire_rag.Worker.Dispatch.{
  returned, update_batch_progress, run_in_slot, with_record, handle_ingestion,
}

module _ ⦃py : Python⦄ where
  -- Where the metadata of a document is missing or a dictionary, the policy does not raise on it, and
  -- the status of a failure can be stored and logged, the handler of the document's job reports a
  -- success to the document's batch, and returns a success, however the processing ends, a
  -- cancellation aside.
  pub failed_document_counts_as_done :
      (s : Processor.Settings) (a : Answers) (limit : ℕ) (job rec : Fields) (counts : Counts)
      → (picked : Bool)
      → is_empty (clean (get "source_document_id" (dict_or_empty (get "payload" job)))) ≡ false
      → truthy (get "batch_id" rec) ≡ true
      → metadata_writable rec ≡ true
      → picked_up rec (metadata_fields rec) ≡ some picked
      → a.error_stored ≡ gives tt
      → a.error_logged ≡ gives tt
      → (process s rec a).0 ≢ cancels
      → handle_ingestion limit job (loaded (some rec)) true counts false (process s rec a)
        ≡ record { outcome = returned true; batch_updates = true ∷ [] }
  unfolding handle_ingestion with_record prepare_source_record load_record_with_retries run_in_slot
      update_batch_progress get
  failed_document_counts_as_done s a limit job end counts picked named in_batch writable policy
        stored logged unstopped =
      absurd (ground arith)
  failed_document_counts_as_done s a limit job (field k v r) counts picked named in_batch writable
        policy stored logged unstopped =
      ground (
        arith,
        failure_is_swallowed s (field k v r) a picked writable policy stored logged unstopped,
      )
