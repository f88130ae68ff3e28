-- ===== src/Worker/Dispatch.antt =====
-- app/workflows/ingestion/job_dispatcher.py: `WorkerJobDispatcher`.
use cire_rag.Base.{if◌then◌else◌, ℕ, Bool, true, false, Option, none, some, List, [], ◌∷◌}
use cire_rag.Base.Value.{dict, Fields, Python, truthy, get}
use cire_rag.Concurrency.{Counts}
use cire_rag.Ingestion.Processor.{Done, End, gives, throws, cancels}
use cire_rag.Worker.Lookup.{record_of, raised, cancelled, Load, Prepared, prepare_source_record}

-- How a handler ends: the `ok` of the dictionary that it returns, an exception, the `CancelledError`
-- of a requeued lookup, or one that comes while the document is processed.
pub data Outcome : Type 0 where
  returned : Bool → Outcome
  failed : Outcome
  stopped : Outcome
  interrupted : Outcome

-- What a handler did: its end, and the calls of the database's `update_batch_progress`.
pub record Handled : Type 0 where
  pub outcome : Outcome
  pub batch_updates : List Bool

abbrev pub just : Outcome → Handled
just o = record { outcome = o; batch_updates = [] }

-- `update_batch_progress`: without a batch nothing is sent; an exception in it is only logged.
unfoldable pub update_batch_progress : Fields → Bool → List Bool
update_batch_progress rec success = if truthy (get "batch_id" rec) then success ∷ [] else []

-- The body of the slot, by the end of `processor.process`; `except Exception` does not catch a
-- cancellation.
unfoldable pub run_in_slot : Fields → Done → Handled
run_in_slot rec (gives _, events) = record {
  outcome = returned true;
  batch_updates = update_batch_progress rec true;
}
run_in_slot rec (throws, events) = record {
  outcome = failed;
  batch_updates = update_batch_progress rec false;
}
run_in_slot rec (cancels, events) = just interrupted

-- The handler with the source record looked up, or the exception of the lookup. `none` is the
-- `ValueError` of `prepare_source_record`, and `k` the rest of the handler.
unfoldable pub with_record : Option Prepared → (Fields → Handled) → Handled
with_record none k = just failed
with_record (some p) k = elim p.lookup.result [
  | record_of (some rec) ↦ if truthy (dict rec) then k rec else just (returned false)
  | record_of none ↦ just (returned false)
  | raised ↦ just failed
  | cancelled ↦ just stopped
]

module _ ⦃py : Python⦄ where
  -- `slot_taken` tells whether another task holds the document (`AlreadyProcessingError`), and
  -- `processed` how `processor.process` ends.
  unfoldable pub handle_ingestion : ℕ → Fields → Load → Bool → Counts → Bool → Done → Handled
  handle_ingestion limit job load requeue_ok counts slot_taken processed =
      with_record (prepare_source_record limit job true load requeue_ok counts)
        (λ rec. if slot_taken then just (returned false) else run_in_slot rec processed)

  -- `enriched` is how `run_deferred_enrichment` ends: with the `ok` of its dictionary where it returns.
  unfoldable pub handle_enrichment : ℕ → Fields → Load → Counts → End Bool → Handled
  handle_enrichment limit job load counts enriched =
      with_record (prepare_source_record limit job false load true counts) (λ rec. elim enriched [
        | gives ok ↦ just (returned ok)
        | throws ↦ just failed
        | cancels ↦ just interrupted
      ])
