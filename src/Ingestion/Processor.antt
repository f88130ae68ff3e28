-- ===== src/Ingestion/Processor.antt =====
-- app/workflows/ingestion/processor.py: `DocumentProcessor.process`, with the document states of
-- app/infrastructure/state_management/state_manager.py.
-- What the calls to the repositories, the storage, the strategies and the services answer is an
-- argument; the model is what `process` does with the answers. A call that is awaited may also be
-- cancelled. An effect is an event in the order in which it happens, and a call that does not return
-- leaves none.
pub mod Runs
pub mod Laws
mod Tests
use cire_rag.Base.Value.{Value, dict, Fields, end, Python, truthy, get, has_key, text_or_empty}
use cire_rag.Base.{
  ltb, if◌then◌else◌, ℕ, String, Bool, true, false, not, ◌&&◌, Option, none, some, List, [], ◌∷◌,
  ◌++◌, ◌==◌,
}
use cire_rag.Ingestion.Batch.{resolve_tenant, resolve_is_global, resolve_storage_path}
use cire_rag.Ingestion.Policy.{
  IngestionStatus, processing, success, failed, value, should_process, tenant_isolation_holds,
}

pub data Event : Type 0 where
  -- `update_status_and_metadata`, and the other effects of a run
  status_set : IngestionStatus → Event
  logged downloaded chunks_deleted dispatched : Event
  persisted : ℕ → Event
  visual_done enrichment_enqueued raptor_done graph_done source_cleaned : Event

-- How a call ends: with a value, with an exception that `except Exception` catches, or with a
-- `CancelledError`, which it does not catch.
pub data End (A : Type 0) : Type 0 where
  gives : A → End A
  throws cancels : End A

-- A call of which only the end matters.
abbrev pub Ack : Type 0
Ack = End (Unit {0})

-- A run, with its effects.
abbrev pub Run : Type 0 → Type 0
Run A = End A × List Event

abbrev pub Done : Type 0
Done = Run (Unit {0})

abbrev pub pure : {A : Type 0} → A → Run A
pure a = (gives a, [])

infixl 5 ◌>>=◌ ◌>>◌
abbrev pub ◌>>=◌ : {A B : Type 0} → Run A → (A → Run B) → Run B
◌>>=◌ (gives a, t) f = ((f a).0, t ++ (f a).1)
◌>>=◌ (throws, t) f = (throws, t)
◌>>=◌ (cancels, t) f = (cancels, t)

abbrev pub ◌>>◌ : {B : Type 0} → Done → Run B → Run B
m >> k = m >>= λ _. k

-- A call with an effect, which it has where it returns.
abbrev pub effect : Ack → Event → Done
effect (gives u) e = (gives tt, e ∷ [])
effect throws e = (throws, [])
effect cancels e = (cancels, [])

-- `if not b: raise`
abbrev pub require : Bool → Done
require true = (gives tt, [])
require false = (throws, [])

-- `try: m finally: c`
abbrev pub finally : Done → Done → Done
finally (r, t) (gives u, w) = (r, t ++ w)
finally (r, t) (throws, w) = (throws, t ++ w)
finally (r, t) (cancels, w) = (cancels, t ++ w)

-- `try: m except Exception: h`
abbrev pub except : Done → Done → Done
except (gives a, t) h = (gives a, t)
except (throws, t) (r, u) = (r, t ++ u)
except (cancels, t) h = (cancels, t)

-- `IngestionResult`
pub record Dispatch : Type 0 where
  pub status : String
  pub chunks_count : ℕ
  pub chunks : ℕ

abbrev is_dict : Value → Bool
is_dict (dict d) = true
is_dict _ = false

-- The settings that `process` reads.
pub record Settings : Type 0 where
  pub visual_async_enabled : Bool
  pub enrichment_async_enabled : Bool

-- The answers of one run, in the order of the calls. `metadata_mapped` is not awaited, so that it can
-- only return or raise.
pub record Answers : Type 0 where
  pub start_logged : Ack
  pub start_stored : Ack
  pub downloaded : Ack
  pub metadata_mapped : Bool
  pub strategy_resolved : Ack
  pub step_logged : Ack
  pub chunks_deleted : Ack
  pub dispatch : End Dispatch
  pub persist : End ℕ
  pub visual : Ack
  pub enqueue : Ack
  pub enqueue_logged : Ack
  pub failure_logged : Ack
  pub raptor : Ack
  pub graph : Ack
  pub success_stored : Ack
  pub success_logged : Ack
  pub cleanup : Ack
  pub error_stored : Ack
  pub error_logged : Ack

-- `IngestionStateManager.start_processing`
abbrev pub start_processing : Answers → Done
start_processing a = do effect a.start_logged logged; effect a.start_stored (status_set processing)

-- `IngestionStateManager.handle_success`
abbrev pub handle_success : Answers → Done
handle_success a = do effect a.success_stored (status_set success); effect a.success_logged logged

-- `record.get("metadata", {})` is a dictionary, as the handler of an error needs it.
unfoldable pub metadata_writable : Fields → Bool
metadata_writable d = if has_key "metadata" d then is_dict (get "metadata" d) else true

-- The handler of an error: `record.get("metadata", {})` is read, and `handle_error` of
-- `IngestionStateManager` sets its status before it is stored. Both raise for `None`.
unfoldable pub handle_error : Fields → Answers → Done
handle_error d a = do
  require (metadata_writable d)
  effect a.error_stored (status_set failed)
  effect a.error_logged logged

abbrev pub answer : {A : Type 0} → End A → Run A
answer o = (o, [])

-- Phases 5 and 6: the strategy, the cleanup of old chunks, and the dispatch with its two checks.
unfoldable pub run_strategy : Answers → Run Dispatch
run_strategy a = do
  require a.metadata_mapped
  answer a.strategy_resolved
  effect a.step_logged logged
  effect a.chunks_deleted chunks_deleted
  result ← answer a.dispatch
  require (result.status == value success)
  require (ltb 0 result.chunks_count && ltb 0 result.chunks)
  (gives result, dispatched ∷ [])

-- Phase 7, up to the enrichment.
unfoldable pub persist_chunks : Settings → Answers → Run ℕ
persist_chunks s a = do
  persisted_count ← answer a.persist
  effect (gives tt) (persisted persisted_count)
  if s.visual_async_enabled then pure tt else effect a.visual visual_done
  pure persisted_count

-- The enrichment: enqueued, where a failure is only logged, or run at once.
unfoldable pub enrich : Settings → Answers → Done
enrich s a =
    if s.enrichment_async_enabled
    then except (do effect a.enqueue enrichment_enqueued; effect a.enqueue_logged logged)
        (effect a.failure_logged logged)
    else do effect a.raptor raptor_done; effect a.graph graph_done

-- The body of the inner `try`.
unfoldable pub pipeline : Settings → Answers → Done
pipeline s a = do
  result ← run_strategy a
  persisted_count ← persist_chunks s a
  enrich s a
  handle_success a

-- `record.get("metadata", {}) or {}`, of which `get` is called: `none` where that raises.
unfoldable pub meta_of : Fields → Option Fields
meta_of d = elim (get "metadata" d) [
  | dict meta ↦ some meta
  | v ↦ if truthy v then none else some end
]

module _ ⦃py : Python⦄ where
  -- The guard by the policy.
  unfoldable pub picked_up : Fields → Fields → Option Bool
  picked_up d meta =
      should_process (text_or_empty (get "status" d)) (text_or_empty (get "status" meta)) meta

  -- The body of the outer `try`, with what `resolve` reads of the record.
  unfoldable pub attempt : Settings → Fields → Answers → Done
  attempt s d a = do
    require (tenant_isolation_holds (resolve_is_global d) (text_or_empty (resolve_tenant d)))
    require (truthy (resolve_storage_path d))
    start_processing a
    effect a.downloaded downloaded
    finally (pipeline s a) (effect a.cleanup source_cleaned)

  unfoldable pub process : Settings → Fields → Answers → Done
  process s d a = elim (meta_of d) [
    | none ↦ (throws, [])
    | some meta ↦ if not (truthy (get "id" d)) then pure tt else elim (picked_up d meta) [
      | none ↦ (throws, [])
      | some false ↦ pure tt
      | some true ↦ except (attempt s d a) (handle_error d a)
    ]
  ]

-- The status that the document has after a run.
abbrev pub status_after : String → List Event → String
status_after s [] = s
status_after s (status_set t ∷ es) = status_after (value t) es
status_after s (e ∷ es) = status_after s es

abbrev pub is_persisted : Event → Bool
is_persisted (persisted n) = true
is_persisted _ = false

abbrev pub is_cleaned : Event → Bool
is_cleaned source_cleaned = true
is_cleaned _ = false

abbrev pub is_failed : Event → Bool
is_failed (status_set failed) = true
is_failed _ = false
