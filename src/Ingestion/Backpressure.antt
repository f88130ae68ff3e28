-- ===== src/Ingestion/Backpressure.antt =====
-- app/infrastructure/observability/ingestion/backpressure.py: `IngestionBackpressureService`, over the
-- rows that `count_pending_documents` of app/infrastructure/supabase/queries/ingestion_query_service.py
-- counts. A limit of 0 is no limit, as a negative one is.
use cire_rag.Base.{
  leb, eqb, if◌then◌else◌, count, ℕ, ◌+◌, ◌*◌, ◌≤◌, ◌<◌, min, max, String, ◌≡◌, ◌↔◌, Bool, false,
  ◌&&◌, Option, none, some, List, [], ◌∷◌, arith, ◌==◌,
}
use cire_rag.Base.Text.{is_empty, has}

-- A row of `source_documents`.
pub record DocumentRow : Type 0 where
  pub institution_id : String
  pub status : String

abbrev pub pending_statuses : List String
pending_statuses = "queued" ∷ "pending" ∷ "pending_ingestion" ∷ "processing" ∷ "processing_v2" ∷ []

unfoldable pub is_pending_of : String → DocumentRow → Bool
is_pending_of tenant_id row = row.institution_id == tenant_id && has row.status pending_statuses

-- `count_pending_documents`: the query answers at most `limit` rows.
unfoldable pub count_pending_documents : String → ℕ → List DocumentRow → ℕ
count_pending_documents tenant_id limit rows = min limit (count (is_pending_of tenant_id) rows)

-- The settings, as the service reads them.
pub record Settings : Type 0 where
  pub max_pending : ℕ
  pub docs_per_minute_per_worker : ℕ
  pub worker_concurrency : ℕ

pub record Snapshot : Type 0 where
  queue_depth : ℕ
  pub max_pending : Option ℕ
  estimated_wait_seconds : ℕ

abbrev pub shown_limit : Settings → Option ℕ
shown_limit s = if eqb s.max_pending 0 then none else some s.max_pending

abbrev pub throughput : Settings → ℕ
throughput s = max 1 s.docs_per_minute_per_worker * max 1 s.worker_concurrency

-- `estimate` is `int(math.ceil((pending_count / throughput_per_minute) * 60))`, of floats.
module _ (estimate : ℕ → ℕ → ℕ) where
  unfoldable pub get_pending_snapshot : Settings → String → List DocumentRow → Snapshot
  get_pending_snapshot s tenant_id rows =
      let limit = if eqb s.max_pending 0 then 1000 else s.max_pending + 1 in
      let pending = count_pending_documents tenant_id limit rows in
      if is_empty tenant_id
      then record { queue_depth = 0; max_pending = shown_limit s; estimated_wait_seconds = 0 }
      else record {
        queue_depth = pending;
        max_pending = shown_limit s;
        estimated_wait_seconds = if eqb pending 0 then 0 else estimate pending (throughput s);
      }

  -- `enforce_limit`; `none` is the exception.
  unfoldable pub enforce_limit : Settings → String → List DocumentRow → Option Snapshot
  enforce_limit s tenant_id rows =
      let snapshot = get_pending_snapshot s tenant_id rows in
      if is_empty tenant_id then some snapshot else elim snapshot.max_pending [
        | none ↦ some snapshot
        | some limit ↦ if leb limit snapshot.queue_depth then none else some snapshot
      ]

  -- A tenant is held back exactly if a limit is set and the tenant has at least as many waiting and
  -- running documents, though no more than one over the limit are counted.
  limit_exact :
      (s : Settings) (tenant_id : String) (rows : List DocumentRow)
      → is_empty tenant_id ≡ false
      → enforce_limit s tenant_id rows ≡ none
        ↔ ((0 < s.max_pending) × (s.max_pending ≤ count (is_pending_of tenant_id) rows))
  unfolding enforce_limit get_pending_snapshot count_pending_documents
  limit_exact s tenant_id rows h = (λ e. ground arith, λ e. ground arith)
