-- ===== src/Retrieval/Contract/MultiQuery.antt =====
-- app/workflows/retrieval/executors/multi_query.py: `MultiQueryExecutor`. Whether a sub-query runs out of
-- time, and the ratio in the trace of its result, are arguments, as the engine is.
pub mod Laws
use cire_rag.Base.{
  ltb, if◌then◌else◌, bit, length, ℕ, zero, suc, ◌+◌, ◌*◌, max, String, Bool, true, false, not,
  ◌&&◌, Option, none, some, List, [], ◌∷◌, ◌++◌, map,
}
use cire_rag.Base.Text.{is_empty, has}
use cire_rag.Base.Value.{ℤ, null, Items, Fields, Python, get, dict_or_empty}
use cire_rag.Api.LeakCanary.{Isolation, verified, verify_isolation}
use cire_rag.Retrieval.Item.{RetrievalItem, extract_row}
use cire_rag.Retrieval.Fusion.Items.{Parse}
use cire_rag.Retrieval.Fusion.Rrf.{Rounded, at_least, rrf_merge}
use cire_rag.Retrieval.Scoping.Names.{Patterns, scope_clause_key}
use cire_rag.Retrieval.Contract.{
  HybridRequest, Hybrid, answered, scope_invalid, violation, engine_failed, Tools, run_hybrid,
}

-- `SubQueryRequest`; absent filters are empty.
pub record SubQueryRequest : Type 0 where
  pub id : String
  pub query : String
  pub k : Option ℕ
  pub fetch_k : Option ℕ
  pub filters : Fields

pub record MultiQueryRequest : Type 0 where
  pub tenant_id : String
  pub collection_id : String
  pub queries : List SubQueryRequest
  pub rrf_k : ℕ
  pub top_k : ℕ

-- The settings: whether branches out of scope are dropped, and from which ratio on.
pub record Settings : Type 0 where
  pub drop_out_of_scope : Bool
  pub scope_drop_threshold : ℤ

-- `SubQueryExecution`; an empty error code is the status "ok".
pub record SubQueryExecution : Type 0 where
  pub id : String
  pub items_count : ℕ
  pub error_code : String

abbrev pub failure : String → String → SubQueryExecution
failure i code = record { id = i; items_count = 0; error_code = code }

abbrev pub is_ok : SubQueryExecution → Bool
is_ok e = is_empty e.error_code

-- How the executor ends: with items and the executions, with the error that all have failed, with a
-- violation that the leak check finds at the end, or with a merge that raises.
pub data Multi : Type 0 where
  multi_items : List RetrievalItem → List SubQueryExecution → Multi
  all_failed : List SubQueryExecution → Multi
  multi_violation : Isolation → Multi
  merge_failed : Multi

-- The time and the traces of the runs.
pub record Runs : Type 0 where
  pub times_out : SubQueryRequest → Bool
  pub ratio : SubQueryRequest → Option ℤ

unfoldable pub count_failed : List (SubQueryExecution × List RetrievalItem) → ℕ
count_failed [] = 0
count_failed ((e, items) ∷ runs) = bit (not (is_ok e)) + count_failed runs

-- `grouped_items`, without the ids, which are not read.
unfoldable pub grouped : List (SubQueryExecution × List RetrievalItem) → List (List RetrievalItem)
grouped [] = []
grouped ((e, []) ∷ runs) = grouped runs
grouped ((e, item ∷ items) ∷ runs) =
    let rest = grouped runs in if is_ok e then (item ∷ items) ∷ rest else rest

module _ ⦃py : Python⦄ ⦃re : Patterns⦄ where
  abbrev pub query_key : SubQueryRequest → String
  query_key q =
      scope_clause_key q.query (get "source_standard" q.filters)
        (dict_or_empty (get "metadata" q.filters))

  -- `deduped_queries`; `seen` are the keys passed.
  unfoldable pub deduped_queries : List String → List SubQueryRequest → List SubQueryRequest
  deduped_queries seen [] = []
  deduped_queries seen (q ∷ qs) =
      let skipped = deduped_queries seen qs in
      let kept = deduped_queries (query_key q ∷ seen) qs in
      if has (query_key q) seen then skipped else q ∷ kept

  -- `duplicate_subqueries`
  unfoldable pub duplicate_subqueries : List String → List SubQueryRequest → List SubQueryExecution
  duplicate_subqueries seen [] = []
  duplicate_subqueries seen (q ∷ qs) =
      let more = duplicate_subqueries seen qs in
      let fewer = duplicate_subqueries (query_key q ∷ seen) qs in
      if has (query_key q) seen then failure q.id "SUBQUERY_SKIPPED_DUPLICATE" ∷ more else fewer

  module _ ⦃parse : Parse⦄ (settings : Settings) (tools : Tools) (runs : Runs) where
    -- `hybrid_req`
    abbrev pub hybrid_request : MultiQueryRequest → SubQueryRequest → HybridRequest
    hybrid_request r q = record {
      query = q.query;
      tenant_id = r.tenant_id;
      collection_id = r.collection_id;
      k = elim q.k [ none ↦ r.top_k | some zero ↦ r.top_k | some (suc k) ↦ suc k ];
      fetch_k = elim q.fetch_k [
        | none ↦ max (r.top_k * 4) 40
        | some zero ↦ max (r.top_k * 4) 40
        | some (suc k) ↦ suc k
      ];
      filters = q.filters;
      retrieval_plan = null;
      skip_planner = true;
      skip_external_rerank = true;
    }

    unfoldable pub is_dropped : SubQueryRequest → Bool
    is_dropped q = elim (runs.ratio q) [
      | none ↦ false
      | some n ↦ settings.drop_out_of_scope && at_least n settings.scope_drop_threshold
    ]

    -- The end of `_run_one`, by what the hybrid runner does. A violation is like any other exception.
    unfoldable pub execution_of : SubQueryRequest → Hybrid → SubQueryExecution × List RetrievalItem
    execution_of q (answered items) =
        if is_dropped q
        then (failure q.id "SUBQUERY_OUT_OF_SCOPE", [])
        else (record { id = q.id; items_count = length items; error_code = "" }, items)
    execution_of q (scope_invalid is) = (failure q.id "SCOPE_VALIDATION_FAILED", [])
    execution_of q (violation v) = (failure q.id "SUBQUERY_FAILED", [])
    execution_of q engine_failed = (failure q.id "SUBQUERY_FAILED", [])

    unfoldable pub run_one :
        MultiQueryRequest → SubQueryRequest → SubQueryExecution × List RetrievalItem
    run_one r q =
        if runs.times_out q
        then (failure q.id "SUBQUERY_TIMEOUT", [])
        else execution_of q (run_hybrid tools (hybrid_request r q))

    abbrev pub executions : MultiQueryRequest → List (SubQueryExecution × List RetrievalItem)
    executions r = map (run_one r) (deduped_queries [] r.queries)

    -- `subqueries`
    abbrev pub subqueries : MultiQueryRequest → List SubQueryExecution
    subqueries r = duplicate_subqueries [] r.queries ++ map (λ run. run.0) (executions r)

    module _ ⦃floats : Rounded⦄ where
      -- The last leak check, on the merged items.
      unfoldable pub checked : MultiQueryRequest → Option (List RetrievalItem) → Multi
      checked r none = merge_failed
      checked r (some merged) = elim (verify_isolation r.tenant_id (map extract_row merged)) [
        | verified ↦ multi_items merged (subqueries r)
        | stop ↦ multi_violation stop
      ]

      unfoldable pub execute_queries : MultiQueryRequest → Multi
      execute_queries r = elim (grouped (executions r)) [
        | [] ↦
            if ltb (count_failed (executions r)) (length (subqueries r))
            then multi_items [] (subqueries r)
            else all_failed (subqueries r)
        | g ∷ gs ↦ checked r (rrf_merge (g ∷ gs) (max 1 r.rrf_k) (max 1 r.top_k))
      ]
