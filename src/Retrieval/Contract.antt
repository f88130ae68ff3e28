-- ===== src/Retrieval/Contract.antt =====
-- app/workflows/retrieval/contract_manager.py (`run_hybrid`, `run_comprehensive`) and
-- app/workflows/retrieval/executors/late_fusion.py. The engine that is called is an argument: a call
-- answers rows, or raises. Traces and warnings are left out.
pub mod Safety
pub mod MultiQuery
mod Tests
use cire_rag.Base.{
  if◌then◌else◌, ℕ, max, String, Bool, true, false, Option, none, some, List, [], ◌∷◌, map,
}
use cire_rag.Base.Text.{is_empty}
use cire_rag.Base.Value.{
  ℤ, Value, null, bool, str, dict, Items, nil, cons, Fields, Python, truthy, get, put, to_text,
}
use cire_rag.Api.LeakCanary.{
  Isolation, verified, missing_tenant, missing_ownership, data_leak, attribute_error,
  verify_isolation,
}
use cire_rag.Retrieval.Item.{RetrievalItem}
use cire_rag.Retrieval.Filters.{ScopeIssue, validate_retrieval_filters}
use cire_rag.Retrieval.Scoping.{build_scope_context}
use cire_rag.Retrieval.Fusion.{fuse_late_results}
use cire_rag.Retrieval.Fusion.Items.{Parse, to_retrieval_items}
use cire_rag.Retrieval.Fusion.Policy.{apply_retrieval_policy_to_items}
use cire_rag.Retrieval.Policies.{apply_search_hints}
use cire_rag.Retrieval.Policies.Noise.{NoisePatterns}

-- `HybridRetrievalRequest` and the two options of `run_hybrid`; an absent collection is empty, an
-- absent plan is `null`.
pub record HybridRequest : Type 0 where
  pub query : String
  pub tenant_id : String
  pub collection_id : String
  pub k : ℕ
  pub fetch_k : ℕ
  pub filters : Fields
  pub retrieval_plan : Value
  pub skip_planner : Bool
  pub skip_external_rerank : Bool

-- How `run_hybrid` ends: with items, with a refused request, with a violation that the leak check
-- found, or with an error of the engine.
pub data Hybrid : Type 0 where
  answered : List RetrievalItem → Hybrid
  scope_invalid : List ScopeIssue → Hybrid
  violation : Isolation → Hybrid
  engine_failed : Hybrid

-- `retrieval_tools`: `retrieve` with the query, the context, `k` and `fetch_k`, `retrieve_graph_nodes`,
-- `retrieve_summaries` and `resolve_summaries_to_chunks`.
pub record Tools : Type 0 where
  pub retrieve : String → Fields → ℕ → ℕ → Option (List Fields)
  pub retrieve_graph_nodes : String → Option (List Fields)
  pub retrieve_summaries : String → Option (List Fields)
  pub resolve_summaries_to_chunks : List String → Option (List Fields)

-- Rows as the values of a list.
abbrev pub as_items : List Fields → Items
as_items [] = nil
as_items (row ∷ rows) = cons (dict row) (as_items rows)

-- The exceptions that are a `SecurityViolationError`.
abbrev pub is_security : Isolation → Bool
is_security missing_tenant = true
is_security missing_ownership = true
is_security data_leak = true
is_security _ = false

-- `scope_context` with the plan and the options.
unfoldable pub hybrid_context : HybridRequest → Fields → Fields
hybrid_context r normalized =
    let base = build_scope_context r.tenant_id r.collection_id normalized in
    let planned : Fields = elim r.retrieval_plan [
      | null ↦ base
      | plan ↦ put "retrieval_plan" plan base
    ] in
    let unplanned = if r.skip_planner then put "_skip_planner" (bool true) planned else planned in
    if r.skip_external_rerank then put "_skip_external_rerank" (bool true) unplanned else unplanned

-- `item.metadata[key] = text`
abbrev pub tag_item : String → String → RetrievalItem → RetrievalItem
tag_item key text item = record item { metadata = put key (str text) item.metadata }

abbrev pub tag : String → String → List RetrievalItem → List RetrievalItem
tag key text items = map (tag_item key text) items

-- `[str(s.get("id")) for s in raw_summaries if s.get("id")]`
unfoldable pub summary_ids : ⦃py : Python⦄ → List Fields → List String
summary_ids [] = []
summary_ids (row ∷ rows) =
    let rest = summary_ids rows in
    if truthy (get "id" row) then to_text (get "id" row) ∷ rest else rest

-- `retrieval_policy`: the minimal score, the hints, and the switch of noise reduction.
pub record Policy : Type 0 where
  pub min_score : Option ℤ
  pub search_hints : Items
  pub noise_reduction : Bool

-- The chunks, or the violation that is not swallowed.
pub data Chunks : Type 0 where
  chunk_items : List RetrievalItem → Chunks
  unsafe : Isolation → Chunks

module _ ⦃py : Python⦄ ⦃parse : Parse⦄ (tools : Tools) where
  -- The end of `run_hybrid`, on the rows of the engine.
  unfoldable pub verify_rows : String → Option (List Fields) → Hybrid
  verify_rows tenant none = engine_failed
  verify_rows tenant (some rows) = elim (verify_isolation tenant rows) [
    | verified ↦ answered (to_retrieval_items (as_items rows))
    | stop ↦ violation stop
  ]

  unfoldable pub run_hybrid : HybridRequest → Hybrid
  run_hybrid r =
      let (normalized, issues) = validate_retrieval_filters r.filters in
      elim issues [
        | [] ↦
            verify_rows r.tenant_id
              (tools.retrieve r.query (hybrid_context r normalized) (max 1 r.k) (max 1 r.fetch_k))
        | i ∷ is ↦ scope_invalid (i ∷ is)
      ]

  unfoldable pub pipeline_chunks : HybridRequest → Chunks
  pipeline_chunks r = elim (run_hybrid r) [
    | answered items ↦ chunk_items (tag "fusion_source" "chunks" items)
    | violation v ↦ if is_security v then unsafe v else chunk_items []
    | _ ↦ chunk_items []
  ]

  unfoldable pub pipeline_graph : String → List RetrievalItem
  pipeline_graph query = elim (tools.retrieve_graph_nodes query) [
    | none ↦ []
    | some rows ↦ tag "fusion_source" "graph" (to_retrieval_items (as_items rows))
  ]

  unfoldable pub pipeline_raptor : String → List RetrievalItem
  pipeline_raptor query = elim (tools.retrieve_summaries query) [
    | none ↦ []
    | some [] ↦ []
    | some (row ∷ rows) ↦ elim (tools.resolve_summaries_to_chunks (summary_ids (row ∷ rows))) [
      | none ↦ []
      | some chunks ↦ tag "raptor_reasoning" "RAPTOR Cluster Expansion" (
          tag "retrieved_via" "raptor"
            (tag "fusion_source" "raptor" (to_retrieval_items (as_items chunks))))
    ]
  ]

  -- `LateFusionExecutor.execute`, for the request with its expanded query.
  unfoldable pub execute : HybridRequest → Chunks
  execute r = elim (pipeline_chunks r) [
    | unsafe v ↦ unsafe v
    | chunk_items chunks ↦
        chunk_items
          (fuse_late_results chunks (pipeline_graph r.query) (pipeline_raptor r.query) r.k)
  ]

  -- The request that the executor runs: `query or request.query`, without the options.
  unfoldable pub expanded_request : Policy → HybridRequest → HybridRequest
  expanded_request policy r =
      let expanded = (apply_search_hints r.query policy.search_hints).0 in
      record r {
        query = if is_empty expanded then r.query else expanded;
        skip_planner = false;
        skip_external_rerank = false;
      }

  unfoldable pub run_comprehensive : ⦃noise : NoisePatterns⦄ → Policy → HybridRequest → Chunks
  run_comprehensive policy r = elim (execute (expanded_request policy r)) [
    | unsafe v ↦ unsafe v
    | chunk_items merged ↦
        chunk_items (apply_retrieval_policy_to_items merged policy.min_score policy.noise_reduction)
  ]
