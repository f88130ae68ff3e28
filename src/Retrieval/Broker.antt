-- ===== src/Retrieval/Broker.antt =====
-- app/workflows/retrieval/retrieval_broker.py: `RetrievalBroker`, and `RetrievalTools.retrieve` of
-- app/ai/tools/retrieval.py, which calls it. The engine, the strategies and the embedding are
-- arguments: a call answers rows, or raises. Traces and metrics are left out.
mod Tests
pub mod Every
pub mod Keeps
pub mod Layers
pub mod Laws
pub mod Marks
pub mod Strict
pub mod Options
pub mod Rerank
use cire_rag.Base.{
  if◌then◌else◌, take, ℕ, String, Bool, true, false, ◌||◌, Option, none, some, List, [], ◌∷◌, ◌==◌,
}
use cire_rag.Base.Text.{is_empty, strip}
use cire_rag.Base.Value.{
  Value, null, dict, Items, Fields, end, field, Python, truthy, get, put, pop, clean,
}
use cire_rag.Retrieval.Scoping.Names.{Patterns}
use cire_rag.Retrieval.Scoping.Penalty.{Penalty, get_or}
use cire_rag.Retrieval.Scoping.SubQuery.{Search}
use cire_rag.Retrieval.Fusion.Items.{Parse}
use cire_rag.Retrieval.Planning.{Digits, QueryPlan, coerce_query_plan}
use cire_rag.Retrieval.Resolve.{resolve_retrieval_filters}
use cire_rag.Retrieval.Broker.Rerank.{Boost, Rerankers, RerankSettings, apply_reranking}

-- `_engine_mode`
unfoldable pub engine_mode : ⦃py : Python⦄ → String → String
engine_mode ⦃py⦄ mode =
    let m = py.lower (strip (if is_empty mode then "hybrid" else mode)) in
    if m == "atomic" then "atomic" else "hybrid"

-- The engine and the strategies, with the query, the filters, `k` and `fetch_k`, and the embedding,
-- which answers whether there is a vector.
pub record Engines : Type 0 where
  pub retrieve_context : String → Fields → ℕ → ℕ → Option (List Fields)
  pub retrieve_context_from_plan : String → QueryPlan → Fields → ℕ → ℕ → Option (List Fields)
  pub embed_text : String → Option Bool
  pub direct_strategy : String → Fields → ℕ → ℕ → Option (List Fields)
  pub iterative_strategy : String → Fields → ℕ → ℕ → Option (List Fields)

-- `{k: v for k, v in nested.items() if k not in {"clause_id", "clause_refs"}}`
unfoldable pub without_clauses : Fields → Fields
without_clauses end = end
without_clauses (field k v d) =
    let rest = without_clauses d in
    if k == "clause_id" || k == "clause_refs" then rest else field k v rest

-- `fallback_filters`
unfoldable pub fallback_filters : Fields → Fields
fallback_filters filters =
    let bare = pop "metadata" filters in
    elim (get_or "filters" (dict end) bare) [
      | dict nested ↦
          if truthy (dict (without_clauses nested))
          then put "filters" (dict (without_clauses nested)) bare
          else pop "filters" bare
      | _ ↦ bare
    ]

abbrev pub plan_or_default : Option QueryPlan → QueryPlan
plan_or_default (some plan) = plan
plan_or_default none = record {
  is_multihop = false;
  execution_mode = "parallel";
  sub_queries = [];
  fallback_reason = none;
}

module _ (engines : Engines) where
  -- A strategy behind the embedding of the query.
  abbrev pub with_vector : String → Option (List Fields) → Option (List Fields)
  with_vector query answer = elim (engines.embed_text query) [
    | none ↦ none
    | some false ↦ some []
    | some true ↦ answer
  ]

  -- The call of the engine, with or without the plan.
  abbrev pub engine_answer : QueryPlan → String → Fields → ℕ → Option (List Fields)
  engine_answer plan query filters fetch_k =
      if plan.is_multihop
      then engines.retrieve_context_from_plan query plan filters fetch_k fetch_k
      else engines.retrieve_context query filters fetch_k fetch_k

  -- In the mode "hybrid" an error of the engine is no rows.
  unfoldable pub engine_rows : String → QueryPlan → String → Fields → ℕ → Option (List Fields)
  engine_rows mode plan query filters fetch_k = elim (engine_answer plan query filters fetch_k) [
    | some rows ↦ some rows
    | none ↦ if mode == "atomic" then none else some []
  ]

  unfoldable pub direct_fallback :
      String → String → Fields → ℕ → ℕ → List Fields → Option (List Fields)
  direct_fallback mode query filters k fetch_k (row ∷ rows) = some (row ∷ rows)
  direct_fallback mode query filters k fetch_k [] =
      if mode == "hybrid"
      then with_vector query (engines.direct_strategy query filters k fetch_k)
      else some []

  unfoldable pub execute_iterative_strategy : String → Fields → ℕ → ℕ → Option (List Fields)
  execute_iterative_strategy query filters k fetch_k =
      with_vector query (engines.iterative_strategy query filters k fetch_k)

module _ ⦃py : Python⦄ (engines : Engines) where
  -- The last fallback; metadata that is no dictionary raises.
  unfoldable pub clause_fallback : String → Fields → ℕ → ℕ → List Fields → Option (List Fields)
  clause_fallback query filters k fetch_k (row ∷ rows) = some (row ∷ rows)
  clause_fallback query filters k fetch_k [] = elim (get_or "metadata" (dict end) filters) [
    | dict metadata ↦
        if is_empty (clean (get "clause_id" metadata))
        then some []
        else engines.retrieve_context query (fallback_filters filters) k fetch_k
    | _ ↦ none
  ]

  -- `_execute_atomic_strategy`
  unfoldable pub execute_atomic_strategy :
      String → QueryPlan → String → Fields → ℕ → ℕ → Option (List Fields)
  execute_atomic_strategy mode plan query filters k fetch_k =
      elim (engine_rows engines mode plan query filters fetch_k) [
        | none ↦ none
        | some rows ↦ elim (direct_fallback engines mode query filters k fetch_k rows) [
          | none ↦ none
          | some found ↦ clause_fallback query filters k fetch_k found
        ]
      ]

-- The arguments of `retrieve` that are numbers and switches, and `retrieval_plan`.
pub record Call : Type 0 where
  pub k : ℕ
  pub fetch_k : ℕ
  pub enable_reranking : Bool
  pub iterative : Bool
  pub retrieval_plan : Value

module _ ⦃py : Python⦄ ⦃re : Patterns⦄ ⦃search : Search⦄ ⦃digits : Digits⦄ ⦃parse : Parse⦄
    ⦃penalty : Penalty⦄ ⦃boost : Boost⦄ (mode : String) (settings : RerankSettings)
    (engines : Engines) (rerankers : Rerankers) where
  -- The rows of the strategy.
  unfoldable pub raw_results : String → Fields → Call → Option (List Fields)
  raw_results query filters call =
      if call.iterative
      then execute_iterative_strategy engines query filters call.k call.fetch_k
      else execute_atomic_strategy engines (engine_mode mode)
          (plan_or_default (coerce_query_plan call.retrieval_plan)) query filters call.k
          call.fetch_k

  -- What follows the strategy.
  unfoldable pub rank_phase : String → Fields → Call → List Fields → List Fields
  rank_phase query filters call [] = []
  rank_phase query filters call (row ∷ rows) =
      if call.enable_reranking
      then apply_reranking settings rerankers query (row ∷ rows) filters call.k
      else take call.k (row ∷ rows)

  -- `retrieve`; `query_filters` are those that `enrich_metadata` finds in the query.
  unfoldable pub retrieve : Fields → String → Fields → Call → Option (List Fields)
  retrieve query_filters query scope_context call =
      if is_empty query
      then some []
      else elim (resolve_retrieval_filters query_filters query scope_context) [
        | none ↦ none
        | some filters ↦ elim (raw_results query filters call) [
          | none ↦ none
          | some rows ↦ some (rank_phase query filters call rows)
        ]
      ]

  -- `RetrievalTools.retrieve`: no plan is handed on.
  unfoldable pub tools_retrieve : Fields → String → Fields → ℕ → ℕ → Bool → Option (List Fields)
  tools_retrieve query_filters query scope_context k fetch_k enable_reranking =
      retrieve query_filters query scope_context (record {
        k = k;
        fetch_k = fetch_k;
        enable_reranking = enable_reranking;
        iterative = false;
        retrieval_plan = null;
      })
