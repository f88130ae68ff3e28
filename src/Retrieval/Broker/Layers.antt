-- ===== src/Retrieval/Broker/Layers.antt =====
-- app/workflows/retrieval/retrieval_broker.py: the layers besides the chunks, that is the summaries,
-- the chunks behind them and the nodes of the graph, with `_stamp_results`. Their errors are
-- swallowed; the repository and the graph are arguments.
use cire_rag.Base.{
  if◌then◌else◌, take, ℕ, ◌*◌, String, Bool, true, false, ◌||◌, Option, none, some, List, [], ◌∷◌,
  map,
}
use cire_rag.Base.Text.{is_empty}
use cire_rag.Base.Value.{
  ℤ, pos, Value, bool, real, str, dict, Fields, get, has_key, put, dict_or_empty, or_else,
}
use cire_rag.Api.LeakCanary.{stamp_tenant_context}
use cire_rag.Retrieval.Broker.{Engines, with_vector}
use cire_rag.Retrieval.Broker.Rerank.{sort_scored}

-- `metadata.setdefault(key, v)` on the metadata of a stamped row
abbrev pub set_default : String → Value → Fields → Fields
set_default key v row =
    let metadata = dict_or_empty (get "metadata" row) in
    if has_key key metadata then row else put "metadata" (dict (put key v metadata)) row

-- `_stamp_results`, for rows that are dictionaries.
unfoldable pub stamp_results : List Fields → String → String → Bool → List Fields
stamp_results rows tenant_id source_layer is_raptor =
    if is_empty tenant_id
    then rows
    else let stamped = stamp_tenant_context tenant_id rows in
      let layered =
        if is_empty source_layer
        then stamped
        else map (set_default "source_layer" (str source_layer)) stamped in
      if is_raptor then map (set_default "is_raptor_summary" (bool true)) layered else layered

-- The end of a call that swallows errors: the rows stamped, or none.
abbrev pub stamped_or_none : Option (List Fields) → String → String → Bool → List Fields
stamped_or_none none tenant_id source_layer is_raptor = []
stamped_or_none (some rows) tenant_id source_layer is_raptor =
    stamp_results rows tenant_id source_layer is_raptor

-- `retrieve_summaries`, for a repository that answers or raises.
unfoldable pub retrieve_summaries : Engines → Option (List Fields) → String → String → List Fields
retrieve_summaries engines matches query tenant_id =
    if is_empty query || is_empty tenant_id
    then []
    else stamped_or_none (with_vector engines query matches) tenant_id "" true

-- `resolve_summaries_to_chunks`: the ids that the repository resolves, and the chunks with them.
unfoldable pub resolve_summaries_to_chunks :
    (List String → Option (List String))
    → (List String → Option (List Fields))
    → List String
    → String
    → List Fields
resolve_summaries_to_chunks resolve fetch [] tenant_id = []
resolve_summaries_to_chunks resolve fetch (i ∷ is) tenant_id = elim (resolve (i ∷ is)) [
  | none ↦ []
  | some [] ↦ []
  | some (c ∷ cs) ↦ stamped_or_none (fetch (c ∷ cs)) tenant_id "" false
]

-- The rows with `float(x.get("score") or 0.0)`, which raises for `none`.
unfoldable pub score_rows : (Value → Option ℤ) → List Fields → Option (List (ℤ × Fields))
score_rows float_of [] = some []
score_rows float_of (row ∷ rows) = elim (float_of (or_else (get "score" row) (real (pos 0)))) [
  | none ↦ none
  | some n ↦ elim (score_rows float_of rows) [ none ↦ none | some rest ↦ some ((n, row) ∷ rest) ]
]

-- The best `k` rows.
unfoldable pub best_rows : (Value → Option ℤ) → ℕ → List Fields → List Fields
best_rows float_of k rows = elim (score_rows float_of rows) [
  | none ↦ []
  | some scored ↦ take k (map (λ (x : ℤ × Fields). x.1) (sort_scored scored))
]

-- `retrieve_graph_nodes`: `hop` answers the rows that `_graph_hop` finds for `fetch_k`, or raises.
unfoldable pub retrieve_graph_nodes :
    Engines → (Value → Option ℤ) → (ℕ → Option (List Fields)) → String → String → ℕ → List Fields
retrieve_graph_nodes engines float_of hop query tenant_id k =
    if is_empty query || is_empty tenant_id
    then []
    else best_rows float_of k
        (stamped_or_none (with_vector engines query (hop (k * 2))) tenant_id "graph" false)
