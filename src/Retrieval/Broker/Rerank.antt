-- ===== src/Retrieval/Broker/Rerank.antt =====
-- app/workflows/retrieval/retrieval_broker.py: `_apply_reranking` with `_execute_gravity_rerank` and
-- `_execute_external_rerank`. The rerankers are arguments, and so is the one product of floats.

use cire_rag.Base.{
  eqb, if◌then◌else◌, length, get_elem?, take, keep, ℕ, suc, min, max, String, Bool, true, false,
  not, ◌&&◌, ◌||◌, Option, none, some, List, [], ◌∷◌, ◌++◌, map, ◌==◌,
}
use cire_rag.Base.Text.{is_empty, strip}
use cire_rag.Base.Value.{
  ℤ, pos, negsuc, Value, real, str, dict, Fields, end, Python, truthy, get, put, update,
  dict_or_empty, or_else, to_text, text_or_empty,
}
use cire_rag.Retrieval.Scoping.{requested_scopes_from_context}
use cire_rag.Retrieval.Scoping.Names.{Patterns}
use cire_rag.Retrieval.Scoping.Penalty.{Penalty, get_or, apply_scope_penalty}
use cire_rag.Retrieval.Fusion.Items.{Parse, safe_float}
use cire_rag.Retrieval.Fusion.Rrf.{at_least}
use cire_rag.Retrieval.Fusion.Stratify.{stratify_results}

-- `RAGSearchResult`, as the reranker gets and answers it.
pub record Candidate : Type 0 where
  pub id : String
  pub content : Value
  pub metadata : Value
  pub similarity : ℤ
  pub score : ℤ
  pub source_id : Value

-- A row of a semantic reranker's answer; the index is `none` where it is missing.
pub record RerankRow : Type 0 where
  pub index : Option ℤ
  pub relevance_score : Value

-- The rerankers: the authority reranker with the role and the candidates, which raises for invalid
-- ones, and the semantic ones with the query, the documents and `top_n`.
pub record Rerankers : Type 0 where
  pub gravity : Value → List Candidate → Option (List Candidate)
  pub jina_enabled : Bool
  pub jina : String → List String → ℕ → Option (List RerankRow)
  pub cohere_enabled : Bool
  pub cohere : String → List String → ℕ → Option (List RerankRow)

-- The settings `RERANK_MODE`, `SCOPE_STRICT_FILTERING` and `RERANK_MAX_CANDIDATES`.
pub record RerankSettings : Type 0 where
  pub rerank_mode : String
  pub strict_filtering : Bool
  pub max_candidates : ℕ

-- `float`, which raises for `none`, the float 1, and `max(score, 0.3) * boost`.
pub record Boost : Type 0 where
  pub boost_of : Value → Option ℤ
  pub one : ℤ
  pub lifted : ℤ → ℤ → ℤ

-- `_rerank_mode`
unfoldable pub rerank_mode : ⦃py : Python⦄ → String → String
rerank_mode ⦃py⦄ mode =
    let m = py.lower (strip (if is_empty mode then "hybrid" else mode)) in
    if m == "local" || m == "jina" || m == "cohere" then m else "hybrid"

-- `max(1, min(config_max, len(rows)))`
abbrev pub pool_size : RerankSettings → List Fields → ℕ
pool_size settings rows =
    max 1
      (min (if eqb settings.max_candidates 0 then 50 else settings.max_candidates) (length rows))

-- `raw_by_id.get(i, {})`: the last row with the id.
unfoldable pub raw_by_id : ⦃py : Python⦄ → String → List Fields → Fields → Fields
raw_by_id i [] found = found
raw_by_id i (row ∷ rows) found =
    let here = raw_by_id i rows row in
    let before = raw_by_id i rows found in
    if to_text (get_or "id" (str "") row) == i then here else before

-- `val = merged_meta.get(own_key) or p.get(own_key)`, set if there is one.
abbrev pub set_owner : String → Fields → Fields → Fields
set_owner own_key merged p =
    let val = or_else (get own_key merged) (get own_key p) in
    if truthy val then put own_key val p else p

-- One row of the gravity reranking.
unfoldable pub merged_row : Fields → Candidate → Fields
merged_row p rc =
    let merged = update (dict_or_empty (get "metadata" p)) (dict_or_empty rc.metadata) in
    let owned =
      set_owner "institution_id" merged
        (set_owner "tenant_id" merged (put "metadata" (dict merged) p)) in
    put "score_space" (str "gravity")
      (put "score" (real rc.score) (put "similarity" (real rc.similarity) owned))

-- Where a row is put in the sorted ones, and the sort, which keeps the order of equal scores.
unfoldable pub insert_scored : ℤ × Fields → List (ℤ × Fields) → List (ℤ × Fields)
insert_scored (n, row) [] = (n, row) ∷ []
insert_scored (n, row) ((m, r) ∷ rows) =
    let rest = insert_scored (n, row) rows in
    if at_least n m then (n, row) ∷ (m, r) ∷ rows else (m, r) ∷ rest

unfoldable pub sort_scored : List (ℤ × Fields) → List (ℤ × Fields)
sort_scored [] = []
sort_scored (x ∷ xs) = insert_scored x (sort_scored xs)

-- `i in [r.get("index") for r in rows]`
unfoldable pub is_indexed : ℕ → List RerankRow → Bool
is_indexed i [] = false
is_indexed i (r ∷ rows) = elim r.index [
  | some (pos j) ↦ eqb i j || is_indexed i rows
  | _ ↦ is_indexed i rows
]

-- `[c for i, c in enumerate(results) if i not in ...]`, from the number `i` on.
unfoldable pub not_indexed : List RerankRow → ℕ → List Fields → List Fields
not_indexed rows i [] = []
not_indexed rows i (c ∷ cs) =
    let rest = not_indexed rows (suc i) cs in if is_indexed i rows then rest else c ∷ rest

-- The scores of a reranked row.
abbrev pub with_scores : Bool → ℤ → ℤ → Fields → Fields
with_scores is_jina semantic combined row =
    let scored = put "semantic_relevance_score" (real semantic) row in
    put "combined_semantic_score" (real combined)
      (if is_jina then put "jina_relevance_score" (real combined) scored else scored)

-- The rows that are not penalized, or all, under strict filtering of requested scopes.
unfoldable pub strict_rows : Bool → List String → List Fields → List Fields
strict_rows strict [] rows = rows
strict_rows false scopes rows = rows
strict_rows true (s ∷ scopes) rows =
    elim (keep (λ (row : Fields). not (truthy (get "scope_penalized" row))) rows) [
      | [] ↦ rows
      | r ∷ rs ↦ r ∷ rs
    ]

module _ ⦃py : Python⦄ ⦃re : Patterns⦄ where
  -- The last cut: by turns where several scopes are requested.
  abbrev pub cut : List String → List Fields → ℕ → List Fields
  cut (a ∷ b ∷ scopes) rows k = stratify_results rows (a ∷ b ∷ scopes) k
  cut scopes rows k = take k rows

  -- The pool of candidates where several scopes are requested.
  abbrev pub pooled : RerankSettings → List String → List Fields → List Fields
  pooled settings (a ∷ b ∷ scopes) rows =
      stratify_results rows (a ∷ b ∷ scopes) (pool_size settings rows)
  pooled settings scopes rows = rows

module _ ⦃py : Python⦄ ⦃parse : Parse⦄ where
  abbrev pub candidate_of : Fields → Candidate
  candidate_of i =
      let similarity =
        safe_float (get_or "jina_relevance_score" (get_or "similarity" (real (pos 0)) i) i) in
      record {
        id = to_text (get_or "id" (str "") i);
        content = get_or "content" (str "") i;
        metadata = get_or "metadata" (dict end) i;
        similarity = similarity;
        score = similarity;
        source_id = get "source_id" i;
      }

  -- `_execute_gravity_rerank`, for all rows.
  unfoldable pub execute_gravity_rerank : Rerankers → Fields → List Fields → Option (List Fields)
  execute_gravity_rerank rerankers filters results =
      elim (rerankers.gravity (get_or "role" (str "socratic_mentor") filters)
        (map candidate_of results)) [
          | none ↦ none
          | some ranked ↦ some (
              map (λ (rc : Candidate). merged_row (raw_by_id rc.id results end) rc)
                (take (length results) ranked))
        ]

  module _ ⦃boost : Boost⦄ where
    -- The score that the sort goes by.
    unfoldable pub combined_score : Fields → ℤ → Option ℤ
    combined_score source semantic = elim (get_or "metadata" (dict end) source) [
      | dict metadata ↦ elim (boost.boost_of (get_or "heading_boost" (real boost.one) metadata)) [
        | none ↦ none
        | some b ↦ some (if at_least boost.one b then semantic else boost.lifted semantic b)
      ]
      | _ ↦ none
    ]

    -- One row of the answer: it is skipped where its index is out of range.
    unfoldable pub rescored :
        Bool → List Fields → RerankRow → List (ℤ × Fields) → Option (List (ℤ × Fields))
    rescored is_jina candidates r rest = elim r.index [
      | none ↦ none
      | some (negsuc n) ↦ some rest
      | some (pos n) ↦ elim (get_elem? candidates n) [
        | none ↦ some rest
        | some source ↦
            let semantic = safe_float r.relevance_score in
            elim (combined_score source semantic) [
              | none ↦ none
              | some c ↦ some ((c, with_scores is_jina semantic c source) ∷ rest)
            ]
      ]
    ]

    -- `reordered`, before the sort.
    unfoldable pub reordered : Bool → List Fields → List RerankRow → Option (List (ℤ × Fields))
    reordered is_jina candidates [] = some []
    reordered is_jina candidates (r ∷ rows) = elim (reordered is_jina candidates rows) [
      | none ↦ none
      | some rest ↦ rescored is_jina candidates r rest
    ]

    -- The end of `_execute_external_rerank`, on the answer of the reranker.
    unfoldable pub merge_reranked :
        Bool → List Fields → List Fields → Option (List RerankRow) → Option (List Fields)
    merge_reranked is_jina candidates results none = none
    merge_reranked is_jina candidates results (some []) = some results
    merge_reranked is_jina candidates results (some (r ∷ rows)) =
        elim (reordered is_jina candidates (r ∷ rows)) [
          | none ↦ none
          | some scored ↦ some (
              map (λ (x : ℤ × Fields). x.1) (sort_scored scored)
              ++ not_indexed (r ∷ rows) 0 results)
        ]

    -- `_execute_external_rerank`
    unfoldable pub execute_external_rerank :
        RerankSettings → Rerankers → String → List Fields → String → ℕ → Option (List Fields)
    execute_external_rerank settings rerankers query results mode k =
        let candidates = take (pool_size settings results) results in
        let documents = map (λ (row : Fields). text_or_empty (get "content" row)) candidates in
        let top_n = min k (length candidates) in
        if mode == "cohere" && rerankers.cohere_enabled
        then merge_reranked false candidates results (rerankers.cohere query documents top_n)
        else if (mode == "jina" || mode == "hybrid") && rerankers.jina_enabled
        then merge_reranked true candidates results (rerankers.jina query documents top_n)
        else some results

    module _ ⦃re : Patterns⦄ ⦃penalty : Penalty⦄ (settings : RerankSettings)
        (rerankers : Rerankers) where
      -- The external reranking, unless it is skipped or there are no rows.
      unfoldable pub semantic_rows : String → Fields → ℕ → List Fields → Option (List Fields)
      semantic_rows query filters k [] = some []
      semantic_rows query filters k (row ∷ rows) =
          if truthy (get "_skip_external_rerank" filters)
          then some (row ∷ rows)
          else execute_external_rerank settings rerankers query (row ∷ rows)
              (rerank_mode settings.rerank_mode) k

      -- The rows that come after the penalty.
      unfoldable pub ranked_rows :
          List String → String → Fields → ℕ → List Fields → Option (List Fields)
      ranked_rows scopes query filters k penalized =
          elim (semantic_rows query filters k
            (pooled settings scopes (strict_rows settings.strict_filtering scopes penalized))) [
              | none ↦ none
              | some rows ↦ some (cut scopes rows k)
            ]

      -- The body of the `try`.
      unfoldable pub try_reranking :
          List String → String → List Fields → Fields → ℕ → Option (List Fields)
      try_reranking scopes query results filters k =
          elim (execute_gravity_rerank rerankers filters results) [
            | none ↦ none
            | some ranked ↦ elim (apply_scope_penalty ranked scopes) [
              | none ↦ none
              | some penalized ↦ ranked_rows scopes query filters k penalized
            ]
          ]

      -- `_apply_reranking`
      unfoldable pub apply_reranking : String → List Fields → Fields → ℕ → List Fields
      apply_reranking query results filters k =
          let scopes = requested_scopes_from_context (dict filters) in
          elim (try_reranking scopes query results filters k) [
            | none ↦ cut scopes results k
            | some rows ↦ rows
          ]
