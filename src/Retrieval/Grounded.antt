-- ===== src/Retrieval/Grounded.antt =====
-- app/workflows/retrieval/grounded_retrieval.py: `GroundedRetrievalWorkflow`, with the scope policy
-- of app/domain/retrieval/strategies/agnostic_scope_strategy.py. The engine, the digest and what
-- the two regular expressions find are arguments.
mod Tests
pub mod Contents
pub mod Laws
use cire_rag.Base.{
  ltb, if◌then◌else◌, length, keep, any, ℕ, String, Bool, false, not, ◌&&◌, Option, none, some,
  List, [], ◌∷◌, map, ◌==◌,
}
use cire_rag.Base.Assoc.{lookup, assign}
use cire_rag.Base.Text.{is_empty, contains, strip, dedupe}
use cire_rag.Base.Value.{
  ℤ, pos, Value, real, str, list, dict, Fields, end, field, Python, truthy, get, dict_or_empty,
  or_else, to_text, clean, keys,
}
use cire_rag.Api.LeakCanary.{Isolation, verified, verify_isolation}
use cire_rag.Retrieval.Contract.{is_security}
use cire_rag.Retrieval.Fusion.Rrf.{at_least}
use cire_rag.Retrieval.Filters.{texts}
use cire_rag.Retrieval.Scoping.Names.{collapse, first_scope}

-- `GeneralScopeResolverPolicy`: what its expressions find, and its keywords by scope.
pub record ScopePolicy : Type 0 where
  pub extraction : String → List String
  pub is_ambiguous : String → Bool
  pub hints : List (String × List String)

-- `md5` as a hexadecimal text, and `float`, which raises for `none`.
pub record Digest : Type 0 where
  pub md5 : String → String
  pub score_of : Value → Option ℤ

-- `seen_hashes` and `deduped`
pub record Dedup : Type 0 where
  pub seen_hashes : List (String × String)
  pub deduped : List (String × Fields)

-- `del d[k]`
unfoldable pub delete : String → List (String × Fields) → List (String × Fields)
delete k [] = []
delete k ((j, v) ∷ d) = let rest = delete k d in if j == k then rest else (j, v) ∷ rest

-- `GroundedContext`
pub record GroundedContext : Type 0 where
  pub context_chunks : List String
  pub context_map : List (String × Fields)
  pub citations : List String
  pub mode : String
  pub requested_scopes : List String
  pub scope_mismatch_detected : Bool

-- How the workflow ends: with a context, with a question for the scope, with the error
-- SECURITY_ISOLATION_BREACH, or with another error.
pub data Grounded : Type 0 where
  grounded : GroundedContext → Grounded
  ambiguous_scope : List String → Grounded
  isolation_breach : Isolation → Grounded
  retrieval_failed : Grounded

-- `scope`, the context of the search.
unfoldable pub search_scope : String → List String → Fields
search_scope institution_id [] =
    field "type" (str "institutional") (field "tenant_id" (str institution_id) end)
search_scope institution_id (s ∷ ss) = field "type" (str "institutional") (
    field "tenant_id" (str institution_id) (
      field "filters"
        (dict
          (field "source_standards" (list (texts (s ∷ ss))) (field "source_standard" (str s) end)))
        end))

-- The filtered results, or all of them, which is a mismatch where there are any.
abbrev pub filtered_or_all : List Fields → List Fields → List Fields × Bool
filtered_or_all [] results = (results, ltb 0 (length results))
filtered_or_all (r ∷ rs) results = (r ∷ rs, false)

module _ ⦃py : Python⦄ where
  unfoldable pub extract_item_scope : Fields → String
  extract_item_scope item =
      let metadata = dict_or_empty (get "metadata" item) in
      first_scope (
        get "source_standard" metadata
        ∷ get "standard" metadata
        ∷ get "scope" metadata
        ∷ get "category" metadata
        ∷ get "source_standard" item
        ∷ [])

  unfoldable pub extract_requested_scopes : ScopePolicy → String → List String
  extract_requested_scopes policy query =
      dedupe (map (λ s. py.upper (strip s)) (policy.extraction query))

  -- `ranked`
  unfoldable pub hinted_scopes : String → List (String × List String) → List String
  hinted_scopes text [] = []
  hinted_scopes text ((scope, keys) ∷ hints) =
      let rest = hinted_scopes text hints in
      if any (λ k. contains (py.lower k) text) keys then scope ∷ rest else rest

  unfoldable pub suggest_scope_candidates : ScopePolicy → String → List String
  suggest_scope_candidates policy query =
      dedupe (hinted_scopes (py.lower (strip query)) policy.hints)

  -- `requires_scope_clarification`
  unfoldable pub needs_clarification : ScopePolicy → String → Bool
  needs_clarification policy query = elim (extract_requested_scopes policy query) [
    | [] ↦ policy.is_ambiguous query
    | _ ∷ _ ↦ false
  ]

  -- A requested standard stands in the row's scope.
  unfoldable pub names_scope : List String → Fields → Bool
  names_scope requested item =
      let scope = extract_item_scope item in
      not (is_empty scope) && any (λ s. contains (py.upper s) (py.upper scope)) requested

  unfoldable pub filter_results_by_scope : List Fields → List String → List Fields
  filter_results_by_scope results [] = results
  filter_results_by_scope results (s ∷ ss) = keep (names_scope (s ∷ ss)) results

  -- `results` after the filter, with `scope_mismatch`.
  unfoldable pub scoped_results : List Fields → List String → List Fields × Bool
  scoped_results results [] = (results, false)
  scoped_results results (s ∷ ss) =
      filtered_or_all (filter_results_by_scope results (s ∷ ss)) results

  -- `{str(r.get("id")): r for r in results if r.get("id")}`
  unfoldable pub map_by_id : List Fields → List (String × Fields) → List (String × Fields)
  map_by_id [] found = found
  map_by_id (row ∷ rows) found =
      let skipped = map_by_id rows found in
      let kept = map_by_id rows (assign (to_text (get "id" row)) row found) in
      if truthy (get "id" row) then kept else skipped

  -- `[str(r.get("id")) for r in results if r.get("id")]`
  unfoldable pub citations_of : List Fields → List String
  citations_of [] = []
  citations_of (row ∷ rows) =
      let rest = citations_of rows in
      if truthy (get "id" row) then to_text (get "id" row) ∷ rest else rest

  -- `[str(r.get("content", "")) for r in context_map.values() if r.get("content")]`
  unfoldable pub chunks_of : List (String × Fields) → List String
  chunks_of [] = []
  chunks_of ((i, row) ∷ rows) =
      let rest = chunks_of rows in
      if truthy (get "content" row) then to_text (get "content" row) ∷ rest else rest

  module _ ⦃digest : Digest⦄ where
    -- `content_hash`
    abbrev pub content_hash : Fields → String
    content_hash doc = digest.md5 (py.lower (strip (collapse false (clean (get "content" doc)))))

    -- `float(doc.get("similarity") or doc.get("score") or 0.0)`
    abbrev pub doc_score : Fields → Option ℤ
    doc_score doc =
        digest.score_of (or_else (or_else (get "similarity" doc) (get "score" doc)) (real (pos 0)))

    -- A document whose content stands already in `deduped`: the better one stays.
    unfoldable pub keep_better : String → Fields → String → Dedup → Option Dedup
    keep_better doc_id doc existing_id st = elim (lookup existing_id st.deduped) [
      | none ↦ none
      | some existing ↦ elim (doc_score existing) [
        | none ↦ none
        | some existing_score ↦ elim (doc_score doc) [
          | none ↦ none
          | some new_score ↦ some (
              if at_least existing_score new_score then st else record {
                seen_hashes = assign (content_hash doc) doc_id st.seen_hashes;
                deduped = assign doc_id doc (delete existing_id st.deduped);
              })
        ]
      ]
    ]

    -- One turn of the loop.
    unfoldable pub dedupe_doc : String → Fields → Dedup → Option Dedup
    dedupe_doc doc_id doc st =
        if is_empty (clean (get "content" doc))
        then some st
        else elim (lookup (content_hash doc) st.seen_hashes) [
          | none ↦ some (record {
            seen_hashes = assign (content_hash doc) doc_id st.seen_hashes;
            deduped = assign doc_id doc st.deduped;
          })
          | some existing_id ↦ keep_better doc_id doc existing_id st
        ]

    unfoldable pub dedupe_docs : List (String × Fields) → Dedup → Option Dedup
    dedupe_docs [] st = some st
    dedupe_docs ((doc_id, doc) ∷ docs) st = elim (dedupe_doc doc_id doc st) [
      | none ↦ none
      | some next ↦ dedupe_docs docs next
    ]

    -- `_dedupe_by_content`
    abbrev pub dedupe_by_content : List (String × Fields) → Option Dedup
    dedupe_by_content docs = dedupe_docs docs (record { seen_hashes = []; deduped = [] })

    -- The answer, for the results after the scope filter.
    unfoldable pub context_of : String → List String → String → List Fields → Bool → Grounded
    context_of institution_id requested mode results mismatch =
        elim (verify_isolation institution_id results) [
          | verified ↦ elim (dedupe_by_content (map_by_id results [])) [
            | none ↦ retrieval_failed
            | some st ↦ grounded (record {
              context_chunks = chunks_of st.deduped;
              context_map = st.deduped;
              citations = citations_of results;
              mode = mode;
              requested_scopes = requested;
              scope_mismatch_detected = mismatch;
            })
          ]
          | stop ↦ if is_security stop then isolation_breach stop else retrieval_failed
        ]

    unfoldable pub answer_of : String → List String → Option (List Fields × String) → Grounded
    answer_of institution_id requested none = retrieval_failed
    answer_of institution_id requested (some (results, mode)) =
        let (rows, mismatch) = scoped_results results requested in
        context_of institution_id requested mode rows mismatch

    -- `get_grounded_context`: the router answers results and a mode, `retrieve` answers results; each
    -- may raise.
    module _ (policy : ScopePolicy) (use_router : Bool)
        (orchestrate : String → ℕ → List String → Option (List Fields × String))
        (retrieve : String → Fields → ℕ → Option (List Fields)) where
      unfoldable pub route : String → String → ℕ → List String → Option (List Fields × String)
      route query institution_id k requested =
          if use_router
          then orchestrate query k requested
          else elim (retrieve query (search_scope institution_id requested) k) [
            | none ↦ none
            | some results ↦ some (results, "VECTOR_ONLY")
          ]

      unfoldable pub get_grounded_context : String → String → ℕ → Grounded
      get_grounded_context query institution_id k =
          let requested = extract_requested_scopes policy query in
          if needs_clarification policy query
          then ambiguous_scope (suggest_scope_candidates policy query)
          else answer_of institution_id requested (route query institution_id k requested)
