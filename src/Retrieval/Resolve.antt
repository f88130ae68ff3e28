-- ===== src/Retrieval/Resolve.antt =====
-- app/domain/retrieval/context_resolution.py: `resolve_retrieval_filters`, the filters that a context and
-- a query ask for. What `enrich_metadata` finds in the query is an argument.
pub mod Laws
mod Tests
use cire_rag.Base.{
  leb, if◌then◌else◌, length, keep, String, Bool, true, false, not, ◌&&◌, ◌||◌, Option, none, some,
  List, [], ◌∷◌, map, ◌==◌,
}
use cire_rag.Base.Text.{is_empty, strip, has, dedupe}
use cire_rag.Base.Value.{
  Value, bool, str, dict, Fields, end, field, Python, truthy, get, has_key, put, pop, update,
  dict_or_empty, clean,
}
use cire_rag.Retrieval.Scoping.{requested_scopes_from_context, normalize_standard_filters}
use cire_rag.Retrieval.Scoping.Names.{Patterns, extract_requested_standards}
use cire_rag.Retrieval.Scoping.SubQuery.{Search, clause_near_standard, with_standards}

-- `v == s` for a text `s`
abbrev pub is_text : Value → String → Bool
is_text (str t) s = t == s
is_text v s = false

abbrev pub scope_type : Fields → Value
scope_type context = if has_key "type" context then get "type" context else str "institutional"

-- The filters to start with; an institutional context without a tenant raises.
unfoldable pub base_filters : Fields → Option Fields
base_filters context =
    if is_text (scope_type context) "institutional"
    then (if truthy (get "tenant_id" context)
        then some (field "tenant_id" (get "tenant_id" context) end)
        else none)
    else if is_text (scope_type context) "global"
    then some (field "is_global" (bool true) end)
    else some end

-- `filters.update(extra)`
unfoldable pub add_extra : Value → Fields → Fields
add_extra (dict extra) filters = update filters extra
add_extra v filters = filters

-- A clause in the nested filters is taken out.
unfoldable pub drop_nested_clause : Fields → Fields
drop_nested_clause filters =
    let nested = dict_or_empty (get "filters" filters) in
    let rest = pop "clause_id" nested in
    if has_key "clause_id" nested
    then (if truthy (dict rest) then put "filters" (dict rest) filters else pop "filters" filters)
    else filters

unfoldable pub add_collection : Fields → Fields → Fields
add_collection context filters =
    if truthy (get "collection_id" context) && not (truthy (get "collection_id" filters))
    then put "collection_id" (get "collection_id" context) filters
    else filters

abbrev pub unsafe_keys : List String
unsafe_keys = "source_standard" ∷ "scope" ∷ "clause_refs" ∷ "clause_id" ∷ []

-- `safe_query_filters`
unfoldable pub safe_query_filters : Fields → Fields → Fields
safe_query_filters end safe = safe
safe_query_filters (field k v d) safe =
    let skip = safe_query_filters d safe in
    let keep_it = safe_query_filters d (put (strip k) v safe) in
    if is_empty (strip k) || has (strip k) unsafe_keys then skip else keep_it

unfoldable pub add_query_filters : Fields → Fields → Fields
add_query_filters query_filters filters =
    let safe = safe_query_filters query_filters end in
    if truthy (dict safe)
    then put "filters" (dict (update (dict_or_empty (get "filters" filters)) safe)) filters
    else filters

-- `[str(scope).strip() for scope in effective_scopes if str(scope).strip()]`, each once
unfoldable pub clean_scopes : List String → List String
clean_scopes scopes = dedupe (keep (λ s. not (is_empty s)) (map strip scopes))

module _ ⦃py : Python⦄ ⦃re : Patterns⦄ ⦃search : Search⦄ where
  -- `context_scopes if context_scopes else query_scopes`
  unfoldable pub effective_scopes : Fields → String → List String
  effective_scopes context query = elim (requested_scopes_from_context (dict context)) [
    | [] ↦ extract_requested_standards query
    | s ∷ ss ↦ s ∷ ss
  ]

  -- The metadata filter, with the clause that stands near the standard in the query.
  unfoldable pub hinted_metadata : String → Fields → Fields
  hinted_metadata query filters =
      let metadata = dict_or_empty (get "metadata" filters) in
      let active = clean (get "source_standard" filters) in
      if not (is_empty (clean (get "clause_id" metadata))) || is_empty active
      then metadata
      else elim (clause_near_standard query active) [
        | none ↦ metadata
        | some clause ↦ if is_empty clause then metadata else put "clause_id" (str clause) metadata
      ]

  unfoldable pub add_clause_hint : String → Fields → Fields
  add_clause_hint query filters =
      if truthy (dict (hinted_metadata query filters))
      then put "metadata" (dict (hinted_metadata query filters)) filters
      else filters

  -- The steps after the first one; `query_filters` are those of `enrich_metadata`.
  unfoldable pub resolve_from : Fields → String → Fields → Fields → Fields
  resolve_from query_filters query context base =
      let given =
        add_collection context (drop_nested_clause (add_extra (get "filters" context) base)) in
      let scopes = effective_scopes context query in
      let scoped = with_standards (clean_scopes scopes) (add_query_filters query_filters given) in
      normalize_standard_filters
        (if leb (length scopes) 1 then add_clause_hint query scoped else scoped)

  unfoldable pub resolve_retrieval_filters : Fields → String → Fields → Option Fields
  resolve_retrieval_filters query_filters query context = elim (base_filters context) [
    | none ↦ none
    | some base ↦ some (resolve_from query_filters query context base)
  ]
