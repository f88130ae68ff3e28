-- ===== src/Retrieval/Scoping.antt =====
-- app/domain/retrieval/scoping.py: the scopes that a context asks for, the filters' standards, and the
-- rows that are only structure; and `_build_scope_context` of
-- app/workflows/retrieval/contract_manager.py.
pub mod Names
pub mod Penalty
pub mod Scopes
pub mod Structural
pub mod SubQuery
mod Tests
use cire_rag.Base.{if◌then◌else◌, ℕ, ◌+◌, String, Bool, false, not, ◌||◌, List, [], ◌∷◌, ◌++◌}
use cire_rag.Base.Text.{is_empty, strip, dedupe}
use cire_rag.Base.Value.{
  Value, bool, str, list, dict, Items, nil, cons, Fields, end, field, Python, truthy, get, put, pop,
  update, dict_or_empty, clean,
}
use cire_rag.Retrieval.Filters.{texts, with_single}

-- `[str(v).strip() for v in raw if isinstance(v, str) and str(v).strip()]`
unfoldable pub clean_texts : Items → List String
clean_texts nil = []
clean_texts (cons (str s) vs) =
    let rest = clean_texts vs in if is_empty (strip s) then rest else strip s ∷ rest
clean_texts (cons v vs) = clean_texts vs

-- A list's clean texts; any other value has none.
abbrev pub listed_texts : Value → List String
listed_texts (list vs) = clean_texts vs
listed_texts v = []

-- The clean text of a value that is a text.
abbrev pub single_text : Value → List String
single_text (str s) = if is_empty (strip s) then [] else strip s ∷ []
single_text v = []

unfoldable pub requested_scopes_from_context : Value → List String
requested_scopes_from_context (dict context) =
    let nested = dict_or_empty (get "filters" context) in
    dedupe (
      listed_texts (get "source_standards" context)
      ++ single_text (get "source_standard" context)
      ++ listed_texts (get "source_standards" nested)
      ++ single_text (get "source_standard" nested))
requested_scopes_from_context v = []

-- The branches on the number of standards.
unfoldable pub put_standards : List String → Fields → Fields
put_standards [] d = pop "source_standards" (pop "source_standard" d)
put_standards (x ∷ []) d = pop "source_standards" (put "source_standard" (str x) d)
put_standards (x ∷ y ∷ xs) d =
    pop "source_standard" (put "source_standards" (list (texts (x ∷ y ∷ xs))) d)

-- `filters[key] = val` where the value is truthy.
unfoldable pub put_truthy : String → Value → Fields → Fields
put_truthy k v d = if truthy v then put k v d else d

-- The dictionary of `_build_scope_context`: its list of keys runs over the metadata, the time range, the
-- list of standards and the single standard, of which the last two stand at the top, too.
unfoldable pub build_scope_context : String → String → Fields → Fields
build_scope_context tenant_id collection_id normalized =
    let collected = put_truthy "collection_id" (str collection_id) end in
    let filters = put_truthy "source_standard" (get "source_standard" normalized) (
      put_truthy "source_standards" (get "source_standards" normalized) (
        put_truthy "time_range" (get "time_range" normalized)
          (put_truthy "metadata" (get "metadata" normalized) collected))) in
    field "type" (str "institutional") (
      field "tenant_id" (str (strip tenant_id)) (
        field "filters" (dict filters) (
          put_truthy "source_standard" (get "source_standard" normalized)
            (put_truthy "source_standards" (get "source_standards" normalized) collected))))

-- `_get_merged_metadata`: the metadata, over the metadata of its nested row.
unfoldable pub merged_metadata : Fields → Fields
merged_metadata row =
    let metadata = dict_or_empty (get "metadata" row) in
    elim (get "row" metadata) [
      | dict nested ↦ elim (get "metadata" nested) [
        | dict inner ↦ update inner metadata
        | _ ↦ metadata
      ]
      | _ ↦ metadata
    ]

abbrev pub is_true : Value → Bool
is_true (bool b) = b
is_true v = false

abbrev pub is_false : Value → Bool
is_false (bool b) = not b
is_false v = false

unfoldable pub is_structural_only_row : Fields → Bool
is_structural_only_row row =
    let metadata = merged_metadata row in
    is_false (get "retrieval_eligible" metadata)
    || is_true (get "is_toc" metadata)
    || is_true (get "is_frontmatter" metadata)

-- `filter_structural_rows`: the kept rows and the number of the dropped ones.
unfoldable pub filter_structural_rows : Items → Items × ℕ
filter_structural_rows nil = (nil, 0)
filter_structural_rows (cons (dict row) vs) =
    let (kept, dropped) = filter_structural_rows vs in
    if is_structural_only_row row then (kept, dropped + 1) else (cons (dict row) kept, dropped)
filter_structural_rows (cons v vs) = filter_structural_rows vs

module _ ⦃py : Python⦄ where
  unfoldable pub normalize_standard_filters : Fields → Fields
  normalize_standard_filters filters =
      let standards = dedupe (listed_texts (get "source_standards" filters)) in
      put_standards (with_single (clean (get "source_standard" filters)) standards) filters
