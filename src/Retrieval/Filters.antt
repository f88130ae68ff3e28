-- ===== src/Retrieval/Filters.antt =====
-- app/domain/retrieval/validation.py: the filters of a retrieval request, checked and normalized.
pub mod Standards
pub mod Metadata
pub mod TimeRange
use cire_rag.Base.{
  if◌then◌else◌, String, Bool, true, false, ◌&&◌, ◌||◌, Option, none, some, List, [], ◌∷◌, ◌++◌,
  map, ◌==◌,
}
use cire_rag.Base.Text.{is_empty, sorted, strip, has, dedupe}
use cire_rag.Base.Value.{
  Value, null, bool, int, real, str, list, dict, Items, nil, cons, Fields, end, field, Python, get,
  or_else, clean,
}
use cire_rag.Retrieval.Item.{join}

-- `ScopeIssue`, without its message.
pub record ScopeIssue : Type 0 where
  pub code : String
  pub issue_field : String

abbrev pub issue : String → String → ScopeIssue
issue c f = record { code = c; issue_field = f }

-- `isinstance(v, (str, int, float, bool))`
abbrev pub is_scalar : Value → Bool
is_scalar (str s) = true
is_scalar (int n) = true
is_scalar (real n) = true
is_scalar (bool b) = true
is_scalar v = false

abbrev pub all_scalar : Items → Bool
all_scalar nil = true
all_scalar (cons v vs) = is_scalar v && all_scalar vs

unfoldable pub is_reserved : String → Bool
is_reserved k = k == "tenant_id" || k == "institution_id"

-- A scalar, or a list of scalars.
unfoldable pub is_allowed : Value → Bool
is_allowed (list vs) = all_scalar vs
is_allowed v = is_scalar v

abbrev pub is_null : Value → Bool
is_null null = true
is_null v = false

unfoldable pub reserved_key : String → ScopeIssue
reserved_key k = issue "RESERVED_METADATA_KEY" (join "filters.metadata." k)

unfoldable pub invalid_value : String → ScopeIssue
invalid_value k = issue "INVALID_METADATA_VALUE" (join "filters.metadata." k)

unfoldable pub invalid_time : String → ScopeIssue
invalid_time k = issue "INVALID_TIME_VALUE" (join "filters.time_range." k)

-- The loop of `validate_metadata_values`. The keys of a dictionary are distinct, so an assignment
-- adds a field at the end.
unfoldable pub check_metadata : Fields → Fields × List ScopeIssue
check_metadata end = (end, [])
check_metadata (field k v r) =
    let (kept, issues) = check_metadata r in
    if is_reserved k
    then (kept, reserved_key k ∷ issues)
    else if is_null v
    then (kept, issues)
    else if is_allowed v
    then (field k v kept, issues)
    else (kept, invalid_value k ∷ issues)

unfoldable pub validate_metadata_values : Value → Fields × List ScopeIssue
validate_metadata_values null = (end, [])
validate_metadata_values (dict d) = check_metadata d
validate_metadata_values v = (end, issue "INVALID_METADATA_FILTER" "filters.metadata" ∷ [])

-- The loop of `validate_time_range`, over its keys.
unfoldable pub check_times : List String → Fields → Fields × List ScopeIssue
check_times [] d = (end, [])
check_times (k ∷ ks) d =
    let (kept, issues) = check_times ks d in
    elim (get k d) [
      | null ↦ (kept, issues)
      | str s ↦ (field k (str s) kept, issues)
      | _ ↦ (kept, invalid_time k ∷ issues)
    ]

unfoldable pub validate_time_range : Value → Fields × List ScopeIssue
validate_time_range null = (end, [])
validate_time_range (dict d) = check_times ("from" ∷ "to" ∷ []) d
validate_time_range v = (end, issue "INVALID_TIME_RANGE" "filters.time_range" ∷ [])

abbrev pub standards_issue : ScopeIssue
standards_issue = issue "INVALID_SCOPE_FILTER" "filters.source_standards"

-- The loop of `validate_source_standards`.
unfoldable pub check_standards : Items → List String × List ScopeIssue
check_standards nil = ([], [])
check_standards (cons (str s) vs) =
    let (kept, issues) = check_standards vs in
    if is_empty (strip s) then (kept, standards_issue ∷ issues) else (strip s ∷ kept, issues)
check_standards (cons v vs) =
    let (kept, issues) = check_standards vs in (kept, standards_issue ∷ issues)

-- `raw_filters.get("source_standards")`, checked and without repetitions.
unfoldable pub read_standards : Value → List String × List ScopeIssue
read_standards null = ([], [])
read_standards (list vs) = let (kept, issues) = check_standards vs in (dedupe kept, issues)
read_standards v = ([], standards_issue ∷ [])

-- `source_standards.insert(0, source_standard)` where it is not there; an empty text is `None`.
abbrev pub with_single : String → List String → List String
with_single s xs = if is_empty s || has s xs then xs else s ∷ xs

-- The end of `validate_source_standards`: one standard is the single one, several are the list.
unfoldable pub settle : String → List String → Option String × List String
settle s [] = (if is_empty s then none else some s, [])
settle s (x ∷ []) = (some x, [])
settle s (x ∷ y ∷ xs) = (none, x ∷ y ∷ xs)

abbrev pub allowed_keys : List String
allowed_keys = "metadata" ∷ "time_range" ∷ "source_standard" ∷ "source_standards" ∷ []

-- `set(raw_filters.keys()) - _ALLOWED_FILTER_KEYS`
unfoldable pub unknown_keys : Fields → List String
unknown_keys end = []
unknown_keys (field k v r) =
    let rest = unknown_keys r in if has k allowed_keys then rest else k ∷ rest

-- A list of texts as a value.
abbrev pub texts : List String → Items
texts [] = nil
texts (s ∷ ss) = cons (str s) (texts ss)

-- The dictionary of `validate_retrieval_filters`, with `x or None` and an absent standard as `null`.
unfoldable pub normalized_of : Fields → Fields → Option String → List String → Fields
normalized_of metadata times standard standards = field "metadata" (or_else (dict metadata) null) (
    field "time_range" (dict times) (
      field "source_standard" (elim standard [ none ↦ null | some s ↦ str s ])
        (field "source_standards" (or_else (list (texts standards)) null) end)))

module _ ⦃py : Python⦄ where
  unfoldable pub validate_source_standards :
      Fields → (Option String × List String) × List ScopeIssue
  validate_source_standards raw =
      let single = clean (get "source_standard" raw) in
      let (standards, issues) = read_standards (get "source_standards" raw) in
      (settle single (with_single single standards), issues)

  unfoldable pub validate_retrieval_filters : Fields → Fields × List ScopeIssue
  validate_retrieval_filters raw =
      let (metadata, metadata_issues) = validate_metadata_values (get "metadata" raw) in
      let (times, time_issues) = validate_time_range (get "time_range" raw) in
      let ((standard, standards), standard_issues) = validate_source_standards raw in
      (
        normalized_of metadata times standard standards,
        map (λ k. issue "INVALID_SCOPE_FILTER" (join "filters." k)) (sorted (unknown_keys raw))
            ++ metadata_issues
            ++ time_issues
            ++ standard_issues,
      )
