-- ===== src/Retrieval/Fusion/Stratify.antt =====
-- app/domain/retrieval/fusion.py: `stratify_results`, which takes the rows of the requested scopes in
-- turn.
pub mod Buckets
pub mod Fair
pub mod Laws
pub mod Result
mod Tests
use cire_rag.Base.{
  ltb, leb, if◌then◌else◌, length, get_elem?, take, ℕ, zero, suc, ◌-◌, max, String, Bool, ◌||◌,
  Option, none, some, List, [], ◌∷◌, ◌++◌, ◌==◌,
}
use cire_rag.Base.Assoc.{lookup, assign}
use cire_rag.Base.Text.{is_empty, contains}
use cire_rag.Base.Value.{str, Fields, Python}
use cire_rag.Retrieval.Scoping.Names.{Patterns, extract_row_scope, normalize_scope_name}

-- `buckets` and `others`
pub record Sorted : Type 0 where
  pub buckets : List (String × List Fields)
  pub others : List Fields

-- `std == s or s in std or std in s`
unfoldable pub scope_matches : String → String → Bool
scope_matches std s = std == s || contains s std || contains std s

-- The first target that a scope matches.
unfoldable pub first_match : String → List String → Option String
first_match std [] = none
first_match std (s ∷ ss) =
    let rest = first_match std ss in if scope_matches std s then some s else rest

-- `buckets[s]`
abbrev pub bucket : String → List (String × List Fields) → List Fields
bucket s buckets = elim (lookup s buckets) [ none ↦ [] | some rows ↦ rows ]

-- `{s: [] for s in scope_targets}`
unfoldable pub empty_buckets :
    List String → List (String × List Fields) → List (String × List Fields)
empty_buckets [] buckets = buckets
empty_buckets (s ∷ ss) buckets = empty_buckets ss (assign s [] buckets)

-- `max([len(b) for b in buckets.values()] + [0])`
unfoldable pub max_len : List (String × List Fields) → ℕ
max_len [] = 0
max_len ((s, rows) ∷ buckets) = max (length rows) (max_len buckets)

module _ (max_count : ℕ) (targets : List String) (buckets : List (String × List Fields)) where
  -- `if i < len(buckets[s]): stratified.append(buckets[s][i])`
  abbrev pub add_row : ℕ → String → List Fields → List Fields
  add_row i s stratified = elim (get_elem? (bucket s buckets) i) [
    | none ↦ stratified
    | some row ↦ stratified ++ row ∷ []
  ]

  -- The loop over the targets in one round.
  unfoldable pub one_round : ℕ → List String → List Fields → List Fields
  one_round i [] stratified = stratified
  one_round i (s ∷ ss) stratified =
      let more = add_row i s stratified in
      let rest = one_round i ss more in if leb max_count (length more) then more else rest

  -- The loop over the rounds, with `n` of them left.
  unfoldable pub rounds : ℕ → ℕ → List Fields → List Fields
  rounds zero i stratified = stratified
  rounds (suc n) i stratified =
      let more = one_round i targets stratified in
      let rest = rounds n (suc i) more in if leb max_count (length more) then more else rest

module _ ⦃py : Python⦄ ⦃re : Patterns⦄ where
  -- The scope that a row is compared by.
  abbrev pub std_of : Fields → String
  std_of row = normalize_scope_name (str (extract_row_scope row))

  -- `[normalize_scope_name(s) for s in requested_scopes if s]`
  unfoldable pub scope_targets : List String → List String
  scope_targets [] = []
  scope_targets (s ∷ ss) =
      let rest = scope_targets ss in
      if is_empty s then rest else normalize_scope_name (str s) ∷ rest

  -- One row is put into the bucket of the first target that it matches.
  unfoldable pub place : List String → Fields → Sorted → Sorted
  place targets row r = elim (first_match (std_of row) targets) [
    | none ↦ record r { others = r.others ++ row ∷ [] }
    | some s ↦ record r { buckets = assign s (bucket s r.buckets ++ row ∷ []) r.buckets }
  ]

  unfoldable pub place_rows : List String → List Fields → Sorted → Sorted
  place_rows targets [] r = r
  place_rows targets (row ∷ rows) r = place_rows targets rows (place targets row r)

  abbrev pub sorted_rows : List String → List Fields → Sorted
  sorted_rows targets results =
      place_rows targets results (record { buckets = empty_buckets targets []; others = [] })

  unfoldable pub balance : List String → List Fields → ℕ → List Fields
  balance targets results max_count =
      let r = sorted_rows targets results in
      let stratified = rounds max_count targets r.buckets (max_len r.buckets) 0 [] in
      take max_count (
        if ltb (length stratified) max_count
        then stratified ++ take (max_count - length stratified) r.others
        else stratified)

  unfoldable pub stratify_results : List Fields → List String → ℕ → List Fields
  stratify_results results [] max_count = take max_count results
  stratify_results [] scopes max_count = take max_count []
  stratify_results results scopes max_count = balance (scope_targets scopes) results max_count
