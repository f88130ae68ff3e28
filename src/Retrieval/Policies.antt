-- ===== src/Retrieval/Policies.antt =====
-- app/domain/retrieval/policies.py: `filter_rows_by_min_score` and `apply_search_hints`.
pub mod Noise
use cire_rag.Base.{
  if◌then◌else◌, Bool-cases, length, keep, count, All, All-append, ℕ, ◌+◌, String, ◌≡◌, refl, inl,
  inr, Bool, false, not, ◌||◌, none, some, List, [], ◌∷◌, ◌++◌, arith, ◌==◌,
}
use cire_rag.Base.Text.{is_empty, contains, strip, has}
use cire_rag.Base.Value.{
  ℤ, Value, null, list, dict, Items, nil, cons, Fields, Python, get, dict_or_empty, clean,
}
use cire_rag.Retrieval.Item.{join}
use cire_rag.Retrieval.Fusion.Items.{Parse}
use cire_rag.Retrieval.Fusion.Rrf.{at_least}

-- The rows that are kept, and the counts of the trace.
pub record Filtered : Type 0 where
  pub rows : List Fields
  pub dropped : ℕ
  pub bypassed : ℕ

module _ ⦃py : Python⦄ where
  unfoldable pub score_space_from_item : Fields → String
  score_space_from_item item =
      let own = py.lower (clean (get "score_space" item)) in
      if not (is_empty own)
      then own
      else py.lower (clean (get "score_space" (dict_or_empty (get "metadata" item))))

  unfoldable pub is_bypassed : Fields → Bool
  is_bypassed row = score_space_from_item row == "rrf" || score_space_from_item row == "mixed"

  -- `raw_score`
  abbrev pub raw_score : Fields → Value
  raw_score row = elim (get "similarity" row) [ null ↦ get "score" row | v ↦ v ]

  -- The rows of a list that are dictionaries.
  abbrev pub dict_rows : Items → List Fields
  dict_rows nil = []
  dict_rows (cons (dict row) vs) = row ∷ dict_rows vs
  dict_rows (cons v vs) = dict_rows vs

  -- `float(v) >= threshold`, and false where `float` raises, as the row is dropped then, too.
  abbrev pub reaches : ⦃parse : Parse⦄ → ℤ → Value → Bool
  reaches ⦃parse⦄ threshold v = elim (parse.float_of v) [
    | none ↦ false
    | some n ↦ at_least n threshold
  ]

  module _ ⦃parse : Parse⦄ (threshold : ℤ) where
    unfoldable pub filter_rows_by_min_score : Items → Filtered
    filter_rows_by_min_score nil = record { rows = []; dropped = 0; bypassed = 0 }
    filter_rows_by_min_score (cons (dict row) vs) =
        let rest = filter_rows_by_min_score vs in
        if is_bypassed row
        then record { rows = row ∷ rest.rows; dropped = rest.dropped; bypassed = rest.bypassed + 1 }
        else if reaches threshold (raw_score row)
        then record rest { rows = row ∷ rest.rows }
        else record rest { dropped = rest.dropped + 1 }
    filter_rows_by_min_score (cons v vs) = filter_rows_by_min_score vs

    -- Exactly the rows are kept, in order, whose score space is exempt or whose score reaches the
    -- threshold; each of the others is counted as dropped, and each exempt one as bypassed.
    pub min_score_filters :
        (vs : Items)
        → ((filter_rows_by_min_score vs).rows
            ≡ keep (λ row. is_bypassed row || reaches threshold (raw_score row)) (dict_rows vs))
          × (length (dict_rows vs)
              ≡ length (filter_rows_by_min_score vs).rows + (filter_rows_by_min_score vs).dropped)
          × ((filter_rows_by_min_score vs).bypassed ≡ count is_bypassed (dict_rows vs))
    unfolding filter_rows_by_min_score
    min_score_filters nil = (refl, refl, refl)
    min_score_filters (cons (dict row) vs) =
        let (kept, total, exempt) = min_score_filters vs in
        (ground (arith, kept), ground (arith, total), ground (arith, exempt))
    min_score_filters (cons v vs) = min_score_filters vs

  -- The loop over `expand_to`.
  unfoldable pub additions_of : String → List String → Items → List String
  additions_of lower_text expanded nil = []
  additions_of lower_text expanded (cons v vs) =
      let rest = additions_of lower_text expanded vs in
      let value = clean v in
      if is_empty value || contains (py.lower value) lower_text || has value expanded
      then rest
      else value ∷ rest

  -- The additions of one hint, which is used if its term occurs in the text.
  unfoldable pub hint_additions : String → List String → Value → List String
  hint_additions lower_text expanded (dict hint) =
      let term = clean (get "term" hint) in
      if is_empty term || not (contains (py.lower term) lower_text)
      then []
      else elim (get "expand_to" hint) [ list vs ↦ additions_of lower_text expanded vs | _ ↦ [] ]
  hint_additions lower_text expanded v = []

  -- The loop over the hints: the terms that are added, after those passed.
  unfoldable pub expand : String → List String → Items → List String
  expand lower_text expanded nil = expanded
  expand lower_text expanded (cons v vs) =
      expand lower_text (expanded ++ hint_additions lower_text expanded v) vs

  -- `" ".join(terms)` after a text and a blank.
  unfoldable pub spaced : String → List String → String
  spaced text [] = text
  spaced text (t ∷ ts) = spaced (join text (join " " t)) ts

  -- The end of `apply_search_hints`.
  unfoldable pub expanded_query : String → List String → String × List String
  expanded_query text [] = (text, [])
  expanded_query text (t ∷ ts) = (strip (spaced text (t ∷ ts)), t ∷ ts)

  -- The query and its added terms. `hints` is a list or `None`.
  unfoldable pub apply_search_hints : String → Items → String × List String
  apply_search_hints query hints =
      let text = strip query in
      if is_empty text then (text, []) else expanded_query text (expand (py.lower text) [] hints)

  -- What an added term is like.
  abbrev pub IsAddition : String → String → Type 0
  IsAddition lower_text t = (is_empty t ≡ false) × (contains (py.lower t) lower_text ≡ false)

  additions_new :
      (lower_text : String) (expanded : List String) (vs : Items)
      → All (IsAddition lower_text) (additions_of lower_text expanded vs)
  unfolding additions_of
  additions_new lower_text expanded nil = tt
  additions_new lower_text expanded (cons v vs) =
      ground (arith, additions_new lower_text expanded vs)

  hint_new :
      (lower_text : String) (expanded : List String) (v : Value)
      → All (IsAddition lower_text) (hint_additions lower_text expanded v)
  unfolding hint_additions
  hint_new lower_text expanded (dict hint) =
      elim (get "expand_to" hint)
        as (λ x. All (IsAddition lower_text) (
          if is_empty (clean (get "term" hint))
            || not (contains (py.lower (clean (get "term" hint))) lower_text)
          then []
          else elim x [ list vs ↦ additions_of lower_text expanded vs | _ ↦ [] ])) [
            | list vs ↦ ground (arith, additions_new lower_text expanded vs)
            | _ ↦ ground arith
          ]
  hint_new lower_text expanded v = tt

  expand_new :
      (lower_text : String) (expanded : List String) (vs : Items)
      → All (IsAddition lower_text) expanded
      → All (IsAddition lower_text) (expand lower_text expanded vs)
  unfolding expand
  expand_new lower_text expanded nil h = h
  expand_new lower_text expanded (cons v vs) h =
      expand_new lower_text (expanded ++ hint_additions lower_text expanded v) vs (
        All-append (IsAddition lower_text) expanded (hint_additions lower_text expanded v) h
          (hint_new lower_text expanded v))

  expanded_query_new :
      (lower_text text : String) (terms : List String)
      → All (IsAddition lower_text) terms
      → All (IsAddition lower_text) (expanded_query text terms).1
        × ((expanded_query text terms).1 ≡ [] → (expanded_query text terms).0 ≡ text)
  unfolding expanded_query
  expanded_query_new lower_text text [] h = (tt, λ none_added. refl)
  expanded_query_new lower_text text (t ∷ ts) h = (h, λ none_added. absurd (ground arith))

  -- No term that the hints add is blank or occurs in the query already, but for case; without such a
  -- term the query is left as it is, without the blanks around it.
  hints_add_new_terms :
      (query : String) (hints : Items)
      → All (IsAddition (py.lower (strip query))) (apply_search_hints query hints).1
        × ((apply_search_hints query hints).1 ≡ []
            → (apply_search_hints query hints).0 ≡ strip query)
  unfolding apply_search_hints
  hints_add_new_terms query hints =
      let text = strip query in
      let (added, plain) =
        expanded_query_new (py.lower text) text (expand (py.lower text) [] hints)
          (expand_new (py.lower text) [] hints tt) in
      elim (Bool-cases (is_empty text)) [
        | inl e ↦ rw e (tt, λ none_added. refl)
        | inr e ↦ rw e (added, plain)
      ]
