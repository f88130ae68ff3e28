-- ===== src/Retrieval/Fusion/Missing.antt =====
-- app/domain/retrieval/fusion.py: `missing_scopes` and `missing_clause_refs`, with `item_clause_refs`.
use cire_rag.Base.{
  leb, eqb, if◌then◌else◌, Bool-cases, length, keep, any, count, ℕ, ◌≤◌, ◌<◌, String, ◌≡◌, refl, ap,
  inl, inr, Bool, true, false, not, ◌&&◌, ◌||◌, List, [], ◌∷◌, ◌++◌, map, arith, ◌==◌, eq_iff,
}
use cire_rag.Base.Text.{is_empty, strip, has, dedupe, has-dedupe}
use cire_rag.Base.Value.{
  str, list, Items, nil, cons, Python, get, dict_or_empty, or_else, to_text, clean,
}
use cire_rag.Retrieval.Item.{RetrievalItem, extract_row}
use cire_rag.Retrieval.Scoping.Names.{
  Patterns, extract_row_scope, normalize_scope_name, extract_clause_refs,
}

module _ ⦃py : Python⦄ where
  -- `str(val).strip() for val in raw if str(val).strip()`
  unfoldable pub stripped_texts : Items → List String
  stripped_texts nil = []
  stripped_texts (cons v vs) =
      let rest = stripped_texts vs in
      let text = strip (to_text v) in if is_empty text then rest else text ∷ rest

  module _ ⦃re : Patterns⦄ where
    -- The set as a list.
    unfoldable pub item_clause_refs : RetrievalItem → List String
    item_clause_refs item =
        let row = extract_row item in
        let metadata = dict_or_empty (get "metadata" row) in
        let clause_id = clean (or_else (get "clause_id" metadata) (get "clause_id" row)) in
        (if is_empty clause_id then [] else clause_id ∷ [])
        ++ (elim (get "clause_refs" metadata) [ list vs ↦ stripped_texts vs | _ ↦ [] ])
        ++ extract_clause_refs item.content

    abbrev pub scope_of : RetrievalItem → String
    scope_of item = normalize_scope_name (str (extract_row_scope (extract_row item)))

    -- `present`
    unfoldable pub present_scopes : List RetrievalItem → List String
    present_scopes [] = []
    present_scopes (item ∷ items) =
        let rest = present_scopes items in
        if is_empty (scope_of item) then rest else scope_of item ∷ rest

    unfoldable pub missing_scopes : List RetrievalItem → List String → Bool → List String
    missing_scopes items [] required = []
    missing_scopes items requested required =
        if required then keep (λ s. not (has s (present_scopes items))) requested else []

    -- `covered`
    unfoldable pub covered_clauses : List RetrievalItem → List String
    covered_clauses [] = []
    covered_clauses (item ∷ items) = item_clause_refs item ++ covered_clauses items

    -- `query_clause_set`, each of its texts once.
    unfoldable pub clause_set : List String → List String
    clause_set refs = dedupe (keep (λ s. not (is_empty s)) (map strip refs))

    -- `len(query_clause_set - covered)`
    abbrev pub uncovered : List RetrievalItem → List String → ℕ
    uncovered items refs = count (λ c. not (has c (covered_clauses items))) (clause_set refs)

    -- `required` is `min_clause_refs_required`; a number below 0 is like 0.
    unfoldable pub missing_clause_refs : List RetrievalItem → List String → ℕ → List String
    missing_clause_refs items refs required =
        if eqb required 0 || eqb (length (clause_set refs)) 0
        then []
        else if leb required (uncovered items refs)
        then dedupe (keep (λ c. not (has c (covered_clauses items))) refs)
        else []

    has-keep :
        (s : String) (p : String → Bool) (xs : List String) → has s (keep p xs) ≡ (p s && has s xs)
    has-keep s p [] = ground arith
    has-keep s p (x ∷ xs) = elim (Bool-cases (x == s)) [
      | inl e ↦
          let same : x ≡ s = ground (arith, eq_iff x s) in
          ground (arith, has-keep s p xs, ap p same)
      | inr e ↦ ground (arith, has-keep s p xs)
    ]

    has-present_scopes :
        (s : String) (items : List RetrievalItem)
        → is_empty s ≡ false
        → has s (present_scopes items) ≡ any (λ item. scope_of item == s) items
    unfolding present_scopes
    has-present_scopes s [] named = refl
    has-present_scopes s (item ∷ items) named = elim (Bool-cases (is_empty (scope_of item))) [
      | inr e ↦ ground (arith, has-present_scopes s items named)
      | inl e ↦
          let differs : (scope_of item == s) ≡ false =
            ground (arith, eq_iff (scope_of item) s, ap is_empty) in
          ground (arith, has-present_scopes s items named)
    ]

    -- Where all scopes are required, a requested scope is reported as missing exactly if no item has
    -- it; where they are not, none is.
    missing_scopes_exact :
        (items : List RetrievalItem) (requested : List String) (required : Bool) (s : String)
        → is_empty s ≡ false
        → has s (missing_scopes items requested required)
          ≡ (required && has s requested && not (any (λ item. scope_of item == s) items))
    unfolding missing_scopes
    missing_scopes_exact items [] required s named = ground arith
    missing_scopes_exact items (r ∷ requested) required s named = ground (
      arith,
      has-keep s (λ x. not (has x (present_scopes items))) (r ∷ requested),
      has-present_scopes s items named,
    )

    -- If a clause of the query is reported as missing, then it is one that the query names, no item
    -- refers to it, and at least as many different clauses of the query as required, and more than
    -- none, are without an item.
    missing_clauses_sound :
        (items : List RetrievalItem) (refs : List String) (required : ℕ) (c : String)
        → has c (missing_clause_refs items refs required) ≡ true
        → (has c refs ≡ true)
          × (has c (covered_clauses items) ≡ false)
          × (required ≤ uncovered items refs)
          × (0 < required)
    unfolding missing_clause_refs
    missing_clauses_sound items refs required c h = ground (
      arith,
      has-dedupe (keep (λ x. not (has x (covered_clauses items))) refs) c,
      has-keep c (λ x. not (has x (covered_clauses items))) refs,
    )
