-- ===== src/Retrieval/Scoping/Penalty.antt =====
-- app/domain/retrieval/scoping.py: `apply_scope_penalty`, `count_scope_penalized`, and the counts of `scope_penalty_ratio`. The one product of
-- floats is an argument.
use cire_rag.Base.{
  if◌then◌else◌, bit, Bool-cases, any, count, All, ℕ, ◌+◌, ◌≤◌, String, ◌≡◌, refl, sym, ap, inl,
  inr, Bool, true, not, ◌&&◌, ◌||◌, Option, none, some, List, [], ◌∷◌, map, arith,
}
use cire_rag.Base.Text.{is_empty, contains, has}
use cire_rag.Base.Value.{
  ℤ, pos, negsuc, Value, bool, real, Fields, Python, truthy, get, has_key, put, or_else, get-put,
}
use cire_rag.Retrieval.Scoping.Names.{Patterns, extract_row_scope, scope_key}

-- `penalty_factor`, `base * (1.0 - penalty_factor)`, and `float`, which raises for `none`.
pub record Penalty : Type 0 where
  pub factor : ℤ
  pub reduced : ℤ → ℤ
  pub float_of : Value → Option ℤ

-- `d.get(k, v)`
abbrev pub get_or : String → Value → Fields → Value
get_or k v d = if has_key k d then get k d else v

abbrev pub base_value : Fields → Value
base_value row =
    or_else
      (get_or "jina_relevance_score" (get_or "similarity" (get_or "score" (real (pos 0)) row) row)
        row)
      (real (pos 0))

-- `max(n, 0.0)`
abbrev pub at_least_zero : ℤ → ℤ
at_least_zero (pos n) = pos n
at_least_zero (negsuc n) = pos 0

-- The adjusted copy of a row.
abbrev pub adjusted : ℤ → ℤ → Fields → Fields
adjusted factor n row = put "jina_relevance_score" (real n) (
    put "score" (real n) (
      put "similarity" (real n)
        (put "scope_penalty" (real factor) (put "scope_penalized" (bool true) row))))

unfoldable pub count_scope_penalized : List Fields → ℕ
count_scope_penalized [] = 0
count_scope_penalized (row ∷ rows) =
    bit (truthy (get "scope_penalized" row)) + count_scope_penalized rows

module _ ⦃py : Python⦄ where
  -- The loop of `scope_penalty_ratio`: the penalized rows and the considered ones.
  unfoldable pub count_penalized : List String → List Fields → ℕ × ℕ
  count_penalized scopes [] = (0, 0)
  count_penalized scopes (row ∷ rows) =
      let (penalized, considered) = count_penalized scopes rows in
      let scope = extract_row_scope row in
      if is_empty scope
      then (penalized, considered)
      else if any (λ s. contains (py.upper s) scope) scopes
      then (penalized, considered + 1)
      else (penalized + 1, considered + 1)

module _ ⦃py : Python⦄ ⦃re : Patterns⦄ where
  -- `{scope_key(s) for s in requested_scopes if scope_key(s)}`
  unfoldable pub requested_keys : List String → List String
  requested_keys [] = []
  requested_keys (s ∷ ss) =
      let rest = requested_keys ss in if is_empty (scope_key s) then rest else scope_key s ∷ rest

  -- The row stays as it is: it has no scope or a requested one.
  unfoldable pub in_scope : List String → Fields → Bool
  in_scope scopes row =
      let row_scope = extract_row_scope row in
      is_empty row_scope
      || (not (is_empty (scope_key row_scope)) && has (scope_key row_scope) (requested_keys scopes))
      || any (λ s. contains (py.upper s) (py.upper row_scope)) scopes

  module _ ⦃penalty : Penalty⦄ where
    -- The penalized row; `float` may raise.
    unfoldable pub penalize : Fields → Option Fields
    penalize row = elim (penalty.float_of (base_value row)) [
      | none ↦ none
      | some base ↦ some (adjusted penalty.factor (at_least_zero (penalty.reduced base)) row)
    ]

    unfoldable pub penalize_rows : List String → List Fields → Option (List Fields)
    penalize_rows scopes [] = some []
    penalize_rows scopes (row ∷ rows) =
        let rest = penalize_rows scopes rows in
        elim (if in_scope scopes row then some row else penalize row) [
          | none ↦ none
          | some first ↦ elim rest [ none ↦ none | some more ↦ some (first ∷ more) ]
        ]

    unfoldable pub apply_scope_penalty : List Fields → List String → Option (List Fields)
    apply_scope_penalty results [] = some results
    apply_scope_penalty results (s ∷ ss) = penalize_rows (s ∷ ss) results

    -- What becomes of a row whose similarity is `value row`.
    abbrev pub after_penalty : (Fields → ℤ) → List String → Fields → Fields
    after_penalty value scopes row =
        if in_scope scopes row
        then row
        else adjusted penalty.factor (at_least_zero (penalty.reduced (value row))) row

    penalize_rows-map :
        (value : Fields → ℤ) (scopes : List String) (rows : List Fields)
        → All (λ row. penalty.float_of (base_value row) ≡ some (value row)) rows
        → penalize_rows scopes rows ≡ some (map (after_penalty value scopes) rows)
    unfolding penalize_rows penalize
    penalize_rows-map value scopes [] h = refl
    penalize_rows-map value scopes (row ∷ rows) h =
        let rest = penalize_rows-map value scopes rows h.1 in
        elim (Bool-cases (in_scope scopes row)) [
          | inl e ↦ ground arith
          | inr e ↦ ground (arith, h.0)
        ]

    adjusted_flag :
        (value : Fields → ℤ) (scopes : List String) (row : Fields)
        → truthy (get "scope_penalized" (after_penalty value scopes row))
          ≡ (truthy (get "scope_penalized" row) || not (in_scope scopes row))
    adjusted_flag value scopes row = elim (Bool-cases (in_scope scopes row)) [
      | inl e ↦ ground arith
      | inr e ↦ rw e (simp get-put (ground arith))
    ]

    count_after :
        (value : Fields → ℤ) (scopes : List String) (rows : List Fields)
        → count_scope_penalized (map (after_penalty value scopes) rows)
          ≡ count (λ row. truthy (get "scope_penalized" row) || not (in_scope scopes row)) rows
    unfolding count_scope_penalized
    count_after value scopes [] = refl
    count_after value scopes (row ∷ rows) =
        omega (arith, count_after value scopes rows, ap bit (adjusted_flag value scopes row))

    -- Where the similarities are numbers, the penalty answers all rows in their order: those without a
    -- scope or with a requested one as they are, the others with the reduced similarity, at least 0,
    -- and flagged; and the count of flagged rows is that of the others and of the rows flagged before.
    pub penalty_exact :
        (value : Fields → ℤ) (rows : List Fields) (s : String) (ss : List String)
        → All (λ row. penalty.float_of (base_value row) ≡ some (value row)) rows
        → (apply_scope_penalty rows (s ∷ ss) ≡ some (map (after_penalty value (s ∷ ss)) rows))
          × (count_scope_penalized (map (after_penalty value (s ∷ ss)) rows)
              ≡ count
                  (λ row. truthy (get "scope_penalized" row) || not (in_scope (s ∷ ss) row))
                  rows)
    unfolding apply_scope_penalty
    penalty_exact value rows s ss h =
        (penalize_rows-map value (s ∷ ss) rows h, count_after value (s ∷ ss) rows)

  any-upper :
      (scopes : List String) (scope : String)
      → py.upper scope ≡ scope
      → any (λ s. contains (py.upper s) scope) scopes
        ≡ any (λ s. contains (py.upper s) (py.upper scope)) scopes
  any-upper scopes scope same = ap (λ x. any (λ s. contains (py.upper s) x) scopes) (sym same)

  -- The two ways to tell rows out of scope agree in one direction: the share that a plan reads for its
  -- early exit counts every row that the penalty would change, if the rows' scopes are in upper case.
  ratio_counts_penalized :
      (scopes : List String) (rows : List Fields)
      → All (λ row. py.upper (extract_row_scope row) ≡ extract_row_scope row) rows
      → count (λ row. not (in_scope scopes row)) rows ≤ (count_penalized scopes rows).0
  unfolding in_scope count_penalized
  ratio_counts_penalized scopes [] h = omega arith
  ratio_counts_penalized scopes (row ∷ rows) h =
      let rest = ratio_counts_penalized scopes rows h.1 in
      let same = any-upper scopes (extract_row_scope row) h.0 in ground arith
