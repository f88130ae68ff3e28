-- ===== src/Retrieval/Broker/Marks.antt =====
-- `apply_scope_penalty` and the strict filtering: which rows are in scope, and which are flagged.
use mathlib.Core.Path.{subst}
use cire_rag.Base.{
  if◌then◌else◌, Bool-cases, Option-cases, keep, any, All, String, ◌≡◌, refl, ◌∙◌, ◌≢◌, ◌⊎◌, inl,
  inr, Bool, true, false, not, ◌&&◌, some, List, [], ◌∷◌, arith, ◌==◌,
}
use cire_rag.Base.Value.{ℤ, Value, Fields, Python, truthy, get, put, get-put}
use cire_rag.Retrieval.Scoping.Names.{Patterns, extract_row_scope}
use cire_rag.Retrieval.Scoping.Penalty.{
  Penalty, in_scope, penalize, penalize_rows, base_value, adjusted, at_least_zero,
}
use cire_rag.Retrieval.Broker.Rerank.{with_scores, strict_rows}

abbrev pub is_flagged : Fields → Bool
is_flagged row = truthy (get "scope_penalized" row)

any-keep : (q : Fields → Bool) (rows : List Fields) → any q rows ≡ true → keep q rows ≢ []
any-keep q [] found none_kept = absurd (ground (arith, found))
any-keep q (row ∷ rows) found none_kept = elim (Bool-cases (q row)) [
  | inl e ↦ absurd (ground (arith, none_kept))
  | inr e ↦ any-keep q rows (ground (arith, found)) (ground (arith, none_kept))
]

All-of_some :
    (P : Fields → Type 0) (kept rows : List Fields)
    → kept ≢ []
    → All P kept
    → All P (elim kept [ [] ↦ rows | r ∷ rs ↦ r ∷ rs ])
All-of_some P [] rows some_kept h = absurd (some_kept refl)
All-of_some P (r ∷ rs) rows some_kept h = h

module _ ⦃py : Python⦄ where
  -- The scope of a row is read from two of its keys.
  extract_row_scope-put :
      (k : String) (v : Value) (row : Fields)
      → (k == "metadata") ≡ false
      → (k == "source_standard") ≡ false
      → extract_row_scope (put k v row) ≡ extract_row_scope row
  unfolding extract_row_scope
  extract_row_scope-put k v row h1 h2 = simp (get-put, h1, h2) refl

module _ ⦃py : Python⦄ ⦃re : Patterns⦄ where
  -- The row has no scope, or one of the requested ones.
  abbrev pub InScope : List String → Fields → Type 0
  InScope scopes row = in_scope scopes row ≡ true

  in_scope-put :
      (scopes : List String) (k : String) (v : Value) (row : Fields)
      → (k == "metadata") ≡ false
      → (k == "source_standard") ≡ false
      → in_scope scopes (put k v row) ≡ in_scope scopes row
  unfolding in_scope
  in_scope-put scopes k v row h1 h2 = rw (extract_row_scope-put k v row h1 h2) refl

  pub with_scores_keeps :
      (scopes : List String) (j : Bool) (a b : ℤ) (row : Fields)
      → InScope scopes row
      → InScope scopes (with_scores j a b row)
  with_scores_keeps scopes true a b row h =
      in_scope-put scopes _ _ _ refl refl
      ∙ in_scope-put scopes _ _ _ refl refl
      ∙ in_scope-put scopes _ _ row refl refl
      ∙ h
  with_scores_keeps scopes false a b row h =
      in_scope-put scopes _ _ _ refl refl ∙ in_scope-put scopes _ _ row refl refl ∙ h

  -- What the penalty leaves: in scope, or flagged.
  abbrev pub Marked : List String → Fields → Type 0
  Marked scopes row = InScope scopes row ⊎ (is_flagged row ≡ true)

  -- A row that the strict filter keeps, and that the penalty leaves as it is.
  abbrev pub stays_in : List String → Fields → Bool
  stays_in scopes row = in_scope scopes row && not (truthy (get "scope_penalized" row))

  keep-InScope :
      (scopes : List String) (rows : List Fields)
      → All (Marked scopes) rows
      → All (InScope scopes) (keep (λ (row : Fields). not (is_flagged row)) rows)
  keep-InScope scopes [] h = tt
  keep-InScope scopes (row ∷ rows) (inr flagged, h) = rw flagged (keep-InScope scopes rows h)
  keep-InScope scopes (row ∷ rows) (inl inside, h) = elim (Bool-cases (is_flagged row)) [
    | inl e ↦ rw e (keep-InScope scopes rows h)
    | inr e ↦ rw e (inside, keep-InScope scopes rows h)
  ]

  module _ ⦃penalty : Penalty⦄ where
    penalize-flags : (row out : Fields) → penalize row ≡ some out → is_flagged out ≡ true
    unfolding penalize
    penalize-flags row out h = elim (Option-cases (penalty.float_of (base_value row))) [
      | inl e ↦ absurd (ground (arith, h))
      | inr (base, e) ↦
          let made : adjusted penalty.factor (at_least_zero (penalty.reduced base)) row ≡ out =
            ground (arith, h) in
          subst (λ o. is_flagged o ≡ true) made (simp get-put refl)
    ]

    first-Marked :
        (scopes : List String) (row out : Fields)
        → (if in_scope scopes row then some row else penalize row) ≡ some out
        → Marked scopes out × ((stays_in scopes row ≡ true) → is_flagged out ≡ false)
    first-Marked scopes row out h = elim (Bool-cases (in_scope scopes row)) [
      | inl e ↦
          let same : row ≡ out = ground (arith, h) in
          (
            inl (subst (InScope scopes) same e),
            λ s. subst (λ o. is_flagged o ≡ false) same (ground (arith, s)),
          )
      | inr e ↦ (inr (penalize-flags row out (ground (arith, h))), λ s. absurd (ground (arith, s)))
    ]

    pub penalize_rows-Marked :
        (scopes : List String) (rows out : List Fields)
        → penalize_rows scopes rows ≡ some out
        → All (Marked scopes) out
          × (any (stays_in scopes) rows ≡ true
              → any (λ (row : Fields). not (is_flagged row)) out ≡ true)
    unfolding penalize_rows
    penalize_rows-Marked scopes [] out h =
        let none_there : [] ≡ out = ground (arith, h) in
        (subst (All (Marked scopes)) none_there tt, λ s. absurd (ground (arith, s)))
    penalize_rows-Marked scopes (row ∷ rows) out h =
        elim (Option-cases (if in_scope scopes row then some row else penalize row)) [
          | inl e ↦ absurd (ground (arith, h))
          | inr (first, e) ↦ elim (Option-cases (penalize_rows scopes rows)) [
            | inl e2 ↦ absurd (ground (arith, h))
            | inr (more, e2) ↦
                let made : first ∷ more ≡ out = ground (arith, h) in
                let (mark, keeps) = first-Marked scopes row first e in
                let (marks, found) = penalize_rows-Marked scopes rows more e2 in
                (
                  subst (All (Marked scopes)) made (mark, marks),
                  λ s.
                      subst (λ o. any (λ (row : Fields). not (is_flagged row)) o ≡ true) made
                        (elim (Bool-cases (stays_in scopes row)) [
                          | inl here_in ↦ ground (arith, keeps here_in)
                          | inr e3 ↦ ground (arith, s, e3, found)
                        ]),
                )
          ]
        ]

  pub strict_rows-InScope :
      (scopes : List String) (rows : List Fields)
      → any (λ (row : Fields). not (is_flagged row)) rows ≡ true
      → scopes ≢ []
      → All (Marked scopes) rows
      → All (InScope scopes) (strict_rows true scopes rows)
  unfolding strict_rows
  strict_rows-InScope [] rows some_left asked marks = absurd (asked refl)
  strict_rows-InScope (s ∷ scopes) rows some_left asked marks =
      All-of_some (InScope (s ∷ scopes)) (keep (λ (row : Fields). not (is_flagged row)) rows) rows
        (any-keep (λ (row : Fields). not (is_flagged row)) rows some_left)
        (keep-InScope (s ∷ scopes) rows marks)
