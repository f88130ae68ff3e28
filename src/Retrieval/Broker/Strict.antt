-- ===== src/Retrieval/Broker/Strict.antt =====
-- `_apply_reranking` under `SCOPE_STRICT_FILTERING`: which rows are left.
use mathlib.Core.Path.{subst}
use cire_rag.Base.{
  Bool-cases, Option-cases, any, All, ℕ, String, ◌≡◌, refl, ◌≢◌, ◌⊎◌, inl, inr, true, not, none,
  some, List, [], ◌∷◌, arith,
}
use cire_rag.Base.Value.{dict, Fields, Python, truthy, get}
use cire_rag.Retrieval.Scoping.{requested_scopes_from_context}
use cire_rag.Retrieval.Scoping.Names.{Patterns}
use cire_rag.Retrieval.Scoping.Penalty.{Penalty, apply_scope_penalty, penalize_rows}
use cire_rag.Retrieval.Fusion.Items.{Parse}
use cire_rag.Retrieval.Broker.Rerank.{
  Boost, Rerankers, RerankSettings, execute_gravity_rerank, rerank_mode, cut, strict_rows, pooled,
  semantic_rows, ranked_rows, try_reranking, apply_reranking,
}
use cire_rag.Retrieval.Broker.Every.{All-cut, All-pooled, All-execute_external_rerank}
use cire_rag.Retrieval.Broker.Marks.{
  is_flagged, InScope, Marked, stays_in, with_scores_keeps, penalize_rows-Marked,
  strict_rows-InScope,
}

module _ ⦃py : Python⦄ ⦃re : Patterns⦄ ⦃parse : Parse⦄ ⦃boost : Boost⦄ ⦃penalty : Penalty⦄
    (settings : RerankSettings) (rerankers : Rerankers) where
  semantic-InScope :
      (scopes : List String) (query : String) (filters : Fields) (k : ℕ) (rows out : List Fields)
      → semantic_rows settings rerankers query filters k rows ≡ some out
      → All (InScope scopes) rows
      → All (InScope scopes) out
  unfolding semantic_rows
  semantic-InScope scopes query filters k [] out got h =
      let none_there : [] ≡ out = ground (arith, got) in subst (All (InScope scopes)) none_there tt
  semantic-InScope scopes query filters k (row ∷ rows) out got h =
      elim (Bool-cases (truthy (get "_skip_external_rerank" filters))) [
        | inl e ↦
            let unchanged : row ∷ rows ≡ out = ground (arith, got) in
            subst (All (InScope scopes)) unchanged h
        | inr e ↦
            All-execute_external_rerank (InScope scopes) (with_scores_keeps scopes) settings
              rerankers query (row ∷ rows) (rerank_mode settings.rerank_mode) k out
              (ground (arith, got)) h
      ]

  -- The steps after the penalty: the filter, the pool, the semantic reranker and the cut.
  ranked_rows-InScope :
      (scopes : List String) (query : String) (filters : Fields) (k : ℕ)
      (penalized out : List Fields)
      → settings.strict_filtering ≡ true
      → scopes ≢ []
      → any (λ (row : Fields). not (is_flagged row)) penalized ≡ true
      → All (Marked scopes) penalized
      → ranked_rows settings rerankers scopes query filters k penalized ≡ some out
      → All (InScope scopes) out
  unfolding ranked_rows
  ranked_rows-InScope scopes query filters k penalized out strict asked some_left marks got =
      let strictly = strict_rows settings.strict_filtering scopes penalized in
      let clean_rows : All (InScope scopes) strictly =
        rw strict (strict_rows-InScope scopes penalized some_left asked marks) in
      let pool = pooled settings scopes strictly in
      elim (Option-cases (semantic_rows settings rerankers query filters k pool)) [
        | inl e ↦ absurd (ground (arith, got))
        | inr (more, e) ↦
            let answer : cut scopes more k ≡ out = ground (arith, got) in
            subst (All (InScope scopes)) answer (
              All-cut (InScope scopes) scopes more k (
                semantic-InScope scopes query filters k pool more e
                  (All-pooled (InScope scopes) settings scopes strictly clean_rows)))
      ]

  try_reranking-InScope :
      (scopes : List String) (query : String) (results ranked rows : List Fields) (filters : Fields)
      (k : ℕ)
      → settings.strict_filtering ≡ true
      → scopes ≢ []
      → execute_gravity_rerank rerankers filters results ≡ some ranked
      → any (stays_in scopes) ranked ≡ true
      → try_reranking settings rerankers scopes query results filters k ≡ some rows
      → All (InScope scopes) rows
  unfolding try_reranking apply_scope_penalty
  try_reranking-InScope [] query results ranked rows filters k strict asked gravity left got =
      absurd (asked refl)
  try_reranking-InScope (s ∷ ss) query results ranked rows filters k strict asked gravity left got =
      elim (Option-cases (penalize_rows (s ∷ ss) ranked)) [
        | inl e ↦ absurd (ground (arith, got, gravity))
        | inr (penalized, e) ↦
            let (marks, found) = penalize_rows-Marked (s ∷ ss) ranked penalized e in
            ranked_rows-InScope (s ∷ ss) query filters k penalized rows strict asked (found left)
              marks (ground (arith, got, gravity))
      ]

  -- Under strict filtering with requested scopes, where a row of the gravity reranking is in scope
  -- and not flagged: each row that is answered has a requested scope or none; or the reranking
  -- fails, and the rows as they were found are answered, cut, whatever their scopes.
  pub strict_reranking :
      (query : String) (results ranked : List Fields) (filters : Fields) (k : ℕ)
      → settings.strict_filtering ≡ true
      → requested_scopes_from_context (dict filters) ≢ []
      → execute_gravity_rerank rerankers filters results ≡ some ranked
      → any (stays_in (requested_scopes_from_context (dict filters))) ranked ≡ true
      → All
          (InScope (requested_scopes_from_context (dict filters)))
          (apply_reranking settings rerankers query results filters k)
        ⊎ ((try_reranking settings rerankers
                (requested_scopes_from_context (dict filters))
                query
                results
                filters
                k
              ≡ none)
            × (apply_reranking settings rerankers query results filters k
                ≡ cut (requested_scopes_from_context (dict filters)) results k))
  unfolding apply_reranking
  strict_reranking query results ranked filters k strict asked gravity left =
      let scopes = requested_scopes_from_context (dict filters) in
      elim (Option-cases (try_reranking settings rerankers scopes query results filters k)) [
        | inl e ↦ inr (e, rw (e, apply_reranking) refl)
        | inr (rows, e) ↦ inl (
            rw (e, apply_reranking)
              (try_reranking-InScope scopes query results ranked rows filters k strict asked gravity
                left e))
      ]
