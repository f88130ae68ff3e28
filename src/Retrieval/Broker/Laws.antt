-- ===== src/Retrieval/Broker/Laws.antt =====
-- `RetrievalBroker.retrieve`: how much it answers, when it fails, and which options reach it.
use cire_rag.Base.Text.{is_empty}
use cire_rag.Base.{
  Bool-cases, Option-cases, length, length-take, ℕ, ◌≤◌, String, ◌≡◌, inl, inr, some, List, [], ◌∷◌,
  arith,
}
use cire_rag.Base.Value.{dict, Fields, Python}
use cire_rag.Retrieval.Scoping.Names.{Patterns}
use cire_rag.Retrieval.Scoping.Penalty.{Penalty, apply_scope_penalty}
use cire_rag.Retrieval.Scoping.SubQuery.{Search}
use cire_rag.Retrieval.Scoping.{requested_scopes_from_context}
use cire_rag.Retrieval.Fusion.Items.{Parse}
use cire_rag.Retrieval.Fusion.Stratify.Result.{in_turn, stratified_in_turn}
use cire_rag.Retrieval.Fusion.Stratify.{scope_targets}
use cire_rag.Retrieval.Planning.{Digits}
use cire_rag.Retrieval.Resolve.{resolve_retrieval_filters}
use cire_rag.Retrieval.Broker.Rerank.{
  Boost, Rerankers, RerankSettings, cut, semantic_rows, ranked_rows, try_reranking,
  execute_gravity_rerank, strict_rows, pooled, apply_reranking,
}
use cire_rag.Retrieval.Broker.{Engines, Call, raw_results, rank_phase, retrieve}

module _ ⦃py : Python⦄ ⦃re : Patterns⦄ ⦃parse : Parse⦄ ⦃boost : Boost⦄ where
  cut_short : (scopes : List String) (rows : List Fields) (k : ℕ) → length (cut scopes rows k) ≤ k
  cut_short [] rows k = omega (arith, length-take k rows)
  cut_short (a ∷ []) rows k = omega (arith, length-take k rows)
  cut_short (a ∷ b ∷ scopes) rows k =
      rw (stratified_in_turn rows (a ∷ b ∷ scopes) k)
        (omega (arith, length-take k (in_turn (scope_targets (a ∷ b ∷ scopes)) rows)))

  module _ ⦃penalty : Penalty⦄ (settings : RerankSettings) (rerankers : Rerankers) where
    -- The answer of the `try` is cut.
    try_reranking-cut :
        (scopes : List String) (query : String) (results : List Fields) (filters : Fields) (k : ℕ)
        (rows : List Fields)
        → try_reranking settings rerankers scopes query results filters k ≡ some rows
        → (more : List Fields) × (rows ≡ cut scopes more k)
    unfolding try_reranking ranked_rows
    try_reranking-cut scopes query results filters k rows h =
        elim (Option-cases (execute_gravity_rerank rerankers filters results)) [
          | inl e ↦ absurd (ground arith)
          | inr (ranked, e) ↦ elim (Option-cases (apply_scope_penalty ranked scopes)) [
            | inl e2 ↦ absurd (ground arith)
            | inr (p, e2) ↦
                elim (Option-cases (
                  semantic_rows settings rerankers query filters k
                    (pooled settings scopes (strict_rows settings.strict_filtering scopes p)))) [
                      | inl e3 ↦ absurd (ground arith)
                      | inr (more, e3) ↦ (more, ground arith)
                    ]
          ]
        ]

    reranking-cut :
        (query : String) (results : List Fields) (filters : Fields) (k : ℕ)
        → (more : List Fields) × (apply_reranking settings rerankers query results filters k
            ≡ cut (requested_scopes_from_context (dict filters)) more k)
    unfolding apply_reranking
    reranking-cut query results filters k =
        let scopes = requested_scopes_from_context (dict filters) in
        elim (Option-cases (try_reranking settings rerankers scopes query results filters k)) [
          | inl e ↦ (results, ground arith)
          | inr (rows, e) ↦
              let (more, same) = try_reranking-cut scopes query results filters k rows e in
              (more, ground arith)
        ]

    pub reranking_short :
        (query : String) (results : List Fields) (filters : Fields) (k : ℕ)
        → length (apply_reranking settings rerankers query results filters k) ≤ k
    reranking_short query results filters k =
        let (more, same) = reranking-cut query results filters k in
        rw same (cut_short (requested_scopes_from_context (dict filters)) more k)

module _ ⦃py : Python⦄ ⦃re : Patterns⦄ ⦃search : Search⦄ ⦃digits : Digits⦄ ⦃parse : Parse⦄
    ⦃penalty : Penalty⦄ ⦃boost : Boost⦄ (mode : String) (settings : RerankSettings)
    (engines : Engines) (rerankers : Rerankers) where
  rank_phase_short :
      (query : String) (filters : Fields) (call : Call) (rows : List Fields)
      → length (rank_phase mode settings engines rerankers query filters call rows) ≤ call.k
  unfolding rank_phase
  rank_phase_short query filters call [] = omega arith
  rank_phase_short query filters call (row ∷ rows) = elim (Bool-cases call.enable_reranking) [
    | inr e ↦ rw e (omega (arith, length-take call.k (row ∷ rows)))
    | inl e ↦ rw e (reranking_short settings rerankers query (row ∷ rows) filters call.k)
  ]

  -- An answer of `retrieve` has at most `k` rows, with and without reranking, in both strategies,
  -- after each fallback and where the reranking fails.
  pub retrieve_bounded :
      (query_filters : Fields) (query : String) (context : Fields) (call : Call)
      (rows : List Fields)
      → retrieve mode settings engines rerankers query_filters query context call ≡ some rows
      → length rows ≤ call.k
  unfolding retrieve
  retrieve_bounded query_filters query context call rows h = elim (Bool-cases (is_empty query)) [
    | inl e ↦ let none_there : rows ≡ [] = ground (arith, h) in rw none_there (omega arith)
    | inr e ↦ elim (Option-cases (resolve_retrieval_filters query_filters query context)) [
      | inl e2 ↦ absurd (ground arith)
      | inr (filters, e2) ↦
          elim (Option-cases (raw_results mode settings engines rerankers query filters call)) [
            | inl e3 ↦ absurd (ground arith)
            | inr (raw, e3) ↦
                let same : rows
                    ≡ rank_phase mode settings engines rerankers query filters call raw =
                  ground arith in
                rw same (rank_phase_short query filters call raw)
          ]
    ]
  ]
