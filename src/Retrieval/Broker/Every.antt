-- ===== src/Retrieval/Broker/Every.antt =====
-- `_apply_reranking`: what holds of all rows before a step holds of all rows after it.
use mathlib.Core.Path.{subst}
use cire_rag.Base.{
  Bool-cases, Option-cases, length, get_elem?, take, keep, All, All-append, All-take, ℕ, zero, suc,
  min, String, ◌≡◌, inl, inr, Bool, true, false, ◌&&◌, ◌||◌, Option, none, some, List, [], ◌∷◌,
  ◌++◌, map, arith, ◌==◌,
}
use cire_rag.Base.Value.{ℤ, pos, negsuc, Fields, Python, get, text_or_empty}
use cire_rag.Retrieval.Scoping.Names.{Patterns}
use cire_rag.Retrieval.Fusion.Items.{Parse, safe_float}
use cire_rag.Retrieval.Fusion.Rrf.{at_least}
use cire_rag.Retrieval.Fusion.Stratify.{scope_targets, stratify_results}
use cire_rag.Retrieval.Fusion.Stratify.Buckets.{is_of, is_other}
use cire_rag.Retrieval.Fusion.Stratify.Laws.{heads, tail, columns}
use cire_rag.Retrieval.Fusion.Stratify.Result.{in_turn, stratified_in_turn}
use cire_rag.Retrieval.Broker.Rerank.{
  RerankRow, Boost, Rerankers, RerankSettings, pool_size, insert_scored, sort_scored, is_indexed,
  not_indexed, with_scores, combined_score, rescored, reordered, merge_reranked,
  execute_external_rerank, cut, pooled,
}
use cire_rag.Retrieval.Broker.Keeps.{row_of}

module _ (P : Fields → Type 0) where
  All-keep : (q : Fields → Bool) (rows : List Fields) → All P rows → All P (keep q rows)
  All-keep q [] h = tt
  All-keep q (row ∷ rows) h = elim (Bool-cases (q row)) [
    | inl e ↦ rw e (h.0, All-keep q rows h.1)
    | inr e ↦ rw e (All-keep q rows h.1)
  ]

  All-get :
      (rows : List Fields) (n : ℕ) (row : Fields) → get_elem? rows n ≡ some row → All P rows → P row
  All-get [] n row got h = absurd (ground (arith, got))
  All-get (x ∷ rows) zero row got h = subst P (ground (arith, got)) h.0
  All-get (x ∷ rows) (suc n) row got h = All-get rows n row got h.1

  All-heads : (bs : List (List Fields)) → All (All P) bs → All P (heads bs)
  All-heads [] h = tt
  All-heads ([] ∷ bs) h = All-heads bs h.1
  All-heads ((r ∷ rs) ∷ bs) h = (h.0.0, All-heads bs h.1)

  All-tails : (bs : List (List Fields)) → All (All P) bs → All (All P) (map tail bs)
  All-tails [] h = tt
  All-tails ([] ∷ bs) h = (tt, All-tails bs h.1)
  All-tails ((r ∷ rs) ∷ bs) h = (h.0.1, All-tails bs h.1)

  All-columns : (n : ℕ) (bs : List (List Fields)) → All (All P) bs → All P (columns n bs)
  All-columns zero bs h = tt
  All-columns (suc n) bs h =
      All-append P (heads bs) (columns n (map tail bs)) (All-heads bs h)
        (All-columns n (map tail bs) (All-tails bs h))

  All-insert_scored :
      (x : ℤ × Fields) (xs : List (ℤ × Fields))
      → P x.1
      → All P (map row_of xs)
      → All P (map row_of (insert_scored x xs))
  unfolding insert_scored
  All-insert_scored (n, row) [] px h = (px, tt)
  All-insert_scored (n, row) ((m, r) ∷ xs) px h = elim (Bool-cases (at_least n m)) [
    | inl e ↦ rw e (px, h)
    | inr e ↦ rw e (h.0, All-insert_scored (n, row) xs px h.1)
  ]

  All-sort_scored :
      (xs : List (ℤ × Fields)) → All P (map row_of xs) → All P (map row_of (sort_scored xs))
  unfolding sort_scored
  All-sort_scored [] h = tt
  All-sort_scored (x ∷ xs) h = All-insert_scored x (sort_scored xs) h.0 (All-sort_scored xs h.1)

  All-not_indexed :
      (rows : List RerankRow) (i : ℕ) (results : List Fields)
      → All P results
      → All P (not_indexed rows i results)
  unfolding not_indexed
  All-not_indexed rows i [] h = tt
  All-not_indexed rows i (c ∷ cs) h = elim (Bool-cases (is_indexed i rows)) [
    | inl e ↦ rw e (All-not_indexed rows (suc i) cs h.1)
    | inr e ↦ rw e (h.0, All-not_indexed rows (suc i) cs h.1)
  ]

  module _ ⦃py : Python⦄ ⦃re : Patterns⦄ where
    All-lines :
        (targets ss : List String) (rows : List Fields)
        → All P rows
        → All (All P) (map (λ s. keep (is_of targets s) rows) ss)
    All-lines targets [] rows h = tt
    All-lines targets (s ∷ ss) rows h =
        (All-keep (is_of targets s) rows h, All-lines targets ss rows h)

    All-stratify :
        (rows : List Fields) (scopes : List String) (m : ℕ)
        → All P rows
        → All P (stratify_results rows scopes m)
    All-stratify rows scopes m h =
        let targets = scope_targets scopes in
        rw (stratified_in_turn rows scopes m) (
          All-take P m (in_turn targets rows) (
            All-append P (columns (length rows) (map (λ s. keep (is_of targets s) rows) targets))
              (keep (is_other targets) rows)
              (All-columns (length rows) (map (λ s. keep (is_of targets s) rows) targets)
                (All-lines targets targets rows h))
              (All-keep (is_other targets) rows h)))

    pub All-cut :
        (scopes : List String) (rows : List Fields) (k : ℕ) → All P rows → All P (cut scopes rows k)
    All-cut [] rows k h = All-take P k rows h
    All-cut (a ∷ []) rows k h = All-take P k rows h
    All-cut (a ∷ b ∷ scopes) rows k h = All-stratify rows (a ∷ b ∷ scopes) k h

    pub All-pooled :
        (settings : RerankSettings) (scopes : List String) (rows : List Fields)
        → All P rows
        → All P (pooled settings scopes rows)
    All-pooled settings [] rows h = h
    All-pooled settings (a ∷ []) rows h = h
    All-pooled settings (a ∷ b ∷ scopes) rows h =
        All-stratify rows (a ∷ b ∷ scopes) (pool_size settings rows) h

  module _ ⦃py : Python⦄ ⦃parse : Parse⦄ ⦃boost : Boost⦄
      (same : (j : Bool) (a b : ℤ) (row : Fields) → P row → P (with_scores j a b row)) where
    All-rescored :
        (j : Bool) (pool : List Fields) (r : RerankRow) (rest out : List (ℤ × Fields))
        → rescored j pool r rest ≡ some out
        → All P pool
        → All P (map row_of rest)
        → All P (map row_of out)
    unfolding rescored
    All-rescored j pool r rest out got h hs = elim (Option-cases r.index) [
      | inl e ↦ absurd (ground (arith, got))
      | inr (negsuc n, e) ↦
          let unchanged : rest ≡ out = ground (arith, got) in
          subst (λ l. All P (map row_of l)) unchanged hs
      | inr (pos n, e) ↦ elim (Option-cases (get_elem? pool n)) [
        | inl e2 ↦
            let unchanged : rest ≡ out = ground (arith, got) in
            subst (λ l. All P (map row_of l)) unchanged hs
        | inr (row, e2) ↦
            let score = safe_float r.relevance_score in
            elim (Option-cases (combined_score row score)) [
              | inl e3 ↦ absurd (ground (arith, got))
              | inr (c, e3) ↦
                  let added : (c, with_scores j score c row) ∷ rest ≡ out = ground (arith, got) in
                  subst (λ l. All P (map row_of l)) added
                    (same j score c row (All-get pool n row e2 h), hs)
            ]
      ]
    ]

    All-reordered :
        (j : Bool) (pool : List Fields) (rows : List RerankRow) (out : List (ℤ × Fields))
        → reordered j pool rows ≡ some out
        → All P pool
        → All P (map row_of out)
    unfolding reordered
    All-reordered j pool [] out got h =
        let none_there : [] ≡ out = ground (arith, got) in
        subst (λ l. All P (map row_of l)) none_there tt
    All-reordered j pool (r ∷ rows) out got h = elim (Option-cases (reordered j pool rows)) [
      | inl e ↦ absurd (ground (arith, got))
      | inr (rest, e) ↦
          All-rescored j pool r rest out (ground (arith, got)) h
            (All-reordered j pool rows rest e h)
    ]

    All-merge_reranked :
        (j : Bool) (pool results : List Fields) (answer : Option (List RerankRow))
        (out : List Fields)
        → merge_reranked j pool results answer ≡ some out
        → All P pool
        → All P results
        → All P out
    unfolding merge_reranked
    All-merge_reranked j pool results none out got h hs = absurd (ground (arith, got))
    All-merge_reranked j pool results (some []) out got h hs =
        let unchanged : results ≡ out = ground (arith, got) in subst (All P) unchanged hs
    All-merge_reranked j pool results (some (r ∷ rows)) out got h hs =
        elim (Option-cases (reordered j pool (r ∷ rows))) [
          | inl e ↦ absurd (ground (arith, got))
          | inr (scored, e) ↦
              let left = not_indexed (r ∷ rows) 0 results in
              let answer : map row_of (sort_scored scored) ++ left ≡ out = ground (arith, got) in
              subst (All P) answer (
                All-append P (map row_of (sort_scored scored)) left
                  (All-sort_scored scored (All-reordered j pool (r ∷ rows) scored e h))
                  (All-not_indexed (r ∷ rows) 0 results hs))
        ]

    pub All-execute_external_rerank :
        (settings : RerankSettings) (rerankers : Rerankers) (query : String) (results : List Fields)
        (mode : String) (k : ℕ) (out : List Fields)
        → execute_external_rerank settings rerankers query results mode k ≡ some out
        → All P results
        → All P out
    unfolding execute_external_rerank
    All-execute_external_rerank settings rerankers query results mode k out got hs =
        let pool = take (pool_size settings results) results in
        let documents = map (λ (row : Fields). text_or_empty (get "content" row)) pool in
        let h = All-take P (pool_size settings results) results hs in
        let top_n = min k (length pool) in
        elim (Bool-cases (mode == "cohere" && rerankers.cohere_enabled)) [
          | inl e ↦
              All-merge_reranked false pool results (rerankers.cohere query documents top_n) out
                (ground (arith, got)) h hs
          | inr e ↦
              elim (Bool-cases ((mode == "jina" || mode == "hybrid") && rerankers.jina_enabled)) [
                | inl e2 ↦
                    All-merge_reranked true pool results (rerankers.jina query documents top_n) out
                      (ground (arith, got)) h hs
                | inr e2 ↦
                    let unchanged : results ≡ out = ground (arith, got) in
                    subst (All P) unchanged hs
              ]
        ]
