-- ===== src/Retrieval/Fusion/Rrf/Result.antt =====
-- `rrf_merge`: what the caller gets.
use cire_rag.Base.{
  ltb, Bool-cases, length, take, All, length-take, take_of_length-le, All-take, map-take, ℕ, suc,
  ◌≤◌, max, String, ◌≡◌, refl, sym, ap, ◌∙◌, ◌⊎◌, inl, inr, true, some, List, [], ◌∷◌, map, arith,
  eq_refl,
}
use cire_rag.Base.Assoc.{names, lookup-names}
use cire_rag.Base.Text.{has, Distinct, Distinct-take}
use cire_rag.Base.Value.{ℤ, pos, Python}
use cire_rag.Retrieval.Item.{RetrievalItem, item_identity}
use cire_rag.Retrieval.Fusion.{identities}
use cire_rag.Retrieval.Fusion.Rrf.{
  Rounded, Ranking, unranked, score_of, sort_ranked, ranked_item, collect, rank_groups, ranked_ids,
  rrf_merge,
}
use cire_rag.Retrieval.Fusion.Rrf.Laws.{
  has-sort_ranked, sort_ranked-Distinct, sort_ranked-Descending, Descending, Descending-take,
  identity-ranked_item, IsRanking, ranked-IsRanking, add_groups, score-rank_groups, occurs,
  names-rank_groups,
}

module _ ⦃py : Python⦄ where
  abbrev pub scores : List RetrievalItem → List ℤ
  scores items = map (λ item. item.score) items

  collect_ids :
      (r : Ranking) (ids : List String)
      → IsRanking r
      → All (λ i. has i (names r.score_by_id) ≡ true) ids
      → (rows : List RetrievalItem) × (collect r ids ≡ some rows)
        × (identities rows ≡ ids)
        × (scores rows ≡ map (λ i. score_of i r.score_by_id) ids)
  unfolding collect
  collect_ids r [] v h = ([], refl, refl, refl)
  collect_ids r (i ∷ ids) v h =
      let (rows, got, same, scored) = collect_ids r ids v h.1 in
      let (item, at_i) = lookup-names i r.item_by_id (v.same i ∙ h.0) in
      let (n, score_i) = lookup-names i r.score_by_id h.0 in
      let own = identity-ranked_item n item ∙ v.own i item at_i in
      (ranked_item n item ∷ rows, ground arith, ground (arith, own), ground arith)

  All-has :
      (xs : List String) (ys : List String)
      → ((k : String) → has k xs ≡ true → has k ys ≡ true)
      → All (λ i. has i ys ≡ true) xs
  All-has [] ys h = tt
  All-has (x ∷ xs) ys h =
      (h x (ground (arith, eq_refl x)), All-has xs ys (λ k e. h k (ground (arith, e))))

  length-identities : (rows : List RetrievalItem) → length (identities rows) ≡ length rows
  length-identities [] = refl
  length-identities (x ∷ rows) = ap suc (length-identities rows)

  module _ ⦃floats : Rounded⦄ (groups : List (List RetrievalItem)) (rrf_k top_k : ℕ) where
    ranking : Ranking
    ranking = rank_groups rrf_k groups unranked

    ids : List String
    ids = take (max 1 top_k) (ranked_ids ranking)

    merged :
        (rows : List RetrievalItem) × (rrf_merge groups rrf_k top_k ≡ some rows)
        × (identities rows ≡ ids)
        × (scores rows ≡ map (λ i. score_of i ranking.score_by_id) ids)
    unfolding rrf_merge ranking ids ranked_ids
    merged =
        let score = λ (i : String). score_of i ranking.score_by_id in
        let all_ids = names ranking.score_by_id in
        collect_ids ranking ids (ranked-IsRanking rrf_k groups) (
          All-take (λ i. has i all_ids ≡ true) (max 1 top_k) (sort_ranked score all_ids)
            (All-has (sort_ranked score all_ids) all_ids
              (λ k h. sym (has-sort_ranked score k all_ids) ∙ h)))

    -- Reciprocal rank fusion returns a result, without an error: at most `top_k` rows, or one where
    -- `top_k` is 0, the best first, and none by the same identity as another.
    pub rrf_best_first :
        (rows : List RetrievalItem) × (rrf_merge groups rrf_k top_k ≡ some rows)
        × (length rows ≤ max 1 top_k)
        × Distinct (identities rows)
        × Descending (scores rows)
    unfolding ranking ids ranked_ids
    rrf_best_first =
        let (rows, got, same, scored) = merged in
        let score = λ (i : String). score_of i ranking.score_by_id in
        let all_ids = names ranking.score_by_id in
        let v = ranked-IsRanking rrf_k groups in
        (
          rows,
          got,
          omega (
            arith,
            length-identities rows,
            ap length same,
            length-take {0} (max 1 top_k) (sort_ranked score all_ids),
          ),
          rw same (
              Distinct-take (max 1 top_k) (sort_ranked score all_ids)
                (sort_ranked-Distinct score all_ids v.distinct)),
          rw (scored, map-take score (max 1 top_k) (sort_ranked score all_ids))
              (Descending-take (max 1 top_k) (map score (sort_ranked score all_ids))
                (sort_ranked-Descending score all_ids)),
        )

    scores-identities :
        (rows : List RetrievalItem)
        → scores rows ≡ map (λ i. score_of i ranking.score_by_id) (identities rows)
        → All (λ x. x.score ≡ add_groups rrf_k (item_identity x) groups (pos 0)) rows
    unfolding ranking
    scores-identities [] h = tt
    scores-identities (x ∷ rows) h = (
      ground (arith, score-rank_groups rrf_k (item_identity x) groups unranked),
      scores-identities rows (ground arith),
    )

    -- The score of each row of the result is the sum, in their order, of 1 / (rrf_k + rank) over all
    -- places, of all groups, where an item with the row's identity stands.
    pub rrf_scores :
        (rows : List RetrievalItem) × (rrf_merge groups rrf_k top_k ≡ some rows)
        × All (λ x. x.score ≡ add_groups rrf_k (item_identity x) groups (pos 0)) rows
    rrf_scores =
        let (rows, got, same, scored) = merged in
        (rows, got, scores-identities rows (rw same scored))

    -- The result has `top_k` rows, or one where `top_k` is 0, or it holds the identity of every item
    -- of the groups.
    rrf_complete :
        (i : String)
        → occurs i groups ≡ true
        → (rows : List RetrievalItem) × (rrf_merge groups rrf_k top_k ≡ some rows)
          × ((length rows ≡ max 1 top_k) ⊎ (has i (identities rows) ≡ true))
    unfolding ranking ids ranked_ids
    rrf_complete i h =
        let (rows, got, same, scored) = merged in
        let score = λ (i : String). score_of i ranking.score_by_id in
        let all_ids = names ranking.score_by_id in
        let sorted_ids = sort_ranked score all_ids in
        let cut = length-take {0} (max 1 top_k) sorted_ids in
        let there = has-sort_ranked score i all_ids in
        (
          rows,
          got,
          elim (Bool-cases (ltb (length rows) (max 1 top_k))) [
            | inr full ↦ inl (ground (arith, cut, length-identities rows, ap length same))
            | inl short ↦
                let whole =
                  take_of_length-le (max 1 top_k) sorted_ids
                    (ground (arith, cut, length-identities rows, ap length same)) in
                inr (
                  ap (has i) (same ∙ whole)
                  ∙ ground (arith, there, names-rank_groups rrf_k i groups unranked))
          ],
        )
