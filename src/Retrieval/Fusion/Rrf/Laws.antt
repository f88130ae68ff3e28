-- ===== src/Retrieval/Fusion/Rrf/Laws.antt =====
-- `rrf_merge`: the two dictionaries while the groups are read, and the sorting of their keys.
use cire_rag.Base.{
  if◌then◌else◌, Bool-cases, Option-cases, take, ℕ, zero, suc, ◌+◌, String, ◌≡◌, refl, ap, ◌∙◌, inl,
  inr, Bool, true, false, ◌||◌, some, List, [], ◌∷◌, map, arith, ◌==◌, eq_iff,
}
use cire_rag.Base.Assoc.{lookup, names, lookup-assign, has-assign, assign-Distinct, names-lookup}
use cire_rag.Base.Text.{has, Distinct}
use cire_rag.Base.Value.{ℤ, pos, negsuc, str, dict, Python, get, put, get-put}
use cire_rag.Retrieval.Item.{RetrievalItem, item_identity, extract_row}
use cire_rag.Retrieval.Fusion.{identities}
use cire_rag.Retrieval.Fusion.Rrf.{
  Rounded, at_least, Ranking, unranked, score_of, keep_first, insert_ranked, sort_ranked,
  ranked_item, rank_item, rank_items, rank_groups,
}

at_least_total : (a b : ℤ) → at_least a b ≡ false → at_least b a ≡ true
unfolding at_least
at_least_total (pos a) (pos b) h = ground arith
at_least_total (pos a) (negsuc b) h = absurd (ground arith)
at_least_total (negsuc a) (pos b) h = refl
at_least_total (negsuc a) (negsuc b) h = ground arith

has-insert_ranked :
    (score : String → ℤ) (i k : String) (ids : List String)
    → has k (insert_ranked score i ids) ≡ (i == k || has k ids)
unfolding insert_ranked
has-insert_ranked score i k [] = refl
has-insert_ranked score i k (j ∷ ids) = ground (arith, has-insert_ranked score i k ids)

pub has-sort_ranked :
    (score : String → ℤ) (k : String) (ids : List String)
    → has k (sort_ranked score ids) ≡ has k ids
unfolding sort_ranked
has-sort_ranked score k [] = refl
has-sort_ranked score k (i ∷ ids) =
    ground (arith, has-insert_ranked score i k (sort_ranked score ids), has-sort_ranked score k ids)

insert_ranked-Distinct :
    (score : String → ℤ) (i : String) (ids : List String)
    → has i ids ≡ false
    → Distinct ids
    → Distinct (insert_ranked score i ids)
unfolding insert_ranked
insert_ranked-Distinct score i [] new d = (refl, tt)
insert_ranked-Distinct score i (j ∷ ids) new d = ground (
  arith,
  has-insert_ranked score i j ids,
  insert_ranked-Distinct score i ids (ground arith) d.1,
  eq_iff i j,
  eq_iff j i,
)

pub sort_ranked-Distinct :
    (score : String → ℤ) (ids : List String) → Distinct ids → Distinct (sort_ranked score ids)
unfolding sort_ranked
sort_ranked-Distinct score [] d = tt
sort_ranked-Distinct score (i ∷ ids) d =
    insert_ranked-Distinct score i (sort_ranked score ids) (has-sort_ranked score i ids ∙ d.0)
      (sort_ranked-Distinct score ids d.1)

-- Each is at least the next one.
abbrev pub Descending : List ℤ → Type 0
Descending [] = Unit
Descending (n ∷ []) = Unit
Descending (n ∷ m ∷ ns) = (at_least n m ≡ true) × Descending (m ∷ ns)

insert_ranked-Descending :
    (score : String → ℤ) (i : String) (ids : List String)
    → Descending (map score ids)
    → Descending (map score (insert_ranked score i ids))
unfolding insert_ranked
insert_ranked-Descending score i [] d = tt
insert_ranked-Descending score i (j ∷ []) d = ground (arith, at_least_total (score i) (score j))
insert_ranked-Descending score i (j ∷ l ∷ ids) d =
    let rest = insert_ranked-Descending score i (l ∷ ids) d.1 in
    ground (arith, at_least_total (score i) (score j))

pub sort_ranked-Descending :
    (score : String → ℤ) (ids : List String) → Descending (map score (sort_ranked score ids))
unfolding sort_ranked
sort_ranked-Descending score [] = tt
sort_ranked-Descending score (i ∷ ids) =
    insert_ranked-Descending score i (sort_ranked score ids) (sort_ranked-Descending score ids)

pub Descending-take : (n : ℕ) (ns : List ℤ) → Descending ns → Descending (take n ns)
Descending-take zero ns d = tt
Descending-take (suc n) [] d = tt
Descending-take (suc zero) (a ∷ ns) d = tt
Descending-take (suc (suc n)) (a ∷ []) d = tt
Descending-take (suc (suc n)) (a ∷ b ∷ ns) d = (d.0, Descending-take (suc n) (b ∷ ns) d.1)

module _ ⦃py : Python⦄ where
  ranked_id :
      (n : ℤ) (item : RetrievalItem)
      → get "id" (extract_row (ranked_item n item)) ≡ get "id" (extract_row item)
  unfolding extract_row
  ranked_id n item =
      let shown = put "score_space" (str "rrf") item.metadata in
      ap (λ x. get "id" (elim x [ dict row ↦ row | _ ↦ shown ]))
        (get-put "score_space" "row" (str "rrf") item.metadata)
      ∙ (elim (get "row" item.metadata)
          as (λ x.
            get "id" (elim x [ dict row ↦ row | _ ↦ shown ])
            ≡ get "id" (elim x [ dict row ↦ row | _ ↦ item.metadata ])) [
              | dict row ↦ refl
              | _ ↦ get-put "score_space" "id" (str "rrf") item.metadata
            ])

  pub identity-ranked_item :
      (n : ℤ) (item : RetrievalItem) → item_identity (ranked_item n item) ≡ item_identity item
  unfolding item_identity
  identity-ranked_item n item = rw (ranked_id n item) refl

  -- Both dictionaries have the same keys, and each item stands under its identity.
  pub record IsRanking (r : Ranking) : Type 0 where
    pub same : (k : String) → has k (names r.item_by_id) ≡ has k (names r.score_by_id)
    pub distinct : Distinct (names r.score_by_id)
    pub own :
        (k : String) (item : RetrievalItem)
        → lookup k r.item_by_id ≡ some item
        → item_identity item ≡ k

  keep_first-names :
      (i k : String) (item : RetrievalItem) (d : List (String × RetrievalItem))
      → has k (names (keep_first i item d)) ≡ (i == k || has k (names d))
  unfolding keep_first
  keep_first-names i k item d = elim (Option-cases (lookup i d)) [
    | inl e ↦ ground (arith, has-assign i k item d)
    | inr (v, e) ↦ ground (arith, names-lookup i v d e, eq_iff i k)
  ]

  keep_first-own :
      (i : String) (item : RetrievalItem) (d : List (String × RetrievalItem))
      → item_identity item ≡ i
      → ((k : String) (x : RetrievalItem) → lookup k d ≡ some x → item_identity x ≡ k)
      → (k : String) (x : RetrievalItem) → lookup k (keep_first i item d) ≡ some x
      → item_identity x ≡ k
  unfolding keep_first
  keep_first-own i item d named own k x h = elim (Option-cases (lookup i d)) [
    | inr (v, e) ↦ own k x (ground arith)
    | inl e ↦ elim (Bool-cases (i == k)) [
      | inl same ↦ ground (arith, lookup-assign i k item d, eq_iff i k)
      | inr other ↦ own k x (ground (arith, lookup-assign i k item d))
    ]
  ]

  module _ ⦃floats : Rounded⦄ where
    rank_item-IsRanking :
        (rrf_k rank : ℕ) (item : RetrievalItem) (r : Ranking)
        → IsRanking r
        → IsRanking (rank_item rrf_k rank item r)
    rank_item-IsRanking rrf_k rank item r v =
        let i = item_identity item in
        let n = floats.add (score_of i r.score_by_id) (floats.inverse (rrf_k + rank)) in
        record {
          same = λ k. ground (
            arith,
            v.same k,
            keep_first-names i k item r.item_by_id,
            has-assign i k n r.score_by_id,
          );
          distinct = assign-Distinct i n r.score_by_id v.distinct;
          own = keep_first-own i item r.item_by_id refl v.own;
        }

    rank_items-IsRanking :
        (rrf_k rank : ℕ) (items : List RetrievalItem) (r : Ranking)
        → IsRanking r
        → IsRanking (rank_items rrf_k rank items r)
    unfolding rank_items
    rank_items-IsRanking rrf_k rank [] r v = v
    rank_items-IsRanking rrf_k rank (item ∷ items) r v =
        rank_items-IsRanking rrf_k (suc rank) items (rank_item rrf_k rank item r)
          (rank_item-IsRanking rrf_k rank item r v)

    rank_groups-IsRanking :
        (rrf_k : ℕ) (groups : List (List RetrievalItem)) (r : Ranking)
        → IsRanking r
        → IsRanking (rank_groups rrf_k groups r)
    unfolding rank_groups
    rank_groups-IsRanking rrf_k [] r v = v
    rank_groups-IsRanking rrf_k (items ∷ groups) r v =
        rank_groups-IsRanking rrf_k groups (rank_items rrf_k 1 items r)
          (rank_items-IsRanking rrf_k 1 items r v)

    pub ranked-IsRanking :
        (rrf_k : ℕ) (groups : List (List RetrievalItem))
        → IsRanking (rank_groups rrf_k groups unranked)
    ranked-IsRanking rrf_k groups =
        rank_groups-IsRanking rrf_k groups unranked
          (record { same = λ k. refl; distinct = tt; own = λ k item h. absurd (ground arith) })

    score-rank_item :
        (rrf_k rank : ℕ) (i : String) (item : RetrievalItem) (r : Ranking)
        → score_of i (rank_item rrf_k rank item r).score_by_id ≡ (
            if item_identity item == i
            then floats.add (score_of i r.score_by_id) (floats.inverse (rrf_k + rank))
            else score_of i r.score_by_id)
    score-rank_item rrf_k rank i item r =
        let j = item_identity item in
        let n = floats.add (score_of j r.score_by_id) (floats.inverse (rrf_k + rank)) in
        ground (arith, lookup-assign j i n r.score_by_id, eq_iff j i)

    -- The contributions of a row, in the order of their additions.
    abbrev pub add_ranks : ℕ → ℕ → String → List RetrievalItem → ℤ → ℤ
    add_ranks rrf_k rank i [] n = n
    add_ranks rrf_k rank i (item ∷ items) n =
        add_ranks rrf_k (suc rank) i items
          (if item_identity item == i then floats.add n (floats.inverse (rrf_k + rank)) else n)

    abbrev pub add_groups : ℕ → String → List (List RetrievalItem) → ℤ → ℤ
    add_groups rrf_k i [] n = n
    add_groups rrf_k i (items ∷ groups) n = add_groups rrf_k i groups (add_ranks rrf_k 1 i items n)

    score-rank_items :
        (rrf_k rank : ℕ) (i : String) (items : List RetrievalItem) (r : Ranking)
        → score_of i (rank_items rrf_k rank items r).score_by_id
          ≡ add_ranks rrf_k rank i items (score_of i r.score_by_id)
    unfolding rank_items
    score-rank_items rrf_k rank i [] r = refl
    score-rank_items rrf_k rank i (item ∷ items) r =
        score-rank_items rrf_k (suc rank) i items (rank_item rrf_k rank item r)
        ∙ ap (add_ranks rrf_k (suc rank) i items) (score-rank_item rrf_k rank i item r)

    pub score-rank_groups :
        (rrf_k : ℕ) (i : String) (groups : List (List RetrievalItem)) (r : Ranking)
        → score_of i (rank_groups rrf_k groups r).score_by_id
          ≡ add_groups rrf_k i groups (score_of i r.score_by_id)
    unfolding rank_groups
    score-rank_groups rrf_k i [] r = refl
    score-rank_groups rrf_k i (items ∷ groups) r =
        score-rank_groups rrf_k i groups (rank_items rrf_k 1 items r)
        ∙ ap (add_groups rrf_k i groups) (score-rank_items rrf_k 1 i items r)

    -- An identity of one of the groups.
    abbrev pub occurs : String → List (List RetrievalItem) → Bool
    occurs i [] = false
    occurs i (items ∷ groups) = has i (identities items) || occurs i groups

    names-rank_items :
        (rrf_k rank : ℕ) (i : String) (items : List RetrievalItem) (r : Ranking)
        → has i (names (rank_items rrf_k rank items r).score_by_id)
          ≡ (has i (identities items) || has i (names r.score_by_id))
    unfolding rank_items
    names-rank_items rrf_k rank i [] r = refl
    names-rank_items rrf_k rank i (item ∷ items) r =
        let j = item_identity item in
        let n = floats.add (score_of j r.score_by_id) (floats.inverse (rrf_k + rank)) in
        ground (
          arith,
          names-rank_items rrf_k (suc rank) i items (rank_item rrf_k rank item r),
          has-assign j i n r.score_by_id,
        )

    pub names-rank_groups :
        (rrf_k : ℕ) (i : String) (groups : List (List RetrievalItem)) (r : Ranking)
        → has i (names (rank_groups rrf_k groups r).score_by_id)
          ≡ (occurs i groups || has i (names r.score_by_id))
    unfolding rank_groups
    names-rank_groups rrf_k i [] r = refl
    names-rank_groups rrf_k i (items ∷ groups) r = ground (
      arith,
      names-rank_groups rrf_k i groups (rank_items rrf_k 1 items r),
      names-rank_items rrf_k 1 i items r,
    )
