-- ===== src/Retrieval/Fusion/Rrf.antt =====
-- app/domain/retrieval/fusion.py: `rrf_merge`, reciprocal rank fusion. A float is its number of least
-- positive doubles, and the two operations that round are an argument.
pub mod Laws
pub mod Result
mod Tests
use cire_rag.Base.{
  leb, if◌then◌else◌, take, ℕ, suc, ◌+◌, max, String, Bool, true, false, Option, none, some, List,
  [], ◌∷◌,
}
use cire_rag.Base.Assoc.{lookup, assign, names}
use cire_rag.Base.Value.{ℤ, pos, negsuc, str, Python, put}
use cire_rag.Retrieval.Item.{RetrievalItem, item_identity}

-- `a + b` and `1.0 / n`
pub record Rounded : Type 0 where
  pub add : ℤ → ℤ → ℤ
  pub inverse : ℕ → ℤ

-- `a >= b`
unfoldable pub at_least : ℤ → ℤ → Bool
at_least (pos a) (pos b) = leb b a
at_least (pos a) (negsuc b) = true
at_least (negsuc a) (pos b) = false
at_least (negsuc a) (negsuc b) = leb a b

-- `score_by_id` and `item_by_id`
pub record Ranking : Type 0 where
  pub score_by_id : List (String × ℤ)
  pub item_by_id : List (String × RetrievalItem)

abbrev pub unranked : Ranking
unranked = record { score_by_id = []; item_by_id = [] }

-- `score_by_id.get(row_id, 0.0)`
abbrev pub score_of : String → List (String × ℤ) → ℤ
score_of row_id d = elim (lookup row_id d) [ none ↦ pos 0 | some n ↦ n ]

-- `if row_id not in item_by_id: item_by_id[row_id] = item`
unfoldable pub keep_first :
    String → RetrievalItem → List (String × RetrievalItem) → List (String × RetrievalItem)
keep_first row_id item d = elim (lookup row_id d) [ none ↦ assign row_id item d | some _ ↦ d ]

-- Where a row is put that stands before those of `ids` and is not to pass a better one.
unfoldable pub insert_ranked : (String → ℤ) → String → List String → List String
insert_ranked score i [] = i ∷ []
insert_ranked score i (j ∷ ids) =
    let rest = insert_ranked score i ids in
    if at_least (score i) (score j) then i ∷ j ∷ ids else j ∷ rest

-- `sorted(ids, key=score, reverse=True)`: rows with the same score keep their order.
unfoldable pub sort_ranked : (String → ℤ) → List String → List String
sort_ranked score [] = []
sort_ranked score (i ∷ ids) = insert_ranked score i (sort_ranked score ids)

-- The item of the result.
abbrev pub ranked_item : ℤ → RetrievalItem → RetrievalItem
ranked_item n item = record item {
  score = n;
  metadata = put "score_space" (str "rrf") item.metadata;
}

-- The last loop; a missing key raises.
unfoldable pub collect : Ranking → List String → Option (List RetrievalItem)
collect r [] = some []
collect r (i ∷ ids) =
    let rest = collect r ids in
    elim (lookup i r.item_by_id) [
      | none ↦ none
      | some item ↦ elim (lookup i r.score_by_id) [
        | none ↦ none
        | some n ↦ elim rest [ none ↦ none | some items ↦ some (ranked_item n item ∷ items) ]
      ]
    ]

module _ ⦃py : Python⦄ ⦃floats : Rounded⦄ where
  -- The body of the loop over the items.
  abbrev pub rank_item : ℕ → ℕ → RetrievalItem → Ranking → Ranking
  rank_item rrf_k rank item r = record {
    score_by_id =
        assign (item_identity item)
          (floats.add (score_of (item_identity item) r.score_by_id) (floats.inverse (rrf_k + rank)))
          r.score_by_id;
    item_by_id = keep_first (item_identity item) item r.item_by_id;
  }

  -- The loop over the items of one group, from `rank` on.
  unfoldable pub rank_items : ℕ → ℕ → List RetrievalItem → Ranking → Ranking
  rank_items rrf_k rank [] r = r
  rank_items rrf_k rank (item ∷ items) r =
      rank_items rrf_k (suc rank) items (rank_item rrf_k rank item r)

  -- The loop over the groups, whose names are not read.
  unfoldable pub rank_groups : ℕ → List (List RetrievalItem) → Ranking → Ranking
  rank_groups rrf_k [] r = r
  rank_groups rrf_k (items ∷ groups) r = rank_groups rrf_k groups (rank_items rrf_k 1 items r)

  unfoldable pub ranked_ids : Ranking → List String
  ranked_ids r = sort_ranked (λ i. score_of i r.score_by_id) (names r.score_by_id)

  unfoldable pub rrf_merge : List (List RetrievalItem) → ℕ → ℕ → Option (List RetrievalItem)
  rrf_merge grouped_items rrf_k top_k =
      let r = rank_groups rrf_k grouped_items unranked in
      collect r (take (max 1 top_k) (ranked_ids r))
