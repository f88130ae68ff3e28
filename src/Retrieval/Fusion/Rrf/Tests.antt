-- ===== src/Retrieval/Fusion/Rrf/Tests.antt =====
-- `rrf_merge` on two groups that share an item.
use cire_rag.Base.{All, ◌+◌, ◌/◌, String, ◌≡◌, refl, Option, none, some, List, [], ◌∷◌}
use cire_rag.Base.Text.{strip}
use cire_rag.Base.Value.{ℤ, pos, str, end, field, Python, get, put}
use cire_rag.Retrieval.Item.{RetrievalItem, item_identity, extract_row, join}
use cire_rag.Retrieval.Fusion.{identities}
use cire_rag.Retrieval.Fusion.Rrf.{
  Rounded, at_least, keep_first, insert_ranked, sort_ranked, collect, rank_items, rank_groups,
  ranked_ids, rrf_merge,
}
use cire_rag.Retrieval.Fusion.Rrf.Laws.{add_groups}
use cire_rag.Retrieval.Fusion.Rrf.Result.{scores, rrf_scores}

instance abbrev plain : Python
plain = record { lower = λ s. s; upper = λ s. s; show = λ v. "" }

abbrev add_whole : ℤ → ℤ → ℤ
add_whole (pos a) (pos b) = pos (a + b)
add_whole a b = a

-- In units of one in six thousand.
instance abbrev units : Rounded
units = record { add = add_whole; inverse = λ n. pos (6000 / n) }

abbrev item : String → RetrievalItem
item id = record {
  source = "S";
  content = "text";
  score = pos 1;
  metadata = field "id" (str id) end;
}

abbrev groups : List (List RetrievalItem)
groups = (item "a" ∷ item "b" ∷ []) ∷ (item "b" ∷ item "c" ∷ []) ∷ []

best_two : Option (List String × List ℤ)
unfolding rrf_merge
best_two = elim (rrf_merge groups 60 2) [
  | none ↦ none
  | some rows ↦ some (identities rows, scores rows)
]

-- The second item of the first group wins, as the second group has it, too.
shared_wins : best_two ≡ some ("row::b" ∷ "row::a" ∷ [], pos 194 ∷ pos 98 ∷ [])
unfolding best_two rrf_merge rank_groups rank_items ranked_ids sort_ranked insert_ranked at_least
    collect keep_first item_identity extract_row join get put strip
shared_wins = refl

rrf_scores_example :
    (rows : List RetrievalItem) × (rrf_merge groups 60 2 ≡ some rows)
    × All (λ x. x.score ≡ add_groups 60 (item_identity x) groups (pos 0)) rows
rrf_scores_example = rrf_scores groups 60 2
