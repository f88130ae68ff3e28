-- ===== src/Retrieval/Fusion.antt =====
-- app/domain/retrieval/fusion.py: `fuse_late_results`, the assembly of the three pipelines.
pub mod Items
pub mod Laws
pub mod Missing
pub mod Policy
pub mod Result
pub mod Rrf
pub mod Stratify
mod Tests
use cire_rag.Base.{ltb, leb, if◌then◌else◌, length, take, ℕ, ◌-◌, String, List, [], ◌∷◌, ◌++◌, map}
use cire_rag.Base.Text.{has}
use cire_rag.Base.Value.{Python}
use cire_rag.Retrieval.Item.{RetrievalItem, item_identity}

-- The two variables that `_add_items` writes.
pub record Merge : Type 0 where
  pub seen_identities : List String
  pub merged : List RetrievalItem

abbrev pub nothing : Merge
nothing = record { seen_identities = []; merged = [] }

module _ ⦃py : Python⦄ where
  abbrev pub identities : List RetrievalItem → List String
  identities = map item_identity

  -- The body of the `if`.
  abbrev pub push : RetrievalItem → Merge → Merge
  push item m = record {
    seen_identities = item_identity item ∷ m.seen_identities;
    merged = m.merged ++ item ∷ [];
  }

  -- `_add_items`; `left` is `limit - added`.
  unfoldable pub add_items : List RetrievalItem → ℕ → Merge → Merge
  add_items [] left m = m
  add_items (item ∷ items) left m =
      let skipped = add_items items left m in
      let taken = add_items items (left - 1) (push item m) in
      if leb left 0
      then m
      else if has (item_identity item) m.seen_identities
      then skipped
      else taken

  -- `if len(merged) < k: _add_items(source, k - len(merged))`
  unfoldable pub overflow : List RetrievalItem → ℕ → Merge → Merge
  overflow items k m =
      if ltb (length m.merged) k then add_items items (k - length m.merged) m else m

  unfoldable pub fill_quotas : List RetrievalItem → List RetrievalItem → List RetrievalItem → Merge
  fill_quotas chunks graph raptor =
      add_items raptor 1 (add_items graph 2 (add_items chunks 3 nothing))

  unfoldable pub fuse_late_results :
      List RetrievalItem → List RetrievalItem → List RetrievalItem → ℕ → List RetrievalItem
  fuse_late_results chunks graph raptor k =
      take k
        (overflow raptor k
          (overflow graph k (overflow chunks k (fill_quotas chunks graph raptor)))).merged
