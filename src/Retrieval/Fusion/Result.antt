-- ===== src/Retrieval/Fusion/Result.antt =====
-- `fuse_late_results`: what the caller gets.
use mathlib.Core.List.{append-nil, append_assoc}
use cire_rag.Base.{
  ltb, leb, ltb→lt, Bool-cases, length, take, length-take, take_of_length-le, map-take, take-append,
  ℕ, ◌-◌, ◌≤◌, ◌<◌, String, ◌≡◌, refl, sym, ap, ◌∙◌, ◌⊎◌, inl, inr, true, ◌||◌, List, [], ◌∷◌, ◌++◌,
  arith,
}
use cire_rag.Base.Text.{has, Distinct, Distinct-take}
use cire_rag.Base.Value.{Python}
use cire_rag.Retrieval.Item.{RetrievalItem, item_identity}
use cire_rag.Retrieval.Fusion.{
  Merge, nothing, identities, push, add_items, overflow, fill_quotas, fuse_late_results,
}
use cire_rag.Retrieval.Fusion.Laws.{IsMerge, Overflowed, Used, add_items-Added, overflow-Overflowed}

module _ ⦃py : Python⦄ where
  Extends : Merge → Merge → Type 0
  Extends m m' = (extra : List RetrievalItem) × (m'.merged ≡ m.merged ++ extra)

  Extends-trans : (m n o : Merge) → Extends m n → Extends n o → Extends m o
  unfolding Extends
  Extends-trans m n o (a, p) (b, q) = (a ++ b, q ∙ ap (λ l. l ++ b) p ∙ append_assoc m.merged a b)

  add_items-Extends :
      (items : List RetrievalItem) (left : ℕ) (m : Merge) → Extends m (add_items items left m)
  unfolding add_items Extends
  add_items-Extends [] left m = ([], sym (append-nil m.merged))
  add_items-Extends (item ∷ items) left m = elim (Bool-cases (leb left 0)) [
    | inl full ↦ rw full ([], sym (append-nil m.merged))
    | inr room ↦ elim (Bool-cases (has (item_identity item) m.seen_identities)) [
      | inl old ↦ rw (room, old) (add_items-Extends items left m)
      | inr new ↦
          let (extra, e) = add_items-Extends items (left - 1) (push item m) in
          rw (room, new) (item ∷ extra, e ∙ append_assoc m.merged (item ∷ []) extra)
    ]
  ]

  overflow-Extends :
      (items : List RetrievalItem) (k : ℕ) (m : Merge) → Extends m (overflow items k m)
  unfolding overflow Extends
  overflow-Extends items k m = elim (Bool-cases (ltb (length m.merged) k)) [
    | inl room ↦ rw room (add_items-Extends items (k - length m.merged) m)
    | inr full ↦ rw full ([], sym (append-nil m.merged))
  ]

  module _ (chunks graph raptor : List RetrievalItem) where
    abbrev pub quotas : Merge
    quotas = fill_quotas chunks graph raptor

    nothing-IsMerge : IsMerge nothing
    nothing-IsMerge = record { same = λ k. refl; distinct = tt }

    quotas-IsMerge : IsMerge quotas × (length quotas.merged ≤ 6)
    unfolding fill_quotas
    quotas-IsMerge =
        let a = add_items-Added chunks 3 nothing nothing-IsMerge in
        let b = add_items-Added graph 2 (add_items chunks 3 nothing) a.valid in
        let c = add_items-Added raptor 1 (add_items graph 2 (add_items chunks 3 nothing)) b.valid in
        (c.valid, omega (arith, a.bounded, b.bounded, c.bounded))

    module _ (k : ℕ) where
      after_chunks : Overflowed chunks k quotas (overflow chunks k quotas)
      after_chunks = overflow-Overflowed chunks k quotas quotas-IsMerge.0

      after_graph :
          Overflowed graph k
            (overflow chunks k quotas)
            (overflow graph k (overflow chunks k quotas))
      after_graph = overflow-Overflowed graph k (overflow chunks k quotas) after_chunks.valid

      full_merge : Merge
      full_merge = overflow raptor k (overflow graph k (overflow chunks k quotas))

      after_raptor : Overflowed raptor k (overflow graph k (overflow chunks k quotas)) full_merge
      unfolding full_merge
      after_raptor =
          overflow-Overflowed raptor k (overflow graph k (overflow chunks k quotas))
            after_graph.valid

      -- The fused list names no item twice.
      fused-Distinct : Distinct (identities (fuse_late_results chunks graph raptor k))
      unfolding fuse_late_results full_merge
      fused-Distinct =
          rw map-take (Distinct-take k (identities full_merge.merged) after_raptor.valid.distinct)

      Used-seen :
          (items : List RetrievalItem) (m : Merge) (i : String)
          → Used items k m
          → length m.merged < k
          → has i (identities items) ≡ true
          → has i m.seen_identities ≡ true
      Used-seen items m i (inl full) short h = absurd (omega arith)
      Used-seen items m i (inr f) short h = f i h

      all_seen :
          length full_merge.merged < k
          → (i : String)
          → has i (identities chunks) || has i (identities graph) || has i (identities raptor)
            ≡ true
          → has i full_merge.seen_identities ≡ true
      unfolding full_merge
      all_seen short i h =
          let c = overflow chunks k quotas in
          let g = overflow graph k c in
          ground (
            arith,
            after_graph.grows,
            after_raptor.grows,
            after_graph.remembers i,
            after_raptor.remembers i,
            Used-seen chunks c i after_chunks.used,
            Used-seen graph g i after_graph.used,
            Used-seen raptor (overflow raptor k g) i after_raptor.used,
          )

      short_whole :
          length (take k full_merge.merged) < k
          → (take k full_merge.merged ≡ full_merge.merged) × (length full_merge.merged < k)
      short_whole short =
          let lt : length full_merge.merged < k =
            omega (arith, length-take {0} k full_merge.merged) in
          (take_of_length-le k full_merge.merged (omega arith), lt)

      -- The fused list has at most `k` items, and it has exactly `k` or holds the identity of every
      -- item of the three sources.
      pub fused_complete :
          (i : String)
          → has i (identities chunks) || has i (identities graph) || has i (identities raptor)
            ≡ true
          → (length (fuse_late_results chunks graph raptor k) ≤ k)
            × ((length (fuse_late_results chunks graph raptor k) ≡ k)
                ⊎ (has i (identities (fuse_late_results chunks graph raptor k)) ≡ true))
      unfolding fuse_late_results full_merge
      fused_complete i h = (
        omega (arith, length-take {0} k full_merge.merged),
        elim (Bool-cases (ltb (length (take k full_merge.merged)) k)) [
          | inl short ↦
              let (whole, lt) = short_whole (ltb→lt _ _ short) in
              inr (rw whole (sym (after_raptor.valid.same i) ∙ all_seen lt i h))
          | inr full ↦ inl (ground (arith, length-take k full_merge.merged))
        ],
      )

      -- With room for six items or more, the items that the three quotas took come first, all of
      -- them and in their order, and then what fills up to `k`.
      quotas_first :
          6 ≤ k
          → (rest : List RetrievalItem) × (fuse_late_results chunks graph raptor k
              ≡ quotas.merged ++ rest)
      unfolding fuse_late_results Extends
      quotas_first h =
          let c = overflow chunks k quotas in
          let g = overflow graph k c in
          let (extra, e) =
            Extends-trans quotas c (overflow raptor k g) (overflow-Extends chunks k quotas) (
              Extends-trans c g (overflow raptor k g) (overflow-Extends graph k c)
                (overflow-Extends raptor k g)) in
          (
            take (k - length quotas.merged) extra,
            ap (take k) e ∙ take-append k quotas.merged extra (omega (arith, quotas-IsMerge.1)),
          )
