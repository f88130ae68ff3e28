-- ===== src/Retrieval/Fusion/Laws.antt =====
-- `fuse_late_results`: no item twice, none too many, and none lost while there is room.
use cire_rag.Base.{
  ltb, leb, ltb→lt, leb→le, Bool-cases, length, length-append, ℕ, ◌+◌, ◌-◌, ◌≤◌, String, ◌≡◌, refl,
  ap, ◌⊎◌, inl, inr, true, false, List, [], ◌∷◌, ◌++◌, arith, eq_iff, eq_refl,
}
use cire_rag.Base.Text.{has, has-append, Distinct, Distinct-snoc}
use cire_rag.Base.Value.{Python}
use cire_rag.Retrieval.Item.{RetrievalItem, item_identity}
use cire_rag.Retrieval.Fusion.{Merge, identities, push, add_items, overflow}

module _ ⦃py : Python⦄ where
  -- The set holds the identities of the items, and no two items share one.
  pub record IsMerge (m : Merge) : Type 0 where
    pub same : (k : String) → has k m.seen_identities ≡ has k (identities m.merged)
    pub distinct : Distinct (identities m.merged)

  identities-append :
      (xs ys : List RetrievalItem) → identities (xs ++ ys) ≡ identities xs ++ identities ys
  identities-append [] ys = refl
  identities-append (x ∷ xs) ys = ap (◌∷◌ (item_identity x)) (identities-append xs ys)

  push-IsMerge :
      (item : RetrievalItem) (m : Merge)
      → has (item_identity item) m.seen_identities ≡ false
      → IsMerge m
      → IsMerge (push item m)
  push-IsMerge item m new v = record {
    same = λ k.
        rw identities-append
          (ground (arith, v.same k, has-append k (identities m.merged) (item_identity item ∷ [])));
    distinct = rw identities-append (
        Distinct-snoc (identities m.merged) (item_identity item) v.distinct
          (ground (arith, v.same (item_identity item))));
  }

  -- What one call of `_add_items` does: it keeps the merge, takes at most `left` items, forgets
  -- none, and has taken `left` or has seen all of the source.
  pub record Added (items : List RetrievalItem) (left : ℕ) (m m' : Merge) : Type 0 where
    pub valid : IsMerge m'
    pub bounded : length m'.merged ≤ length m.merged + left
    pub grows : length m.merged ≤ length m'.merged
    pub remembers : (k : String) → has k m.seen_identities ≡ true → has k m'.seen_identities ≡ true
    complete :
        (length m'.merged ≡ length m.merged + left)
        ⊎ ((k : String) → has k (identities items) ≡ true → has k m'.seen_identities ≡ true)

  length-push :
      (item : RetrievalItem) (m : Merge) → length (push item m).merged ≡ length m.merged + 1
  length-push item m = omega (arith, length-append {0} m.merged (item ∷ []))

  skip_item :
      (item : RetrievalItem) (items : List RetrievalItem) (left : ℕ) (m m' : Merge)
      → has (item_identity item) m.seen_identities ≡ true
      → Added items left m m'
      → Added (item ∷ items) left m m'
  skip_item item items left m m' old r = record {
    valid = r.valid;
    bounded = r.bounded;
    grows = r.grows;
    remembers = r.remembers;
    complete = elim r.complete [
      | inl e ↦ inl e
      | inr f ↦ inr (λ k h.
          ground (arith, f k, r.remembers (item_identity item) old, eq_iff (item_identity item) k))
    ];
  }

  take_item :
      (item : RetrievalItem) (items : List RetrievalItem) (left : ℕ) (m m' : Merge)
      → leb left 0 ≡ false
      → Added items (left - 1) (push item m) m'
      → Added (item ∷ items) left m m'
  take_item item items left m m' room r = record {
    valid = r.valid;
    bounded = ground (arith, r.bounded, length-push item m);
    grows = ground (arith, r.grows, length-push item m);
    remembers = λ k h. r.remembers k (ground arith);
    complete = elim r.complete [
      | inl e ↦ inl (ground (arith, length-push item m))
      | inr f ↦ inr (λ k h. ground (
        arith,
        f k,
        r.remembers (item_identity item),
        eq_iff (item_identity item) k,
        eq_refl (item_identity item),
      ))
    ];
  }

  pub add_items-Added :
      (items : List RetrievalItem) (left : ℕ) (m : Merge)
      → IsMerge m
      → Added items left m (add_items items left m)
  unfolding add_items
  add_items-Added [] left m v = record {
    valid = v;
    bounded = omega arith;
    grows = omega arith;
    remembers = λ k h. h;
    complete = inr (λ k h. cc);
  }
  add_items-Added (item ∷ items) left m v = elim (Bool-cases (leb left 0)) [
    | inl full ↦ rw full (record {
      valid = v;
      bounded = omega arith;
      grows = omega arith;
      remembers = λ k h. h;
      complete = inl (omega (arith, leb→le left 0 full));
    })
    | inr room ↦ elim (Bool-cases (has (item_identity item) m.seen_identities)) [
      | inl old ↦
          rw (room, old) (skip_item item items left m _ old (add_items-Added items left m v))
      | inr new ↦
          rw (room, new)
            (take_item item items left m _ room
              (add_items-Added items (left - 1) (push item m) (push-IsMerge item m new v)))
    ]
  ]

  -- A source whose items are all seen, or a merge that has reached `k`.
  abbrev pub Used : List RetrievalItem → ℕ → Merge → Type 0
  Used items k m =
      (k ≤ length m.merged)
      ⊎ ((i : String) → has i (identities items) ≡ true → has i m.seen_identities ≡ true)

  pub record Overflowed (items : List RetrievalItem) (k : ℕ) (m m' : Merge) : Type 0 where
    pub valid : IsMerge m'
    pub grows : length m.merged ≤ length m'.merged
    pub remembers : (i : String) → has i m.seen_identities ≡ true → has i m'.seen_identities ≡ true
    pub used : Used items k m'

  pub overflow-Overflowed :
      (items : List RetrievalItem) (k : ℕ) (m : Merge)
      → IsMerge m
      → Overflowed items k m (overflow items k m)
  unfolding overflow
  overflow-Overflowed items k m v = elim (Bool-cases (ltb (length m.merged) k)) [
    | inl room ↦
        let r = add_items-Added items (k - length m.merged) m v in
        rw room (record {
          valid = r.valid;
          grows = r.grows;
          remembers = r.remembers;
          used = elim r.complete [
            | inl e ↦ inl (omega (arith, ltb→lt (length m.merged) k room))
            | inr f ↦ inr f
          ];
        })
    | inr full ↦
        rw full (record {
          valid = v;
          grows = omega arith;
          remembers = λ i h. h;
          used = inl (ground arith);
        })
  ]
