-- ===== src/Retrieval/Broker/Keeps.antt =====
-- `_execute_external_rerank` and the strict filtering: which rows the reranking keeps.
use mathlib.Core.Path.{subst}
use cire_rag.Base.{
  bit, Bool-cases, Option-cases, length, get_elem?, take, count, length-take, count-append, ℕ, zero,
  suc, ◌+◌, ◌≤◌, ◌<◌, ◌≡◌, refl, ◌≢◌, inl, inr, Bool, true, false, none, some, List, [], ◌∷◌, ◌++◌,
  map, arith,
}
use cire_rag.Base.Value.{ℤ, pos, Fields, Python}
use cire_rag.Retrieval.Fusion.Items.{Parse, safe_float}
use cire_rag.Retrieval.Fusion.Rrf.{at_least}
use cire_rag.Retrieval.Broker.Rerank.{
  RerankRow, Boost, insert_scored, sort_scored, is_indexed, not_indexed, with_scores,
  combined_score, rescored, reordered, merge_reranked,
}

-- The row behind a score.
abbrev pub row_of : ℤ × Fields → Fields
row_of x = x.1

-- A number for each row of the answer: where the row stands.
abbrev pub At : ℕ → RerankRow → Type 0
At n r = r.index ≡ some (pos n)

-- The answer of a reranker names each of the numbers once, and all of them are below `n`.
abbrev pub Indexes : ℕ → List ℕ → List RerankRow → Type 0
Indexes n [] [] = Unit
Indexes n [] (r ∷ rows) = ⊥
Indexes n (i ∷ is) [] = ⊥
Indexes n (i ∷ is) (r ∷ rows) = At i r × (i < n) × (is_indexed i rows ≡ false) × Indexes n is rows

-- Of the rows with the numbers of the answer, those with `p`.
abbrev count_at : (Fields → Bool) → List ℕ → List Fields → ℕ
count_at p [] results = 0
count_at p (i ∷ is) results =
    elim (get_elem? results i) [ none ↦ 0 | some row ↦ bit (p row) ] + count_at p is results

get_elem?-take {ℓ} :
    {A : Type ℓ} (n i : ℕ) (xs : List A) → i < n → get_elem? (take n xs) i ≡ get_elem? xs i
get_elem?-take zero i xs h = absurd (omega (arith, h))
get_elem?-take (suc n) i [] h = refl
get_elem?-take (suc n) zero (x ∷ xs) h = refl
get_elem?-take (suc n) (suc i) (x ∷ xs) h = get_elem?-take n i xs (omega (arith, h))

module _ (p : Fields → Bool) where
  count-not_indexed :
      (i : ℕ) (results : List Fields) → count p (not_indexed [] i results) ≡ count p results
  unfolding not_indexed is_indexed
  count-not_indexed i [] = refl
  count-not_indexed i (row ∷ rows) = ground (arith, count-not_indexed (suc i) rows)

  is_indexed-other :
      (r : RerankRow) (rows : List RerankRow) (i m : ℕ)
      → At m r
      → i ≢ m
      → is_indexed i (r ∷ rows) ≡ is_indexed i rows
  unfolding is_indexed
  is_indexed-other r rows i m here other = rw here (ground (arith, other))

  is_indexed-here :
      (r : RerankRow) (rows : List RerankRow) (m : ℕ) → At m r → is_indexed m (r ∷ rows) ≡ true
  unfolding is_indexed
  is_indexed-here r rows m here = rw here (ground arith)

  -- A number behind which the rows start names none of them.
  not_indexed-past :
      (r : RerankRow) (rows : List RerankRow) (i m : ℕ) (results : List Fields)
      → At m r
      → m < i
      → not_indexed (r ∷ rows) i results ≡ not_indexed rows i results
  unfolding not_indexed
  not_indexed-past r rows i m [] here past = refl
  not_indexed-past r rows i m (row ∷ results) here past =
      let rest = not_indexed-past r rows (suc i) m results here (omega (arith, past)) in
      let same = is_indexed-other r rows i m here (omega (arith, past)) in
      ground (arith, rest, same)

  -- A row that the answer names in front of the others is one less of those it does not name.
  count_named :
      (r : RerankRow) (rows : List RerankRow) (j n m : ℕ) (results : List Fields)
      → m ≡ j + n
      → At m r
      → is_indexed m rows ≡ false
      → count p (not_indexed (r ∷ rows) j results)
          + elim (get_elem? results n) [ none ↦ 0 | some row ↦ bit (p row) ]
        ≡ count p (not_indexed rows j results)
  unfolding not_indexed
  count_named r rows j n m [] at here once = omega arith
  count_named r rows j zero m (row ∷ results) at here once =
      let same = not_indexed-past r rows (suc j) m results here (omega (arith, at)) in
      let first : m ≡ j = omega (arith, at) in
      let me = subst (λ x. is_indexed x (r ∷ rows) ≡ true) first (is_indexed-here r rows m here) in
      let no_more = subst (λ x. is_indexed x rows ≡ false) first once in
      ground (arith, same, me, no_more)
  count_named r rows j (suc n) m (row ∷ results) at here once =
      let rest = count_named r rows (suc j) n m results (omega (arith, at)) here once in
      let same = is_indexed-other r rows j m here (omega (arith, at)) in
      elim (Bool-cases (is_indexed j rows)) [ inl e ↦ ground arith | inr e ↦ ground arith ]

  count-rest :
      (n : ℕ) (is : List ℕ) (rows : List RerankRow) (results : List Fields)
      → Indexes n is rows
      → count p (not_indexed rows 0 results) + count_at p is results ≡ count p results
  count-rest n [] [] results h = omega (arith, count-not_indexed 0 results)
  count-rest n [] (r ∷ rows) results h = elim h [ ]
  count-rest n (i ∷ is) [] results h = elim h [ ]
  count-rest n (i ∷ is) (r ∷ rows) results h =
      let (here, below, once, others) = h in
      omega (
        arith,
        count_named r rows 0 i i results (omega arith) here once,
        count-rest n is rows results others,
      )

  count-insert_scored :
      (x : ℤ × Fields) (xs : List (ℤ × Fields))
      → count p (map row_of (insert_scored x xs)) ≡ bit (p x.1) + count p (map row_of xs)
  unfolding insert_scored
  count-insert_scored (n, row) [] = refl
  count-insert_scored (n, row) ((m, r) ∷ xs) =
      let rest = count-insert_scored (n, row) xs in
      elim (Bool-cases (at_least n m)) [
        | inl e ↦ ground (arith, e)
        | inr e ↦ ground (arith, e, rest)
      ]

  count-sort_scored :
      (xs : List (ℤ × Fields)) → count p (map row_of (sort_scored xs)) ≡ count p (map row_of xs)
  unfolding sort_scored
  count-sort_scored [] = refl
  count-sort_scored (x ∷ xs) =
      omega (arith, count-insert_scored x (sort_scored xs), count-sort_scored xs)

  module _ ⦃py : Python⦄ ⦃parse : Parse⦄ ⦃boost : Boost⦄
      (same : (j : Bool) (a b : ℤ) (row : Fields) → p (with_scores j a b row) ≡ p row) where
    count-rescored :
        (j : Bool) (candidates : List Fields) (r : RerankRow) (i : ℕ) (rest out : List (ℤ × Fields))
        → At i r
        → rescored j candidates r rest ≡ some out
        → count p (map row_of out)
          ≡ elim (get_elem? candidates i) [ none ↦ 0 | some row ↦ bit (p row) ]
            + count p (map row_of rest)
    unfolding rescored
    count-rescored j candidates r i rest out here h = elim (Option-cases (get_elem? candidates i)) [
      | inl e ↦ ground (arith, here)
      | inr (row, e) ↦
          let score = safe_float r.relevance_score in
          elim (Option-cases (combined_score row score)) [
            | inl e2 ↦ absurd (ground (arith, here))
            | inr (c, e2) ↦ ground (arith, here, same j score c row)
          ]
    ]

    count-reordered :
        (j : Bool) (n : ℕ) (candidates : List Fields) (is : List ℕ) (rows : List RerankRow)
        (out : List (ℤ × Fields))
        → Indexes n is rows
        → reordered j candidates rows ≡ some out
        → count p (map row_of out) ≡ count_at p is candidates
    unfolding reordered
    count-reordered j n candidates [] [] out h got = ground (arith, got)
    count-reordered j n candidates [] (r ∷ rows) out h got = elim h [ ]
    count-reordered j n candidates (i ∷ is) [] out h got = elim h [ ]
    count-reordered j n candidates (i ∷ is) (r ∷ rows) out h got =
        elim (Option-cases (reordered j candidates rows)) [
          | inl e ↦ absurd (ground (arith, got))
          | inr (rest, e) ↦
              let scored : rescored j candidates r rest ≡ some out = ground (arith, got) in
              omega (
                arith,
                count-rescored j candidates r i rest out h.0 scored,
                count-reordered j n candidates is rows rest h.3 e,
              )
        ]

    count_at-take :
        (n m : ℕ) (is : List ℕ) (rows : List RerankRow) (results : List Fields)
        → Indexes m is rows
        → m ≤ n
        → count_at p is (take n results) ≡ count_at p is results
    count_at-take n m [] rows results h room = refl
    count_at-take n m (i ∷ is) [] results h room = elim h [ ]
    count_at-take n m (i ∷ is) (r ∷ rows) results h room =
        let (here, below, once, others) = h in
        let rest = count_at-take n m is rows results others room in
        ground (arith, get_elem?-take n i results (omega (arith, below, room)), rest)

    -- The external reranking loses no row and repeats none: where the answer of the reranker names
    -- rows of the pool by distinct indexes, and no boost is unreadable, there are after it as many
    -- rows of each kind as before, for every kind that does not look at the scores it sets.
    pub rerank_keeps_rows :
        (j : Bool) (n : ℕ) (results : List Fields) (is : List ℕ) (rows : List RerankRow)
        (out : List Fields)
        → Indexes (length (take n results)) is rows
        → merge_reranked j (take n results) results (some rows) ≡ some out
        → count p out ≡ count p results
    unfolding merge_reranked
    rerank_keeps_rows j n results is [] out h got = ground (arith, got)
    rerank_keeps_rows j n results is (r ∷ rows) out h got =
        let pool = take n results in
        elim (Option-cases (reordered j pool (r ∷ rows))) [
          | inl e ↦ absurd (ground (arith, got))
          | inr (scored, e) ↦
              let answer : out
                  ≡ map row_of (sort_scored scored) ++ not_indexed (r ∷ rows) 0 results =
                ground (arith, got) in
              rw answer (
                omega (
                  arith,
                  count-append p (map row_of (sort_scored scored))
                      (not_indexed (r ∷ rows) 0 results),
                  count-sort_scored scored,
                  count-reordered j (length pool) pool is (r ∷ rows) scored h e,
                  count_at-take n (length pool) is (r ∷ rows) results h
                      (omega (arith, length-take n results)),
                  count-rest (length pool) is (r ∷ rows) results h,
                ))
        ]
