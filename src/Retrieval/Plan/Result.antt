-- ===== src/Retrieval/Plan/Result.antt =====
-- The rows that a plan returns.
use cire_rag.Base.{
  Bool-cases, Option-cases, length, get_elem?, take, length-take, take_of_length-le, map-take, ℕ,
  zero, suc, ◌≤◌, ◌<◌, String, ◌≡◌, refl, inl, inr, true, false, not, ◌&&◌, ◌||◌, Option, none,
  some, List, [], ◌∷◌, ◌++◌, map, arith, eq_iff, eq_refl,
}
use cire_rag.Base.Text.{is_empty, has, Distinct, has-take, Distinct-take}
use cire_rag.Base.Value.{Fields, Python}
use cire_rag.Retrieval.Plan.{
  SubQuery, QueryPlan, Settings, branches, threshold, Engine, row_id, dedupe_rows, run_sequence,
  finish_rows, execute_sequential, gathered, execute_parallel, execute_plan,
}

module _ ⦃py : Python⦄ where
  abbrev pub row_ids : List Fields → List String
  row_ids rows = map row_id rows

  dedupe_rows-has :
      (seen : List String) (rows : List Fields) (k : String)
      → has k (row_ids (dedupe_rows seen rows))
        ≡ (not (is_empty k) && not (has k seen) && has k (row_ids rows))
  unfolding dedupe_rows
  dedupe_rows-has seen [] k = ground arith
  dedupe_rows-has seen (row ∷ rows) k = ground (
    arith,
    dedupe_rows-has seen rows k,
    dedupe_rows-has (row_id row ∷ seen) rows k,
    eq_iff (row_id row) k,
  )

  dedupe_rows-Distinct :
      (seen : List String) (rows : List Fields) → Distinct (row_ids (dedupe_rows seen rows))
  unfolding dedupe_rows
  dedupe_rows-Distinct seen [] = tt
  dedupe_rows-Distinct seen (row ∷ rows) = ground (
    arith,
    dedupe_rows-Distinct seen rows,
    dedupe_rows-Distinct (row_id row ∷ seen) rows,
    dedupe_rows-has (row_id row ∷ seen) rows (row_id row),
    eq_refl (row_id row),
  )

  -- The rows at the end of a plan.
  finished :
      (k : ℕ) (rows : List Fields)
      → Distinct (row_ids (finish_rows k rows))
        × (has "" (row_ids (finish_rows k rows)) ≡ false)
        × (length (finish_rows k rows) ≤ k)
  finished k rows =
      let short = length-take k (dedupe_rows [] rows) in
      let cut = map-take row_id k (dedupe_rows [] rows) in
      (
        rw cut (Distinct-take k (row_ids (dedupe_rows [] rows)) (dedupe_rows-Distinct [] rows)),
        rw cut (
            has-take k "" (row_ids (dedupe_rows [] rows))
              (ground (arith, dedupe_rows-has [] rows ""))),
        omega arith,
      )

  sequence_finish :
      (s : Settings) (scopes : List String) (e : Engine) (qs : List SubQuery) (k : ℕ)
      → (rows : List Fields) → execute_sequential s scopes e qs k ≡ some rows
      → (merged : List Fields) × (finish_rows k merged ≡ rows)
  unfolding execute_sequential
  sequence_finish s scopes e qs k rows h =
      elim (Option-cases (run_sequence (threshold s) scopes e.retrieve_sub qs)) [
        | inr (merged, ran) ↦ elim (Option-cases e.retrieve_query) [
          | inr (safety, asked) ↦ (merged ++ safety, ground arith)
          | inl raised ↦ absurd (ground arith)
        ]
        | inl raised ↦ absurd (ground arith)
      ]

  plan_finish :
      (s : Settings) (scopes : List String) (e : Engine) (plan : QueryPlan) (k : ℕ)
      → (rows : List Fields) → 0 < length plan.sub_queries
      → execute_plan s scopes e plan k ≡ some rows
      → (merged : List Fields) × (finish_rows k merged ≡ rows)
  unfolding execute_plan execute_parallel
  plan_finish s scopes e plan k rows h got =
      let qs = take (branches s) plan.sub_queries in
      elim (Bool-cases plan.sequential) [
        | inl one_by_one ↦ sequence_finish s scopes e qs k rows (ground arith)
        | inr at_once ↦ (gathered (map e.retrieve_sub qs ++ e.retrieve_query ∷ []), ground arith)
      ]

  -- A plan with sub-queries, run in either mode, answers at most `k` rows, each with an id, and no two
  -- with the same one.
  pub plan_rows :
      (s : Settings) (scopes : List String) (e : Engine) (plan : QueryPlan) (k : ℕ)
      → (rows : List Fields) → 0 < length plan.sub_queries
      → execute_plan s scopes e plan k ≡ some rows
      → Distinct (row_ids rows) × (has "" (row_ids rows) ≡ false) × (length rows ≤ k)
  plan_rows s scopes e plan k rows h got =
      let (merged, same) = plan_finish s scopes e plan k rows h got in rw⁻¹ same (finished k merged)

  has-row_ids :
      (i : String) (xs ys : List Fields)
      → has i (row_ids (xs ++ ys)) ≡ (has i (row_ids xs) || has i (row_ids ys))
  has-row_ids i [] ys = refl
  has-row_ids i (x ∷ xs) ys = ground (arith, has-row_ids i xs ys)

  has-gathered :
      (rs : List (Option (List Fields))) (rows : List Fields) (i : String) (n : ℕ)
      → get_elem? rs n ≡ some (some rows)
      → has i (row_ids rows) ≡ true
      → has i (row_ids (gathered rs)) ≡ true
  unfolding gathered
  has-gathered [] rows i n at_n there = absurd (ground arith)
  has-gathered (none ∷ rs) rows i zero at_n there = absurd (ground arith)
  has-gathered (none ∷ rs) rows i (suc n) at_n there = has-gathered rs rows i n at_n there
  has-gathered (some r ∷ rs) rows i zero at_n there = ground (arith, has-row_ids i r (gathered rs))
  has-gathered (some r ∷ rs) rows i (suc n) at_n there =
      ground (arith, has-row_ids i r (gathered rs), has-gathered rs rows i n at_n there)

  -- Where a plan in parallel returns fewer than `k` rows, each row with an id that one of its calls has
  -- answered, of a sub-query or of the query itself, is there by that id, whichever other calls raise.
  parallel_complete :
      (e : Engine) (qs : List SubQuery) (k n : ℕ) (rows : List Fields) (i : String)
      → length (execute_parallel e qs k) < k
      → get_elem? (map e.retrieve_sub qs ++ e.retrieve_query ∷ []) n ≡ some (some rows)
      → has i (row_ids rows) ≡ true
      → is_empty i ≡ false
      → has i (row_ids (execute_parallel e qs k)) ≡ true
  unfolding execute_parallel
  parallel_complete e qs k n rows i room at_n there named =
      let tasks = map e.retrieve_sub qs ++ e.retrieve_query ∷ [] in
      let all_rows = dedupe_rows [] (gathered tasks) in
      let short = length-take k all_rows in
      let whole = take_of_length-le k all_rows (omega arith) in
      rw whole (
        ground
          (arith, dedupe_rows-has [] (gathered tasks) i, has-gathered tasks rows i n at_n there))
