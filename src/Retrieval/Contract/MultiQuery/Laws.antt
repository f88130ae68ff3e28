-- ===== src/Retrieval/Contract/MultiQuery/Laws.antt =====
-- `MultiQueryExecutor`: what is reported of the sub-queries, and when the whole fails.
use cire_rag.Base.Text.{is_empty, Distinct}
use cire_rag.Base.{
  ltb, if◌then◌else◌, length, All, length-append, suc, ◌+◌, ◌≤◌, ◌<◌, max, String, ◌≡◌, refl, ap,
  ◌≢◌, ◌↔◌, true, false, Option, none, some, List, [], ◌∷◌, map, arith,
}
use cire_rag.Base.Value.{Python}
use mathlib.Core.Path.{subst}
use cire_rag.Api.LeakCanary.{Isolation, verified, verify_isolation, IsOwned, verified_iff}
use cire_rag.Retrieval.Item.{RetrievalItem, extract_row}
use cire_rag.Retrieval.Fusion.{identities}
use cire_rag.Retrieval.Fusion.Items.{Parse}
use cire_rag.Retrieval.Fusion.Rrf.{Rounded, rrf_merge}
use cire_rag.Retrieval.Fusion.Rrf.Laws.{Descending}
use cire_rag.Retrieval.Fusion.Rrf.Result.{scores, rrf_best_first}
use cire_rag.Retrieval.Scoping.Names.{Patterns}
use cire_rag.Retrieval.Contract.{Tools}
use cire_rag.Retrieval.Contract.MultiQuery.{
  SubQueryRequest, MultiQueryRequest, Settings, SubQueryExecution, Multi, multi_items, all_failed,
  multi_violation, Runs, count_failed, grouped, query_key, deduped_queries, duplicate_subqueries,
  run_one, executions, subqueries, checked, execute_queries,
}

module _ ⦃py : Python⦄ ⦃re : Patterns⦄ where
  reported :
      (seen : List String) (qs : List SubQueryRequest)
      → length (duplicate_subqueries seen qs) + length (deduped_queries seen qs) ≡ length qs
  unfolding duplicate_subqueries deduped_queries
  reported seen [] = refl
  reported seen (q ∷ qs) = ground (arith, reported seen qs, reported (query_key q ∷ seen) qs)

  count_failed-length :
      (runs : List (SubQueryExecution × List RetrievalItem)) → count_failed runs ≤ length runs
  unfolding count_failed
  count_failed-length [] = omega arith
  count_failed-length ((e, items) ∷ runs) = ground (arith, count_failed-length runs)

  length-map :
      (f : SubQueryRequest → SubQueryExecution × List RetrievalItem) (qs : List SubQueryRequest)
      → length (map f qs) ≡ length qs
  length-map f [] = refl
  length-map f (q ∷ qs) = ap suc (length-map f qs)

  length-firsts :
      (runs : List (SubQueryExecution × List RetrievalItem))
      → length (map (λ run. run.0) runs) ≡ length runs
  length-firsts [] = refl
  length-firsts (run ∷ runs) = ap suc (length-firsts runs)

  grouped-failed :
      (runs : List (SubQueryExecution × List RetrievalItem))
      → count_failed runs ≡ length runs
      → grouped runs ≡ []
  unfolding count_failed grouped
  grouped-failed [] h = refl
  grouped-failed ((e, []) ∷ runs) h = grouped-failed runs (ground (arith, count_failed-length runs))
  grouped-failed ((e, item ∷ items) ∷ runs) h =
      ground (arith, count_failed-length runs, grouped-failed runs)

  module _ ⦃parse : Parse⦄ ⦃floats : Rounded⦄ (settings : Settings) (tools : Tools) (runs : Runs)
      (r : MultiQueryRequest) where
    -- Each query of the request is reported once, as a duplicate or by its execution.
    all_reported : length (subqueries settings tools runs r) ≡ length r.queries
    all_reported =
        let ran = executions settings tools runs r in
        omega (
          arith,
          length-append {0} (duplicate_subqueries [] r.queries) (map (λ run. run.0) ran),
          length-firsts ran,
          length-map (run_one settings tools runs r) (deduped_queries [] r.queries),
          reported [] r.queries,
        )

    abbrev pub ran : List (SubQueryExecution × List RetrievalItem)
    ran = executions settings tools runs r

    counts :
        length (subqueries settings tools runs r)
        ≡ length (duplicate_subqueries [] r.queries) + length ran
    counts = omega (
      arith,
      length-append {0} (duplicate_subqueries [] r.queries) (map (λ run. run.0) ran),
      length-firsts ran,
    )

    by_groups :
        (P : Multi → Type 0)
        → (grouped ran ≡ []
            → P (
                if ltb (count_failed ran) (length (subqueries settings tools runs r))
                then multi_items [] (subqueries settings tools runs r)
                else all_failed (subqueries settings tools runs r)))
        → ((g : List RetrievalItem) (gs : List (List RetrievalItem))
            → grouped ran ≡ g ∷ gs
            → P (
                checked settings tools runs r (rrf_merge (g ∷ gs) (max 1 r.rrf_k) (max 1 r.top_k))))
        → P (execute_queries settings tools runs r)
    unfolding execute_queries
    by_groups P none_left some_left = go (grouped ran) refl
      where
        go :
            (gs : List (List RetrievalItem))
            → grouped ran ≡ gs
            → P (elim gs [
              | [] ↦
                  if ltb (count_failed ran) (length (subqueries settings tools runs r))
                  then multi_items [] (subqueries settings tools runs r)
                  else all_failed (subqueries settings tools runs r)
              | h ∷ hs ↦
                  checked settings tools runs r (rrf_merge (h ∷ hs) (max 1 r.rrf_k) (max 1 r.top_k))
            ])
        go [] e = none_left e
        go (g ∷ gs) e = some_left g gs e

    not_all_failed :
        (o : Option (List RetrievalItem)) (es : List SubQueryExecution)
        → checked settings tools runs r o ≢ all_failed es
    unfolding checked
    not_all_failed none es h = absurd (ground arith)
    not_all_failed (some merged) es h = go (verify_isolation r.tenant_id (map extract_row merged)) h
      where
        go :
            (i : Isolation)
            → (elim i [
              | verified ↦ multi_items merged (subqueries settings tools runs r)
              | stop ↦ multi_violation stop
            ])
              ≡ all_failed es
            → ⊥
        go verified e = absurd (ground arith)
        go stop e = absurd (ground arith)

    -- The request fails as a whole exactly if each sub-query that ran has failed and no sub-query was
    -- skipped as a duplicate.
    pub all_failed_iff :
        execute_queries settings tools runs r ≡ all_failed (subqueries settings tools runs r)
        ↔ ((count_failed ran ≡ length ran) × (length (duplicate_subqueries [] r.queries) ≡ 0))
    all_failed_iff =
        by_groups
          (λ m.
            m ≡ all_failed (subqueries settings tools runs r)
            ↔ ((count_failed ran ≡ length ran) × (length (duplicate_subqueries [] r.queries) ≡ 0)))
          (λ e. (
            λ h. ground (arith, counts, count_failed-length ran),
            λ h. ground (arith, counts, count_failed-length ran),
          ))
          (λ g gs e. (
            λ h. absurd (not_all_failed _ _ h),
            λ h. absurd (ground (arith, grouped-failed ran h.0)),
          ))

    -- A duplicate hides a failure: where each sub-query that ran has failed, but another was skipped as a
    -- duplicate, the request is answered with no items and without an error.
    pub duplicate_hides_failure :
        count_failed ran ≡ length ran
        → 0 < length (duplicate_subqueries [] r.queries)
        → execute_queries settings tools runs r ≡ multi_items [] (subqueries settings tools runs r)
    duplicate_hides_failure failed skipped =
        by_groups (λ m. m ≡ multi_items [] (subqueries settings tools runs r))
          (λ e. ground (arith, counts))
          (λ g gs e. absurd (ground (arith, grouped-failed ran failed)))

    -- What the merged items are like.
    Merged : List RetrievalItem → Type 0
    Merged items =
        All (IsOwned r.tenant_id) (map extract_row items)
        × (length items ≤ max 1 (max 1 r.top_k))
        × Distinct (identities items)
        × Descending (scores items)

    abbrev MergedOf : Multi → Type 0
    MergedOf (multi_items items es) = Merged items
    MergedOf _ = Unit

    checked-Merged :
        (o : Option (List RetrievalItem)) (merged : List RetrievalItem)
        → o ≡ some merged
        → is_empty r.tenant_id ≡ false
        → length merged ≤ max 1 (max 1 r.top_k)
        → Distinct (identities merged)
        → Descending (scores merged)
        → MergedOf (checked settings tools runs r (some merged))
    unfolding checked Merged
    checked-Merged o merged got named short d s =
        go (verify_isolation r.tenant_id (map extract_row merged)) refl
      where
        go :
            (i : Isolation)
            → verify_isolation r.tenant_id (map extract_row merged) ≡ i
            → MergedOf (elim i [
              | verified ↦ multi_items merged (subqueries settings tools runs r)
              | stop ↦ multi_violation stop
            ])
        go verified e = ((verified_iff r.tenant_id (map extract_row merged) named).0 e, short, d, s)
        go stop e = tt

    merged_all : is_empty r.tenant_id ≡ false → MergedOf (execute_queries settings tools runs r)
    unfolding Merged
    merged_all named =
        by_groups MergedOf
          (λ e.
            elim (ltb (count_failed ran) (length (subqueries settings tools runs r)))
              as (λ b. MergedOf (
                if b
                then multi_items [] (subqueries settings tools runs r)
                else all_failed (subqueries settings tools runs r))) [
                  | true ↦ (tt, omega arith, tt, tt)
                  | false ↦ tt
                ])
          (λ g gs e.
            let (merged, got, short, d, s) =
              rrf_best_first (g ∷ gs) (max 1 r.rrf_k) (max 1 r.top_k) in
            rw got (checked-Merged (some merged) merged refl named short d s))

    -- The items of a multi-query answer have passed the leak check by what their metadata says of their
    -- owner, they are at most `top_k`, none stands twice, and the best come first.
    pub multi_items_checked :
        (items : List RetrievalItem) (es : List SubQueryExecution)
        → is_empty r.tenant_id ≡ false
        → execute_queries settings tools runs r ≡ multi_items items es
        → All (IsOwned r.tenant_id) (map extract_row items)
          × (length items ≤ max 1 r.top_k)
          × Distinct (identities items)
          × Descending (scores items)
    unfolding Merged
    multi_items_checked items es named got =
        let (owned, short, d, s) = subst MergedOf got (merged_all named) in
        (owned, omega arith, d, s)
