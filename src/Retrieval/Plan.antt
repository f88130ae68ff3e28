-- ===== src/Retrieval/Plan.antt =====
-- app/workflows/retrieval/plan_executor.py: `RetrievalPlanExecutor`. The engine that is called is
-- an argument; a call answers rows or raises.
pub mod Result
mod Tests
use cire_rag.Base.{
  or_default, leb, eqb, if◌then◌else◌, take, ℕ, ◌*◌, min, max, String, Bool, false, ◌||◌, Option,
  none, some, List, [], ◌∷◌, ◌++◌, map,
}
use cire_rag.Base.Text.{is_empty, has}
use cire_rag.Retrieval.Scoping.Penalty.{count_penalized}
use cire_rag.Base.Value.{Fields, Python, get, text_or_empty}

pub record SubQuery : Type 0 where
  pub id : String
  pub query : String
  pub is_deep : Bool

-- `QueryPlan`, as far as it is read here.
pub record QueryPlan : Type 0 where
  pub sequential : Bool
  pub sub_queries : List SubQuery

-- The settings: the number of branches, which is 2 where 0 is set and at least 1, and the threshold
-- of the early exit in thousandths, which is 800 where 0 is set and at most 1000.
pub record Settings : Type 0 where
  pub max_branch_expansions : ℕ
  pub early_exit_scope_penalty : ℕ

abbrev pub branches : Settings → ℕ
branches s = max 1 (or_default s.max_branch_expansions 2)

abbrev pub threshold : Settings → ℕ
threshold s = min 1000 (or_default s.early_exit_scope_penalty 800)

-- What the engine answers: to the query itself with `k`, to the query as a part of a plan, and to a
-- sub-query.
pub record Engine : Type 0 where
  pub retrieve_context : Option (List Fields)
  pub retrieve_query : Option (List Fields)
  pub retrieve_sub : SubQuery → Option (List Fields)

module _ ⦃py : Python⦄ where
  -- `requested_scopes and rows and penalty >= early_exit_penalty`; the quotient is 0 where no row is
  -- considered.
  unfoldable pub exits_early : ℕ → List String → List Fields → Bool
  exits_early limit [] rows = false
  exits_early limit scopes [] = false
  exits_early limit scopes rows =
      let (penalized, considered) = count_penalized scopes rows in
      if eqb considered 0 then eqb limit 0 else leb (limit * considered) (1000 * penalized)

  abbrev pub row_id : Fields → String
  row_id row = text_or_empty (get "id" row)

  -- `_dedupe`; `seen` are the ids passed.
  unfoldable pub dedupe_rows : List String → List Fields → List Fields
  dedupe_rows seen [] = []
  dedupe_rows seen (row ∷ rows) =
      let skipped = dedupe_rows seen rows in
      let kept = dedupe_rows (row_id row ∷ seen) rows in
      if is_empty (row_id row) || has (row_id row) seen then skipped else row ∷ kept

  -- The loop of `_execute_sequential`: the merged rows; an exception ends it.
  unfoldable pub run_sequence :
      ℕ → List String → (SubQuery → Option (List Fields)) → List SubQuery → Option (List Fields)
  run_sequence limit scopes call [] = some []
  run_sequence limit scopes call (q ∷ qs) =
      let rest = run_sequence limit scopes call qs in
      elim (call q) [
        | none ↦ none
        | some rows ↦
            if exits_early limit scopes rows
            then some rows
            else elim rest [ none ↦ none | some more ↦ some (rows ++ more) ]
      ]

  -- The rows are cut off after the repetitions are gone.
  abbrev pub finish_rows : ℕ → List Fields → List Fields
  finish_rows k rows = take k (dedupe_rows [] rows)

  unfoldable pub execute_sequential :
      Settings → List String → Engine → List SubQuery → ℕ → Option (List Fields)
  execute_sequential s scopes e qs k = elim (run_sequence (threshold s) scopes e.retrieve_sub qs) [
    | none ↦ none
    | some merged ↦ elim e.retrieve_query [
      | none ↦ none
      | some safety ↦ some (finish_rows k (merged ++ safety))
    ]
  ]

  -- The responses of `gather` that are lists, in the order of the tasks.
  unfoldable pub gathered : List (Option (List Fields)) → List Fields
  gathered [] = []
  gathered (none ∷ rs) = gathered rs
  gathered (some rows ∷ rs) = rows ++ gathered rs

  unfoldable pub execute_parallel : Engine → List SubQuery → ℕ → List Fields
  execute_parallel e qs k =
      finish_rows k (gathered (map e.retrieve_sub qs ++ e.retrieve_query ∷ []))

  unfoldable pub execute_plan :
      Settings → List String → Engine → QueryPlan → ℕ → Option (List Fields)
  execute_plan s scopes e plan k =
      let selected = take (branches s) plan.sub_queries in
      elim plan.sub_queries [
        | [] ↦ e.retrieve_context
        | q ∷ qs ↦
            if plan.sequential
            then execute_sequential s scopes e selected k
            else some (execute_parallel e selected k)
      ]
