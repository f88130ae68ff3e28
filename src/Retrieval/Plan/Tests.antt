-- ===== src/Retrieval/Plan/Tests.antt =====
-- A plan with two sub-queries, of which one raises.
use cire_rag.Base.{
  if◌then◌else◌, length, ◌≤◌, String, ◌≡◌, refl, true, false, none, some, List, [], ◌∷◌, arith,
}
use cire_rag.Base.Text.{has, Distinct}
use cire_rag.Base.Value.{str, Fields, end, field, Python, get}
use cire_rag.Retrieval.Plan.{
  SubQuery, QueryPlan, Settings, Engine, dedupe_rows, gathered, execute_parallel, execute_plan,
}
use cire_rag.Retrieval.Plan.Result.{row_ids, plan_rows}

instance abbrev plain : Python
plain = record { lower = λ s. s; upper = λ s. s; show = λ v. "" }

abbrev row : String → Fields
row i = field "id" (str i) end

abbrev engine : Engine
engine = record {
  retrieve_context = none;
  retrieve_query = some (row "a" ∷ row "b" ∷ []);
  retrieve_sub = λ q. if q.is_deep then none else some (row "b" ∷ row "c" ∷ []);
}

abbrev queries : List SubQuery
queries =
    record { id = "1"; query = "x"; is_deep = true }
    ∷ record { id = "2"; query = "y"; is_deep = false }
    ∷ []

abbrev plan : QueryPlan
plan = record { sequential = false; sub_queries = queries }

abbrev settings : Settings
settings = record { max_branch_expansions = 2; early_exit_scope_penalty = 800 }

plan_rows_example :
    Distinct (row_ids (row "b" ∷ row "c" ∷ row "a" ∷ []))
    × (has "" (row_ids (row "b" ∷ row "c" ∷ row "a" ∷ [])) ≡ false)
    × (length (row "b" ∷ row "c" ∷ row "a" ∷ []) ≤ 5)
unfolding execute_plan execute_parallel gathered dedupe_rows get
plan_rows_example =
    plan_rows settings [] engine plan 5 (row "b" ∷ row "c" ∷ row "a" ∷ []) (omega arith) refl
