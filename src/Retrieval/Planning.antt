-- ===== src/Retrieval/Planning.antt =====
-- app/domain/retrieval/planning.py: `coerce_query_plan`, with the plan of
-- app/domain/schemas/query_plan.py.
pub mod Laws
mod Tests
use cire_rag.Base.{
  ltb, if◌then◌else◌, length, ℕ, suc, String, Bool, true, false, Option, none, some, List, [], ◌∷◌,
  ◌==◌,
}
use cire_rag.Base.Text.{is_empty, strip}
use cire_rag.Base.Value.{
  ℤ, pos, Value, bool, int, str, list, dict, Items, nil, cons, Fields, Python, truthy, get, has_key,
  or_else, to_text, clean,
}
use cire_rag.Retrieval.Fusion.Missing.{stripped_texts}

-- `isdigit` of a text, and its `int`. The few digits that are no decimal ones, on which `int` raises, are
-- left out.
pub record Digits : Type 0 where
  pub is_digits : String → Bool
  pub int_of : String → ℤ

-- A list is empty where it is `None`: the code makes an empty list `None`.
pub record PlannedSubQuery : Type 0 where
  pub id : ℤ
  pub query : String
  pub dependency_id : Option ℤ
  pub target_relations : List String
  pub target_node_types : List String
  pub is_deep : Bool

pub record QueryPlan : Type 0 where
  pub is_multihop : Bool
  pub execution_mode : String
  pub sub_queries : List PlannedSubQuery
  pub fallback_reason : Option String

-- `isinstance(v, int)`, where a truth value is one, too.
abbrev pub int_value : Value → Option ℤ
int_value (int n) = some n
int_value (bool true) = some (pos 1)
int_value (bool false) = some (pos 0)
int_value v = none

-- `d.get(k, default)`
abbrev pub get_default : String → Value → Fields → Value
get_default k v d = if has_key k d then get k d else v

module _ ⦃py : Python⦄ ⦃digits : Digits⦄ where
  unfoldable pub sub_query_id : ℕ → Value → ℤ
  sub_query_id idx (int n) = n
  sub_query_id idx (bool true) = pos 1
  sub_query_id idx (bool false) = pos 0
  sub_query_id idx (str s) = if digits.is_digits (strip s) then digits.int_of (strip s) else pos idx
  sub_query_id idx v = pos idx

  abbrev pub targets : Value → List String
  targets (list vs) = stripped_texts vs
  targets v = []

  abbrev pub coerce_item : ℕ → Fields → PlannedSubQuery
  coerce_item idx item = record {
    id = sub_query_id idx (get "id" item);
    query = clean (get "query" item);
    dependency_id = int_value (get "dependency_id" item);
    target_relations = targets (get "target_relations" item);
    target_node_types = targets (get "target_node_types" item);
    is_deep = truthy (get_default "is_deep" (bool false) item);
  }

  -- The loop, with the number of the first item.
  unfoldable pub coerce_items : ℕ → Items → List PlannedSubQuery
  coerce_items idx nil = []
  coerce_items idx (cons (dict item) items) =
      let rest = coerce_items (suc idx) items in
      if is_empty (clean (get "query" item)) then rest else coerce_item idx item ∷ rest
  coerce_items idx (cons v items) = coerce_items (suc idx) items

  -- `str(raw_plan.get("execution_mode") or "parallel").strip().lower()`
  abbrev pub mode_of : Fields → String
  mode_of plan = py.lower (strip (to_text (or_else (get "execution_mode" plan) (str "parallel"))))

  -- The plan with its sub-queries.
  unfoldable pub plan_of : Fields → List PlannedSubQuery → QueryPlan
  plan_of plan qs = record {
    is_multihop = truthy (get_default "is_multihop" (bool (ltb 1 (length qs))) plan);
    execution_mode = if mode_of plan == "sequential" then "sequential" else "parallel";
    sub_queries = qs;
    fallback_reason =
        if is_empty (clean (get "fallback_reason" plan))
        then none
        else some (clean (get "fallback_reason" plan));
  }

  unfoldable pub plan_with : Fields → List PlannedSubQuery → Option QueryPlan
  plan_with plan [] = none
  plan_with plan (q ∷ qs) = some (plan_of plan (q ∷ qs))

  -- A plan that is one already is returned as it is, and is left out here.
  unfoldable pub coerce_query_plan : Value → Option QueryPlan
  coerce_query_plan (dict plan) = elim (get "sub_queries" plan) [
    | list items ↦ plan_with plan (coerce_items 1 items)
    | _ ↦ none
  ]
  coerce_query_plan v = none
