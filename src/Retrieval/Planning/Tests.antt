-- ===== src/Retrieval/Planning/Tests.antt =====
-- `coerce_query_plan` on a plan with a blank sub-query.
use cire_rag.Base.{◌≡◌, refl, false, none, some, [], ◌∷◌}
use cire_rag.Base.Text.{strip}
use cire_rag.Base.Value.{pos, str, list, dict, nil, cons, Fields, end, field, Python, get, has_key}
use cire_rag.Retrieval.Planning.{
  Digits, QueryPlan, sub_query_id, coerce_items, plan_of, plan_with, coerce_query_plan,
}
use cire_rag.Retrieval.Planning.Laws.{written, coerce_plan_roundtrip}

instance abbrev plain : Python
plain = record { lower = λ s. s; upper = λ s. s; show = λ v. "" }

instance abbrev no_digits : Digits
no_digits = record { is_digits = λ s. false; int_of = λ s. pos 0 }

abbrev raw : Fields
raw = field "execution_mode" (str " sequential ") (
    field "sub_queries"
      (list (
        cons (dict (field "query" (str " ") end))
          (cons (dict (field "query" (str " what ") end)) (cons (str "no item") nil))))
      end)

abbrev plan : QueryPlan
plan = record {
  is_multihop = false;
  execution_mode = "sequential";
  sub_queries =
      record {
        id = pos 2;
        query = "what";
        dependency_id = none;
        target_relations = [];
        target_node_types = [];
        is_deep = false;
      }
      ∷ [];
  fallback_reason = none;
}

coerced : coerce_query_plan (dict raw) ≡ some plan
unfolding coerce_query_plan plan_with plan_of coerce_items sub_query_id strip get has_key
coerced = refl

coerce_plan_roundtrip_example : coerce_query_plan (dict (written plan)) ≡ some plan
coerce_plan_roundtrip_example = coerce_plan_roundtrip (dict raw) plan (refl, refl) coerced
