-- ===== src/Retrieval/Planning/Laws.antt =====
-- `coerce_query_plan`: what a plan that a model has written becomes, and that it is a fixed point.
use mathlib.Core.Path.{subst}
use cire_rag.Base.{
  if◌then◌else◌, Bool-cases, length, All, ℕ, suc, ◌<◌, String, ◌≡◌, refl, ap, ◌∙◌, ◌⊎◌, inl, inr,
  Bool, true, false, Option, none, some, List, [], ◌∷◌, arith, ◌==◌,
}
use cire_rag.Base.Text.{is_empty, strip, strip_idem}
use cire_rag.Base.Value.{
  ℤ, Value, null, bool, int, str, list, dict, Items, nil, cons, Fields, end, field, Python, get,
  has_key, or_else, to_text, text_or_empty, clean,
}
use cire_rag.Retrieval.Fusion.Missing.{stripped_texts}
use cire_rag.Retrieval.Filters.{texts}
use cire_rag.Retrieval.Planning.{
  Digits, PlannedSubQuery, QueryPlan, int_value, sub_query_id, targets, coerce_item, coerce_items,
  mode_of, plan_of, plan_with, coerce_query_plan,
}

-- A plan as the dictionary that it is sent as.
abbrev pub list_value : List String → Value
list_value [] = null
list_value (x ∷ xs) = list (texts (x ∷ xs))

abbrev pub written_query : PlannedSubQuery → Fields
written_query q = field "id" (int q.id) (
    field "query" (str q.query) (
      field "dependency_id" (elim q.dependency_id [ none ↦ null | some n ↦ int n ])
        (field "target_relations" (list_value q.target_relations) (
          field "target_node_types" (list_value q.target_node_types)
            (field "is_deep" (bool q.is_deep) end)))))

abbrev pub written_queries : List PlannedSubQuery → Items
written_queries [] = nil
written_queries (q ∷ qs) = cons (dict (written_query q)) (written_queries qs)

abbrev pub written : QueryPlan → Fields
written p = field "is_multihop" (bool p.is_multihop) (
    field "execution_mode" (str p.execution_mode) (
      field "sub_queries" (list (written_queries p.sub_queries))
        (field "fallback_reason" (elim p.fallback_reason [ none ↦ null | some s ↦ str s ]) end)))

-- A text without blanks around it, that is not empty.
abbrev pub IsTrimmed : String → Type 0
IsTrimmed s = (is_empty s ≡ false) × (strip s ≡ s)

-- What a plan is like after it has been coerced.
abbrev pub IsPlanned : PlannedSubQuery → Type 0
IsPlanned q =
    IsTrimmed q.query × All IsTrimmed q.target_relations × All IsTrimmed q.target_node_types

stripped-IsTrimmed : ⦃py : Python⦄ (vs : Items) → All IsTrimmed (stripped_texts vs)
unfolding stripped_texts
stripped-IsTrimmed nil = tt
stripped-IsTrimmed (cons v vs) = ground (arith, stripped-IsTrimmed vs, strip_idem (to_text v))

module _ ⦃py : Python⦄ ⦃digits : Digits⦄ where
  targets-IsTrimmed : (v : Value) → All IsTrimmed (targets v)
  targets-IsTrimmed (list vs) = stripped-IsTrimmed vs
  targets-IsTrimmed v = tt

  coerce_items-IsPlanned : (idx : ℕ) (items : Items) → All IsPlanned (coerce_items idx items)
  unfolding coerce_items
  coerce_items-IsPlanned idx nil = tt
  coerce_items-IsPlanned idx (cons (dict item) items) =
      let rest = coerce_items-IsPlanned (suc idx) items in
      elim (Bool-cases (is_empty (clean (get "query" item)))) [
        | inl e ↦ rw e rest
        | inr e ↦ rw e (
          (
            (e, strip_idem (text_or_empty (get "query" item))),
            targets-IsTrimmed (get "target_relations" item),
            targets-IsTrimmed (get "target_node_types" item),
          ),
          rest,
        )
      ]
  coerce_items-IsPlanned idx (cons v items) = coerce_items-IsPlanned (suc idx) items

  abbrev pub IsReason : Option String → Type 0
  IsReason none = Unit
  IsReason (some s) = IsTrimmed s

  -- The plan has sub-queries, well-formed ones, one of the two modes, and a reason that is not blank if
  -- it has any.
  abbrev pub IsCoerced : QueryPlan → Type 0
  IsCoerced plan =
      (0 < length plan.sub_queries)
      × All IsPlanned plan.sub_queries
      × ((plan.execution_mode ≡ "sequential") ⊎ (plan.execution_mode ≡ "parallel"))
      × IsReason plan.fallback_reason

  abbrev mode_text : Bool → String
  mode_text b = if b then "sequential" else "parallel"

  one_mode : (b : Bool) → (mode_text b ≡ "sequential") ⊎ (mode_text b ≡ "parallel")
  one_mode true = inl refl
  one_mode false = inr refl

  clean-IsReason : (v : Value) → IsReason (if is_empty (clean v) then none else some (clean v))
  clean-IsReason v = elim (Bool-cases (is_empty (clean v))) [
    | inl e ↦ rw e tt
    | inr e ↦ rw e (e, strip_idem (text_or_empty v))
  ]

  plan_of-IsCoerced :
      (raw : Fields) (q : PlannedSubQuery) (qs : List PlannedSubQuery)
      → All IsPlanned (q ∷ qs)
      → IsCoerced (plan_of raw (q ∷ qs))
  unfolding plan_of
  plan_of-IsCoerced raw q qs h = (
    omega arith,
    h,
    one_mode (mode_of raw == "sequential"),
    clean-IsReason (get "fallback_reason" raw),
  )

  plan_with-IsCoerced :
      (raw : Fields) (qs : List PlannedSubQuery) (plan : QueryPlan)
      → All IsPlanned qs
      → plan_with raw qs ≡ some plan
      → IsCoerced plan
  unfolding plan_with
  plan_with-IsCoerced raw [] plan h e = absurd (ground arith)
  plan_with-IsCoerced raw (q ∷ qs) plan h e =
      let same : plan_of raw (q ∷ qs) ≡ plan = cc in
      subst IsCoerced same (plan_of-IsCoerced raw q qs h)

  -- A plan that was coerced has at least one sub-query, each with a query that is not blank, it runs
  -- in one of the two modes, and neither its target lists nor its reason have blank texts.
  pub coerce_query_plan-IsCoerced :
      (raw : Value) (plan : QueryPlan) → coerce_query_plan raw ≡ some plan → IsCoerced plan
  unfolding coerce_query_plan
  coerce_query_plan-IsCoerced (dict raw) plan h = by_items (get "sub_queries" raw) h
    where
      by_items :
          (v : Value)
          → (elim v [ list items ↦ plan_with raw (coerce_items 1 items) | _ ↦ none ]) ≡ some plan
          → IsCoerced plan
      by_items (list items) h =
          plan_with-IsCoerced raw (coerce_items 1 items) plan (coerce_items-IsPlanned 1 items) h
      by_items v h = absurd (ground arith)
  coerce_query_plan-IsCoerced v plan h = absurd (ground arith)

  stripped-texts : (xs : List String) → All IsTrimmed xs → stripped_texts (texts xs) ≡ xs
  unfolding stripped_texts
  stripped-texts [] h = refl
  stripped-texts (x ∷ xs) h = ground (arith, stripped-texts xs h.1)

  targets-written : (xs : List String) → All IsTrimmed xs → targets (list_value xs) ≡ xs
  targets-written [] h = refl
  targets-written (x ∷ xs) h = stripped-texts (x ∷ xs) h

  clean_trimmed : (s : String) → IsTrimmed s → clean (str s) ≡ s
  clean_trimmed s h = ground (arith, h.0, h.1)

  int_value-written : (o : Option ℤ) → int_value (elim o [ none ↦ null | some n ↦ int n ]) ≡ o
  int_value-written none = refl
  int_value-written (some n) = refl

  item-written :
      (idx : ℕ) (q : PlannedSubQuery) → IsPlanned q → coerce_item idx (written_query q) ≡ q
  unfolding get has_key sub_query_id
  item-written idx q h = ground (
    arith,
    clean_trimmed q.query h.0,
    int_value-written q.dependency_id,
    targets-written q.target_relations h.1,
    targets-written q.target_node_types h.2,
  )

  items-written :
      (idx : ℕ) (qs : List PlannedSubQuery)
      → All IsPlanned qs
      → coerce_items idx (written_queries qs) ≡ qs
  unfolding coerce_items get
  items-written idx [] h = refl
  items-written idx (q ∷ qs) h =
      ground
        (arith, clean_trimmed q.query h.0.0, item-written idx q h.0, items-written (suc idx) qs h.1)

  -- The texts of the two modes are in lower case.
  abbrev pub KeepsModes : Type 0
  KeepsModes = (py.lower "sequential" ≡ "sequential") × (py.lower "parallel" ≡ "parallel")

  mode-written :
      (m : String)
      → KeepsModes
      → (m ≡ "sequential") ⊎ (m ≡ "parallel")
      → mode_text (py.lower (strip (to_text (or_else (str m) (str "parallel")))) == "sequential")
        ≡ m
  unfolding strip
  mode-written m low (inl e) = rw (e, low.0) refl
  mode-written m low (inr e) = rw (e, low.1) refl

  reason-written :
      (o : Option String)
      → IsReason o
      → (let v : Value = elim o [ none ↦ null | some s ↦ str s ] in
          if is_empty (clean v) then none else some (clean v))
        ≡ o
  unfolding strip
  reason-written none h = refl
  reason-written (some s) h = ground (arith, clean_trimmed s h, h.0)

  plan_of-written :
      (plan : QueryPlan)
      → KeepsModes
      → IsCoerced plan
      → plan_of (written plan) plan.sub_queries ≡ plan
  unfolding plan_of get has_key
  plan_of-written plan low h =
      ground
        (arith, mode-written plan.execution_mode low h.2, reason-written plan.fallback_reason h.3)

  plan_with-some :
      (raw : Fields) (qs : List PlannedSubQuery)
      → 0 < length qs
      → plan_with raw qs ≡ some (plan_of raw qs)
  unfolding plan_with
  plan_with-some raw [] h = absurd (omega (arith, h))
  plan_with-some raw (q ∷ qs) h = refl

  -- A coerced plan survives being sent as a dictionary and coerced again, where lower case leaves the
  -- names of the two modes as they are.
  pub coerce_plan_roundtrip :
      (raw : Value) (plan : QueryPlan)
      → KeepsModes
      → coerce_query_plan raw ≡ some plan
      → coerce_query_plan (dict (written plan)) ≡ some plan
  unfolding coerce_query_plan get
  coerce_plan_roundtrip raw plan low got =
      let h = coerce_query_plan-IsCoerced raw plan got in
      ap (plan_with (written plan)) (items-written 1 plan.sub_queries h.1)
      ∙ plan_with-some (written plan) plan.sub_queries h.0
      ∙ ap some (plan_of-written plan low h)
