-- ===== src/Retrieval/Resolve/Laws.antt =====
-- `resolve_retrieval_filters`: whose tenant the filters name.
use cire_rag.Base.{
  leb, if◌then◌else◌, Bool-cases, length, String, ◌≡◌, refl, ◌∙◌, inl, inr, true, false, none, some,
  List, [], ◌∷◌, arith, ◌==◌,
}
use cire_rag.Base.Text.{is_empty, strip, Distinct}
use cire_rag.Base.Value.{
  Value, str, dict, Fields, end, field, Python, truthy, get, has_key, pop, update, dict_or_empty,
  get-put, get-pop, get-update, keys, has_key-put, put-Distinct,
}
use cire_rag.Retrieval.Scoping.{
  put_standards, put_truthy, normalize_standard_filters, build_scope_context,
}
use cire_rag.Retrieval.Scoping.Names.{Patterns}
use cire_rag.Retrieval.Scoping.SubQuery.{Search, with_standards, get-with_standards}
use cire_rag.Retrieval.Resolve.{
  resolve_from, is_text, scope_type, base_filters, add_extra, drop_nested_clause, add_collection,
  safe_query_filters, add_query_filters, clean_scopes, effective_scopes, hinted_metadata,
  add_clause_hint, resolve_retrieval_filters,
}

module _ ⦃py : Python⦄ ⦃re : Patterns⦄ ⦃search : Search⦄ (k : String) where
  get-drop_nested_clause :
      (d : Fields) → ("filters" == k) ≡ false → get k (drop_nested_clause d) ≡ get k d
  unfolding drop_nested_clause
  get-drop_nested_clause d h =
      let rest = pop "clause_id" (dict_or_empty (get "filters" d)) in
      ground (arith, get-put "filters" k (dict rest) d, get-pop "filters" k d)

  get-add_collection :
      (c d : Fields) → ("collection_id" == k) ≡ false → get k (add_collection c d) ≡ get k d
  unfolding add_collection
  get-add_collection c d h = ground (arith, get-put "collection_id" k (get "collection_id" c) d)

  get-add_query_filters :
      (q d : Fields) → ("filters" == k) ≡ false → get k (add_query_filters q d) ≡ get k d
  unfolding add_query_filters
  get-add_query_filters q d h =
      let safe = safe_query_filters q end in
      ground (arith, get-put "filters" k (dict (update (dict_or_empty (get "filters" d)) safe)) d)

  get-add_clause_hint :
      (query : String) (d : Fields)
      → ("metadata" == k) ≡ false
      → get k (add_clause_hint query d) ≡ get k d
  unfolding add_clause_hint
  get-add_clause_hint query d h =
      ground (arith, get-put "metadata" k (dict (hinted_metadata query d)) d)

  get-put_standards_other :
      (xs : List String) (d : Fields)
      → ("source_standard" == k) ≡ false
      → ("source_standards" == k) ≡ false
      → get k (put_standards xs d) ≡ get k d
  unfolding put_standards
  get-put_standards_other [] d g h = simp (get-pop, g, h) refl
  get-put_standards_other (x ∷ []) d g h = simp (get-put, get-pop, g, h) refl
  get-put_standards_other (x ∷ y ∷ xs) d g h = simp (get-put, get-pop, g, h) refl

  get-normalize :
      (d : Fields)
      → ("source_standard" == k) ≡ false
      → ("source_standards" == k) ≡ false
      → get k (normalize_standard_filters d) ≡ get k d
  unfolding normalize_standard_filters
  get-normalize d g h = get-put_standards_other _ d g h

module _ ⦃py : Python⦄ ⦃re : Patterns⦄ ⦃search : Search⦄ where
  -- The tenant after the filters of the context are added.
  abbrev pub tenant_after : Fields → Value
  tenant_after context =
      let extra = dict_or_empty (get "filters" context) in
      if has_key "tenant_id" extra then get "tenant_id" extra else get "tenant_id" context

  tenant-add_extra :
      (v t : Value)
      → Distinct (keys (dict_or_empty v))
      → get "tenant_id" (add_extra v (field "tenant_id" t end))
        ≡ (if has_key "tenant_id" (dict_or_empty v) then get "tenant_id" (dict_or_empty v) else t)
  unfolding add_extra get has_key
  tenant-add_extra (dict extra) t u = get-update "tenant_id" (field "tenant_id" t end) extra u
  tenant-add_extra v t u = refl

  base_of_tenant :
      (context : Fields)
      → is_text (scope_type context) "institutional" ≡ true
      → truthy (get "tenant_id" context) ≡ true
      → base_filters context ≡ some (field "tenant_id" (get "tenant_id" context) end)
  unfolding base_filters
  base_of_tenant context inst t = ground arith

  -- For an institutional context with a tenant the filters are found, and they name the context's tenant,
  -- but if the filters in the context name a tenant of their own, they name that one.
  pub resolved_tenant :
      (query_filters context : Fields) (query : String)
      → is_text (scope_type context) "institutional" ≡ true
      → truthy (get "tenant_id" context) ≡ true
      → Distinct (keys (dict_or_empty (get "filters" context)))
      → (filters : Fields) × (resolve_retrieval_filters query_filters query context ≡ some filters)
        × (get "tenant_id" filters ≡ tenant_after context)
  unfolding resolve_retrieval_filters resolve_from
  resolved_tenant query_filters context query inst t u =
      let k : String = "tenant_id" in
      let base : Fields = field "tenant_id" (get "tenant_id" context) end in
      let extra = add_extra (get "filters" context) base in
      let given = add_collection context (drop_nested_clause extra) in
      let scopes = effective_scopes context query in
      let queried = add_query_filters query_filters given in
      let scoped = with_standards (clean_scopes scopes) queried in
      let hinted = if leb (length scopes) 1 then add_clause_hint query scoped else scoped in
      (
        normalize_standard_filters hinted,
        ground (arith, base_of_tenant context inst t),
        get-normalize k hinted refl refl
            ∙ ground (arith, get-add_clause_hint k query scoped refl)
            ∙ get-with_standards k (clean_scopes scopes) queried refl refl
            ∙ get-add_query_filters k query_filters given refl
            ∙ get-add_collection k context (drop_nested_clause extra) refl
            ∙ get-drop_nested_clause k extra refl
            ∙ tenant-add_extra (get "filters" context) (get "tenant_id" context) u,
      )

  -- An institutional context without a tenant is refused.
  no_tenant_refused :
      (query_filters context : Fields) (query : String)
      → is_text (scope_type context) "institutional" ≡ true
      → truthy (get "tenant_id" context) ≡ false
      → resolve_retrieval_filters query_filters query context ≡ none
  unfolding resolve_retrieval_filters base_filters
  no_tenant_refused query_filters context query inst t = ground arith

  -- The filters of a context that the service builds itself, without a tenant.
  Plain : Fields → Type 0
  Plain d = (has_key "tenant_id" d ≡ false) × Distinct (keys d)

  put_truthy-Plain :
      (k : String) (v : Value) (d : Fields)
      → (k == "tenant_id") ≡ false
      → Plain d
      → Plain (put_truthy k v d)
  unfolding Plain put_truthy
  put_truthy-Plain k v d h (none_there, u) = elim (Bool-cases (truthy v)) [
    | inl e ↦ rw e (ground (arith, has_key-put k "tenant_id" v d), put-Distinct k v d u)
    | inr e ↦ rw e (none_there, u)
  ]

  nothing_there : Plain end
  unfolding Plain has_key
  nothing_there = (refl, tt)

  built_tenant :
      (tenant_id collection_id : String) (n : Fields)
      → (is_text (scope_type (build_scope_context tenant_id collection_id n)) "institutional"
          ≡ true)
        × (get "tenant_id" (build_scope_context tenant_id collection_id n) ≡ str (strip tenant_id))
  unfolding build_scope_context get has_key
  built_tenant tenant_id collection_id n = (refl, refl)

  built_filters :
      (tenant_id collection_id : String) (n : Fields)
      → Plain (dict_or_empty (get "filters" (build_scope_context tenant_id collection_id n)))
  unfolding build_scope_context get
  built_filters tenant_id collection_id n =
      let at = λ (k : String) (d : Fields). put_truthy-Plain k (get k n) d in
      let start = put_truthy-Plain "collection_id" (str collection_id) end refl nothing_there in
      at "source_standard" _ refl
        (at "source_standards" _ refl (at "time_range" _ refl (at "metadata" _ refl start)))

  -- A request's tenant is the one that is searched: the filters that are resolved from the context that
  -- `_build_scope_context` makes for a request name the request's tenant, whatever the request's own
  -- filters, its collection and the query are.
  pub request_tenant_resolved :
      (query_filters normalized : Fields) (query tenant_id collection_id : String)
      → is_empty (strip tenant_id) ≡ false
      → (filters : Fields) × (resolve_retrieval_filters query_filters query
            (build_scope_context tenant_id collection_id normalized)
          ≡ some filters)
        × (get "tenant_id" filters ≡ str (strip tenant_id))
  unfolding Plain
  request_tenant_resolved query_filters n query tenant_id collection_id named =
      let context = build_scope_context tenant_id collection_id n in
      let (none_there, u) = built_filters tenant_id collection_id n in
      let (inst, tenant) = built_tenant tenant_id collection_id n in
      let (filters, got, same) =
        resolved_tenant query_filters context query inst (rw tenant (ground (arith, named))) u in
      (filters, got, same ∙ ground (arith, tenant, none_there))
