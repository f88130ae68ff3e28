-- ===== src/Retrieval/Broker/Options.antt =====
-- Which options of a request reach `RetrievalBroker.retrieve` through `RetrievalTools.retrieve`.
use cire_rag.Base.{
  if◌then◌else◌, Option-cases, ℕ, String, ◌≡◌, refl, ◌∙◌, inl, inr, Bool, true, false, List, [],
  ◌∷◌, arith, ◌==◌, eq_iff,
}
use cire_rag.Base.Text.{has}
use cire_rag.Base.Value.{
  Value, null, bool, dict, Fields, Python, get, has_key, put, get-put, has_key-put,
}
use cire_rag.Retrieval.Scoping.Names.{Patterns}
use cire_rag.Retrieval.Scoping.Penalty.{Penalty}
use cire_rag.Retrieval.Scoping.SubQuery.{Search}
use cire_rag.Retrieval.Scoping.{requested_scopes_from_context, build_scope_context}
use cire_rag.Retrieval.Fusion.Items.{Parse}
use cire_rag.Retrieval.Planning.{Digits}
use cire_rag.Retrieval.Resolve.{
  base_filters, add_collection, effective_scopes, resolve_from, resolve_retrieval_filters,
}
use cire_rag.Retrieval.Contract.{HybridRequest, hybrid_context}
use cire_rag.Retrieval.Broker.Rerank.{Boost, Rerankers, RerankSettings}
use cire_rag.Retrieval.Broker.{Engines, Call, retrieve, tools_retrieve}

-- The keys of a context that are read.
abbrev read_keys : List String
read_keys =
    "type" ∷ "tenant_id" ∷ "filters" ∷ "collection_id" ∷ "source_standards" ∷ "source_standard" ∷ []

module _ ⦃py : Python⦄ ⦃re : Patterns⦄ ⦃search : Search⦄ where
  get_other :
      (k j : String) (v : Value) (context : Fields)
      → (k == j) ≡ false
      → (get j (put k v context) ≡ get j context)
        × (has_key j (put k v context) ≡ has_key j context)
  get_other k j v context h =
      (ground (arith, get-put k j v context), ground (arith, has_key-put k j v context))

  base_filters-put :
      (k : String) (v : Value) (context : Fields)
      → has k read_keys ≡ false
      → base_filters (put k v context) ≡ base_filters context
  unfolding base_filters
  base_filters-put k v context other =
      let (kind, there) = get_other k "type" v context (ground (arith, eq_iff k "type")) in
      let tenant = (get_other k "tenant_id" v context (ground (arith, eq_iff k "tenant_id"))).0 in
      rw kind (rw there (rw tenant refl))

  requested-put :
      (k : String) (v : Value) (context : Fields)
      → has k read_keys ≡ false
      → requested_scopes_from_context (dict (put k v context))
        ≡ requested_scopes_from_context (dict context)
  unfolding requested_scopes_from_context
  requested-put k v context other =
      let same = λ (j : String) (h : (k == j) ≡ false). (get_other k j v context h).0 in
      let filters = same "filters" (ground (arith, eq_iff k "filters")) in
      let one = same "source_standard" (ground (arith, eq_iff k "source_standard")) in
      let many = same "source_standards" (ground (arith, eq_iff k "source_standards")) in
      rw filters (rw one (rw many refl))

  scopes-put :
      (k : String) (v : Value) (query : String) (context : Fields)
      → has k read_keys ≡ false
      → effective_scopes (put k v context) query ≡ effective_scopes context query
  unfolding effective_scopes
  scopes-put k v query context other = ground (arith, requested-put k v context other)

  resolve_from-put :
      (k : String) (v : Value) (query_filters : Fields) (query : String) (context base : Fields)
      → has k read_keys ≡ false
      → resolve_from query_filters query (put k v context) base
        ≡ resolve_from query_filters query context base
  unfolding resolve_from add_collection
  resolve_from-put k v query_filters query context base other =
      let same = λ (j : String) (h : (k == j) ≡ false). (get_other k j v context h).0 in
      let filters = same "filters" (ground (arith, eq_iff k "filters")) in
      let collection = same "collection_id" (ground (arith, eq_iff k "collection_id")) in
      rw filters (rw collection (rw (scopes-put k v query context other) refl))

  -- Filters are resolved without a look at other keys.
  resolve-put :
      (k : String) (v : Value) (query_filters : Fields) (query : String) (context : Fields)
      → has k read_keys ≡ false
      → resolve_retrieval_filters query_filters query (put k v context)
        ≡ resolve_retrieval_filters query_filters query context
  unfolding resolve_retrieval_filters
  resolve-put k v query_filters query context other =
      let same = base_filters-put k v context other in
      elim (Option-cases (base_filters context)) [
        | inl e ↦ ground arith
        | inr (base, e) ↦
            let resolved = resolve_from-put k v query_filters query context base other in
            ground arith
      ]

module _ ⦃py : Python⦄ ⦃re : Patterns⦄ ⦃search : Search⦄ ⦃digits : Digits⦄ ⦃parse : Parse⦄
    ⦃penalty : Penalty⦄ ⦃boost : Boost⦄ (mode : String) (settings : RerankSettings)
    (engines : Engines) (rerankers : Rerankers) where
  retrieve-put :
      (k : String) (v : Value) (query_filters : Fields) (query : String) (context : Fields)
      (call : Call)
      → has k read_keys ≡ false
      → retrieve mode settings engines rerankers query_filters query (put k v context) call
        ≡ retrieve mode settings engines rerankers query_filters query context call
  unfolding retrieve
  retrieve-put k v query_filters query context call other =
      ground (arith, resolve-put k v query_filters query context other)

  switch_ignored :
      (b : Bool) (k : String) (v : Value) (query_filters : Fields) (query : String)
      (context : Fields) (call : Call)
      → has k read_keys ≡ false
      → retrieve mode settings engines rerankers query_filters query
          (if b then put k v context else context)
          call
        ≡ retrieve mode settings engines rerankers query_filters query context call
  switch_ignored true k v query_filters query context call other =
      retrieve-put k v query_filters query context call other
  switch_ignored false k v query_filters query context call other = refl

  plan_ignored :
      (plan : Value) (query_filters : Fields) (query : String) (context : Fields) (call : Call)
      → retrieve mode settings engines rerankers query_filters query
          (elim plan [ null ↦ context | v ↦ put "retrieval_plan" v context ])
          call
        ≡ retrieve mode settings engines rerankers query_filters query context call
  plan_ignored null query_filters query context call = refl
  plan_ignored v query_filters query context call =
      retrieve-put "retrieval_plan" v query_filters query context call refl

  -- What a hybrid request says besides its scope does not reach the broker: its retrieval plan, the
  -- option to skip the planner and the option to skip the external reranking have no effect on the
  -- rows that `RetrievalTools.retrieve` answers.
  pub hybrid_options_ignored :
      (query_filters : Fields) (r : HybridRequest) (normalized : Fields) (query : String)
      (k fetch_k : ℕ) (enable_reranking : Bool)
      → tools_retrieve mode settings engines rerankers query_filters query
          (hybrid_context r normalized)
          k
          fetch_k
          enable_reranking
        ≡ tools_retrieve mode settings engines rerankers query_filters query
            (build_scope_context r.tenant_id r.collection_id normalized)
            k
            fetch_k
            enable_reranking
  unfolding tools_retrieve hybrid_context
  hybrid_options_ignored query_filters r normalized query k fetch_k enable_reranking =
      let call : Call = record {
        k = k;
        fetch_k = fetch_k;
        enable_reranking = enable_reranking;
        iterative = false;
        retrieval_plan = null;
      } in
      let base = build_scope_context r.tenant_id r.collection_id normalized in
      let planned : Fields = elim r.retrieval_plan [
        | null ↦ base
        | plan ↦ put "retrieval_plan" plan base
      ] in
      let unplanned = if r.skip_planner then put "_skip_planner" (bool true) planned else planned in
      switch_ignored r.skip_external_rerank "_skip_external_rerank" (bool true) query_filters query
        unplanned call refl
      ∙ switch_ignored r.skip_planner "_skip_planner" (bool true) query_filters query planned call
          refl
      ∙ plan_ignored r.retrieval_plan query_filters query base call
