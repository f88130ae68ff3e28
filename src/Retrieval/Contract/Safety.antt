-- ===== src/Retrieval/Contract/Safety.antt =====
-- `run_hybrid` and late fusion: whose rows reach the caller.
use cire_rag.Base.{
  if◌then◌else◌, length, All, max, String, ◌≡◌, refl, ◌∙◌, ◌↔◌, ◌⊎◌, true, false, Option, none,
  some, List, [], ◌∷◌, arith, ◌==◌,
}
use cire_rag.Base.Text.{is_empty, strip, has}
use cire_rag.Base.Value.{null, bool, str, dict, Fields, Python, get, put, get-put}
use cire_rag.Api.LeakCanary.{Isolation, verified, verify_isolation, IsOwned, verified_iff}
use cire_rag.Retrieval.Item.{RetrievalItem}
use cire_rag.Retrieval.Filters.{
  ScopeIssue, validate_retrieval_filters, validate_source_standards, validate_time_range,
  validate_metadata_values,
}
use cire_rag.Retrieval.Scoping.{build_scope_context, requested_scopes_from_context}
use cire_rag.Retrieval.Scoping.Scopes.{scopes_survive}
use cire_rag.Retrieval.Filters.Standards.{named}
use cire_rag.Retrieval.Fusion.Result.{fused_complete}
use cire_rag.Retrieval.Fusion.{identities, fuse_late_results}
use cire_rag.Retrieval.Fusion.Items.{Parse, to_retrieval_items}
use cire_rag.Retrieval.Contract.{
  HybridRequest, Hybrid, answered, scope_invalid, violation, engine_failed, Tools, as_items,
  hybrid_context, chunk_items, unsafe, is_security, verify_rows, run_hybrid, pipeline_chunks,
  pipeline_graph, pipeline_raptor, execute,
}

tenant_of_context :
    (tenant_id collection_id : String) (normalized : Fields)
    → get "tenant_id" (build_scope_context tenant_id collection_id normalized)
      ≡ str (strip tenant_id)
unfolding build_scope_context get
tenant_of_context tenant_id collection_id normalized = refl

module _ ⦃py : Python⦄ ⦃parse : Parse⦄ (tools : Tools) (r : HybridRequest) where
  -- What the engine answers to the request.
  abbrev pub engine_rows : Option (List Fields)
  engine_rows =
      tools.retrieve r.query (hybrid_context r (validate_retrieval_filters r.filters).0) (max 1 r.k)
        (max 1 r.fetch_k)

  verify_rows-answered :
      (rows : Option (List Fields)) (items : List RetrievalItem)
      → is_empty r.tenant_id ≡ false
      → verify_rows tools r.tenant_id rows ≡ answered items
      → (docs : List Fields) × (rows ≡ some docs)
        × All (IsOwned r.tenant_id) docs
        × (items ≡ to_retrieval_items (as_items docs))
  unfolding verify_rows
  verify_rows-answered none items named h = absurd (ground arith)
  verify_rows-answered (some docs) items named h =
      by_check (verify_isolation r.tenant_id docs) refl h
    where
      by_check :
          (i : Isolation)
          → verify_isolation r.tenant_id docs ≡ i
          → (elim i [
            | verified ↦ answered (to_retrieval_items (as_items docs))
            | stop ↦ violation stop
          ])
            ≡ answered items
          → (ds : List Fields) × (some docs ≡ some ds)
            × All (IsOwned r.tenant_id) ds
            × (items ≡ to_retrieval_items (as_items ds))
      by_check verified e h = (docs, refl, (verified_iff r.tenant_id docs named).0 e, ground arith)
      by_check stop e h = absurd (ground arith)

  -- A hybrid retrieval that answers items has found nothing wrong with the filters, and the items are
  -- made of rows each of which the leak check has found to be the tenant's, or global without an owner.
  pub hybrid_isolated :
      (items : List RetrievalItem)
      → is_empty r.tenant_id ≡ false
      → run_hybrid tools r ≡ answered items
      → ((validate_retrieval_filters r.filters).1 ≡ [])
        × ((docs : List Fields) × (engine_rows ≡ some docs)
            × All (IsOwned r.tenant_id) docs
            × (items ≡ to_retrieval_items (as_items docs)))
  unfolding run_hybrid
  hybrid_isolated items named h = by_issues (validate_retrieval_filters r.filters).1 refl h
    where
      by_issues :
          (is : List ScopeIssue)
          → (validate_retrieval_filters r.filters).1 ≡ is
          → (elim is [
            | [] ↦ verify_rows tools r.tenant_id engine_rows
            | i ∷ js ↦ scope_invalid (i ∷ js)
          ])
            ≡ answered items
          → ((validate_retrieval_filters r.filters).1 ≡ [])
            × ((docs : List Fields) × (engine_rows ≡ some docs)
                × All (IsOwned r.tenant_id) docs
                × (items ≡ to_retrieval_items (as_items docs)))
      by_issues [] e h = (e, verify_rows-answered engine_rows items named h)
      by_issues (i ∷ js) e h = absurd (ground arith)

  -- A request with valid filters, for which the engine answers rows of the tenant only, is answered with
  -- the items of all those rows.
  pub hybrid_answers :
      (docs : List Fields)
      → is_empty r.tenant_id ≡ false
      → (validate_retrieval_filters r.filters).1 ≡ []
      → engine_rows ≡ some docs
      → All (IsOwned r.tenant_id) docs
      → run_hybrid tools r ≡ answered (to_retrieval_items (as_items docs))
  unfolding run_hybrid verify_rows
  hybrid_answers docs named valid got owned =
      let passed = (verified_iff r.tenant_id docs named).1 owned in ground arith

  -- The tenant and the scopes that the engine is asked for are those of the request.
  abbrev pub asked : Fields
  asked = hybrid_context r (validate_retrieval_filters r.filters).0

  get-context :
      (k : String) (normalized : Fields)
      → ("retrieval_plan" == k) ≡ false
      → ("_skip_planner" == k) ≡ false
      → ("_skip_external_rerank" == k) ≡ false
      → get k (hybrid_context r normalized)
        ≡ get k (build_scope_context r.tenant_id r.collection_id normalized)
  unfolding hybrid_context
  get-context k normalized a b c =
      let base = build_scope_context r.tenant_id r.collection_id normalized in
      let planned : Fields = elim r.retrieval_plan [
        | null ↦ base
        | plan ↦ put "retrieval_plan" plan base
      ] in
      let unplanned = if r.skip_planner then put "_skip_planner" (bool true) planned else planned in
      let first : get k planned ≡ get k base =
        elim r.retrieval_plan
          as (λ v.
            get k (elim v [ null ↦ base | plan ↦ put "retrieval_plan" plan base ]) ≡ get k base) [
              | null ↦ refl
              | plan ↦ simp (get-put, a) refl
            ] in
      ground (
        arith,
        first,
        get-put "_skip_planner" k (bool true) planned,
        get-put "_skip_external_rerank" k (bool true) unplanned,
      )

  -- The engine is asked on behalf of the tenant of the request, without the blanks around its name,
  -- and for exactly the standards that the request's filters name.
  pub engine_asked :
      (get "tenant_id" asked ≡ str (strip r.tenant_id))
      × (requested_scopes_from_context (dict asked) ≡ named (validate_source_standards r.filters).0)
  unfolding validate_retrieval_filters requested_scopes_from_context
  engine_asked =
      let times = (validate_time_range (get "time_range" r.filters)).0 in
      let metadata = (validate_metadata_values (get "metadata" r.filters)).0 in
      let normalized = (validate_retrieval_filters r.filters).0 in
      let of = λ (k : String). get-context k normalized in
      (
        of "tenant_id" refl refl refl ∙ tenant_of_context r.tenant_id r.collection_id normalized,
        simp
            (
              of "source_standards" refl refl refl,
              of "source_standard" refl refl refl,
              of "filters" refl refl refl,
            )
            (scopes_survive r.tenant_id r.collection_id metadata times r.filters),
      )

  -- Late fusion ends in a violation exactly if the leak check has found that violation in the rows of
  -- the chunks; every other outcome of the chunks leaves it an answer.
  pub fusion_stops_iff :
      (v : Isolation)
      → execute tools r ≡ unsafe v ↔ ((run_hybrid tools r ≡ violation v) × (is_security v ≡ true))
  unfolding execute pipeline_chunks
  fusion_stops_iff v = by_result (run_hybrid tools r) refl
    where
      by_result :
          (h : Hybrid)
          → run_hybrid tools r ≡ h
          → execute tools r ≡ unsafe v
            ↔ ((run_hybrid tools r ≡ violation v) × (is_security v ≡ true))
      by_result (answered items) e = (λ g. absurd (ground arith), λ g. absurd (ground arith))
      by_result (scope_invalid is) e = (λ g. absurd (ground arith), λ g. absurd (ground arith))
      by_result engine_failed e = (λ g. absurd (ground arith), λ g. absurd (ground arith))
      by_result (violation w) e = (λ g. ground arith, λ g. ground arith)

  -- The rows of the graph are not checked: an item that the graph pipeline makes, of whichever tenant,
  -- is in the answer of late fusion, or that has `k` items, unless the check of the chunks fails.
  pub graph_items_unchecked :
      (chunks : List RetrievalItem) (i : String)
      → pipeline_chunks tools r ≡ chunk_items chunks
      → has i (identities (pipeline_graph tools r.query)) ≡ true
      → (items : List RetrievalItem) × (execute tools r ≡ chunk_items items)
        × ((length items ≡ r.k) ⊎ (has i (identities items) ≡ true))
  unfolding execute
  graph_items_unchecked chunks i got there =
      let graph = pipeline_graph tools r.query in
      let raptor = pipeline_raptor tools r.query in
      (
        fuse_late_results chunks graph raptor r.k,
        ground arith,
        (fused_complete chunks graph raptor r.k i (ground arith)).1,
      )
