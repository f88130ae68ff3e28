-- ===== src/Retrieval/Grounded/Laws.antt =====
-- `GroundedRetrievalWorkflow`: whose documents a context holds, and which.
use mathlib.Core.Path.{subst}
use cire_rag.Base.{
  Bool-cases, Option-cases, keep, All, ℕ, String, ◌≡◌, refl, sym, ◌∙◌, ◌≢◌, inl, inr, Bool, true,
  false, Option, some, List, [], ◌∷◌, map, arith, ◌==◌,
}
use cire_rag.Base.Assoc.{lookup, assign}
use cire_rag.Base.Text.{is_empty}
use cire_rag.Base.Value.{Fields, Python, truthy, get, to_text, clean}
use cire_rag.Api.LeakCanary.{verified, verify_isolation, IsOwned, verified_iff}
use cire_rag.Retrieval.Fusion.Rrf.{at_least}
use cire_rag.Retrieval.Grounded.{
  ScopePolicy, Digest, Dedup, delete, GroundedContext, grounded, names_scope, filtered_or_all,
  filter_results_by_scope, scoped_results, map_by_id, content_hash, doc_score, keep_better,
  dedupe_doc, dedupe_docs, dedupe_by_content, context_of, answer_of, route,
  extract_requested_scopes, needs_clarification, get_grounded_context,
}

-- The documents of a context.
abbrev pub documents : List (String × Fields) → List Fields
documents [] = []
documents ((i, doc) ∷ docs) = doc ∷ documents docs

module _ (P : Fields → Type 0) where
  All-assign :
      (k : String) (doc : Fields) (docs : List (String × Fields))
      → P doc
      → All P (documents docs)
      → All P (documents (assign k doc docs))
  All-assign k doc [] p h = (p, tt)
  All-assign k doc ((j, d) ∷ docs) p h = elim (Bool-cases (j == k)) [
    | inl e ↦ rw e (p, h.1)
    | inr e ↦ rw e (h.0, All-assign k doc docs p h.1)
  ]

  All-delete :
      (k : String) (docs : List (String × Fields))
      → All P (documents docs)
      → All P (documents (delete k docs))
  unfolding delete
  All-delete k [] h = tt
  All-delete k ((j, d) ∷ docs) h = elim (Bool-cases (j == k)) [
    | inl e ↦ rw e (All-delete k docs h.1)
    | inr e ↦ rw e (h.0, All-delete k docs h.1)
  ]

  module _ ⦃py : Python⦄ where
    All-map_by_id :
        (rows : List Fields) (found : List (String × Fields))
        → All P rows
        → All P (documents found)
        → All P (documents (map_by_id rows found))
    unfolding map_by_id
    All-map_by_id [] found h f = f
    All-map_by_id (row ∷ rows) found h f = elim (Bool-cases (truthy (get "id" row))) [
      | inl e ↦ rw e (
          All-map_by_id rows (assign (to_text (get "id" row)) row found) h.1
            (All-assign (to_text (get "id" row)) row found h.0 f))
      | inr e ↦ rw e (All-map_by_id rows found h.1 f)
    ]

    module _ ⦃digest : Digest⦄ where
      All-keep_better :
          (i : String) (doc : Fields) (j : String) (st next : Dedup)
          → keep_better i doc j st ≡ some next
          → P doc
          → All P (documents st.deduped)
          → All P (documents next.deduped)
      unfolding keep_better
      All-keep_better i doc j st next got p h = elim (Option-cases (lookup j st.deduped)) [
        | inl e ↦ absurd (ground (arith, got))
        | inr (old, e) ↦ elim (Option-cases (doc_score old)) [
          | inl e2 ↦ absurd (ground (arith, got))
          | inr (a, e2) ↦ elim (Option-cases (doc_score doc)) [
            | inl e3 ↦ absurd (ground (arith, got))
            | inr (b, e3) ↦ elim (Bool-cases (at_least a b)) [
              | inl e4 ↦
                  let same : st ≡ next = ground (arith, got) in
                  subst (λ s. All P (documents s.deduped)) same h
              | inr e4 ↦
                  let moved : assign i doc (delete j st.deduped) ≡ next.deduped =
                    ground (arith, got) in
                  subst (λ l. All P (documents l)) moved
                    (All-assign i doc (delete j st.deduped) p (All-delete j st.deduped h))
            ]
          ]
        ]
      ]

      All-dedupe_doc :
          (i : String) (doc : Fields) (st next : Dedup)
          → dedupe_doc i doc st ≡ some next
          → P doc
          → All P (documents st.deduped)
          → All P (documents next.deduped)
      unfolding dedupe_doc
      All-dedupe_doc i doc st next got p h =
          elim (Bool-cases (is_empty (clean (get "content" doc)))) [
            | inl e ↦
                let same : st ≡ next = ground (arith, got) in
                subst (λ s. All P (documents s.deduped)) same h
            | inr e ↦ elim (Option-cases (lookup (content_hash doc) st.seen_hashes)) [
              | inl e2 ↦
                  let added : assign i doc st.deduped ≡ next.deduped = ground (arith, got) in
                  subst (λ l. All P (documents l)) added (All-assign i doc st.deduped p h)
              | inr (j, e2) ↦ All-keep_better i doc j st next (ground (arith, got)) p h
            ]
          ]

      All-dedupe_docs :
          (docs : List (String × Fields)) (st out : Dedup)
          → dedupe_docs docs st ≡ some out
          → All P (documents docs)
          → All P (documents st.deduped)
          → All P (documents out.deduped)
      unfolding dedupe_docs
      All-dedupe_docs [] st out got p h =
          let same : st ≡ out = ground (arith, got) in
          subst (λ s. All P (documents s.deduped)) same h
      All-dedupe_docs ((i, doc) ∷ docs) st out got p h = elim (Option-cases (dedupe_doc i doc st)) [
        | inl e ↦ absurd (ground (arith, got))
        | inr (next, e) ↦
            All-dedupe_docs docs next out (ground (arith, got)) p.1
              (All-dedupe_doc i doc st next e p.0 h)
      ]

module _ ⦃py : Python⦄ ⦃digest : Digest⦄ where
  -- What a context comes from.
  pub context_of-grounded :
      (institution_id : String) (requested : List String) (mode : String) (results : List Fields)
      (mismatch : Bool) (ctx : GroundedContext)
      → context_of institution_id requested mode results mismatch ≡ grounded ctx
      → (verify_isolation institution_id results ≡ verified)
        × ((st : Dedup) × (dedupe_by_content (map_by_id results []) ≡ some st)
            × (ctx.context_map ≡ st.deduped))
        × (ctx.scope_mismatch_detected ≡ mismatch)
  unfolding context_of
  context_of-grounded institution_id requested mode results mismatch ctx got =
      elim (Option-cases (dedupe_by_content (map_by_id results []))) [
        | inl e ↦ absurd (ground (arith, got))
        | inr (st, e) ↦ (ground (arith, got), (st, e, ground (arith, got)), ground (arith, got))
      ]

  -- All documents of a context are among the results that it is made of.
  context_of-All :
      (P : Fields → Type 0) (institution_id : String) (requested : List String) (mode : String)
      (results : List Fields) (mismatch : Bool) (ctx : GroundedContext)
      → context_of institution_id requested mode results mismatch ≡ grounded ctx
      → All P results
      → All P (documents ctx.context_map)
  context_of-All P institution_id requested mode results mismatch ctx got h =
      let (fine, (st, found, map), same) =
        context_of-grounded institution_id requested mode results mismatch ctx got in
      rw map (
        All-dedupe_docs P (map_by_id results []) (record { seen_hashes = []; deduped = [] }) st
          found (All-map_by_id P results [] h tt) tt)

  kept_names :
      (q : Fields → Bool) (kept results : List Fields)
      → All (λ row. q row ≡ true) kept
      → (filtered_or_all kept results).1 ≡ false
      → All (λ row. q row ≡ true) (filtered_or_all kept results).0
  kept_names q [] [] h match = tt
  kept_names q [] (row ∷ results) h match = absurd (ground arith)
  kept_names q (r ∷ rs) results h match = h

  keep-All : (q : Fields → Bool) (rows : List Fields) → All (λ row. q row ≡ true) (keep q rows)
  keep-All q [] = tt
  keep-All q (row ∷ rows) = elim (Bool-cases (q row)) [
    | inl e ↦ rw e (e, keep-All q rows)
    | inr e ↦ rw e (keep-All q rows)
  ]

  scoped_results-names :
      (results : List Fields) (requested : List String)
      → requested ≢ []
      → (scoped_results results requested).1 ≡ false
      → All (λ row. names_scope requested row ≡ true) (scoped_results results requested).0
  unfolding scoped_results filter_results_by_scope
  scoped_results-names results [] asked match = absurd (asked refl)
  scoped_results-names results (s ∷ ss) asked match =
      let q = λ (row : Fields). names_scope (s ∷ ss) row in
      kept_names q (keep q results) results (keep-All q results) match

  module _ (policy : ScopePolicy) (use_router : Bool)
      (orchestrate : String → ℕ → List String → Option (List Fields × String))
      (retrieve : String → Fields → ℕ → Option (List Fields)) where
    -- Where a context comes from.
    pub get_grounded_context-grounded :
        (query institution_id : String) (k : ℕ) (ctx : GroundedContext)
        → get_grounded_context policy use_router orchestrate retrieve query institution_id k
          ≡ grounded ctx
        → (results : List Fields) × (mode : String) × (context_of institution_id
              (extract_requested_scopes policy query)
              mode
              (scoped_results results (extract_requested_scopes policy query)).0
              (scoped_results results (extract_requested_scopes policy query)).1
            ≡ grounded ctx)
    unfolding get_grounded_context answer_of
    get_grounded_context-grounded query institution_id k ctx got =
        let asked = extract_requested_scopes policy query in
        elim (Bool-cases (needs_clarification policy query)) [
          | inl e ↦ absurd (ground (arith, got))
          | inr e ↦
              elim (Option-cases
                (route policy use_router orchestrate retrieve query institution_id k asked)) [
                  | inl e2 ↦ absurd (ground (arith, got))
                  | inr ((results, mode), e2) ↦ (results, mode, ground (arith, got))
                ]
        ]

    -- Every document of a grounded context belongs to the institution or is global, whether the
    -- router or the vector search found it, and whatever scopes are requested.
    pub grounded_isolated :
        (query institution_id : String) (k : ℕ) (ctx : GroundedContext)
        → is_empty institution_id ≡ false
        → get_grounded_context policy use_router orchestrate retrieve query institution_id k
          ≡ grounded ctx
        → All (IsOwned institution_id) (documents ctx.context_map)
    grounded_isolated query institution_id k ctx named got =
        let asked = extract_requested_scopes policy query in
        let (results, mode, made) = get_grounded_context-grounded query institution_id k ctx got in
        let rows = (scoped_results results asked).0 in
        let mismatch = (scoped_results results asked).1 in
        let (fine, found, same) =
          context_of-grounded institution_id asked mode rows mismatch ctx made in
        context_of-All (IsOwned institution_id) institution_id asked mode rows mismatch ctx made
          ((verified_iff institution_id rows named).0 fine)

    -- A context for requested scopes that does not report a mismatch holds only documents whose scope
    -- names a requested one.
    pub grounded_in_scope :
        (query institution_id : String) (k : ℕ) (ctx : GroundedContext)
        → extract_requested_scopes policy query ≢ []
        → get_grounded_context policy use_router orchestrate retrieve query institution_id k
          ≡ grounded ctx
        → ctx.scope_mismatch_detected ≡ false
        → All
            (λ row. names_scope (extract_requested_scopes policy query) row ≡ true)
            (documents ctx.context_map)
    grounded_in_scope query institution_id k ctx some_asked got match =
        let asked = extract_requested_scopes policy query in
        let (results, mode, made) = get_grounded_context-grounded query institution_id k ctx got in
        let rows = (scoped_results results asked).0 in
        let mismatch = (scoped_results results asked).1 in
        let (fine, found, same) =
          context_of-grounded institution_id asked mode rows mismatch ctx made in
        context_of-All (λ row. names_scope asked row ≡ true) institution_id asked mode rows mismatch
          ctx made (scoped_results-names results asked some_asked (sym same ∙ match))
