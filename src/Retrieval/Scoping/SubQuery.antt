-- ===== src/Retrieval/Scoping/SubQuery.antt =====
-- app/domain/retrieval/scoping.py: `scope_context_for_subquery`, which narrows a context to the standards
-- and the clause that a sub-query names, with `clause_near_standard`.
use mathlib.Core.Path.{subst}
use cire_rag.Base.{
  if◌then◌else◌, All, ℕ, ◌+◌, ◌-◌, String, ◌≡◌, refl, ◌∙◌, false, ◌||◌, Option, none, some, List,
  [], ◌∷◌, map, arith, ◌==◌,
}
use cire_rag.Base.Text.{is_empty, strip, Distinct, dedupe-Distinct}
use cire_rag.Base.Value.{
  Value, str, dict, Fields, Python, truthy, get, put, pop, dict_or_empty, or_else, clean, get-put,
  get-pop,
}
use cire_rag.Retrieval.Item.{prefix, suffix}
use cire_rag.Retrieval.Filters.Standards.{IsClean}
use cire_rag.Retrieval.Scoping.{requested_scopes_from_context, put_standards}
use cire_rag.Retrieval.Scoping.Names.{Patterns, extract_requested_standards, extract_clause_refs}
use cire_rag.Retrieval.Scoping.Scopes.{
  single_value, list_value, pair, get-put_standards, clean_texts-texts, twice, append_nil,
}

-- `re.search(re.escape(s), q, flags=re.IGNORECASE)`: where the match starts and ends.
pub record Search : Type 0 where
  pub span : String → String → Option (ℕ × ℕ)

module _ ⦃py : Python⦄ ⦃re : Patterns⦄ ⦃search : Search⦄ where
  unfoldable pub clause_near_standard : String → String → Option String
  clause_near_standard query standard =
      let s = strip standard in
      if is_empty query || is_empty s then none else elim (search.span s query) [
        | none ↦ none
        | some (start, stop) ↦
            elim (extract_clause_refs
              (prefix (stop + 120 - (start - 80)) (suffix (start - 80) query))) [
                | [] ↦ none
                | c ∷ [] ↦ some c
                | c ∷ _ ∷ _ ↦ none
              ]
      ]

  -- The standards of the sub-query, if it names any, replace the others.
  unfoldable pub with_standards : List String → Fields → Fields
  with_standards [] d = d
  with_standards (x ∷ xs) d = put_standards (x ∷ xs) d

  abbrev pub metadata_in : Fields → Fields
  metadata_in nested = dict_or_empty (get "metadata" nested)

  -- The clause is put into the metadata filter, or taken out of it.
  unfoldable pub with_clause : Option String → Fields → Fields
  with_clause (some (String.◌∷◌ c s)) nested =
      put "metadata" (dict (put "clause_id" (str (String.◌∷◌ c s)) (metadata_in nested))) nested
  with_clause _ nested =
      let rest = pop "clause_id" (metadata_in nested) in
      if truthy (dict rest) then put "metadata" (dict rest) nested else pop "metadata" nested

  unfoldable pub narrow_clauses : String → Fields → Fields → Fields
  narrow_clauses text scoped nested =
      let active = clean (or_else (get "source_standard" scoped) (get "source_standard" nested)) in
      elim (extract_clause_refs text) [
        | [] ↦ nested
        | _ ∷ _ ↦
            with_clause (if is_empty active then none else clause_near_standard text active) nested
      ]

  unfoldable pub scope_context_for_subquery : Value → String → Value
  scope_context_for_subquery (dict context) text =
      let standards = extract_requested_standards text in
      let scoped = with_standards standards context in
      let nested = with_standards standards (dict_or_empty (get "filters" context)) in
      dict (put "filters" (dict (narrow_clauses text scoped nested)) scoped)
  scope_context_for_subquery v text = v

  get-with_clause :
      (k : String) (o : Option String) (nested : Fields)
      → ("metadata" == k) ≡ false
      → get k (with_clause o nested) ≡ get k nested
  unfolding with_clause
  get-with_clause k none nested h = ground (
    arith,
    get-put "metadata" k (dict (pop "clause_id" (metadata_in nested))) nested,
    get-pop "metadata" k nested,
  )
  get-with_clause k (some String.[]) nested h = ground (
    arith,
    get-put "metadata" k (dict (pop "clause_id" (metadata_in nested))) nested,
    get-pop "metadata" k nested,
  )
  get-with_clause k (some (String.◌∷◌ c s)) nested h = ground (
    arith,
    get-put "metadata" k (dict (put "clause_id" (str (String.◌∷◌ c s)) (metadata_in nested)))
        nested,
  )

  get-narrow_clauses :
      (k text : String) (scoped nested : Fields)
      → ("metadata" == k) ≡ false
      → get k (narrow_clauses text scoped nested) ≡ get k nested
  unfolding narrow_clauses
  get-narrow_clauses k text scoped nested h =
      let active = clean (or_else (get "source_standard" scoped) (get "source_standard" nested)) in
      let o = if is_empty active then none else clause_near_standard text active in
      elim (extract_clause_refs text)
        as (λ cs. get k (elim cs [ [] ↦ nested | _ ∷ _ ↦ with_clause o nested ]) ≡ get k nested) [
          | [] ↦ refl
          | _ ∷ _ ↦ get-with_clause k o nested h
        ]

  pub get-with_standards :
      (k : String) (xs : List String) (d : Fields)
      → ("source_standard" == k) ≡ false
      → ("source_standards" == k) ≡ false
      → get k (with_standards xs d) ≡ get k d
  unfolding with_standards put_standards
  get-with_standards k [] d g h = refl
  get-with_standards k (x ∷ []) d g h = simp (get-put, get-pop, g, h) refl
  get-with_standards k (x ∷ y ∷ xs) d g h = simp (get-put, get-pop, g, h) refl

  -- The tenant, the collection and all else of the context that is not a standard or a filter reach
  -- the sub-query as they are.
  subquery_keeps_tenant :
      (context : Fields) (text k : String)
      → ("source_standard" == k) ≡ false
      → ("source_standards" == k) ≡ false
      → ("filters" == k) ≡ false
      → get k (dict_or_empty (scope_context_for_subquery (dict context) text)) ≡ get k context
  unfolding scope_context_for_subquery
  subquery_keeps_tenant context text k g h f =
      simp (get-put, f) (get-with_standards k (extract_requested_standards text) context g h)

  -- A context whose own filters, and the nested ones, name one list of standards asks for that list.
  requested_by :
      (d n : Fields) (x : String) (xs : List String)
      → get "filters" d ≡ dict n
      → get "source_standard" d ≡ single_value (pair (x ∷ xs)).0
      → get "source_standards" d ≡ list_value (pair (x ∷ xs)).1
      → get "source_standard" n ≡ single_value (pair (x ∷ xs)).0
      → get "source_standards" n ≡ list_value (pair (x ∷ xs)).1
      → Distinct (x ∷ xs)
      → All IsClean (x ∷ xs)
      → requested_scopes_from_context (dict d) ≡ x ∷ xs
  unfolding requested_scopes_from_context
  requested_by d n x [] f a b c e u cl = simp (f, a, b, c, e, cl.0.0, cl.0.1) (twice (x ∷ []) u)
  requested_by d n x (y ∷ xs) f a b c e u cl =
      simp (f, a, b, c, e, clean_texts-texts (x ∷ y ∷ xs) cl)
        (simp append_nil (twice (x ∷ y ∷ xs) u))

  standards-Distinct : (text : String) → Distinct (extract_requested_standards text)
  unfolding extract_requested_standards
  standards-Distinct text =
      dedupe-Distinct (map (λ m. py.upper (strip m)) (re.standard_matches text))

  -- A sub-query that names standards, each of them not blank and without blanks around it, is asked
  -- for exactly those, in the order of their first mention, whatever the context asks for.
  pub subquery_scopes :
      (context : Fields) (text x : String) (xs : List String)
      → extract_requested_standards text ≡ x ∷ xs
      → All IsClean (x ∷ xs)
      → requested_scopes_from_context (scope_context_for_subquery (dict context) text) ≡ x ∷ xs
  unfolding scope_context_for_subquery with_standards
  subquery_scopes context text x xs names cl =
      let nested = put_standards (x ∷ xs) (dict_or_empty (get "filters" context)) in
      let scoped = put_standards (x ∷ xs) context in
      let outer = get-put_standards (x ∷ xs) context in
      let inner = get-put_standards (x ∷ xs) (dict_or_empty (get "filters" context)) in
      let narrowed = narrow_clauses text scoped nested in
      let at = λ (k : String). get-put "filters" k (dict narrowed) scoped in
      rw names (
        requested_by (put "filters" (dict narrowed) scoped) narrowed x xs (at "filters")
          (at "source_standard" ∙ outer.0) (at "source_standards" ∙ outer.1)
          (get-narrow_clauses "source_standard" text scoped nested refl ∙ inner.0)
          (get-narrow_clauses "source_standards" text scoped nested refl ∙ inner.1)
          (subst Distinct names (standards-Distinct text)) cl)
