-- ===== src/Retrieval/Grounded/Contents.antt =====
-- `_dedupe_by_content`: no two documents of a context have the same content.
use mathlib.Core.Path.{subst}
use cire_rag.Base.{
  Bool-cases, Option-cases, All, ℕ, String, ◌≡◌, refl, inl, inr, Bool, false, not, ◌&&◌, Option,
  none, some, List, [], ◌∷◌, map, arith, ◌==◌, eq_iff, eq_refl,
}
use cire_rag.Base.Assoc.{lookup, assign, names, lookup-assign, assign-Distinct}
use cire_rag.Base.Text.{is_empty, has, Distinct}
use cire_rag.Base.Value.{Fields, Python, get, clean}
use cire_rag.Retrieval.Fusion.Rrf.{at_least}
use cire_rag.Retrieval.Grounded.{
  ScopePolicy, Digest, Dedup, delete, GroundedContext, grounded, content_hash, doc_score,
  keep_better, dedupe_doc, dedupe_docs, map_by_id, get_grounded_context, extract_requested_scopes,
  scoped_results,
}
use cire_rag.Retrieval.Grounded.Laws.{documents, context_of-grounded, get_grounded_context-grounded}

has-delete :
    (k j : String) (d : List (String × Fields))
    → has j (names (delete k d)) ≡ (not (k == j) && has j (names d))
unfolding delete
has-delete k j [] = ground arith
has-delete k j ((i, v) ∷ d) =
    ground (arith, has-delete k j d, eq_iff i k, eq_iff i j, eq_iff k j, eq_iff j i)

delete-Distinct :
    (k : String) (d : List (String × Fields)) → Distinct (names d) → Distinct (names (delete k d))
unfolding delete
delete-Distinct k [] u = tt
delete-Distinct k ((i, v) ∷ d) u = elim (Bool-cases (i == k)) [
  | inl e ↦ rw e (delete-Distinct k d u.1)
  | inr e ↦ rw e (ground (arith, has-delete k i d, u.0), delete-Distinct k d u.1)
]

module _ ⦃py : Python⦄ ⦃digest : Digest⦄ where
  -- The hash of each document leads to its id.
  abbrev Led : List (String × String) → List (String × Fields) → Type 0
  Led seen docs = All (λ e. lookup (content_hash e.1) seen ≡ some e.0) docs

  -- None of the documents has the hash.
  abbrev Without : String → List (String × Fields) → Type 0
  Without h docs = All (λ e. (h == content_hash e.1) ≡ false) docs

  abbrev pub hashes : List (String × Fields) → List String
  hashes docs = map content_hash (documents docs)

  not_repeated :
      (h i : String) (seen : List (String × String)) (docs : List (String × Fields))
      → lookup h seen ≡ some i
      → has i (names docs) ≡ false
      → Led seen docs
      → has h (hashes docs) ≡ false
  not_repeated h i seen [] led other l = refl
  not_repeated h i seen ((j, d) ∷ docs) led other l =
      let rest = not_repeated h i seen docs led (ground (arith, other)) l.1 in
      ground (
        arith,
        rest,
        other,
        led,
        l.0,
        eq_iff (content_hash d) h,
        eq_iff h (content_hash d),
        eq_iff i j,
        eq_iff j i,
      )

  hashes-Distinct :
      (seen : List (String × String)) (docs : List (String × Fields))
      → Led seen docs
      → Distinct (names docs)
      → Distinct (hashes docs)
  hashes-Distinct seen [] l u = tt
  hashes-Distinct seen ((i, d) ∷ docs) l u =
      (not_repeated (content_hash d) i seen docs l.0 u.0 l.1, hashes-Distinct seen docs l.1 u.1)

  Led-kept :
      (h i : String) (seen : List (String × String)) (docs : List (String × Fields))
      → Led seen docs
      → Without h docs
      → Led (assign h i seen) docs
  Led-kept h i seen [] l w = tt
  Led-kept h i seen ((j, d) ∷ docs) l w = (
    ground (arith, lookup-assign h (content_hash d) i seen, l.0, w.0),
    Led-kept h i seen docs l.1 w.1,
  )

  -- A document is put in whose hash none of the others has.
  Led-assign :
      (i : String) (doc : Fields) (seen : List (String × String)) (docs : List (String × Fields))
      → Led seen docs
      → Without (content_hash doc) docs
      → Led (assign (content_hash doc) i seen) (assign i doc docs)
  Led-assign i doc seen [] l w = (
    ground (
      arith,
      lookup-assign (content_hash doc) (content_hash doc) i seen,
      eq_refl (content_hash doc),
    ),
    tt,
  )
  Led-assign i doc seen ((j, d) ∷ docs) l w =
      let h = content_hash doc in
      let own = lookup-assign h h i seen in
      let kept = lookup-assign h (content_hash d) i seen in
      elim (Bool-cases (j == i)) [
        | inl e ↦
            rw e (ground (arith, own, eq_refl h, eq_iff j i, e), Led-kept h i seen docs l.1 w.1)
        | inr e ↦ rw e (ground (arith, kept, l.0, w.0), Led-assign i doc seen docs l.1 w.1)
      ]

  Without-new :
      (h : String) (seen : List (String × String)) (docs : List (String × Fields))
      → lookup h seen ≡ none
      → Led seen docs
      → Without h docs
  Without-new h seen [] none_there l = tt
  Without-new h seen ((j, d) ∷ docs) none_there l = (
    ground (arith, none_there, l.0, eq_iff h (content_hash d)),
    Without-new h seen docs none_there l.1,
  )

  Without-delete :
      (h i : String) (seen : List (String × String)) (docs : List (String × Fields))
      → lookup h seen ≡ some i
      → Led seen docs
      → Without h (delete i docs)
  unfolding delete
  Without-delete h i seen [] there l = tt
  Without-delete h i seen ((j, d) ∷ docs) there l = elim (Bool-cases (j == i)) [
    | inl e ↦ rw e (Without-delete h i seen docs there l.1)
    | inr e ↦ rw e (
      ground (arith, there, l.0, e, eq_iff h (content_hash d), eq_iff j i),
      Without-delete h i seen docs there l.1,
    )
  ]

  Led-delete :
      (i : String) (seen : List (String × String)) (docs : List (String × Fields))
      → Led seen docs
      → Led seen (delete i docs)
  unfolding delete
  Led-delete i seen [] l = tt
  Led-delete i seen ((j, d) ∷ docs) l = elim (Bool-cases (j == i)) [
    | inl e ↦ rw e (Led-delete i seen docs l.1)
    | inr e ↦ rw e (l.0, Led-delete i seen docs l.1)
  ]

  -- What holds after each turn of the loop.
  record Deduped (st : Dedup) : Type 0 where
    led : Led st.seen_hashes st.deduped
    once : Distinct (names st.deduped)

  Deduped-keep_better :
      (i : String) (doc : Fields) (j : String) (st next : Dedup)
      → lookup (content_hash doc) st.seen_hashes ≡ some j
      → keep_better i doc j st ≡ some next
      → Deduped st
      → Deduped next
  unfolding keep_better
  Deduped-keep_better i doc j st next there got inv = elim (Option-cases (lookup j st.deduped)) [
    | inl e ↦ absurd (ground (arith, got))
    | inr (old, e) ↦ elim (Option-cases (doc_score old)) [
      | inl e2 ↦ absurd (ground (arith, got))
      | inr (a, e2) ↦ elim (Option-cases (doc_score doc)) [
        | inl e3 ↦ absurd (ground (arith, got))
        | inr (b, e3) ↦ elim (Bool-cases (at_least a b)) [
          | inl e4 ↦ let same : st ≡ next = ground (arith, got) in subst Deduped same inv
          | inr e4 ↦
              let h = content_hash doc in
              let fewer = delete j st.deduped in
              let moved : Dedup = record {
                seen_hashes = assign h i st.seen_hashes;
                deduped = assign i doc fewer;
              } in
              let same : moved ≡ next = ground (arith, got) in
              subst Deduped same (record {
                led =
                    Led-assign i doc st.seen_hashes fewer
                      (Led-delete j st.seen_hashes st.deduped inv.led)
                      (Without-delete h j st.seen_hashes st.deduped there inv.led);
                once = assign-Distinct i doc fewer (delete-Distinct j st.deduped inv.once);
              })
        ]
      ]
    ]
  ]

  Deduped-dedupe_doc :
      (i : String) (doc : Fields) (st next : Dedup)
      → dedupe_doc i doc st ≡ some next
      → Deduped st
      → Deduped next
  unfolding dedupe_doc
  Deduped-dedupe_doc i doc st next got inv =
      elim (Bool-cases (is_empty (clean (get "content" doc)))) [
        | inl e ↦ let same : st ≡ next = ground (arith, got) in subst Deduped same inv
        | inr e ↦ elim (Option-cases (lookup (content_hash doc) st.seen_hashes)) [
          | inl e2 ↦
              let h = content_hash doc in
              let added : Dedup = record {
                seen_hashes = assign h i st.seen_hashes;
                deduped = assign i doc st.deduped;
              } in
              let same : added ≡ next = ground (arith, got) in
              subst Deduped same (record {
                led =
                    Led-assign i doc st.seen_hashes st.deduped inv.led
                      (Without-new h st.seen_hashes st.deduped e2 inv.led);
                once = assign-Distinct i doc st.deduped inv.once;
              })
          | inr (j, e2) ↦ Deduped-keep_better i doc j st next e2 (ground (arith, got)) inv
        ]
      ]

  Deduped-dedupe_docs :
      (docs : List (String × Fields)) (st out : Dedup)
      → dedupe_docs docs st ≡ some out
      → Deduped st
      → Deduped out
  unfolding dedupe_docs
  Deduped-dedupe_docs [] st out got inv =
      let same : st ≡ out = ground (arith, got) in subst Deduped same inv
  Deduped-dedupe_docs ((i, doc) ∷ docs) st out got inv = elim (Option-cases (dedupe_doc i doc st)) [
    | inl e ↦ absurd (ground (arith, got))
    | inr (next, e) ↦
        Deduped-dedupe_docs docs next out (ground (arith, got))
          (Deduped-dedupe_doc i doc st next e inv)
  ]

  module _ (policy : ScopePolicy) (use_router : Bool)
      (orchestrate : String → ℕ → List String → Option (List Fields × String))
      (retrieve : String → Fields → ℕ → Option (List Fields)) where
    -- No two documents of a grounded context have the same content: the hashes of their contents,
    -- which do not see case and white space, are distinct, and so are their ids.
    pub grounded_contents-Distinct :
        (query institution_id : String) (k : ℕ) (ctx : GroundedContext)
        → get_grounded_context policy use_router orchestrate retrieve query institution_id k
          ≡ grounded ctx
        → Distinct (hashes ctx.context_map) × Distinct (names ctx.context_map)
    grounded_contents-Distinct query institution_id k ctx got =
        let asked = extract_requested_scopes policy query in
        let (results, mode, made) =
          get_grounded_context-grounded policy use_router orchestrate retrieve query institution_id
            k ctx got in
        let rows = (scoped_results results asked).0 in
        let mismatch = (scoped_results results asked).1 in
        let (fine, (st, found, map), same) =
          context_of-grounded institution_id asked mode rows mismatch ctx made in
        let start : Dedup = record { seen_hashes = []; deduped = [] } in
        let inv =
          Deduped-dedupe_docs (map_by_id rows []) start st found (record { led = tt; once = tt }) in
        rw map (hashes-Distinct st.seen_hashes st.deduped inv.led inv.once, inv.once)
