-- ===== src/Retrieval/Scoping/Scopes.antt =====
-- The standards of a request from its validation to the scopes that the retrieval asks for.
use cire_rag.Base.{
  if◌then◌else◌, All, String, ◌≡◌, refl, ap, ◌∙◌, ◌&&◌, Option, none, some, List, [], ◌∷◌, ◌++◌,
  arith, ◌==◌,
}
use cire_rag.Base.Text.{dedupe, Distinct, dedupe-append, dedupe_of_Distinct}
use cire_rag.Base.Value.{
  Value, null, str, list, dict, Items, nil, cons, Fields, Python, truthy, get, clean, get-put,
  get-pop,
}
use cire_rag.Retrieval.Filters.{
  check_standards, read_standards, with_single, settle, texts, normalized_of,
  validate_source_standards,
}
use cire_rag.Retrieval.Filters.Standards.{
  named, IsSettled, IsClean, standards-IsSettled, named-IsClean,
}
use cire_rag.Retrieval.Scoping.{
  clean_texts, listed_texts, requested_scopes_from_context, put_standards, put_truthy,
  build_scope_context, normalize_standard_filters,
}

clean_texts-check : (vs : Items) → clean_texts vs ≡ (check_standards vs).0
unfolding clean_texts check_standards
clean_texts-check nil = refl
clean_texts-check (cons (str s) vs) = ground (arith, clean_texts-check vs)
clean_texts-check (cons v vs) = clean_texts-check vs

read_standards-listed : (v : Value) → dedupe (listed_texts v) ≡ (read_standards v).0
unfolding read_standards dedupe
read_standards-listed (list vs) = ap dedupe (clean_texts-check vs)
read_standards-listed v = refl

pub clean_texts-texts : (xs : List String) → All IsClean xs → clean_texts (texts xs) ≡ xs
unfolding clean_texts
clean_texts-texts [] h = refl
clean_texts-texts (x ∷ xs) h = ground (arith, clean_texts-texts xs h.1)

-- The value of a standard in a dictionary of filters.
abbrev pub single_value : Option String → Value
single_value none = null
single_value (some s) = str s

-- The value of a list of standards.
abbrev pub list_value : List String → Value
list_value [] = null
list_value (x ∷ xs) = list (texts (x ∷ xs))

get-put_truthy :
    (k j : String) (v : Value) (d : Fields)
    → get j (put_truthy k v d) ≡ (if k == j && truthy v then v else get j d)
unfolding put_truthy
get-put_truthy k j v d = ground (arith, get-put k j v d)

-- The pair that a list of standards stands for.
abbrev pub pair : List String → Option String × List String
pair [] = (none, [])
pair (x ∷ []) = (some x, [])
pair (x ∷ y ∷ xs) = (none, x ∷ y ∷ xs)

settle-pair :
    (s : String) (xs : List String) → settle s (with_single s xs) ≡ pair (with_single s xs)
unfolding settle
settle-pair s [] = ground arith
settle-pair s (x ∷ []) = ground arith
settle-pair s (x ∷ y ∷ xs) = ground arith

pub get-put_standards :
    (xs : List String) (d : Fields)
    → (get "source_standard" (put_standards xs d) ≡ single_value (pair xs).0)
      × (get "source_standards" (put_standards xs d) ≡ list_value (pair xs).1)
unfolding put_standards
get-put_standards [] d = simp get-pop (refl, refl)
get-put_standards (x ∷ []) d = simp (get-put, get-pop) (refl, refl)
get-put_standards (x ∷ y ∷ xs) d = simp (get-put, get-pop) (refl, refl)

pub append_nil : (xs : List String) → xs ++ [] ≡ xs
append_nil [] = refl
append_nil (x ∷ xs) = ap (◌∷◌ x) (append_nil xs)

pub twice : (xs : List String) → Distinct xs → dedupe (xs ++ xs) ≡ xs
twice xs d = dedupe-append xs xs (λ y h. h) ∙ dedupe_of_Distinct xs d

module _ ⦃py : Python⦄ where
  -- The two normalizations of a request's standards agree: `normalize_standard_filters` leaves in the
  -- filters the single standard and the list that `validate_source_standards` answers, and no others.
  normalizers_agree :
      (raw : Fields)
      → (get "source_standard" (normalize_standard_filters raw)
          ≡ single_value (validate_source_standards raw).0.0)
        × (get "source_standards" (normalize_standard_filters raw)
            ≡ list_value (validate_source_standards raw).0.1)
  unfolding normalize_standard_filters validate_source_standards
  normalizers_agree raw =
      let single = clean (get "source_standard" raw) in
      let xs = (read_standards (get "source_standards" raw)).0 in
      rw (read_standards-listed (get "source_standards" raw))
        (rw (settle-pair single xs) (get-put_standards (with_single single xs) raw))

  requested_of :
      (tenant_id collection_id : String) (metadata times : Fields)
      → (r : Option String × List String) → IsSettled r
      → Distinct (named r)
      → All IsClean (named r)
      → requested_scopes_from_context (
          dict (build_scope_context tenant_id collection_id (normalized_of metadata times r.0 r.1)))
        ≡ named r
  unfolding requested_scopes_from_context build_scope_context normalized_of get
  requested_of t c metadata times (some s, []) h d cl =
      simp (get-put_truthy, cl.0.0, cl.0.1) (twice (s ∷ []) d)
  requested_of t c metadata times (some s, x ∷ xs) h d cl = absurd h
  requested_of t c metadata times (none, []) h d cl = simp get-put_truthy (dedupe_of_Distinct [] tt)
  requested_of t c metadata times (none, x ∷ []) h d cl = absurd h
  requested_of t c metadata times (none, x ∷ y ∷ xs) h d cl =
      simp (get-put_truthy, clean_texts-texts (x ∷ y ∷ xs) cl)
        (simp append_nil (twice (x ∷ y ∷ xs) d))

  -- The retrieval asks for exactly the standards that the validation of the request has named, in their
  -- order, whatever the tenant, the collection and the other filters are.
  pub scopes_survive :
      (tenant_id collection_id : String) (metadata times raw : Fields)
      → requested_scopes_from_context (
          dict (
            build_scope_context tenant_id collection_id (
              normalized_of metadata times
                (validate_source_standards raw).0.0
                (validate_source_standards raw).0.1)))
        ≡ named (validate_source_standards raw).0
  scopes_survive tenant_id collection_id metadata times raw =
      let (settled, distinct, _) = standards-IsSettled raw "" in
      requested_of tenant_id collection_id metadata times (validate_source_standards raw).0 settled
        distinct (named-IsClean raw)
