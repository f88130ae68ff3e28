-- ===== src/Retrieval/Filters/Standards.antt =====
-- The requested standards of a request, normalized.
use cire_rag.Base.{
  All, String, ◌≡◌, refl, false, not, ◌&&◌, ◌||◌, Option, none, some, List, [], ◌∷◌, arith, ◌==◌,
  eq_iff,
}
use cire_rag.Base.Text.{
  is_empty, strip, strip_idem, has, Distinct, has-dedupe, All-dedupe, dedupe-Distinct,
  dedupe_of_Distinct,
}
use cire_rag.Base.Value.{
  Value, str, list, Items, nil, cons, Fields, Python, get, text_or_empty, clean,
}
use cire_rag.Retrieval.Filters.{
  check_standards, read_standards, with_single, settle, texts, validate_source_standards,
  normalized_of,
}

-- The standards that a normalized pair names, in order.
abbrev pub named : Option String × List String → List String
named (none, xs) = xs
named (some s, xs) = s ∷ xs

-- A single standard with no list, or none with no or several listed.
abbrev pub IsSettled : Option String × List String → Type 0
IsSettled (some s, []) = Unit
IsSettled (some s, x ∷ xs) = ⊥
IsSettled (none, []) = Unit
IsSettled (none, x ∷ []) = ⊥
IsSettled (none, x ∷ y ∷ xs) = Unit

-- A text without blanks around it, that is not empty.
abbrev pub IsClean : String → Type 0
IsClean s = (is_empty s ≡ false) × (strip s ≡ s)

check_standards-IsClean : (vs : Items) → All IsClean (check_standards vs).0
unfolding check_standards
check_standards-IsClean nil = tt
check_standards-IsClean (cons (str s) vs) = ground (arith, check_standards-IsClean vs, strip_idem s)
check_standards-IsClean (cons v vs) = ground (arith, check_standards-IsClean vs)

settle-named :
    (s : String) (xs : List String) → named (settle s (with_single s xs)) ≡ with_single s xs
unfolding settle
settle-named s [] = ground arith
settle-named s (x ∷ []) = ground arith
settle-named s (x ∷ y ∷ xs) = ground arith

settle-IsSettled : (s : String) (xs : List String) → IsSettled (settle s (with_single s xs))
unfolding settle
settle-IsSettled s [] = ground arith
settle-IsSettled s (x ∷ []) = ground arith
settle-IsSettled s (x ∷ y ∷ xs) = ground arith

read_standards-Distinct : (v : Value) → Distinct (read_standards v).0
unfolding read_standards
read_standards-Distinct (list vs) = dedupe-Distinct (check_standards vs).0
read_standards-Distinct v = tt

with_single-Distinct : (s : String) (xs : List String) → Distinct xs → Distinct (with_single s xs)
with_single-Distinct s xs d = ground arith

-- The texts of a list that name a standard, without the blanks around them.
abbrev pub listed : Value → List String
listed (list vs) = (check_standards vs).0
listed v = []

has-read_standards : (k : String) (v : Value) → has k (read_standards v).0 ≡ has k (listed v)
unfolding read_standards
has-read_standards k (list vs) = has-dedupe (check_standards vs).0 k
has-read_standards k v = refl

module _ ⦃py : Python⦄ where
  -- The normalized standards are one single standard, or none, or a list of several distinct ones; they
  -- are the one of `source_standard`, unless it is blank, and those of the list `source_standards`.
  pub standards-IsSettled :
      (raw : Fields) (k : String)
      → IsSettled (validate_source_standards raw).0
        × Distinct (named (validate_source_standards raw).0)
        × (has k (named (validate_source_standards raw).0) ≡ (
            (not (is_empty (clean (get "source_standard" raw)))
              && clean (get "source_standard" raw) == k)
            || has k (listed (get "source_standards" raw))))
  unfolding validate_source_standards
  standards-IsSettled raw k =
      let s = clean (get "source_standard" raw) in
      let xs = (read_standards (get "source_standards" raw)).0 in
      (
        settle-IsSettled s xs,
        rw (settle-named s xs)
            (with_single-Distinct s xs (read_standards-Distinct (get "source_standards" raw))),
        rw (settle-named s xs)
            (ground (arith, has-read_standards k (get "source_standards" raw), eq_iff s k)),
      )

check_standards-texts : (xs : List String) → All IsClean xs → check_standards (texts xs) ≡ (xs, [])
unfolding check_standards
check_standards-texts [] h = refl
check_standards-texts (x ∷ xs) h = ground (arith, check_standards-texts xs h.1)

read_standards-IsClean : (v : Value) → All IsClean (read_standards v).0
unfolding read_standards
read_standards-IsClean (list vs) =
    All-dedupe IsClean (check_standards vs).0 (check_standards-IsClean vs)
read_standards-IsClean v = tt

with_single-IsClean :
    (s : String) (xs : List String) → strip s ≡ s → All IsClean xs → All IsClean (with_single s xs)
with_single-IsClean s xs h k = ground arith

module _ ⦃py : Python⦄ where
  settled_again :
      (metadata times : Fields) (r : Option String × List String)
      → IsSettled r
      → Distinct (named r)
      → All IsClean (named r)
      → validate_source_standards (normalized_of metadata times r.0 r.1) ≡ (r, [])
  unfolding validate_source_standards normalized_of get read_standards settle strip
  settled_again metadata times (some s, []) h d c = simp (c.0.0, c.0.1) refl
  settled_again metadata times (some s, x ∷ xs) h d c = absurd h
  settled_again metadata times (none, []) h d c = refl
  settled_again metadata times (none, x ∷ []) h d c = absurd h
  settled_again metadata times (none, x ∷ y ∷ xs) h d c =
      rw (check_standards-texts (x ∷ y ∷ xs) c) (rw (dedupe_of_Distinct (x ∷ y ∷ xs) d) refl)

  -- The named standards are clean.
  pub named-IsClean : (raw : Fields) → All IsClean (named (validate_source_standards raw).0)
  unfolding validate_source_standards
  named-IsClean raw =
      let s = clean (get "source_standard" raw) in
      let xs = (read_standards (get "source_standards" raw)).0 in
      rw (settle-named s xs) (
        with_single-IsClean s xs (strip_idem (text_or_empty (get "source_standard" raw)))
          (read_standards-IsClean (get "source_standards" raw)))

  -- Normalized standards are valid, and normalizing them again changes nothing.
  standards_idempotent :
      (raw metadata times : Fields)
      → validate_source_standards (
          normalized_of metadata times
            (validate_source_standards raw).0.0
            (validate_source_standards raw).0.1)
        ≡ ((validate_source_standards raw).0, [])
  standards_idempotent raw metadata times =
      let (settled, distinct, _) = standards-IsSettled raw "" in
      settled_again metadata times (validate_source_standards raw).0 settled distinct
        (named-IsClean raw)
