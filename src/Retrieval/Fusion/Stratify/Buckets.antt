-- ===== src/Retrieval/Fusion/Stratify/Buckets.antt =====
-- `stratify_results`: what the buckets hold.
use mathlib.Core.List.{append-nil, append_assoc}
use cire_rag.Base.{
  if◌then◌else◌, bit, Bool-cases, Option-cases, length, keep, count, All, count-append, ℕ, zero,
  suc, ◌+◌, ◌≤◌, String, ◌≡◌, refl, sym, ap, ◌∙◌, inl, inr, Bool, true, false, none, some, List, [],
  ◌∷◌, ◌++◌, map, arith, ◌==◌, eq_iff, eq_refl,
}
use cire_rag.Base.Assoc.{assign, lookup-assign}
use cire_rag.Base.Text.{has, Distinct}
use cire_rag.Base.Value.{Fields, Python}
use cire_rag.Retrieval.Scoping.Names.{Patterns}
use cire_rag.Retrieval.Fusion.Stratify.{
  Sorted, first_match, bucket, empty_buckets, max_len, std_of, place, place_rows, sorted_rows,
}
use cire_rag.Retrieval.Fusion.Stratify.Laws.{heads, tail, columns, short_tails, table}

-- The number of rows with `p` in all buckets.
abbrev pub total {ℓ} : {A : Type ℓ} → (A → Bool) → List (List A) → ℕ
total p [] = 0
total p (b ∷ bs) = count p b + total p bs

total-heads {ℓ} :
    {A : Type ℓ} (p : A → Bool) (bs : List (List A))
    → count p (heads bs) + total p (map tail bs) ≡ total p bs
total-heads p [] = refl
total-heads p ([] ∷ bs) = omega (arith, total-heads p bs)
total-heads p ((r ∷ b) ∷ bs) = omega (arith, total-heads p bs)

total_empty {ℓ} :
    {A : Type ℓ} (p : A → Bool) (bs : List (List A)) → All (λ b. length b ≤ 0) bs → total p bs ≡ 0
total_empty p [] h = refl
total_empty p ([] ∷ bs) h = omega (arith, total_empty p bs h.1)
total_empty p ((r ∷ b) ∷ bs) h = absurd (omega (arith, h.0))

-- The columns are the rows of the buckets.
pub count-columns {ℓ} :
    {A : Type ℓ} (p : A → Bool) (n : ℕ) (bs : List (List A))
    → All (λ b. length b ≤ n) bs
    → count p (columns n bs) ≡ total p bs
count-columns p zero bs h = omega (arith, total_empty p bs h)
count-columns p (suc n) bs h = omega (
  arith,
  count-append p (heads bs) (columns n (map tail bs)),
  count-columns p n (map tail bs) (short_tails n bs h),
  total-heads p bs,
)

bucket-assign :
    (k j : String) (rows : List Fields) (d : List (String × List Fields))
    → bucket j (assign k rows d) ≡ (if k == j then rows else bucket j d)
bucket-assign k j rows d = ground (arith, lookup-assign k j rows d)

length-bucket : (s : String) (d : List (String × List Fields)) → length (bucket s d) ≤ max_len d
unfolding max_len
length-bucket s [] = omega arith
length-bucket s ((j, rows) ∷ d) = ground (arith, length-bucket s d)

pub short_buckets :
    (d : List (String × List Fields)) (ss : List String)
    → All (λ b. length b ≤ max_len d) (table d ss)
short_buckets d [] = tt
short_buckets d (s ∷ ss) = (length-bucket s d, short_buckets d ss)

bucket-empty :
    (s : String) (ss : List String) (d : List (String × List Fields))
    → bucket s d ≡ []
    → bucket s (empty_buckets ss d) ≡ []
unfolding empty_buckets
bucket-empty s [] d h = h
bucket-empty s (j ∷ ss) d h =
    bucket-empty s ss (assign j [] d) (ground (arith, bucket-assign j s [] d))

first_match-has :
    (std s : String) (ss : List String) → first_match std ss ≡ some s → has s ss ≡ true
unfolding first_match
first_match-has std s [] h = absurd (ground arith)
first_match-has std s (j ∷ ss) h = ground (arith, first_match-has std s ss, eq_refl s)

-- A row put into one bucket, seen from targets without it and with it.
total_without :
    (p : Fields → Bool) (s : String) (rows : List Fields) (d : List (String × List Fields))
    → (ss : List String) → has s ss ≡ false
    → total p (table (assign s rows d) ss) ≡ total p (table d ss)
total_without p s rows d [] h = refl
total_without p s rows d (j ∷ ss) h =
    let rest = total_without p s rows d ss (ground arith) in
    ground (arith, bucket-assign s j rows d, eq_iff j s, eq_iff s j)

total_with :
    (p : Fields → Bool) (s : String) (row : Fields) (d : List (String × List Fields))
    → (ss : List String) → has s ss ≡ true
    → Distinct ss
    → total p (table (assign s (bucket s d ++ row ∷ []) d) ss) ≡ total p (table d ss) + bit (p row)
total_with p s row d [] h u = absurd (ground arith)
total_with p s row d (j ∷ ss) h u = elim (Bool-cases (j == s)) [
  | inl e ↦ ground (
    arith,
    bucket-assign s j (bucket s d ++ row ∷ []) d,
    eq_iff j s,
    eq_iff s j,
    count-append p (bucket s d) (row ∷ []),
    total_without p s (bucket s d ++ row ∷ []) d ss,
  )
  | inr e ↦ ground (
    arith,
    bucket-assign s j (bucket s d ++ row ∷ []) d,
    eq_iff j s,
    eq_iff s j,
    total_with p s row d ss,
  )
]

module _ ⦃py : Python⦄ ⦃re : Patterns⦄ where
  total-place :
      (p : Fields → Bool) (targets : List String) (row : Fields) (r : Sorted)
      → Distinct targets
      → total p (table (place targets row r).buckets targets) + count p (place targets row r).others
        ≡ total p (table r.buckets targets) + count p r.others + bit (p row)
  unfolding place
  total-place p targets row r u = elim (Option-cases (first_match (std_of row) targets)) [
    | inl e ↦ ground (arith, count-append p r.others (row ∷ []))
    | inr (s, e) ↦
        ground
          (arith, total_with p s row r.buckets targets (first_match-has (std_of row) s targets e) u)
  ]

  total-place_rows :
      (p : Fields → Bool) (targets : List String) (rows : List Fields) (r : Sorted)
      → Distinct targets
      → total p (table (place_rows targets rows r).buckets targets)
          + count p (place_rows targets rows r).others
        ≡ total p (table r.buckets targets) + count p r.others + count p rows
  unfolding place_rows
  total-place_rows p targets [] r u = omega arith
  total-place_rows p targets (row ∷ rows) r u = omega (
    arith,
    total-place_rows p targets rows (place targets row r) u,
    total-place p targets row r u,
  )

  start_total :
      (p : Fields → Bool) (ss targets : List String)
      → total p (table (empty_buckets targets []) ss) ≡ 0
  start_total p [] targets = refl
  start_total p (s ∷ ss) targets =
      ground (arith, bucket-empty s targets [] refl, start_total p ss targets)

  -- The buckets and the others are the rows, where no target occurs twice.
  pub sorted_total :
      (p : Fields → Bool) (targets : List String) (rows : List Fields)
      → Distinct targets
      → total p (table (sorted_rows targets rows).buckets targets)
          + count p (sorted_rows targets rows).others
        ≡ count p rows
  sorted_total p targets rows u = omega (
    arith,
    total-place_rows p targets rows (record { buckets = empty_buckets targets []; others = [] }) u,
    start_total p targets targets,
  )

  -- The row belongs into the bucket of `s`.
  abbrev pub is_of : List String → String → Fields → Bool
  is_of targets s row = elim (first_match (std_of row) targets) [ none ↦ false | some j ↦ j == s ]

  bucket-place :
      (s : String) (targets : List String) (row : Fields) (r : Sorted)
      → bucket s (place targets row r).buckets
        ≡ (if is_of targets s row then bucket s r.buckets ++ row ∷ [] else bucket s r.buckets)
  unfolding place
  bucket-place s targets row r = elim (Option-cases (first_match (std_of row) targets)) [
    | inl e ↦ ground arith
    | inr (j, e) ↦
        ground (arith, bucket-assign j s (bucket j r.buckets ++ row ∷ []) r.buckets, eq_iff j s)
  ]

  bucket-place_rows :
      (s : String) (targets : List String) (rows : List Fields) (r : Sorted)
      → bucket s (place_rows targets rows r).buckets
        ≡ bucket s r.buckets ++ keep (is_of targets s) rows
  unfolding place_rows
  bucket-place_rows s targets [] r = sym (append-nil (bucket s r.buckets))
  bucket-place_rows s targets (row ∷ rows) r =
      let rest = bucket-place_rows s targets rows (place targets row r) in
      let one = bucket-place s targets row r in
      elim (Bool-cases (is_of targets s row)) [
        | inl e ↦
            ground
              (arith, append_assoc (bucket s r.buckets) (row ∷ []) (keep (is_of targets s) rows))
        | inr e ↦ ground arith
      ]

  -- A bucket holds the rows that belong into it, in their order.
  sorted_bucket :
      (s : String) (targets : List String) (rows : List Fields)
      → bucket s (sorted_rows targets rows).buckets ≡ keep (is_of targets s) rows
  sorted_bucket s targets rows =
      bucket-place_rows s targets rows (record { buckets = empty_buckets targets []; others = [] })
      ∙ ap (λ b. b ++ keep (is_of targets s) rows) (bucket-empty s targets [] refl)

  -- The row matches no target.
  abbrev pub is_other : List String → Fields → Bool
  is_other targets row = elim (first_match (std_of row) targets) [ none ↦ true | some j ↦ false ]

  place_rows_others :
      (targets : List String) (rows : List Fields) (r : Sorted)
      → (place_rows targets rows r).others ≡ r.others ++ keep (is_other targets) rows
  unfolding place_rows place
  place_rows_others targets [] r = sym (append-nil r.others)
  place_rows_others targets (row ∷ rows) r =
      let rest = place_rows_others targets rows (place targets row r) in
      elim (Option-cases (first_match (std_of row) targets)) [
        | inl e ↦ ground (arith, append_assoc r.others (row ∷ []) (keep (is_other targets) rows))
        | inr (j, e) ↦ ground arith
      ]

  pub sorted_others :
      (targets : List String) (rows : List Fields)
      → (sorted_rows targets rows).others ≡ keep (is_other targets) rows
  sorted_others targets rows =
      place_rows_others targets rows (record { buckets = empty_buckets targets []; others = [] })

  -- Each target's rows, in the order of the results.
  abbrev pub lines : List String → List Fields → List (List Fields)
  lines targets results = map (λ s. keep (is_of targets s) results) targets

  table_of :
      (targets ss : List String) (results : List Fields)
      → table (sorted_rows targets results).buckets ss
        ≡ map (λ s. keep (is_of targets s) results) ss
  table_of targets [] results = refl
  table_of targets (s ∷ ss) results =
      ground (arith, sorted_bucket s targets results, table_of targets ss results)

  pub table-lines :
      (targets : List String) (results : List Fields)
      → table (sorted_rows targets results).buckets targets ≡ lines targets results
  table-lines targets results = table_of targets targets results

  length-keep : (p : Fields → Bool) (rows : List Fields) → length (keep p rows) ≤ length rows
  length-keep p [] = omega arith
  length-keep p (row ∷ rows) = ground (arith, length-keep p rows)

  pub short_lines :
      (targets ss : List String) (results : List Fields)
      → All (λ b. length b ≤ length results) (map (λ s. keep (is_of targets s) results) ss)
  short_lines targets [] results = tt
  short_lines targets (s ∷ ss) results =
      (length-keep (is_of targets s) results, short_lines targets ss results)
