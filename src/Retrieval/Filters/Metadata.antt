-- ===== src/Retrieval/Filters/Metadata.antt =====
-- The metadata filter of a request: `validate_metadata_values`.
use cire_rag.Base.{
  if◌then◌else◌, bit, Bool-cases, length, ℕ, ◌+◌, String, ◌≡◌, refl, ap, inl, inr, true, false, not,
  ◌&&◌, ◌||◌, arith, ◌==◌, eq_iff,
}
use cire_rag.Base.Text.{has, Distinct}
use cire_rag.Base.Value.{Value, null, dict, Fields, end, field, get, keys}
use cire_rag.Retrieval.Filters.{
  is_reserved, is_null, is_allowed, check_metadata, validate_metadata_values,
}

-- The number of fields that are refused.
abbrev pub refused : Fields → ℕ
refused end = 0
refused (field k v r) = bit (is_reserved k || not (is_null v) && not (is_allowed v)) + refused r

get_absent : (k : String) (d : Fields) → has k (keys d) ≡ false → get k d ≡ null
unfolding get
get_absent k end h = refl
get_absent k (field j v r) h = ground (arith, get_absent k r)

null_refused : (v : Value) → is_null v ≡ true → is_allowed v ≡ false
unfolding is_allowed
null_refused null h = refl
null_refused v h = absurd (ground arith)

kept_step :
    (k : String) (v : Value) (r : Fields)
    → (check_metadata (field k v r)).0 ≡ (
        if is_reserved k || not (is_allowed v)
        then (check_metadata r).0
        else field k v (check_metadata r).0)
unfolding check_metadata
kept_step k v r = ground (arith, null_refused v)

kept_nothing :
    (k : String)
    → get k (check_metadata end).0
      ≡ (if is_reserved k || not (is_allowed (get k end)) then null else get k end)
unfolding check_metadata get
kept_nothing k = ground arith

kept_field :
    (k j : String) (v : Value) (r kept : Fields)
    → get j r ≡ null
    → get k kept ≡ (if is_reserved k || not (is_allowed (get k r)) then null else get k r)
    → get k (if is_reserved j || not (is_allowed v) then kept else field j v kept) ≡ (
        if is_reserved k || not (is_allowed (get k (field j v r)))
        then null
        else get k (field j v r))
unfolding get
kept_field k j v r kept absent rest = elim (Bool-cases (j == k)) [
  | inl same ↦ let e = (eq_iff j k).0 same in ground (arith, ap is_reserved e, ap (λ x. get x r) e)
  | inr apart ↦ ground arith
]

kept_fields :
    (k : String) (d : Fields)
    → Distinct (keys d)
    → get k (check_metadata d).0
      ≡ (if is_reserved k || not (is_allowed (get k d)) then null else get k d)
kept_fields k end u = kept_nothing k
kept_fields k (field j v r) u =
    rw (kept_step j v r)
      (kept_field k j v r (check_metadata r).0 (get_absent j r u.0) (kept_fields k r u.1))

counted_issues : (d : Fields) → length (check_metadata d).1 ≡ refused d
unfolding check_metadata
counted_issues end = refl
counted_issues (field k v r) = ground (arith, counted_issues r)

-- Of a metadata dictionary exactly the fields pass, unchanged, whose key is not reserved and whose value
-- is a scalar or a list of scalars; there is one issue for each field that is refused, which is any
-- other but one that holds `None` under a key that is not reserved.
metadata_checked :
    (d : Fields) (k : String)
    → Distinct (keys d)
    → (get k (validate_metadata_values (dict d)).0
        ≡ (if is_reserved k || not (is_allowed (get k d)) then null else get k d))
      × (length (validate_metadata_values (dict d)).1 ≡ refused d)
unfolding validate_metadata_values
metadata_checked d k u = (kept_fields k d u, counted_issues d)
