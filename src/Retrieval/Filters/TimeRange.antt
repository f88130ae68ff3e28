-- ===== src/Retrieval/Filters/TimeRange.antt =====
-- The time range of a request: `validate_time_range`, and `matches_time_range` of
-- app/domain/retrieval/validation.py. Instants are numbers of microseconds.
use cire_rag.Base.{
  leb, if◌then◌else◌, ℕ, String, ◌≡◌, refl, Bool, true, false, not, ◌&&◌, ◌||◌, Option, none, some,
  List, [], ◌∷◌, arith, ◌==◌,
}
use cire_rag.Base.Text.{is_empty, strip, has}
use cire_rag.Base.Value.{Value, null, str, dict, Fields, end, field, Python, truthy, get, clean}
use cire_rag.Retrieval.Filters.{check_times, validate_time_range}

times_nameless :
    (ks : List String) (d : Fields)
    → has "field" ks ≡ false
    → get "field" (check_times ks d).0 ≡ null
unfolding check_times get
times_nameless [] d h = refl
times_nameless (k ∷ ks) d h = ground (arith, times_nameless ks d)

-- `iso` is `datetime.fromisoformat` of the text with "+00:00" for "Z", in UTC where the text has no
-- zone; `none` is its `ValueError`.
module _ ⦃py : Python⦄ (iso : String → Option ℕ) where
  -- One bound: a value that is not a text has no `replace`, which is an exception, too.
  unfoldable pub bound_holds : (ℕ → Bool) → Value → Bool
  bound_holds test raw =
      if truthy raw
      then elim raw [ str s ↦ elim (iso s) [ none ↦ false | some t ↦ test t ] | _ ↦ false ]
      else true

  unfoldable pub matches_time_range : Fields → Fields → Option Bool
  matches_time_range row end = none
  matches_time_range row (field k v r) =
      let time_range = field k v r in
      let name = clean (get "field" time_range) in
      if not (name == "created_at" || name == "updated_at")
      then some false
      else elim (get name row) [
        | str s ↦ if is_empty (strip s) then some false else elim (iso s) [
          | none ↦ some false
          | some t ↦ some (
              bound_holds (λ lo. leb lo t) (get "from" time_range)
              && bound_holds (λ hi. leb t hi) (get "to" time_range))
        ]
        | _ ↦ some false
      ]

  nameless_matches_nothing :
      (row range : Fields)
      → truthy (dict range) ≡ true
      → get "field" range ≡ null
      → matches_time_range row range ≡ some false
  unfolding matches_time_range strip
  nameless_matches_nothing row end h nameless = absurd (ground arith)
  nameless_matches_nothing row (field k v r) h nameless = simp nameless refl

  -- The normalized range has lost the name of its field, so that no row matches it: a range that still
  -- has a bound is answered with false for every row.
  normalized_range_matches_nothing :
      (v : Value) (row : Fields)
      → truthy (dict (validate_time_range v).0) ≡ true
      → matches_time_range row (validate_time_range v).0 ≡ some false
  unfolding validate_time_range
  normalized_range_matches_nothing (dict d) row h =
      nameless_matches_nothing row (check_times ("from" ∷ "to" ∷ []) d).0 h
        (times_nameless ("from" ∷ "to" ∷ []) d refl)
  normalized_range_matches_nothing v row h = absurd (ground arith)
