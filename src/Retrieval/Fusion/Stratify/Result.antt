-- ===== src/Retrieval/Fusion/Stratify/Result.antt =====
-- `stratify_results`: what the caller gets.
use cire_rag.Base.Text.{is_empty, Distinct}
use cire_rag.Base.Value.{str, Fields, Python}
use cire_rag.Base.{
  length, take, keep, count, length-take, take_of_length-le, count-append, count-take, ℕ, zero, suc,
  ◌≤◌, max, String, ◌≡◌, refl, sym, ap, ◌∙◌, Bool, true, false, List, [], ◌∷◌, ◌++◌, arith, eq_refl,
}
use cire_rag.Retrieval.Scoping.Names.{Patterns, normalize_scope_name}
use cire_rag.Retrieval.Fusion.Stratify.{
  scope_matches, first_match, std_of, max_len, scope_targets, sorted_rows, balance,
  stratify_results,
}
use cire_rag.Retrieval.Fusion.Stratify.Buckets.{
  total, count-columns, short_buckets, sorted_total, sorted_others, is_other, lines, table-lines,
  short_lines,
}
use cire_rag.Retrieval.Fusion.Stratify.Laws.{columns, columns_past, table, rounds_reference}

module _ ⦃py : Python⦄ ⦃re : Patterns⦄ where
  -- The rows of the targets in turn, then the others.
  abbrev pub in_turn : List String → List Fields → List Fields
  in_turn targets results =
      columns (length results) (lines targets results) ++ keep (is_other targets) results

  balance-in_turn :
      (targets : List String) (results : List Fields) (m : ℕ)
      → balance targets results m ≡ take m (in_turn targets results)
  unfolding balance
  balance-in_turn targets results m =
      let r = sorted_rows targets results in
      let n = max_len r.buckets in
      let k = length results in
      let bs = lines targets results in
      let wide = max n k in
      let same : columns n (table r.buckets targets) ≡ columns k bs =
        columns_past n wide (table r.buckets targets) (omega arith)
          (short_buckets r.buckets targets)
        ∙ ap (columns wide) (table-lines targets results)
        ∙ sym (columns_past k wide bs (omega arith) (short_lines targets targets results)) in
      rounds_reference m targets r.buckets r.others
      ∙ ap (λ l. take m (l ++ r.others)) same
      ∙ ap (λ l. take m (columns k bs ++ l)) (sorted_others targets results)

  no_targets : (results : List Fields) → keep (is_other []) results ≡ results
  unfolding first_match
  no_targets [] = refl
  no_targets (row ∷ results) = ap (◌∷◌ row) (no_targets results)

  columns_nothing : (n : ℕ) → columns {A = Fields} n [] ≡ []
  columns_nothing zero = refl
  columns_nothing (suc n) = columns_nothing n

  -- The balanced rows are, cut off at `max_count`: the first row of each requested scope in the order
  -- of the request, then the second row of each, and so on, and at last the rows that match no
  -- requested scope.
  pub stratified_in_turn :
      (results : List Fields) (scopes : List String) (m : ℕ)
      → stratify_results results scopes m ≡ take m (in_turn (scope_targets scopes) results)
  unfolding stratify_results scope_targets
  stratified_in_turn results [] m =
      ap (take m) (sym (no_targets results))
      ∙ ap (λ l. take m (l ++ keep (is_other []) results)) (sym (columns_nothing (length results)))
  stratified_in_turn [] (s ∷ scopes) m = refl
  stratified_in_turn (row ∷ results) (s ∷ scopes) m =
      balance-in_turn (scope_targets (s ∷ scopes)) (row ∷ results) m

  count-in_turn :
      (p : Fields → Bool) (targets : List String) (results : List Fields)
      → Distinct targets
      → count p (in_turn targets results) ≡ count p results
  count-in_turn p targets results u =
      let bs = lines targets results in
      let r = sorted_rows targets results in
      omega (
        arith,
        count-append p (columns (length results) bs) (keep (is_other targets) results),
        count-columns p (length results) bs (short_lines targets targets results),
        ap (total p) (table-lines targets results),
        ap (count p) (sorted_others targets results),
        sorted_total p targets results u,
      )

  -- Where the requested scopes have different names after normalization, balancing invents no row and
  -- repeats none: it returns at most `max_count` rows, of each kind no more than there were.
  stratified_bounded :
      (p : Fields → Bool) (results : List Fields) (scopes : List String) (m : ℕ)
      → Distinct (scope_targets scopes)
      → (length (stratify_results results scopes m) ≤ m)
        × (count p (stratify_results results scopes m) ≤ count p results)
  stratified_bounded p results scopes m u =
      let rows = in_turn (scope_targets scopes) results in
      rw (stratified_in_turn results scopes m) (
        omega (arith, length-take {0} m rows),
        omega (arith, count-take p m rows, count-in_turn p (scope_targets scopes) results u),
      )

  count_all : (rows : List Fields) → count (λ r. true) rows ≡ length rows
  count_all [] = refl
  count_all (r ∷ rows) = omega (arith, count_all rows)

  -- With room for all rows, balancing only reorders them: of each kind there are as many as before.
  pub stratified_permutes :
      (p : Fields → Bool) (results : List Fields) (scopes : List String) (m : ℕ)
      → Distinct (scope_targets scopes)
      → length results ≤ m
      → count p (stratify_results results scopes m) ≡ count p results
  stratified_permutes p results scopes m u room =
      let rows = in_turn (scope_targets scopes) results in
      let size = count-in_turn (λ r. true) (scope_targets scopes) results u in
      let whole = take_of_length-le m rows (omega (arith, count_all rows, count_all results)) in
      ap (count p) (stratified_in_turn results scopes m ∙ whole)
      ∙ count-in_turn p (scope_targets scopes) results u

  -- Two requested scopes that have one name after normalization, say two editions of a standard, make
  -- the result show a row of that scope twice, though it was found once.
  same_scope_repeats :
      (a b : String) (row : Fields) (m : ℕ)
      → is_empty a ≡ false
      → is_empty b ≡ false
      → normalize_scope_name (str a) ≡ normalize_scope_name (str b)
      → scope_matches (std_of row) (normalize_scope_name (str a)) ≡ true
      → 2 ≤ m
      → stratify_results (row ∷ []) (a ∷ b ∷ []) m ≡ row ∷ row ∷ []
  unfolding scope_targets first_match
  same_scope_repeats a b row m ha hb same match room =
      let s = normalize_scope_name (str a) in
      let targets : scope_targets (a ∷ b ∷ []) ≡ s ∷ s ∷ [] = ground (arith, ha, hb, same) in
      let twice : in_turn (s ∷ s ∷ []) (row ∷ []) ≡ row ∷ row ∷ [] =
        ground (arith, match, eq_refl s) in
      stratified_in_turn (row ∷ []) (a ∷ b ∷ []) m
      ∙ ap (λ l. take m (in_turn l (row ∷ []))) targets
      ∙ ap (take m) twice
      ∙ take_of_length-le m (row ∷ row ∷ []) (omega (arith, room))
