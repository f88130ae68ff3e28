-- ===== src/Retrieval/Fusion/Stratify/Fair.antt =====
-- `stratify_results`: no requested scope crowds out another.
use native.Mathlib.Nat.{suc-mul}
use mathlib.Core.Path.{subst}
use cire_rag.Base.Text.{has}
use cire_rag.Base.Value.{Fields, Python}
use cire_rag.Base.{
  Bool-cases, length, take, keep, count, All, count-append, count-take_mono, take-append, ℕ, zero,
  suc, ◌-◌, ◌*◌, ◌≤◌, String, ◌≡◌, refl, sym, ap, ◌∙◌, ◌⊎◌, inl, inr, Bool, true, List, [], ◌∷◌,
  ◌++◌, map, arith, ◌==◌, eq_iff,
}
use cire_rag.Retrieval.Scoping.Names.{Patterns}
use cire_rag.Retrieval.Fusion.Stratify.{scope_targets, stratify_results}
use cire_rag.Retrieval.Fusion.Stratify.Buckets.{is_of, is_other, lines}
use cire_rag.Retrieval.Fusion.Stratify.Laws.{heads, tail, columns}
use cire_rag.Retrieval.Fusion.Stratify.Result.{stratified_in_turn}

-- One of the buckets has only rows with `p`.
abbrev HasAll {ℓ} : {A : Type ℓ} → (A → Bool) → List (List A) → Type 0
HasAll p [] = ⊥
HasAll p (b ∷ bs) = All (λ r. p r ≡ true) b ⊎ HasAll p bs

module _ {ℓ} {A : Type ℓ} (p : A → Bool) where
  long_heads :
      (n : ℕ) (bs : List (List A)) → All (λ b. suc n ≤ length b) bs → length (heads bs) ≡ length bs
  long_heads n [] h = refl
  long_heads n ([] ∷ bs) h = absurd (omega (arith, h.0))
  long_heads n ((r ∷ b) ∷ bs) h = ap suc (long_heads n bs h.1)

  long_tails :
      (n : ℕ) (bs : List (List A))
      → All (λ b. suc n ≤ length b) bs
      → All (λ b. n ≤ length b) (map tail bs)
  long_tails n [] h = tt
  long_tails n ([] ∷ bs) h = absurd (omega (arith, h.0))
  long_tails n ((r ∷ b) ∷ bs) h = (omega (arith, h.0), long_tails n bs h.1)

  length_tails : (bs : List (List A)) → length (map tail bs) ≡ length bs
  length_tails [] = refl
  length_tails (b ∷ bs) = ap suc (length_tails bs)

  head_counts :
      (n : ℕ) (bs : List (List A))
      → All (λ b. suc n ≤ length b) bs
      → HasAll p bs
      → 1 ≤ count p (heads bs)
  head_counts n [] h q = absurd q
  head_counts n ([] ∷ bs) h q = absurd (omega (arith, h.0))
  head_counts n ((r ∷ b) ∷ bs) h (inl q) = ground (arith, q.0)
  head_counts n ((r ∷ b) ∷ bs) h (inr q) = omega (arith, head_counts n bs h.1 q)

  HasAll-tails : (bs : List (List A)) → HasAll p bs → HasAll p (map tail bs)
  HasAll-tails [] q = q
  HasAll-tails ([] ∷ bs) (inl q) = inl q
  HasAll-tails ((r ∷ b) ∷ bs) (inl q) = inl q.1
  HasAll-tails (b ∷ bs) (inr q) = inr (HasAll-tails bs q)

  -- With `n` rows in each bucket, the first `n` columns have `n` rows of each bucket.
  fair_columns :
      (n m : ℕ) (bs : List (List A))
      → n ≤ m
      → All (λ b. n ≤ length b) bs
      → HasAll p bs
      → n ≤ count p (take (n * length bs) (columns m bs))
  fair_columns zero m bs le h q = omega arith
  fair_columns (suc n) zero bs le h q = absurd (omega arith)
  fair_columns (suc n) (suc m) bs le h q =
      let rest = columns m (map tail bs) in
      let size = long_heads n bs h in
      let grows = suc-mul n (length bs) in
      let cut = take-append (suc n * length bs) (heads bs) rest (omega arith) in
      let same : suc n * length bs - length (heads bs) ≡ n * length (map tail bs) =
        omega arith ∙ ap (λ k. n * k) (sym (length_tails bs)) in
      omega (
        arith,
        head_counts n bs h q,
        fair_columns n m (map tail bs) (omega arith) (long_tails n bs h) (HasAll-tails bs q),
        count-append p (heads bs) (take (n * length (map tail bs)) rest),
        ap (count p) (cut ∙ ap (λ k. heads bs ++ take k rest) same),
      )

module _ ⦃py : Python⦄ ⦃re : Patterns⦄ where
  All-keep : (p : Fields → Bool) (rows : List Fields) → All (λ r. p r ≡ true) (keep p rows)
  All-keep p [] = tt
  All-keep p (r ∷ rows) = ground (arith, All-keep p rows)

  lines-HasAll :
      (s : String) (targets ss : List String) (results : List Fields)
      → has s ss ≡ true
      → HasAll (is_of targets s) (map (λ j. keep (is_of targets j) results) ss)
  lines-HasAll s targets [] results h = absurd (ground arith)
  lines-HasAll s targets (j ∷ ss) results h = elim (Bool-cases (j == s)) [
    | inl e ↦
        let same : j ≡ s = ground (arith, eq_iff j s) in
        inl (
          subst (λ i. All (λ r. is_of targets s r ≡ true) (keep (is_of targets i) results))
            (sym same) (All-keep (is_of targets s) results))
    | inr e ↦ inr (lines-HasAll s targets ss results (ground arith))
  ]

  length-keep-count : (p : Fields → Bool) (rows : List Fields) → length (keep p rows) ≡ count p rows
  length-keep-count p [] = refl
  length-keep-count p (r ∷ rows) = ground (arith, length-keep-count p rows)

  long_lines :
      (n : ℕ) (targets ss : List String) (results : List Fields)
      → All (λ s. n ≤ count (is_of targets s) results) ss
      → All (λ b. n ≤ length b) (map (λ s. keep (is_of targets s) results) ss)
  long_lines n targets [] results h = tt
  long_lines n targets (s ∷ ss) results h = (
    omega (arith, h.0, length-keep-count (is_of targets s) results),
    long_lines n targets ss results h.1,
  )

  length-lines : (f : String → List Fields) (ss : List String) → length (map f ss) ≡ length ss
  length-lines f [] = refl
  length-lines f (s ∷ ss) = ap suc (length-lines f ss)

  count-length : (p : Fields → Bool) (rows : List Fields) → count p rows ≤ length rows
  count-length p [] = omega arith
  count-length p (r ∷ rows) = ground (arith, count-length p rows)

  enough :
      (n : ℕ) (targets ss : List String) (results : List Fields) (s : String)
      → has s ss ≡ true
      → All (λ j. n ≤ count (is_of targets j) results) ss
      → n ≤ length results
  enough n targets [] results s there each = absurd (ground arith)
  enough n targets (j ∷ ss) results s there each =
      omega (arith, each.0, count-length (is_of targets j) results)

  -- No scope crowds out another: where each requested scope has `n` rows and there is room for `n` rows
  -- of each, each has `n` rows in the result.
  pub stratified_fair :
      (n : ℕ) (results : List Fields) (scopes : List String) (m : ℕ) (s : String)
      → has s (scope_targets scopes) ≡ true
      → n * length (scope_targets scopes) ≤ m
      → All (λ j. n ≤ count (is_of (scope_targets scopes) j) results) (scope_targets scopes)
      → n ≤ count (is_of (scope_targets scopes) s) (stratify_results results scopes m)
  stratified_fair n results scopes m s there room each =
      let targets = scope_targets scopes in
      let bs = lines targets results in
      let p = is_of targets s in
      let fair =
        fair_columns p n (length results) bs (enough n targets targets results s there each)
          (long_lines n targets targets results each)
          (lines-HasAll s targets targets results there) in
      let longer =
        count-take_mono p (n * length bs) m (columns (length results) bs)
          (keep (is_other targets) results)
          (omega (
            arith,
            ap (λ k. n * k) (length-lines (λ j. keep (is_of targets j) results) targets),
          )) in
      omega (arith, ap (count p) (stratified_in_turn results scopes m))
