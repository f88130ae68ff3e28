-- ===== src/Retrieval/Fusion/Stratify/Laws.antt =====
-- `stratify_results`: the rounds against the columns of a table with a bucket in each line.
use mathlib.Core.Path.{subst}
use mathlib.Core.List.{append-nil, append_assoc}
use cire_rag.Base.{
  ltb, leb, if◌then◌else◌, leb→le, Bool-cases, length, get_elem?, take, All, length-take,
  take-append, ℕ, zero, suc, ◌-◌, ◌≤◌, String, ◌≡◌, refl, sym, ap, ◌∙◌, ◌⊎◌, inl, inr, none, some,
  List, [], ◌∷◌, ◌++◌, map, arith,
}
use cire_rag.Base.Value.{Fields}
use cire_rag.Retrieval.Fusion.Stratify.{bucket, max_len, add_row, one_round, rounds}

-- The first rows of the buckets.
abbrev pub heads {ℓ} : {A : Type ℓ} → List (List A) → List A
heads [] = []
heads ([] ∷ bs) = heads bs
heads ((r ∷ rs) ∷ bs) = r ∷ heads bs

abbrev pub tail {ℓ} : {A : Type ℓ} → List A → List A
tail [] = []
tail (r ∷ rs) = rs

-- The first rows of the buckets, then the second ones, and so on, `n` times.
abbrev pub columns {ℓ} : {A : Type ℓ} → ℕ → List (List A) → List A
columns zero bs = []
columns (suc n) bs = heads bs ++ columns n (map tail bs)

-- `xs[n:]`
abbrev pub drop {ℓ} : {A : Type ℓ} → ℕ → List A → List A
drop zero xs = xs
drop (suc n) xs = drop n (tail xs)

-- `a` is `b`, but for what stands after the first `m` elements.
abbrev Cut {ℓ} : {A : Type ℓ} → ℕ → List A → List A → Type ℓ
Cut m a b = (a ≡ b) ⊎ ((m ≤ length a) × (take m a ≡ take m b))

take_past {ℓ} :
    {A : Type ℓ} (m : ℕ) (xs ys : List A) → m ≤ length xs → take m xs ≡ take m (xs ++ ys)
take_past zero xs ys h = refl
take_past (suc m) [] ys h = absurd (omega arith)
take_past (suc m) (x ∷ xs) ys h = ap (◌∷◌ x) (take_past m xs ys (omega (arith, h)))

Cut-length {ℓ} :
    {A : Type ℓ} (m : ℕ) (a b : List A) → take m a ≡ take m b → m ≤ length a → m ≤ length b
Cut-length m a b e h = omega (arith, length-take {ℓ} m a, length-take {ℓ} m b, ap length e)

Cut-append {ℓ} :
    {A : Type ℓ} (m : ℕ) (a b ys : List A) → Cut m a b → m ≤ length a → take m a ≡ take m (b ++ ys)
Cut-append m a b ys (inl e) h = take_past m a ys h ∙ ap (λ l. take m (l ++ ys)) e
Cut-append m a b ys (inr (full, e)) h = e ∙ take_past m b ys (Cut-length m a b e full)

module _ {ℓ} {A : Type ℓ} where
  tail-drop : (i : ℕ) (b : List A) → tail (drop i b) ≡ drop (suc i) b
  tail-drop zero b = refl
  tail-drop (suc i) b = tail-drop i (tail b)

  drop_tails : (i : ℕ) (bs : List (List A)) → map tail (map (drop i) bs) ≡ map (drop (suc i)) bs
  drop_tails i [] = refl
  drop_tails i (b ∷ bs) = ground (arith, tail-drop i b, drop_tails i bs)

take-take {ℓ} : {A : Type ℓ} (m : ℕ) (xs : List A) → take m (take m xs) ≡ take m xs
take-take zero xs = refl
take-take (suc m) [] = refl
take-take (suc m) (x ∷ xs) = ap (◌∷◌ x) (take-take m xs)

finish-Cut {ℓ} :
    {A : Type ℓ} (m : ℕ) (a b ys : List A)
    → Cut m a b
    → take m (if ltb (length a) m then a ++ take (m - length a) ys else a) ≡ take m (b ++ ys)
finish-Cut m a b ys cut = elim (Bool-cases (ltb (length a) m)) [
  | inr full ↦ rw full (Cut-append m a b ys cut (ground arith))
  | inl room ↦ elim cut [
    | inr (full, e) ↦ absurd (ground arith)
    | inl e ↦
        let le : length a ≤ m = ground arith in
        rw room (
          take-append m a (take (m - length a) ys) le
          ∙ ap (λ l. a ++ l) (take-take (m - length a) ys)
          ∙ sym (take-append m a ys le)
          ∙ ap (λ l. take m (l ++ ys)) e)
  ]
]

pub short_tails {ℓ} :
    {A : Type ℓ} (n : ℕ) (bs : List (List A))
    → All (λ b. length b ≤ suc n) bs
    → All (λ b. length b ≤ n) (map tail bs)
short_tails n [] h = tt
short_tails n ([] ∷ bs) h = (omega arith, short_tails n bs h.1)
short_tails n ((r ∷ b) ∷ bs) h = (omega (arith, h.0), short_tails n bs h.1)

tails_none {ℓ} :
    {A : Type ℓ} (bs : List (List A))
    → All (λ b. length b ≤ 0) bs
    → (heads bs ≡ []) × (map tail bs ≡ bs)
tails_none [] h = (refl, refl)
tails_none ([] ∷ bs) h = let (a, b) = tails_none bs h.1 in (a, ap (◌∷◌ []) b)
tails_none ((r ∷ b) ∷ bs) h = absurd (omega (arith, h.0))

columns_none {ℓ} :
    {A : Type ℓ} (n : ℕ) (bs : List (List A)) → All (λ b. length b ≤ 0) bs → columns n bs ≡ []
columns_none zero bs h = refl
columns_none (suc n) bs h =
    let (a, b) = tails_none bs h in
    ap (λ l. l ++ columns n (map tail bs)) a ∙ ap (columns n) b ∙ columns_none n bs h

heads_none {ℓ} :
    {A : Type ℓ} (n m : ℕ) (bs : List (List A))
    → All (λ b. length b ≤ 0) bs
    → columns n bs ≡ columns m bs
heads_none n m bs h = columns_none n bs h ∙ sym (columns_none m bs h)

-- Columns past the last row add nothing.
pub columns_past {ℓ} :
    {A : Type ℓ} (n m : ℕ) (bs : List (List A))
    → n ≤ m
    → All (λ b. length b ≤ n) bs
    → columns n bs ≡ columns m bs
columns_past zero m bs le h = heads_none zero m bs h
columns_past (suc n) zero bs le h = absurd (omega arith)
columns_past (suc n) (suc m) bs le h =
    ap (λ l. heads bs ++ l) (columns_past n m (map tail bs) (omega arith) (short_tails n bs h))

drop_zero {ℓ} : {A : Type ℓ} (bs : List (List A)) → map (drop 0) bs ≡ bs
drop_zero [] = refl
drop_zero (b ∷ bs) = ap (◌∷◌ b) (drop_zero bs)

-- The buckets of the targets, in the order of the targets.
abbrev pub table : List (String × List Fields) → List String → List (List Fields)
table buckets [] = []
table buckets (s ∷ ss) = bucket s buckets ∷ table buckets ss

heads_get :
    (i : ℕ) (b : List Fields) (bs : List (List Fields)) (out : List Fields)
    → (elim (get_elem? b i) [ none ↦ out | some r ↦ out ++ r ∷ [] ]) ++ heads bs
      ≡ out ++ heads (drop i b ∷ bs)
heads_get zero [] bs out = refl
heads_get zero (r ∷ b) bs out = append_assoc out (r ∷ []) (heads bs)
heads_get (suc i) [] bs out = heads_get i [] bs out
heads_get (suc i) (r ∷ b) bs out = heads_get i b bs out

module _ (m : ℕ) (targets : List String) (buckets : List (String × List Fields)) where
  one_round-Cut :
      (i : ℕ) (ss : List String) (out : List Fields)
      → Cut m
          (one_round m targets buckets i ss out)
          (out ++ heads (map (drop i) (table buckets ss)))
  unfolding one_round
  one_round-Cut i [] out = inl (sym (append-nil out))
  one_round-Cut i (s ∷ ss) out =
      let more = add_row m targets buckets i s out in
      let same = heads_get i (bucket s buckets) (map (drop i) (table buckets ss)) out in
      elim (Bool-cases (leb m (length more))) [
        | inl full ↦
            let le = leb→le m (length more) full in
            rw full (
              inr (
                le,
                take_past m more (heads (map (drop i) (table buckets ss))) le ∙ ap (take m) same,
              ))
        | inr room ↦ rw room (
            subst (λ l. Cut m (one_round m targets buckets i ss more) l) same
              (one_round-Cut i ss more))
      ]

  rounds-Cut :
      (n i : ℕ) (out : List Fields)
      → Cut m
          (rounds m targets buckets n i out)
          (out ++ columns n (map (drop i) (table buckets targets)))
  unfolding rounds
  rounds-Cut zero i out = inl (sym (append-nil out))
  rounds-Cut (suc n) i out =
      let more = one_round m targets buckets i targets out in
      let bs = map (drop i) (table buckets targets) in
      let cut = one_round-Cut i targets out in
      let next = columns n (map tail bs) in
      let same = append_assoc out (heads bs) next in
      elim (Bool-cases (leb m (length more))) [
        | inl full ↦
            let le = leb→le m (length more) full in
            rw full (inr (le, Cut-append m more (out ++ heads bs) next cut le ∙ ap (take m) same))
        | inr room ↦ elim cut [
          | inr (full, e) ↦ absurd (ground arith)
          | inl e ↦ rw room (
              subst (λ l. Cut m (rounds m targets buckets n (suc i) more) l)
                (ap (λ l. more ++ columns n l) (sym (drop_tails i (table buckets targets)))
                  ∙ ap (λ l. l ++ next) e
                  ∙ same)
                (rounds-Cut n (suc i) more))
        ]
      ]

  -- The rounds and what fills up after them.
  pub rounds_reference :
      (ys : List Fields)
      → (let out = rounds m targets buckets (max_len buckets) 0 [] in
          take m (if ltb (length out) m then out ++ take (m - length out) ys else out))
        ≡ take m (columns (max_len buckets) (table buckets targets) ++ ys)
  rounds_reference ys =
      let n = max_len buckets in
      let out = rounds m targets buckets n 0 [] in
      finish-Cut m out (columns n (table buckets targets)) ys (
        subst (λ bs. Cut m out (columns n bs)) (drop_zero (table buckets targets))
          (rounds-Cut n 0 []))
