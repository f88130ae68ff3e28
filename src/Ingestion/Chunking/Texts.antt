-- ===== src/Ingestion/Chunking/Texts.antt =====
-- Texts as lists of characters: lengths, slices and blanks.
use Prim.Native.Char.{Char}
use text.Mathlib.TextEquality.{Char-path}
use cire_rag.Base.{
  Bool-cases, ℕ, zero, suc, ◌+◌, ◌-◌, ◌≤◌, String, ◌≡◌, refl, sym, ap, ◌∙◌, inl, inr, true, ◌&&◌,
  List, [], ◌∷◌, arith,
}
use cire_rag.Base.Text.{lstrip, rstrip, strip}
use cire_rag.Retrieval.Item.{join, prefix, suffix}
use cire_rag.Ingestion.Chunking.{len, is_newline, before_first, split_paragraphs}

pub len-join : (a b : String) → len (join a b) ≡ len a + len b
unfolding join
len-join String.[] b = omega arith
len-join (String.◌∷◌ c a) b = omega (arith, len-join a b)

pub join_assoc : (a b c : String) → join (join a b) c ≡ join a (join b c)
unfolding join
join_assoc String.[] b c = refl
join_assoc (String.◌∷◌ x a) b c = ap (String.◌∷◌ x) (join_assoc a b c)

pub join_empty : (a : String) → join a String.[] ≡ a
unfolding join
join_empty String.[] = refl
join_empty (String.◌∷◌ x a) = ap (String.◌∷◌ x) (join_empty a)

pub suffix-join : (a b : String) → suffix (len a) (join a b) ≡ b
unfolding suffix join
suffix-join String.[] b = refl
suffix-join (String.◌∷◌ c a) b = suffix-join a b

pub prefix-join : (a b : String) → prefix (len a) (join a b) ≡ a
unfolding prefix join
prefix-join String.[] b = refl
prefix-join (String.◌∷◌ c a) b = ap (String.◌∷◌ c) (prefix-join a b)

pub len-prefix : (n : ℕ) (s : String) → len (prefix n s) ≤ n
unfolding prefix
len-prefix zero s = omega arith
len-prefix (suc n) String.[] = omega arith
len-prefix (suc n) (String.◌∷◌ c s) = omega (arith, len-prefix n s)

pub join-prefix-suffix : (n : ℕ) (s : String) → join (prefix n s) (suffix n s) ≡ s
unfolding join prefix suffix
join-prefix-suffix zero s = refl
join-prefix-suffix (suc n) String.[] = refl
join-prefix-suffix (suc n) (String.◌∷◌ c s) = ap (String.◌∷◌ c) (join-prefix-suffix n s)

pub len-suffix : (n : ℕ) (s : String) → len (suffix n s) ≡ len s - n
unfolding suffix
len-suffix zero s = omega arith
len-suffix (suc n) String.[] = omega arith
len-suffix (suc n) (String.◌∷◌ c s) = omega (arith, len-suffix n s)

len-lstrip : (s : String) → len (lstrip s) ≤ len s
unfolding lstrip
len-lstrip String.[] = omega arith
len-lstrip (String.◌∷◌ c s) = ground (arith, len-lstrip s)

len-rstrip : (s : String) → len (rstrip s) ≤ len s
unfolding rstrip
len-rstrip String.[] = omega arith
len-rstrip (String.◌∷◌ c s) = ground (arith, len-rstrip s)

pub len-strip : (s : String) → len (strip s) ≤ len s
unfolding strip
len-strip s = omega (arith, len-rstrip (lstrip s), len-lstrip s)

-- The paragraphs, with what stands between them.
abbrev pub join_paragraphs : List String → String
join_paragraphs [] = String.[]
join_paragraphs (p ∷ []) = p
join_paragraphs (p ∷ q ∷ ps) = join p (join "\n\n" (join_paragraphs (q ∷ ps)))

-- Splitting finds at least one paragraph.
pub some_paragraph :
    (s : String) → (p : String) × (ps : List String) × (split_paragraphs s ≡ p ∷ ps)
unfolding split_paragraphs
some_paragraph String.[] = (String.[], [], refl)
some_paragraph (String.◌∷◌ c String.[]) = (String.◌∷◌ c String.[], [], refl)
some_paragraph (String.◌∷◌ c (String.◌∷◌ d s)) =
    let (p, ps, e) = some_paragraph (String.◌∷◌ d s) in
    elim (Bool-cases (is_newline c && is_newline d)) [
      | inl h ↦ (String.[], split_paragraphs s, rw h refl)
      | inr h ↦ (String.◌∷◌ c p, ps, rw h (ap (before_first c) e))
    ]

join-before_first :
    (c : Char) (p : String) (ps : List String)
    → join_paragraphs (before_first c (p ∷ ps)) ≡ String.◌∷◌ c (join_paragraphs (p ∷ ps))
unfolding join
join-before_first c p [] = refl
join-before_first c p (q ∷ ps) = refl

two_newlines :
    (c d : Char) (s : String)
    → is_newline c && is_newline d ≡ true
    → join "\n\n" s ≡ String.◌∷◌ c (String.◌∷◌ d s)
unfolding join
two_newlines c d s h =
    let nl : Char = "\n" in
    let first : c ≡ nl = Char-path c nl (ground arith) in
    let second : d ≡ nl = Char-path d nl (ground arith) in
    ap (λ x. String.◌∷◌ x (String.◌∷◌ nl s)) (sym first)
    ∙ ap (λ x. String.◌∷◌ c (String.◌∷◌ x s)) (sym second)

after_empty :
    (ps : List String) (p : String) (qs : List String)
    → ps ≡ p ∷ qs
    → join_paragraphs (String.[] ∷ ps) ≡ join "\n\n" (join_paragraphs ps)
unfolding join
after_empty [] p qs e = absurd (ground arith)
after_empty (x ∷ xs) p qs e = refl

-- Splitting a text into paragraphs loses nothing.
pub join-split_paragraphs : (s : String) → join_paragraphs (split_paragraphs s) ≡ s
unfolding split_paragraphs
join-split_paragraphs String.[] = refl
join-split_paragraphs (String.◌∷◌ c String.[]) = refl
join-split_paragraphs (String.◌∷◌ c (String.◌∷◌ d s)) =
    let (p, ps, e) = some_paragraph (String.◌∷◌ d s) in
    let (q, qs, f) = some_paragraph s in
    let rest = join-split_paragraphs s in
    let next = join-split_paragraphs (String.◌∷◌ d s) in
    elim (Bool-cases (is_newline c && is_newline d)) [
      | inl h ↦
          rw h
            (after_empty (split_paragraphs s) q qs f ∙ ap (join "\n\n") rest ∙ two_newlines c d s h)
      | inr h ↦ rw h (
          ap (λ l. join_paragraphs (before_first c l)) e
          ∙ join-before_first c p ps
          ∙ ap (String.◌∷◌ c) (sym (ap join_paragraphs e) ∙ next))
    ]
