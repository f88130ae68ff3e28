-- ===== src/Base/Text.antt =====
-- `str` as a list of characters: `strip`, and the membership and order-keeping set of texts.
use Prim.Native.Char.{Char, code}
use Prim.Native.String.{String, compare}
use mathlib.Core.Path.{◌≡◌, refl, ap, ◌∙◌}
use mathlib.Core.Logic.{inl, inr}
use mathlib.Core.Bool.{Bool, true, false, not, ◌&&◌, ◌||◌}
use mathlib.Core.List.{List, [], ◌∷◌, ◌++◌}
use native.Mathlib.Omega.{arith}
use text.Mathlib.Text.{◌==◌}
use cire_rag.Base.Tests.{Bool-cases, leb, eqb, if◌then◌else◌}
use cire_rag.Base.Lists.{any, take, All}
use text.Mathlib.TextEquality.{eq_iff}
use text.Mathlib.TextPositions.{eq_refl}
use Prim.Native.Nat.{ℕ, zero, suc, Ordering}

-- The characters that `str.strip()` removes (`str.isspace`).
unfoldable pub is_space : Char → Bool
is_space ch =
    let c = code ch in
    (leb 9 c && leb c 13)
    || (leb 28 c && leb c 32)
    || eqb c 133
    || eqb c 160
    || eqb c 5760
    || (leb 8192 c && leb c 8202)
    || (leb 8232 c && leb c 8233)
    || eqb c 8239
    || eqb c 8287
    || eqb c 12288

abbrev pub is_empty : String → Bool
is_empty String.[] = true
is_empty (String.◌∷◌ c s) = false

unfoldable pub lstrip : String → String
lstrip String.[] = String.[]
lstrip (String.◌∷◌ c s) = let rest = lstrip s in if is_space c then rest else String.◌∷◌ c s

unfoldable pub rstrip : String → String
rstrip String.[] = String.[]
rstrip (String.◌∷◌ c s) =
    let rest = rstrip s in if is_space c && is_empty rest then String.[] else String.◌∷◌ c rest

unfoldable pub strip : String → String
unfolding lstrip rstrip is_space
strip s = rstrip (lstrip s)

lstrip-rstrip : (s : String) → lstrip (rstrip (lstrip s)) ≡ rstrip (lstrip s)
unfolding lstrip rstrip
lstrip-rstrip String.[] = refl
lstrip-rstrip (String.◌∷◌ c s) = ground (arith, lstrip-rstrip s)

rstrip_idem : (s : String) → rstrip (rstrip s) ≡ rstrip s
unfolding rstrip
rstrip_idem String.[] = refl
rstrip_idem (String.◌∷◌ c s) = ground (arith, rstrip_idem s)

-- A stripped text has nothing left to strip.
pub strip_idem : (s : String) → strip (strip s) ≡ strip s
unfolding strip
strip_idem s = ap rstrip (lstrip-rstrip s) ∙ rstrip_idem (lstrip s)

abbrev pub has : String → List String → Bool
has k xs = any (λ x. x == k) xs

-- `t.startswith(s)`
pub starts_with : String → String → Bool
starts_with String.[] t = true
starts_with (String.◌∷◌ c s) String.[] = false
starts_with (String.◌∷◌ c s) (String.◌∷◌ d t) = eqb (code c) (code d) && starts_with s t

-- `s in t`
unfoldable pub contains : String → String → Bool
unfolding starts_with
contains s String.[] = is_empty s
contains s (String.◌∷◌ c t) = starts_with s (String.◌∷◌ c t) || contains s t

-- `dict.fromkeys`: the first occurrence of each text, in order. `seen` are those passed.
fresh : List String → List String → List String
fresh seen [] = []
fresh seen (x ∷ xs) =
    let rest = fresh seen xs in
    let more = fresh (x ∷ seen) xs in if has x seen then rest else x ∷ more

unfoldable pub dedupe : List String → List String
unfolding fresh
dedupe xs = fresh [] xs

pub has-append : (k : String) (xs ys : List String) → has k (xs ++ ys) ≡ (has k xs || has k ys)
has-append k [] ys = refl
has-append k (x ∷ xs) ys = ground (arith, has-append k xs ys)

-- No text twice.
abbrev pub Distinct : List String → Type 0
Distinct [] = Unit
Distinct (x ∷ xs) = (has x xs ≡ false) × Distinct xs

pub Distinct-snoc :
    (xs : List String) (x : String) → Distinct xs → has x xs ≡ false → Distinct (xs ++ x ∷ [])
Distinct-snoc [] x d h = (refl, tt)
Distinct-snoc (y ∷ xs) x d h = (
  ground (arith, has-append y xs (x ∷ []), eq_iff x y, eq_iff y x),
  Distinct-snoc xs x d.1 (ground arith),
)

pub has-take :
    (n : ℕ) (k : String) (xs : List String) → has k xs ≡ false → has k (take n xs) ≡ false
has-take zero k xs h = refl
has-take (suc n) k [] h = refl
has-take (suc n) k (x ∷ xs) h = ground (arith, has-take n k xs)

pub Distinct-take : (n : ℕ) (xs : List String) → Distinct xs → Distinct (take n xs)
Distinct-take zero xs d = tt
Distinct-take (suc n) [] d = tt
Distinct-take (suc n) (x ∷ xs) d = (has-take n x xs d.0, Distinct-take n xs d.1)

-- What `fresh` returns is distinct and holds none of `seen`, and it loses no text.
has-fresh :
    (seen xs : List String) (k : String) → has k (fresh seen xs) ≡ (not (has k seen) && has k xs)
unfolding fresh
has-fresh seen [] k = ground arith
has-fresh seen (x ∷ xs) k =
    ground (arith, has-fresh seen xs k, has-fresh (x ∷ seen) xs k, eq_iff x k)

fresh-Distinct : (seen xs : List String) → Distinct (fresh seen xs)
unfolding fresh
fresh-Distinct seen [] = tt
fresh-Distinct seen (x ∷ xs) = ground (
  arith,
  fresh-Distinct seen xs,
  fresh-Distinct (x ∷ seen) xs,
  has-fresh (x ∷ seen) xs x,
  eq_refl x,
)

pub has-dedupe : (xs : List String) (k : String) → has k (dedupe xs) ≡ has k xs
unfolding dedupe
has-dedupe xs k = ground (arith, has-fresh [] xs k)

pub dedupe-Distinct : (xs : List String) → Distinct (dedupe xs)
unfolding dedupe
dedupe-Distinct xs = fresh-Distinct [] xs

-- `s <= t`, by the characters' numbers.
abbrev text_le : String → String → Bool
text_le s t = elim (compare s t) [ Ordering.gt ↦ false | _ ↦ true ]

insert : String → List String → List String
insert s [] = s ∷ []
insert s (t ∷ ts) = let rest = insert s ts in if text_le s t then s ∷ t ∷ ts else t ∷ rest

-- `sorted(texts)`
unfoldable pub sorted : List String → List String
unfolding insert
sorted [] = []
sorted (s ∷ ss) = insert s (sorted ss)

unseen_cons :
    (x : String) (seen xs : List String)
    → has x xs ≡ false
    → All (λ y. has y seen ≡ false) xs
    → All (λ y. has y (x ∷ seen) ≡ false) xs
unseen_cons x seen [] h k = tt
unseen_cons x seen (y ∷ xs) h k =
    (ground (arith, k.0, eq_iff x y, eq_iff y x), unseen_cons x seen xs (ground arith) k.1)

unseen_nil : (xs : List String) → All (λ y. has y [] ≡ false) xs
unseen_nil [] = tt
unseen_nil (x ∷ xs) = (refl, unseen_nil xs)

fresh_of_Distinct :
    (seen xs : List String) → Distinct xs → All (λ x. has x seen ≡ false) xs → fresh seen xs ≡ xs
unfolding fresh
fresh_of_Distinct seen [] d h = refl
fresh_of_Distinct seen (x ∷ xs) d h =
    ground (arith, fresh_of_Distinct (x ∷ seen) xs d.1 (unseen_cons x seen xs d.0 h.1))

-- Distinct texts are kept as they are.
pub dedupe_of_Distinct : (xs : List String) → Distinct xs → dedupe xs ≡ xs
unfolding dedupe
dedupe_of_Distinct xs d = fresh_of_Distinct [] xs d (unseen_nil xs)

All-fresh : (P : String → Type 0) (seen xs : List String) → All P xs → All P (fresh seen xs)
unfolding fresh
All-fresh P seen [] h = tt
All-fresh P seen (x ∷ xs) h =
    let skip = All-fresh P seen xs h.1 in
    let keep_it = All-fresh P (x ∷ seen) xs h.1 in
    elim (Bool-cases (has x seen)) [ inl e ↦ rw e skip | inr e ↦ rw e (h.0, keep_it) ]

pub All-dedupe : (P : String → Type 0) (xs : List String) → All P xs → All P (dedupe xs)
unfolding dedupe
All-dedupe P xs h = All-fresh P [] xs h

fresh_seen :
    (seen ys : List String)
    → ((y : String) → has y ys ≡ true → has y seen ≡ true)
    → fresh seen ys ≡ []
unfolding fresh
fresh_seen seen [] h = refl
fresh_seen seen (y ∷ ys) h =
    ground (arith, h y (ground (arith, eq_refl y)), fresh_seen seen ys (λ z hz. h z (ground arith)))

fresh-append :
    (seen xs ys : List String)
    → ((y : String) → has y ys ≡ true → (has y xs || has y seen) ≡ true)
    → fresh seen (xs ++ ys) ≡ fresh seen xs
unfolding fresh
fresh-append seen [] ys h = fresh_seen seen ys h
fresh-append seen (x ∷ xs) ys h = elim (Bool-cases (has x seen)) [
  | inl e ↦
      let rest = fresh-append seen xs ys (λ y hy. ground (arith, h y hy, eq_iff x y)) in
      ground arith
  | inr e ↦
      let rest = fresh-append (x ∷ seen) xs ys (λ y hy. ground (arith, h y hy)) in ground arith
]

-- Texts that have occurred before add nothing.
pub dedupe-append :
    (xs ys : List String)
    → ((y : String) → has y ys ≡ true → has y xs ≡ true)
    → dedupe (xs ++ ys) ≡ dedupe xs
unfolding dedupe
dedupe-append xs ys h = fresh-append [] xs ys (λ y hy. ground (arith, h y hy))
