-- ===== src/Base/Assoc.antt =====
-- Dictionaries with texts as keys, as lists of pairs in insertion order.
use Prim.Native.String.{String}
use mathlib.Core.Path.{◌≡◌, refl}
use mathlib.Core.Logic.{inl, inr}
use mathlib.Core.Bool.{true, ◌||◌}
use mathlib.Core.Option.{Option, none, some}
use mathlib.Core.List.{List, [], ◌∷◌}
use native.Mathlib.Omega.{arith}
use text.Mathlib.Text.{◌==◌}
use text.Mathlib.TextEquality.{eq_iff}
use cire_rag.Base.Tests.{if◌then◌else◌, Bool-cases}
use cire_rag.Base.Text.{has, Distinct}

module _ {ℓ} {A : Type ℓ} where
  -- `d.get(k)`
  abbrev pub lookup : String → List (String × A) → Option A
  lookup k [] = none
  lookup k ((j, v) ∷ d) = if j == k then some v else lookup k d

  -- `d[k] = v`: a present key keeps its place.
  abbrev pub assign : String → A → List (String × A) → List (String × A)
  assign k v [] = (k, v) ∷ []
  assign k v ((j, w) ∷ d) = let rest = assign k v d in if j == k then (j, v) ∷ d else (j, w) ∷ rest

  -- `list(d)`
  abbrev pub names : List (String × A) → List String
  names [] = []
  names ((j, v) ∷ d) = j ∷ names d

  pub lookup-assign :
      (k j : String) (v : A) (d : List (String × A))
      → lookup j (assign k v d) ≡ (if k == j then some v else lookup j d)
  lookup-assign k j v [] = refl
  lookup-assign k j v ((i, w) ∷ d) =
      ground (arith, eq_iff k j, eq_iff i k, eq_iff i j, lookup-assign k j v d)

  pub has-assign :
      (k j : String) (v : A) (d : List (String × A))
      → has j (names (assign k v d)) ≡ (k == j || has j (names d))
  has-assign k j v [] = refl
  has-assign k j v ((i, w) ∷ d) =
      ground (arith, eq_iff k j, eq_iff i k, eq_iff i j, has-assign k j v d)

  pub assign-Distinct :
      (k : String) (v : A) (d : List (String × A))
      → Distinct (names d)
      → Distinct (names (assign k v d))
  assign-Distinct k v [] h = (refl, tt)
  assign-Distinct k v ((i, w) ∷ d) h =
      ground (arith, eq_iff i k, eq_iff k i, has-assign k i v d, assign-Distinct k v d h.1)

  -- A key that is there has a value.
  pub lookup-names :
      (k : String) (d : List (String × A))
      → has k (names d) ≡ true
      → (v : A) × (lookup k d ≡ some v)
  lookup-names k [] h = absurd (ground arith)
  lookup-names k ((j, w) ∷ d) h = elim (Bool-cases (j == k)) [
    | inl e ↦ (w, rw e refl)
    | inr e ↦ let (v, found) = lookup-names k d (ground arith) in (v, rw e found)
  ]

  -- A key that has a value is there.
  pub names-lookup :
      (k : String) (v : A) (d : List (String × A)) → lookup k d ≡ some v → has k (names d) ≡ true
  names-lookup k v [] h = absurd (ground arith)
  names-lookup k v ((j, w) ∷ d) h = elim (Bool-cases (j == k)) [
    | inl e ↦ rw e refl
    | inr e ↦ rw e (names-lookup k v d (ground arith))
  ]
