-- ===== src/Base/Value.antt =====
-- What a Python variable of type `Any` holds: the values of JSON, with dictionaries as lists of
-- fields in insertion order.
use Prim.Native.Nat.{ℕ}
use Prim.Native.String.{String}
use mathlib.Core.Path.{◌≡◌, refl}
use mathlib.Core.Bool.{Bool, true, false, not}
use native.Mathlib.Omega.{arith}
use text.Mathlib.Text.{◌==◌}
use text.Mathlib.TextEquality.{eq_iff}
use cire_rag.Base.Tests.{if◌then◌else◌, eqb}
use mathlib.Core.List.{List, [], ◌∷◌}
use cire_rag.Base.Text.{is_empty, strip, has, Distinct}

-- `negsuc n` is -(n + 1).
pub data ℤ : Type 0 where
  pos : ℕ → ℤ
  negsuc : ℕ → ℤ

abbrev pub is_zero : ℤ → Bool
is_zero (pos n) = eqb n 0
is_zero (negsuc n) = false

-- `real n` is the finite float of value `n` times the least positive double.
mutual
  pub data Value : Type 0 where
    null : Value
    bool : Bool → Value
    int : ℤ → Value
    real : ℤ → Value
    str : String → Value
    list : Items → Value
    dict : Fields → Value

  pub data Fields : Type 0 where
    end : Fields
    field : String → Value → Fields → Fields

  pub data Items : Type 0 where
    nil : Items
    cons : Value → Items → Items

-- The parts of Python's text library that depend on its Unicode tables and on its number
-- printing: case conversion, and `str` of a value that is neither text, truth value nor `None`.
pub record Python : Type 0 where
  pub lower : String → String
  pub upper : String → String
  pub show : Value → String

-- `bool(v)`
abbrev pub truthy : Value → Bool
truthy null = false
truthy (bool b) = b
truthy (int n) = not (is_zero n)
truthy (real n) = not (is_zero n)
truthy (str s) = not (is_empty s)
truthy (list nil) = false
truthy (list (cons v vs)) = true
truthy (dict end) = false
truthy (dict (field k v r)) = true

-- `d.get(k)`; a missing key is `null`, as for a key that holds `None`.
unfoldable pub get : String → Fields → Value
get k end = null
get k (field j v r) = if j == k then v else get k r

-- `k in d`
unfoldable pub has_key : String → Fields → Bool
has_key k end = false
has_key k (field j v r) = if j == k then true else has_key k r

-- `d[k] = v`: a present key keeps its place.
unfoldable pub put : String → Value → Fields → Fields
put k v end = field k v end
put k v (field j w r) = if j == k then field j v r else field j w (put k v r)

-- `d.pop(k, None)`
unfoldable pub pop : String → Fields → Fields
pop k end = end
pop k (field j w r) = let rest = pop k r in if j == k then rest else field j w rest

-- `d.update(e)`
unfoldable pub update : Fields → Fields → Fields
update d end = d
update d (field k v e) = update (put k v d) e

-- `v if isinstance(v, dict) else {}`
abbrev pub dict_or_empty : Value → Fields
dict_or_empty (dict d) = d
dict_or_empty _ = end

-- `v if v else w`, Python's `v or w`
abbrev pub or_else : Value → Value → Value
or_else v w = if truthy v then v else w

module _ ⦃py : Python⦄ where
  -- `str(v)`
  abbrev pub to_text : Value → String
  to_text null = "None"
  to_text (bool true) = "True"
  to_text (bool false) = "False"
  to_text (str s) = s
  to_text v = py.show v

  -- `str(v or "")`
  abbrev pub text_or_empty : Value → String
  text_or_empty v = if truthy v then to_text v else ""

  -- `str(v or "").strip()`
  abbrev pub clean : Value → String
  clean v = strip (text_or_empty v)

pub get-put :
    (k j : String) (v : Value) (d : Fields) → get j (put k v d) ≡ (if k == j then v else get j d)
unfolding get put
get-put k j v end = refl
get-put k j v (field i w r) = ground (arith, eq_iff k j, eq_iff i k, eq_iff i j, get-put k j v r)

pub get-pop : (k j : String) (d : Fields) → get j (pop k d) ≡ (if k == j then null else get j d)
unfolding get pop
get-pop k j end = ground arith
get-pop k j (field i w r) = ground (arith, eq_iff k j, eq_iff i k, eq_iff i j, get-pop k j r)

pub has_key-put :
    (k j : String) (v : Value) (d : Fields)
    → has_key j (put k v d) ≡ (if k == j then true else has_key j d)
unfolding has_key put
has_key-put k j v end = refl
has_key-put k j v (field i w r) =
    ground (arith, eq_iff k j, eq_iff i k, eq_iff i j, has_key-put k j v r)

has_key-pop :
    (k j : String) (d : Fields) → has_key j (pop k d) ≡ (if k == j then false else has_key j d)
unfolding has_key pop
has_key-pop k j end = ground arith
has_key-pop k j (field i w r) =
    ground (arith, eq_iff k j, eq_iff i k, eq_iff i j, has_key-pop k j r)

-- The keys of a dictionary, which are distinct.
abbrev pub keys : Fields → List String
keys end = []
keys (field k v r) = k ∷ keys r

has-keys : (k : String) (d : Fields) → has k (keys d) ≡ has_key k d
unfolding has_key
has-keys k end = refl
has-keys k (field j v r) = ground (arith, has-keys k r)

pub get-update :
    (k : String) (d e : Fields)
    → Distinct (keys e)
    → get k (update d e) ≡ (if has_key k e then get k e else get k d)
unfolding get update has_key
get-update k d end u = refl
get-update k d (field j v e) u =
    ground (arith, get-update k (put j v d) e u.1, get-put j k v d, has-keys j e, eq_iff j k)

pub put-Distinct :
    (k : String) (v : Value) (d : Fields) → Distinct (keys d) → Distinct (keys (put k v d))
unfolding put
put-Distinct k v end u = (refl, tt)
put-Distinct k v (field j w r) u = ground (
  arith,
  eq_iff j k,
  eq_iff k j,
  has-keys j r,
  has-keys j (put k v r),
  has_key-put k j v r,
  put-Distinct k v r u.1,
)
