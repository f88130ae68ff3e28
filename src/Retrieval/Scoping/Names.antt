-- ===== src/Retrieval/Scoping/Names.antt =====
-- app/domain/retrieval/scoping.py: the names of scopes, as rows and requests spell them. The matches of
-- the module's regular expressions are an argument.
use cire_rag.Base.{
  leb, if◌then◌else◌, String, Bool, true, false, not, ◌&&◌, ◌||◌, List, [], ◌∷◌, map,
}
use cire_rag.Base.Text.{is_space, is_empty, strip, dedupe}
use cire_rag.Base.Value.{Value, str, Fields, Python, get, dict_or_empty, clean}
use cire_rag.Retrieval.Item.{join}
use Prim.Native.Char.{Char, code}

-- `_SCOPE_STANDARD_RE.findall` and `_CLAUSE_RE.findall`; a `search` finds the first of these matches.
pub record Patterns : Type 0 where
  pub standard_matches : String → List String
  pub clause_matches : String → List String

-- `[A-Z0-9]`
abbrev is_key_char : Char → Bool
is_key_char ch = let c = code ch in (leb 65 c && leb c 90) || (leb 48 c && leb c 57)

-- `re.sub(r"[^A-Z0-9]", "-", text)`
unfoldable pub dashed : String → String
dashed String.[] = String.[]
dashed (String.◌∷◌ c s) = String.◌∷◌ (if is_key_char c then c else "-") (dashed s)

-- `re.sub(r"[^A-Z0-9]", "", text)`
unfoldable pub compact : String → String
compact String.[] = String.[]
compact (String.◌∷◌ c s) = let rest = compact s in if is_key_char c then String.◌∷◌ c rest else rest

-- `re.sub(r"\s+", " ", text)`; `inside` tells whether the character before is a blank.
unfoldable pub collapse : Bool → String → String
collapse inside String.[] = String.[]
collapse inside (String.◌∷◌ c s) =
    let after = collapse true s in
    let next = collapse false s in
    if is_space c then (if inside then after else String.◌∷◌ " " after) else String.◌∷◌ c next

module _ ⦃py : Python⦄ where
  -- The first text of the candidates that is not blank.
  unfoldable pub first_scope : List Value → String
  first_scope [] = ""
  first_scope (str s ∷ vs) =
      let rest = first_scope vs in if is_empty (strip s) then rest else py.upper (strip s)
  first_scope (v ∷ vs) = first_scope vs

  unfoldable pub extract_row_scope : Fields → String
  extract_row_scope item =
      let metadata = dict_or_empty (get "metadata" item) in
      first_scope (
        get "source_standard" metadata
        ∷ get "standard" metadata
        ∷ get "scope" metadata
        ∷ get "norma" metadata
        ∷ get "source_standard" item
        ∷ [])

  module _ ⦃re : Patterns⦄ where
    -- The first match in a text that is in upper case, or a value of its own where there is none.
    abbrev matched : (String → String) → String → String → String
    matched f text otherwise = elim (re.standard_matches text) [
      | [] ↦ otherwise
      | m ∷ _ ↦ f (py.upper (strip m))
    ]

    unfoldable pub scope_key : String → String
    scope_key value =
        let text = py.upper (strip value) in
        if is_empty text then "" else matched dashed text (compact text)

    unfoldable pub normalize_scope_name : Value → String
    normalize_scope_name value =
        let text = py.upper (clean value) in
        if is_empty text then "" else matched (λ m. m) text text

    unfoldable pub extract_requested_standards : String → List String
    extract_requested_standards query =
        dedupe (map (λ m. py.upper (strip m)) (re.standard_matches query))

    unfoldable pub extract_clause_refs : String → List String
    extract_clause_refs text = dedupe (re.clause_matches text)

    -- `filters` are the standard and the metadata of the filters, both empty where there are none.
    unfoldable pub scope_clause_key : String → Value → Fields → String
    scope_clause_key query source_standard metadata =
        let standard = normalize_scope_name source_standard in
        let clause_id = clean (get "clause_id" metadata) in
        if not (is_empty standard) && not (is_empty clause_id)
        then join "scope_clause::" (join standard (join "::" clause_id))
        else join "query::" (collapse false (py.lower (strip query)))
