-- ===== src/Retrieval/Fusion/Items.antt =====
-- app/domain/retrieval/fusion.py: `to_retrieval_items`, rows into items. The change that the code makes
-- to the metadata of the row itself is not modelled: the rows are not read again.
use cire_rag.Base.{
  if◌then◌else◌, Bool-cases, ℕ, suc, String, ◌≡◌, refl, ◌∙◌, inl, inr, true, false, not, ◌&&◌, ◌||◌,
  Option, none, some, List, [], ◌∷◌, arith, ◌==◌, eq_iff,
}
use cire_rag.Base.Text.{is_empty, has, Distinct}
use cire_rag.Base.Value.{
  ℤ, pos, Value, null, bool, int, real, str, dict, Items, nil, cons, Fields, Python, truthy, get,
  has_key, put, dict_or_empty, or_else, to_text, text_or_empty, clean, get-put, keys, has_key-put,
}
use cire_rag.Retrieval.Item.{RetrievalItem, join}

-- `float(v)` where it is finite; it raises on what is neither a number nor the text of one.
pub record Parse : Type 0 where
  pub float_of : Value → Option ℤ

module _ ⦃parse : Parse⦄ where
  unfoldable pub safe_float : Value → ℤ
  safe_float null = pos 0
  safe_float v = elim (parse.float_of v) [ none ↦ pos 0 | some n ↦ n ]

abbrev pub trace_keys : List String
trace_keys =
    "source_layer" ∷ "source_type" ∷ "similarity" ∷ "jina_relevance_score" ∷ "scope_penalized"
    ∷ "tenant_id" ∷ "institution_id" ∷ "id" ∷ []

-- `if key in row and (row[key] or key not in metadata): metadata[key] = row[key]`
abbrev pub carry : Fields → String → Fields → Fields
carry row key metadata =
    if has_key key row && (truthy (get key row) || not (has_key key metadata))
    then put key (get key row) metadata
    else metadata

-- The value that a carried key has.
abbrev pub carried : String → Fields → Fields → Value
carried key row metadata =
    if has_key key row && (truthy (get key row) || not (has_key key metadata))
    then get key row
    else get key metadata

unfoldable pub carry_keys : Fields → List String → Fields → Fields
carry_keys row [] metadata = metadata
carry_keys row (key ∷ keys) metadata = carry_keys row keys (carry row key metadata)

get-carry :
    (row : Fields) (j k : String) (m : Fields)
    → get k (carry row j m) ≡ (if j == k then carried k row m else get k m)
get-carry row j k m = ground (arith, get-put j k (get j row) m, eq_iff j k)

has_key-carry :
    (row : Fields) (j k : String) (m : Fields)
    → (j == k) ≡ false
    → has_key k (carry row j m) ≡ has_key k m
has_key-carry row j k m h = ground (arith, has_key-put j k (get j row) m, eq_iff j k)

carry_others :
    (row : Fields) (k : String) (ks : List String) (m : Fields)
    → has k ks ≡ false
    → get k (carry_keys row ks m) ≡ get k m
unfolding carry_keys
carry_others row k [] m h = refl
carry_others row k (j ∷ ks) m h =
    carry_others row k ks (carry row j m) (ground arith) ∙ ground (arith, get-carry row j k m)

get-carry_keys :
    (row : Fields) (k : String) (ks : List String) (m : Fields)
    → Distinct ks
    → has k ks ≡ true
    → get k (carry_keys row ks m) ≡ carried k row m
unfolding carry_keys
get-carry_keys row k [] m d h = absurd (ground arith)
get-carry_keys row k (j ∷ ks) m d h = elim (Bool-cases (j == k)) [
  | inl e ↦
      carry_others row k ks (carry row j m) (ground (arith, d.0, eq_iff j k))
      ∙ ground (arith, get-carry row j k m)
  | inr e ↦
      get-carry_keys row k ks (carry row j m) d.1 (ground arith)
      ∙ ground (arith, get-carry row j k m, has_key-carry row j k m)
]

module _ ⦃py : Python⦄ where
  -- `str(row.get("id") or row.get("source") or f"{letter}{number}")`
  unfoldable pub source_of : String → ℕ → Fields → String
  source_of letter number row = to_text (
      or_else (or_else (get "id" row) (get "source" row))
        (str (join letter (py.show (int (pos number))))))

  module _ ⦃parse : Parse⦄ where
    -- The metadata of an item.
    unfoldable pub item_metadata : Fields → Fields
    item_metadata row = put "scope_penalized" (bool (truthy (get "scope_penalized" row))) (
        put "jina_relevance_score" (real (safe_float (get "jina_relevance_score" row))) (
          put "similarity" (real (safe_float (get "similarity" row))) (
            put "source_type" (str (text_or_empty (get "source_type" row))) (
              put "source_layer" (str (text_or_empty (get "source_layer" row)))
                (carry_keys row trace_keys (dict_or_empty (get "metadata" row)))))))

    -- The item of a row, the `number`th of all.
    abbrev pub item_of : ℕ → Fields → RetrievalItem
    item_of number row = record {
      source = source_of "R" number row;
      content = clean (get "content" row);
      score = safe_float (or_else (get "score" row) (get "similarity" row));
      metadata = item_metadata row;
    }

    -- The loop, with the number of the first row.
    unfoldable pub items_from : ℕ → Items → List RetrievalItem
    items_from number nil = []
    items_from number (cons (dict row) rows) =
        let rest = items_from (suc number) rows in
        if is_empty (clean (get "content" row)) then rest else item_of number row ∷ rest
    items_from number (cons v rows) = items_from (suc number) rows

    unfoldable pub to_retrieval_items : Items → List RetrievalItem
    to_retrieval_items rows = items_from 1 rows

    -- The rows that have a content.
    abbrev pub with_content : Items → List Fields
    with_content nil = []
    with_content (cons (dict row) rows) =
        let rest = with_content rows in
        if is_empty (clean (get "content" row)) then rest else row ∷ rest
    with_content (cons v rows) = with_content rows

    -- A key of the item's metadata is the row's, if it is there and not empty, else the metadata's.
    abbrev pub Survives : String → Fields → RetrievalItem → Type 0
    Survives key row item = get key item.metadata ≡ (
        if has_key key row
          && (truthy (get key row) || not (has_key key (dict_or_empty (get "metadata" row))))
        then get key row
        else get key (dict_or_empty (get "metadata" row)))

    -- The items are those of the rows, one for each and in the same order.
    abbrev pub AreItems : List Fields → List RetrievalItem → Type 0
    AreItems [] [] = Unit
    AreItems (row ∷ rows) (item ∷ items) =
        ((item.content ≡ clean (get "content" row))
          × Survives "tenant_id" row item
          × Survives "institution_id" row item
          × Survives "id" row item)
        × AreItems rows items
    AreItems rows items = ⊥

    trace_keys-Distinct : Distinct trace_keys
    trace_keys-Distinct = ground arith

    survive :
        (key : String) (number : ℕ) (row : Fields)
        → has key trace_keys ≡ true
        → has key (
            "scope_penalized" ∷ "jina_relevance_score" ∷ "similarity" ∷ "source_type"
            ∷ "source_layer" ∷ [])
          ≡ false
        → Survives key row (item_of number row)
    unfolding item_metadata
    survive key number row there other =
        let metadata = dict_or_empty (get "metadata" row) in
        simp get-put (
          ground
            (arith, other, get-carry_keys row key trace_keys metadata trace_keys-Distinct there))

    items_from-AreItems :
        (number : ℕ) (rows : Items) → AreItems (with_content rows) (items_from number rows)
    unfolding items_from
    items_from-AreItems number nil = tt
    items_from-AreItems number (cons (dict row) rows) =
        let rest = items_from-AreItems (suc number) rows in
        elim (Bool-cases (is_empty (clean (get "content" row)))) [
          | inl e ↦ rw e rest
          | inr e ↦ rw e (
            (
              refl,
              survive "tenant_id" number row refl refl,
              survive "institution_id" number row refl refl,
              survive "id" number row refl refl,
            ),
            rest,
          )
        ]
    items_from-AreItems number (cons v rows) = items_from-AreItems (suc number) rows

    -- Each dictionary with a content becomes one item, in the same order, whose content is the row's
    -- without the blanks around it; the tenant, the institution and the id of the row are in the
    -- item's metadata, unless they are empty there and the row's metadata has them.
    pub ownership_survives : (rows : Items) → AreItems (with_content rows) (to_retrieval_items rows)
    unfolding to_retrieval_items
    ownership_survives rows = items_from-AreItems 1 rows
