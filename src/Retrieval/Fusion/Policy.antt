-- ===== src/Retrieval/Fusion/Policy.antt =====
-- app/domain/retrieval/fusion.py: `apply_retrieval_policy_to_items`, the filters on fused items.
use cire_rag.Base.{
  if◌then◌else◌, Bool-cases, keep, All, ℕ, suc, String, ◌≡◌, refl, sym, ap, ◌∙◌, inl, inr, Bool,
  true, false, not, ◌||◌, Option, none, some, List, [], ◌∷◌, map, arith, ◌==◌,
}
use cire_rag.Base.Text.{is_empty, strip}
use cire_rag.Base.Value.{
  ℤ, real, str, dict, Items, nil, cons, Fields, end, field, Python, get, put, dict_or_empty,
  text_or_empty, clean,
}
use cire_rag.Retrieval.Item.{RetrievalItem}
use cire_rag.Retrieval.Fusion.Items.{Parse, safe_float, source_of}
use cire_rag.Retrieval.Policies.{
  reaches, is_bypassed, raw_score, filter_rows_by_min_score, dict_rows, min_score_filters,
}
use cire_rag.Retrieval.Policies.Noise.{
  NoisePatterns, clean_content, cleaned_row, stays, reduce_structural_noise_rows, noise_reduced,
}

unfoldable pub row_of : RetrievalItem → Fields
row_of item = field "source" (str item.source) (
    field "content" (str item.content) (
      field "score" (real item.score)
        (field "similarity" (real item.score) (field "metadata" (dict item.metadata) end))))

unfoldable pub rows_of : List RetrievalItem → Items
rows_of [] = nil
rows_of (item ∷ items) = cons (dict (row_of item)) (rows_of items)

module _ ⦃py : Python⦄ where
  -- `min_score` is `none` where no score is asked for.
  unfoldable pub min_score_rows : ⦃parse : Parse⦄ → Option ℤ → Items → List Fields
  min_score_rows none rows = dict_rows rows
  min_score_rows (some threshold) rows = (filter_rows_by_min_score threshold rows).rows

  module _ ⦃noise : NoisePatterns⦄ where
    unfoldable pub noise_rows : Bool → List Fields → List Fields
    noise_rows true rows = (reduce_structural_noise_rows rows).rows
    noise_rows false rows = rows

    module _ ⦃parse : Parse⦄ where
      abbrev pub out_item : ℕ → Fields → RetrievalItem
      out_item number row = record {
        source = source_of "C" number row;
        content = clean (get "content" row);
        score = safe_float (get "score" row);
        metadata = dict_or_empty (get "metadata" row);
      }

      -- The last loop, with the number of the first row.
      unfoldable pub out_items : ℕ → List Fields → List RetrievalItem
      out_items number [] = []
      out_items number (row ∷ rows) =
          let rest = out_items (suc number) rows in
          if is_empty (clean (get "content" row)) then rest else out_item number row ∷ rest

      unfoldable pub apply_retrieval_policy_to_items :
          List RetrievalItem → Option ℤ → Bool → List RetrievalItem
      apply_retrieval_policy_to_items items min_score noise_reduction =
          out_items 1 (noise_rows noise_reduction (min_score_rows min_score (rows_of items)))

  -- An item that the minimal score lets pass.
  abbrev pub scored : ⦃parse : Parse⦄ → Option ℤ → RetrievalItem → Bool
  scored none item = true
  scored (some threshold) item = is_bypassed (row_of item) || reaches threshold (real item.score)

  dict_rows_of : (items : List RetrievalItem) → dict_rows (rows_of items) ≡ map row_of items
  unfolding rows_of
  dict_rows_of [] = refl
  dict_rows_of (item ∷ items) = ap (◌∷◌ (row_of item)) (dict_rows_of items)

  keep-map :
      (p : Fields → Bool) (q : RetrievalItem → Bool) (items : List RetrievalItem)
      → ((item : RetrievalItem) → p (row_of item) ≡ q item)
      → keep p (map row_of items) ≡ map row_of (keep q items)
  keep-map p q [] h = refl
  keep-map p q (item ∷ items) h = ground (arith, h item, keep-map p q items h)

  keep_all : (items : List RetrievalItem) → keep (λ item. true) items ≡ items
  keep_all [] = refl
  keep_all (item ∷ items) = ap (◌∷◌ item) (keep_all items)

  min_score_rows_of :
      ⦃parse : Parse⦄ (min_score : Option ℤ) (items : List RetrievalItem)
      → min_score_rows min_score (rows_of items) ≡ map row_of (keep (scored min_score) items)
  unfolding min_score_rows row_of get
  min_score_rows_of none items = dict_rows_of items ∙ ap (map row_of) (sym (keep_all items))
  min_score_rows_of (some threshold) items =
      let p = λ (row : Fields). is_bypassed row || reaches threshold (raw_score row) in
      (min_score_filters threshold (rows_of items)).0
      ∙ ap (keep p) (dict_rows_of items)
      ∙ keep-map p (scored (some threshold)) items (λ item. refl)

  module _ ⦃noise : NoisePatterns⦄ ⦃parse : Parse⦄ where
    -- An item that noise reduction lets pass, and its text then.
    abbrev pub calm : Bool → RetrievalItem → Bool
    calm true item = stays (row_of item)
    calm false item = true

    abbrev pub text_after : Bool → RetrievalItem → String
    text_after true item =
        if clean_content item.content == strip item.content
        then item.content
        else clean_content item.content
    text_after false item = item.content

    abbrev pub with_text : Bool → RetrievalItem → RetrievalItem
    with_text noise_reduction item = record item { content = text_after noise_reduction item }

    own_text : (s : String) → text_or_empty (str s) ≡ s
    own_text String.[] = refl
    own_text (String.◌∷◌ c s) = refl

    cleaned_row_of :
        (item : RetrievalItem) → cleaned_row (row_of item) ≡ row_of (with_text true item)
    unfolding row_of get put
    cleaned_row_of item = ground (arith, own_text item.content)

    noise_rows_of :
        (noise_reduction : Bool) (items : List RetrievalItem)
        → noise_rows noise_reduction (map row_of items)
          ≡ map row_of (map (with_text noise_reduction) (keep (calm noise_reduction) items))
    unfolding noise_rows
    noise_rows_of false items = ap (map row_of) (sym (same items))
      where
        same : (xs : List RetrievalItem) → map (with_text false) (keep (λ x. true) xs) ≡ xs
        same [] = refl
        same (x ∷ xs) = ap (◌∷◌ x) (same xs)
    noise_rows_of true items =
        (noise_reduced (map row_of items)).0
        ∙ ap (map cleaned_row) (keep-map stays (calm true) items (λ item. refl))
        ∙ cleaned (keep (calm true) items)
      where
        cleaned :
            (xs : List RetrievalItem)
            → map cleaned_row (map row_of xs) ≡ map row_of (map (with_text true) xs)
        cleaned [] = refl
        cleaned (x ∷ xs) = ground (arith, cleaned_row_of x, cleaned xs)

    -- An item without the blanks around its text.
    abbrev pub trimmed : RetrievalItem → RetrievalItem
    trimmed item = record item { content = strip item.content }

    abbrev pub has_text : RetrievalItem → Bool
    has_text item = not (is_empty (strip item.content))

    -- What the parsing of floats has to do here: a float is its own value.
    abbrev pub KeepsFloats : Type 0
    KeepsFloats = (n : ℤ) → parse.float_of (real n) ≡ some n

    out_item_of :
        (number : ℕ) (item : RetrievalItem)
        → KeepsFloats
        → is_empty item.source ≡ false
        → out_item number (row_of item) ≡ trimmed item
    unfolding row_of get source_of safe_float
    out_item_of number item law named = ground (arith, law item.score, own_text item.content)

    out_items_of :
        (number : ℕ) (items : List RetrievalItem)
        → KeepsFloats
        → All (λ item. is_empty item.source ≡ false) items
        → out_items number (map row_of items) ≡ map trimmed (keep has_text items)
    unfolding out_items row_of get
    out_items_of number [] law named = refl
    out_items_of number (item ∷ items) law named =
        let rest = out_items_of (suc number) items law named.1 in
        ground (arith, own_text item.content, out_item_of number item law named.0)

    All-policed :
        (noise_reduction : Bool) (p : RetrievalItem → Bool) (items : List RetrievalItem)
        → All (λ item. is_empty item.source ≡ false) items
        → All
            (λ item. is_empty item.source ≡ false)
            (map (with_text noise_reduction) (keep p items))
    All-policed noise_reduction p [] h = tt
    All-policed noise_reduction p (item ∷ items) h =
        let rest = All-policed noise_reduction p items h.1 in
        elim (Bool-cases (p item)) [ inl e ↦ rw e (h.0, rest) | inr e ↦ rw e rest ]

    All-kept :
        (p : RetrievalItem → Bool) (items : List RetrievalItem)
        → All (λ item. is_empty item.source ≡ false) items
        → All (λ item. is_empty item.source ≡ false) (keep p items)
    All-kept p [] h = tt
    All-kept p (item ∷ items) h =
        let rest = All-kept p items h.1 in
        elim (Bool-cases (p item)) [ inl e ↦ rw e (h.0, rest) | inr e ↦ rw e rest ]

    -- For items that name a source, the policy filters and cleans, and does no more: of the items whose
    -- score reaches the minimum or whose score space is exempt, and that noise reduction, where it is
    -- on, lets pass, those with text remain, in their order and with their source, score and metadata,
    -- and with the cleaned text where noise reduction is on.
    pub policy_exact :
        (items : List RetrievalItem) (min_score : Option ℤ) (noise_reduction : Bool)
        → KeepsFloats
        → All (λ item. is_empty item.source ≡ false) items
        → apply_retrieval_policy_to_items items min_score noise_reduction
          ≡ map trimmed (
              keep has_text (
                map
                  (with_text noise_reduction)
                  (keep (calm noise_reduction) (keep (scored min_score) items))))
    unfolding apply_retrieval_policy_to_items
    policy_exact items min_score noise_reduction law named =
        let first = keep (scored min_score) items in
        ap (λ rows. out_items 1 (noise_rows noise_reduction rows))
          (min_score_rows_of min_score items)
        ∙ ap (out_items 1) (noise_rows_of noise_reduction first)
        ∙ out_items_of 1 (map (with_text noise_reduction) (keep (calm noise_reduction) first)) law (
            All-policed noise_reduction (calm noise_reduction) first
              (All-kept (scored min_score) items named))
