-- ===== src/Retrieval/Item.antt =====
-- `RetrievalItem` of app/api/v1/schemas/retrieval_advanced.py, and what app/domain/retrieval/fusion.py
-- reads of an item.
use cire_rag.Base.{if◌then◌else◌, ℕ, zero, suc, String, ◌≡◌, not, arith}
use cire_rag.Base.Text.{is_empty, strip}
use cire_rag.Base.Value.{ℤ, dict, Fields, Python, get, clean}

-- A score is carried along as it is; `score` holds the least positive double's multiples.
pub record RetrievalItem : Type 0 where
  pub source : String
  pub content : String
  pub score : ℤ
  pub metadata : Fields

-- `s[:n]`
unfoldable pub prefix : ℕ → String → String
prefix zero s = String.[]
prefix (suc n) String.[] = String.[]
prefix (suc n) (String.◌∷◌ c s) = String.◌∷◌ c (prefix n s)

-- `f"{a}{b}"`
unfoldable pub join : String → String → String
join String.[] b = b
join (String.◌∷◌ c a) b = String.◌∷◌ c (join a b)

unfoldable pub extract_row : RetrievalItem → Fields
extract_row item = elim (get "row" item.metadata) [ dict row ↦ row | _ ↦ item.metadata ]

module _ ⦃py : Python⦄ where
  unfoldable pub item_identity : RetrievalItem → String
  item_identity item =
      let row_id = clean (get "id" (extract_row item)) in
      if not (is_empty row_id)
      then join "row::" row_id
      else join "fallback::"
          (join (strip item.source) (join "::" (prefix 120 (strip item.content))))

-- Texts with one prefix are equal only if the rest is.
join-injective : (p a b : String) → join p a ≡ join p b → a ≡ b
unfolding join
join-injective String.[] a b h = h
join-injective (String.◌∷◌ c p) a b h = join-injective p a b (ground arith)

-- `s[n:]`
unfoldable pub suffix : ℕ → String → String
suffix zero s = s
suffix (suc n) String.[] = String.[]
suffix (suc n) (String.◌∷◌ c s) = suffix n s
