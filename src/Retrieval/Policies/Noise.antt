-- ===== src/Retrieval/Policies/Noise.antt =====
-- app/domain/retrieval/policies.py: `reduce_structural_noise_rows`. The matches of its regular
-- expressions are an argument.
use Prim.Native.Char.{Char, code}
use cire_rag.Base.{
  leb, eqb, if◌then◌else◌, Bool-cases, length, keep, count, ℕ, ◌+◌, ◌≤◌, String, ◌≡◌, refl, ap, inl,
  inr, Bool, false, not, ◌&&◌, ◌||◌, List, [], ◌∷◌, map, arith, ◌==◌,
}
use cire_rag.Base.Text.{is_empty, strip}
use cire_rag.Base.Value.{str, Fields, Python, get, put, text_or_empty}
use cire_rag.Retrieval.Item.{join}
use cire_rag.Retrieval.Scoping.{is_structural_only_row}
use cire_rag.Retrieval.Scoping.Names.{collapse}

-- `_TABLE_BORDER_RE.fullmatch`, `_MARKDOWN_LINK_RE.sub(r"\1", line)`, the number of matches of
-- `_TOC_DOT_LEADER_LINE_RE`, and `_TOC_KEYWORD_RE.search`.
pub record NoisePatterns : Type 0 where
  pub is_table_border : String → Bool
  pub without_links : String → String
  pub dot_leaders : String → ℕ
  pub has_toc_keyword : String → Bool

-- The characters that end a line in `str.splitlines()`.
is_line_end : Char → Bool
is_line_end ch =
    let c = code ch in
    (leb 10 c && leb c 13) || (leb 28 c && leb c 30) || eqb c 133 || eqb c 8232 || eqb c 8233

-- A character put before the first of the lines.
abbrev pub onto_first : Char → List String → List String
onto_first c [] = String.◌∷◌ c String.[] ∷ []
onto_first c (l ∷ ls) = String.◌∷◌ c l ∷ ls

-- `str.splitlines()`, but for the empty line that `\r\n` gives here and that the caller skips.
unfoldable pub split_lines : String → List String
unfolding is_line_end
split_lines String.[] = []
split_lines (String.◌∷◌ c s) =
    let rest = split_lines s in if is_line_end c then String.[] ∷ rest else onto_first c rest

-- `"\n".join(lines)`
unfoldable pub join_lines : List String → String
join_lines [] = String.[]
join_lines (l ∷ []) = l
join_lines (l ∷ m ∷ ls) = join l (join "\n" (join_lines (m ∷ ls)))

module _ ⦃noise : NoisePatterns⦄ where
  abbrev pub clean_line : String → String
  clean_line line = strip (collapse false (noise.without_links line))

  unfoldable pub clean_lines : List String → List String
  clean_lines [] = []
  clean_lines (raw ∷ lines) =
      let rest = clean_lines lines in
      let line = strip raw in
      if is_empty line || noise.is_table_border line || is_empty (clean_line line)
      then rest
      else clean_line line ∷ rest

  unfoldable pub clean_content : String → String
  clean_content text = join_lines (clean_lines (split_lines text))

  -- The kept rows, and the counts of the trace.
  pub record Reduced : Type 0 where
    pub rows : List Fields
    changed : ℕ
    pub dropped : ℕ
    dropped_structural : ℕ

  module _ ⦃py : Python⦄ where
    -- `_is_structural_only_row` of this module, which reads the text of the row, too.
    unfoldable pub is_structural_row : Fields → Bool
    is_structural_row row =
        let content = text_or_empty (get "content" row) in
        let leaders = noise.dot_leaders content in
        is_structural_only_row row
        || leb 2 leaders
        || (leb 1 leaders && noise.has_toc_keyword (py.lower content))

    abbrev pub content_of : Fields → String
    content_of row = text_or_empty (get "content" row)

    -- A row whose text is not the cleaned one gets that.
    abbrev pub cleaned_row : Fields → Fields
    cleaned_row row =
        if clean_content (content_of row) == strip (content_of row)
        then row
        else put "content" (str (clean_content (content_of row))) row

    unfoldable pub reduce_structural_noise_rows : List Fields → Reduced
    reduce_structural_noise_rows [] = record {
      rows = [];
      changed = 0;
      dropped = 0;
      dropped_structural = 0;
    }
    reduce_structural_noise_rows (row ∷ rows) =
        let rest = reduce_structural_noise_rows rows in
        if is_structural_row row
        then record rest {
          dropped = rest.dropped + 1;
          dropped_structural = rest.dropped_structural + 1;
        }
        else if is_empty (clean_content (content_of row))
        then record rest { dropped = rest.dropped + 1 }
        else record rest {
          rows = cleaned_row row ∷ rest.rows;
          changed =
              rest.changed
              + (if clean_content (content_of row) == strip (content_of row) then 0 else 1);
        }

    -- A row that stays: it is not only structure and has text after cleaning.
    abbrev pub stays : Fields → Bool
    stays row = not (is_structural_row row) && not (is_empty (clean_content (content_of row)))

    -- Exactly the rows stay, in their order and with their cleaned text, that are not only structure
    -- and have text after cleaning; each other one is counted as dropped, and the structural ones
    -- among them as such.
    pub noise_reduced :
        (rows : List Fields)
        → ((reduce_structural_noise_rows rows).rows ≡ map cleaned_row (keep stays rows))
          × (length rows
              ≡ length (reduce_structural_noise_rows rows).rows
                + (reduce_structural_noise_rows rows).dropped)
          × ((reduce_structural_noise_rows rows).dropped_structural ≡ count is_structural_row rows)
          × ((reduce_structural_noise_rows rows).changed
              ≤ length (reduce_structural_noise_rows rows).rows)
    unfolding reduce_structural_noise_rows
    noise_reduced [] = (refl, refl, refl, omega arith)
    noise_reduced (row ∷ rows) =
        let (kept, total, structural, changed) = noise_reduced rows in
        elim (Bool-cases (is_structural_row row)) [
          | inl e ↦ rw e (kept, omega arith, omega arith, changed)
          | inr e ↦ elim (Bool-cases (is_empty (clean_content (content_of row)))) [
            | inl f ↦ rw (e, f) (kept, omega arith, omega arith, changed)
            | inr f ↦
                rw (e, f) (ap (◌∷◌ (cleaned_row row)) kept, omega arith, omega arith, ground arith)
          ]
        ]
