-- ===== src/Ingestion/Chunking/Tests.antt =====
-- The splitters on small texts.
use cire_rag.Base.{All, ℕ, ◌+◌, ◌≤◌, String, ◌≡◌, refl, List, [], ◌∷◌, map, arith}
use cire_rag.Base.Text.{is_space, strip}
use cire_rag.Base.Value.{Python}
use cire_rag.Retrieval.Item.{join, prefix, suffix}
use cire_rag.Ingestion.Chunking.{
  len, split_paragraphs, Piece, add_piece, add_pieces, cut_up, parts_of, all_parts, close, Chunk,
  chunk_of, split,
}
use cire_rag.Ingestion.Chunking.Bounds.{chunks_bounded}
use cire_rag.Ingestion.Chunking.Offsets.{Tiles, shown, offsets_exact}
use cire_rag.Ingestion.Chunking.Headings.{
  HeadingMatch, heading_of, push_heading, join_with, section_chunks, sections_from, preamble,
  close_sections, split_by_headings,
}

instance abbrev plain : Python
plain = record { lower = λ s. s; upper = λ s. s; show = λ v. "n" }

abbrev starts : List Chunk → List (ℕ × ℕ)
starts [] = []
starts (c ∷ cs) = (c.char_start, c.char_end) ∷ starts cs

two_chunks : starts (split "ab\n\ncde\n\nf" 6) ≡ (0, 2) ∷ (4, 10) ∷ []
unfolding split split_paragraphs all_parts parts_of cut_up add_pieces add_piece close join strip
two_chunks = refl

-- The parts of a long paragraph are put together again with line ends that the text does not have.
drift : map (λ (c : Chunk). c.content) (split "abcdefgh\n\nxy" 5) ≡ "abcde" ∷ "fgh" ∷ "xy" ∷ []
unfolding split split_paragraphs all_parts parts_of cut_up add_pieces add_piece close prefix suffix
    join strip
drift = refl

chunks_bounded_example :
    All (λ c. (len c.content ≤ 5) × (c.char_end ≤ c.char_start + 5)) (split "abcdefgh\n\nxy" 5)
chunks_bounded_example = chunks_bounded "abcdefgh\n\nxy" 5

offsets_exact_example :
    (pieces : List Piece) × (split "ab\n\ncde\n\nf" 6 ≡ map (chunk_of "") (shown pieces))
    × Tiles "ab\n\ncde\n\nf" 0 pieces
unfolding split_paragraphs is_space
offsets_exact_example =
    offsets_exact "ab\n\ncde\n\nf" 6 (refl, (refl, (refl, tt)))
      (omega arith, (omega arith, (omega arith, tt)))

abbrev heading : ℕ → String → String → HeadingMatch
heading n raw title = record {
  start = n;
  raw = raw;
  hash_title = title;
  clause_num = "";
  clause_title = "";
}

-- The path of the last heading, a top one, has the second-level heading before it.
nested_top :
    map
      (λ (c : Chunk). c.heading_path)
      (split_by_headings "## B\n### C\n# A\n" 99
        (heading 0 "## B" "B" ∷ heading 5 "### C" "C" ∷ heading 11 "# A" "A" ∷ []))
    ≡ "B > A" ∷ []
unfolding split_by_headings sections_from section_chunks preamble heading_of push_heading join_with
    join prefix suffix strip close_sections
nested_top = refl
