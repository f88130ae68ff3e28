-- ===== src/Ingestion/Chunking.antt =====
-- app/domain/ingestion/chunking/splitter_strategies.py: `RecursiveTextSplitter` and
-- `_split_long_section`. `max_chars` is at least 1.
pub mod Texts
pub mod Bounds
pub mod Offsets
pub mod Headings
mod Tests
use Prim.Native.Char.{Char, code}
use cire_rag.Base.{
  ltb, eqb, if◌then◌else◌, ℕ, zero, suc, ◌+◌, String, Bool, not, ◌&&◌, List, [], ◌∷◌, ◌++◌, map,
}
use cire_rag.Base.Text.{is_empty, strip}
use cire_rag.Base.Value.{pos, int, Python}
use cire_rag.Retrieval.Item.{join, prefix, suffix}

-- `len(s)`
abbrev pub len : String → ℕ
len String.[] = 0
len (String.◌∷◌ c s) = suc (len s)

abbrev pub is_newline : Char → Bool
is_newline c = eqb (code c) 10

-- A character put before the first paragraph.
abbrev pub before_first : Char → List String → List String
before_first c [] = String.◌∷◌ c String.[] ∷ []
before_first c (p ∷ ps) = String.◌∷◌ c p ∷ ps

-- `text.split("\n\n")`
unfoldable pub split_paragraphs : String → List String
split_paragraphs String.[] = String.[] ∷ []
split_paragraphs (String.◌∷◌ c String.[]) = String.◌∷◌ c String.[] ∷ []
split_paragraphs (String.◌∷◌ c (String.◌∷◌ d s)) =
    let after = split_paragraphs s in
    let next = split_paragraphs (String.◌∷◌ d s) in
    if is_newline c && is_newline d then String.[] ∷ after else before_first c next

-- A chunk before its text is stripped: where it starts, and its text.
pub record Piece : Type 0 where
  pub char_start : ℕ
  pub raw : String

-- The variables of the loops: the finished chunks, and the current one.
pub record Packing : Type 0 where
  pub finished : List Piece
  pub current : Piece

abbrev pub empty_packing : ℕ → Packing
empty_packing offset = record {
  finished = [];
  current = record { char_start = offset; raw = String.[] };
}

-- `current_chunk += ("\n\n" if current_chunk else "") + para`
abbrev pub glue : String → String → String
glue String.[] para = para
glue (String.◌∷◌ c s) para = join (String.◌∷◌ c s) (join "\n\n" para)

-- One paragraph, or one part of it: it starts a new chunk, or it goes on with the current one.
unfoldable pub add_piece : ℕ → String → Packing → Packing
add_piece max_chars para p =
    if not (is_empty p.current.raw) && ltb max_chars (len p.current.raw + len para + 2)
    then record {
      finished = p.finished ++ p.current ∷ [];
      current = record { char_start = p.current.char_start + len p.current.raw + 2; raw = para };
    }
    else record p { current = record p.current { raw = glue p.current.raw para } }

unfoldable pub add_pieces : ℕ → List String → Packing → Packing
add_pieces max_chars [] p = p
add_pieces max_chars (para ∷ paras) p = add_pieces max_chars paras (add_piece max_chars para p)

-- `[para[i : i + max_chars] for i in range(0, len(para), max_chars)]`, with at most `n` parts.
unfoldable pub cut_up : ℕ → ℕ → String → List String
cut_up zero max_chars para = []
cut_up (suc n) max_chars String.[] = []
cut_up (suc n) max_chars (String.◌∷◌ c s) =
    prefix max_chars (String.◌∷◌ c s) ∷ cut_up n max_chars (suffix max_chars (String.◌∷◌ c s))

-- The parts of a paragraph: itself, or pieces of it where it is too long.
unfoldable pub parts_of : ℕ → String → List String
parts_of max_chars para =
    if ltb max_chars (len para) then cut_up (len para) max_chars para else para ∷ []

-- All parts, in order.
unfoldable pub all_parts : ℕ → List String → List String
all_parts max_chars [] = []
all_parts max_chars (para ∷ paras) = parts_of max_chars para ++ all_parts max_chars paras

-- The end of the loops: the current chunk is finished unless it is blank.
unfoldable pub close : Packing → List Piece
close p = if is_empty (strip p.current.raw) then p.finished else p.finished ++ p.current ∷ []

pub record Chunk : Type 0 where
  pub content : String
  pub heading_path : String
  pub char_start : ℕ
  pub char_end : ℕ

abbrev pub chunk_of : String → Piece → Chunk
chunk_of heading p = record {
  content = strip p.raw;
  heading_path = heading;
  char_start = p.char_start;
  char_end = p.char_start + len p.raw;
}

-- `RecursiveTextSplitter.split`
unfoldable pub split : String → ℕ → List Chunk
split text max_chars =
    map (chunk_of "")
      (close (add_pieces max_chars (all_parts max_chars (split_paragraphs text)) (empty_packing 0)))

module _ ⦃py : Python⦄ where
  -- `f"{heading_path} (parte {part_num})"`
  abbrev pub part_heading : String → ℕ → String
  part_heading heading_path n =
      join heading_path (join " (parte " (join (py.show (int (pos n))) ")"))

  -- The chunks with the numbers of their parts.
  unfoldable pub numbered : String → ℕ → List Piece → List Chunk
  numbered heading_path n [] = []
  numbered heading_path n (p ∷ ps) =
      chunk_of (part_heading heading_path n) p ∷ numbered heading_path (suc n) ps

  -- A last chunk that is the only one keeps the heading as it is.
  unfoldable pub close_numbered : String → Packing → List Chunk
  close_numbered heading_path p =
      if is_empty (strip p.current.raw)
      then numbered heading_path 1 p.finished
      else elim p.finished [
        | [] ↦ chunk_of heading_path p.current ∷ []
        | q ∷ qs ↦ numbered heading_path 1 (q ∷ qs ++ p.current ∷ [])
      ]

  -- `_split_long_section`, which does not cut up a paragraph.
  unfoldable pub split_long_section : String → String → ℕ → ℕ → List Chunk
  split_long_section content heading_path base_offset max_chars =
      close_numbered heading_path
        (add_pieces max_chars (split_paragraphs content) (empty_packing base_offset))
