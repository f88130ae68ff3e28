-- ===== src/Ingestion/Chunking/Headings.antt =====
-- app/domain/ingestion/chunking/splitter_strategies.py: `SemanticHeadingSplitter.split`. The matches of
-- the heading pattern are an argument.
use Prim.Native.Char.{code}
use cire_rag.Base.{
  ltb, eqb, if◌then◌else◌, bit, length, take, length-append, length-take, ℕ, zero, suc, ◌+◌, ◌-◌,
  ◌≤◌, String, ◌≡◌, refl, ap, Bool, true, false, not, ◌&&◌, List, [], ◌∷◌, ◌++◌, map, arith,
}
use cire_rag.Base.Text.{is_empty, strip}
use cire_rag.Base.Value.{Python}
use cire_rag.Retrieval.Item.{join, prefix, suffix}
use cire_rag.Ingestion.Chunking.{len, Chunk, split, split_long_section}

-- A match of the pattern: its start, and its groups, where a group without a match is empty.
pub record HeadingMatch : Type 0 where
  pub start : ℕ
  pub raw : String
  pub hash_title : String
  pub clause_num : String
  pub clause_title : String

-- A section that waits for one with a body.
pub record Pending : Type 0 where
  pub content : String
  pub heading_path : String
  pub char_start : ℕ

-- `s.rstrip(c)` for the character of number `n`
abbrev pub rstrip_char : ℕ → String → String
rstrip_char n String.[] = String.[]
rstrip_char n (String.◌∷◌ c s) =
    let rest = rstrip_char n s in
    if eqb (code c) n && is_empty rest then String.[] else String.◌∷◌ c rest

-- `s.count(c)` for the character of number `n`
abbrev pub count_char : ℕ → String → ℕ
count_char n String.[] = 0
count_char n (String.◌∷◌ c s) = bit (eqb (code c) n) + count_char n s

-- `len(re.match(r"^#+", raw).group(0))`; `#` is character 35.
abbrev pub hashes : String → ℕ
hashes String.[] = 0
hashes (String.◌∷◌ c s) = let rest = hashes s in if eqb (code c) 35 then suc rest else 0

-- The level and the title of a match; `.` is character 46 and `*` is 42.
unfoldable pub heading_of : HeadingMatch → ℕ × String
heading_of m =
    let num = rstrip_char 46 (strip m.clause_num) in
    if ltb 0 (hashes m.raw)
    then (hashes m.raw, strip m.hash_title)
    else (count_char 46 num + 2, join num (join " " (rstrip_char 42 (strip m.clause_title))))

-- `stack[:-1]`
abbrev pub drop_last : List String → List String
drop_last [] = []
drop_last (x ∷ []) = []
drop_last (x ∷ y ∷ xs) = x ∷ drop_last (y ∷ xs)

-- `stack[: level - 2]` and `append(title)`; for level 1 the bound is -1.
unfoldable pub push_heading : ℕ → String → List String → List String
push_heading (suc zero) title stack = drop_last stack ++ title ∷ []
push_heading level title stack = take (level - 2) stack ++ title ∷ []

-- `sep.join(texts)`
unfoldable pub join_with : String → List String → String
join_with sep [] = String.[]
join_with sep (t ∷ []) = t
join_with sep (t ∷ u ∷ ts) = join t (join sep (join_with sep (u ∷ ts)))

abbrev pub combined : List Pending → List String → String
combined pending more = join_with "\n\n" (map (λ (p : Pending). p.content) pending ++ more)

-- `pending_sections[0]["char_start"]`
abbrev pub first_start : ℕ → List Pending → ℕ
first_start start [] = start
first_start start (p ∷ pending) = p.char_start

-- `pending_sections[-1]["heading_path"]`
abbrev pub last_path : List Pending → String
last_path [] = String.[]
last_path (p ∷ []) = p.heading_path
last_path (p ∷ q ∷ pending) = last_path (q ∷ pending)

-- What is left over at the end.
unfoldable pub close_sections : String → List Pending → List Chunk
close_sections text [] = []
close_sections text (p ∷ pending) =
    record {
      content = combined (p ∷ pending) [];
      heading_path = last_path (p ∷ pending);
      char_start = p.char_start;
      char_end = len text;
    }
    ∷ []

-- `markdown_text[: matches[0].start()]` as a section.
unfoldable pub preamble : String → ℕ → List Chunk
preamble text zero = []
preamble text (suc n) =
    let content = strip (prefix (suc n) text) in
    if is_empty content
    then []
    else record {
      content = content;
      heading_path = "[Preámbulo]";
      char_start = 0;
      char_end = suc n;
    }
      ∷ []

-- The start of the next match, or the length of the text.
abbrev pub section_end : String → List HeadingMatch → ℕ
section_end text [] = len text
section_end text (m ∷ matches) = m.start

abbrev pub is_last : List HeadingMatch → Bool
is_last [] = true
is_last (m ∷ matches) = false

module _ ⦃py : Python⦄ (text : String) (max_chars : ℕ) where
  -- The chunks of one section that is not put off; `start` is where it, or what waited for it, starts.
  unfoldable pub section_chunks : String → String → ℕ → ℕ → List Chunk
  section_chunks content heading_path start stop =
      if ltb max_chars (len content)
      then split_long_section content heading_path start max_chars
      else record {
        content = content;
        heading_path = heading_path;
        char_start = start;
        char_end = stop;
      }
        ∷ []

  -- The loop over the matches.
  unfoldable pub sections_from : List HeadingMatch → List String → List Pending → List Chunk
  sections_from [] stack pending = close_sections text pending
  sections_from (m ∷ matches) stack pending =
      let (level, title) = heading_of m in
      let below = push_heading level title stack in
      let path = join_with " > " below in
      let stop = section_end text matches in
      let content = strip (prefix (stop - m.start) (suffix m.start text)) in
      let skipped = sections_from matches stack pending in
      let waiting : Pending = record {
        content = content;
        heading_path = path;
        char_start = m.start;
      } in
      let put_off = sections_from matches below (pending ++ waiting ∷ []) in
      let done = sections_from matches below [] in
      if is_empty title
      then skipped
      else if ltb (len content) 150 && not (is_last matches)
      then put_off
      else section_chunks (combined pending (content ∷ [])) path (first_start m.start pending) stop
        ++ done

  unfoldable pub split_by_headings : List HeadingMatch → List Chunk
  split_by_headings [] = split text max_chars
  split_by_headings (m ∷ matches) = preamble text m.start ++ sections_from (m ∷ matches) [] []

drop_last-append : (xs : List String) (y : String) → drop_last (xs ++ y ∷ []) ≡ xs
drop_last-append [] y = refl
drop_last-append (x ∷ []) y = refl
drop_last-append (x ∷ z ∷ xs) y = ap (◌∷◌ x) (drop_last-append (z ∷ xs) y)

-- The path of a heading of level 2 or more has at most one heading less than its level; a heading of
-- level 1 does not stand at the top, but below all but the last of the headings before it.
heading_depth :
    (level : ℕ) (title first last : String) (stack : List String)
    → (length (push_heading (suc (suc level)) title stack) ≤ suc level)
      × (push_heading 1 title (first ∷ stack ++ last ∷ []) ≡ first ∷ stack ++ title ∷ [])
unfolding push_heading
heading_depth level title first last stack = (
  omega (
    arith,
    length-append {0} (take (suc (suc level) - 2) stack) (title ∷ []),
    length-take {0} (suc (suc level) - 2) stack,
  ),
  ap (λ l. l ++ title ∷ []) (drop_last-append (first ∷ stack) last),
)
