-- ===== src/Ingestion/Chunking/Offsets.antt =====
-- `RecursiveTextSplitter.split` and `_split_long_section`: the offsets of the chunks in the text.
use mathlib.Core.Path.{subst}
use mathlib.Core.List.{append_assoc}
use cire_rag.Base.Text.{is_empty, strip}
use cire_rag.Base.{
  ltb, if◌then◌else◌, Bool-cases, All, ℕ, ◌+◌, ◌-◌, ◌≤◌, String, ◌≡◌, refl, sym, ap, ◌∙◌, inl, inr,
  false, not, ◌&&◌, List, [], ◌∷◌, ◌++◌, map, arith,
}
use cire_rag.Retrieval.Item.{join, prefix, suffix}
use cire_rag.Ingestion.Chunking.{
  len, split_paragraphs, Piece, Packing, empty_packing, glue, add_piece, add_pieces, parts_of,
  all_parts, close, chunk_of, split,
}
use cire_rag.Ingestion.Chunking.Texts.{
  len-join, join_assoc, join_empty, suffix-join, prefix-join, some_paragraph, join_paragraphs,
  join-split_paragraphs,
}

-- `text[a:b]`
abbrev pub slice : ℕ → ℕ → String → String
slice a b text = prefix (b - a) (suffix a text)

-- The pieces cover the text from `at` to its end, without a gap but the two line ends between them,
-- and each is what the text has there.
abbrev pub Tiles : String → ℕ → List Piece → Type 0
Tiles text at [] = at ≡ len text + 2
Tiles text at (p ∷ ps) =
    (p.char_start ≡ at)
    × (slice at (at + len p.raw) text ≡ p.raw)
    × Tiles text (at + len p.raw + 2) ps

-- What the paragraphs add to the text.
abbrev pub rest_of : List String → String
rest_of [] = String.[]
rest_of (p ∷ ps) = join "\n\n" (join p (rest_of ps))

-- The chunks that are still to come: the current one, and those of the other paragraphs.
unfoldable pieces_from : ℕ → Piece → List String → List Piece
pieces_from m cur [] = cur ∷ []
pieces_from m cur (para ∷ paras) =
    let next =
      pieces_from m (record { char_start = cur.char_start + len cur.raw + 2; raw = para }) paras in
    let same = pieces_from m (record cur { raw = glue cur.raw para }) paras in
    if not (is_empty cur.raw) && ltb m (len cur.raw + len para + 2) then cur ∷ next else same

add_pieces-from :
    (m : ℕ) (paras : List String) (p : Packing)
    → (add_pieces m paras p).finished ++ (add_pieces m paras p).current ∷ []
      ≡ p.finished ++ pieces_from m p.current paras
unfolding add_pieces add_piece pieces_from
add_pieces-from m [] p = refl
add_pieces-from m (para ∷ paras) p =
    let next : Piece = record {
      char_start = p.current.char_start + len p.current.raw + 2;
      raw = para;
    } in
    add_pieces-from m paras (add_piece m para p)
    ∙ (elim (Bool-cases
        (not (is_empty p.current.raw) && ltb m (len p.current.raw + len para + 2))) [
          | inl full ↦ rw full (append_assoc p.finished (p.current ∷ []) (pieces_from m next paras))
          | inr room ↦ rw room refl
        ])

slice_at :
    (head raw rest : String)
    → slice (len head) (len head + len raw) (join head (join raw rest)) ≡ raw
slice_at head raw rest =
    ap (λ n. prefix n (suffix (len head) (join head (join raw rest)))) (omega arith)
    ∙ ap (prefix (len raw)) (suffix-join head (join raw rest))
    ∙ prefix-join raw rest

glue_some : (cur para : String) → is_empty cur ≡ false → glue cur para ≡ join cur (join "\n\n" para)
glue_some String.[] para h = absurd (ground arith)
glue_some (String.◌∷◌ c s) para h = refl

is_empty-join : (a b : String) → is_empty a ≡ false → is_empty (join a b) ≡ false
unfolding join
is_empty-join String.[] b h = absurd (ground arith)
is_empty-join (String.◌∷◌ c a) b h = refl

pieces-Tiles :
    (m : ℕ) (text head : String) (cur : Piece) (paras : List String)
    → text ≡ join head (join cur.raw (rest_of paras))
    → cur.char_start ≡ len head
    → is_empty cur.raw ≡ false
    → All (λ p. is_empty p ≡ false) paras
    → Tiles text (len head) (pieces_from m cur paras)
unfolding pieces_from
pieces-Tiles m text head cur [] e start some_text h = (
  start,
  ap (slice (len head) (len head + len cur.raw)) e ∙ slice_at head cur.raw String.[],
  omega (arith, ap len e, len-join head (join cur.raw String.[]), len-join cur.raw String.[]),
)
pieces-Tiles m text head cur (para ∷ paras) e start some_text h =
    elim (Bool-cases (not (is_empty cur.raw) && ltb m (len cur.raw + len para + 2))) [
      | inl full ↦
          let next : String = join head (join cur.raw "\n\n") in
          let size : len next ≡ len head + len cur.raw + 2 =
            omega (arith, len-join head (join cur.raw "\n\n"), len-join cur.raw "\n\n") in
          let piece : Piece = record {
            char_start = cur.char_start + len cur.raw + 2;
            raw = para;
          } in
          rw full (
            start,
            ap (slice (len head) (len head + len cur.raw)) e
                ∙ slice_at head cur.raw (rest_of (para ∷ paras)),
            subst (λ n. Tiles text n (pieces_from m piece paras)) size
                (pieces-Tiles m text next piece paras
                  (e
                    ∙ ap (join head) (sym (join_assoc cur.raw "\n\n" (join para (rest_of paras))))
                    ∙ sym (join_assoc head (join cur.raw "\n\n") (join para (rest_of paras))))
                  (omega (arith, size, start)) h.0 h.1),
          )
      | inr room ↦
          let raw : String = join cur.raw (join "\n\n" para) in
          let same = glue_some cur.raw para some_text in
          rw (room, same)
            (pieces-Tiles m text head (record cur { raw = raw }) paras
              (e
                ∙ ap (join head) (
                    ap (join cur.raw) (sym (join_assoc "\n\n" para (rest_of paras)))
                    ∙ sym (join_assoc cur.raw (join "\n\n" para) (rest_of paras))))
              start (is_empty-join cur.raw (join "\n\n" para) some_text) h.1)
    ]

whole_parts :
    (m : ℕ) (paras : List String) → All (λ para. len para ≤ m) paras → all_parts m paras ≡ paras
unfolding all_parts parts_of
whole_parts m [] h = refl
whole_parts m (para ∷ paras) h =
    let fits : ltb m (len para) ≡ false = ground (arith, h.0) in
    rw fits (ap (◌∷◌ para) (whole_parts m paras h.1))

join_rest : (p : String) (ps : List String) → join_paragraphs (p ∷ ps) ≡ join p (rest_of ps)
join_rest p [] = sym (join_empty p)
join_rest p (q ∷ ps) = ap (λ s. join p (join "\n\n" s)) (join_rest q ps)

-- The pieces that become chunks: all but a last one that is blank.
abbrev pub shown : List Piece → List Piece
shown [] = []
shown (p ∷ []) = if is_empty (strip p.raw) then [] else p ∷ []
shown (p ∷ q ∷ ps) = p ∷ shown (q ∷ ps)

shown-append :
    (ps : List Piece) (p : Piece)
    → shown (ps ++ p ∷ []) ≡ (if is_empty (strip p.raw) then ps else ps ++ p ∷ [])
shown-append [] p = refl
shown-append (q ∷ []) p = elim (Bool-cases (is_empty (strip p.raw))) [
  | inl e ↦ rw e refl
  | inr e ↦ rw e refl
]
shown-append (q ∷ r ∷ ps) p =
    ap (◌∷◌ q) (shown-append (r ∷ ps) p)
    ∙ elim (Bool-cases (is_empty (strip p.raw))) [ inl e ↦ rw e refl | inr e ↦ rw e refl ]

close-shown : (p : Packing) → close p ≡ shown (p.finished ++ p.current ∷ [])
unfolding close
close-shown p = sym (shown-append p.finished p.current)

-- The pieces of the paragraphs of a text.
pieces_of :
    (m : ℕ) (text : String) (paras : List String)
    → split_paragraphs text ≡ paras
    → All (λ p. is_empty p ≡ false) paras
    → (pieces : List Piece) × (close (add_pieces m paras (empty_packing 0)) ≡ shown pieces)
      × Tiles text 0 pieces
unfolding add_pieces add_piece join
pieces_of m text [] e h = let (p, ps, g) = some_paragraph text in absurd (ground arith)
pieces_of m text (p ∷ ps) e h =
    let first : Packing = record { finished = []; current = record { char_start = 0; raw = p } } in
    let whole = sym (join-split_paragraphs text) ∙ ap join_paragraphs e ∙ join_rest p ps in
    (
      pieces_from m first.current ps,
      close-shown (add_pieces m ps first) ∙ ap shown (add_pieces-from m ps first),
      pieces-Tiles m text String.[] first.current ps whole refl h.0 h.1,
    )

-- For a text none of whose paragraphs is empty or longer than `max_chars`, the offsets are exact:
-- each chunk is, without the blanks around it, what the text has from its start to its end, the first
-- starts at 0, each next one two characters after the end of the one before, and the last ends where
-- the text ends, where a last chunk that would be blank is left out.
pub offsets_exact :
    (text : String) (max_chars : ℕ)
    → All (λ p. is_empty p ≡ false) (split_paragraphs text)
    → All (λ p. len p ≤ max_chars) (split_paragraphs text)
    → (pieces : List Piece) × (split text max_chars ≡ map (chunk_of "") (shown pieces))
      × Tiles text 0 pieces
unfolding split
offsets_exact text m filled_up short =
    let (pieces, closed, tiles) = pieces_of m text (split_paragraphs text) refl filled_up in
    (
      pieces,
      ap (λ l. map (chunk_of "") (close (add_pieces m l (empty_packing 0))))
            (whole_parts m (split_paragraphs text) short)
          ∙ ap (map (chunk_of "")) closed,
      tiles,
    )

-- A text that starts with an empty paragraph, that is with two line ends, gets the chunks that the text
-- behind them gets, with the same offsets, though all of it stands two characters later.
leading_newlines_shift :
    (text : String) (max_chars : ℕ) → split (join "\n\n" text) max_chars ≡ split text max_chars
unfolding split split_paragraphs all_parts parts_of add_pieces add_piece join
leading_newlines_shift text m = elim (Bool-cases (ltb m 0)) [
  | inl e ↦ absurd (ground arith)
  | inr e ↦ rw e refl
]
