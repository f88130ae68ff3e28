-- ===== src/Ingestion/Chunking/Bounds.antt =====
-- `RecursiveTextSplitter.split`: how long a chunk is.
use cire_rag.Base.Text.{is_empty, strip}
use cire_rag.Base.{
  ltb, Bool-cases, All, All-append, ℕ, zero, suc, ◌+◌, ◌≤◌, ◌<◌, String, ◌≡◌, refl, ap, ◌∙◌, inl,
  inr, false, not, ◌&&◌, List, [], ◌∷◌, map, arith,
}
use cire_rag.Retrieval.Item.{join, prefix, suffix}
use cire_rag.Ingestion.Chunking.{
  len, split_paragraphs, Piece, Packing, empty_packing, glue, add_piece, add_pieces, cut_up,
  parts_of, all_parts, close, chunk_of, split,
}
use cire_rag.Ingestion.Chunking.Texts.{
  len-join, len-prefix, len-suffix, len-strip, join-prefix-suffix,
}

abbrev Short : ℕ → Piece → Type 0
Short m p = len p.raw ≤ m

len-glue :
    (m : ℕ) (cur para : String)
    → len para ≤ m
    → not (is_empty cur) && ltb m (len cur + len para + 2) ≡ false
    → len (glue cur para) ≤ m
len-glue m String.[] para h room = h
len-glue m (String.◌∷◌ c s) para h room =
    ground (arith, len-join (String.◌∷◌ c s) (join "\n\n" para), len-join "\n\n" para)

add_piece-Short :
    (m : ℕ) (para : String) (p : Packing)
    → len para ≤ m
    → All (Short m) p.finished
    → Short m p.current
    → All (Short m) (add_piece m para p).finished × Short m (add_piece m para p).current
unfolding add_piece
add_piece-Short m para p h done cur =
    elim (Bool-cases (not (is_empty p.current.raw) && ltb m (len p.current.raw + len para + 2))) [
      | inl full ↦ rw full (All-append (Short m) p.finished (p.current ∷ []) done (cur, tt), h)
      | inr room ↦ rw room (done, len-glue m p.current.raw para h room)
    ]

add_pieces-Short :
    (m : ℕ) (paras : List String) (p : Packing)
    → All (λ para. len para ≤ m) paras
    → All (Short m) p.finished
    → Short m p.current
    → All (Short m) (add_pieces m paras p).finished × Short m (add_pieces m paras p).current
unfolding add_pieces
add_pieces-Short m [] p h done cur = (done, cur)
add_pieces-Short m (para ∷ paras) p h done cur =
    let (d, c) = add_piece-Short m para p h.0 done cur in
    add_pieces-Short m paras (add_piece m para p) h.1 d c

cut_up-Short : (n m : ℕ) (s : String) → All (λ para. len para ≤ m) (cut_up n m s)
unfolding cut_up
cut_up-Short zero m s = tt
cut_up-Short (suc n) m String.[] = tt
cut_up-Short (suc n) m (String.◌∷◌ c s) =
    (len-prefix m (String.◌∷◌ c s), cut_up-Short n m (suffix m (String.◌∷◌ c s)))

all_parts-Short : (m : ℕ) (paras : List String) → All (λ para. len para ≤ m) (all_parts m paras)
unfolding all_parts parts_of
all_parts-Short m [] = tt
all_parts-Short m (para ∷ paras) =
    All-append (λ x. len x ≤ m) (parts_of m para) (all_parts m paras)
      (elim (Bool-cases (ltb m (len para))) [
        | inl long ↦ rw long (cut_up-Short (len para) m para)
        | inr fits ↦ rw fits (ground arith, tt)
      ])
      (all_parts-Short m paras)

close-Short :
    (m : ℕ) (p : Packing) → All (Short m) p.finished → Short m p.current → All (Short m) (close p)
unfolding close
close-Short m p done cur = elim (Bool-cases (is_empty (strip p.current.raw))) [
  | inl e ↦ rw e done
  | inr e ↦ rw e (All-append (Short m) p.finished (p.current ∷ []) done (cur, tt))
]

chunks-Short :
    (m : ℕ) (heading : String) (ps : List Piece)
    → All (Short m) ps
    → All (λ c. (len c.content ≤ m) × (c.char_end ≤ c.char_start + m)) (map (chunk_of heading) ps)
chunks-Short m heading [] h = tt
chunks-Short m heading (p ∷ ps) h =
    ((omega (arith, len-strip p.raw, h.0), omega (arith, h.0)), chunks-Short m heading ps h.1)

-- No chunk of the recursive splitter is longer than `max_chars`, nor does it say that it spans more,
-- whatever the paragraphs of the text are.
pub chunks_bounded :
    (text : String) (max_chars : ℕ)
    → All
        (λ c. (len c.content ≤ max_chars) × (c.char_end ≤ c.char_start + max_chars))
        (split text max_chars)
unfolding split
chunks_bounded text m =
    let paras = all_parts m (split_paragraphs text) in
    let (done, cur) =
      add_pieces-Short m paras (empty_packing 0) (all_parts-Short m (split_paragraphs text)) tt
        (omega arith) in
    chunks-Short m "" (close (add_pieces m paras (empty_packing 0)))
      (close-Short m (add_pieces m paras (empty_packing 0)) done cur)

-- The texts one after the other.
abbrev pub concat : List String → String
concat [] = String.[]
concat (s ∷ ss) = join s (concat ss)

-- A paragraph that is cut up loses nothing, and as many parts as it has characters are enough.
concat-cut_up : (n m : ℕ) (s : String) → 0 < m → len s ≤ n → concat (cut_up n m s) ≡ s
unfolding cut_up
concat-cut_up zero m String.[] least h = refl
concat-cut_up zero m (String.◌∷◌ c s) least h = absurd (omega arith)
concat-cut_up (suc n) m String.[] least h = refl
concat-cut_up (suc n) m (String.◌∷◌ c s) least h =
    ap (join (prefix m (String.◌∷◌ c s))) (
      concat-cut_up n m (suffix m (String.◌∷◌ c s)) least
        (omega (arith, len-suffix m (String.◌∷◌ c s))))
    ∙ join-prefix-suffix m (String.◌∷◌ c s)
