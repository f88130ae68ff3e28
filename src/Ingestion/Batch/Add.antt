-- ===== src/Ingestion/Batch/Add.antt =====
-- `add_file_to_batch`: the limit of a batch, and files that are sent again.
use cire_rag.Base.{
  length, length-append, ◌+◌, ◌≤◌, ◌<◌, String, ◌≡◌, refl, ap, ◌∙◌, ◌⊎◌, inl, inr, true, none, some,
  List, [], ◌∷◌, ◌++◌, arith, eq_iff,
}
use cire_rag.Base.Value.{Value, dict, Fields, Python, truthy, get, to_text}
use cire_rag.Ingestion.Batch.{
  Upload, Batch, Added, existing, inserted, refused, insert_payload, register, add_file_to_batch,
  find_document, total_files, after,
}

module _ ⦃py : Python⦄ where
  -- The batch after a sequence of uploads.
  abbrev pub add_all : String → Batch → List Upload → Batch
  add_all bucket b [] = b
  add_all bucket b (u ∷ us) = add_all bucket (after b (add_file_to_batch bucket b u)) us

  after-length : (b : Batch) (r : Added) → length (after b r).documents ≤ length b.documents + 1
  unfolding after
  after-length b (inserted d) = omega (arith, length-append b.documents (d ∷ []))
  after-length b (existing d) = omega arith
  after-length b (refused e) = omega arith

  after-cases : (b : Batch) (r : Added) → (after b r ≡ b) ⊎ ((d : Fields) × (r ≡ inserted d))
  unfolding after
  after-cases b (inserted d) = inr (d, refl)
  after-cases b (existing d) = inl refl
  after-cases b (refused e) = inl refl

  -- A document is only registered while the batch has room.
  had_room :
      (bucket : String) (b : Batch) (batch d : Fields) (u : Upload)
      → b.batch ≡ dict batch
      → add_file_to_batch bucket b u ≡ inserted d
      → length b.documents < total_files batch
  unfolding add_file_to_batch
  had_room bucket b batch d u hb h = ground arith

  within_limit :
      (bucket : String) (b : Batch) (batch : Fields) (u : Upload)
      → b.batch ≡ dict batch
      → length b.documents ≤ total_files batch
      → length (after b (add_file_to_batch bucket b u)).documents ≤ total_files batch
  within_limit bucket b batch u hb h =
      let r = add_file_to_batch bucket b u in
      elim (after-cases b r) [
        | inl same ↦ rw same h
        | inr (d, e) ↦
            let room = had_room bucket b batch d u hb e in
            let longer = after-length b r in omega arith
      ]

  after-batch : (b : Batch) (r : Added) → (after b r).batch ≡ b.batch
  unfolding after
  after-batch b r = ground arith

  -- A batch that starts with no more documents than its number of files never gets more, however
  -- many files are sent.
  pub limit_kept :
      (bucket : String) (b : Batch) (batch : Fields) (us : List Upload)
      → b.batch ≡ dict batch
      → length b.documents ≤ total_files batch
      → length (add_all bucket b us).documents ≤ total_files batch
  limit_kept bucket b batch [] hb h = h
  limit_kept bucket b batch (u ∷ us) hb h =
      limit_kept bucket (after b (add_file_to_batch bucket b u)) batch us
        (after-batch b (add_file_to_batch bucket b u) ∙ hb) (within_limit bucket b batch u hb h)

  find_snoc :
      (name : Value) (ds : List Fields) (d : Fields)
      → find_document name ds ≡ none
      → to_text (get "filename" d) ≡ to_text name
      → find_document name (ds ++ d ∷ []) ≡ some d
  unfolding find_document
  find_snoc name [] d h e = ground (arith, eq_iff (to_text (get "filename" d)) (to_text name))
  find_snoc name (x ∷ ds) d h e = ground (arith, find_snoc name ds d)

  inserted_new :
      (bucket : String) (b : Batch) (u : Upload) (rec : Fields)
      → add_file_to_batch bucket b u ≡ inserted rec
      → truthy u.filename ≡ true
      → (find_document u.filename b.documents ≡ none)
        × (get "filename" rec ≡ u.filename)
        × ((batch : Fields) × (b.batch ≡ dict batch))
        × ((collection : Fields) × (b.collection ≡ dict collection))
  unfolding add_file_to_batch register insert_payload get
  inserted_new bucket b u rec h named = ground arith

  -- A file that is sent again under its name is answered with the document that its first upload
  -- registered, whatever else is sent with it, and registers nothing.
  repeat_is_idempotent :
      (bucket : String) (b : Batch) (u again : Upload) (rec : Fields)
      → add_file_to_batch bucket b u ≡ inserted rec
      → truthy u.filename ≡ true
      → again.filename ≡ u.filename
      → (add_file_to_batch bucket (after b (inserted rec)) again ≡ existing rec)
        × (after (after b (inserted rec)) (add_file_to_batch bucket (after b (inserted rec)) again)
            ≡ after b (inserted rec))
  unfolding add_file_to_batch after
  repeat_is_idempotent bucket b u again rec h named same =
      let (absent, name, (batch, hb), (collection, hc)) = inserted_new bucket b u rec h named in
      let found = find_snoc u.filename b.documents rec absent (ap to_text name) in ground arith
