-- ===== src/Ingestion/Batch/Trust.antt =====
-- What the metadata that comes with an uploaded file decides.
use cire_rag.Base.{Bool-cases, String, ◌≡◌, refl, ◌∙◌, inl, inr, true, false, arith, ◌==◌}
use cire_rag.Base.Text.{is_empty, Distinct}
use cire_rag.Base.Value.{
  Value, str, dict, Fields, Python, get, has_key, put, update, to_text, get-put, get-update, keys,
}
use cire_rag.Ingestion.Batch.{
  parsed, Upload, Batch, inserted, own_metadata, with_nested, update_nested, insert_payload,
  register, add_file_to_batch, resolve_tenant, resolve_is_global, resolve_storage_path, stored_row,
}

module _ ⦃py : Python⦄ where
  get-update_nested :
      (k : String) (collection : Fields) (u : Upload) (v : Value) (merged : Fields)
      → ("metadata" == k) ≡ false
      → get k (update_nested collection u v merged) ≡ get k merged
  unfolding update_nested
  get-update_nested k collection u (dict nested) merged h = rw (get-put, h) refl
  get-update_nested k collection u v merged h = refl

  get-with_nested :
      (k : String) (collection : Fields) (u : Upload) (merged : Fields)
      → ("metadata" == k) ≡ false
      → get k (with_nested collection u merged) ≡ get k merged
  unfolding with_nested
  get-with_nested k collection u merged h = elim (Bool-cases (has_key "metadata" merged)) [
    | inl e ↦ rw e (get-update_nested k collection u _ merged h)
    | inr e ↦ rw e (get-update_nested k collection u _ _ h ∙ rw (get-put, h) refl)
  ]

  -- What the metadata of a file gives replaces what the service sets.
  get-given :
      (k : String) (own given : Fields) (collection : Fields) (u : Upload)
      → ("metadata" == k) ≡ false
      → Distinct (keys given)
      → has_key k given ≡ true
      → get k (with_nested collection u (update own given)) ≡ get k given
  get-given k own given collection u h d there =
      get-with_nested k collection u (update own given) h
      ∙ rw (get-update k own given d, there) refl

  inserted_payload :
      (bucket : String) (b : Batch) (batch collection given rec : Fields) (u : Upload)
      → b.batch ≡ dict batch
      → b.collection ≡ dict collection
      → u.metadata_json ≡ parsed (dict given)
      → add_file_to_batch bucket b u ≡ inserted rec
      → insert_payload bucket b batch collection u given ≡ rec
  unfolding add_file_to_batch register
  inserted_payload bucket b batch collection given rec u hb hc hj h = ground arith

  -- Where the metadata of an uploaded file gives a storage path, the document is later read from
  -- that path, whichever it is. Its tenant stays that of the batch, if the batch has one, and it is
  -- not global, whatever the metadata says: these two are columns of the stored row.
  pub uploaded_metadata_chooses_path :
      (bucket : String) (b : Batch) (batch collection given rec : Fields) (u : Upload)
      → b.batch ≡ dict batch
      → b.collection ≡ dict collection
      → u.metadata_json ≡ parsed (dict given)
      → Distinct (keys given)
      → has_key "storage_path" given ≡ true
      → is_empty (to_text (get "tenant_id" batch)) ≡ false
      → add_file_to_batch bucket b u ≡ inserted rec
      → (resolve_storage_path (stored_row rec) ≡ get "storage_path" given)
        × (resolve_is_global (stored_row rec) ≡ false)
        × (resolve_tenant (stored_row rec) ≡ str (to_text (get "tenant_id" batch)))
  unfolding insert_payload resolve_storage_path resolve_is_global resolve_tenant stored_row get
      has_key put
  uploaded_metadata_chooses_path bucket b batch collection given rec u hb hc hj d hp ht h =
      let own = own_metadata bucket b batch collection u in
      rw⁻¹ (inserted_payload bucket b batch collection given rec u hb hc hj h)
        (get-given "storage_path" own given collection u refl d hp, refl, ground arith)
