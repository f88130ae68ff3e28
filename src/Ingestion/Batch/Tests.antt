-- ===== src/Ingestion/Batch/Tests.antt =====
-- A batch of two files.
use cire_rag.Base.{String, ◌≡◌, refl, true, false, List, [], ◌∷◌}
use cire_rag.Base.Value.{
  pos, bool, int, str, dict, Fields, end, field, Python, get, has_key, to_text,
}
use cire_rag.Ingestion.Batch.{
  parsed, Upload, Batch, add_file_to_batch, register, find_document, total_files, insert_payload,
  resolve_tenant, resolve_is_global, resolve_storage_path, stored_row,
}
use cire_rag.Ingestion.Batch.Trust.{uploaded_metadata_chooses_path}

instance abbrev plain : Python
plain = record { lower = λ s. s; upper = λ s. s; show = λ v. "" }

abbrev batch : Fields
batch = field "tenant_id" (str "acme") (field "total_files" (int (pos 2)) end)

abbrev collection : Fields
collection = field "id" (str "c") (field "collection_key" (str "iso") end)

abbrev start : Batch
start = record { batch_id = "b"; batch = dict batch; collection = dict collection; documents = [] }

-- Metadata that names a file of another tenant.
abbrev given : Fields
given = field "storage_path" (str "other/secret") (field "is_global" (bool true) end)

abbrev upload : Upload
upload = record {
  filename = str "a.pdf";
  metadata_json = parsed (dict given);
  is_empty_file = false;
  stored = true;
  queued = true;
  name_id = "n";
  doc_id = "d";
  sanitized_name = "a.pdf";
}

abbrev registered : Fields
registered = insert_payload "rag" start batch collection upload given

uploaded_metadata_chooses_path_example :
    (resolve_storage_path (stored_row registered) ≡ get "storage_path" given)
    × (resolve_is_global (stored_row registered) ≡ false)
    × (resolve_tenant (stored_row registered) ≡ str (to_text (get "tenant_id" batch)))
unfolding has_key get add_file_to_batch register find_document total_files
uploaded_metadata_chooses_path_example =
    uploaded_metadata_chooses_path "rag" start batch collection given registered upload refl refl
      refl (refl, (refl, tt)) refl refl refl

abbrev statuses : List String
statuses = "processed" ∷ "failed" ∷ []
