-- ===== src/Ingestion/Batch.antt =====
-- app/infrastructure/state_management/batch_manager.py: `IngestionBatchService`, and `resolve` of
-- app/infrastructure/state_management/context_resolver.py, which reads its documents.
pub mod Add
pub mod Seal
pub mod Trust
mod Tests
use cire_rag.Base.{
  leb, if◌then◌else◌, length, ℕ, String, Bool, false, not, Option, none, some, List, [], ◌∷◌, ◌++◌,
  ◌==◌,
}
use cire_rag.Base.Value.{
  pos, Value, null, bool, int, str, dict, Fields, end, field, Python, truthy, get, has_key, put,
  update, dict_or_empty, or_else, to_text,
}
use cire_rag.Retrieval.Item.{join}

-- `metadata_json`: absent, not JSON, or a value.
pub data Json : Type 0 where
  absent malformed : Json
  parsed : Value → Json

-- A file that is uploaded, with the two identifiers that `uuid4` answers and the sanitized name.
pub record Upload : Type 0 where
  pub filename : Value
  pub metadata_json : Json
  pub is_empty_file : Bool
  pub stored : Bool
  pub queued : Bool
  pub name_id : String
  pub doc_id : String
  pub sanitized_name : String

-- A batch and its collection, with the documents registered so far.
pub record Batch : Type 0 where
  pub batch_id : String
  pub batch : Value
  pub collection : Value
  pub documents : List Fields

-- How `add_file_to_batch` ends: a document that was there, a new one, or an exception.
pub data Added : Type 0 where
  existing : Fields → Added
  inserted : Fields → Added
  refused : String → Added

-- `int(batch.get("total_files") or 0)`, of a column that holds an integer or nothing; a negative
-- number is a limit of 0, too.
unfoldable pub total_files : Fields → ℕ
total_files batch = elim (get "total_files" batch) [ int (pos n) ↦ n | _ ↦ 0 ]

module _ ⦃py : Python⦄ where
  -- The first document of the same name.
  unfoldable pub find_document : Value → List Fields → Option Fields
  find_document name [] = none
  find_document name (d ∷ ds) =
      if to_text (get "filename" d) == to_text name then some d else find_document name ds

  abbrev pub safe_filename : Upload → Value
  safe_filename u = or_else u.filename (str (join "document_" (join u.name_id ".bin")))

  -- `{tenant}/{collection}/{batch}/{uuid}_{filename}`
  unfoldable pub storage_path : Batch → Fields → Fields → Upload → String
  storage_path b batch collection u = join (to_text (get "tenant_id" batch)) (
      join "/" (
        join (to_text (get "collection_key" collection))
          (join "/" (join b.batch_id (join "/" (join u.doc_id (join "_" u.sanitized_name)))))))

  abbrev pub collection_name : Fields → Value
  collection_name collection =
      str (to_text (or_else (get "name" collection) (get "collection_key" collection)))

  -- The fields that `merged_metadata` starts with.
  unfoldable pub own_metadata : String → Batch → Fields → Fields → Upload → Fields
  own_metadata bucket b batch collection u = field "status" (str "queued") (
      field "institution_id" (str (to_text (get "tenant_id" batch))) (
        field "is_global" (bool false) (
          field "storage_path" (str (storage_path b batch collection u)) (
            field "storage_bucket" (str bucket) (
              field "batch_id" (str b.batch_id) (
                field "collection_id" (str (to_text (get "id" collection))) (
                  field "collection_key" (str (to_text (get "collection_key" collection)))
                    (field "collection_name" (collection_name collection) end))))))))

  -- `nested.update({...})`
  unfoldable pub with_collection : Fields → Upload → Fields → Fields
  with_collection collection u nested = put "filename" (safe_filename u) (
      put "collection_name" (collection_name collection) (
        put "collection_key" (str (to_text (get "collection_key" collection)))
          (put "collection_id" (str (to_text (get "id" collection))) nested)))

  -- The update of the nested dictionary, if it is one.
  unfoldable pub update_nested : Fields → Upload → Value → Fields → Fields
  update_nested collection u (dict nested) merged =
      put "metadata" (dict (with_collection collection u nested)) merged
  update_nested collection u v merged = merged

  -- `setdefault("metadata", {})`, and the update.
  unfoldable pub with_nested : Fields → Upload → Fields → Fields
  with_nested collection u merged =
      let present =
        if has_key "metadata" merged then merged else put "metadata" (dict end) merged in
      update_nested collection u (get "metadata" present) present

  unfoldable pub insert_payload : String → Batch → Fields → Fields → Upload → Fields → Fields
  insert_payload bucket b batch collection u given = field "id" (str u.doc_id) (
      field "filename" (safe_filename u) (
        field "status" (str "queued") (
          field "metadata"
            (dict
              (with_nested collection u (update (own_metadata bucket b batch collection u) given)))
            (field "institution_id" (str (to_text (get "tenant_id" batch))) (
              field "collection_id" (str (to_text (get "id" collection)))
                (field "batch_id" (str b.batch_id) end))))))

  -- From the metadata on: the file is stored before its metadata is merged.
  unfoldable pub register : String → Batch → Fields → Fields → Upload → Added
  register bucket b batch collection u =
      let given : Option Fields = elim u.metadata_json [
        | parsed (dict d) ↦ some d
        | parsed v ↦ none
        | _ ↦ some end
      ] in
      elim u.metadata_json [
        | malformed ↦ refused "INVALID_METADATA_JSON"
        | _ ↦
            if u.is_empty_file
            then refused "EMPTY_FILE"
            else if not u.stored
            then refused "STORAGE"
            else elim given [
              | none ↦ refused "TypeError"
              | some d ↦
                  if u.queued
                  then inserted (insert_payload bucket b batch collection u d)
                  else refused "DATABASE"
            ]
      ]

  unfoldable pub add_file_to_batch : String → Batch → Upload → Added
  add_file_to_batch bucket b u = elim b.batch [
    | dict batch ↦ elim b.collection [
      | dict collection ↦ elim (find_document u.filename b.documents) [
        | some d ↦ existing d
        | none ↦
            if leb (total_files batch) (length b.documents)
            then refused "BATCH_FILE_LIMIT_EXCEEDED"
            else register bucket b batch collection u
      ]
      | _ ↦ refused "COLLECTION_NOT_FOUND"
    ]
    | _ ↦ refused "BATCH_NOT_FOUND"
  ]

  -- The batch after the call.
  unfoldable pub after : Batch → Added → Batch
  after b (inserted d) = record b { documents = b.documents ++ d ∷ [] }
  after b r = b

-- The row of `source_documents` that an insert leaves, as far as `resolve` reads its columns: the
-- visibility is a column with the default `false`, and a column that the insert does not set and that
-- has no default, as the storage path, reads as `None`, like a missing key.
unfoldable pub stored_row : Fields → Fields
stored_row rec = if has_key "is_global" rec then rec else put "is_global" (bool false) rec

-- What `resolve` reads of a record, as far as the policy and the download use it.
abbrev pub metadata_fields : Fields → Fields
metadata_fields rec = dict_or_empty (get "metadata" rec)

-- `tenant_id`
unfoldable pub resolve_tenant : Fields → Value
resolve_tenant rec =
    or_else (get "institution_id" rec)
      (or_else (get "institution_id" (metadata_fields rec)) (get "tenant_id" (metadata_fields rec)))

abbrev pub or_if_none : Value → Value → Value
or_if_none null w = w
or_if_none v w = v

unfoldable pub resolve_is_global : Fields → Bool
resolve_is_global rec =
    truthy (or_if_none (get "is_global" rec) (get "is_global" (metadata_fields rec)))

unfoldable pub resolve_storage_path : Fields → Value
resolve_storage_path rec =
    or_else (get "storage_path" rec) (get "storage_path" (metadata_fields rec))
