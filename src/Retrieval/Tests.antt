-- ===== src/Retrieval/Tests.antt =====
-- The filters, the scopes and the structural rows of small requests.
use cire_rag.Base.{leb, ◌≡◌, Bool, true, false}
use cire_rag.Base.Value.{
  pos, Value, null, bool, int, str, list, dict, Items, nil, cons, Fields, end, field, Python,
}
use cire_rag.Retrieval.Filters.{validate_source_standards, normalized_of}
use cire_rag.Retrieval.Filters.Standards.{named}
use cire_rag.Retrieval.Scoping.{requested_scopes_from_context, build_scope_context}
use cire_rag.Retrieval.Scoping.Scopes.{scopes_survive}

instance abbrev plain : Python
plain = record { lower = λ s. s; upper = λ s. s; show = λ v. "" }

abbrev raw : Fields
raw = field "source_standard" (str " ISO 9001 ") (
    field "source_standards"
      (list (cons (str "ISO 14001") (cons (str "ISO 9001") (cons (int (pos 3)) nil)))) end)

abbrev metadata : Fields
metadata = field "tenant_id" (str "other") (field "department" (str "quality") end)

abbrev range : Value
range = dict (field "field" (str "created_at") (field "from" (str "2026-01-01") end))

abbrev row : Fields
row = field "created_at" (str "2026-01-15") end

scopes_survive_example :
    requested_scopes_from_context (
      dict (
        build_scope_context "acme" "c" (
          normalized_of metadata end
            (validate_source_standards raw).0.0
            (validate_source_standards raw).0.1)))
    ≡ named (validate_source_standards raw).0
scopes_survive_example = scopes_survive "acme" "c" metadata end raw

abbrev rows : Items
rows =
    cons (dict (field "metadata" (dict (field "is_toc" (bool true) end)) end))
      (cons (dict row) (cons null nil))

-- Rows with an integer score of at least 5.
abbrev reaches : Value → Bool
reaches (int (pos n)) = leb 5 n
reaches v = false

abbrev scored : Items
scored = cons (dict (field "score" (int (pos 7)) end)) (
    cons (dict (field "score_space" (str "rrf") end))
      (cons (dict (field "similarity" (int (pos 2)) end)) nil))
