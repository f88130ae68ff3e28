-- ===== src/Retrieval/Resolve/Tests.antt =====
-- `resolve_retrieval_filters` on small contexts.
use cire_rag.Base.{◌≡◌, refl, none, some, []}
use cire_rag.Base.Text.{strip}
use cire_rag.Base.Value.{str, dict, Fields, end, field, Python, get, has_key}
use cire_rag.Retrieval.Scoping.{build_scope_context}
use cire_rag.Retrieval.Scoping.Names.{Patterns}
use cire_rag.Retrieval.Scoping.SubQuery.{Search}
use cire_rag.Retrieval.Resolve.{resolve_retrieval_filters}
use cire_rag.Retrieval.Resolve.Laws.{resolved_tenant, request_tenant_resolved}

instance abbrev plain : Python
plain = record { lower = λ s. s; upper = λ s. s; show = λ v. "" }

instance abbrev no_scopes : Patterns
no_scopes = record { standard_matches = λ s. []; clause_matches = λ s. [] }

instance abbrev nothing_found : Search
nothing_found = record { span = λ s q. none }

-- A context whose filters name another tenant.
abbrev context : Fields
context =
    field "tenant_id" (str "acme")
      (field "filters" (dict (field "tenant_id" (str "other") end)) end)

resolved_tenant_example :
    (filters : Fields) × (resolve_retrieval_filters end "q" context ≡ some filters)
    × (get "tenant_id" filters ≡ str "other")
unfolding get has_key
resolved_tenant_example = resolved_tenant end context "q" refl refl (refl, tt)

request_tenant_resolved_example :
    (filters : Fields) × (resolve_retrieval_filters end "q" (build_scope_context " acme" "" end)
      ≡ some filters)
    × (get "tenant_id" filters ≡ str "acme")
unfolding strip
request_tenant_resolved_example = request_tenant_resolved end end "q" " acme" "" refl
