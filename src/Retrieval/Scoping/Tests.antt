-- ===== src/Retrieval/Scoping/Tests.antt =====
-- The penalty, and the context of a sub-query.
use cire_rag.Base.{if◌then◌else◌, ◌/◌, String, ◌≡◌, refl, Option, none, some, List, [], ◌∷◌}
use cire_rag.Base.Text.{contains, strip, dedupe}
use cire_rag.Base.Value.{ℤ, pos, negsuc, Value, real, str, dict, Fields, end, field, Python, get}
use cire_rag.Retrieval.Scoping.{requested_scopes_from_context}
use cire_rag.Retrieval.Scoping.Names.{
  Patterns, first_scope, extract_row_scope, extract_requested_standards,
}
use cire_rag.Retrieval.Scoping.Penalty.{Penalty, count_penalized}
use cire_rag.Retrieval.Scoping.SubQuery.{Search, scope_context_for_subquery, subquery_scopes}

instance abbrev plain : Python
plain = record { lower = λ s. s; upper = λ s. s; show = λ v. "" }

-- The standard that the expression finds in the texts here.
instance abbrev nine : Patterns
nine = record {
  standard_matches = λ s. if contains "ISO 9001" s then "ISO 9001" ∷ [] else [];
  clause_matches = λ s. [];
}

instance abbrev nothing_found : Search
nothing_found = record { span = λ s q. none }

abbrev number_of : Value → Option ℤ
number_of (real n) = some n
number_of v = none

-- A quarter is left.
instance abbrev quarter : Penalty
quarter = record {
  factor = pos 75;
  reduced = λ n. elim n [ pos a ↦ pos (a / 4) | negsuc a ↦ negsuc a ];
  float_of = number_of;
}

abbrev row : String → Fields
row standard = field "similarity" (real (pos 80)) (field "source_standard" (str standard) end)

abbrev rows : List Fields
rows = row "ISO 9001" ∷ row "ISO 45001" ∷ end ∷ []

one_out : count_penalized ("ISO 9001" ∷ []) rows ≡ (1, 2)
unfolding count_penalized extract_row_scope first_scope contains strip get
one_out = refl

similarity_of : Fields → ℤ
similarity_of row = elim (get "similarity" row) [ real n ↦ n | _ ↦ pos 0 ]

abbrev context : Fields
context = field "tenant_id" (str "acme") (field "source_standard" (str "ISO 45001") end)

subquery_scopes_example :
    requested_scopes_from_context (scope_context_for_subquery (dict context) "see ISO 9001")
    ≡ "ISO 9001" ∷ []
unfolding extract_requested_standards contains dedupe strip
subquery_scopes_example =
    subquery_scopes context "see ISO 9001" "ISO 9001" [] refl ((refl, refl), tt)
