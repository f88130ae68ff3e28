-- ===== src/Retrieval/Grounded/Tests.antt =====
-- `GroundedRetrievalWorkflow` on two copies of a text.
use cire_rag.Base.{
  All, ℕ, String, ◌≡◌, refl, ◌≢◌, true, false, Option, none, some, List, [], ◌∷◌, arith,
}
use cire_rag.Base.Text.{contains, strip, dedupe, Distinct}
use cire_rag.Base.Value.{ℤ, pos, Value, real, str, Fields, end, field, Python, get, has_key}
use cire_rag.Base.Assoc.{names}
use cire_rag.Api.LeakCanary.{
  IsOwned, verify_isolation, verify_docs, verify_doc, metadata_of, doc_tenant,
}
use cire_rag.Retrieval.Scoping.Names.{collapse, first_scope}
use cire_rag.Retrieval.Fusion.Rrf.{at_least}
use cire_rag.Retrieval.Grounded.{
  ScopePolicy, Digest, GroundedContext, grounded, names_scope, extract_requested_scopes,
  get_grounded_context, needs_clarification, answer_of, route, context_of, scoped_results,
  filter_results_by_scope, extract_item_scope, chunks_of, citations_of, dedupe_doc, dedupe_docs,
  delete, keep_better, map_by_id,
}
use cire_rag.Retrieval.Grounded.Laws.{grounded_isolated, grounded_in_scope}
use cire_rag.Retrieval.Grounded.Contents.{hashes, grounded_contents-Distinct}

instance abbrev plain : Python
plain = record { lower = λ s. s; upper = λ s. s; show = λ v. "" }

abbrev number_of : Value → Option ℤ
number_of (real n) = some n
number_of v = none

instance abbrev no_digest : Digest
no_digest = record { md5 = λ s. s; score_of = number_of }

abbrev policy : ScopePolicy
policy = record { extraction = λ q. "A" ∷ "A" ∷ []; is_ambiguous = λ q. true; hints = [] }

abbrev row : String → String → ℕ → Fields
row i content n = field "id" (str i) (
    field "content" (str content) (
      field "source_standard" (str "AB")
        (field "similarity" (real (pos n)) (field "tenant_id" (str "acme") end))))

abbrev search : String → Fields → ℕ → Option (List Fields)
search q scope k = some (row "1" "x" 2 ∷ row "2" "x " 5 ∷ [])

abbrev route_nowhere : String → ℕ → List String → Option (List Fields × String)
route_nowhere q k scopes = none

abbrev context : GroundedContext
context = record {
  context_chunks = "x " ∷ [];
  context_map = ("2", row "2" "x " 5) ∷ [];
  citations = "1" ∷ "2" ∷ [];
  mode = "VECTOR_ONLY";
  requested_scopes = "A" ∷ [];
  scope_mismatch_detected = false;
}

better_kept : get_grounded_context policy false route_nowhere search "q" "acme" 5 ≡ grounded context
unfolding get_grounded_context needs_clarification extract_requested_scopes dedupe answer_of route
    context_of verify_isolation scoped_results filter_results_by_scope names_scope
    extract_item_scope first_scope get strip contains verify_doc metadata_of doc_tenant verify_docs
    has_key at_least chunks_of citations_of dedupe_doc dedupe_docs delete keep_better map_by_id
    collapse
better_kept = refl

grounded_isolated_example : All (IsOwned "acme") (row "2" "x " 5 ∷ [])
grounded_isolated_example =
    grounded_isolated policy false route_nowhere search "q" "acme" 5 context refl better_kept

one_scope : extract_requested_scopes policy "q" ≡ "A" ∷ []
unfolding extract_requested_scopes dedupe strip
one_scope = refl

scopes_asked : extract_requested_scopes policy "q" ≢ []
scopes_asked = ground (arith, one_scope)

grounded_in_scope_example :
    All (λ row. names_scope (extract_requested_scopes policy "q") row ≡ true) (row "2" "x " 5 ∷ [])
grounded_in_scope_example =
    grounded_in_scope policy false route_nowhere search "q" "acme" 5 context scopes_asked
      better_kept refl

grounded_contents-Distinct_example :
    Distinct (hashes context.context_map) × Distinct (names context.context_map)
grounded_contents-Distinct_example =
    grounded_contents-Distinct policy false route_nowhere search "q" "acme" 5 context better_kept
