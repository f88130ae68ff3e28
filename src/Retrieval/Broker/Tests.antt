-- ===== src/Retrieval/Broker/Tests.antt =====
-- `RetrievalBroker` on a few rows.
use cire_rag.Base.Text.{contains, strip, dedupe}
use cire_rag.Base.{
  take, any, count, All, ℕ, ◌/◌, ◌≤◌, String, ◌≡◌, refl, ap, ◌⊎◌, Bool, true, false, Option, none,
  some, List, [], ◌∷◌, arith, ◌==◌,
}
use cire_rag.Base.Value.{
  ℤ, pos, negsuc, Value, null, bool, real, str, dict, Fields, end, field, Python, get, has_key, put,
  update, get-put,
}
use cire_rag.Retrieval.Scoping.{build_scope_context, requested_scopes_from_context}
use cire_rag.Retrieval.Scoping.Names.{Patterns, extract_row_scope, first_scope, scope_key, compact}
use cire_rag.Retrieval.Scoping.Penalty.{Penalty, in_scope, requested_keys}
use cire_rag.Retrieval.Scoping.SubQuery.{Search}
use cire_rag.Retrieval.Fusion.Items.{Parse, safe_float}
use cire_rag.Retrieval.Fusion.Rrf.{at_least}
use cire_rag.Retrieval.Planning.{Digits, coerce_query_plan}
use cire_rag.Retrieval.Resolve.{base_filters, resolve_from, resolve_retrieval_filters}
use cire_rag.Retrieval.Contract.{HybridRequest, hybrid_context}
use cire_rag.Retrieval.Broker.Rerank.{
  RerankRow, Boost, Rerankers, RerankSettings, merge_reranked, reordered, rescored, combined_score,
  sort_scored, insert_scored, not_indexed, is_indexed, with_scores, raw_by_id, merged_row,
  candidate_of, execute_gravity_rerank, try_reranking, apply_reranking, cut,
}
use cire_rag.Retrieval.Broker.Keeps.{rerank_keeps_rows}
use cire_rag.Retrieval.Broker.Laws.{retrieve_bounded}
use cire_rag.Retrieval.Broker.Options.{hybrid_options_ignored}
use cire_rag.Retrieval.Broker.Marks.{InScope, stays_in}
use cire_rag.Retrieval.Broker.Strict.{strict_reranking}
use cire_rag.Retrieval.Broker.{
  engine_mode, Engines, engine_rows, direct_fallback, clause_fallback, execute_atomic_strategy,
  Call, raw_results, rank_phase, retrieve, tools_retrieve,
}

instance abbrev plain : Python
plain = record { lower = λ s. s; upper = λ s. s; show = λ v. "" }

instance abbrev no_scopes : Patterns
no_scopes = record { standard_matches = λ s. []; clause_matches = λ s. [] }

instance abbrev nothing_found : Search
nothing_found = record { span = λ s q. none }

instance abbrev no_digits : Digits
no_digits = record { is_digits = λ s. false; int_of = λ s. pos 0 }

abbrev number_of : Value → Option ℤ
number_of (real n) = some n
number_of v = none

instance abbrev numbers : Parse
numbers = record { float_of = number_of }

instance abbrev halved : Penalty
halved = record {
  factor = pos 50;
  reduced = λ n. elim n [ pos a ↦ pos (a / 2) | negsuc a ↦ negsuc a ];
  float_of = number_of;
}

instance abbrev no_boost : Boost
no_boost = record { boost_of = number_of; one = pos 1; lifted = λ n b. b }

abbrev row : String → String → ℕ → Fields
row i standard n =
    field "id" (str i)
      (field "source_standard" (str standard) (field "similarity" (real (pos n)) end))

abbrev three_rows : List Fields
three_rows = row "a" "" 3 ∷ row "b" "ISO 9001" 5 ∷ row "c" "ISO 14001" 7 ∷ []

-- The engine raises, and the direct strategy answers the three rows.
abbrev engines : Engines
engines = record {
  retrieve_context = λ q f k n. none;
  retrieve_context_from_plan = λ q p f k n. none;
  embed_text = λ q. some true;
  direct_strategy = λ q f k n. some three_rows;
  iterative_strategy = λ q f k n. some [];
}

-- The gravity reranker keeps its candidates, and the others are off.
abbrev rerankers : Rerankers
rerankers = record {
  gravity = λ role candidates. some candidates;
  jina_enabled = true;
  jina = λ q documents n. some (
      record { index = some (pos 1); relevance_score = real (pos 2) }
      ∷ record { index = some (pos 0); relevance_score = real (pos 9) }
      ∷ []);
  cohere_enabled = false;
  cohere = λ q documents n. none;
}

abbrev settings : RerankSettings
settings = record { rerank_mode = ""; strict_filtering = true; max_candidates = 0 }

abbrev context : Fields
context = field "type" (str "global") end

abbrev filters : Fields
filters = resolve_from end "q" context (field "is_global" (bool true) end)

abbrev call : Call
call = record {
  k = 2;
  fetch_k = 9;
  enable_reranking = false;
  iterative = false;
  retrieval_plan = null;
}

abbrev answer : List RerankRow
answer =
    record { index = some (pos 1); relevance_score = real (pos 2) }
    ∷ record { index = some (pos 0); relevance_score = real (pos 9) }
    ∷ []

context_filters : resolve_retrieval_filters end "q" context ≡ some filters
unfolding resolve_retrieval_filters base_filters has_key get
context_filters = refl

three_answered :
    retrieve "" settings engines rerankers end "q" context call
    ≡ some (row "a" "" 3 ∷ row "b" "ISO 9001" 5 ∷ [])
unfolding retrieve resolve_retrieval_filters base_filters has_key get raw_results
    execute_atomic_strategy engine_rows coerce_query_plan engine_mode strip direct_fallback
    clause_fallback rank_phase
three_answered = refl

retrieve_bounded_example : 2 ≤ 2
retrieve_bounded_example =
    retrieve_bounded "" settings engines rerankers end "q" context call
      (row "a" "" 3 ∷ row "b" "ISO 9001" 5 ∷ []) three_answered

abbrev request : HybridRequest
request = record {
  query = "q";
  tenant_id = "acme";
  collection_id = "";
  k = 5;
  fetch_k = 9;
  filters = end;
  retrieval_plan = dict end;
  skip_planner = true;
  skip_external_rerank = true;
}

hybrid_options_ignored_example :
    tools_retrieve "" settings engines rerankers end "q" (hybrid_context request end) 5 9 true
    ≡ tools_retrieve "" settings engines rerankers end "q"
        (build_scope_context "acme" "" end)
        5
        9
        true
hybrid_options_ignored_example =
    hybrid_options_ignored "" settings engines rerankers end request end "q" 5 9 true

abbrev is_text_b : Value → Bool
is_text_b (str s) = s == "b"
is_text_b v = false

abbrev is_b : Fields → Bool
is_b d = is_text_b (get "id" d)

abbrev merged : List Fields
merged =
    with_scores true (pos 9) (pos 9) (row "a" "" 3)
    ∷ with_scores true (pos 2) (pos 2) (row "b" "ISO 9001" 5)
    ∷ row "c" "ISO 14001" 7
    ∷ []

same_id : (j : Bool) (a b : ℤ) (d : Fields) → get "id" (with_scores j a b d) ≡ get "id" d
same_id true a b d = simp get-put refl
same_id false a b d = simp get-put refl

is_b_same : (j : Bool) (a b : ℤ) (d : Fields) → is_b (with_scores j a b d) ≡ is_b d
is_b_same j a b d = ap is_text_b (same_id j a b d)

merged_answer : merge_reranked true (take 2 three_rows) three_rows (some answer) ≡ some merged
unfolding merge_reranked reordered rescored combined_score has_key sort_scored insert_scored
    at_least safe_float not_indexed is_indexed
merged_answer = refl

rerank_keeps_rows_example : count is_b merged ≡ count is_b three_rows
unfolding is_indexed
rerank_keeps_rows_example =
    rerank_keeps_rows is_b is_b_same true 2 three_rows (1 ∷ 0 ∷ []) answer merged
      (refl, omega arith, refl, (refl, omega arith, refl, tt)) merged_answer

abbrev scopes : List String
scopes = "ISO 9001" ∷ []

abbrev local : RerankSettings
local = record { rerank_mode = "local"; strict_filtering = true; max_candidates = 0 }

abbrev gravity_row : String → String → ℕ → Fields
gravity_row i standard n = merged_row (row i standard n) (candidate_of (row i standard n))

abbrev ranked : List Fields
ranked = gravity_row "b" "ISO 9001" 5 ∷ gravity_row "c" "ISO 14001" 7 ∷ []

abbrev two_rows : List Fields
two_rows = row "b" "ISO 9001" 5 ∷ row "c" "ISO 14001" 7 ∷ []

abbrev scoped : Fields
scoped = field "source_standard" (str "ISO 9001") end

two_ranked : execute_gravity_rerank rerankers scoped two_rows ≡ some ranked
unfolding execute_gravity_rerank raw_by_id has_key get
two_ranked = refl

scopes_read : requested_scopes_from_context (dict scoped) ≡ scopes
unfolding requested_scopes_from_context get has_key dedupe strip
scopes_read = refl

left_in : any (stays_in scopes) ranked ≡ true
unfolding in_scope extract_row_scope first_scope get merged_row put update has_key strip scope_key
    compact requested_keys contains
left_in = refl

strict_reranking_example :
    All
      (InScope (requested_scopes_from_context (dict scoped)))
      (apply_reranking local rerankers "q" two_rows scoped 5)
    ⊎ ((try_reranking local rerankers
            (requested_scopes_from_context (dict scoped))
            "q"
            two_rows
            scoped
            5
          ≡ none)
        × (apply_reranking local rerankers "q" two_rows scoped 5
            ≡ cut (requested_scopes_from_context (dict scoped)) two_rows 5))
strict_reranking_example =
    strict_reranking local rerankers "q" two_rows ranked scoped 5 refl
      (λ e. ground (arith, e, scopes_read)) two_ranked (rw scopes_read left_in)
