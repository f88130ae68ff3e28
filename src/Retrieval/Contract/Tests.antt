-- ===== src/Retrieval/Contract/Tests.antt =====
-- `run_hybrid`, late fusion and `MultiQueryExecutor` on one tenant's row.
use cire_rag.Base.{
  length, All, ◌≤◌, String, ◌≡◌, refl, ◌↔◌, inl, true, false, none, some, List, [], ◌∷◌, map,
}
use cire_rag.Base.Text.{sorted, strip, Distinct}
use cire_rag.Base.Value.{pos, null, str, Fields, end, field, Python, get, has_key, put}
use cire_rag.Api.LeakCanary.{
  data_leak, verify_isolation, metadata_of, verify_doc, doc_tenant, IsOwned,
}
use cire_rag.Retrieval.Item.{RetrievalItem, item_identity, extract_row, join}
use cire_rag.Retrieval.Filters.{
  validate_retrieval_filters, validate_source_standards, validate_time_range,
  validate_metadata_values, read_standards, unknown_keys,
}
use cire_rag.Retrieval.Fusion.{identities}
use cire_rag.Retrieval.Fusion.Items.{
  Parse, carry_keys, item_metadata, items_from, to_retrieval_items,
}
use cire_rag.Retrieval.Fusion.Rrf.{
  Rounded, at_least, keep_first, insert_ranked, sort_ranked, collect, rank_items, rank_groups,
  ranked_ids, rrf_merge,
}
use cire_rag.Retrieval.Fusion.Rrf.Laws.{Descending}
use cire_rag.Retrieval.Fusion.Rrf.Result.{scores}
use cire_rag.Retrieval.Scoping.Names.{Patterns}
use cire_rag.Retrieval.Contract.{
  HybridRequest, answered, violation, Tools, as_items, unsafe, verify_rows, run_hybrid, execute,
  is_security,
}
use cire_rag.Retrieval.Contract.Safety.{hybrid_isolated, hybrid_answers, fusion_stops_iff}
use cire_rag.Retrieval.Contract.MultiQuery.{
  SubQueryRequest, MultiQueryRequest, Settings, multi_items, all_failed, Runs, count_failed,
  grouped, deduped_queries, duplicate_subqueries, run_one, execution_of, is_dropped, executions,
  subqueries, checked, execute_queries,
}
use cire_rag.Retrieval.Contract.MultiQuery.Laws.{all_failed_iff, multi_items_checked}

instance abbrev plain : Python
plain = record { lower = λ s. s; upper = λ s. s; show = λ v. "" }

instance abbrev no_numbers : Parse
no_numbers = record { float_of = λ v. none }

instance abbrev no_scopes : Patterns
no_scopes = record { standard_matches = λ s. []; clause_matches = λ s. [] }

instance abbrev no_rounding : Rounded
no_rounding = record { add = λ a b. b; inverse = λ n. pos n }

abbrev row : String → Fields
row owner = field "id" (str "1") (field "content" (str "text") (field "tenant_id" (str owner) end))

-- The engine answers a row of acme, and the graph a row of another tenant.
abbrev tools : Tools
tools = record {
  retrieve = λ q c k f. some (row "acme" ∷ []);
  retrieve_graph_nodes = λ q. some (put "id" (str "2") (row "other") ∷ []);
  retrieve_summaries = λ q. none;
  resolve_summaries_to_chunks = λ ids. none;
}

abbrev request : String → HybridRequest
request tenant = record {
  query = "q";
  tenant_id = tenant;
  collection_id = "";
  k = 5;
  fetch_k = 9;
  filters = end;
  retrieval_plan = null;
  skip_planner = false;
  skip_external_rerank = false;
}

acme_owns : IsOwned "acme" (row "acme")
unfolding metadata_of doc_tenant has_key get
acme_owns = record { metadata = end; found = refl; owned = inl refl }

abbrev answer : List RetrievalItem
answer = to_retrieval_items (as_items (row "acme" ∷ []))

no_issues : (validate_retrieval_filters end).1 ≡ []
unfolding validate_retrieval_filters validate_metadata_values validate_time_range
    validate_source_standards read_standards unknown_keys sorted get
no_issues = refl

acme_answered : run_hybrid tools (request "acme") ≡ answered answer
acme_answered =
    hybrid_answers tools (request "acme") (row "acme" ∷ []) refl no_issues refl (acme_owns, tt)

hybrid_isolated_example :
    ((validate_retrieval_filters end).1 ≡ [])
    × ((docs : List Fields) × (some (row "acme" ∷ []) ≡ some docs)
        × All (IsOwned "acme") docs
        × (answer ≡ to_retrieval_items (as_items docs)))
hybrid_isolated_example = hybrid_isolated tools (request "acme") answer refl acme_answered

fusion_stops_iff_example :
    execute tools (request "other") ≡ unsafe data_leak
    ↔ ((run_hybrid tools (request "other") ≡ violation data_leak) × (is_security data_leak ≡ true))
fusion_stops_iff_example = fusion_stops_iff tools (request "other") data_leak

abbrev sub : String → SubQueryRequest
sub q = record { id = q; query = q; k = none; fetch_k = none; filters = end }

abbrev queries : List SubQueryRequest → MultiQueryRequest
queries qs = record { tenant_id = "acme"; collection_id = ""; queries = qs; rrf_k = 60; top_k = 3 }

abbrev settings : Settings
settings = record { drop_out_of_scope = true; scope_drop_threshold = pos 9 }

abbrev in_time : Runs
in_time = record { times_out = λ q. false; ratio = λ q. none }

abbrev too_late : Runs
too_late = record { times_out = λ q. true; ratio = λ q. none }

abbrev once : MultiQueryRequest
once = queries (sub "a" ∷ [])

abbrev twice : MultiQueryRequest
twice = queries (sub "a" ∷ sub "a" ∷ [])

all_failed_iff_example :
    execute_queries settings tools too_late once
      ≡ all_failed (subqueries settings tools too_late once)
    ↔ ((count_failed (executions settings tools too_late once)
          ≡ length (executions settings tools too_late once))
        × (length (duplicate_subqueries [] once.queries) ≡ 0))
all_failed_iff_example = all_failed_iff settings tools too_late once

-- What one query in time is answered with.
abbrev merged : List RetrievalItem
merged = elim (rrf_merge (answer ∷ []) 60 3) [ none ↦ [] | some items ↦ items ]

one_row : length merged ≡ 1
unfolding rrf_merge rank_groups rank_items ranked_ids sort_ranked insert_ranked at_least collect
    keep_first to_retrieval_items items_from item_metadata carry_keys item_identity extract_row join
    strip get put has_key
one_row = refl

run_in_time :
    execute_queries settings tools in_time once
    ≡ multi_items merged (subqueries settings tools in_time once)
unfolding execute_queries run_one run_hybrid verify_rows verify_isolation execution_of is_dropped
    grouped validate_retrieval_filters validate_metadata_values validate_time_range
    validate_source_standards read_standards unknown_keys sorted metadata_of verify_doc doc_tenant
    checked deduped_queries rrf_merge rank_groups rank_items ranked_ids sort_ranked insert_ranked
    at_least collect keep_first to_retrieval_items items_from item_metadata carry_keys item_identity
    extract_row join strip get put has_key
run_in_time = refl

multi_items_checked_example :
    All (IsOwned "acme") (map extract_row merged)
    × (length merged ≤ 3)
    × Distinct (identities merged)
    × Descending (scores merged)
multi_items_checked_example =
    multi_items_checked settings tools in_time once merged (subqueries settings tools in_time once)
      refl run_in_time
