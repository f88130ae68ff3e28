-- ===== src/Retrieval/Fusion/Stratify/Tests.antt =====
-- `stratify_results` on rows of two standards.
use cire_rag.Base.{if◌then◌else◌, take, count, ◌≤◌, String, ◌≡◌, refl, List, [], ◌∷◌, arith}
use cire_rag.Base.Text.{contains, strip}
use cire_rag.Base.Value.{str, Fields, end, field, Python, get}
use cire_rag.Retrieval.Scoping.Names.{
  Patterns, extract_row_scope, first_scope, normalize_scope_name,
}
use cire_rag.Retrieval.Fusion.Stratify.{
  scope_matches, first_match, empty_buckets, max_len, rounds, one_round, scope_targets, place,
  place_rows, balance, stratify_results,
}
use cire_rag.Retrieval.Fusion.Stratify.Buckets.{is_of}
use cire_rag.Retrieval.Fusion.Stratify.Result.{in_turn, stratified_in_turn}
use cire_rag.Retrieval.Fusion.Stratify.Fair.{stratified_fair}

instance abbrev plain : Python
plain = record { lower = λ s. s; upper = λ s. s; show = λ v. "" }

-- The only standard that the expression finds is this one.
instance abbrev nine : Patterns
nine = record {
  standard_matches = λ s. if contains "ISO 9001" s then "ISO 9001" ∷ [] else [];
  clause_matches = λ s. [];
}

abbrev row : String → String → Fields
row id standard = field "id" (str id) (field "source_standard" (str standard) end)

abbrev results : List Fields
results = row "a" "ISO 9001" ∷ row "b" "ISO 9001" ∷ row "c" "ISO 14001" ∷ row "d" "ISO 45001" ∷ []

abbrev both : List String
both = "ISO 9001" ∷ "ISO 14001" ∷ []

by_turns :
    stratify_results results both 4
    ≡ row "a" "ISO 9001" ∷ row "c" "ISO 14001" ∷ row "b" "ISO 9001" ∷ row "d" "ISO 45001" ∷ []
unfolding stratify_results balance scope_targets place_rows place rounds one_round max_len
    empty_buckets first_match scope_matches normalize_scope_name extract_row_scope first_scope
    contains strip get
by_turns = refl

stratified_in_turn_example :
    stratify_results results both 3 ≡ take 3 (in_turn (scope_targets both) results)
stratified_in_turn_example = stratified_in_turn results both 3

stratified_fair_example :
    1 ≤ count (is_of (scope_targets both) "ISO 14001") (stratify_results results both 2)
unfolding scope_targets first_match scope_matches normalize_scope_name extract_row_scope first_scope
    contains strip get
stratified_fair_example =
    stratified_fair 1 results both 2 "ISO 14001" refl (omega arith) (omega arith, (omega arith, tt))
