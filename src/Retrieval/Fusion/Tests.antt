-- ===== src/Retrieval/Fusion/Tests.antt =====
-- `fuse_late_results` on small sources.
use cire_rag.Base.{
  if◌then◌else◌, length, keep, ◌≤◌, String, ◌≡◌, refl, ◌⊎◌, true, false, Option, none, some, List,
  [], ◌∷◌, map, ◌==◌,
}
use cire_rag.Base.Text.{strip, has}
use cire_rag.Base.Value.{
  ℤ, pos, Value, null, real, str, dict, Items, nil, cons, end, field, Python, get,
}
use cire_rag.Retrieval.Item.{RetrievalItem, item_identity, extract_row, join, prefix}
use cire_rag.Retrieval.Fusion.{identities, add_items, overflow, fill_quotas, fuse_late_results}
use cire_rag.Retrieval.Fusion.Result.{fused_complete}
use cire_rag.Retrieval.Fusion.Items.{Parse}
use cire_rag.Retrieval.Fusion.Policy.{
  scored, calm, trimmed, has_text, with_text, apply_retrieval_policy_to_items, policy_exact,
}
use cire_rag.Retrieval.Policies.Noise.{NoisePatterns}
use cire_rag.Retrieval.Scoping.Names.{Patterns}

instance abbrev plain : Python
plain = record { lower = λ s. s; upper = λ s. s; show = λ v. "" }

abbrev item : String → RetrievalItem
item id = record {
  source = "S";
  content = "text";
  score = pos 1;
  metadata = field "id" (str id) end;
}

abbrev chunks : List RetrievalItem
chunks = item "a" ∷ item "b" ∷ item "a" ∷ item "c" ∷ item "d" ∷ []

abbrev graph : List RetrievalItem
graph = item "b" ∷ item "g" ∷ []

abbrev raptor : List RetrievalItem
raptor = item "r" ∷ item "q" ∷ []

fused :
    identities (fuse_late_results chunks graph raptor 7)
    ≡ "row::a" ∷ "row::b" ∷ "row::c" ∷ "row::g" ∷ "row::r" ∷ "row::d" ∷ "row::q" ∷ []
unfolding fuse_late_results fill_quotas overflow add_items item_identity extract_row join prefix get
    strip
fused = refl

fused_complete_example :
    (length (fuse_late_results chunks graph raptor 9) ≤ 9)
    × ((length (fuse_late_results chunks graph raptor 9) ≡ 9)
        ⊎ (has "row::q" (identities (fuse_late_results chunks graph raptor 9)) ≡ true))
unfolding item_identity extract_row join get strip
fused_complete_example = fused_complete chunks graph raptor 9 "row::q" refl

abbrev float_of_number : Value → Option ℤ
float_of_number (real n) = some n
float_of_number v = none

instance abbrev numbers : Parse
numbers = record { float_of = float_of_number }

instance abbrev no_noise : NoisePatterns
no_noise = record {
  is_table_border = λ s. s == "----";
  without_links = λ s. s;
  dot_leaders = λ s. 0;
  has_toc_keyword = λ s. false;
}

-- Texts that are a standard or a clause as a whole.
instance abbrev whole : Patterns
whole = record {
  standard_matches = λ s. if s == "ISO 9001" then s ∷ [] else [];
  clause_matches = λ s. if s == "4.1" then s ∷ [] else [];
}

abbrev rows : Items
rows =
    cons
      (dict (
        field "id" (str "a") (
          field "content" (str " text ")
            (field "tenant_id" (str "acme") (field "metadata" null end)))))
      (cons (str "no row") nil)

abbrev scoped : RetrievalItem
scoped = record (item "s") { metadata = field "source_standard" (str "iso") end; content = "4.1" }

policy_exact_example :
    apply_retrieval_policy_to_items (scoped ∷ item "b" ∷ []) (some (pos 1)) true
    ≡ map trimmed (
        keep has_text (
          map
            (with_text true)
            (keep (calm true) (keep (scored (some (pos 1))) (scoped ∷ item "b" ∷ [])))))
policy_exact_example =
    policy_exact (scoped ∷ item "b" ∷ []) (some (pos 1)) true (λ n. refl) (refl, (refl, tt))
