-- ===== src/Api/LeakCanary.antt =====
-- app/api/middleware/security.py (`LeakCanary.verify_isolation`), and `stamp_tenant_context` of
-- app/domain/retrieval/scoping.py, which runs on the rows before it.
use cire_rag.Base.{
  if◌then◌else◌, All, String, ◌≡◌, refl, ◌≢◌, ◌↔◌, ◌⊎◌, inl, Bool, true, false, not, ◌&&◌, Option,
  none, some, List, [], ◌∷◌, map, arith, ◌==◌, eq_iff,
}
use cire_rag.Base.Text.{is_empty}
use cire_rag.Base.Value.{
  Value, null, str, dict, Fields, end, truthy, get, has_key, put, dict_or_empty, or_else, get-put,
  has_key-put,
}

pub data Isolation : Type 0 where
  verified missing_tenant missing_ownership data_leak attribute_error : Isolation

-- The metadata of a document: `doc.get("metadata", {})`, and `none` where a later `.get` of it
-- raises.
unfoldable pub metadata_of : Fields → Option Fields
metadata_of doc =
    if has_key "metadata" doc
    then elim (get "metadata" doc) [ dict d ↦ some d | _ ↦ none ]
    else some end

-- `a or b or c or d`
unfoldable pub doc_tenant : Fields → Fields → Value
doc_tenant metadata doc =
    or_else
      (or_else (or_else (get "tenant_id" metadata) (get "institution_id" metadata))
        (get "institution_id" doc))
      (get "tenant_id" doc)

-- `v == s` for a text `s`
abbrev pub is_text : Value → String → Bool
is_text (str t) s = t == s
is_text _ s = false

-- One turn of the loop.
unfoldable pub verify_doc : String → Fields → Option Fields → Isolation
verify_doc tenant doc none = attribute_error
verify_doc tenant doc (some metadata) =
    let owner = doc_tenant metadata doc in
    if not (truthy owner)
    then (if truthy (get "is_global" metadata) then verified else missing_ownership)
    else if is_text owner tenant
    then verified
    else data_leak

abbrev pub go_on : Isolation → Isolation → Isolation
go_on verified rest = rest
go_on stop rest = stop

unfoldable pub verify_docs : String → List Fields → Isolation
verify_docs tenant [] = verified
verify_docs tenant (doc ∷ docs) =
    go_on (verify_doc tenant doc (metadata_of doc)) (verify_docs tenant docs)

unfoldable pub verify_isolation : String → List Fields → Isolation
unfolding verify_docs
verify_isolation tenant docs = if is_empty tenant then missing_tenant else verify_docs tenant docs

-- What the check is for: the document names the tenant as its owner, or names no owner and is
-- global.
pub record IsOwned (tenant : String) (doc : Fields) : Type 0 where
  pub metadata : Fields
  pub found : metadata_of doc ≡ some metadata
  pub owned :
      (doc_tenant metadata doc ≡ str tenant)
      ⊎ ((truthy (doc_tenant metadata doc) ≡ false) × (truthy (get "is_global" metadata) ≡ true))

is_text_iff : (v : Value) (s : String) → is_text v s ≡ true ↔ (v ≡ str s)
is_text_iff (str t) s = (λ h. ground (arith, eq_iff t s), λ h. ground (arith, eq_iff t s))
is_text_iff null s = (λ h. cc, λ h. cc)
is_text_iff v s = (λ h. cc, λ h. cc)

module _ (tenant : String) (doc : Fields) where
  verify_doc_sound : verify_doc tenant doc (metadata_of doc) ≡ verified → IsOwned tenant doc
  unfolding verify_doc
  verify_doc_sound h = by_metadata (metadata_of doc) refl h
    where
      by_metadata :
          (o : Option Fields)
          → metadata_of doc ≡ o
          → verify_doc tenant doc o ≡ verified
          → IsOwned tenant doc
      by_metadata none e h = absurd (ground arith)
      by_metadata (some m) e h = record {
        metadata = m;
        found = e;
        owned = ground (arith, (is_text_iff (doc_tenant m doc) tenant).0);
      }

  verify_doc_complete :
      is_empty tenant ≡ false
      → IsOwned tenant doc
      → verify_doc tenant doc (metadata_of doc) ≡ verified
  unfolding verify_doc
  verify_doc_complete some_tenant o =
      rw o.found (ground (arith, o.owned, (is_text_iff (doc_tenant o.metadata doc) tenant).1))

-- For a tenant that is not empty the check passes exactly if every document names that tenant as its
-- owner, or names no owner and is marked global.
pub verified_iff :
    (tenant : String) (docs : List Fields)
    → is_empty tenant ≡ false
    → verify_isolation tenant docs ≡ verified ↔ All (IsOwned tenant) docs
unfolding verify_isolation
verified_iff tenant [] some_tenant = (λ h. tt, λ h. ground arith)
verified_iff tenant (doc ∷ docs) some_tenant =
    let rest = verified_iff tenant docs some_tenant in
    let first = verify_doc tenant doc (metadata_of doc) in
    (
      λ h. (verify_doc_sound tenant doc (ground arith), rest.0 (ground arith)),
      λ h. ground (arith, verify_doc_complete tenant doc some_tenant h.0, rest.1 h.1),
    )

-- `if not d.get(k): d[k] = tenant`
abbrev pub fill : String → String → Fields → Fields
fill k tenant d = if truthy (get k d) then d else put k (str tenant) d

-- One turn of the loop of `stamp_tenant_context`. The row holds the metadata itself, so what is set
-- in one is seen in the other.
unfoldable pub stamp_row : String → Fields → Fields
stamp_row tenant row =
    let metadata = dict_or_empty (get "metadata" row) in
    let placed = put "metadata" (dict metadata) row in
    let stamped = fill "tenant_id" tenant (fill "institution_id" tenant placed) in
    put "metadata" (dict (fill "tenant_id" tenant (fill "institution_id" tenant metadata))) stamped

unfoldable pub stamp_tenant_context : String → List Fields → List Fields
stamp_tenant_context tenant rows = if is_empty tenant then rows else map (stamp_row tenant) rows

metadata_of-stamp_row :
    (tenant : String) (row : Fields)
    → metadata_of (stamp_row tenant row)
      ≡ some (
          fill "tenant_id" tenant
            (fill "institution_id" tenant (dict_or_empty (get "metadata" row))))
unfolding metadata_of stamp_row
metadata_of-stamp_row tenant row = simp (has_key-put, get-put)

get-fill :
    (k j tenant : String) (d : Fields)
    → get j (fill k tenant d) ≡ (if k == j && not (truthy (get j d)) then str tenant else get j d)
get-fill k j tenant d = ground (arith, get-put k j (str tenant) d, eq_iff k j)

-- The row does not name another owner in the one place that is read first.
abbrev pub NoOtherClaim : String → Fields → Type 0
NoOtherClaim tenant row =
    (truthy (get "tenant_id" (dict_or_empty (get "metadata" row))) ≡ false)
    ⊎ (get "tenant_id" (dict_or_empty (get "metadata" row)) ≡ str tenant)

owner-stamp_row :
    (tenant : String) (row : Fields)
    → is_empty tenant ≡ false
    → (m : Fields) × (metadata_of (stamp_row tenant row) ≡ some m)
      × (doc_tenant m (stamp_row tenant row) ≡ (
          let v = get "tenant_id" (dict_or_empty (get "metadata" row)) in
          if truthy v then v else str tenant))
unfolding doc_tenant
owner-stamp_row tenant row some_tenant =
    let meta = dict_or_empty (get "metadata" row) in
    let m = fill "tenant_id" tenant (fill "institution_id" tenant meta) in
    (
      m,
      metadata_of-stamp_row tenant row,
      ground (
        arith,
        get-fill "tenant_id" "tenant_id" tenant (fill "institution_id" tenant meta),
        get-fill "institution_id" "tenant_id" tenant meta,
      ),
    )

IsOwned-iff :
    (tenant : String) (row : Fields)
    → is_empty tenant ≡ false
    → IsOwned tenant (stamp_row tenant row) ↔ NoOtherClaim tenant row
IsOwned-iff tenant row some_tenant =
    let (m, found, owner) = owner-stamp_row tenant row some_tenant in
    (
      λ o. ground (arith, o.found, o.owned),
      λ c. record { metadata = m; found = found; owned = inl (ground arith) },
    )

stamped_docs :
    (tenant : String) (rows : List Fields)
    → is_empty tenant ≡ false
    → All (IsOwned tenant) (map (stamp_row tenant) rows) ↔ All (NoOtherClaim tenant) rows
stamped_docs tenant [] some_tenant = (λ h. tt, λ h. tt)
stamped_docs tenant (row ∷ rows) some_tenant =
    let first = IsOwned-iff tenant row some_tenant in
    let rest = stamped_docs tenant rows some_tenant in
    (λ h. (first.0 h.0, rest.0 h.1), λ h. (first.1 h.0, rest.1 h.1))

-- Rows that `stamp_tenant_context` has stamped pass the check exactly if none of them had another
-- owner in the `tenant_id` of its metadata: the other three places that may name an owner are not
-- looked at any more.
stamped_iff :
    (tenant : String) (rows : List Fields)
    → is_empty tenant ≡ false
    → verify_isolation tenant (stamp_tenant_context tenant rows) ≡ verified
      ↔ All (NoOtherClaim tenant) rows
unfolding stamp_tenant_context
stamped_iff tenant rows some_tenant =
    let checked = verified_iff tenant (map (stamp_row tenant) rows) some_tenant in
    let stamped = stamped_docs tenant rows some_tenant in
    rw some_tenant (λ h. stamped.0 (checked.0 h), λ a. checked.1 (stamped.1 a))

-- A row whose first named owner is another tenant, but not in the `tenant_id` of its metadata, is
-- reported as a leak before it is stamped and passes the check after.
stamping_hides :
    (tenant other : String) (row metadata : Fields)
    → is_empty tenant ≡ false
    → is_empty other ≡ false
    → other ≢ tenant
    → get "metadata" row ≡ dict metadata
    → has_key "metadata" row ≡ true
    → truthy (get "tenant_id" metadata) ≡ false
    → doc_tenant metadata row ≡ str other
    → (verify_isolation tenant (row ∷ []) ≡ data_leak)
      × (verify_isolation tenant (stamp_tenant_context tenant (row ∷ [])) ≡ verified)
unfolding verify_isolation verify_doc metadata_of
stamping_hides tenant other row metadata some_tenant some_other differ held keyed unclaimed owner =
    (
      ground (arith, eq_iff other tenant),
      (stamped_iff tenant (row ∷ []) some_tenant).1 (inl (rw held unclaimed), tt),
    )
