-- ===== src/Concurrency.antt =====
-- app/infrastructure/background_jobs/tenant_concurrency_manager.py: `TenantConcurrencyManager`.
-- An `async with self._lock` block runs without a wait in it, so each method is one function of the
-- state; the waits of `tenant_slot` are in `Slot`.
pub mod Slot
use cire_rag.Base.{
  leb, if◌then◌else◌, ℕ, ◌+◌, ◌-◌, String, ◌≡◌, refl, Bool, true, false, Option, none, some, List,
  [], ◌∷◌, arith, ◌==◌, eq_iff,
}
use cire_rag.Base.Text.{has}
use cire_rag.Base.Value.{Fields, Python, truthy, get, dict_or_empty, to_text}

-- An association list from tenants to numbers: `dict[str, int]`.
pub data Counts : Type 0 where
  empty : Counts
  entry : String → ℕ → Counts → Counts

-- `d.get(k)`
unfoldable pub find : String → Counts → Option ℕ
find k empty = none
find k (entry j n c) = if j == k then some n else find k c

-- `d.get(k, default)`
abbrev pub find_or : ℕ → String → Counts → ℕ
find_or default k c = elim (find k c) [ none ↦ default | some n ↦ n ]

-- `d[k] = n`
unfoldable pub store : String → ℕ → Counts → Counts
store k n empty = entry k n empty
store k n (entry j m c) = if j == k then entry j n c else entry j m (store k n c)

-- `d.pop(k, None)`
unfoldable pub remove : String → Counts → Counts
remove k empty = empty
remove k (entry j m c) = let rest = remove k c in if j == k then rest else entry j m rest

pub find-store :
    (k j : String) (n : ℕ) (c : Counts)
    → find j (store k n c) ≡ (if k == j then some n else find j c)
unfolding find store
find-store k j n empty = refl
find-store k j n (entry i m c) =
    ground (arith, eq_iff k j, eq_iff i k, eq_iff i j, find-store k j n c)

pub find-remove :
    (k j : String) (c : Counts) → find j (remove k c) ≡ (if k == j then none else find j c)
unfolding find remove
find-remove k j empty = ground arith
find-remove k j (entry i m c) =
    ground (arith, eq_iff k j, eq_iff i k, eq_iff i j, find-remove k j c)

-- `set.remove`, on a list that holds each text once.
unfoldable pub discard : String → List String → List String
discard d [] = []
discard d (x ∷ xs) = let rest = discard d xs in if x == d then rest else x ∷ rest

pub has-discard :
    (d e : String) (xs : List String) → has e (discard d xs) ≡ (if d == e then false else has e xs)
unfolding discard
has-discard d e [] = ground arith
has-discard d e (x ∷ xs) = ground (arith, eq_iff d e, eq_iff x d, eq_iff x e, has-discard d e xs)

-- A semaphore is its value: the number of slots that are left.
pub record Manager : Type 0 where
  pub per_tenant_limit : ℕ
  pub tenant_semaphores : Counts
  pub tenant_active_jobs : Counts
  pub active_doc_ids : List String

abbrev pub init : ℕ → Manager
init limit = record {
  per_tenant_limit = limit;
  tenant_semaphores = empty;
  tenant_active_jobs = empty;
  active_doc_ids = [];
}

-- The tenant's semaphore, made with the full limit at its first use.
unfoldable pub get_semaphore : String → Manager → Manager
get_semaphore tenant m = elim (find tenant m.tenant_semaphores) [
  | none ↦ record m { tenant_semaphores = store tenant m.per_tenant_limit m.tenant_semaphores }
  | some n ↦ m
]

-- The slots that the tenant's semaphore has left, whether it has been made or not.
abbrev pub slots : String → Manager → ℕ
slots tenant m = find_or m.per_tenant_limit tenant m.tenant_semaphores

unfoldable pub try_acquire_doc_lock : String → Manager → Manager × Bool
try_acquire_doc_lock doc_id m =
    if has doc_id m.active_doc_ids
    then (m, false)
    else (record m { active_doc_ids = doc_id ∷ m.active_doc_ids }, true)

unfoldable pub release_doc_lock : String → Manager → Manager
release_doc_lock doc_id m =
    if has doc_id m.active_doc_ids
    then record m { active_doc_ids = discard doc_id m.active_doc_ids }
    else m

unfoldable pub increment_active_jobs : String → Manager → Manager
increment_active_jobs tenant m = record m {
  tenant_active_jobs =
      store tenant (find_or 0 tenant m.tenant_active_jobs + 1) m.tenant_active_jobs;
}

unfoldable pub decrement_active_jobs : String → Manager → Manager
decrement_active_jobs tenant m =
    let current = find_or 0 tenant m.tenant_active_jobs in
    if leb current 1
    then record m { tenant_active_jobs = remove tenant m.tenant_active_jobs }
    else record m { tenant_active_jobs = store tenant (current - 1) m.tenant_active_jobs }

abbrev pub get_active_jobs_count : String → Manager → ℕ
get_active_jobs_count tenant m = find_or 0 tenant m.tenant_active_jobs

module _ ⦃py : Python⦄ where
  unfoldable pub resolve_tenant_key : Fields → String
  resolve_tenant_key rec =
      let tenant_id = get "institution_id" rec in
      let inner = get "institution_id" (dict_or_empty (get "metadata" rec)) in
      if truthy tenant_id
      then to_text tenant_id
      else if truthy inner
      then to_text inner
      else "global"
