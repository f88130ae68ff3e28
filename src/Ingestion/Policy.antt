-- ===== src/Ingestion/Policy.antt =====
-- app/domain/ingestion/types.py and app/domain/ingestion/orchestration/policies.py.
use cire_rag.Base.Value.{pos, negsuc, Value, bool, int, real, Fields, get, has_key}
use cire_rag.Base.{
  leb, if◌then◌else◌, ℕ, zero, suc, ◌*◌, String, ◌≡◌, ◌↔◌, ◌⊎◌, Bool, true, false, not, ◌||◌,
  Option, none, some, List, [], ◌∷◌, arith, ◌==◌,
}
use cire_rag.Base.Text.{is_empty, has}

pub data IngestionStatus : Type 0 where
  pending pending_ingestion queued processing processing_v2 ready error empty_file : IngestionStatus
  success failed dead_letter : IngestionStatus

-- `IngestionStatus.value`
unfoldable pub value : IngestionStatus → String
value pending = "pending"
value pending_ingestion = "pending_ingestion"
value queued = "queued"
value processing = "processing"
value processing_v2 = "processing_v2"
value ready = "ready"
value error = "error"
value empty_file = "empty_file"
value success = "processed"
value failed = "failed"
value dead_letter = "dead_letter"

abbrev pub pending_states : List String
pending_states = "pending" ∷ "pending_ingestion" ∷ "queued" ∷ []

abbrev pub max_retries : ℕ
max_retries = 3

pub data RetryAction : Type 0 where
  retry dead_letter : RetryAction

-- `2 ** n`
unfoldable pub two_to : ℕ → ℕ
two_to zero = 1
two_to (suc n) = 2 * two_to n

-- `retry_count >= MAX_RETRIES`; `none` where the comparison raises. A truth value is 0 or 1, and the
-- float 3 is 3 times 2 to the 1074th least positive doubles.
unfoldable pub is_exhausted : Value → Option Bool
is_exhausted (int (pos n)) = some (leb max_retries n)
is_exhausted (int (negsuc n)) = some false
is_exhausted (bool b) = some false
is_exhausted (real (pos n)) = some (leb (max_retries * two_to 1074) n)
is_exhausted (real (negsuc n)) = some false
is_exhausted v = none

-- `metadata.get("retry_count", 0)`
unfoldable pub retry_count : Fields → Value
retry_count metadata =
    if has_key "retry_count" metadata then get "retry_count" metadata else int (pos 0)

-- `none` where it raises.
unfoldable pub should_process : String → String → Fields → Option Bool
should_process status meta_status metadata =
    if not (has status pending_states || has meta_status pending_states)
    then some false
    else elim (is_exhausted (retry_count metadata)) [
      | none ↦ none
      | some exhausted ↦ some (not exhausted)
    ]

unfoldable pub determine_retry_action : ℕ → RetryAction
determine_retry_action retry_count =
    if leb max_retries retry_count then RetryAction.dead_letter else retry

-- `validate_tenant_isolation`: false where it raises.
unfoldable pub tenant_isolation_holds : Bool → String → Bool
tenant_isolation_holds is_global institution_id =
    is_global
    || not (is_empty institution_id || institution_id == "00000000-0000-0000-0000-000000000000")

-- A document is picked up exactly if one of its two statuses is a pending one and its count of
-- retries is a number below the limit.
should_process_iff :
    (status meta_status : String) (metadata : Fields)
    → should_process status meta_status metadata ≡ some true ↔ (
        ((has status pending_states ≡ true) ⊎ (has meta_status pending_states ≡ true))
        × (is_exhausted (retry_count metadata) ≡ some false))
unfolding should_process
should_process_iff status meta_status metadata = (λ h. ground arith, λ h. ground arith)

-- For a count of retries, the guard and the choice of the action agree.
exhausted_iff :
    (n : ℕ)
    → is_exhausted (int (pos n)) ≡ some false ↔ (determine_retry_action n ≡ RetryAction.retry)
unfolding is_exhausted determine_retry_action
exhausted_iff n = (λ h. ground arith, λ h. ground arith)

-- Of the statuses, exactly the three that wait are picked up, while retries are left.
waiting_statuses :
    (s : IngestionStatus) (metadata : Fields)
    → is_exhausted (retry_count metadata) ≡ some false
    → should_process (value s) (value s) metadata ≡ some true
      ↔ ((s ≡ pending) ⊎ (s ≡ pending_ingestion) ⊎ (s ≡ queued))
unfolding should_process value
waiting_statuses pending metadata h = (λ e. ground arith, λ o. ground arith)
waiting_statuses s metadata h = (λ e. ground arith, λ o. ground arith)
