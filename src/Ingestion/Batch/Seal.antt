-- ===== src/Ingestion/Batch/Seal.antt =====
-- `seal_batch` of app/infrastructure/state_management/batch_manager.py, and what a batch's final status
-- says of its documents.
use cire_rag.Base.{
  ltb, leb, eqb, if◌then◌else◌, length, count, ℕ, suc, ◌+◌, ◌≤◌, ◌<◌, String, ◌≡◌, refl, ◌↔◌, Bool,
  not, ◌&&◌, List, [], ◌∷◌, arith,
}
use cire_rag.Base.Text.{has}
use cire_rag.Base.Value.{pos, Value, int}

-- A batch's final status, or `processing`.
pub data BatchStatus : Type 0 where
  completed failed partial processing : BatchStatus

abbrev pub success_states : List String
success_states = "success" ∷ "processed" ∷ "completed" ∷ "ready" ∷ []

abbrev pub failed_states : List String
failed_states = "failed" ∷ "error" ∷ "dead_letter" ∷ []

unfoldable pub is_success : String → Bool
is_success s = has s success_states

unfoldable pub is_failure : String → Bool
is_failure s = has s failed_states

-- The loop over the documents' statuses: the completed and the failed ones.
unfoldable pub count_states : List String → ℕ × ℕ
count_states [] = (0, 0)
count_states (s ∷ ss) =
    let (done, lost) = count_states ss in
    if is_success s
    then (done + 1, lost)
    else if is_failure s
    then (done, lost + 1)
    else (done, lost)

-- `int(batch.get("total_files") or len(docs))`, and `len(docs)` where that is not positive.
unfoldable pub effective_total : Value → ℕ → ℕ
effective_total (int (pos (suc n))) count = suc n
effective_total v count = count

unfoldable pub batch_status : ℕ → ℕ → ℕ → BatchStatus
batch_status done lost total =
    if leb total (done + lost) && ltb 0 total
    then (if eqb lost 0
        then BatchStatus.completed
        else if eqb done 0
        then BatchStatus.failed
        else partial)
    else processing

-- `statuses` are the lower-case statuses of the batch's documents.
unfoldable pub seal_batch : Value → List String → BatchStatus × ℕ × ℕ × ℕ
seal_batch total statuses =
    let (done, lost) = count_states statuses in
    let files = effective_total total (length statuses) in
    (batch_status done lost files, done, lost, files)

-- A status that counts as failed.
abbrev pub is_lost : String → Bool
is_lost s = not (is_success s) && is_failure s

count_states-count :
    (ss : List String)
    → ((count_states ss).0 ≡ count is_success ss) × ((count_states ss).1 ≡ count is_lost ss)
unfolding count_states
count_states-count [] = (refl, refl)
count_states-count (s ∷ ss) =
    let rest = count_states-count ss in (ground (arith, rest.0), ground (arith, rest.1))

count_disjoint : (ss : List String) → count is_success ss + count is_lost ss ≤ length ss
count_disjoint [] = omega arith
count_disjoint (s ∷ ss) = ground (arith, count_disjoint ss)

-- In a batch with no more documents than files, the status is `completed` exactly if there are
-- documents, as many as files, and every one has succeeded; `failed` exactly if every one has
-- failed; and `partial` exactly if every one has ended, and some each way.
pub sealed_meaning :
    (total : Value) (ss : List String)
    → length ss ≤ effective_total total (length ss)
    → ((seal_batch total ss).0 ≡ completed
        ↔ ((0 < length ss) × (count is_success ss ≡ effective_total total (length ss))))
      × ((seal_batch total ss).0 ≡ failed
          ↔ ((0 < length ss) × (count is_lost ss ≡ effective_total total (length ss))))
      × ((seal_batch total ss).0 ≡ partial ↔ (
          (0 < count is_success ss)
          × (0 < count is_lost ss)
          × (count is_success ss + count is_lost ss ≡ effective_total total (length ss))))
unfolding seal_batch batch_status
sealed_meaning total ss h =
    let (done, lost) = count_states-count ss in
    let disjoint = count_disjoint ss in
    (
      (λ e. ground arith, λ e. ground arith),
      (λ e. ground arith, λ e. ground arith),
      (λ e. ground arith, λ e. ground arith),
    )
