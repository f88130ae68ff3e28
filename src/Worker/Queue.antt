-- ===== src/Worker/Queue.antt =====
-- The table `job_queue` and what `SupabaseJobStore` does to it. The rows stand in the order of
-- their creation; times are in seconds.
pub mod Laws
use cire_rag.Base.{
  or_default, ltb, if◌then◌else◌, ℕ, ◌+◌, max, String, Bool, true, false, ◌&&◌, Option, none, some,
  List, [], ◌∷◌, ◌==◌,
}
use cire_rag.Concurrency.{Counts, find_or, store}

pub data JobStatus : Type 0 where
  pending processing completed failed : JobStatus

pub record Job : Type 0 where
  pub id : String
  pub job_type : String
  pub status : JobStatus
  pub error_message : Option String
  pub updated_at : ℕ

abbrev pub is_pending : JobStatus → Bool
is_pending pending = true
is_pending _ = false

abbrev pub is_processing : JobStatus → Bool
is_processing processing = true
is_processing _ = false

-- `fetch_next_job` of the database: the oldest pending row of the type becomes `processing`.
unfoldable pub fetch_next_job : String → ℕ → List Job → Option Job × List Job
fetch_next_job job_type now [] = (none, [])
fetch_next_job job_type now (j ∷ jobs) =
    let (found, rest) = fetch_next_job job_type now jobs in
    let claimed = record j { status = processing; updated_at = now } in
    if is_pending j.status && j.job_type == job_type
    then (some claimed, claimed ∷ jobs)
    else (found, j ∷ rest)

-- `update(...)` of the rows that pass the filters.
unfoldable pub update_where : (Job → Bool) → (Job → Job) → List Job → List Job
update_where p f [] = []
update_where p f (j ∷ jobs) = (if p j then f j else j) ∷ update_where p f jobs

unfoldable pub mark_job_final : String → JobStatus → Option String → List Job → List Job
mark_job_final job_id status error jobs =
    update_where (λ j. j.id == job_id) (λ j. record j { status = status; error_message = error })
      jobs

-- `str(error_message or "transient_error")`
abbrev pub error_text : String → String
error_text e = if e == "" then "transient_error" else e

unfoldable pub requeue_job_for_retry : String → String → List Job → List Job
requeue_job_for_retry job_id error jobs =
    update_where (λ j. j.id == job_id && is_processing j.status)
      (λ j. record j { status = pending; error_message = some (error_text error) }) jobs

-- The update of `maybe_requeue_stale_processing_jobs`: rows not touched since the cutoff.
unfoldable pub requeue_stale : String → ℕ → ℕ → List Job → List Job
requeue_stale job_type now stale_seconds jobs =
    update_where
      (λ j.
        j.job_type == job_type && is_processing j.status && ltb (j.updated_at + stale_seconds) now)
      (λ j. record j {
        status = pending;
        error_message = some "stale_processing_requeued_by_worker";
      })
      jobs

-- The update of `_job_heartbeat_loop`.
unfoldable pub heartbeat : String → ℕ → List Job → List Job
heartbeat job_id now jobs =
    update_where (λ j. j.id == job_id && is_processing j.status)
      (λ j. record j { updated_at = now }) jobs

-- The settings of the store, with the defaults and the `max` of the constructor.
pub record Settings : Type 0 where
  pub requeue_stale_interval : ℕ
  pub requeue_stale_processing : ℕ

abbrev pub interval_seconds : Settings → ℕ
interval_seconds s = max 5 (or_default s.requeue_stale_interval 15)

abbrev pub stale_seconds : Settings → ℕ
stale_seconds s = max 30 (or_default s.requeue_stale_processing 120)

pub record Store : Type 0 where
  pub last_stale_requeue_at : Counts
  pub jobs : List Job

-- `maybe_requeue_stale_processing_jobs`; `monotonic` is the worker's clock and `stored` tells
-- whether the database took the update, whose failure is only logged.
unfoldable pub maybe_requeue_stale : Settings → String → ℕ → ℕ → Bool → Store → Store
maybe_requeue_stale s job_type monotonic now stored st =
    let last = find_or 0 job_type st.last_stale_requeue_at in
    let noted = store job_type monotonic st.last_stale_requeue_at in
    if ltb monotonic (last + interval_seconds s) then st else record {
      last_stale_requeue_at = noted;
      jobs = if stored then requeue_stale job_type now (stale_seconds s) st.jobs else st.jobs;
    }

-- The status of the job with an id.
unfoldable pub status_of : String → List Job → Option JobStatus
status_of i [] = none
status_of i (j ∷ jobs) = if j.id == i then some j.status else status_of i jobs
