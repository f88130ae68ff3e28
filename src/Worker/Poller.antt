-- ===== src/Worker/Poller.antt =====
-- app/infrastructure/queue/base_worker.py: `BaseWorkerProcessor`, over the job table. A round is the
-- work of one poller alone: what others do meanwhile are the operations of `Queue`, in any order.
pub mod Laws
pub mod Failures
use cire_rag.Base.{
  if◌then◌else◌, ℕ, ◌+◌, String, Bool, true, false, Option, none, some, List, [], ◌∷◌,
}
use cire_rag.Worker.Queue.{
  JobStatus, completed, failed, Job, Store, Settings, fetch_next_job, mark_job_final,
  requeue_job_for_retry, maybe_requeue_stale,
}
use cire_rag.Worker.Dispatch.{Outcome, returned, stopped, interrupted}

-- How `_process_one_job` ends: its Boolean, an exception that it lets out, or a cancellation.
pub data Round : Type 0 where
  processed : Bool → Round
  escaped : Round
  ended : Round

-- How the claim of a job ends: with the database's answer, with an answer that is lost, or before it
-- reaches the table. The last two raise.
pub data Fetch : Type 0 where
  arrived lost unreached : Fetch

-- What the calls of one round answer. The marks tell whether the updates are stored; each raises if
-- not.
pub record Calls : Type 0 where
  pub monotonic : ℕ
  pub now : ℕ
  pub requeue_stored : Bool
  pub fetched : Fetch
  pub outcome : Outcome
  pub error : String
  pub first_mark : Bool
  pub second_mark : Bool

-- `mark_job_final` of the last resort: its exception leaves the round.
unfoldable pub mark_failed : Job → Calls → List Job → Round × List Job
mark_failed j c jobs =
    if c.second_mark
    then (processed true, mark_job_final j.id JobStatus.failed (some c.error) jobs)
    else (escaped, jobs)

-- The round with a job: the handler, and the mark of its end. Every dictionary that a handler
-- returns marks the job completed. A cancellation is not an
-- `Exception`: after that of a lookup, before which the handler has requeued the job, and after one
-- that comes during the processing, nothing is marked. `error` is the text of an exception.
unfoldable pub run_job : Job → Calls → List Job → Round × List Job
run_job j c jobs = elim c.outcome [
  | returned ok ↦
      if c.first_mark
      then (processed true, mark_job_final j.id completed none jobs)
      else mark_failed j c jobs
  | Outcome.failed ↦ mark_failed j c jobs
  | stopped ↦ (ended, requeue_job_for_retry j.id c.error jobs)
  | interrupted ↦ (ended, jobs)
]

-- The round after the claim.
unfoldable pub after_claim : Option Job → Calls → Store → Round × Store
after_claim none c st = (processed false, st)
after_claim (some j) c st = let (r, jobs) = run_job j c st.jobs in (r, record st { jobs = jobs })

-- The end of a round by the end of its claim, from the table before it and after it.
unfoldable pub after_fetch : Fetch → Option Job → Calls → Store → Store → Round × Store
after_fetch arrived job c swept claimed = after_claim job c claimed
after_fetch lost job c swept claimed = (escaped, claimed)
after_fetch unreached job c swept claimed = (escaped, swept)

unfoldable pub process_one_job : Settings → String → Calls → Store → Round × Store
process_one_job s job_type c st =
    let swept = maybe_requeue_stale s job_type c.monotonic c.now c.requeue_stored st in
    let (job, jobs) = fetch_next_job job_type c.now swept.jobs in
    after_fetch c.fetched job c swept (record swept { jobs = jobs })

-- `run_job_loop` over the rounds to come: whether it still runs after them, its count of
-- consecutive errors and the table. An empty round leaves the count as it is.
unfoldable pub run_job_loop : Settings → String → List Calls → ℕ → Store → Bool × ℕ × Store
run_job_loop s job_type [] errors st = (true, errors, st)
run_job_loop s job_type (c ∷ cs) errors st =
    let (r, next) = process_one_job s job_type c st in
    let ok = run_job_loop s job_type cs 0 next in
    let idle = run_job_loop s job_type cs errors next in
    let bad = run_job_loop s job_type cs (errors + 1) next in
    elim r [
      | processed true ↦ ok
      | processed false ↦ idle
      | escaped ↦ bad
      | ended ↦ (false, errors, next)
    ]
