-- ===== src/Worker/Poller/Laws.antt =====
-- The poll loop: what one round leaves in the table, and when the loop ends.
use cire_rag.Base.{
  if◌then◌else◌, All, ℕ, ◌+◌, String, ◌≡◌, refl, ap, ◌∙◌, ◌≢◌, true, false, Option, none, some,
  List, [], ◌∷◌, arith, ◌==◌, eq_iff, eq_refl,
}
use cire_rag.Base.Text.{Distinct}
use cire_rag.Worker.Queue
use cire_rag.Worker.Queue.{
  JobStatus, pending, processing, completed, failed, Job, Store, fetch_next_job, update_where,
  mark_job_final, requeue_job_for_retry, maybe_requeue_stale, status_of,
}
use cire_rag.Worker.Queue.Laws.{ids, fetch_claims}
use cire_rag.Worker.Dispatch.{Outcome, returned, stopped, interrupted}
use cire_rag.Worker.Poller.{
  arrived, Round, Calls, mark_failed, run_job, after_claim, after_fetch, process_one_job,
  run_job_loop,
}

-- A present status replaced.
abbrev replaced : JobStatus → Option JobStatus → Option JobStatus
replaced s none = none
replaced s (some t) = some s

status_of-mark :
    (k i : String) (s : JobStatus) (e : Option String) (jobs : List Job)
    → status_of i (mark_job_final k s e jobs)
      ≡ (if i == k then replaced s (status_of i jobs) else status_of i jobs)
unfolding mark_job_final update_where status_of
status_of-mark k i s e [] = ground arith
status_of-mark k i s e (j ∷ jobs) =
    ground (arith, eq_iff j.id k, eq_iff j.id i, eq_iff i k, status_of-mark k i s e jobs)

status_of-requeue_apart :
    (k i e : String) (jobs : List Job)
    → (i == k) ≡ false
    → status_of i (requeue_job_for_retry k e jobs) ≡ status_of i jobs
unfolding requeue_job_for_retry update_where status_of
status_of-requeue_apart k i e [] h = refl
status_of-requeue_apart k i e (j ∷ jobs) h =
    ground (arith, eq_iff j.id k, eq_iff j.id i, eq_iff i k, status_of-requeue_apart k i e jobs h)

status_of-requeue :
    (k i e : String) (jobs : List Job)
    → status_of k jobs ≡ some processing
    → status_of i (requeue_job_for_retry k e jobs)
      ≡ (if i == k then some pending else status_of i jobs)
unfolding requeue_job_for_retry update_where status_of
status_of-requeue k i e [] h = absurd (ground arith)
status_of-requeue k i e (j ∷ jobs) h =
    let there = status_of-requeue k i e jobs in
    let apart = status_of-requeue_apart k i e jobs in
    ground (arith, eq_iff j.id k, eq_iff j.id i, eq_iff i k, there, apart)

-- The mark that a handler's end asks for.
abbrev pub mark_of : Outcome → JobStatus
mark_of (returned ok) = completed
mark_of Outcome.failed = JobStatus.failed
mark_of stopped = pending
mark_of interrupted = processing

run_job_settles :
    (j : Job) (c : Calls) (jobs : List Job) (i : String)
    → status_of j.id jobs ≡ some processing
    → c.first_mark ≡ true
    → c.second_mark ≡ true
    → status_of i (run_job j c jobs).1
      ≡ (if i == j.id then some (mark_of c.outcome) else status_of i jobs)
unfolding run_job mark_failed
run_job_settles j c jobs i h first second = ground (
  arith,
  eq_iff i j.id,
  status_of-mark j.id i completed none jobs,
  status_of-mark j.id i JobStatus.failed (some c.error) jobs,
  status_of-requeue j.id i c.error jobs h,
)

-- A round whose fetch arrives with a job is the run of that job.
abbrev pub with_jobs : Store → Round × List Job → Round × Store
with_jobs st (r, jobs) = (r, record st { jobs = jobs })

pub round_with_job :
    (s : Queue.Settings) (ty : String) (c : Calls) (st : Store) (j : Job)
    → (fetch_next_job ty c.now
        (maybe_requeue_stale s ty c.monotonic c.now c.requeue_stored st).jobs).0
      ≡ some j
    → c.fetched ≡ arrived
    → process_one_job s ty c st
      ≡ with_jobs (maybe_requeue_stale s ty c.monotonic c.now c.requeue_stored st) (
          run_job j c
            (fetch_next_job ty c.now
              (maybe_requeue_stale s ty c.monotonic c.now c.requeue_stored st).jobs).1)
unfolding process_one_job after_fetch after_claim
round_with_job s ty c st j h fetched =
    let swept = maybe_requeue_stale s ty c.monotonic c.now c.requeue_stored st in
    let (job, jobs) = fetch_next_job ty c.now swept.jobs in
    ap (λ f. after_fetch f job c swept (record swept { jobs = jobs })) fetched
    ∙ ap (λ o. after_claim o c (record swept { jobs = jobs })) h

-- Where ids are unique and the calls succeed, a round that claims a job leaves it completed if the
-- handler returned, whatever it returned, failed if the handler raised, pending if it was requeued,
-- and processing if its handler was cancelled; the status of every other job is what the sweep for stale jobs left.
pub round_settles :
    (s : Queue.Settings) (ty : String) (c : Calls) (st : Store) (j : Job) (i : String)
    → Distinct (ids (maybe_requeue_stale s ty c.monotonic c.now c.requeue_stored st).jobs)
    → (fetch_next_job ty c.now
        (maybe_requeue_stale s ty c.monotonic c.now c.requeue_stored st).jobs).0
      ≡ some j
    → c.fetched ≡ arrived
    → c.first_mark ≡ true
    → c.second_mark ≡ true
    → status_of i (process_one_job s ty c st).1.jobs ≡ (
        if i == j.id
        then some (mark_of c.outcome)
        else status_of i (maybe_requeue_stale s ty c.monotonic c.now c.requeue_stored st).jobs)
unfolding process_one_job
round_settles s ty c st j i d h fetched first second =
    let swept = maybe_requeue_stale s ty c.monotonic c.now c.requeue_stored st in
    let claimed = (fetch_next_job ty c.now swept.jobs).1 in
    let (_, _, mine) = fetch_claims ty c.now swept.jobs j j.id d h in
    let (_, _, others) = fetch_claims ty c.now swept.jobs j i d h in
    let settled = run_job_settles j c claimed i (ground (arith, eq_refl j.id)) first second in
    rw (round_with_job s ty c st j h fetched) (ground (arith, settled, others))

-- Where no handler of the coming rounds ends in a cancellation, the loop still runs after them,
-- whatever the handlers raise and whichever calls of the store fail.
loop_runs_on :
    (s : Queue.Settings) (ty : String) (cs : List Calls) (errors : ℕ) (st : Store)
    → All (λ c. (c.outcome ≢ stopped) × (c.outcome ≢ interrupted)) cs
    → (run_job_loop s ty cs errors st).0 ≡ true
unfolding run_job_loop process_one_job after_fetch after_claim run_job mark_failed
loop_runs_on s ty [] errors st h = refl
loop_runs_on s ty (c ∷ cs) errors st h =
    let next = (process_one_job s ty c st).1 in
    ground (
      arith,
      loop_runs_on s ty cs 0 next h.1,
      loop_runs_on s ty cs errors next h.1,
      loop_runs_on s ty cs (errors + 1) next h.1,
    )
