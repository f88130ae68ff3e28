-- ===== src/Worker/Queue/Laws.antt =====
-- The job queue: who may change a job's status.
use cire_rag.Base.{
  if◌then◌else◌, Bool-cases, ℕ, ◌+◌, ◌≤◌, String, ◌≡◌, refl, ◌≢◌, inl, inr, Bool, true, false, ◌&&◌,
  Option, none, some, List, [], ◌∷◌, map, arith, ◌==◌, eq_iff, eq_refl,
}
use cire_rag.Base.Text.{has, Distinct}
use cire_rag.Worker.Queue.{
  JobStatus, pending, processing, Job, is_pending, fetch_next_job, update_where,
  requeue_job_for_retry, requeue_stale, heartbeat, status_of,
}

abbrev pub ids : List Job → List String
ids = map (λ j. j.id)

status_of_absent :
    (i : String) (jobs : List Job) → has i (ids jobs) ≡ false → status_of i jobs ≡ none
unfolding status_of
status_of_absent i [] h = refl
status_of_absent i (j ∷ jobs) h = ground (arith, status_of_absent i jobs)

has_of_fetch :
    (ty : String) (now : ℕ) (jobs : List Job) (j : Job)
    → (fetch_next_job ty now jobs).0 ≡ some j
    → has j.id (ids jobs) ≡ true
unfolding fetch_next_job
has_of_fetch ty now [] j h = absurd (ground arith)
has_of_fetch ty now (x ∷ jobs) j h = ground (arith, has_of_fetch ty now jobs j, eq_refl x.id)

-- Where ids are unique, a fetch that returns a job found it pending and of the asked type, leaves it
-- processing, and changes the status of no other job.
pub fetch_claims :
    (ty : String) (now : ℕ) (jobs : List Job) (j : Job) (i : String)
    → Distinct (ids jobs)
    → (fetch_next_job ty now jobs).0 ≡ some j
    → (status_of j.id jobs ≡ some pending)
      × (j.job_type ≡ ty)
      × (status_of i (fetch_next_job ty now jobs).1
          ≡ (if i == j.id then some processing else status_of i jobs))
unfolding fetch_next_job status_of
fetch_claims ty now [] j i d h = absurd (ground arith)
fetch_claims ty now (x ∷ jobs) j i d h =
    elim (Bool-cases (is_pending x.status && x.job_type == ty)) [
      | inl hit ↦ (
        ground (arith, eq_iff x.job_type ty, eq_refl x.id),
        ground (arith, eq_iff x.job_type ty),
        ground (arith, eq_iff i x.id, eq_iff x.id i),
      )
      | inr miss ↦
          let (was, kind, others) = fetch_claims ty now jobs j i d.1 (ground arith) in
          let there = has_of_fetch ty now jobs j (ground arith) in
          (
            ground (arith, eq_iff x.id j.id),
            kind,
            ground (arith, eq_iff x.id j.id, eq_iff x.id i, eq_iff i j.id),
          )
    ]

-- An update that keeps ids, and keeps the status `s` where it applies.
update_keeps :
    (p : Job → Bool) (f : Job → Job) (s : JobStatus) (i : String) (jobs : List Job)
    → ((j : Job) → (f j).id ≡ j.id)
    → ((j : Job) → p j ≡ true → j.id ≡ i → j.status ≡ s → (f j).status ≡ s)
    → status_of i jobs ≡ some s
    → status_of i (update_where p f jobs) ≡ some s
unfolding update_where status_of
update_keeps p f s i [] keeps_id keeps h = h
update_keeps p f s i (j ∷ jobs) keeps_id keeps h =
    ground (arith, keeps_id j, keeps j, update_keeps p f s i jobs keeps_id keeps, eq_iff j.id i)

fetch_keeps :
    (ty : String) (now : ℕ) (s : JobStatus) (i : String) (jobs : List Job)
    → s ≢ pending
    → status_of i jobs ≡ some s
    → status_of i (fetch_next_job ty now jobs).1 ≡ some s
unfolding fetch_next_job status_of
fetch_keeps ty now s i [] ne h = h
fetch_keeps ty now s i (j ∷ jobs) ne h = ground (arith, fetch_keeps ty now s i jobs ne)

-- What the workers do to the table besides the final mark of a job.
pub data Op : Type 0 where
  fetch : String → ℕ → Op
  requeue : String → String → Op
  stale : String → ℕ → ℕ → Op
  beat : String → ℕ → Op

abbrev pub apply : Op → List Job → List Job
apply (fetch ty now) jobs = (fetch_next_job ty now jobs).1
apply (requeue i e) jobs = requeue_job_for_retry i e jobs
apply (stale ty now n) jobs = requeue_stale ty now n jobs
apply (beat i now) jobs = heartbeat i now jobs

abbrev pub apply_all : List Op → List Job → List Job
apply_all [] jobs = jobs
apply_all (o ∷ ops) jobs = apply_all ops (apply o jobs)

op_keeps :
    (o : Op) (s : JobStatus) (i : String) (jobs : List Job)
    → s ≢ pending
    → s ≢ processing
    → status_of i jobs ≡ some s
    → status_of i (apply o jobs) ≡ some s
unfolding requeue_job_for_retry requeue_stale heartbeat
op_keeps (fetch ty now) s i jobs ne np h = fetch_keeps ty now s i jobs ne h
op_keeps (requeue k e) s i jobs ne np h =
    update_keeps _ _ s i jobs (λ j. refl) (λ j hit at_i st. absurd (ground arith)) h
op_keeps (stale ty now n) s i jobs ne np h =
    update_keeps _ _ s i jobs (λ j. refl) (λ j hit at_i st. absurd (ground arith)) h
op_keeps (beat k now) s i jobs ne np h =
    update_keeps _ _ s i jobs (λ j. refl) (λ j hit at_i st. st) h

-- A job that is completed or failed stays so through any sequence of fetches, requeues, stale
-- requeues and heartbeats of any workers.
pub finished_stays :
    (ops : List Op) (s : JobStatus) (i : String) (jobs : List Job)
    → s ≢ pending
    → s ≢ processing
    → status_of i jobs ≡ some s
    → status_of i (apply_all ops jobs) ≡ some s
finished_stays [] s i jobs ne np h = h
finished_stays (o ∷ ops) s i jobs ne np h =
    finished_stays ops s i (apply o jobs) ne np (op_keeps o s i jobs ne np h)

-- The time of the last update of the job with an id.
abbrev pub touched : String → List Job → Option ℕ
touched i [] = none
touched i (j ∷ jobs) = if j.id == i then some j.updated_at else touched i jobs

-- A job whose heartbeat is younger than the stale limit is not requeued by `requeue_stale`.
fresh_heartbeat_protects :
    (ty : String) (now n t : ℕ) (i : String) (jobs : List Job)
    → status_of i jobs ≡ some processing
    → touched i jobs ≡ some t
    → now ≤ t + n
    → status_of i (requeue_stale ty now n jobs) ≡ some processing
unfolding requeue_stale update_where status_of
fresh_heartbeat_protects ty now n t i [] h at_t young = h
fresh_heartbeat_protects ty now n t i (j ∷ jobs) h at_t young =
    ground (arith, fresh_heartbeat_protects ty now n t i jobs)
