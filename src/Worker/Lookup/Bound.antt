-- ===== src/Worker/Lookup/Bound.antt =====
-- The lookups of a source document are retried a bounded number of times.
use cire_rag.Base.{
  ltb, if◌then◌else◌, ℕ, zero, suc, ◌+◌, ◌≤◌, String, ◌≡◌, true, none, arith, eq_refl,
}
use cire_rag.Concurrency.{Counts, find_or, store, find-store, find-remove}
use cire_rag.Worker.Lookup.{transient_error, record_of, cancelled, load_record_with_retries}

-- The requeue counts after `n` transient errors of one job in a row, each requeued.
unfoldable pub after_failures : ℕ → String → ℕ → Counts → Counts
after_failures limit job_id zero counts = counts
after_failures limit job_id (suc n) counts =
    (load_record_with_retries limit job_id transient_error true
      (after_failures limit job_id n counts)).requeues

counted :
    (limit : ℕ) (job_id : String) (n : ℕ) (counts : Counts)
    → find_or 0 job_id counts ≡ 0
    → n ≤ limit
    → find_or 0 job_id (after_failures limit job_id n counts) ≡ n
unfolding after_failures load_record_with_retries
counted limit job_id zero counts none_yet h = none_yet
counted limit job_id (suc n) counts none_yet h =
    let c = after_failures limit job_id n counts in
    ground (
      arith,
      counted limit job_id n counts none_yet (omega arith),
      find-store job_id job_id (find_or 0 job_id c + 1) c,
      eq_refl job_id,
    )

-- From a job with no count, each of the first `limit` transient errors in a row requeues the job and
-- cancels the handler; the next one does not requeue it, but hands on a missing record and forgets
-- the count.
lookups_are_bounded :
    (limit : ℕ) (job_id : String) (n : ℕ) (counts : Counts)
    → find_or 0 job_id counts ≡ 0
    → n ≤ limit
    → ((load_record_with_retries limit job_id transient_error true
          (after_failures limit job_id n counts)).result
        ≡ (if ltb n limit then cancelled else record_of none))
      × ((load_record_with_retries limit job_id transient_error true
            (after_failures limit job_id n counts)).requeued
          ≡ ltb n limit)
      × (find_or 0 job_id
            (load_record_with_retries limit job_id transient_error true
              (after_failures limit job_id n counts)).requeues
          ≡ (if ltb n limit then n + 1 else 0))
unfolding load_record_with_retries
lookups_are_bounded limit job_id n counts none_yet h =
    let c = after_failures limit job_id n counts in
    let k = find_or 0 job_id c + 1 in
    let so_far = counted limit job_id n counts none_yet h in
    (
      ground (arith, so_far),
      ground (arith, so_far),
      ground (
        arith,
        so_far,
        find-store job_id job_id k c,
        find-remove job_id job_id (store job_id k c),
        eq_refl job_id,
      ),
    )
