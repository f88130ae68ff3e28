-- ===== src/Concurrency/Slot/Invariant.antt =====
-- `tenant_slot`: what every move keeps.
use cire_rag.Base.{
  bit, get_elem?, count, count-set, count-get, ℕ, ◌+◌, ◌-◌, ◌≤◌, String, ◌≡◌, refl, ◌∙◌, Bool, true,
  false, ◌&&◌, some, List, [], ◌∷◌, arith, ◌==◌, eq_iff, eq_refl,
}
use cire_rag.Base.Text.{has}
use cire_rag.Concurrency.{
  init, try_acquire_doc_lock, release_doc_lock, Manager, find, slots, find-store, find-remove,
  has-discard, get_semaphore, increment_active_jobs, decrement_active_jobs, get_active_jobs_count,
}
use cire_rag.Concurrency.Slot.{
  Phase, asking, Task, World, Move, Turn, turn, acquire_semaphore, release_semaphore, Step, moves,
  Reach, here, next, holds_doc, holds_global, holds_tenant, is_inside, on_doc, on_global, on_tenant,
  in_body,
}

-- What the semaphore operations do to the slots of every tenant.
slots-get_semaphore : (t k : String) (m : Manager) → slots k (get_semaphore t m) ≡ slots k m
unfolding get_semaphore
slots-get_semaphore t k m =
    ground (arith, eq_iff t k, find-store t k m.per_tenant_limit m.tenant_semaphores)

slots-acquire :
    (t k : String) (m m' : Manager)
    → acquire_semaphore t m ≡ some m'
    → slots k m' + bit (t == k) ≡ slots k m
unfolding acquire_semaphore
slots-acquire t k m m' h = grind (arith, eq_iff t k, find-store)

slots-release :
    (t k : String) (m : Manager) → slots k (release_semaphore t m) ≡ slots k m + bit (t == k)
unfolding release_semaphore
slots-release t k m = ground (arith, eq_iff t k, find-store t k (slots t m + 1) m.tenant_semaphores)

-- The count of a tenant's active jobs.
active-increment :
    (t k : String) (m : Manager)
    → get_active_jobs_count k (increment_active_jobs t m) ≡ get_active_jobs_count k m + bit (t == k)
unfolding increment_active_jobs
active-increment t k m =
    ground (arith, eq_iff t k, find-store t k (get_active_jobs_count t m + 1) m.tenant_active_jobs)

active-decrement :
    (t k : String) (m : Manager)
    → 1 ≤ get_active_jobs_count t m
    → get_active_jobs_count k (decrement_active_jobs t m) + bit (t == k) ≡ get_active_jobs_count k m
unfolding decrement_active_jobs
active-decrement t k m h = ground (
  arith,
  eq_iff t k,
  find-store t k (get_active_jobs_count t m - 1) m.tenant_active_jobs,
  find-remove t k m.tenant_active_jobs,
)

module _ (move : Move) (doc tenant : String) (m : Manager) (g : ℕ) (r : Turn) where
  turn_global :
      (p : Phase)
      → turn p move doc tenant m g ≡ some r
      → r.global_free + bit (holds_global r.phase) ≡ g + bit (holds_global p)
  unfolding turn
  turn_global asking h = ground arith
  turn_global p h = ground arith

  turn_doc :
      (p : Phase) (d : String)
      → (holds_doc p ≡ true → has doc m.active_doc_ids ≡ true)
      → turn p move doc tenant m g ≡ some r
      → bit (has d r.manager.active_doc_ids) + bit (holds_doc p && doc == d)
        ≡ bit (has d m.active_doc_ids) + bit (holds_doc r.phase && doc == d)
  unfolding turn get_semaphore acquire_semaphore release_semaphore try_acquire_doc_lock
      release_doc_lock increment_active_jobs decrement_active_jobs
  turn_doc asking d held h = ground (arith, eq_iff doc d)
  turn_doc p d held h = ground (arith, eq_iff doc d, has-discard doc d m.active_doc_ids)

  turn_tenant :
      (p : Phase) (k : String)
      → turn p move doc tenant m g ≡ some r
      → slots k r.manager + bit (holds_tenant r.phase && tenant == k)
        ≡ slots k m + bit (holds_tenant p && tenant == k)
  unfolding turn try_acquire_doc_lock release_doc_lock increment_active_jobs decrement_active_jobs
  turn_tenant asking k h = ground arith
  turn_tenant p k h = ground (
    arith,
    slots-get_semaphore tenant k m,
    slots-acquire tenant k m r.manager,
    slots-release tenant k m,
  )

  turn_active :
      (p : Phase) (k : String)
      → (is_inside p ≡ true → 1 ≤ get_active_jobs_count tenant m)
      → turn p move doc tenant m g ≡ some r
      → get_active_jobs_count k r.manager + bit (is_inside p && tenant == k)
        ≡ get_active_jobs_count k m + bit (is_inside r.phase && tenant == k)
  unfolding turn try_acquire_doc_lock release_doc_lock get_semaphore acquire_semaphore
      release_semaphore
  turn_active asking k held h = ground arith
  turn_active p k held h = ground (arith, active-increment tenant k m, active-decrement tenant k m)

  turn_limit :
      (p : Phase)
      → turn p move doc tenant m g ≡ some r
      → r.manager.per_tenant_limit ≡ m.per_tenant_limit
  unfolding turn get_semaphore acquire_semaphore release_semaphore try_acquire_doc_lock
      release_doc_lock increment_active_jobs decrement_active_jobs
  turn_limit asking h = ground arith
  turn_limit p h = ground arith

-- The books agree with the tasks: each resource's free part and the tasks that hold it add up.
pub record Balanced (per_tenant global : ℕ) (w : World) : Type 0 where
  pub limit : w.manager.per_tenant_limit ≡ per_tenant
  pub docs : (d : String) → count (on_doc d) w.tasks ≡ bit (has d w.manager.active_doc_ids)
  pub globals : count on_global w.tasks + w.global_free ≡ global
  pub tenants : (k : String) → count (on_tenant k) w.tasks + slots k w.manager ≡ per_tenant
  pub active : (k : String) → count (in_body k) w.tasks ≡ get_active_jobs_count k w.manager

-- A task that holds a document has it in the set, and one inside the body is counted.
module _ {per_tenant global : ℕ} (w : World) (i : ℕ) (t : Task)
    (at_i : get_elem? w.tasks i ≡ some t) (b : Balanced per_tenant global w) where
  held_doc : holds_doc t.phase ≡ true → has t.doc_id w.manager.active_doc_ids ≡ true
  held_doc h =
      ground
        (arith, count-get (on_doc t.doc_id) w.tasks i t at_i, b.docs t.doc_id, eq_refl t.doc_id)

  counted : is_inside t.phase ≡ true → 1 ≤ get_active_jobs_count t.tenant_key w.manager
  counted h = ground (
    arith,
    count-get (in_body t.tenant_key) w.tasks i t at_i,
    b.active t.tenant_key,
    eq_refl t.tenant_key,
  )

-- Every move of every task keeps the books balanced.
Step-Balanced :
    {per_tenant global : ℕ} {w v : World}
    → Step w v
    → Balanced per_tenant global w
    → Balanced per_tenant global v
Step-Balanced {w = w} (moves i t move r at_i moved) b =
    let m = w.manager in
    let g = w.global_free in
    let t' : Task = record t { phase = r.phase } in
    record {
      limit = turn_limit move t.doc_id t.tenant_key m g r t.phase moved ∙ b.limit;
      docs = λ d. omega (
        arith,
        b.docs d,
        count-set (on_doc d) w.tasks i t t' at_i,
        turn_doc move t.doc_id t.tenant_key m g r t.phase d (held_doc w i t at_i b) moved,
      );
      globals = omega (
        arith,
        b.globals,
        count-set on_global w.tasks i t t' at_i,
        turn_global move t.doc_id t.tenant_key m g r t.phase moved,
      );
      tenants = λ k. omega (
        arith,
        b.tenants k,
        count-set (on_tenant k) w.tasks i t t' at_i,
        turn_tenant move t.doc_id t.tenant_key m g r t.phase k moved,
      );
      active = λ k. omega (
        arith,
        b.active k,
        count-set (in_body k) w.tasks i t t' at_i,
        turn_active move t.doc_id t.tenant_key m g r t.phase k (counted w i t at_i b) moved,
      );
    }

pub Reach-Balanced :
    {per_tenant global : ℕ} {w v : World}
    → Balanced per_tenant global w
    → Reach w v
    → Balanced per_tenant global v
Reach-Balanced b here = b
Reach-Balanced b (next r s) = Step-Balanced s (Reach-Balanced b r)

-- A worker that has just started, with tasks that have not yet asked for anything.
abbrev pub all_asking : List (String × String) → List Task
all_asking [] = []
all_asking ((d, k) ∷ rest) = record { doc_id = d; tenant_key = k; phase = asking } ∷ all_asking rest

abbrev pub start : ℕ → ℕ → List (String × String) → World
start per_tenant global jobs = record {
  manager = init per_tenant;
  global_free = global;
  tasks = all_asking jobs;
}

idle :
    (p : Task → Bool) (jobs : List (String × String))
    → ((d k : String) → p (record { doc_id = d; tenant_key = k; phase = asking }) ≡ false)
    → count p (all_asking jobs) ≡ 0
idle p [] none_holds = refl
idle p ((d, k) ∷ rest) none_holds = ground (arith, none_holds d k, idle p rest none_holds)

pub start-Balanced :
    (per_tenant global : ℕ) (jobs : List (String × String))
    → Balanced per_tenant global (start per_tenant global jobs)
unfolding find
start-Balanced per_tenant global jobs = record {
  limit = refl;
  docs = λ d. idle (on_doc d) jobs (λ _ _. refl);
  globals = omega (arith, idle on_global jobs (λ _ _. refl));
  tenants = λ k. omega (arith, idle (on_tenant k) jobs (λ _ _. refl));
  active = λ k. idle (in_body k) jobs (λ _ _. refl);
}
