-- ===== src/Concurrency/Slot/Safety.antt =====
-- `tenant_slot`: what every interleaving of the tasks guarantees.
use cire_rag.Base.{
  bit, count, All, ℕ, ◌≤◌, String, ◌≡◌, refl, sym, ◌∙◌, Bool, true, false, List, [], ◌∷◌, arith,
}
use cire_rag.Base.Text.{has}
use cire_rag.Concurrency.{slots, get_active_jobs_count}
use cire_rag.Concurrency.Slot.{
  Phase, refused, done, inside, Task, World, Reach, holds_doc, holds_global, holds_tenant,
  is_inside, on_doc, on_global, on_tenant, in_body,
}
use cire_rag.Concurrency.Slot.Invariant.{Balanced, Reach-Balanced, start, start-Balanced}

count_mono :
    (p q : Task → Bool) (ts : List Task)
    → ((t : Task) → p t ≡ true → q t ≡ true)
    → count p ts ≤ count q ts
count_mono p q [] sub = omega arith
count_mono p q (t ∷ ts) sub = ground (arith, sub t, count_mono p q ts sub)

inside_holds : (p : Phase) → is_inside p ≡ true → (holds_tenant p ≡ true) × (holds_global p ≡ true)
inside_holds inside h = (refl, refl)
inside_holds p h = ground arith

count_none : (p : Task → Bool) (ts : List Task) → All (λ t. p t ≡ false) ts → count p ts ≡ 0
count_none p [] h = refl
count_none p (t ∷ ts) h = ground (arith, count_none p ts h.1)

-- A task that has ended, with its document processed or refused.
abbrev pub has_ended : Phase → Bool
has_ended done = true
has_ended refused = true
has_ended _ = false

All-map : (P Q : Task → Type 0) (ts : List Task) → ((t : Task) → P t → Q t) → All P ts → All Q ts
All-map P Q [] f h = tt
All-map P Q (t ∷ ts) f h = (f t h.0, All-map P Q ts f h.1)

ended_holds_nothing :
    (p : Phase)
    → has_ended p ≡ true
    → (holds_doc p ≡ false)
      × (holds_global p ≡ false)
      × (holds_tenant p ≡ false)
      × (is_inside p ≡ false)
ended_holds_nothing done h = (refl, refl, refl, refl)
ended_holds_nothing p h = ground arith

no_true : (b : Bool) → 0 ≡ bit b → b ≡ false
no_true b h = ground arith

module _ (per_tenant global : ℕ) (jobs : List (String × String)) (w : World)
    (run : Reach (start per_tenant global jobs) w) where
  books : Balanced per_tenant global w
  books = Reach-Balanced (start-Balanced per_tenant global jobs) run

  -- In every world that a worker reaches from its start, whatever the order in which its tasks move
  -- and are interrupted, at most one task holds a document.
  pub one_holder : (d : String) → count (on_doc d) w.tasks ≤ 1
  one_holder d = ground (arith, books.docs d)

  -- In every reachable world the number of a tenant's tasks in the body is the tenant's count of
  -- active jobs and at most the limit per tenant, and the tasks in the bodies of all tenants are at
  -- most the global limit.
  pub bodies_bounded :
      (k : String)
      → (count (in_body k) w.tasks ≡ get_active_jobs_count k w.manager)
        × (count (in_body k) w.tasks ≤ per_tenant)
        × (count (λ t. is_inside t.phase) w.tasks ≤ global)
  bodies_bounded k = (
    books.active k,
    omega (
      arith,
      books.tenants k,
      count_mono (in_body k) (on_tenant k) w.tasks (λ t h. ground (arith, inside_holds t.phase)),
    ),
    omega (
      arith,
      books.globals,
      count_mono (λ t. is_inside t.phase) on_global w.tasks (λ t h. (inside_holds t.phase h).1),
    ),
  )

  -- When all tasks of a reachable world have ended, no document is locked, every slot of the global
  -- and of each tenant's semaphore is free, and no tenant has an active job, also where tasks were
  -- interrupted.
  pub nothing_leaks :
      All (λ t. has_ended t.phase ≡ true) w.tasks
      → (w.global_free ≡ global)
        × ((d : String) → has d w.manager.active_doc_ids ≡ false)
        × ((k : String) → slots k w.manager ≡ per_tenant)
        × ((k : String) → get_active_jobs_count k w.manager ≡ 0)
  nothing_leaks ended = (
    omega (arith, books.globals, free on_global (λ t h. (ended_holds_nothing t.phase h).1)),
    λ d. no_true _ (
        sym (free (on_doc d) (λ t h. ground (arith, ended_holds_nothing t.phase h)))
        ∙ books.docs d),
    λ k. omega (
      arith,
      books.tenants k,
      free (on_tenant k) (λ t h. ground (arith, ended_holds_nothing t.phase h)),
    ),
    λ k.
        sym (books.active k)
        ∙ free (in_body k) (λ t h. ground (arith, ended_holds_nothing t.phase h)),
  )
    where
      free :
          (p : Task → Bool)
          → ((t : Task) → has_ended t.phase ≡ true → p t ≡ false)
          → count p w.tasks ≡ 0
      free p f =
          count_none p w.tasks
            (All-map (λ t. has_ended t.phase ≡ true) (λ t. p t ≡ false) w.tasks f ended)
