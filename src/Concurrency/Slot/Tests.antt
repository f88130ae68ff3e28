-- ===== src/Concurrency/Slot/Tests.antt =====
-- Two tasks of one tenant and one of another, with one slot per tenant.
use cire_rag.Base.Text.{has}
use cire_rag.Base.{count, All, ◌≤◌, String, ◌≡◌, refl, true, false, List, [], ◌∷◌, arith}
use cire_rag.Concurrency.{
  slots, Manager, find, store, remove, get_semaphore, get_active_jobs_count, discard,
  try_acquire_doc_lock, release_doc_lock, increment_active_jobs, decrement_active_jobs, init,
}
use cire_rag.Concurrency.Slot.{
  global_released, done, interrupt, asking, locked, Task, World, go, Turn, turn, acquire_semaphore,
  release_semaphore, moves, Reach, here, next, after, on_doc, in_body, is_inside,
}
use cire_rag.Concurrency.Slot.Invariant.{start}
use cire_rag.Concurrency.Slot.Safety.{has_ended, nothing_leaks, one_holder, bodies_bounded}
use cire_rag.Concurrency.Slot.Progress.{never_stuck, CanGo}
use cire_rag.Concurrency.Slot.Ending.{tasks_end, Goes}

program : Unit {0}
unfolding find store remove discard get_semaphore try_acquire_doc_lock release_doc_lock
    increment_active_jobs decrement_active_jobs turn acquire_semaphore release_semaphore
program = tt

abbrev jobs : List (String × String)
jobs = ("a", "t") ∷ ("b", "t") ∷ ("a", "u") ∷ []

abbrev w0 : World
w0 = start 1 2 jobs

abbrev first : Task
first = record { doc_id = "a"; tenant_key = "t"; phase = asking }

abbrev taken : Manager
taken = record (init 1) { active_doc_ids = "a" ∷ [] }

abbrev r1 : Turn
r1 = record { phase = locked; manager = taken; global_free = 2 }

abbrev w1 : World
w1 = after w0 0 first r1

run1 : Reach w0 w1
unfolding program
run1 = next here (moves 0 first go r1 refl refl)

one_holder_example : count (on_doc "a") w1.tasks ≤ 1
one_holder_example = one_holder 1 2 jobs w1 run1 "a"

bodies_bounded_example :
    (count (in_body "t") w1.tasks ≡ get_active_jobs_count "t" w1.manager)
    × (count (in_body "t") w1.tasks ≤ 1)
    × (count (λ t. is_inside t.phase) w1.tasks ≤ 2)
bodies_bounded_example = bodies_bounded 1 2 jobs w1 run1 "t"

abbrev lone : List (String × String)
lone = ("a", "t") ∷ []

never_stuck_example : CanGo w1
never_stuck_example =
    never_stuck 1 2 jobs w1 0 (record first { phase = locked }) (omega arith) (omega arith) run1
      refl refl

tasks_end_example :
    (v : World) × Goes w1 v
    × All (λ t. has_ended t.phase ≡ true) v.tasks
    × (v.global_free ≡ 2)
    × ((d : String) → has d v.manager.active_doc_ids ≡ false)
    × ((k : String) → slots k v.manager ≡ 1)
    × ((k : String) → get_active_jobs_count k v.manager ≡ 0)
tasks_end_example = tasks_end 1 2 jobs w1 (omega arith) (omega arith) run1

-- One task, interrupted while it waits for the global semaphore.
abbrev v1 : World
v1 = after (start 1 2 lone) 0 first r1

abbrev r2 : Turn
r2 = record { phase = global_released; manager = taken; global_free = 2 }

abbrev v2 : World
v2 = after v1 0 (record first { phase = locked }) r2

abbrev r3 : Turn
r3 = record { phase = done; manager = init 1; global_free = 2 }

abbrev v3 : World
v3 = after v2 0 (record first { phase = global_released }) r3

run3 : Reach (start 1 2 lone) v3
unfolding program
run3 =
    next
      (next (next here (moves 0 first go r1 refl refl))
        (moves 0 (record first { phase = locked }) interrupt r2 refl refl))
      (moves 0 (record first { phase = global_released }) go r3 refl refl)

nothing_leaks_example :
    (v3.global_free ≡ 2)
    × ((d : String) → has d v3.manager.active_doc_ids ≡ false)
    × ((k : String) → slots k v3.manager ≡ 1)
    × ((k : String) → get_active_jobs_count k v3.manager ≡ 0)
nothing_leaks_example = nothing_leaks 1 2 lone v3 run3 (refl, tt)
