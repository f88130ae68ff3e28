-- ===== src/Concurrency/Slot.antt =====
-- tenant_concurrency_manager.py: `tenant_slot`, for any number of tasks that run at once.
-- A task stops only where it waits for a semaphore or runs the body of the `async with`, so each
-- move of a task takes it from one such point to the next.
pub mod Invariant
pub mod Safety
pub mod Progress
pub mod Ending
mod Tests
use cire_rag.Base.{
  if◌then◌else◌, get_elem?, set, ℕ, zero, suc, ◌+◌, String, ◌≡◌, Bool, true, false, ◌&&◌, Option,
  none, some, List, ◌==◌,
}
use cire_rag.Concurrency.{
  Manager, Counts, find, find_or, store, slots, get_semaphore, try_acquire_doc_lock,
  release_doc_lock, increment_active_jobs, decrement_active_jobs,
}

-- Where a task stands. `tenant_held` is between the tenant's semaphore and the counting, `inside`
-- is at the `yield`, and the last four leave the nested blocks.
pub data Phase : Type 0 where
  asking refused locked global_held queued tenant_held inside : Phase
  leaving tenant_released global_released done : Phase

pub record Task : Type 0 where
  pub doc_id : String
  pub tenant_key : String
  pub phase : Phase

pub record World : Type 0 where
  pub manager : Manager
  pub global_free : ℕ
  pub tasks : List Task

-- `go` is the next step of the coroutine; `interrupt` is an exception at a wait or in the body.
pub data Move : Type 0 where
  go interrupt : Move

-- `await sem.acquire()` when it does not have to wait.
unfoldable pub acquire_semaphore : String → Manager → Option Manager
acquire_semaphore tenant m = elim (slots tenant m) [
  | zero ↦ none
  | suc n ↦ some (record m { tenant_semaphores = store tenant n m.tenant_semaphores })
]

-- `sem.release()`
unfoldable pub release_semaphore : String → Manager → Manager
release_semaphore tenant m = record m {
  tenant_semaphores = store tenant (slots tenant m + 1) m.tenant_semaphores;
}

-- The state that a task's move leaves, with its new phase.
pub record Turn : Type 0 where
  pub phase : Phase
  pub manager : Manager
  pub global_free : ℕ

-- One move; `none` where the task waits or has ended.
unfoldable pub turn : Phase → Move → String → String → Manager → ℕ → Option Turn
turn asking go doc tenant m g =
    let (m', taken) = try_acquire_doc_lock doc m in
    some (record { phase = if taken then locked else refused; manager = m'; global_free = g })
turn locked go doc tenant m zero = none
turn locked go doc tenant m (suc g) =
    some (record { phase = global_held; manager = m; global_free = g })
turn locked interrupt doc tenant m g =
    some (record { phase = global_released; manager = m; global_free = g })
turn global_held go doc tenant m g =
    some (record { phase = queued; manager = get_semaphore tenant m; global_free = g })
turn queued go doc tenant m g = elim (acquire_semaphore tenant m) [
  | none ↦ none
  | some m' ↦ some (record { phase = tenant_held; manager = m'; global_free = g })
]
turn queued interrupt doc tenant m g =
    some (record { phase = tenant_released; manager = m; global_free = g })
turn tenant_held go doc tenant m g =
    some (record { phase = inside; manager = increment_active_jobs tenant m; global_free = g })
turn inside move doc tenant m g =
    some (record { phase = leaving; manager = decrement_active_jobs tenant m; global_free = g })
turn leaving go doc tenant m g =
    some (record { phase = tenant_released; manager = release_semaphore tenant m; global_free = g })
turn tenant_released go doc tenant m g =
    some (record { phase = global_released; manager = m; global_free = g + 1 })
turn global_released go doc tenant m g =
    some (record { phase = done; manager = release_doc_lock doc m; global_free = g })
turn _ _ doc tenant m g = none

-- The world after a move of the task at position `i`.
abbrev pub after : World → ℕ → Task → Turn → World
after w i t r = record {
  manager = r.manager;
  global_free = r.global_free;
  tasks = set w.tasks i (record t { phase = r.phase });
}

abbrev pub attempt : World → Move → Task → Option Turn
attempt w move t = turn t.phase move t.doc_id t.tenant_key w.manager w.global_free

-- One move of one task. Any task may move next.
pub data Step (w : World) : World → Type 0 where
  moves :
      (i : ℕ) (t : Task) (move : Move) (r : Turn)
      → get_elem? w.tasks i ≡ some t
      → attempt w move t ≡ some r
      → Step w (after w i t r)

pub data Reach (w : World) : World → Type 0 where
  here : Reach w w
  next : {u v : World} → Reach w u → Step u v → Reach w v

-- What a phase holds.
abbrev pub holds_doc : Phase → Bool
holds_doc asking = false
holds_doc refused = false
holds_doc done = false
holds_doc _ = true

abbrev pub holds_global : Phase → Bool
holds_global global_held = true
holds_global queued = true
holds_global tenant_held = true
holds_global inside = true
holds_global leaving = true
holds_global tenant_released = true
holds_global _ = false

abbrev pub holds_tenant : Phase → Bool
holds_tenant tenant_held = true
holds_tenant inside = true
holds_tenant leaving = true
holds_tenant _ = false

abbrev pub is_inside : Phase → Bool
is_inside inside = true
is_inside _ = false

abbrev pub on_doc : String → Task → Bool
on_doc d t = holds_doc t.phase && t.doc_id == d

abbrev pub on_global : Task → Bool
on_global t = holds_global t.phase

abbrev pub on_tenant : String → Task → Bool
on_tenant k t = holds_tenant t.phase && t.tenant_key == k

abbrev pub in_body : String → Task → Bool
in_body k t = is_inside t.phase && t.tenant_key == k
