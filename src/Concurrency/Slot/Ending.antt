-- ===== src/Concurrency/Slot/Ending.antt =====
-- `tenant_slot`: from every reachable world the tasks can go on to their end.
use cire_rag.Base.Text.{has}
use cire_rag.Base.{
  Bool-cases, get_elem?, set, All, ℕ, zero, suc, ◌+◌, ◌≤◌, ◌<◌, String, ◌≡◌, refl, ◌⊎◌, inl, inr,
  true, false, some, List, [], ◌∷◌, arith,
}
use cire_rag.Concurrency.{Manager}
use cire_rag.Concurrency.Slot.{
  next, Move, Phase, asking, locked, global_held, queued, tenant_held, inside, leaving,
  tenant_released, global_released, Task, World, Reach, Step, moves, go, Turn, turn, after, attempt,
}
use cire_rag.Concurrency.Slot.Invariant.{start}
use cire_rag.Concurrency.Slot.Safety.{has_ended, nothing_leaks}
use cire_rag.Concurrency.{slots, get_active_jobs_count}
use cire_rag.Concurrency.Slot.Progress.{never_stuck}

-- The steps that a task may still take.
abbrev pub rank : Phase → ℕ
rank asking = 9
rank locked = 8
rank global_held = 7
rank queued = 6
rank tenant_held = 5
rank inside = 4
rank leaving = 3
rank tenant_released = 2
rank global_released = 1
rank _ = 0

abbrev pub total : List Task → ℕ
total [] = 0
total (t ∷ ts) = rank t.phase + total ts

turn_falls :
    (p : Phase) (move : Move) (d k : String) (m : Manager) (g : ℕ) (r : Turn)
    → turn p move d k m g ≡ some r
    → rank r.phase < rank p
unfolding turn
turn_falls asking move d k m g r h = ground arith
turn_falls p move d k m g r h = ground arith

total-set :
    (ts : List Task) (i : ℕ) (t u : Task)
    → get_elem? ts i ≡ some t
    → total (set ts i u) + rank t.phase ≡ total ts + rank u.phase
total-set [] i t u h = absurd (ground arith)
total-set (x ∷ ts) zero t u h = ground arith
total-set (x ∷ ts) (suc i) t u h = omega (arith, total-set ts i t u h)

Step-total : {w v : World} → Step w v → total v.tasks < total w.tasks
Step-total {w = w} (moves i t move r at_i e) = omega (
  arith,
  total-set w.tasks i t (record t { phase = r.phase }) at_i,
  turn_falls t.phase move t.doc_id t.tenant_key w.manager w.global_free r e,
)

-- All tasks have ended, or one has not.
open_task :
    (ts : List Task)
    → All (λ t. has_ended t.phase ≡ true) ts
      ⊎ ((i : ℕ) × (t : Task) × (get_elem? ts i ≡ some t) × (has_ended t.phase ≡ false))
open_task [] = inl tt
open_task (t ∷ ts) = elim (Bool-cases (has_ended t.phase)) [
  | inr open_one ↦ inr (0, t, refl, open_one)
  | inl ended ↦ elim (open_task ts) [
    | inl all ↦ inl (ended, all)
    | inr (i, u, at_i, open_one) ↦ inr (suc i, u, at_i, open_one)
  ]
]

-- A run of steps that the tasks take by themselves, with no interruption.
pub data Goes : World → World → Type 0 where
  stays : {w : World} → Goes w w
  goes :
      {w v : World} (i : ℕ) (t : Task) (r : Turn)
      → get_elem? w.tasks i ≡ some t
      → attempt w go t ≡ some r
      → Goes (after w i t r) v
      → Goes w v

-- A world from which the tasks go on until all have ended.
abbrev Ends : World → Type 0
Ends w = (v : World) × Goes w v × All (λ t. has_ended t.phase ≡ true) v.tasks

module _ {per_tenant global : ℕ} (jobs : List (String × String)) (lt_tenant : 0 < per_tenant)
    (lt_global : 0 < global) where
  finish_from :
      (w : World)
      → Reach (start per_tenant global jobs) w
      → ((u : World)
          → Reach (start per_tenant global jobs) u
          → total u.tasks < total w.tasks
          → Ends u)
      → Ends w
  finish_from w run later = elim (open_task w.tasks) [
    | inl all ↦ (w, stays, all)
    | inr (j, u, at_j, open_one) ↦
        let (i, t, r, at_i, e) =
          never_stuck per_tenant global jobs w j u lt_tenant lt_global run at_j open_one in
        let s = moves i t go r at_i e in
        let (v, path, all) = later (after w i t r) (next run s) (Step-total s) in
        (v, goes i t r at_i e path, all)
  ]

  finish_within :
      (n : ℕ) (w : World) → Reach (start per_tenant global jobs) w → total w.tasks ≤ n → Ends w
  finish_within zero w run small = finish_from w run (λ u step less. absurd (omega arith))
  finish_within (suc n) w run small =
      finish_from w run (λ u step less. finish_within n u step (omega arith))

Reach-Goes : {a w v : World} → Reach a w → Goes w v → Reach a v
Reach-Goes run stays = run
Reach-Goes run (goes i t r at_i e path) = Reach-Goes (next run (moves i t go r at_i e)) path

-- With positive limits, from every reachable world the tasks can go on by themselves, with no
-- interruption, to a world in which each of them has ended; and there no document is locked, all
-- slots are free, and no job is counted, whatever was interrupted before.
pub tasks_end :
    (per_tenant global : ℕ) (jobs : List (String × String)) (w : World)
    → 0 < per_tenant
    → 0 < global
    → Reach (start per_tenant global jobs) w
    → (v : World) × Goes w v
      × All (λ t. has_ended t.phase ≡ true) v.tasks
      × (v.global_free ≡ global)
      × ((d : String) → has d v.manager.active_doc_ids ≡ false)
      × ((k : String) → slots k v.manager ≡ per_tenant)
      × ((k : String) → get_active_jobs_count k v.manager ≡ 0)
tasks_end per_tenant global jobs w lt_tenant lt_global run =
    let (v, path, all) =
      finish_within jobs lt_tenant lt_global (total w.tasks) w run (omega arith) in
    let (global_back, docs, tenants, idle) =
      nothing_leaks per_tenant global jobs v (Reach-Goes run path) all in
    (v, path, all, global_back, docs, tenants, idle)
