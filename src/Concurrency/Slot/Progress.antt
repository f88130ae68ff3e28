-- ===== src/Concurrency/Slot/Progress.antt =====
-- `tenant_slot`: the semaphores never leave all tasks waiting for one another.
use cire_rag.Base.{
  ltb, ltb→lt, Bool-cases, get_elem?, count, ℕ, zero, suc, ◌<◌, String, ◌≡◌, refl, inl, inr, Bool,
  true, false, some, List, [], ◌∷◌, arith,
}
use cire_rag.Concurrency.{store, slots, Manager}
use cire_rag.Concurrency.Slot.{
  Phase, asking, refused, locked, global_held, queued, tenant_held, inside, leaving,
  tenant_released, global_released, done, Task, World, Reach, go, Turn, turn, attempt, holds_global,
  holds_tenant, on_global, on_tenant, acquire_semaphore,
}
use cire_rag.Concurrency.Slot.Invariant.{Balanced, Reach-Balanced, start, start-Balanced}
use cire_rag.Concurrency.Slot.Safety.{has_ended}

-- A positive count has a witness.
find_task :
    (p : Task → Bool) (ts : List Task)
    → 0 < count p ts
    → (i : ℕ) × (t : Task) × (get_elem? ts i ≡ some t) × (p t ≡ true)
find_task p [] h = absurd (omega arith)
find_task p (t ∷ ts) h = elim (Bool-cases (p t)) [
  | inl yes_p ↦ (0, t, refl, yes_p)
  | inr no_p ↦ let (i, u, at_i, holds) = find_task p ts (ground arith) in (suc i, u, at_i, holds)
]

-- A phase that can always go on by itself.
abbrev runs : Phase → Bool
runs refused = false
runs done = false
runs locked = false
runs queued = false
runs _ = true

runs_on :
    (p : Phase) (d k : String) (m : Manager) (g : ℕ)
    → runs p ≡ true
    → (r : Turn) × (turn p go d k m g ≡ some r)
unfolding turn
runs_on asking d k m g h = (_, refl)
runs_on global_held d k m g h = (_, refl)
runs_on tenant_held d k m g h = (_, refl)
runs_on inside d k m g h = (_, refl)
runs_on leaving d k m g h = (_, refl)
runs_on tenant_released d k m g h = (_, refl)
runs_on global_released d k m g h = (_, refl)
runs_on p d k m g h = cc

runs_locked :
    (d k : String) (m : Manager) (g : ℕ) → 0 < g → (r : Turn) × (turn locked go d k m g ≡ some r)
unfolding turn
runs_locked d k m zero h = absurd (omega arith)
runs_locked d k m (suc g) h = (_, refl)

runs_queued :
    (d k : String) (m : Manager) (g : ℕ)
    → 0 < slots k m
    → (r : Turn) × (turn queued go d k m g ≡ some r)
unfolding turn acquire_semaphore
runs_queued d k m g h = by_slots (slots k m) refl
  where
    by_slots : (n : ℕ) → slots k m ≡ n → (r : Turn) × (turn queued go d k m g ≡ some r)
    by_slots zero e = absurd (omega arith)
    by_slots (suc n) e = (
      record {
        phase = tenant_held;
        manager = record m { tenant_semaphores = store k n m.tenant_semaphores };
        global_free = g;
      },
      ground arith,
    )

tenant_runs : (p : Phase) → holds_tenant p ≡ true → runs p ≡ true
tenant_runs inside h = refl
tenant_runs p h = ground arith

-- Some task can take its next step, with no interruption.
abbrev pub CanGo : World → Type 0
CanGo w =
    (i : ℕ) × (t : Task) × (r : Turn) × (get_elem? w.tasks i ≡ some t) × (attempt w go t ≡ some r)

move_on :
    (w : World) (i : ℕ) (t : Task)
    → get_elem? w.tasks i ≡ some t
    → (r : Turn) × (attempt w go t ≡ some r)
    → CanGo w
move_on w i t at_i (r, e) = (i, t, r, at_i, e)

module _ {per_tenant global : ℕ} (w : World) (some_tenant : 0 < per_tenant)
    (some_global : 0 < global) (b : Balanced per_tenant global w) where
  queued_moves : (i : ℕ) (t : Task) → get_elem? w.tasks i ≡ some t → t.phase ≡ queued → CanGo w
  queued_moves i t at_i e = elim (Bool-cases (ltb 0 (slots t.tenant_key w.manager))) [
    | inl free ↦
        move_on w i t at_i
          (rw e (runs_queued t.doc_id t.tenant_key w.manager w.global_free (ltb→lt _ _ free)))
    | inr full ↦
        let (j, u, at_j, holds) =
          find_task (on_tenant t.tenant_key) w.tasks (ground (arith, b.tenants t.tenant_key)) in
        move_on w j u at_j (
          runs_on u.phase u.doc_id u.tenant_key w.manager w.global_free
            (tenant_runs u.phase (ground arith)))
  ]

  -- A task with a global slot can move, or waits for its tenant's semaphore.
  global_moves :
      (i : ℕ) (t : Task) → get_elem? w.tasks i ≡ some t → holds_global t.phase ≡ true → CanGo w
  global_moves i t at_i holds = by_phase t.phase refl
    where
      go_on : runs t.phase ≡ true → CanGo w
      go_on h = move_on w i t at_i (runs_on t.phase t.doc_id t.tenant_key w.manager w.global_free h)

      by_phase : (p : Phase) → t.phase ≡ p → CanGo w
      by_phase queued e = queued_moves i t at_i e
      by_phase p e = go_on (ground arith)

  locked_moves : (i : ℕ) (t : Task) → get_elem? w.tasks i ≡ some t → t.phase ≡ locked → CanGo w
  locked_moves i t at_i e = elim (Bool-cases (ltb 0 w.global_free)) [
    | inl free ↦
        move_on w i t at_i
          (rw e (runs_locked t.doc_id t.tenant_key w.manager w.global_free (ltb→lt _ _ free)))
    | inr full ↦
        let (j, u, at_j, holds) = find_task on_global w.tasks (ground (arith, b.globals)) in
        global_moves j u at_j holds
  ]

  any_moves :
      (i : ℕ) (t : Task) → get_elem? w.tasks i ≡ some t → has_ended t.phase ≡ false → CanGo w
  any_moves i t at_i open_task = by_phase t.phase refl
    where
      by_phase : (p : Phase) → t.phase ≡ p → CanGo w
      by_phase locked e = locked_moves i t at_i e
      by_phase queued e = queued_moves i t at_i e
      by_phase p e =
          move_on w i t at_i
            (runs_on t.phase t.doc_id t.tenant_key w.manager w.global_free (ground arith))

-- With positive limits, in every reachable world that has a task which has not ended, some task can
-- take its next step without an interruption: the waits never block one another for good.
pub never_stuck :
    (per_tenant global : ℕ) (jobs : List (String × String)) (w : World) (i : ℕ) (t : Task)
    → 0 < per_tenant
    → 0 < global
    → Reach (start per_tenant global jobs) w
    → get_elem? w.tasks i ≡ some t
    → has_ended t.phase ≡ false
    → CanGo w
never_stuck per_tenant global jobs w i t lt_tenant lt_global run at_i open_task =
    any_moves w lt_tenant lt_global (Reach-Balanced (start-Balanced per_tenant global jobs) run) i t
      at_i open_task
