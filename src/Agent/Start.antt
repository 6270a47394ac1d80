-- ===== src/Agent/Start.antt =====
-- Starting a task (`start_task` of src/agent/services.py).
use cloglog.Base.{
  ℕ, ◌≡◌, sym, inl, inr, false, not, ◌&&◌, Option, none, some, arith, ◌==◌, is_id, any,
  update_where, Option-cases, find-update_where, any-update_where, any-sort_by, any-select, ◌∙◌,
  if◌then◌else◌,
}
use cloglog.Models.{World, Worktree, Task}
use cloglog.Action.{
  ok, Error, value_error, task_blocked, worktree_not_found, task_not_found, already_active,
}
use cloglog.Board.Repository.{get_task, update_task, get_tasks_for_worktree, is_task}
use cloglog.Agent.Repository.{get_worktree, set_worktree_current_task, is_worktree}
use cloglog.Agent.Service.{
  start_task, check_blockers, has_other_active, collect_all_blockers, is_busy, is_empty,
}

-- The exception of the first guard that fails, in their order.
abbrev pub start_guard : ℕ → ℕ → World → Option Error
start_guard worktree_id task_id w = elim (get_worktree w worktree_id) [
  | none ↦ some (value_error worktree_not_found)
  | some v ↦ elim (get_task w task_id) [
    | none ↦ some (value_error task_not_found)
    | some t ↦
        if has_other_active w worktree_id task_id
        then some (value_error already_active)
        else if is_empty (collect_all_blockers w t)
        then none
        else some (task_blocked (collect_all_blockers w t))
  ]
]

-- The task as a start leaves it.
abbrev pub started : ℕ → World → Task → Task
started worktree_id w t = record t {
  worktree_id = some worktree_id;
  status = "in_progress";
  updated_at = w.now;
}

start_task-writes :
    (worktree_id task_id : ℕ) (w : World) {t : Task}
    → get_task w task_id ≡ some t
    → start_guard worktree_id task_id w ≡ none
    → let (r, w') = start_task worktree_id task_id w in
      (r ≡ ok t.model)
      × (w'.tasks ≡ update_where (is_task task_id) (started worktree_id w) w.tasks)
      × (w'.worktrees
          ≡ update_where
              (is_worktree worktree_id)
              (λ v. record v { current_task_id = some task_id })
              w.worktrees)
unfolding start_task check_blockers update_task set_worktree_current_task
start_task-writes worktree_id task_id w h g = ground arith

start_guard-worktree :
    (worktree_id task_id : ℕ) (w : World)
    → start_guard worktree_id task_id w ≡ none
    → (v : Worktree) × (get_worktree w worktree_id ≡ some v)
      × (has_other_active w worktree_id task_id ≡ false)
start_guard-worktree worktree_id task_id w g = elim (Option-cases (get_worktree w worktree_id)) [
  | inl e ↦ absurd (ground arith)
  | inr (v, e) ↦ (v, e, ground arith)
]

has_other_active-eq :
    (worktree_id task_id : ℕ) (w : World)
    → has_other_active w worktree_id task_id
      ≡ any (λ t. is_id t.worktree_id worktree_id && (not (t.id == task_id) && is_busy t)) w.tasks
unfolding has_other_active get_tasks_for_worktree
has_other_active-eq worktree_id task_id w = rw (any-sort_by, any-select)

-- A start that no guard stops returns the task's model. Then the task is in progress and assigned
-- to the worktree, the worktree is at it, and no other task of the worktree keeps it busy.
pub start_task_starts :
    (worktree_id task_id : ℕ) (w : World) {t : Task}
    → get_task w task_id ≡ some t
    → start_guard worktree_id task_id w ≡ none
    → let (r, w') = start_task worktree_id task_id w in
      (r ≡ ok t.model)
      × (get_task w' task_id ≡ some (started worktree_id w t))
      × (v : Worktree) × (get_worktree w worktree_id ≡ some v)
      × (get_worktree w' worktree_id ≡ some (record v { current_task_id = some task_id }))
      × (has_other_active w' worktree_id task_id ≡ false)
unfolding get_task get_worktree
start_task_starts worktree_id task_id w {t} h g =
    let (returns, tasks, worktrees) = start_task-writes worktree_id task_id w h g in
    let (v, found, free) = start_guard-worktree worktree_id task_id w g in
    (
      returns,
      rw tasks (find-update_where (is_task task_id) (started worktree_id w) w.tasks (λ x e. e) h),
      v,
      found,
      rw worktrees (
          find-update_where (is_worktree worktree_id)
            (λ v. record v { current_task_id = some task_id }) w.worktrees (λ x e. e) found),
      rw (has_other_active-eq, tasks)
          (any-update_where
              (λ t. is_id t.worktree_id worktree_id && (not (t.id == task_id) && is_busy t))
              (is_task task_id) (started worktree_id w) w.tasks (λ x e. ground arith)
            ∙ (sym (has_other_active-eq worktree_id task_id w) ∙ free)),
    )
