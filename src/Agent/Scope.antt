-- ===== src/Agent/Scope.antt =====
-- The boundary of the projects: what the lookups and `mark_pr_merged` may reach.
use cloglog.Base.{
  ℕ, String, ◌≡◌, ◌⊎◌, inl, inr, Bool, true, ◌&&◌, some, List, [], ◌∷◌, arith, ◌==◌, is_text, find,
  select, update_where, Option-cases, Bool-cases, find-update_where,
}
use cloglog.Models.{World, Worktree, Task}
use cloglog.Action.{
  ok, err, Error, value_error, worktree_not_found, task_not_found, feature_not_found, foreign_task,
}
use cloglog.Board.Repository.{
  get_task, get_feature, get_epic, update_task, is_task, latest_task, is_live, feature_in_project,
  find_task_by_pr_url_for_project,
}
use cloglog.Agent.Repository.{get_worktree}
use cloglog.Agent.Service.{mark_pr_merged, find_by_pr_url, worktree_of, WorktreeRow}

latest_task-selected :
    (q : Task → Bool) (ts : List Task) {t : Task} → latest_task (select q ts) ≡ some t → q t ≡ true
unfolding latest_task
latest_task-selected q [] h = absurd (ground arith)
latest_task-selected q (x ∷ ts) {t} h = elim (Bool-cases (q x)) [
  | inl e ↦ elim (Option-cases (latest_task (select q ts))) [
    | inl e' ↦ ground arith
    | inr (u, e') ↦ ground (arith, latest_task-selected q ts {t = t})
  ]
  | inr e ↦ latest_task-selected q ts (rw e at h)
]

-- A lookup by pull request stays in its project: the worktree that it answers is that of a task in
-- progress or in review, with that pull request, whose feature is of the project.
find_by_pr_url-project :
    (w : World) (p : ℕ) (url : String) (r : WorktreeRow)
    → find_by_pr_url w p url ≡ some r
    → (t : Task) × (feature_in_project w p t.feature_id ≡ true)
      × (is_text t.pr_url url ≡ true)
      × (is_live t ≡ true)
      × (worktree_of w t.worktree_id ≡ some r)
unfolding find_by_pr_url find_task_by_pr_url_for_project
find_by_pr_url-project w p url r h =
    let q : Task → Bool =
      λ t. is_text t.pr_url url && is_live t && feature_in_project w p t.feature_id in
    elim (Option-cases (latest_task (select q w.tasks))) [
      | inl e ↦ absurd (ground arith)
      | inr (t, e) ↦
          let own = latest_task-selected q w.tasks e in
          (t, ground arith, ground arith, ground arith, ground arith)
    ]

-- The task as a merge leaves it.
abbrev pub merged : World → Task → Task
merged w t = record t { pr_merged = true; updated_at = w.now }

-- A merge is recorded only inside the worktree's project: where the call returns, the task's feature is
-- of the project of the worktree, and the task is merged; where it raises, nothing changes.
mark_pr_merged-project :
    (k task_id : ℕ) (w : World)
    → let (r, w') = mark_pr_merged k task_id w in
      ((r ≡ ok tt)
        × (v : Worktree) × (t : Task) × (get_worktree w k ≡ some v)
        × (get_task w task_id ≡ some t)
        × (feature_in_project w v.project_id t.feature_id ≡ true)
        × (get_task w' task_id ≡ some (merged w t)))
      ⊎ ((e : Error) × (r ≡ err e) × (w' ≡ w))
unfolding mark_pr_merged update_task get_task feature_in_project
mark_pr_merged-project k task_id w = elim (Option-cases (get_worktree w k)) [
  | inl e ↦ inr (value_error worktree_not_found, ground arith, ground arith)
  | inr (v, ev) ↦ elim (Option-cases (find (is_task task_id) w.tasks)) [
    | inl e ↦ inr (value_error task_not_found, ground arith, ground arith)
    | inr (t, et) ↦ elim (Option-cases (get_feature w t.feature_id)) [
      | inl e ↦ inr (value_error feature_not_found, ground arith, ground arith)
      | inr (f, ef) ↦ elim (Option-cases (get_epic w f.epic_id)) [
        | inl e ↦ inr (value_error foreign_task, ground arith, ground arith)
        | inr (e, ee) ↦ elim (Bool-cases (e.project_id == v.project_id)) [
          | inl own ↦
              let tasks : (mark_pr_merged k task_id w).1.tasks
                  ≡ update_where (is_task task_id) (merged w) w.tasks =
                ground arith in
              inl (
                ground arith,
                v,
                t,
                ev,
                et,
                ground arith,
                rw tasks (find-update_where (is_task task_id) (merged w) w.tasks (λ x h. h) et),
              )
          | inr foreign ↦ inr (value_error foreign_task, ground arith, ground arith)
        ]
      ]
    ]
  ]
]
