-- ===== src/Tests/Agent.antt =====
-- The agents' service and theorems on the sample world.
use Prim.Native.String.{String}
use cloglog.Base.{
  ℕ, ◌-◌, ◌≡◌, refl, ◌⊎◌, Bool, true, false, none, some, [], ◌∷◌, arith, all, count, select, find,
  not, ◌||◌,
}
use cloglog.Models.{World, Worktree}
use cloglog.Action.{ok, err, Error, value_error, agents_cannot_finish, permission_error}
use cloglog.Board.Repository.{
  get_task, feature_in_project, get_feature, get_epic, latest_task, find_task_by_pr_url_for_project,
  get_tasks_for_worktree, get_feature_dependencies, get_task_dependencies,
}
use cloglog.Board.Service.{get_unresolved_blockers, feature_blockers, task_blockers}
use cloglog.Graph.{dependencies}
use cloglog.Agent.Repository.{get_worktree, is_active, is_at, get_timed_out_sessions}
use cloglog.Agent.Service.{
  start_task, has_other_active, is_busy, collect_all_blockers, collect_pipeline_blockers,
  predecessor_type, unresolved_predecessors, update_task_status, is_close_off_task, register,
  check_heartbeat_timeouts, force_unregister, is_foreign, is_empty, find_by_pr_url, worktree_of,
  WorktreeRow, row_of, mark_pr_merged, unregister, pr_used_by_done,
}
use cloglog.Agent.Start.{start_guard, start_task_starts, started}
use cloglog.Agent.Status.{update_task_status-decides, may_move, moved}
use cloglog.Agent.Sessions.{HasOneActive}
use cloglog.Agent.History.{Calls, idle, call, registers, times_out, forces, Calls-HasOneActive}
use cloglog.Agent.Register.{answer, register_lem}
use cloglog.Agent.Timeouts.{check_heartbeat_timeouts_lem, worktrees_of}
use cloglog.Agent.Leave.{IsGone, force_unregister_lem}
use cloglog.Agent.Pipeline.{collect_pipeline_blockers-empty, comes_before, lets_next_start}
use cloglog.Tests.Sample.{sample, task, worktree}

task_33 : get_task sample 33 ≡ some (task 33 22 "backlog" "spec" none none)
unfolding get_task find
task_33 = refl

task_32 :
    get_task sample 32
    ≡ some (task 32 21 "review" "task" (some "https://github.com/o/r/pull/7") (some 41))
unfolding get_task find
task_32 = refl

worktree_41 : get_worktree sample 41 ≡ some (worktree 41 "/w/a" "worktree")
unfolding get_worktree find
worktree_41 = refl

one_active : HasOneActive sample
one_active k = ground arith

-- Worktree 42 may start the specification 33, and may not start the plan 34.
may_start : start_guard 42 33 sample ≡ none
unfolding get_worktree get_task find has_other_active get_tasks_for_worktree collect_all_blockers
    get_unresolved_blockers get_feature get_feature_dependencies get_task_dependencies dependencies
    feature_blockers task_blockers collect_pipeline_blockers predecessor_type
may_start = refl

start_task_starts_example :
    let (r, w') = start_task 42 33 sample in
    (r ≡ ok none)
    × (get_task w' 33 ≡ some (started 42 sample (task 33 22 "backlog" "spec" none none)))
    × (v : Worktree) × (get_worktree sample 42 ≡ some v)
    × (get_worktree w' 42 ≡ some (record v { current_task_id = some 33 }))
    × (has_other_active w' 42 33 ≡ false)
start_task_starts_example = start_task_starts 42 33 sample task_33 may_start

not_done_by_agents :
    (update_task_status 41 32 "done" none false sample).0 ≡ err (value_error agents_cannot_finish)
unfolding update_task_status get_worktree get_task find cloglog.Agent.Service.check_status
    cloglog.Agent.Service.check_owner is_close_off_task
not_done_by_agents = refl

update_task_status-decides_example :
    let t = task 33 22 "backlog" "spec" none none in
    let (r, w') = update_task_status 41 33 "in_progress" none false sample in
    ((may_move 41 (worktree 41 "/w/a" "worktree") t "in_progress" none false sample ≡ true)
      × (r ≡ ok tt)
      × (get_task w' 33 ≡ some (moved "in_progress" none sample t)))
    ⊎ ((may_move 41 (worktree 41 "/w/a" "worktree") t "in_progress" none false sample ≡ false)
        × (e : Error) × (r ≡ err e)
        × (w' ≡ sample))
update_task_status-decides_example =
    update_task_status-decides 41 33 "in_progress" none false sample worktree_41 task_33

abbrev token : ℕ → String
token k = "hash"

-- A worktree registers, the silent one times out, and it is then forced out.
abbrev after_register : World
after_register = (register token 1 "/w/c" "wt-c" sample).1

abbrev after_timeouts : World
after_timeouts = (check_heartbeat_timeouts 300 after_register).1

abbrev after_force : World
after_force = (force_unregister 41 none after_timeouts).1

forced_out : Calls sample after_force
forced_out =
    call (call (call idle (registers token 1 "/w/c" "wt-c")) (times_out 300)) (forces 41 none)

Calls-HasOneActive_example : HasOneActive after_force
Calls-HasOneActive_example = Calls-HasOneActive sample after_force forced_out one_active

register_lem_example :
    let (r, w') = register token 1 "/w/a" "wt-a" sample in
    (k : ℕ) × (resumed : Bool) × (answer r ≡ some (k, resumed))
    × HasOneActive w'
    × (count (is_active k) w'.sessions ≡ 1)
    × (((v : Worktree) × (select (is_at 1 "/w/a") sample.worktrees ≡ v ∷ [])
          × (k ≡ v.id)
          × (resumed ≡ true))
        ⊎ ((select (is_at 1 "/w/a") sample.worktrees ≡ [])
            × (k ≡ sample.uuids 0)
            × (resumed ≡ false)))
register_lem_example = register_lem token 1 "/w/a" "wt-a" sample one_active refl

check_heartbeat_timeouts_lem_example :
    let (r, w') = check_heartbeat_timeouts 300 sample in
    (r ≡ ok (worktrees_of (get_timed_out_sessions sample (sample.now - 300))))
    × (get_timed_out_sessions w' (sample.now - 300) ≡ [])
check_heartbeat_timeouts_lem_example = check_heartbeat_timeouts_lem 300 sample

force_unregister_lem_example :
    ((get_worktree sample 41 ≡ none) × (force_unregister 41 (some 1) sample ≡ (ok true, sample)))
    ⊎ ((v : Worktree) × (get_worktree sample 41 ≡ some v)
        × (((is_foreign (some 1) v ≡ true)
              × (force_unregister 41 (some 1) sample ≡ (err permission_error, sample)))
            ⊎ ((is_foreign (some 1) v ≡ false)
                × (let (r, w') = force_unregister 41 (some 1) sample in
                    (r ≡ ok false)
                    × IsGone 41 w'
                    × (force_unregister 41 (some 1) w' ≡ (ok true, w'))))))
force_unregister_lem_example = force_unregister_lem 41 (some 1) sample refl

-- The plan 34 waits for the specification 33.
collect_pipeline_blockers-empty_example :
    is_empty (collect_pipeline_blockers (task 34 22 "backlog" "plan" none none) sample.tasks)
    ≡ all (λ p. not (comes_before p.task_type "plan") || lets_next_start p) sample.tasks
collect_pipeline_blockers-empty_example =
    collect_pipeline_blockers-empty (task 34 22 "backlog" "plan" none none) sample.tasks

pr_7 :
    find_by_pr_url sample 1 "https://github.com/o/r/pull/7"
    ≡ some (row_of (worktree 41 "/w/a" "worktree"))
unfolding find_by_pr_url find_task_by_pr_url_for_project feature_in_project get_feature get_epic
    get_worktree find latest_task
pr_7 = refl
