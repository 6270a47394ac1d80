-- ===== src/Agent/Service/Pipeline.antt =====
-- What blocks a task: the board's blockers, and the pipeline spec → plan → impl.
use cloglog.Base.{
  String, Bool, true, false, not, ◌&&◌, ◌||◌, Option, none, some, List, [], ◌∷◌, ◌++◌, str_eq,
  truthy?, select, sort_by, if◌then◌else◌,
}
use cloglog.Models.{World, Task}
use cloglog.Action.{Blocker, pipeline_blocker}
use cloglog.Board.Repository.{get_tasks_for_feature}
use cloglog.Board.Service.{get_unresolved_blockers}

-- `_pipeline_resolved`: done, or in review with a pull request and, for a spec or a plan, with its
-- artifact.
unfoldable pub pipeline_resolved : Task → Bool
pipeline_resolved t =
    if str_eq t.status "done"
    then true
    else if str_eq t.status "review" && truthy? t.pr_url
    then not
        ((str_eq t.task_type "spec" || str_eq t.task_type "plan") && not (truthy? t.artifact_path))
    else false

-- The type of task that must come before; none before the others.
unfoldable pub predecessor_type : Task → Option String
predecessor_type t =
    if str_eq t.task_type "task"
    then none
    else if str_eq t.task_type "plan"
    then some "spec"
    else if str_eq t.task_type "impl"
    then some "plan"
    else none

abbrev pub blocked_reason : Task → String
blocked_reason p =
    if str_eq p.status "review" && truthy? p.pr_url && not (truthy? p.artifact_path)
    then "artifact_missing"
    else "not_done"

-- The loop over the predecessors, in the order of their numbers.
unfoldable pub unresolved_predecessors : String → List Task → List Blocker
unresolved_predecessors kind [] = []
unresolved_predecessors kind (p ∷ ps) =
    if pipeline_resolved p
    then unresolved_predecessors kind ps
    else pipeline_blocker kind p.id p.number p.title p.status (blocked_reason p)
      ∷ unresolved_predecessors kind ps

-- `_collect_pipeline_blockers`
unfoldable pub collect_pipeline_blockers : Task → List Task → List Blocker
collect_pipeline_blockers t feature_tasks = elim (predecessor_type t) [
  | none ↦ []
  | some kind ↦
      unresolved_predecessors kind
        (sort_by (λ p. p.number) (select (λ p. str_eq p.task_type kind) feature_tasks))
]

-- `_collect_all_blockers`
unfoldable pub collect_all_blockers : World → Task → List Blocker
collect_all_blockers w t =
    get_unresolved_blockers w t.id
    ++ collect_pipeline_blockers t (get_tasks_for_feature w t.feature_id)
