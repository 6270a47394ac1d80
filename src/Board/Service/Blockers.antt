-- ===== src/Board/Service/Blockers.antt =====
-- What still blocks a task, as the board sees it.
use cloglog.Base.{
  ℕ, Bool, not, ◌&&◌, ◌||◌, Option, none, some, List, [], ◌∷◌, ◌++◌, map, str_eq, truthy?, select,
  sort_by, if◌then◌else◌,
}
use cloglog.Models.{World, Feature, Task}
use cloglog.Action.{Blocker, feature_blocker, task_blocker}
use cloglog.Board.Repository.{
  get_feature, get_task, get_tasks_for_feature, get_feature_dependencies, get_task_dependencies,
}

-- `_task_resolved`
unfoldable pub task_resolved : Task → Bool
task_resolved t = str_eq t.status "done" || str_eq t.status "review" && truthy? t.pr_url

-- The rows of a list of ids, without the ids that have none.
abbrev pub rows_of {ℓ} : {Row : Type ℓ} → (ℕ → Option Row) → List ℕ → List Row
rows_of get [] = []
rows_of get (k ∷ ks) = elim (get k) [ none ↦ rows_of get ks | some r ↦ r ∷ rows_of get ks ]

-- The loop over the features that the task's feature depends on.
unfoldable pub feature_blockers : World → List Feature → List Blocker
feature_blockers w [] = []
feature_blockers w (f ∷ fs) =
    let incomplete = select (λ t. not (task_resolved t)) (get_tasks_for_feature w f.id) in
    elim incomplete [
      | [] ↦ feature_blockers w fs
      | t ∷ ts ↦
          feature_blocker f.id f.number f.title (sort_by (λ n. n) (map (λ x. x.number) (t ∷ ts)))
          ∷ feature_blockers w fs
    ]

-- The loop over the tasks that the task depends on.
unfoldable pub task_blockers : List Task → List Blocker
task_blockers [] = []
task_blockers (t ∷ ts) =
    if task_resolved t
    then task_blockers ts
    else task_blocker t.id t.number t.title t.status ∷ task_blockers ts

unfoldable pub get_unresolved_blockers : World → ℕ → List Blocker
get_unresolved_blockers w task_id = elim (get_task w task_id) [
  | none ↦ []
  | some t ↦ elim (get_feature w t.feature_id) [
    | none ↦ []
    | some f ↦
        feature_blockers w
          (sort_by (λ g. g.number) (rows_of (get_feature w) (get_feature_dependencies w f.id)))
        ++ task_blockers
            (sort_by (λ u. u.number) (rows_of (get_task w) (get_task_dependencies w task_id)))
  ]
]
