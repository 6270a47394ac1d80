-- ===== src/Board/Acyclic.antt =====
-- The dependency tables stay free of cycles (`add_dependency`, `add_task_dependency` and the removals
-- of src/board/services.py).
use cloglog.Base.{
  ℕ, ◌≡◌, ◌≢◌, refl, ◌⊎◌, inl, inr, true, false, not, ◌&&◌, some, [], ◌∷◌, ◌++◌, arith, ◌==◌,
}
use cloglog.Models.{World, Feature, Epic}
use cloglog.Action.{ok, err, value_error, cycle}
use cloglog.Graph.Walks.{Acyclic, Walk}
use cloglog.Graph.Correct.{has_cycle_correct}
use cloglog.Graph.Acyclic.{Acyclic-append, Acyclic-select}
use cloglog.Board.Repository.{
  get_feature, get_epic, get_dependency_exists, add_dependency_row, add_task_dependency_row,
  remove_dependency, remove_task_dependency,
}
use cloglog.Board.Service.{has_cycle, has_task_cycle, add_dependency, add_task_dependency}

-- `has_cycle` answers whether the dependency leads back to the feature.
has_cycle_lem :
    (w : World) (f d : ℕ)
    → ((has_cycle w f d ≡ true) × Walk w.feature_dependencies d f)
      ⊎ ((has_cycle w f d ≡ false) × ¬ Walk w.feature_dependencies d f)
unfolding has_cycle
has_cycle_lem w f d = elim (has_cycle_correct w.feature_dependencies f d) [
  | inl (e, p) ↦ inl (rw e refl, p)
  | inr (e, p) ↦ inr (rw e refl, p)
]

has_task_cycle_lem :
    (w : World) (t d : ℕ)
    → ((has_task_cycle w t d ≡ true) × Walk w.task_dependencies d t)
      ⊎ ((has_task_cycle w t d ≡ false) × ¬ Walk w.task_dependencies d t)
unfolding has_task_cycle
has_task_cycle_lem w t d = elim (has_cycle_correct w.task_dependencies t d) [
  | inl (e, p) ↦ inl (rw e refl, p)
  | inr (e, p) ↦ inr (rw e refl, p)
]

-- A call appends its row where the search finds no way back, or changes no feature dependency.
add_dependency_rows :
    (f d : ℕ) (w : World)
    → ((add_dependency f d w).1.feature_dependencies ≡ w.feature_dependencies)
      ⊎ (((add_dependency f d w).1.feature_dependencies ≡ w.feature_dependencies ++ (f, d) ∷ [])
          × (has_cycle w f d ≡ false))
unfolding add_dependency add_dependency_row
add_dependency_rows f d w = ground arith

add_task_dependency_rows :
    (t d : ℕ) (w : World)
    → ((add_task_dependency t d w).1.task_dependencies ≡ w.task_dependencies)
      ⊎ (((add_task_dependency t d w).1.task_dependencies ≡ w.task_dependencies ++ (t, d) ∷ [])
          × (has_task_cycle w t d ≡ false))
unfolding add_task_dependency add_task_dependency_row
add_task_dependency_rows t d w = ground arith

-- `add_dependency` keeps the feature dependencies free of cycles, whether it adds its row or raises.
pub add_dependency-Acyclic :
    (f d : ℕ) (w : World)
    → Acyclic w.feature_dependencies
    → Acyclic (add_dependency f d w).1.feature_dependencies
add_dependency-Acyclic f d w h = elim (add_dependency_rows f d w) [
  | inl same ↦ rw same h
  | inr (new, free) ↦ elim (has_cycle_lem w f d) [
    | inl (e, p) ↦ cc
    | inr (e, p) ↦ rw new (Acyclic-append f d w.feature_dependencies h p)
  ]
]

-- `add_task_dependency` keeps the task dependencies free of cycles, whether it adds its row or raises.
add_task_dependency-Acyclic :
    (t d : ℕ) (w : World)
    → Acyclic w.task_dependencies
    → Acyclic (add_task_dependency t d w).1.task_dependencies
add_task_dependency-Acyclic t d w h = elim (add_task_dependency_rows t d w) [
  | inl same ↦ rw same h
  | inr (new, free) ↦ elim (has_task_cycle_lem w t d) [
    | inl (e, p) ↦ cc
    | inr (e, p) ↦ rw new (Acyclic-append t d w.task_dependencies h p)
  ]
]

-- Removing a dependency keeps both tables free of cycles.
remove-Acyclic :
    (a b : ℕ) (w : World)
    → Acyclic w.feature_dependencies
    → Acyclic w.task_dependencies
    → Acyclic (remove_dependency a b w).1.feature_dependencies
      × Acyclic (remove_task_dependency a b w).1.task_dependencies
unfolding remove_dependency remove_task_dependency
remove-Acyclic a b w h k = (
  Acyclic-select (λ d. not (d.0 == a && d.1 == b)) w.feature_dependencies h,
  Acyclic-select (λ d. not (d.0 == a && d.1 == b)) w.task_dependencies k,
)

-- Between two different features of one project, with no such row yet, `add_dependency` adds the
-- row exactly when the dependency does not lead back to the feature; else it raises for the cycle
-- and leaves everything as it was.
pub add_dependency_decides :
    (f d : ℕ) (w : World) {a b : Feature} {ea eb : Epic}
    → f ≢ d
    → get_feature w f ≡ some a
    → get_feature w d ≡ some b
    → get_epic w a.epic_id ≡ some ea
    → get_epic w b.epic_id ≡ some eb
    → ea.project_id ≡ eb.project_id
    → get_dependency_exists w f d ≡ false
    → ((add_dependency f d w
          ≡ (ok tt, record w { feature_dependencies = w.feature_dependencies ++ (f, d) ∷ [] }))
        × ¬ Walk w.feature_dependencies d f)
      ⊎ ((add_dependency f d w ≡ (err (value_error cycle), w)) × Walk w.feature_dependencies d f)
unfolding add_dependency add_dependency_row
add_dependency_decides f d w ne fa fb ha hb same new = elim (has_cycle_lem w f d) [
  | inl (e, p) ↦ inr (ground arith, p)
  | inr (e, p) ↦ inl (ground arith, p)
]
