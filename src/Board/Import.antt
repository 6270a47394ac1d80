-- ===== src/Board/Import.antt =====
-- The numbers that an import gives (`import_plan` of src/board/services.py).
use cloglog.Base.{
  ℕ, ◌+◌, String, ◌≡◌, refl, ◌∙◌, Option, none, some, List, [], ◌∷◌, arith, update_where,
  find-update_where,
}
use cloglog.Models.{World, Project, Feature, Task}
use cloglog.Action.{
  Action, Result, ok, err, ◌>>=◌, bind_result, unless_none, raise, value_error, feature_not_found,
}
use cloglog.Board.Repository.{
  get_feature, get_project, next_epic_number, next_feature_number, next_task_number, create_epic,
  create_feature, create_task_row, has_id, count_epics,
}
use cloglog.Board.Service.{
  create_task, recompute_rollup, announce_rollup, import_plan, import_epics, import_features,
  import_tasks, ImportEpic, ImportFeature, ImportTask, Tally,
}

-- An action that leaves the table of the projects as it is.
abbrev Keeps : {A : Type 0} → Action A → Type 0
Keeps m = (w : World) → (m w).1.projects ≡ w.projects

module _ {A : Type 0} {B : Type 0} where
  bind-Keeps :
      (ps : List Project) (p : Result A × World) (k : A → Action B)
      → p.1.projects ≡ ps
      → ((a : A) → Keeps (k a))
      → (bind_result p k).1.projects ≡ ps
  bind-Keeps ps (ok a, v) k first rest = rest a v ∙ first
  bind-Keeps ps (err e, v) k first rest = first

  then-Keeps :
      (m : Action A) (k : A → Action B) → Keeps m → ((a : A) → Keeps (k a)) → Keeps (m >>= k)
  then-Keeps m k first rest w = bind-Keeps w.projects (m w) k (first w) rest

create_epic-Keeps :
    (p : ℕ) (t d b c : String) (n : ℕ) (color : String) (k : ℕ)
    → Keeps (create_epic p t d b c n color k)
unfolding create_epic
create_epic-Keeps p t d b c n color k w = refl

create_feature-Keeps : (p : ℕ) (t d : String) (n k : ℕ) → Keeps (create_feature p t d n k)
unfolding create_feature
create_feature-Keeps p t d n k w = refl

recompute_rollup-Keeps : (k : ℕ) → Keeps (recompute_rollup k)
unfolding recompute_rollup
recompute_rollup-Keeps k w = ground arith

announce_rollup-Keeps : (k : ℕ) (f : Feature) (t : Task) → Keeps (announce_rollup k f t)
unfolding announce_rollup
announce_rollup-Keeps k f t w = ground arith

create_task_row-Keeps :
    (f : ℕ) (t d p : String) (n k : ℕ) (kind : String) (m : Option String)
    → Keeps (create_task_row f t d p n k kind m)
unfolding create_task_row
create_task_row-Keeps f t d p n k kind m w = refl

unless_none-Keeps :
    {A B : Type 0} (o : Option A) (early : Action B) (rest : A → Action B)
    → Keeps early
    → ((a : A) → Keeps (rest a))
    → Keeps (unless_none o early rest)
unless_none-Keeps none early rest e r = e
unless_none-Keeps (some a) early rest e r = r a

create_task-Keeps :
    (f : ℕ) (t d p : String) (n k : ℕ) (kind : String) (m : Option String)
    → Keeps (create_task f t d p n k kind m)
unfolding create_task
create_task-Keeps f t d p n k kind m w =
    unless_none-Keeps (get_feature w f) (raise (value_error feature_not_found)) _ (λ v. refl)
      (λ old.
        then-Keeps (create_task_row f t d p n k kind m) _ (create_task_row-Keeps f t d p n k kind m)
          (λ task. then-Keeps (recompute_rollup f) _ (recompute_rollup-Keeps f) (λ _.
            then-Keeps (announce_rollup f old task) _ (announce_rollup-Keeps f old task)
              (λ _ v. refl))))
      w

import_tasks-Keeps :
    (f pos : ℕ) (ts : List ImportTask) (n : Tally) → Keeps (import_tasks f pos ts n)
unfolding import_tasks
import_tasks-Keeps f pos [] n = λ w. refl
import_tasks-Keeps f pos (t ∷ ts) n =
    then-Keeps (create_task f t.title t.description t.priority pos n.next_task_num "task" none) _
      (create_task-Keeps f t.title t.description t.priority pos n.next_task_num "task" none)
      (λ _. import_tasks-Keeps f (pos + 1) ts _)

import_features-Keeps :
    (e pos : ℕ) (fs : List ImportFeature) (n : Tally) → Keeps (import_features e pos fs n)
unfolding import_features
import_features-Keeps e pos [] n = λ w. refl
import_features-Keeps e pos (f ∷ fs) n =
    then-Keeps (create_feature e f.title f.description pos n.next_feat_num) _
      (create_feature-Keeps e f.title f.description pos n.next_feat_num)
      (λ feature.
        then-Keeps (import_tasks feature.id 0 f.tasks _) _
          (import_tasks-Keeps feature.id 0 f.tasks _)
          (λ n'. import_features-Keeps e (pos + 1) fs n'))

import_epics-Keeps :
    (p count pos : ℕ) (es : List ImportEpic) (n : Tally) → Keeps (import_epics p count pos es n)
unfolding import_epics
import_epics-Keeps p count pos [] n = λ w. refl
import_epics-Keeps p count pos (e ∷ es) n =
    then-Keeps (create_epic p e.title e.description e.bounded_context "" pos _ n.next_epic_num) _
      (create_epic-Keeps p e.title e.description e.bounded_context "" pos _ n.next_epic_num)
      (λ epic.
        then-Keeps (import_features epic.id 0 e.features _) _
          (import_features-Keeps epic.id 0 e.features _)
          (λ n'. import_epics-Keeps p count (pos + 1) es n'))

-- The row of a project, whose identifier is the one that was asked for, after one of its counters moved.
module _ (k : ℕ) (w : World) {p : Project} (h : get_project w k ≡ some p) where
  abbrev with_epic_num : World
  with_epic_num = record w {
    projects =
        update_where (has_id k) (λ q. record q { next_epic_num = p.next_epic_num + 1 }) w.projects;
  }

  next_epic_number-moves :
      (next_epic_number k w ≡ (ok p.next_epic_num, with_epic_num))
      × (get_project with_epic_num k ≡ some (record p { next_epic_num = p.next_epic_num + 1 }))
  unfolding next_epic_number get_project
  next_epic_number-moves = (
    rw h refl,
    find-update_where (has_id k) (λ q. record q { next_epic_num = p.next_epic_num + 1 }) w.projects
        (λ x e. e) h,
  )

  abbrev with_feature_num : World
  with_feature_num = record w {
    projects =
        update_where (has_id k) (λ q. record q { next_feature_num = p.next_feature_num + 1 })
          w.projects;
  }

  next_feature_number-moves :
      (next_feature_number k w ≡ (ok p.next_feature_num, with_feature_num))
      × (get_project with_feature_num k
          ≡ some (record p { next_feature_num = p.next_feature_num + 1 }))
  unfolding next_feature_number get_project
  next_feature_number-moves = (
    rw h refl,
    find-update_where (has_id k) (λ q. record q { next_feature_num = p.next_feature_num + 1 })
        w.projects (λ x e. e) h,
  )

  abbrev with_task_num : World
  with_task_num = record w {
    projects =
        update_where (has_id k) (λ q. record q { next_task_num = p.next_task_num + 1 }) w.projects;
  }

  next_task_number-moves :
      (next_task_number k w ≡ (ok p.next_task_num, with_task_num))
      × (get_project with_task_num k ≡ some (record p { next_task_num = p.next_task_num + 1 }))
  unfolding next_task_number get_project
  next_task_number-moves = (
    rw h refl,
    find-update_where (has_id k) (λ q. record q { next_task_num = p.next_task_num + 1 }) w.projects
        (λ x e. e) h,
  )

-- What `import_plan` leaves in the table of the projects, once the three numbers are taken.
import_plan-projects :
    (k : ℕ) (plan : List ImportEpic) (w u v x : World) (a b c : ℕ)
    → next_epic_number k w ≡ (ok a, u)
    → next_feature_number k u ≡ (ok b, v)
    → next_task_number k v ≡ (ok c, x)
    → (import_plan k plan w).1.projects ≡ x.projects
unfolding import_plan
import_plan-projects k plan w u v x a b c e f t =
    rw (e, f, t) (import_epics-Keeps k (count_epics w k) 0 plan _ x)

-- Whatever plan is imported into a known project, of any number of epics, features and tasks: each of
-- the three counters of the project moves by exactly one, whether the import returns or raises.
import_plan-counters :
    (k : ℕ) (plan : List ImportEpic) (w : World) {p : Project}
    → get_project w k ≡ some p
    → get_project (import_plan k plan w).1 k
      ≡ some (record p {
        next_epic_num = p.next_epic_num + 1;
        next_feature_num = p.next_feature_num + 1;
        next_task_num = p.next_task_num + 1;
      })
unfolding get_project
import_plan-counters k plan w {p} h =
    let w₁ : World = with_epic_num k w h in
    let (e, h₁) = next_epic_number-moves k w h in
    let w₂ : World = with_feature_num k w₁ h₁ in
    let (f, h₂) = next_feature_number-moves k w₁ h₁ in
    let w₃ : World = with_task_num k w₂ h₂ in
    let (t, h₃) = next_task_number-moves k w₂ h₂ in
    rw (import_plan-projects k plan w w₁ w₂ w₃ _ _ _ e f t) h₃
