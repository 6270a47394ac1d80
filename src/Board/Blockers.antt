-- ===== src/Board/Blockers.antt =====
-- What the board reports as blocking a task (`get_unresolved_blockers` of src/board/services.py).
use cloglog.Base.{
  ℕ, ◌≡◌, refl, inl, inr, Bool, true, false, not, ◌&&◌, some, List, [], ◌∷◌, ◌++◌, arith, leb, all,
  select, sort_by, Option-cases, ascending_by, sort_by-ascending, all-sort_by,
}
use cloglog.Models.{World, Feature, Task}
use cloglog.Action.{Blocker, feature_blocker, task_blocker, pipeline_blocker}
use cloglog.Board.Repository.{
  get_feature, get_task, get_tasks_for_feature, get_feature_dependencies, get_task_dependencies,
}
use cloglog.Board.Service.{
  task_resolved, rows_of, feature_blockers, task_blockers, get_unresolved_blockers,
}

abbrev pub is_nil {ℓ} : {A : Type ℓ} → List A → Bool
is_nil [] = true
is_nil (x ∷ xs) = false

pub is_nil-append {ℓ} : {A : Type ℓ} (xs ys : List A) → is_nil (xs ++ ys) ≡ (is_nil xs && is_nil ys)
is_nil-append [] ys = refl
is_nil-append (x ∷ xs) ys = refl

-- All tasks of a feature are resolved.
abbrev pub feature_resolved : World → Feature → Bool
feature_resolved w f = all task_resolved (get_tasks_for_feature w f.id)

is_nil-select-not {ℓ} :
    {A : Type ℓ} (p : A → Bool) (xs : List A) → is_nil (select (λ x. not (p x)) xs) ≡ all p xs
is_nil-select-not p [] = refl
is_nil-select-not p (x ∷ xs) = ground (arith, is_nil-select-not p xs)

is_nil-feature_blockers :
    (w : World) (fs : List Feature) → is_nil (feature_blockers w fs) ≡ all (feature_resolved w) fs
unfolding feature_blockers
is_nil-feature_blockers w [] = refl
is_nil-feature_blockers w (f ∷ fs) = ground (
  arith,
  is_nil-select-not task_resolved (get_tasks_for_feature w f.id),
  is_nil-feature_blockers w fs,
)

is_nil-task_blockers : (ts : List Task) → is_nil (task_blockers ts) ≡ all task_resolved ts
unfolding task_blockers
is_nil-task_blockers [] = refl
is_nil-task_blockers (t ∷ ts) = ground (arith, is_nil-task_blockers ts)

-- A task of a known feature has no blockers exactly when every task of every feature that its
-- feature depends on is resolved, and every task that it depends on itself is.
pub get_unresolved_blockers-nil :
    (w : World) (k : ℕ) {t : Task} {f : Feature}
    → get_task w k ≡ some t
    → get_feature w t.feature_id ≡ some f
    → is_nil (get_unresolved_blockers w k) ≡ (
        all (feature_resolved w) (rows_of (get_feature w) (get_feature_dependencies w f.id))
        && all task_resolved (rows_of (get_task w) (get_task_dependencies w k)))
unfolding get_unresolved_blockers
get_unresolved_blockers-nil w k ht hf =
    rw (get_unresolved_blockers, ht, hf)
      (rw (is_nil-append, is_nil-feature_blockers, is_nil-task_blockers, all-sort_by, all-sort_by)
        refl)

abbrev pub blocker_number : Blocker → ℕ
blocker_number (feature_blocker id number title tasks) = number
blocker_number (task_blocker id number title status) = number
blocker_number (pipeline_blocker kind id number title status reason) = number

module _ (w : World) where
  all-feature_blockers :
      (n : ℕ) (fs : List Feature)
      → all (λ f. leb n f.number) fs ≡ true
      → all (λ b. leb n (blocker_number b)) (feature_blockers w fs) ≡ true
  unfolding feature_blockers
  all-feature_blockers n [] h = refl
  all-feature_blockers n (f ∷ fs) h = ground (arith, all-feature_blockers n fs)

  feature_blockers-ascending :
      (fs : List Feature)
      → ascending_by (λ f. f.number) fs ≡ true
      → ascending_by blocker_number (feature_blockers w fs) ≡ true
  unfolding feature_blockers
  feature_blockers-ascending [] h = refl
  feature_blockers-ascending (f ∷ fs) h =
      ground (arith, feature_blockers-ascending fs, all-feature_blockers f.number fs)

all-task_blockers :
    (n : ℕ) (ts : List Task)
    → all (λ t. leb n t.number) ts ≡ true
    → all (λ b. leb n (blocker_number b)) (task_blockers ts) ≡ true
unfolding task_blockers
all-task_blockers n [] h = refl
all-task_blockers n (t ∷ ts) h = ground (arith, all-task_blockers n ts)

task_blockers-ascending :
    (ts : List Task)
    → ascending_by (λ t. t.number) ts ≡ true
    → ascending_by blocker_number (task_blockers ts) ≡ true
unfolding task_blockers
task_blockers-ascending [] h = refl
task_blockers-ascending (t ∷ ts) h =
    ground (arith, task_blockers-ascending ts, all-task_blockers t.number ts)

-- The constructor of a blocker, as its `kind` says.
abbrev pub is_feature_blocker : Blocker → Bool
is_feature_blocker (feature_blocker id number title tasks) = true
is_feature_blocker b = false

abbrev pub is_task_blocker : Blocker → Bool
is_task_blocker (task_blocker id number title status) = true
is_task_blocker b = false

feature_blockers-kind :
    (w : World) (fs : List Feature) → all is_feature_blocker (feature_blockers w fs) ≡ true
unfolding feature_blockers
feature_blockers-kind w [] = refl
feature_blockers-kind w (f ∷ fs) = ground (arith, feature_blockers-kind w fs)

task_blockers-kind : (ts : List Task) → all is_task_blocker (task_blockers ts) ≡ true
unfolding task_blockers
task_blockers-kind [] = refl
task_blockers-kind (t ∷ ts) = ground (arith, task_blockers-kind ts)

-- The blockers come in a stable order: those of features first, by ascending number, and then those
-- of tasks, by ascending number.
get_unresolved_blockers-ordered :
    (w : World) (k : ℕ)
    → (xs : List Blocker) × (ys : List Blocker) × (get_unresolved_blockers w k ≡ xs ++ ys)
      × (all is_feature_blocker xs ≡ true)
      × (ascending_by blocker_number xs ≡ true)
      × (all is_task_blocker ys ≡ true)
      × (ascending_by blocker_number ys ≡ true)
unfolding get_unresolved_blockers
get_unresolved_blockers-ordered w k = elim (Option-cases (get_task w k)) [
  | inl e ↦ ([], [], rw (get_unresolved_blockers, e), refl, refl, refl, refl)
  | inr (t, e) ↦ elim (Option-cases (get_feature w t.feature_id)) [
    | inl e' ↦ ([], [], rw (get_unresolved_blockers, e, e'), refl, refl, refl, refl)
    | inr (f, e') ↦
        let fs =
          sort_by (λ g. g.number) (rows_of (get_feature w) (get_feature_dependencies w f.id)) in
        let ts = sort_by (λ u. u.number) (rows_of (get_task w) (get_task_dependencies w k)) in
        (
          feature_blockers w fs,
          task_blockers ts,
          rw (get_unresolved_blockers, e, e'),
          feature_blockers-kind w fs,
          feature_blockers-ascending w fs (
              sort_by-ascending (λ (g : Feature). g.number)
                (rows_of (get_feature w) (get_feature_dependencies w f.id))),
          task_blockers-kind ts,
          task_blockers-ascending ts (
              sort_by-ascending (λ (u : Task). u.number)
                (rows_of (get_task w) (get_task_dependencies w k))),
        )
  ]
]
