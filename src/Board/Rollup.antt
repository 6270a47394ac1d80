-- ===== src/Board/Rollup.antt =====
-- The roll-up of statuses (`recompute_rollup` and `create_task` of src/board/services.py).
use text.Mathlib.TextEquality.{eq_iff}
use cloglog.Base.{
  [], ◌∷◌, any-column, all-column, any-or, any, not, ◌&&◌, ◌||◌, ℕ, String, ◌≡◌, refl, sym, subst,
  Bool, true, false, Option, some, List, arith, ◌==◌, ==_iff, ==_self, str_eq, all, map,
  find-update_where, find-eq-some, all-sort_by, all-map, all-select-append_last, if◌then◌else◌,
}
use cloglog.Models.{World, Epic, Feature, Task, Event}
use cloglog.Action.{ok}
use cloglog.Board.Repository.{
  get_feature, get_epic, get_tasks_for_feature, list_features, create_task_row, new_task,
  is_feature, is_epic,
}
use cloglog.Board.Service.{
  feature_status, epic_status, recompute_rollup, announce_rollup, create_task, set_feature_status,
  set_epic_status,
}

get_feature-set_status :
    (k : ℕ) (s : String) (w : World) {f : Feature}
    → get_feature w k ≡ some f
    → get_feature (set_feature_status f.id s w) k ≡ some (record f { status = s })
unfolding get_feature
get_feature-set_status k s w {f} h =
    let same : f.id ≡ k = (==_iff _ _).0 (find-eq-some (is_feature k) w.features h) in
    subst (λ (z : ℕ). get_feature (set_feature_status z s w) k ≡ some (record f { status = s }))
      (sym same)
      (find-update_where (is_feature k) (λ g. record g { status = s }) w.features (λ g e. e) h)

get_epic-set_status :
    (k : ℕ) (s : String) (w : World) {e : Epic}
    → get_epic w k ≡ some e
    → get_epic (set_epic_status e.id s w) k ≡ some (record e { status = s })
unfolding get_epic
get_epic-set_status k s w {e} h =
    let same : e.id ≡ k = (==_iff _ _).0 (find-eq-some (is_epic k) w.epics h) in
    subst (λ (z : ℕ). get_epic (set_epic_status z s w) k ≡ some (record e { status = s }))
      (sym same)
      (find-update_where (is_epic k) (λ g. record g { status = s }) w.epics (λ g e'. e') h)

-- The two writes of `recompute_rollup`.
abbrev rolled_feature : ℕ → Feature → World → World
rolled_feature k f w =
    set_feature_status f.id (feature_status (map (λ t. t.status) (get_tasks_for_feature w k))) w

abbrev rolled : ℕ → Feature → Epic → World → World
rolled k f e w =
    let v = rolled_feature k f w in
    set_epic_status e.id (epic_status (map (λ g. g.status) (list_features v e.id))) v

recompute_rollup-eq :
    (k : ℕ) (w : World) {f : Feature} {e : Epic}
    → get_feature w k ≡ some f
    → get_epic w f.epic_id ≡ some e
    → recompute_rollup k w ≡ (ok tt, rolled k f e w)
unfolding recompute_rollup get_epic
recompute_rollup-eq k w hf he = rw (hf, he) refl

-- Whether all tasks of a feature are done, or one has a status.
abbrev pub tasks_done : ℕ → World → Bool
tasks_done k w = all (λ t. not (t.feature_id == k) || str_eq t.status "done") w.tasks

abbrev pub has_task : ℕ → World → String → Bool
has_task k w status = any (λ t. (t.feature_id == k) && str_eq t.status status) w.tasks

abbrev pub features_done : ℕ → World → Bool
features_done k w = all (λ f. not (f.epic_id == k) || str_eq f.status "done") w.features

abbrev pub has_feature : ℕ → World → String → Bool
has_feature k w status = any (λ f. (f.epic_id == k) && str_eq f.status status) w.features

-- The status of a feature, by the tasks that the table has of it.
abbrev pub IsRollupOfTasks : ℕ → World → String → Type 0
IsRollupOfTasks k w s =
    (str_eq s "done" ≡ tasks_done k w)
    × (str_eq s "review" ≡ has_task k w "review")
    × (str_eq s "in_progress" ≡ (
        not (has_task k w "review") && (has_task k w "in_progress" || has_task k w "prioritized")))
    × (str_eq s "planned" ≡ (
        not (tasks_done k w)
        && not (has_task k w "review")
        && not (has_task k w "in_progress")
        && not (has_task k w "prioritized")))

-- The status of an epic, by the features that the table has of it.
abbrev pub IsRollupOfFeatures : ℕ → World → String → Type 0
IsRollupOfFeatures k w s =
    (str_eq s "done" ≡ features_done k w)
    × (str_eq s "in_progress" ≡ (has_feature k w "in_progress" || has_feature k w "review"))
    × (str_eq s "planned" ≡ (
        not (features_done k w)
        && not (has_feature k w "in_progress")
        && not (has_feature k w "review")))

-- What is done has no other status.
done-other :
    (v : String) (ss : List String)
    → str_eq "done" v ≡ false
    → all (λ s. str_eq s "done") ss ≡ true
    → any (λ s. str_eq s v) ss ≡ false
done-other v [] other done = refl
done-other v (s ∷ ss) other done =
    let same : s ≡ "done" = (eq_iff s "done").0 (ground arith) in
    let apart : str_eq s v ≡ false = subst (λ x. str_eq x v ≡ false) (sym same) other in
    ground (arith, done-other v ss other)

feature_chain :
    (a b c d : Bool)
    → (a ≡ true → b ≡ false)
    → (a ≡ true → c ≡ false)
    → (a ≡ true → d ≡ false)
    → let s : String =
        if a then "done" else if b then "review" else if c || d then "in_progress" else "planned" in
      (str_eq s "done" ≡ a)
      × (str_eq s "review" ≡ b)
      × (str_eq s "in_progress" ≡ (not b && (c || d)))
      × (str_eq s "planned" ≡ (not a && not b && not c && not d))
feature_chain true b c d hb hc hd = rw (hb refl, hc refl, hd refl) (refl, refl, refl, refl)
feature_chain false true c d hb hc hd = (refl, refl, refl, refl)
feature_chain false false true d hb hc hd = (refl, refl, refl, refl)
feature_chain false false false true hb hc hd = (refl, refl, refl, refl)
feature_chain false false false false hb hc hd = (refl, refl, refl, refl)

epic_chain :
    (a b c : Bool)
    → (a ≡ true → b ≡ false)
    → (a ≡ true → c ≡ false)
    → let s : String = if a then "done" else if b || c then "in_progress" else "planned" in
      (str_eq s "done" ≡ a)
      × (str_eq s "in_progress" ≡ (b || c))
      × (str_eq s "planned" ≡ (not a && not b && not c))
epic_chain true b c hb hc = rw (hb refl, hc refl) (refl, refl, refl)
epic_chain false true c hb hc = (refl, refl, refl)
epic_chain false false true hb hc = (refl, refl, refl)
epic_chain false false false hb hc = (refl, refl, refl)

abbrev is : String → String → Bool
is v s = str_eq s v

feature_status-IsRollup :
    (k : ℕ) (w : World)
    → IsRollupOfTasks k w (feature_status (map (λ t. t.status) (get_tasks_for_feature w k)))
unfolding feature_status get_tasks_for_feature
feature_status-IsRollup k w =
    let ss : List String = map (λ t. t.status) (get_tasks_for_feature w k) in
    let column = λ (v : String).
      any-column {A = Task} (is v) (λ t. t.status) (λ t. t.position) (λ t. t.feature_id == k)
        w.tasks in
    rw
      (
        any-or (is "in_progress") (is "prioritized") ss,
        sym (column "review"),
        sym (column "in_progress"),
        sym (column "prioritized"),
        sym (
            all-column {A = Task} (is "done") (λ t. t.status) (λ t. t.position)
              (λ t. t.feature_id == k) w.tasks),
      )
      (feature_chain (all (is "done") ss) (any (is "review") ss) (any (is "in_progress") ss)
        (any (is "prioritized") ss) (done-other "review" ss refl) (done-other "in_progress" ss refl)
        (done-other "prioritized" ss refl))

epic_status-IsRollup :
    (k : ℕ) (w : World)
    → IsRollupOfFeatures k w (epic_status (map (λ g. g.status) (list_features w k)))
unfolding epic_status list_features
epic_status-IsRollup k w =
    let ss : List String = map (λ g. g.status) (list_features w k) in
    let column = λ (v : String).
      any-column {A = Feature} (is v) (λ t. t.status) (λ t. t.position) (λ t. t.epic_id == k)
        w.features in
    rw
      (
        any-or (is "in_progress") (is "review") ss,
        sym (column "review"),
        sym (column "in_progress"),
        sym (
            all-column {A = Feature} (is "done") (λ t. t.status) (λ t. t.position)
              (λ t. t.epic_id == k) w.features),
      )
      (epic_chain (all (is "done") ss) (any (is "in_progress") ss) (any (is "review") ss)
        (done-other "in_progress" ss refl) (done-other "review" ss refl))

-- After `recompute_rollup` of a known feature with a known epic, the feature is "done" exactly when all its
-- tasks are, "review" exactly when one is in review, "in_progress" exactly when none is in review but one
-- is in progress or prioritized, and else "planned". Its epic is "done" exactly when all its features are,
-- the new status of this one counted, "in_progress" exactly when one is in progress or in review, and
-- else "planned". Nothing else of the two rows changes.
pub recompute_rollup_lem :
    (k : ℕ) (w : World) {f : Feature} {e : Epic}
    → get_feature w k ≡ some f
    → get_epic w f.epic_id ≡ some e
    → let w' = (recompute_rollup k w).1 in
      (s : String) × (get_feature w' k ≡ some (record f { status = s }))
      × IsRollupOfTasks k w' s
      × (z : String) × (get_epic w' f.epic_id ≡ some (record e { status = z }))
      × IsRollupOfFeatures e.id w' z
unfolding get_feature get_epic
recompute_rollup_lem k w {f} {e} hf he = rw (recompute_rollup-eq k w hf he) (
  feature_status (map (λ t. t.status) (get_tasks_for_feature w k)),
  get_feature-set_status k _ w hf,
  feature_status-IsRollup k w,
  epic_status (map (λ g. g.status) (list_features (rolled_feature k f w) e.id)),
  get_epic-set_status f.epic_id _ (rolled_feature k f w) {e = e} he,
  epic_status-IsRollup e.id (rolled_feature k f w),
)

first_done :
    (a b c : Bool)
    → str_eq
        (if a then "done" else if b then "review" else if c then "in_progress" else "planned")
        "done"
      ≡ a
first_done true b c = refl
first_done false true c = refl
first_done false false true = refl
first_done false false false = refl

first_done_of_epic :
    (a b : Bool) → str_eq (if a then "done" else if b then "in_progress" else "planned") "done" ≡ a
first_done_of_epic true b = refl
first_done_of_epic false true = refl
first_done_of_epic false false = refl

-- A feature reads "done" exactly when all its tasks are done; an epic likewise from its features.
status-eq_done :
    (statuses : List String)
    → (str_eq (feature_status statuses) "done" ≡ all (λ s. str_eq s "done") statuses)
      × (str_eq (epic_status statuses) "done" ≡ all (λ s. str_eq s "done") statuses)
unfolding feature_status epic_status
status-eq_done statuses = (first_done _ _ _, first_done_of_epic _ _)

-- The announcement changes only the events.
announce_rollup-frame :
    (k : ℕ) (old : Feature) (t : Task) (w : World)
    → (evs : List Event) × (announce_rollup k old t w ≡ (ok tt, record w { events = evs }))
unfolding announce_rollup
announce_rollup-frame k old t w = ((announce_rollup k old t w).1.events, ground arith)

module _ (k : ℕ) (title description priority : String) (position number : ℕ) (task_type : String)
    (model : Option String) (w : World) where
  abbrev added : Task
  added = new_task (w.uuids 0) w.now k title description priority position number task_type model

  abbrev made : World
  made = (create_task_row k title description priority position number task_type model w).1

  -- The new task is in the backlog, so not all tasks of the feature are done.
  made_not_done :
      all (λ s. str_eq s "done") (map (λ t. t.status) (get_tasks_for_feature made k)) ≡ false
  unfolding get_tasks_for_feature create_task_row
  made_not_done =
      rw (all-map, all-sort_by)
        (all-select-append_last (λ t. str_eq t.status "done") (λ t. t.feature_id == k) w.tasks _
          (==_self k) refl)

  -- `create_task` into a known feature returns a task in the backlog, and afterwards the feature
  -- is not "done", whatever it was before.
  create_task_reopens :
      {f : Feature} {e : Epic}
      → get_feature w k ≡ some f
      → get_epic w f.epic_id ≡ some e
      → let (r, w') = create_task k title description priority position number task_type model w in
        (t : Task) × (r ≡ ok t)
        × (t.status ≡ "backlog")
        × (f' : Feature) × (get_feature w' k ≡ some f')
        × (str_eq f'.status "done" ≡ false)
  unfolding create_task create_task_row get_feature get_epic
  create_task_reopens {f} {e} hf he =
      let rolls = recompute_rollup-eq k made {f = f} {e = e} hf he in
      let (evs, quiet) = announce_rollup-frame k f added (rolled k f e made) in
      rw (hf, rolls, quiet)
        (
          added,
          refl,
          refl,
          record f { status = feature_status (map (λ t. t.status) (get_tasks_for_feature made k)) },
          get_feature-set_status k _ made hf,
          rw (status-eq_done _).0 made_not_done,
        )
