-- ===== src/Agent/Status.antt =====
-- Moving a task (`update_task_status` of src/agent/services.py).
use cloglog.Base.{
  ℕ, String, ◌≡◌, refl, ◌⊎◌, inl, inr, Bool, true, false, not, ◌&&◌, ◌||◌, Option, some, arith,
  str_eq, is_id, truthy?, update_where, Option-cases, find-update_where,
}
use cloglog.Models.{World, Worktree, Task}
use cloglog.Action.{
  ok, err, Error, value_error, agents_cannot_finish, not_close_off_owner, review_needs_pr,
  pr_already_used, raise_if, gets, when, ◌>>=◌, ◌>>◌, Guards, Guards-test, Guards-then,
}
use cloglog.Board.Repository.{get_task, update_task, is_task}
use cloglog.Board.Service.{recompute_rollup}
use cloglog.Agent.Repository.{get_worktree, set_worktree_current_task}
use cloglog.Agent.Service.{
  update_task_status, check_status, check_owner, check_ready, check_pr, check_reviewed,
  check_blockers, collect_all_blockers, is_close_off_task, is_reused, is_empty, move_to, move_task,
}

-- The guards raise or pass, and write nothing.
check_status-reads :
    (k : ℕ) (v : Worktree) (t : Task) (s : String) (url : Option String) (skip : Bool) (w : World)
    → (check_status k v t s url skip w).1 ≡ w
unfolding check_status check_owner check_ready check_blockers check_pr check_reviewed
check_status-reads k v t s url skip w = ground arith

recompute_rollup-tasks :
    (k : ℕ) (w : World) → (v : World) × (recompute_rollup k w ≡ (ok tt, v)) × (v.tasks ≡ w.tasks)
unfolding recompute_rollup
recompute_rollup-tasks k w = ((recompute_rollup k w).1, ground arith, ground arith)

-- The task as a move leaves it.
abbrev pub moved : String → Option String → World → Task → Task
moved s url w t = record (move_to s url t) { updated_at = w.now }

abbrev written : ℕ → String → Option String → World → World
written task_id s url w = record w {
  tasks = update_where (is_task task_id) (moved s url w) w.tasks;
}

update_task-writes :
    (task_id : ℕ) (s : String) (url : Option String) (w : World) {t : Task}
    → get_task w task_id ≡ some t
    → update_task task_id (move_to s url) w ≡ (ok (some (moved s url w t)), written task_id s url w)
unfolding update_task
update_task-writes task_id s url w h = ground arith

-- The writes of a move end well, and of the tasks only the moved one is changed.
move_task-writes :
    (k task_id : ℕ) (v : Worktree) (s : String) (url : Option String) (w : World) {t : Task}
    → get_task w task_id ≡ some t
    → ((move_task k task_id v t s url w).0 ≡ ok tt)
      × ((move_task k task_id v t s url w).1.tasks
          ≡ update_where (is_task task_id) (moved s url w) w.tasks)
unfolding move_task set_worktree_current_task
move_task-writes k task_id v s url w {t} h =
    let step = update_task-writes task_id s url w h in
    let (u, rolls, same) = recompute_rollup-tasks t.feature_id (written task_id s url w) in
    ground arith

-- A move that is refused changes nothing.
update_task_status-atomic :
    (k task_id : ℕ) (s : String) (url : Option String) (skip : Bool) (w : World) (e : Error)
    → (update_task_status k task_id s url skip w).0 ≡ err e
    → (update_task_status k task_id s url skip w).1 ≡ w
unfolding update_task_status
update_task_status-atomic k task_id s url skip w e h = elim (Option-cases (get_worktree w k)) [
  | inl absent ↦ ground arith
  | inr (v, ev) ↦ elim (Option-cases (get_task w task_id)) [
    | inl absent ↦ ground arith
    | inr (t, et) ↦
        ground
          (arith, check_status-reads k v t s url skip w, move_task-writes k task_id v s url w et)
  ]
]

-- What the guards ask, stated by the status that is asked for: "done" is for close-off tasks, by the
-- main agent that owns them, and for a spec or an implementation only from review; "in_progress" is
-- for tasks with no blockers; "review" wants a pull request, or the word that none is needed, and
-- one that no finished task of the feature has used.
abbrev pub may_move : ℕ → Worktree → Task → String → Option String → Bool → World → Bool
may_move k v t s url skip w =
    (not (str_eq s "done")
      || is_close_off_task w t
        && is_id t.worktree_id k
        && str_eq v.role "main"
        && (not (str_eq t.task_type "spec" || str_eq t.task_type "impl")
            || str_eq t.status "review"))
    && (not (str_eq s "in_progress") || is_empty (collect_all_blockers w t))
    && (not (str_eq s "review")
        || (truthy? url || truthy? t.pr_url || skip) && not (is_reused w t url))

-- The rules as a Boolean identity over the answers of the single tests.
rules :
    (done close owner main begins empty reviews url old_url skip reused kinds reviewed : Bool)
    → ((not (done && not close) && not (done && close && (not owner || not main)))
        && ((not begins || empty)
            && ((not (reviews && not url && not old_url && not skip) && not (reviews && reused))
                && not (done && kinds && not reviewed))))
      ≡ ((not done || close && owner && main && (not kinds || reviewed))
          && (not begins || empty)
          && (not reviews || (url || old_url || skip) && not reused))
rules true true true true b e r u o s x k v = ground arith
rules true false owner main b e r u o s x k v = ground arith
rules true true false main b e r u o s x k v = ground arith
rules true true true false b e r u o s x k v = ground arith
rules false c owner main b e r u o s x k v = ground arith

raise_if-once : (b : Bool) (e : Error) (w : World) → Guards (raise_if b e) (not b) w
raise_if-once true e w = inr (refl, e, refl)
raise_if-once false e w = inl (refl, refl)

-- Two guards, the second on a value that is read after the first has passed.
raise_if-twice :
    {A : Type 0} (f : World → A) (a : Bool) (b : A → Bool) (e e' : Error) (w : World)
    → Guards (do raise_if a e; x ← gets f; raise_if (b x) e') (not a && not (b (f w))) w
raise_if-twice f true b e e' w = inr (refl, e, refl)
raise_if-twice f false b e e' w = raise_if-once (b (f w)) e' w

when-raise_if :
    (p b : Bool) (e : Error) (w : World) → Guards (when p (raise_if (not b) e)) (not p || b) w
when-raise_if false b e w = inl (refl, refl)
when-raise_if true true e w = inl (refl, refl)
when-raise_if true false e w = inr (refl, e, refl)

check_owner-Guards :
    (k : ℕ) (v : Worktree) (t : Task) (s : String) (w : World)
    → Guards
        (check_owner k v t s)
        (not (str_eq s "done" && not (is_close_off_task w t))
          && not (
              str_eq s "done"
              && is_close_off_task w t
              && (not (is_id t.worktree_id k) || not (str_eq v.role "main"))))
        w
unfolding check_owner
check_owner-Guards k v t s w =
    let close = is_close_off_task w t in
    Guards-then (raise_if (str_eq s "done" && not close) (value_error agents_cannot_finish))
      (raise_if
        (str_eq s "done" && close && (not (is_id t.worktree_id k) || not (str_eq v.role "main")))
        (value_error not_close_off_owner))
      (not (str_eq s "done" && not close)) _ w (raise_if-once _ _ w) (raise_if-once _ _ w)

check_ready-Guards :
    (t : Task) (s : String) (w : World)
    → Guards
        (check_ready t s)
        (not (str_eq s "in_progress") || is_empty (collect_all_blockers w t))
        w
unfolding check_ready check_blockers
check_ready-Guards t s w = when-raise_if _ _ _ w

check_pr-Guards :
    (t : Task) (s : String) (url : Option String) (skip : Bool) (w : World)
    → Guards
        (check_pr t s url skip)
        (not (str_eq s "review" && not (truthy? url) && not (truthy? t.pr_url) && not skip)
          && not (str_eq s "review" && is_reused w t url))
        w
unfolding check_pr
check_pr-Guards t s url skip w =
    raise_if-twice (λ u. is_reused u t url)
      (str_eq s "review" && not (truthy? url) && not (truthy? t.pr_url) && not skip)
      (λ x. str_eq s "review" && x) (value_error review_needs_pr) (value_error pr_already_used) w

check_status-Guards :
    (k : ℕ) (v : Worktree) (t : Task) (s : String) (url : Option String) (skip : Bool) (w : World)
    → Guards (check_status k v t s url skip) (may_move k v t s url skip w) w
unfolding check_status check_reviewed
check_status-Guards k v t s url skip w =
    let last = check_reviewed t s in
    let pr = check_pr t s url skip in
    Guards-test (check_status k v t s url skip) w
      (rules (str_eq s "done") (is_close_off_task w t) (is_id t.worktree_id k)
        (str_eq v.role "main") (str_eq s "in_progress") (is_empty (collect_all_blockers w t))
        (str_eq s "review") (truthy? url) (truthy? t.pr_url) skip (is_reused w t url)
        (str_eq t.task_type "spec" || str_eq t.task_type "impl") (str_eq t.status "review"))
      (Guards-then (check_owner k v t s) (check_ready t s >> (pr >> last)) _ _ w
        (check_owner-Guards k v t s w)
        (Guards-then (check_ready t s) (pr >> last) _ _ w (check_ready-Guards t s w)
          (Guards-then pr last _ _ w (check_pr-Guards t s url skip w) (raise_if-once _ _ w))))

update_task_status-eq :
    (k task_id : ℕ) (s : String) (url : Option String) (skip : Bool) (w : World) {v : Worktree}
    {t : Task}
    → get_worktree w k ≡ some v
    → get_task w task_id ≡ some t
    → check_status k v t s url skip w ≡ (ok tt, w)
    → update_task_status k task_id s url skip w ≡ move_task k task_id v t s url w
unfolding update_task_status
update_task_status-eq k task_id s url skip w hv ht passes = rw (hv, ht, passes) refl

update_task_status-stops :
    (k task_id : ℕ) (s : String) (url : Option String) (skip : Bool) (w : World) {v : Worktree}
    {t : Task} {e : Error}
    → get_worktree w k ≡ some v
    → get_task w task_id ≡ some t
    → check_status k v t s url skip w ≡ (err e, w)
    → update_task_status k task_id s url skip w ≡ (err e, w)
unfolding update_task_status
update_task_status-stops k task_id s url skip w hv ht raises = rw (hv, ht, raises) refl

-- A move of a known task by a known worktree succeeds when the rules of the asked-for status hold,
-- and then the task has that status, and the pull request if one was given. When they do not hold
-- the move raises, and changes nothing.
pub update_task_status-decides :
    (k task_id : ℕ) (s : String) (url : Option String) (skip : Bool) (w : World) {v : Worktree}
    {t : Task}
    → get_worktree w k ≡ some v
    → get_task w task_id ≡ some t
    → let (r, w') = update_task_status k task_id s url skip w in
      ((may_move k v t s url skip w ≡ true)
        × (r ≡ ok tt)
        × (get_task w' task_id ≡ some (moved s url w t)))
      ⊎ ((may_move k v t s url skip w ≡ false) × (e : Error) × (r ≡ err e) × (w' ≡ w))
unfolding get_task
update_task_status-decides k task_id s url skip w {v} {t} hv ht =
    elim (check_status-Guards k v t s url skip w) [
      | inl (holds, passes) ↦
          let (returns, tasks) = move_task-writes k task_id v s url w ht in
          let runs = update_task_status-eq k task_id s url skip w hv ht passes in
          inl (
            holds,
            rw runs returns,
            rw (runs, tasks)
                (find-update_where (is_task task_id) (moved s url w) w.tasks (λ x e. kept x e) ht),
          )
      | inr (fails, e, raises) ↦
          let stops = update_task_status-stops k task_id s url skip w hv ht raises in
          inr (fails, e, rw stops refl, rw stops refl)
    ]
  where
    kept : (x : Task) → is_task task_id x ≡ true → is_task task_id (moved s url w x) ≡ true
    kept x e = ground arith
