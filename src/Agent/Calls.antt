-- ===== src/Agent/Calls.antt =====
-- The calls of the agents' service that touch sessions, one after another.
use cloglog.Base.{
  ℕ, String, ◌≡◌, refl, Bool, true, Option, none, List, [], ◌∷◌, arith, count, select, update_where,
  find,
}
use cloglog.Models.{World, Worktree, Session}
use cloglog.Action.{
  pure, raise, raise_if, value_error, worktree_not_found, permission_error, no_active_session,
  assertion_error,
}
use cloglog.Agent.Repository.{
  get_worktree, get_active_session, end_session, update_heartbeat, is_active, is_session, is_at,
  delete_worktree, set_worktree_offline, get_worktree_by_path, get_offline_worktrees,
  get_timed_out_sessions,
}
use cloglog.Agent.Service.{
  end_active_session, heartbeat, force_unregister, unregister_by_path, remove_worktrees,
  remove_offline_agents, time_out_session, time_out, check_heartbeat_timeouts, publish_offline,
  is_foreign,
}
use cloglog.Agent.Sessions.{
  Shrinks-self, Shrinking, then-Shrinking, unless_none-Shrinking, scalar_one_or_none-Shrinking,
  end_session-Shrinks, end_active_session-Shrinking, delete_worktree-Shrinking,
  publish_offline-Shrinking, unregister-Shrinking,
}

pub force_unregister-Shrinking : (k : ℕ) (caller : Option ℕ) → Shrinking (force_unregister k caller)
unfolding force_unregister
force_unregister-Shrinking k caller w =
    unless_none-Shrinking (get_worktree w k) (pure true) _ Shrinks-self
      (λ v. then-Shrinking (raise_if (is_foreign caller v) permission_error) _ Shrinks-self (λ _.
        then-Shrinking (end_active_session k "force_unregistered") _
          (end_active_session-Shrinking k "force_unregistered" refl)
          (λ _.
            then-Shrinking (publish_offline v.project_id _) _
              (publish_offline-Shrinking v.project_id _)
              (λ _.
                then-Shrinking (delete_worktree k) _ (delete_worktree-Shrinking k)
                  (λ _. Shrinks-self)))))
      w

pub unregister_by_path-Shrinking :
    (project_id : ℕ) (path : String) (artifacts : Option (List (String × Option String)))
    → Shrinking (unregister_by_path project_id path artifacts)
unfolding unregister_by_path get_worktree_by_path
unregister_by_path-Shrinking project_id path artifacts =
    then-Shrinking (get_worktree_by_path project_id path) _
      (λ w. scalar_one_or_none-Shrinking (select (is_at project_id path) w.worktrees) w)
      (λ o.
        unless_none-Shrinking o (raise (value_error worktree_not_found)) _ Shrinks-self
          (λ v. unregister-Shrinking v.id artifacts))

remove_worktrees-Shrinking : (vs : List Worktree) → Shrinking (remove_worktrees vs)
unfolding remove_worktrees
remove_worktrees-Shrinking [] = Shrinks-self
remove_worktrees-Shrinking (v ∷ vs) =
    then-Shrinking (end_active_session v.id "ended") _
      (end_active_session-Shrinking v.id "ended" refl)
      (λ _.
        then-Shrinking (delete_worktree v.id) _ (delete_worktree-Shrinking v.id)
          (λ _. remove_worktrees-Shrinking vs))

pub remove_offline_agents-Shrinking : (k : ℕ) → Shrinking (remove_offline_agents k)
unfolding remove_offline_agents
remove_offline_agents-Shrinking k w =
    then-Shrinking (remove_worktrees (get_offline_worktrees w k)) _
      (remove_worktrees-Shrinking (get_offline_worktrees w k)) (λ _. Shrinks-self) w

time_out_session-sessions :
    (s : Session) (w : World)
    → (time_out_session s w).1.sessions ≡ (end_session s.id "timed_out" w).1.sessions
unfolding time_out_session end_session set_worktree_offline publish_offline
time_out_session-sessions s w = ground arith

time_out-Shrinking : (ss : List Session) → Shrinking (time_out ss)
unfolding time_out
time_out-Shrinking [] = Shrinks-self
time_out-Shrinking (s ∷ ss) =
    then-Shrinking (time_out_session s) _
      (λ w k. rw (time_out_session-sessions s w) (end_session-Shrinks s.id "timed_out" w refl k))
      (λ _. then-Shrinking (time_out ss) _ (time_out-Shrinking ss) (λ _. Shrinks-self))

pub check_heartbeat_timeouts-Shrinking : (t : ℕ) → Shrinking (check_heartbeat_timeouts t)
unfolding check_heartbeat_timeouts
check_heartbeat_timeouts-Shrinking t w = time_out-Shrinking (get_timed_out_sessions w _) w

count-update_where-same :
    (q p : Session → Bool) (f : Session → Session) (rows : List Session)
    → ((x : Session) → q (f x) ≡ q x)
    → count q (update_where p f rows) ≡ count q rows
unfolding update_where
count-update_where-same q p f [] same = refl
count-update_where-same q p f (x ∷ rows) same =
    ground (arith, same x, count-update_where-same q p f rows same)

update_heartbeat-Shrinking : (k : ℕ) → Shrinking (update_heartbeat k)
unfolding update_heartbeat
update_heartbeat-Shrinking k w =
    unless_none-Shrinking (find (is_session k) w.sessions) (pure none) _ Shrinks-self
      (λ s v u.
        rw
          (count-update_where-same (is_active u) (is_session k)
            (λ r. record r { last_heartbeat = v.now }) v.sessions (λ x. refl))
          ground arith)
      w

pub heartbeat-Shrinking : (k : ℕ) → Shrinking (heartbeat k)
unfolding heartbeat get_active_session
heartbeat-Shrinking k =
    then-Shrinking (get_active_session k) _
      (λ w. scalar_one_or_none-Shrinking (select (is_active k) w.sessions) w)
      (λ o. unless_none-Shrinking o (raise (value_error no_active_session)) _ Shrinks-self (λ s.
        then-Shrinking (update_heartbeat s.id) _ (update_heartbeat-Shrinking s.id) (λ u.
          unless_none-Shrinking u (raise assertion_error) _ Shrinks-self (λ _. Shrinks-self))))
