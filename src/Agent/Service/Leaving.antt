-- ===== src/Agent/Service/Leaving.antt =====
-- How a worktree goes: it leaves, it is forced out, it is swept away, or its heartbeat stops.
use cloglog.Base.{
  ℕ, ◌-◌, String, Bool, true, false, not, Option, none, some, List, [], ◌∷◌, ◌==◌, length,
}
use cloglog.Models.{Worktree, Session, EventType, Value, uuid, str, strs}
use cloglog.Action.{
  Action, value_error, permission_error, worktree_not_found, pure, raise, raise_if, gets, publish,
  ◌>>=◌, ◌>>◌, unless_none,
}
use cloglog.Agent.Repository.{
  get_worktree, get_worktree_by_path, get_offline_worktrees, delete_worktree, set_worktree_offline,
  end_session, get_timed_out_sessions,
}
use cloglog.Agent.Service.Connecting.{end_active_session}

-- WORKTREE_OFFLINE and then AGENT_UNREGISTERED, with the same data.
unfoldable pub publish_offline : ℕ → List (String × Value) → Action (Unit {0})
publish_offline project_id payload = do
  publish (record { type = EventType.worktree_offline; project_id = project_id; payload = payload })
  publish
      (record { type = EventType.agent_unregistered; project_id = project_id; payload = payload })

abbrev pub artifacts_of : Option (List (String × Option String)) → List (String × Value)
artifacts_of none = []
artifacts_of (some m) = ("artifacts", strs m) ∷ []

unfoldable pub unregister : ℕ → Option (List (String × Option String)) → Action (Unit {0})
unregister worktree_id artifacts = do
  worktree ← gets (λ w. get_worktree w worktree_id)
  unless_none worktree (raise (value_error worktree_not_found)) λ v. do
    end_active_session worktree_id "ended"
    publish_offline v.project_id (
        ("worktree_id", uuid worktree_id)
        ∷ ("worktree_path", str v.worktree_path)
        ∷ artifacts_of artifacts)
    delete_worktree worktree_id

-- A caller with a project must be of the worktree's; the MCP service key has none.
abbrev pub is_foreign : Option ℕ → Worktree → Bool
is_foreign none v = false
is_foreign (some k) v = not (v.project_id == k)

abbrev pub caller_name : Option ℕ → Value
caller_name none = str "mcp_service"
caller_name (some k) = uuid k

-- Returns whether the worktree was gone already.
unfoldable pub force_unregister : ℕ → Option ℕ → Action Bool
force_unregister worktree_id caller_project_id = do
  worktree ← gets (λ w. get_worktree w worktree_id)
  unless_none worktree (pure true) λ v. do
    raise_if (is_foreign caller_project_id v) permission_error
    end_active_session worktree_id "force_unregistered"
    publish_offline v.project_id (
        ("worktree_id", uuid worktree_id)
        ∷ ("worktree_path", str v.worktree_path)
        ∷ ("reason", str "force_unregistered")
        ∷ ("caller_project_id", caller_name caller_project_id)
        ∷ [])
    delete_worktree worktree_id
    pure false

unfoldable pub unregister_by_path :
    ℕ → String → Option (List (String × Option String)) → Action (Unit {0})
unregister_by_path project_id path artifacts = do
  worktree ← get_worktree_by_path project_id path
  unless_none worktree (raise (value_error worktree_not_found)) λ v. unregister v.id artifacts

-- The loop of `remove_offline_agents`.
unfoldable pub remove_worktrees : List Worktree → Action (Unit {0})
remove_worktrees [] = pure tt
remove_worktrees (v ∷ vs) = do
  end_active_session v.id "ended"
  delete_worktree v.id
  remove_worktrees vs

unfoldable pub remove_offline_agents : ℕ → Action ℕ
remove_offline_agents project_id = do
  offline ← gets (λ w. get_offline_worktrees w project_id)
  remove_worktrees offline
  pure (length offline)

-- The body of the loop of `check_heartbeat_timeouts`.
unfoldable pub time_out_session : Session → Action (Unit {0})
time_out_session s = do
  end_session s.id "timed_out"
  set_worktree_offline s.worktree_id
  worktree ← gets (λ w. get_worktree w s.worktree_id)
  unless_none worktree (pure tt) λ v.
      publish_offline v.project_id
        (("worktree_id", uuid s.worktree_id) ∷ ("reason", str "heartbeat_timeout") ∷ [])

-- The loop, over the sessions that timed out.
unfoldable pub time_out : List Session → Action (List ℕ)
time_out [] = pure []
time_out (s ∷ ss) = do time_out_session s; rest ← time_out ss; pure (s.worktree_id ∷ rest)

-- `timeout` is the setting `heartbeat_timeout_seconds`. Before the time 0 there is no heartbeat.
unfoldable pub check_heartbeat_timeouts : ℕ → Action (List ℕ)
check_heartbeat_timeouts timeout = do
  timed_out ← gets (λ w. get_timed_out_sessions w (w.now - timeout))
  time_out timed_out
