-- ===== src/Agent/RouteAccess.antt =====
-- Who may change anything through the routes of the agents (src/agent/routes.py).
use cloglog.Base.{ℕ, String, ◌≡◌, ◌⊎◌, inl, inr, subst, Bool, Option, List, arith, Option-cases}
use cloglog.Models.{World, Project, Worktree}
use cloglog.Agent.Routes
use cloglog.Agent.Routes.{path_worktree, by_agent, by_supervisor}
use cloglog.Gateway.Outcome.{returned, Handler, depends, after-passed}
use cloglog.Gateway.Auth.{
  HttpRequest, AuthSetting, get_current_project, get_current_agent, get_mcp_or_project,
  get_supervisor_auth,
}
use cloglog.Gateway.Credentials.{
  IsSound, IsMcp, IsKeyOf, IsTokenOf, IsPath, IsSupervisor, check_path-eq,
  get_current_project_shows, get_current_agent_shows, get_mcp_or_project_shows,
  get_supervisor_auth_shows,
}

-- A request to one of the routes that write, with its body.
pub data AgentRoute : Type 0 where
  register_request : (token : ℕ → String) (path branch : String) → AgentRoute
  heartbeat_request : AgentRoute
  assign_task_request start_task_request mark_pr_merged_request : (task_id : ℕ) → AgentRoute
  complete_task_request : (task_id : ℕ) (pr_url : Option String) → AgentRoute
  update_task_status_request :
      (task_id : ℕ) (status : String) (pr_url : Option String) (skip_pr : Bool) → AgentRoute
  add_task_note_request : (task_id : ℕ) (note : String) → AgentRoute
  request_shutdown_request force_unregister_request unregister_request : AgentRoute
  unregister_by_path_request :
      (path : String) (artifacts : Option (List (String × Option String))) → AgentRoute
  close_off_request : (legacy_path : Option String) (path worktree_name : String) → AgentRoute

module _ (c : AuthSetting) (q : HttpRequest) where
  unfoldable pub handle_route : AgentRoute → Handler (Unit {0})
  handle_route (register_request token path branch) = Routes.register_route c q token path branch
  handle_route heartbeat_request = Routes.heartbeat_route c q
  handle_route (assign_task_request task_id) = Routes.assign_task_route c q task_id
  handle_route (start_task_request task_id) = Routes.start_task_route c q task_id
  handle_route (mark_pr_merged_request task_id) = Routes.mark_pr_merged_route c q task_id
  handle_route (complete_task_request task_id pr_url) =
      Routes.complete_task_route c q task_id pr_url
  handle_route (update_task_status_request task_id status pr_url skip_pr) =
      Routes.update_task_status_route c q task_id status pr_url skip_pr
  handle_route (add_task_note_request task_id note) = Routes.add_task_note_route c q task_id note
  handle_route request_shutdown_request = Routes.request_shutdown_route c q
  handle_route force_unregister_request = Routes.force_unregister_route c q
  handle_route unregister_request = Routes.unregister_route c q
  handle_route (unregister_by_path_request path artifacts) =
      Routes.unregister_by_path_route c q path artifacts
  handle_route (close_off_request legacy_path path worktree_name) =
      Routes.close_off_route c q legacy_path path worktree_name

  -- An agent's own token, for the worktree of the path.
  abbrev pub IsAgent : World → Type 0
  IsAgent w = (v : Worktree) × IsPath c q v.id × IsTokenOf c q w v

  abbrev pub IsProject : World → Type 0
  IsProject w = (p : Project) × IsKeyOf c q w p

  -- The credentials that a route asks for.
  abbrev pub MayCall : AgentRoute → World → Type 0
  MayCall (register_request token path branch) w = IsProject w
  MayCall (unregister_by_path_request path artifacts) w = IsProject w
  MayCall (close_off_request legacy_path path worktree_name) w = IsProject w
  MayCall force_unregister_request w = IsMcp c q ⊎ IsProject w
  MayCall (assign_task_request task_id) w = (v : Worktree) × IsPath c q v.id × IsSupervisor c q w v
  MayCall request_shutdown_request w = (v : Worktree) × IsPath c q v.id × IsSupervisor c q w v
  MayCall r w = IsAgent w

  path_worktree-IsPath : {k : ℕ} → path_worktree c q ≡ returned k → IsPath c q k
  path_worktree-IsPath {k} h = elim (Option-cases q.worktree_id) [
    | inl e ↦ absurd (ground arith)
    | inr (param, e) ↦ elim (Option-cases (c.uuid_of param)) [
      | inl n ↦ absurd (ground arith)
      | inr (n, read) ↦ (param, e, ground arith)
    ]
  ]

  by_agent-passed :
      (k : ℕ → Handler (Unit {0})) (w : World) → IsSound c → ((by_agent c q k w).1 ≡ w) ⊎ IsAgent w
  by_agent-passed k w sound = elim (after-passed (get_current_agent c q w) _ w) [
    | inl e ↦ inl e
    | inr (v, passed) ↦
        let (token, checked) = get_current_agent_shows c q w v passed in
        elim (after-passed (path_worktree c q) k w) [
          | inl e ↦ inl (rw passed e)
          | inr (n, named) ↦
              let at : IsPath c q n = path_worktree-IsPath named in
              inr (v, subst (IsPath c q) (check_path-eq c q v n sound at checked) at, token)
        ]
  ]

  by_supervisor-passed :
      (k : ℕ → Handler (Unit {0})) (w : World)
      → IsSound c
      → ((by_supervisor c q k w).1 ≡ w) ⊎ ((v : Worktree) × IsPath c q v.id × IsSupervisor c q w v)
  by_supervisor-passed k w sound = elim (after-passed (get_supervisor_auth c q w) _ w) [
    | inl e ↦ inl e
    | inr (v, passed) ↦
        let (at, who) = get_supervisor_auth_shows c q w v sound passed in inr (v, at, who)
  ]

  by_project-passed :
      (k : Project → Handler (Unit {0})) (w : World)
      → ((depends (get_current_project c q) k w).1 ≡ w) ⊎ IsProject w
  by_project-passed k w = elim (after-passed (get_current_project c q w) k w) [
    | inl e ↦ inl e
    | inr (p, passed) ↦ inr (p, get_current_project_shows c q w p passed)
  ]

  by_caller-passed :
      (k : Option Project → Handler (Unit {0})) (w : World)
      → IsSound c
      → ((depends (get_mcp_or_project c q) k w).1 ≡ w) ⊎ IsMcp c q ⊎ IsProject w
  by_caller-passed k w sound = elim (after-passed (get_mcp_or_project c q w) k w) [
    | inl e ↦ inl e
    | inr (caller, passed) ↦ elim (get_mcp_or_project_shows c q w caller sound passed) [
      | inl mcp ↦ inr (inl mcp)
      | inr (p, e, shown) ↦ inr (inr (p, shown))
    ]
  ]

  -- Every route that writes, but `report_artifact`, changes nothing unless the request carries the
  -- credentials that the route asks for: a project's API key, the token of the agent that the path
  -- names, the key of the MCP service, or a supervisor's of these for the worktree of the path.
  pub handle_route-MayCall :
      (r : AgentRoute) (w : World) → IsSound c → ((handle_route r w).1 ≡ w) ⊎ MayCall r w
  unfolding handle_route Routes.register_route Routes.heartbeat_route Routes.assign_task_route
      Routes.start_task_route Routes.mark_pr_merged_route Routes.complete_task_route
      Routes.update_task_status_route Routes.add_task_note_route Routes.request_shutdown_route
      Routes.force_unregister_route Routes.unregister_route Routes.unregister_by_path_route
      Routes.close_off_route
  handle_route-MayCall (register_request token path branch) w sound = by_project-passed _ w
  handle_route-MayCall (unregister_by_path_request path artifacts) w sound = by_project-passed _ w
  handle_route-MayCall (close_off_request legacy_path path worktree_name) w sound =
      by_project-passed _ w
  handle_route-MayCall force_unregister_request w sound = by_caller-passed _ w sound
  handle_route-MayCall (assign_task_request task_id) w sound = by_supervisor-passed _ w sound
  handle_route-MayCall request_shutdown_request w sound = by_supervisor-passed _ w sound
  handle_route-MayCall heartbeat_request w sound = by_agent-passed _ w sound
  handle_route-MayCall (start_task_request task_id) w sound = by_agent-passed _ w sound
  handle_route-MayCall (mark_pr_merged_request task_id) w sound = by_agent-passed _ w sound
  handle_route-MayCall (complete_task_request task_id pr_url) w sound = by_agent-passed _ w sound
  handle_route-MayCall (update_task_status_request task_id status pr_url skip_pr) w sound =
      by_agent-passed _ w sound
  handle_route-MayCall (add_task_note_request task_id note) w sound = by_agent-passed _ w sound
  handle_route-MayCall unregister_request w sound = by_agent-passed _ w sound
