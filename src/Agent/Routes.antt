-- ===== src/Agent/Routes.antt =====
-- The routes of the agents (src/agent/routes.py). The bodies are read and checked by FastAPI, and are
-- arguments here; of an answer the model keeps what the service returned.
use cloglog.Base.{ℕ, String, Bool, Option, none, some, List, [], ◌∷◌, is_some, if◌then◌else◌}
use cloglog.Models.{uuid, str, Project, Worktree, Task, task_note_added, task_created}
use cloglog.Action.{
  Action, Error, value_error, task_blocked, permission_error, assertion_error, already_active, pure,
  raise, gets, publish, ◌>>=◌, ◌>>◌, unless_none,
}
use cloglog.Board.Repository.{
  get_task, get_feature, get_epic, add_task_note, get_tasks_for_worktree,
}
use cloglog.Board.Service.{create_close_off_task}
use cloglog.Agent.Repository.{get_worktree_by_path, get_main_agent_worktree}
use cloglog.Agent.Service
use cloglog.Gateway.Outcome.{
  Outcome, returned, http_exception, server_error, Handler, depends, after, calls, uncaught,
  required, of_result,
}
use cloglog.Gateway.Auth.{
  HttpRequest, AuthSetting, get_current_project, get_current_agent, get_mcp_or_dashboard,
  get_mcp_or_project, get_supervisor_auth,
}

-- `except ValueError as e: raise HTTPException(status_code=status)`
abbrev pub value_errors : {A : Type 0} → ℕ → Error → Outcome A
value_errors status (value_error r) = http_exception status
value_errors status e = server_error

-- The message of `already_active` is the only one with "Cannot start".
abbrev pub start_errors : {A : Type 0} → Error → Outcome A
start_errors (task_blocked bs) = http_exception 409
start_errors (value_error already_active) = http_exception 409
start_errors (value_error r) = http_exception 404
start_errors e = server_error

abbrev pub status_errors : {A : Type 0} → Error → Outcome A
status_errors (task_blocked bs) = http_exception 409
status_errors e = value_errors 409 e

abbrev pub permission_errors : {A : Type 0} → Error → Outcome A
permission_errors permission_error = http_exception 403
permission_errors e = server_error

-- `caller.id if caller is not None else None`
abbrev pub caller_id : Option Project → Option ℕ
caller_id none = none
caller_id (some p) = some p.id

-- The path parameter `worktree_id`, which FastAPI has read as a UUID.
abbrev pub path_worktree : AuthSetting → HttpRequest → Outcome ℕ
path_worktree c q = elim q.worktree_id [
  | none ↦ http_exception 422
  | some s ↦ elim (c.uuid_of s) [ none ↦ http_exception 422 | some k ↦ returned k ]
]

-- What `add_task_note` does once the task is found.
unfoldable pub note_task : Task → String → Action (Unit {0})
note_task t note = do
  add_task_note t.id note
  feature ← gets (λ w. get_feature w t.feature_id)
  unless_none feature (raise assertion_error) λ f. do
    epic ← gets (λ w. get_epic w f.epic_id)
    unless_none epic (raise assertion_error) λ e. publish (record {
      type = task_note_added;
      project_id = e.project_id;
      payload = ("task_id", uuid t.id) ∷ [];
    })

-- The main agent's worktree, by its role or by the path that is configured.
unfoldable pub resolve_main_agent : Option String → ℕ → Action (Option Worktree)
resolve_main_agent legacy_path project_id = do
  by_role ← gets (λ w. get_main_agent_worktree w project_id)
  if is_some by_role
      then pure by_role
      else elim legacy_path [ none ↦ pure none | some path ↦ get_worktree_by_path project_id path ]

-- The identifier of a main agent, if there is one.
abbrev pub id_of : Option Worktree → Option ℕ
id_of none = none
id_of (some v) = some v.id

unfoldable pub announce_close_off : ℕ → Worktree → Task → Bool → Action (Unit {0})
announce_close_off project_id v t created =
    if created
    then publish (record {
      type = task_created;
      project_id = project_id;
      payload =
          ("task_id", uuid t.id)
          ∷ ("title", str t.title)
          ∷ ("close_off_worktree_id", uuid v.id)
          ∷ [];
    })
    else pure tt

unfoldable pub close_off : Option String → ℕ → String → Worktree → Action (Unit {0})
close_off legacy_path project_id worktree_name v = do
  main_agent ← resolve_main_agent legacy_path project_id
  made ← create_close_off_task project_id v.id worktree_name (id_of main_agent)
  announce_close_off project_id v made.0 made.1

-- A service call whose answer the route sends back.
abbrev pub answers : {A : Type 0} → Action A → Action (Unit {0})
answers m = m >>= λ _. pure tt

-- The agent whose token the request carries, and the worktree of the path.
abbrev pub by_agent : AuthSetting → HttpRequest → (ℕ → Handler (Unit {0})) → Handler (Unit {0})
by_agent c q k = depends (get_current_agent c q) λ agent. after (path_worktree c q) k

abbrev pub by_supervisor : AuthSetting → HttpRequest → (ℕ → Handler (Unit {0})) → Handler (Unit {0})
by_supervisor c q k = depends (get_supervisor_auth c q) λ target. after (path_worktree c q) k

module _ (c : AuthSetting) (q : HttpRequest) where
  unfoldable pub register_route : (ℕ → String) → String → String → Handler (Unit {0})
  register_route token path branch =
      depends (get_current_project c q)
        λ project. calls uncaught (answers (Service.register token project.id path branch))

  unfoldable pub heartbeat_route : Handler (Unit {0})
  heartbeat_route =
      by_agent c q λ worktree_id. calls (value_errors 404) (answers (Service.heartbeat worktree_id))

  unfoldable pub get_tasks_route : Handler (List Task)
  get_tasks_route = depends (get_current_agent c q) λ agent.
      after (path_worktree c q)
        λ worktree_id. calls uncaught (gets (λ w. get_tasks_for_worktree w worktree_id))

  unfoldable pub assign_task_route : ℕ → Handler (Unit {0})
  assign_task_route task_id =
      by_supervisor c q
        λ worktree_id. calls (value_errors 404) (Service.assign_task worktree_id task_id)

  unfoldable pub start_task_route : ℕ → Handler (Unit {0})
  start_task_route task_id =
      by_agent c q
        λ worktree_id. calls start_errors (answers (Service.start_task worktree_id task_id))

  unfoldable pub complete_task_route : ℕ → Option String → Handler (Unit {0})
  complete_task_route task_id pr_url =
      by_agent c q
        λ worktree_id. calls (value_errors 409) (Service.complete_task worktree_id task_id pr_url)

  unfoldable pub update_task_status_route : ℕ → String → Option String → Bool → Handler (Unit {0})
  update_task_status_route task_id status pr_url skip_pr = by_agent c q λ worktree_id.
      calls status_errors (Service.update_task_status worktree_id task_id status pr_url skip_pr)

  unfoldable pub add_task_note_route : ℕ → String → Handler (Unit {0})
  add_task_note_route task_id note = by_agent c q λ worktree_id.
      depends (λ w. required 404 (get_task w task_id)) λ t. calls uncaught (note_task t note)

  unfoldable pub mark_pr_merged_route : ℕ → Handler (Unit {0})
  mark_pr_merged_route task_id =
      by_agent c q
        λ worktree_id. calls (value_errors 404) (Service.mark_pr_merged worktree_id task_id)

  -- The one route of an agent that depends on no credential.
  unfoldable pub report_artifact_route : ℕ → String → Handler (Unit {0})
  report_artifact_route task_id artifact_path = after (path_worktree c q) λ worktree_id.
      calls (value_errors 409) (answers (Service.report_artifact worktree_id task_id artifact_path))

  unfoldable pub request_shutdown_route : Handler (Unit {0})
  request_shutdown_route =
      by_supervisor c q
        λ worktree_id. calls (value_errors 409) (Service.request_shutdown worktree_id)

  unfoldable pub force_unregister_route : Handler (Unit {0})
  force_unregister_route = depends (get_mcp_or_project c q) λ caller.
      after (path_worktree c q) λ worktree_id.
        calls permission_errors (answers (Service.force_unregister worktree_id (caller_id caller)))

  unfoldable pub unregister_by_path_route :
      String → Option (List (String × Option String)) → Handler (Unit {0})
  unregister_by_path_route path artifacts =
      depends (get_current_project c q)
        λ project. calls (value_errors 404) (Service.unregister_by_path project.id path artifacts)

  unfoldable pub unregister_route : Handler (Unit {0})
  unregister_route =
      by_agent c q λ worktree_id. calls (value_errors 404) (Service.unregister worktree_id none)

  unfoldable pub list_worktrees_route : ℕ → Handler (List Service.WorktreeInfo)
  list_worktrees_route project_id =
      depends (λ _. get_mcp_or_dashboard c q)
        λ _. calls uncaught (gets (λ w. Service.list_worktrees w project_id))

  -- The setting is the path of the main agent that the configured inbox stands in.
  unfoldable pub close_off_route : Option String → String → String → Handler (Unit {0})
  close_off_route legacy_path path worktree_name = depends (get_current_project c q) λ project.
      depends (λ w. of_result (get_worktree_by_path project.id path w))
        λ row.
          after (required 404 row)
            λ v. calls uncaught (close_off legacy_path project.id worktree_name v)
