-- ===== src/Gateway/Auth.antt =====
-- The credentials of a request (src/gateway/auth.py). SHA-256, `compare_digest`, which raises on texts
-- that are not ASCII, and the reading of a UUID are parameters. What the dependencies put down in
-- `request.state` is left out, since nothing reads it.
use cloglog.Base.{
  ℕ, String, Bool, not, Option, none, some, ◌==◌, truthy, truthy?, drop_prefix, if◌then◌else◌,
}
use cloglog.Models.{World, Project, Worktree}
use cloglog.Board.Service.{verify_api_key}
use cloglog.Agent.Repository.{get_worktree, get_worktree_by_token_hash}
use cloglog.Gateway.Outcome.{
  Outcome, returned, http_exception, server_error, required, refuse_if, of_result, ◌>>=◌, ◌>>◌,
}

-- The headers, the query parameter `dashboard_key` and the path parameter `worktree_id`.
pub record HttpRequest : Type 0 where
  pub path : String
  pub authorization : Option String
  pub x_api_key : Option String
  pub x_mcp_request : Option String
  pub x_dashboard_key : Option String
  pub dashboard_key : Option String
  pub worktree_id : Option String

pub record AuthSetting : Type 0 where
  pub hexdigest : String → String
  pub compare_digest : String → String → Option Bool
  pub uuid_of : String → Option ℕ
  pub mcp_service_key : String
  pub dashboard_secret : String

unfoldable pub extract_bearer_token : HttpRequest → Option String
extract_bearer_token q = elim q.authorization [
  | none ↦ q.x_api_key
  | some h ↦ elim (drop_prefix "Bearer " h) [ none ↦ q.x_api_key | some t ↦ some t ]
]

-- `token or ""`
abbrev pub token_or_empty : Option String → String
token_or_empty none = ""
token_or_empty (some t) = t

-- `a or b`
abbrev pub first_truthy : Option String → Option String → Option String
first_truthy a b = if truthy? a then a else b

module _ (c : AuthSetting) where
  -- `if not hmac.compare_digest(a, b): raise HTTPException(status_code=status)`
  unfoldable pub check_digest : ℕ → String → String → Outcome (Unit {0})
  check_digest status a b = elim (c.compare_digest a b) [
    | none ↦ server_error
    | some same ↦ refuse_if status (not same)
  ]

  unfoldable pub get_current_project : HttpRequest → World → Outcome Project
  get_current_project q w = do
    api_key ← required 401 (extract_bearer_token q)
    project ← of_result (verify_api_key c.hexdigest api_key w)
    required 401 project

  -- `if worktree_id_param and UUID(worktree_id_param) != worktree.id`
  unfoldable pub check_path : HttpRequest → Worktree → Outcome (Unit {0})
  check_path q v = elim q.worktree_id [
    | none ↦ returned tt
    | some s ↦
        if truthy s
        then elim (c.uuid_of s) [ none ↦ server_error | some k ↦ refuse_if 403 (not (k == v.id)) ]
        else returned tt
  ]

  unfoldable pub get_current_agent : HttpRequest → World → Outcome Worktree
  get_current_agent q w = do
    token ← required 401 (extract_bearer_token q)
    row ← of_result (get_worktree_by_token_hash (c.hexdigest token) w)
    worktree ← required 401 row
    check_path q worktree
    returned worktree

  unfoldable pub get_mcp_service : HttpRequest → Outcome (Unit {0})
  get_mcp_service q = do
    refuse_if 403 (not (truthy? q.x_mcp_request))
    check_digest 401 (token_or_empty (extract_bearer_token q)) c.mcp_service_key

  -- `if dash and hmac.compare_digest(dash, settings.dashboard_secret): return`
  unfoldable pub check_dashboard : Option String → Outcome (Unit {0})
  check_dashboard none = http_exception 401
  check_dashboard (some dash) =
      if truthy dash then check_digest 401 dash c.dashboard_secret else http_exception 401

  unfoldable pub get_mcp_or_dashboard : HttpRequest → Outcome (Unit {0})
  get_mcp_or_dashboard q =
      if truthy? q.x_mcp_request
      then check_digest 401 (token_or_empty (extract_bearer_token q)) c.mcp_service_key
      else check_dashboard (first_truthy q.x_dashboard_key q.dashboard_key)

  -- `none` is the MCP service.
  unfoldable pub get_mcp_or_project : HttpRequest → World → Outcome (Option Project)
  get_mcp_or_project q w = do
    let token = token_or_empty (extract_bearer_token q)
    refuse_if 401 (not (truthy token))
    if truthy? q.x_mcp_request
        then (check_digest 401 token c.mcp_service_key >> returned none)
        else (do
          row ← of_result (verify_api_key c.hexdigest token w)
          project ← required 401 row
          returned (some project))

  -- `UUID(worktree_id_param)`
  abbrev pub target_of : String → Outcome ℕ
  target_of param = elim (c.uuid_of param) [ none ↦ server_error | some k ↦ returned k ]

  -- The target's own token.
  unfoldable pub own_token : ℕ → String → World → Outcome Worktree
  own_token target_id token w = do
    row ← of_result (get_worktree_by_token_hash (c.hexdigest token) w)
    worktree ← required 401 row
    refuse_if 401 (not (worktree.id == target_id))
    returned worktree

  -- The API key of a project, which must own the target.
  unfoldable pub project_target : ℕ → Project → World → Outcome Worktree
  project_target target_id project w = do
    worktree ← required 404 (get_worktree w target_id)
    refuse_if 403 (not (worktree.project_id == project.id))
    returned worktree

  abbrev pub project_or_own : ℕ → String → Option Project → World → Outcome Worktree
  project_or_own target_id token none w = own_token target_id token w
  project_or_own target_id token (some project) w = project_target target_id project w

  unfoldable pub get_supervisor_auth : HttpRequest → World → Outcome Worktree
  get_supervisor_auth q w = do
    param ← required 400 q.worktree_id
    target_id ← target_of param
    if truthy? q.x_mcp_request
        then (do
          refuse_if 401 (not (truthy? (extract_bearer_token q)))
          check_digest 401 (token_or_empty (extract_bearer_token q)) c.mcp_service_key
          required 404 (get_worktree w target_id))
        else (do
          token ← required 401 (extract_bearer_token q)
          project ← of_result (verify_api_key c.hexdigest token w)
          project_or_own target_id token project w)
