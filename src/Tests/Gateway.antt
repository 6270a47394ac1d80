-- ===== src/Tests/Gateway.antt =====
-- The credentials of requests on the sample world.
use cloglog.Base.{
  String, ◌≡◌, refl, ◌⊎◌, none, some, arith, str_eq, starts_with, drop_prefix, update_where, find,
  map, [], ◌∷◌, if◌then◌else◌,
}
use text.Mathlib.TextEquality.{eq_iff}
use cloglog.Models.{World}
use cloglog.Board.Repository.{get_task, update_task}
use cloglog.Board.Service.{create_document}
use cloglog.Agent.Service.{report_artifact}
use cloglog.Agent.Repository.{set_agent_token_hash, get_worktree_by_token_hash, get_worktree}
use cloglog.Agent.Routes
use cloglog.Agent.RouteAccess.{AgentRoute, handle_route, MayCall, handle_route-MayCall}
use cloglog.Gateway.Outcome.{returned, http_exception}
use cloglog.Gateway.Auth.{HttpRequest, AuthSetting, get_current_agent, extract_bearer_token}
use cloglog.Gateway.Access.{access_control, is_agent_route}
use cloglog.Gateway.Credentials.{IsSound}
use cloglog.Tests.Sample.{sample, task}

-- A hash that shows what it hashes.
abbrev setting : AuthSetting
setting = record {
  hexdigest = λ t. t;
  compare_digest = λ a b. some (str_eq a b);
  uuid_of = λ s. if str_eq s "41" then some 41 else none;
  mcp_service_key = "service";
  dashboard_secret = "dashboard";
}

setting-IsSound : IsSound setting
setting-IsSound = record {
  compares = λ a b h. (eq_iff a b).0 (ground (arith, h));
  not_empty = refl;
}

-- Worktree 41 has the token "t".
abbrev with_token : World
with_token = (set_agent_token_hash 41 "t" sample).1

abbrev by_token : String → HttpRequest
by_token header = record {
  path = "/api/v1/agents/41/heartbeat";
  authorization = some header;
  x_api_key = none;
  x_mcp_request = none;
  x_dashboard_key = none;
  dashboard_key = none;
  worktree_id = some "41";
}

handle_route-MayCall_example :
    ((handle_route setting (by_token "Bearer t") AgentRoute.heartbeat_request with_token).1
      ≡ with_token)
    ⊎ MayCall setting (by_token "Bearer t") AgentRoute.heartbeat_request with_token
handle_route-MayCall_example =
    handle_route-MayCall setting (by_token "Bearer t") AgentRoute.heartbeat_request with_token
      setting-IsSound

-- The token of another agent is refused.
refused : (Routes.heartbeat_route setting (by_token "Bearer u") with_token).0 ≡ http_exception 401
unfolding Routes.heartbeat_route set_agent_token_hash get_current_agent extract_bearer_token
    drop_prefix get_worktree_by_token_hash update_where
refused = refl

-- A header that names no one passes the middleware, and `report_artifact` asks for no more.
passes : access_control setting (by_token "nobody") ≡ returned tt
unfolding access_control is_agent_route starts_with drop_prefix
passes = refl

-- A specification in review, and a request by no one, after which it has a document.
abbrev in_review : World
in_review = record sample { tasks = task 33 22 "review" "spec" none none ∷ [] }

attached :
    map
      (λ d. d.source_path)
      (Routes.report_artifact_route setting
        (by_token "nobody")
        33
        "/w/b/x.md"
        in_review).1.documents
    ≡ "/w/b/x.md" ∷ []
unfolding Routes.report_artifact_route report_artifact get_worktree find get_task update_task
    create_document
attached = refl
