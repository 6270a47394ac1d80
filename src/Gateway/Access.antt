-- ===== src/Gateway/Access.antt =====
-- ApiAccessControlMiddleware (src/gateway/app.py): what it passes on to the routes. It looks whether
-- there is an Authorization header, not what it says.
use cloglog.Base.{Bool, not, ◌||◌, truthy?, str_eq, starts_with, if◌then◌else◌}
use cloglog.Gateway.Outcome.{Outcome, returned, http_exception}
use cloglog.Gateway.Auth.{HttpRequest, AuthSetting, first_truthy, token_or_empty, check_digest}

unfoldable pub is_agent_route : HttpRequest → Bool
is_agent_route q = starts_with q.path "/api/v1/agents/"

-- `call_next(request)` is the result `returned tt`.
unfoldable pub access_control : AuthSetting → HttpRequest → Outcome (Unit {0})
access_control c q =
    let key = first_truthy q.x_dashboard_key q.dashboard_key in
    if not (starts_with q.path "/api/v1/") || str_eq q.path "/api/v1/webhooks/github"
    then returned tt
    else if truthy? q.authorization
    then (if truthy? q.x_mcp_request || is_agent_route q then returned tt else http_exception 403)
    else if truthy? key
    then check_digest c 403 (token_or_empty key) c.dashboard_secret
    else http_exception 401
