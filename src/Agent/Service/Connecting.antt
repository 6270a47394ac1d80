-- ===== src/Agent/Service/Connecting.antt =====
-- Registration, shutdown requests and heartbeats.
use Prim.Native.String.{◌++◌ as text_append}
use text.Mathlib.Text.{find?}
use cloglog.Base.{
  ℕ, String, Bool, not, Option, none, some, [], ◌∷◌, ◌++◌, truthy, is_some, if◌then◌else◌,
}
use cloglog.Models.{World, Worktree, Task, EventType, uuid, str}
use cloglog.Action.{
  Action, value_error, worktree_not_found, no_worktree_path, no_active_session, os_error,
  assertion_error, pure, raise, raise_if, modify, gets, uuid4, publish, ◌>>=◌, ◌>>◌, unless_none,
}
use cloglog.Board.Repository.{get_task}
use cloglog.Agent.Repository.{
  get_worktree, upsert_worktree, set_agent_token_hash, get_active_session, end_session,
  create_session, update_heartbeat, flag_shutdown,
}

-- `_derive_worktree_role`
unfoldable pub derive_worktree_role : String → String
derive_worktree_role path =
    if is_some (find? path "/.claude/worktrees/") then "worktree" else "main"

-- The dictionary that `register` returns; the token is the UUID that it was made of.
pub record Registration : Type 0 where
  pub worktree_id : ℕ
  pub session_id : ℕ
  pub project_id : ℕ
  pub current_task : Option Task
  pub resumed : Bool
  pub agent_token : ℕ

-- `end any stale active session`, and `if session is not None: end_session(session.id, status)`
unfoldable pub end_active_session : ℕ → String → Action (Unit {0})
end_active_session worktree_id status = do
  session ← get_active_session worktree_id
  unless_none session (pure tt) λ s. end_session s.id status

-- The task that the worktree is at, if it is there.
abbrev pub current_task_of : World → Worktree → Option Task
current_task_of w v = elim v.current_task_id [ none ↦ none | some k ↦ get_task w k ]

-- `token_hash` is the SHA-256 of the token's digits.
unfoldable pub register : (ℕ → String) → ℕ → String → String → Action Registration
register token_hash project_id path branch_name = do
  (worktree, is_new) ← upsert_worktree project_id path branch_name (derive_worktree_role path)
  agent_token ← uuid4
  set_agent_token_hash worktree.id (token_hash agent_token)
  end_active_session worktree.id "ended"
  session ← create_session worktree.id
  current_task ← gets (λ w. current_task_of w worktree)
  publish (record {
    type = EventType.worktree_online;
    project_id = project_id;
    payload = ("worktree_id", uuid worktree.id) ∷ ("worktree_path", str path) ∷ [];
  })
  pure (record {
    worktree_id = worktree.id;
    session_id = session.id;
    project_id = project_id;
    current_task = current_task;
    resumed = not is_new;
    agent_token = agent_token;
  })

-- Appends a line to the inbox file, if the file can be written.
unfoldable pub append_to_inbox : String → String → Action (Unit {0})
append_to_inbox path line w =
    if w.writable path
    then modify (λ v. record v { inboxes = v.inboxes ++ (path, line) ∷ [] }) w
    else raise os_error w

-- The line is a JSON object of type `shutdown`; its fixed text is left out.
unfoldable pub request_shutdown : ℕ → Action (Unit {0})
request_shutdown worktree_id = do
  worktree ← gets (λ w. get_worktree w worktree_id)
  unless_none worktree (raise (value_error worktree_not_found)) λ v. do
    raise_if (not (truthy v.worktree_path)) (value_error no_worktree_path)
    append_to_inbox (text_append v.worktree_path "/.cloglog/inbox") "shutdown"
    flag_shutdown worktree_id

-- Returns the time of the heartbeat.
unfoldable pub heartbeat : ℕ → Action ℕ
heartbeat worktree_id = do
  session ← get_active_session worktree_id
  unless_none session (raise (value_error no_active_session)) λ s. do
    updated ← update_heartbeat s.id
    unless_none updated (raise assertion_error) λ u. pure u.last_heartbeat
