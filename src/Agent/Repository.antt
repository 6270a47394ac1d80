-- ===== src/Agent/Repository.antt =====
-- AgentRepository (src/agent/repository.py).
use cloglog.Base.{
  ℕ, String, Bool, true, false, ◌&&◌, Option, none, some, List, [], ◌∷◌, ◌++◌, ◌==◌, ltb, str_eq,
  truthy, is_id, find, update_where, delete_where, select, sort_by, if◌then◌else◌,
}
use cloglog.Models.{World, Worktree, Session}
use cloglog.Action.{Action, pure, modify, gets, uuid4, scalar_one_or_none, ◌>>=◌, ◌>>◌, unless_none}

abbrev pub is_worktree : ℕ → Worktree → Bool
is_worktree k v = v.id == k

abbrev pub is_at : ℕ → String → Worktree → Bool
is_at project_id path v = v.project_id == project_id && str_eq v.worktree_path path

abbrev pub is_session : ℕ → Session → Bool
is_session k s = s.id == k

abbrev pub is_active : ℕ → Session → Bool
is_active worktree_id s = s.worktree_id == worktree_id && str_eq s.status "active"

abbrev pub set_worktree : ℕ → (Worktree → Worktree) → World → World
set_worktree k f w = record w { worktrees = update_where (is_worktree k) f w.worktrees }

abbrev pub set_session : ℕ → (Session → Session) → World → World
set_session k f w = record w { sessions = update_where (is_session k) f w.sessions }

unfoldable pub get_worktree : World → ℕ → Option Worktree
get_worktree w k = find (is_worktree k) w.worktrees

-- What a registration writes into a row that is there. An empty branch name is not written.
abbrev pub reconnect : String → String → Worktree → Worktree
reconnect branch_name role v = record v {
  status = "online";
  role = role;
  branch_name = if truthy branch_name then branch_name else v.branch_name;
}

-- The row that a registration inserts.
abbrev pub new_worktree : ℕ → ℕ → ℕ → String → String → String → Worktree
new_worktree id now project_id path branch_name role = record {
  id = id;
  project_id = project_id;
  worktree_path = path;
  branch_name = branch_name;
  status = "online";
  role = role;
  shutdown_requested = false;
  current_task_id = none;
  agent_token_hash = "";
  created_at = now;
}

unfoldable pub upsert_worktree : ℕ → String → String → String → Action (Worktree × Bool)
upsert_worktree project_id path branch_name role = do
  rows ← gets (λ w. select (is_at project_id path) w.worktrees)
  existing ← scalar_one_or_none rows
  unless_none existing
      (do
        id ← uuid4
        now ← gets (λ w. w.now)
        let v : Worktree = new_worktree id now project_id path branch_name role
        modify (λ w. record w { worktrees = w.worktrees ++ v ∷ [] })
        pure (v, true))
      (λ v. do
        modify (set_worktree v.id (reconnect branch_name role))
        pure (reconnect branch_name role v, false))

unfoldable pub get_main_agent_worktree : World → ℕ → Option Worktree
get_main_agent_worktree w k =
    find (λ _. true)
      (sort_by (λ v. v.created_at)
        (select (λ v. v.project_id == k && str_eq v.role "main") w.worktrees))

unfoldable pub get_worktrees_for_project : World → ℕ → List Worktree
get_worktrees_for_project w k =
    sort_by (λ v. v.created_at) (select (λ v. v.project_id == k) w.worktrees)

-- The latest time of the list.
unfoldable pub latest : List ℕ → Option ℕ
latest [] = none
latest (t ∷ ts) = elim (latest ts) [ none ↦ some t | some u ↦ if ltb t u then some u else some t ]

abbrev pub heartbeats : List Session → List ℕ
heartbeats [] = []
heartbeats (s ∷ ss) = s.last_heartbeat ∷ heartbeats ss

unfoldable pub get_latest_heartbeat : World → ℕ → Option ℕ
get_latest_heartbeat w k = latest (heartbeats (select (λ s. s.worktree_id == k) w.sessions))

unfoldable pub set_worktree_offline : ℕ → Action (Unit {0})
set_worktree_offline k = modify (set_worktree k (λ v. record v { status = "offline" }))

unfoldable pub set_worktree_current_task : ℕ → Option ℕ → Action (Unit {0})
set_worktree_current_task k task_id =
    modify (set_worktree k (λ v. record v { current_task_id = task_id }))

unfoldable pub flag_shutdown : ℕ → Action (Unit {0})
flag_shutdown k = modify (set_worktree k (λ v. record v { shutdown_requested = true }))

unfoldable pub set_agent_token_hash : ℕ → String → Action (Unit {0})
set_agent_token_hash k hash = modify (set_worktree k (λ v. record v { agent_token_hash = hash }))

unfoldable pub get_worktree_by_token_hash : String → Action (Option Worktree)
get_worktree_by_token_hash hash w =
    scalar_one_or_none (select (λ v. str_eq v.agent_token_hash hash) w.worktrees) w

unfoldable pub get_worktree_by_branch : ℕ → String → Action (Option Worktree)
get_worktree_by_branch project_id branch_name w =
    if truthy branch_name
    then scalar_one_or_none
        (select
          (λ v.
            v.project_id == project_id
            && str_eq v.branch_name branch_name
            && str_eq v.status "online")
          w.worktrees)
        w
    else pure none w

-- The only row of a list.
abbrev pub only {ℓ} : {A : Type ℓ} → List A → Option A
only [] = none
only (a ∷ []) = some a
only (a ∷ b ∷ _) = none

unfoldable pub find_worktree_by_branch_any_status : World → ℕ → String → Option Worktree
find_worktree_by_branch_any_status w project_id branch_name =
    if truthy branch_name
    then only
        (select (λ v. v.project_id == project_id && str_eq v.branch_name branch_name) w.worktrees)
    else none

unfoldable pub get_offline_worktrees : World → ℕ → List Worktree
get_offline_worktrees w k = select (λ v. v.project_id == k && str_eq v.status "offline") w.worktrees

unfoldable pub get_worktree_by_path : ℕ → String → Action (Option Worktree)
get_worktree_by_path project_id path w =
    scalar_one_or_none (select (is_at project_id path) w.worktrees) w

-- The sessions go first, then the row; `ON DELETE SET NULL` clears the close-off tasks that name it.
unfoldable pub delete_worktree : ℕ → Action (Unit {0})
delete_worktree k = modify (λ w. record w {
  sessions = delete_where (λ s. s.worktree_id == k) w.sessions;
  worktrees = delete_where (is_worktree k) w.worktrees;
  tasks =
      update_where (λ t. is_id t.close_off_worktree_id k)
        (λ t. record t { close_off_worktree_id = none }) w.tasks;
})

unfoldable pub create_session : ℕ → Action Session
create_session worktree_id = do
  id ← uuid4
  now ← gets (λ w. w.now)
  let s : Session = record {
    id = id;
    worktree_id = worktree_id;
    started_at = now;
    ended_at = none;
    last_heartbeat = now;
    status = "active";
  }
  modify (λ w. record w { sessions = w.sessions ++ s ∷ [] })
  pure s

unfoldable pub get_active_session : ℕ → Action (Option Session)
get_active_session worktree_id w = scalar_one_or_none (select (is_active worktree_id) w.sessions) w

unfoldable pub update_heartbeat : ℕ → Action (Option Session)
update_heartbeat k = do
  found ← gets (λ w. find (is_session k) w.sessions)
  unless_none found (pure none) λ s. do
    now ← gets (λ w. w.now)
    modify (set_session k (λ r. record r { last_heartbeat = now }))
    pure (some (record s { last_heartbeat = now }))

unfoldable pub end_session : ℕ → String → Action (Unit {0})
end_session k status =
    modify (λ w. set_session k (λ s. record s { status = status; ended_at = some w.now }) w)

unfoldable pub get_timed_out_sessions : World → ℕ → List Session
get_timed_out_sessions w cutoff =
    select (λ s. str_eq s.status "active" && ltb s.last_heartbeat cutoff) w.sessions
