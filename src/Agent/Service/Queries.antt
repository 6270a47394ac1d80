-- ===== src/Agent/Service/Queries.antt =====
-- The lookups that the gateway makes (`IWorktreeQuery`), and the listing of worktrees.
use Prim.Native.Char.{code}
use cloglog.Base.{
  ℕ, String, Option, none, some, List, map, ◌==◌, truthy, append_text, if◌then◌else◌,
}
use cloglog.Models.{World, Worktree}
use cloglog.Board.Repository.{find_task_by_pr_url_for_project}
use cloglog.Agent.Repository.{
  get_worktree, find_worktree_by_branch_any_status, get_latest_heartbeat, get_worktrees_for_project,
}

-- WorktreeRow (src/agent/interfaces.py)
pub record WorktreeRow : Type 0 where
  pub id : ℕ
  pub project_id : ℕ
  pub worktree_path : String
  pub branch_name : String
  pub status : String

abbrev pub row_of : Worktree → WorktreeRow
row_of v = record {
  id = v.id;
  project_id = v.project_id;
  worktree_path = v.worktree_path;
  branch_name = v.branch_name;
  status = v.status;
}

unfoldable pub find_by_branch : World → ℕ → String → Option WorktreeRow
find_by_branch w project_id branch_name =
    elim (find_worktree_by_branch_any_status w project_id branch_name) [
      | none ↦ none
      | some v ↦ some (row_of v)
    ]

-- The worktree of a task.
abbrev pub worktree_of : World → Option ℕ → Option WorktreeRow
worktree_of w none = none
worktree_of w (some k) = elim (get_worktree w k) [ none ↦ none | some v ↦ some (row_of v) ]

unfoldable pub find_by_pr_url : World → ℕ → String → Option WorktreeRow
find_by_pr_url w project_id pr_url =
    if truthy pr_url
    then elim (find_task_by_pr_url_for_project w pr_url project_id) [
      | none ↦ none
      | some t ↦ worktree_of w t.worktree_id
    ]
    else none

-- `path.rsplit("/", 1)[-1]`, with what came since the last "/".
unfoldable pub last_part : String → String → String
last_part since String.[] = since
last_part since (String.◌∷◌ c s) =
    last_part (if code c == 47 then "" else append_text since (String.◌∷◌ c "")) s

-- What is listed of a worktree: the row, a name, and when it was last heard of.
pub record WorktreeInfo : Type 0 where
  pub row : Worktree
  pub name : String
  pub last_heartbeat : Option ℕ

unfoldable pub worktree_info : World → Worktree → WorktreeInfo
worktree_info w v = record {
  row = v;
  name = if truthy v.branch_name then v.branch_name else last_part "" v.worktree_path;
  last_heartbeat = get_latest_heartbeat w v.id;
}

unfoldable pub list_worktrees : World → ℕ → List WorktreeInfo
list_worktrees w project_id = map (worktree_info w) (get_worktrees_for_project w project_id)
