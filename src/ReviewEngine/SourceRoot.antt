-- ===== src/ReviewEngine/SourceRoot.antt =====
-- The source that a pull request is reviewed against (src/gateway/review_engine.py). Paths are texts;
-- what git and the file system answer is in `Host`. A lookup that raises is not modelled: the lookups
-- are those of the agents' service.
use cloglog.Base.{
  ℕ, String, Bool, true, false, not, Option, none, some, List, [], ◌∷◌, truthy, str_eq, is_some,
  if◌then◌else◌,
}
use cloglog.Models.{World}
use cloglog.Agent.Service.{WorktreeRow, find_by_branch, find_by_pr_url}

-- `git rev-parse --git-common-dir` and `HEAD`, `Path.is_dir`, the parent of a path, and the checkout
-- that is made of a main clone for a commit and a pull request, where git makes it.
pub record Host : Type 0 where
  pub is_dir : String → Bool
  pub git_common_dir : String → Option String
  pub probe_git_head : String → Option String
  pub parent : String → String
  pub create_review_checkout : String → String → ℕ → String → Option String

-- `settings.review_repo_roots`, and `settings.review_source_root or Path.cwd()`.
pub record SourceSetting : Type 0 where
  pub review_repo_roots : List (String × String)
  pub review_source_root : String

pub record PrReviewRoot : Type 0 where
  pub path : String
  pub is_temp : Bool
  pub main_clone : Option String

-- A root, and the checkout that was made for it, after the clone that it is of.
abbrev pub Resolved : Type 0
Resolved = PrReviewRoot × List (String × String)

unfoldable pub registry_entry : List (String × String) → String → Option String
registry_entry [] repo = none
registry_entry ((r, path) ∷ roots) repo =
    if str_eq r repo then some path else registry_entry roots repo

-- `a`, or `b` where there is none.
abbrev pub or_then : Option String → Option String → Option String
or_then none b = b
or_then (some a) b = some a

module _ (host : Host) (setting : SourceSetting) where
  -- The path of a worktree that is on this host.
  abbrev pub existing_path : Option WorktreeRow → Option String
  existing_path none = none
  existing_path (some row) = if host.is_dir row.worktree_path then some row.worktree_path else none

  -- A path of the registry that is a repository.
  abbrev pub usable : Option String → Option String
  usable none = none
  usable (some path) = if is_some (host.git_common_dir path) then some path else none

  unfoldable pub registry_path : String → Option String
  registry_path repo = usable (registry_entry setting.review_repo_roots repo)

  abbrev pub by_branch : World → ℕ → String → Option WorktreeRow
  by_branch w project_id head_branch =
      if truthy head_branch then find_by_branch w project_id head_branch else none

  -- The paths 0 to 2: the worktree of the task with this pull request, that of the branch, and the
  -- registry.
  unfoldable pub registered_source : World → ℕ → String → String → String → Option String
  registered_source w project_id pr_url head_branch repo =
      or_then (existing_path (find_by_pr_url w project_id pr_url))
        (or_then (existing_path (by_branch w project_id head_branch)) (registry_path repo))

  -- Path 3: the host's own source, where there is no registry.
  abbrev pub host_source : List (String × String) → Option String
  host_source [] = some setting.review_source_root
  host_source (r ∷ roots) = none

  abbrev pub common_parent : Option String → Option String
  common_parent none = none
  common_parent (some common_dir) = some (host.parent common_dir)

  unfoldable pub resolve_main_clone_anchor : String → String → String
  resolve_main_clone_anchor candidate repo =
      elim (or_then (registry_path repo) (common_parent (host.git_common_dir candidate))) [
        | none ↦ setting.review_source_root
        | some path ↦ path
      ]

  abbrev pub as_is : String → PrReviewRoot
  as_is candidate = record { path = candidate; is_temp = false; main_clone = none }

  abbrev pub checked_out : String → String → Option String → Resolved
  checked_out candidate anchor none = (as_is candidate, [])
  checked_out candidate anchor (some temp) =
      (record { path = temp; is_temp = true; main_clone = some anchor }, (anchor, temp) ∷ [])

  abbrev pub is_behind : Option String → String → Bool
  is_behind none head_sha = false
  is_behind (some sha) head_sha = not (str_eq sha head_sha)

  -- The candidate, or a checkout of the commit where the candidate is at another one.
  unfoldable pub at_head : String → ℕ → String → String → String → Resolved
  at_head head_sha pr_number head_branch repo candidate =
      let anchor = resolve_main_clone_anchor candidate repo in
      let temp = host.create_review_checkout anchor head_sha pr_number head_branch in
      if truthy head_sha
      then if is_behind (host.probe_git_head candidate) head_sha
        then checked_out candidate anchor temp
        else (as_is candidate, [])
      else (as_is candidate, [])

  unfoldable pub resolve_pr_review_root :
      World → ℕ → String → ℕ → String → String → String → Option Resolved
  resolve_pr_review_root w project_id pr_url pr_number head_sha head_branch repo =
      elim (or_then (registered_source w project_id pr_url head_branch repo)
        (host_source setting.review_repo_roots)) [
          | none ↦ none
          | some candidate ↦ some (at_head head_sha pr_number head_branch repo candidate)
        ]
