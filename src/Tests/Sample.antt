-- ===== src/Tests/Sample.antt =====
-- A small board: one project, one epic, two features, four tasks and two worktrees.
use cloglog.Base.{ℕ, ◌+◌, String, true, false, Option, none, some, [], ◌∷◌}
use cloglog.Models.{World, Project, Epic, Feature, Task, Worktree, Session}

abbrev pub project : ℕ → Project
project k = record {
  id = k;
  name = "cloglog";
  description = "";
  repo_url = "https://github.com/o/r";
  api_key_hash = "";
  status = "active";
  next_epic_num = 1;
  next_feature_num = 2;
  next_task_num = 4;
  created_at = 0;
}

abbrev pub epic : ℕ → ℕ → Epic
epic k project_id = record {
  id = k;
  project_id = project_id;
  title = "Board";
  description = "";
  bounded_context = "board";
  context_description = "";
  status = "planned";
  position = 0;
  color = "#7c3aed";
  number = 1;
  created_at = 0;
}

abbrev pub feature : ℕ → Feature
feature k = record {
  id = k;
  epic_id = 10;
  title = "Feature";
  description = "";
  status = "planned";
  position = k;
  number = k;
  created_at = 0;
}

abbrev pub task : ℕ → ℕ → String → String → Option String → Option ℕ → Task
task k feature_id status task_type pr_url worktree_id = record {
  id = k;
  feature_id = feature_id;
  title = "Task";
  description = "";
  status = status;
  priority = "normal";
  task_type = task_type;
  model = none;
  pr_url = pr_url;
  pr_head_sha = none;
  pr_merged = false;
  artifact_path = none;
  worktree_id = worktree_id;
  close_off_worktree_id = none;
  position = k;
  number = k;
  archived = false;
  retired = false;
  created_at = 0;
  updated_at = 0;
}

abbrev pub worktree : ℕ → String → String → Worktree
worktree k path role = record {
  id = k;
  project_id = 1;
  worktree_path = path;
  branch_name = "wt";
  status = "online";
  role = role;
  shutdown_requested = false;
  current_task_id = none;
  agent_token_hash = "";
  created_at = k;
}

abbrev pub session : ℕ → ℕ → ℕ → Session
session k worktree_id heard = record {
  id = k;
  worktree_id = worktree_id;
  started_at = 0;
  ended_at = none;
  last_heartbeat = heard;
  status = "active";
}

-- Feature 21 depends on nothing, feature 22 has the tasks 33 and 34; worktree 41 works on task 32.
abbrev pub sample : World
sample = record {
  projects = project 1 ∷ [];
  epics = epic 10 1 ∷ [];
  features = feature 21 ∷ feature 22 ∷ [];
  tasks =
      task 31 21 "done" "task" none none
      ∷ task 32 21 "review" "task" (some "https://github.com/o/r/pull/7") (some 41)
      ∷ task 33 22 "backlog" "spec" none none
      ∷ task 34 22 "backlog" "plan" none none
      ∷ [];
  feature_dependencies = [];
  task_dependencies = [];
  task_notes = [];
  notifications = [];
  documents = [];
  worktrees = worktree 41 "/w/a" "worktree" ∷ worktree 42 "/w/b" "main" ∷ [];
  sessions = session 51 41 5 ∷ session 52 42 900 ∷ [];
  events = [];
  inboxes = [];
  uuids = λ n. n + 100;
  now = 1000;
  writable = λ _. true;
}
