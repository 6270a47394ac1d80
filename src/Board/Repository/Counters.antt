-- ===== src/Board/Repository/Counters.antt =====
-- Projects, and the counters that number their epics, features and tasks.
use cloglog.Base.{
  ℕ, ◌+◌, String, Bool, Option, none, some, List, [], ◌∷◌, ◌++◌, ◌==◌, str_eq, find, update_where,
  select, count, sort_by,
}
use cloglog.Models.{World, Project}
use cloglog.Action.{
  Action, assertion_error, pure, raise, modify, gets, uuid4, ◌>>=◌, ◌>>◌, unless_none,
  scalar_one_or_none,
}

abbrev pub has_id : ℕ → Project → Bool
has_id k p = p.id == k

unfoldable pub get_project : World → ℕ → Option Project
get_project w k = find (has_id k) w.projects

abbrev pub set_projects : (List Project → List Project) → Action (Unit {0})
set_projects f = modify (λ w. record w { projects = f w.projects })

unfoldable pub create_project : String → String → String → Action Project
create_project name description repo_url = do
  id ← uuid4
  now ← gets (λ w. w.now)
  let project : Project = record {
    id = id;
    name = name;
    description = description;
    repo_url = repo_url;
    api_key_hash = "";
    status = "active";
    next_epic_num = 1;
    next_feature_num = 1;
    next_task_num = 1;
    created_at = now;
  }
  set_projects (λ ps. ps ++ project ∷ [])
  pure project

-- The keyword arguments are the function that sets the columns they name.
unfoldable pub update_project : ℕ → (Project → Project) → Action (Option Project)
update_project k fields = do
  project ← gets (λ w. get_project w k)
  unless_none project (pure none)
      λ p. do set_projects (update_where (has_id k) fields); pure (some (fields p))

unfoldable pub set_project_api_key_hash : ℕ → String → Action (Unit {0})
set_project_api_key_hash k hash =
    set_projects (update_where (has_id k) (λ p. record p { api_key_hash = hash }))

unfoldable pub list_projects : World → List Project
list_projects w = sort_by (λ p. p.created_at) w.projects

unfoldable pub get_project_by_api_key_hash : String → Action (Option Project)
get_project_by_api_key_hash hash w =
    scalar_one_or_none (select (λ p. str_eq p.api_key_hash hash) w.projects) w

unfoldable pub count_epics : World → ℕ → ℕ
count_epics w k = count (λ e. e.project_id == k) w.epics

-- Get and increment one of the monotonic counters of a project.
unfoldable pub next_epic_number : ℕ → Action ℕ
next_epic_number k = do
  project ← gets (λ w. get_project w k)
  unless_none project (raise assertion_error) λ p. do
    set_projects (update_where (has_id k) (λ q. record q { next_epic_num = p.next_epic_num + 1 }))
    pure p.next_epic_num

unfoldable pub next_feature_number : ℕ → Action ℕ
next_feature_number k = do
  project ← gets (λ w. get_project w k)
  unless_none project (raise assertion_error) λ p. do
    set_projects
        (update_where (has_id k) (λ q. record q { next_feature_num = p.next_feature_num + 1 }))
    pure p.next_feature_num

unfoldable pub next_task_number : ℕ → Action ℕ
next_task_number k = do
  project ← gets (λ w. get_project w k)
  unless_none project (raise assertion_error) λ p. do
    set_projects (update_where (has_id k) (λ q. record q { next_task_num = p.next_task_num + 1 }))
    pure p.next_task_num
