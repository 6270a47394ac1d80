-- ===== src/Board/Service/Projects.antt =====
-- Projects and their API keys. The hash of a key and the key that is drawn are parameters.
use cloglog.Base.{String, Option}
use cloglog.Models.{Project}
use cloglog.Action.{Action, assertion_error, pure, raise, gets, ◌>>=◌, ◌>>◌, unless_none}
use cloglog.Board.RepoUrl.{normalize_repo_url}
use cloglog.Board.Repository.{
  create_project, set_project_api_key_hash, get_project, get_project_by_api_key_hash,
}

module _ (hash_key : String → String) where
  -- The project and its key, of which only the hash is stored.
  unfoldable pub create_project_with_key :
      String → String → String → String → Action (Project × String)
  create_project_with_key api_key name description repo_url = do
    project ← create_project name description (normalize_repo_url repo_url)
    set_project_api_key_hash project.id (hash_key api_key)
    refreshed ← gets (λ w. get_project w project.id)
    unless_none refreshed (raise assertion_error) λ p. pure (p, api_key)

  unfoldable pub verify_api_key : String → Action (Option Project)
  verify_api_key api_key = get_project_by_api_key_hash (hash_key api_key)
