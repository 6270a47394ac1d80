-- ===== src/Webhook/Consumers.antt =====
-- AgentNotifierConsumer and `emit_codex_review_timed_out` (src/gateway/webhook_consumers.py). The
-- setting `main_agent_inbox_path`, what `json.dumps` writes, and what Python's `str` writes for a
-- value other than a text are parameters. A path is the text of its parts joined by "/".
use Prim.Native.String.{◌++◌ as text_append}
use Prim.Native.Nat.{◌/◌}
use cloglog.Base.{
  join_by, decimal, ℕ, String, Bool, true, false, ◌&&◌, Option, none, some, List, [], ◌∷◌, truthy,
  if◌then◌else◌,
}
use cloglog.Models.{World, Worktree, Task, Project, Json, text, object, empty, real, number, field}
use cloglog.Action.{Action, pure, gets, when, unless_none, ◌>>=◌, ◌>>◌, ok}
use cloglog.Board.Repository.{
  find_task_by_pr_url, find_task_by_pr_url_for_project, find_project_by_repo, find_projects_by_repo,
  update_task,
}
use cloglog.Agent.Repository.{get_worktree, get_worktree_by_branch, get_main_agent_worktree}
use cloglog.Agent.Service.{append_to_inbox}
use cloglog.Webhook.Dispatcher.{WebhookEvent, WebhookEventType}
use cloglog.Webhook.Messages.{build_message, get_key}

pub record ResolvedRecipient : Type 0 where
  pub inbox_path : String
  pub worktree_id : Option ℕ

abbrev pub inbox_of : Worktree → ResolvedRecipient
inbox_of v = record {
  inbox_path = text_append v.worktree_path "/.cloglog/inbox";
  worktree_id = some v.id;
}

-- MAIN_AGENT_EVENTS
unfoldable pub is_main_agent_event : WebhookEventType → Bool
is_main_agent_event WebhookEventType.pr_merged = true
is_main_agent_event WebhookEventType.pr_closed = true
is_main_agent_event WebhookEventType.review_submitted = true
is_main_agent_event WebhookEventType.review_comment = true
is_main_agent_event WebhookEventType.check_run_completed = true
is_main_agent_event WebhookEventType.pr_opened = false
is_main_agent_event WebhookEventType.pr_synchronize = false
is_main_agent_event WebhookEventType.issue_comment = false

-- `_handled`: every type.
unfoldable pub notifier_handles : WebhookEvent → Bool
notifier_handles e = true

abbrev assigned_worktree : World → Option Task → Option Worktree
assigned_worktree w none = none
assigned_worktree w (some t) = elim t.worktree_id [ none ↦ none | some k ↦ get_worktree w k ]

-- The worktree of the live task with the pull request.
unfoldable pub owning_worktree : World → String → Option Worktree
owning_worktree w pr_url = assigned_worktree w (find_task_by_pr_url w pr_url)

unfoldable pub mark_merged : String → Action (Unit {0})
mark_merged pr_url = do
  task ← gets (λ w. find_task_by_pr_url w pr_url)
  unless_none task (pure tt)
      λ t. do updated ← update_task t.id (λ r. record r { pr_merged = true }); pure tt

unfoldable pub set_head_sha : String → String → ℕ → Action (Unit {0})
set_head_sha pr_url head_sha project_id = do
  task ← gets (λ w. find_task_by_pr_url_for_project w pr_url project_id)
  unless_none task (pure tt)
      λ t. do updated ← update_task t.id (λ r. record r { pr_head_sha = some head_sha }); pure tt

unfoldable pub set_head_shas : String → String → List Project → Action (Unit {0})
set_head_shas pr_url head_sha [] = pure tt
set_head_shas pr_url head_sha (p ∷ ps) =
    set_head_sha pr_url head_sha p.id >> set_head_shas pr_url head_sha ps

unfoldable pub update_pr_head_sha : String → String → String → Action (Unit {0})
update_pr_head_sha pr_url head_sha repo_full_name = do
  projects ← gets (λ w. find_projects_by_repo w repo_full_name)
  set_head_shas pr_url head_sha projects

abbrev text_value : Json → String
text_value (text s) = s
text_value j = ""

-- `(event.raw.get("pull_request") or {}).get("head", {}).get("sha", "")`
unfoldable pub head_sha_of : WebhookEvent → String
head_sha_of e = text_value (
    get_key "sha" (text "")
      (get_key "head" (object empty) (get_key "pull_request" (object empty) e.raw)))

abbrev pub carries_head : WebhookEventType → Bool
carries_head WebhookEventType.pr_opened = true
carries_head WebhookEventType.pr_synchronize = true
carries_head _ = false

abbrev pub is_merge : WebhookEventType → Bool
is_merge WebhookEventType.pr_merged = true
is_merge _ = false

-- What the event writes to the board, whoever its recipient is.
unfoldable pub write_board : WebhookEvent → Action (Unit {0})
write_board e = do
  when (is_merge e.type) (mark_merged e.pr_url)
  when (carries_head e.type && truthy (head_sha_of e))
      (update_pr_head_sha e.pr_url (head_sha_of e) e.repo_full_name)

-- The line of a message, as `json.dumps` writes it, at the end of the inbox.
abbrev pub send : (Json → String) → Option Json → ResolvedRecipient → Action (Unit {0})
send dumps none r = pure tt
send dumps (some message) r = append_to_inbox r.inbox_path (dumps message)

module _ (main_agent_inbox_path : Option String) where
  abbrev pub configured_inbox : Option ResolvedRecipient
  configured_inbox = elim main_agent_inbox_path [
    | none ↦ none
    | some path ↦ some (record { inbox_path = path; worktree_id = none })
  ]

  abbrev pub or_configured : Option Worktree → Option ResolvedRecipient
  or_configured none = configured_inbox
  or_configured (some v) = some (inbox_of v)

  -- The inbox of the main agent of a project.
  unfoldable pub main_recipient : World → ℕ → Option ResolvedRecipient
  main_recipient w k = or_configured (get_main_agent_worktree w k)

  unfoldable pub resolve_in_project : WebhookEvent → ℕ → Action (Option ResolvedRecipient)
  resolve_in_project e k = do
    by_branch ← get_worktree_by_branch k e.head_branch
    unless_none by_branch
        (if is_main_agent_event e.type then gets (λ w. main_recipient w k) else pure none)
        (λ v. pure (some (inbox_of v)))

  unfoldable pub resolve_agent : WebhookEvent → Action (Option ResolvedRecipient)
  resolve_agent e = do
    owner ← gets (λ w. owning_worktree w e.pr_url)
    unless_none owner
        (do
          project ← gets (λ w. find_project_by_repo w e.repo_full_name)
          unless_none project (pure none) (λ p. resolve_in_project e p.id))
        (λ v. pure (some (inbox_of v)))

  module _ (dumps : Json → String) (str : Json → String) where
    unfoldable pub handle : WebhookEvent → Action (Unit {0})
    handle e = do
      recipient ← resolve_agent e
      write_board e
      unless_none recipient (pure tt) (λ r. send dumps (build_message str e) r)

-- `except OSError` around the whole action.
abbrev pub suppress : Action (Unit {0}) → Action (Unit {0})
suppress m w = (ok tt, (m w).1)

-- A review that timed out, to the main agent of the repository's project. A timeout is a number of
-- milliseconds, of which `seconds` writes the seconds as a float; `ts` is the time of the call.
unfoldable pub timed_out_message : (ℕ → String) → String → String → ℕ → String → ℕ → ℕ → Json
timed_out_message seconds ts pr_url pr_number repo_full_name diff_size timeout = object (
    field "type" (text "codex_review_timed_out") (
      field "pr_url" (text pr_url) (
        field "pr_number" (number pr_number) (
          field "repo_full_name" (text repo_full_name) (
            field "diff_size" (number diff_size) (
              field "timeout_seconds" (real (seconds timeout)) (
                field "ts" (text ts) (
                  field "message"
                    (text (
                      join_by "" (
                        "Codex review on PR #"
                        ∷ decimal pr_number
                        ∷ " timed out after "
                        ∷ decimal (timeout / 1000)
                        ∷ "s ("
                        ∷ decimal diff_size
                        ∷ " changed lines). Push a new commit to retry."
                        ∷ [])))
                    empty))))))))

unfoldable pub emit_codex_review_timed_out :
    Option String → (Json → String) → String → Json → Action (Unit {0})
emit_codex_review_timed_out main_agent_inbox_path dumps repo_full_name message = do
  project ← gets (λ w. find_project_by_repo w repo_full_name)
  unless_none project (pure tt) λ p. do
    recipient ← gets (λ w. main_recipient main_agent_inbox_path w p.id)
    unless_none recipient (pure tt) (λ r. suppress (send dumps (some message) r))
