-- ===== src/Webhook/Messages.antt =====
-- The messages of AgentNotifierConsumer (src/gateway/webhook_consumers.py): `_build_message`. What
-- Python's `str` writes for a value other than a text is a parameter.
use cloglog.Base.{
  String, Bool, false, not, ◌||◌, Option, none, some, [], ◌∷◌, str_eq, truthy, join_by, decimal,
  text_take, if◌then◌else◌,
}
use cloglog.Models.{Json, null, number, text, object, Fields, empty, field, get_field}
use cloglog.Webhook.Dispatcher.{WebhookEvent, WebhookEventType}
use cloglog.ReviewLoop.Prompt.{to_str, truthy_json}

-- `value.get(key, default)`
unfoldable pub get_key : String → Json → Json → Json
get_key key default (object fs) = elim (get_field key fs) [ none ↦ default | some j ↦ j ]
get_key key default j = default

-- `(value.get("body") or "")[:500]`, of a value that is a text or None
abbrev body_text : Json → String
body_text (text s) = text_take 500 s
body_text j = ""

unfoldable pub body_of : Json → String
body_of j = body_text (get_key "body" null j)

unfoldable pub is_ci_failure : Json → Bool
is_ci_failure (text s) =
    str_eq s "failure"
    || str_eq s "cancelled"
    || str_eq s "timed_out"
    || str_eq s "action_required"
    || str_eq s "stale"
is_ci_failure j = false

-- The fields that every message has, and its own.
abbrev message : String → WebhookEvent → (Fields → Fields) → String → Option Json
message type e fields note = some (
    object (
      field "type" (text type) (
        field "pr_url" (text e.pr_url)
          (field "pr_number" (number e.pr_number) (fields (field "message" (text note) empty))))))

-- `value == s`
abbrev is_value : Json → String → Bool
is_value (text t) s = str_eq t s
is_value j s = false

unfoldable pub merged_note : WebhookEvent → String
merged_note e = join_by "" (
    "PR #"
    ∷ decimal e.pr_number
    ∷ " has been MERGED. Run the per-task shutdown sequence: (1) emit pr_merged_notification to the main inbox, (2) call mark_pr_merged, (3) for spec/plan tasks call report_artifact, (4) write shutdown-artifacts/work-log-T-<NNN>.md, (5) build aggregate shutdown-artifacts/work-log.md, (6) emit agent_unregistered with reason='pr_merged', (7) call unregister_agent and exit. Do NOT call get_my_tasks or start the next task — the supervisor handles relaunching."
    ∷ [])

module _ (str : Json → String) where
  unfoldable pub review_message : WebhookEvent → Json → Option Json
  review_message e review =
      let state = get_key "state" (text "") review in
      let body = body_of review in
      message "review_submitted" e
        (λ rest.
          field "review_state" state
            (field "reviewer" (text e.sender) (field "body" (text body) rest)))
        (join_by "" (
          "Review on PR #"
          ∷ decimal e.pr_number
          ∷ ": "
          ∷ to_str str state
          ∷ " by "
          ∷ e.sender
          ∷ ". "
          ∷ (if truthy body then join_by "" ("Feedback: " ∷ body ∷ []) else "No comment body.")
          ∷ (if is_value state "changes_requested"
              then " Address the feedback, push a fix, and move back to review."
              else "")
          ∷ []))

  unfoldable pub comment_message : WebhookEvent → Json → Option Json
  comment_message e comment =
      let body = body_of comment in
      let path = get_key "path" (text "") comment in
      let exact = get_key "line" null comment in
      let line = if truthy_json exact then exact else get_key "original_line" (text "") comment in
      message "review_comment" e
        (λ rest.
          field "reviewer" (text e.sender)
            (field "path" path (field "line" line (field "body" (text body) rest))))
        (join_by "" (
          "Inline comment on PR #"
          ∷ decimal e.pr_number
          ∷ " by "
          ∷ e.sender
          ∷ (if truthy_json path
              then join_by "" (" at " ∷ to_str str path ∷ ":" ∷ to_str str line ∷ [])
              else "")
          ∷ ": "
          ∷ body
          ∷ []))

  unfoldable pub issue_message : WebhookEvent → Json → Option Json
  issue_message e comment =
      let body = body_of comment in
      message "issue_comment" e
        (λ rest. field "commenter" (text e.sender) (field "body" (text body) rest))
        (join_by ""
          ("Comment on PR #" ∷ decimal e.pr_number ∷ " by " ∷ e.sender ∷ ": " ∷ body ∷ []))

  unfoldable pub check_message : WebhookEvent → Json → Option Json
  check_message e check =
      let conclusion = get_key "conclusion" null check in
      let name = get_key "name" (text "") check in
      if not (is_ci_failure conclusion)
      then none
      else message "ci_failed" e
          (λ rest. field "check_name" name (field "conclusion" conclusion rest))
          (join_by "" (
            "CI check '"
            ∷ to_str str name
            ∷ "' "
            ∷ to_str str conclusion
            ∷ " on PR #"
            ∷ decimal e.pr_number
            ∷ ". Use the github-bot skill to read the failed logs and push a fix."
            ∷ []))

  -- The message of an event, and `none` where the event sends none.
  unfoldable pub message_of : WebhookEventType → WebhookEvent → Option Json
  message_of WebhookEventType.pr_merged e = message "pr_merged" e (λ rest. rest) (merged_note e)
  message_of WebhookEventType.pr_closed e =
      message "pr_closed" e (λ rest. rest)
        (join_by "" ("PR #" ∷ decimal e.pr_number ∷ " was closed without merging." ∷ []))
  message_of WebhookEventType.review_submitted e =
      review_message e (get_key "review" (object empty) e.raw)
  message_of WebhookEventType.review_comment e =
      comment_message e (get_key "comment" (object empty) e.raw)
  message_of WebhookEventType.issue_comment e =
      issue_message e (get_key "comment" (object empty) e.raw)
  message_of WebhookEventType.check_run_completed e =
      check_message e (get_key "check_run" (object empty) e.raw)
  message_of WebhookEventType.pr_opened e = none
  message_of WebhookEventType.pr_synchronize e = none

  unfoldable pub build_message : WebhookEvent → Option Json
  build_message e = message_of e.type e
