-- ===== src/Webhook/Requests.antt =====
-- The requests of GitHub (src/gateway/webhook.py). The hash of a body by a secret and the decoding of
-- a body are parameters. A missing key raises: the result is `none`. A value that has not the type
-- that GitHub sends is read as a missing one.
use Prim.Native.String.{◌++◌ as text_append}
use cloglog.Base.{
  ℕ, String, Bool, true, false, not, ◌&&◌, Option, none, some, List, [], ◌∷◌, str_eq, truthy,
  is_some, join_by, decimal, if◌then◌else◌,
}
use cloglog.Models.{Json, null, number, text, array, object, nil, item, empty, get_field}
use cloglog.ReviewLoop.Prompt.{truthy_json}
use cloglog.Webhook.Dispatcher.{WebhookEvent, WebhookEventType, WebhookDispatcher, dispatch}
use cloglog.Webhook.Messages.{get_key}

infixl 1 ◌>>=◌
abbrev pub ◌>>=◌ : {A B : Type 0} → Option A → (A → Option B) → Option B
none >>= f = none
some a >>= f = f a

-- `value[key]`
abbrev pub at_key : String → Json → Option Json
at_key key (object fs) = get_field key fs
at_key key j = none

abbrev pub text_at : String → Json → Option String
text_at key j = do v ← at_key key j; elim v [ text s ↦ some s | _ ↦ none ]

abbrev pub natural_at : String → Json → Option ℕ
natural_at key j = do v ← at_key key j; elim v [ number n ↦ some n | _ ↦ none ]

abbrev pub is_none : Json → Bool
is_none null = true
is_none j = false

abbrev pub is_action : String → Json → Bool
is_action action payload = elim (get_key "action" (text "") payload) [
  | text s ↦ str_eq s action
  | _ ↦ false
]

-- The event of a pull request `pr`, with the url of its page.
unfoldable pub pr_event :
    WebhookEventType → String → Json → Json → Option String → Option (Option WebhookEvent)
pr_event type delivery_id payload pr page = do
  repository ← at_key "repository" payload
  repo ← text_at "full_name" repository
  n ← natural_at "number" pr
  url ← page
  head ← at_key "head" pr
  head_ref ← text_at "ref" head
  base ← at_key "base" pr
  base_ref ← text_at "ref" base
  who ← at_key "sender" payload
  login ← text_at "login" who
  some (
      some (record {
        type = type;
        delivery_id = delivery_id;
        repo_full_name = repo;
        pr_number = n;
        pr_url = url;
        head_branch = head_ref;
        base_branch = base_ref;
        sender = login;
        raw = payload;
      }))

unfoldable pub pull_request_type : Json → Json → Option WebhookEventType
pull_request_type payload pr =
    if is_action "opened" payload
    then some WebhookEventType.pr_opened
    else if is_action "synchronize" payload
    then some WebhookEventType.pr_synchronize
    else if is_action "closed" payload
    then some (
        if truthy_json (get_key "merged" null pr)
        then WebhookEventType.pr_merged
        else WebhookEventType.pr_closed)
    else none

-- An event of the type, if the payload has a pull request.
abbrev pub of_pull_request :
    Option WebhookEventType → String → Json → Json → Option (Option WebhookEvent)
of_pull_request none delivery_id payload pr = some none
of_pull_request (some type) delivery_id payload pr =
    if is_none pr then some none else pr_event type delivery_id payload pr (text_at "html_url" pr)

unfoldable pub issue_event : String → Json → Json → Option (Option WebhookEvent)
issue_event delivery_id payload issue = do
  repository ← at_key "repository" payload
  repo ← text_at "full_name" repository
  n ← natural_at "number" issue
  pr ← at_key "pull_request" issue
  url ← text_at "html_url" pr
  who ← at_key "sender" payload
  login ← text_at "login" who
  some (
      some (record {
        type = WebhookEventType.issue_comment;
        delivery_id = delivery_id;
        repo_full_name = repo;
        pr_number = n;
        pr_url = url;
        head_branch = "";
        base_branch = "";
        sender = login;
        raw = payload;
      }))

-- `https://github.com/{full_name}/pull/{number}`
unfoldable pub pull_url : Json → Json → Option String
pull_url payload pr = do
  repository ← at_key "repository" payload
  repo ← text_at "full_name" repository
  n ← natural_at "number" pr
  some (join_by "" ("https://github.com/" ∷ repo ∷ "/pull/" ∷ decimal n ∷ []))

-- The first pull request of a check, if it has one.
abbrev pub check_event : String → Json → Json → Option (Option WebhookEvent)
check_event delivery_id payload (array (item pr prs)) =
    pr_event WebhookEventType.check_run_completed delivery_id payload pr (pull_url payload pr)
check_event delivery_id payload prs = some none

unfoldable pub parse_webhook_event : String → String → Json → Option (Option WebhookEvent)
parse_webhook_event event_type delivery_id payload =
    let pr = get_key "pull_request" null payload in
    let issue = get_key "issue" null payload in
    if str_eq event_type "pull_request"
    then of_pull_request (pull_request_type payload pr) delivery_id payload pr
    else if str_eq event_type "pull_request_review"
    then of_pull_request (some WebhookEventType.review_submitted) delivery_id payload pr
    else if str_eq event_type "pull_request_review_comment"
    then of_pull_request
        (if is_action "created" payload then some WebhookEventType.review_comment else none)
        delivery_id payload pr
    else if str_eq event_type "issue_comment"
    then (if is_action "created" payload && is_some (at_key "pull_request" issue)
        then issue_event delivery_id payload issue
        else some none)
    else if str_eq event_type "check_run"
    then check_event delivery_id payload
        (get_key "pull_requests" (array nil) (get_key "check_run" (object empty) payload))
    else some none

-- What a request is answered by: the status "ok", a 401 for one of two reasons, or an exception.
pub data Answer : Type 0 where
  accepted no_secret invalid_signature crashed : Answer

pub record Request : Type 0 where
  pub body : String
  pub signature : String
  pub event_type : String
  pub delivery_id : String

abbrev pub dispatched :
    (List String → List String)
    → Option (Option WebhookEvent)
    → WebhookDispatcher
    → Answer × (WebhookDispatcher × List ℕ)
dispatched listing none d = (crashed, (d, []))
dispatched listing (some none) d = (accepted, (d, []))
dispatched listing (some (some e)) d = (accepted, dispatch listing e d)

module _ (hexdigest : String → String → String) (decode : String → Option Json) where
  unfoldable pub verify_signature : String → String → String → Bool
  verify_signature body secret signature =
      truthy signature && str_eq (text_append "sha256=" (hexdigest secret body)) signature

  -- The answer, the dispatcher afterwards, and whose tasks are created. `github_webhook_secret` is a
  -- setting.
  unfoldable pub receive_webhook :
      String
      → (List String → List String)
      → Request
      → WebhookDispatcher
      → Answer × (WebhookDispatcher × List ℕ)
  receive_webhook github_webhook_secret listing q d =
      if not (truthy github_webhook_secret)
      then (no_secret, (d, []))
      else if not (verify_signature q.body github_webhook_secret q.signature)
      then (invalid_signature, (d, []))
      else dispatched listing
          (decode q.body >>= λ payload. parse_webhook_event q.event_type q.delivery_id payload) d
