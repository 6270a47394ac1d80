-- ===== src/Tests/Webhook.antt =====
-- A webhook delivery that comes again.
use cloglog.Base.{Option, some, sql_endswith, like, ◌≡◌, refl, true, [], ◌∷◌, String}
use cloglog.Models.{number, boolean, get_field, null, Json, object, field, text, empty}
use cloglog.Webhook.Dispatcher.{WebhookEvent, WebhookEventType, WebhookDispatcher, dispatch}
use cloglog.ReviewLoop.Prompt.{truthy_json}
use cloglog.Webhook.Messages.{build_message, get_key}
use cloglog.Webhook.Requests.{
  Request, parse_webhook_event, pull_request_type, pr_event, receive_webhook,
}
use cloglog.Webhook.Authentic.{DispatchesIf, IsAuthentic, parsed, receive_webhook-DispatchesIf}
use cloglog.Webhook.Consumers.{handle}
use cloglog.Webhook.Writes.{WritesOne}
use cloglog.Webhook.Routing.{IsRecipient, handle-WritesOne}
use cloglog.Tests.Sample.{sample}
use cloglog.Webhook.Deliveries.{dispatch_all, dispatch-once}

abbrev delivery : String → WebhookEvent
delivery id = record {
  type = WebhookEventType.pr_opened;
  delivery_id = id;
  repo_full_name = "o/r";
  pr_number = 7;
  pr_url = "https://github.com/o/r/pull/7";
  head_branch = "wt";
  base_branch = "main";
  sender = "agent";
  raw = null;
}

abbrev fresh : WebhookDispatcher
fresh = record { consumers = (λ e. true) ∷ []; seen_delivery_ids = [] }

dispatch-once_example :
    let later =
      dispatch_all (λ xs. xs) (delivery "b" ∷ []) (dispatch (λ xs. xs) (delivery "a") fresh).0 in
    dispatch (λ xs. xs) (delivery "a") later ≡ (later, [])
dispatch-once_example =
    dispatch-once (λ xs. xs) (delivery "a") (delivery "a") (delivery "b" ∷ []) fresh refl refl

abbrev comment : WebhookEvent
comment = record (delivery "c") {
  type = WebhookEventType.issue_comment;
  raw = object (field "comment" (object (field "body" (text "Please look.") empty)) empty);
}

abbrev no_text : Json → String
no_text j = ""

handle-WritesOne_example :
    WritesOne no_text
      (build_message no_text comment)
      (IsRecipient (some "/main/.cloglog/inbox") comment sample)
      sample.inboxes
      (handle (some "/main/.cloglog/inbox") no_text no_text comment sample).1.inboxes
handle-WritesOne_example =
    handle-WritesOne (some "/main/.cloglog/inbox") no_text no_text comment sample

-- A repository whose name ends the name of another one is taken for it.
suffix_matches : sql_endswith "https://github.com/sachinkundu/cloglog" "undu/cloglog" ≡ true
unfolding sql_endswith like
suffix_matches = refl

abbrev pull : Json
pull = object (
    field "number" (number 7) (
      field "html_url" (text "https://github.com/o/r/pull/7") (
        field "merged" (boolean true) (
          field "head" (object (field "ref" (text "wt") empty))
            (field "base" (object (field "ref" (text "main") empty)) empty)))))

abbrev payload : Json
payload = object (
    field "action" (text "closed") (
      field "pull_request" pull (
        field "repository" (object (field "full_name" (text "o/r") empty))
          (field "sender" (object (field "login" (text "agent") empty)) empty))))

merges :
    parse_webhook_event "pull_request" "a" payload
    ≡ some (some (record (delivery "a") { type = WebhookEventType.pr_merged; raw = payload }))
unfolding parse_webhook_event pull_request_type pr_event get_key get_field truthy_json
merges = refl

abbrev digest_of : String → String → String
digest_of secret body = "1f"

abbrev request : Request
request = record {
  body = "{}";
  signature = "sha256=1f";
  event_type = "pull_request";
  delivery_id = "a";
}

abbrev decoded : String → Option Json
decoded body = some payload

receive_webhook-DispatchesIf_example :
    DispatchesIf
      (IsAuthentic digest_of "secret" request)
      (λ xs. xs)
      (parsed decoded request)
      fresh
      (receive_webhook digest_of decoded "secret" (λ xs. xs) request fresh).1
receive_webhook-DispatchesIf_example =
    receive_webhook-DispatchesIf digest_of decoded "secret" (λ xs. xs) request fresh
