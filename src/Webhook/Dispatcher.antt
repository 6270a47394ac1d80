-- ===== src/Webhook/Dispatcher.antt =====
-- WebhookDispatcher (src/gateway/webhook_dispatcher.py). What a consumer does with an event runs in a
-- task of its own; the model has whose tasks are created. The payload `raw` is JSON.
use cloglog.Base.{
  ℕ, zero, suc, ◌+◌, String, Bool, false, ◌||◌, List, [], ◌∷◌, ◌++◌, ltb, str_eq, length,
  if◌then◌else◌,
}
use cloglog.Models.{Json}

pub data WebhookEventType : Type 0 where
  pr_opened pr_synchronize pr_closed pr_merged review_submitted review_comment issue_comment
        check_run_completed :
      WebhookEventType

pub record WebhookEvent : Type 0 where
  pub type : WebhookEventType
  pub delivery_id : String
  pub repo_full_name : String
  pub pr_number : ℕ
  pub pr_url : String
  pub head_branch : String
  pub base_branch : String
  pub sender : String
  pub raw : Json

-- The consumers by their `handles`, in the order of registration, and the set of the ids.
pub record WebhookDispatcher : Type 0 where
  pub consumers : List (WebhookEvent → Bool)
  pub seen_delivery_ids : List String

abbrev pub has_id : List String → String → Bool
has_id [] s = false
has_id (x ∷ xs) s = str_eq x s || has_id xs s

abbrev pub drop : ℕ → List String → List String
drop zero xs = xs
drop (suc n) [] = []
drop (suc n) (x ∷ xs) = drop n xs

unfoldable pub register_consumer : (WebhookEvent → Bool) → WebhookDispatcher → WebhookDispatcher
register_consumer handles d = record d { consumers = d.consumers ++ handles ∷ [] }

-- The consumers, by their positions from `i` on, that want the event.
unfoldable pub wanting : ℕ → WebhookEvent → List (WebhookEvent → Bool) → List ℕ
wanting i e [] = []
wanting i e (handles ∷ rest) =
    if handles e then i ∷ wanting (i + 1) e rest else wanting (i + 1) e rest

-- `self._max_seen`, and `self._max_seen // 2`
unfoldable pub max_seen : ℕ
max_seen = 10000

unfoldable pub evicted : ℕ
evicted = 5000

-- `listing` is the order in which Python lists the set, which may be any.
unfoldable pub remember : (List String → List String) → String → List String → List String
remember listing id seen =
    let grown = id ∷ seen in
    if ltb max_seen (length grown) then drop evicted (listing grown) else grown

-- The dispatcher afterwards, and whose tasks are created.
unfoldable pub dispatch :
    (List String → List String) → WebhookEvent → WebhookDispatcher → WebhookDispatcher × List ℕ
dispatch listing e d = if has_id d.seen_delivery_ids e.delivery_id then (d, []) else (
  record d { seen_delivery_ids = remember listing e.delivery_id d.seen_delivery_ids },
  wanting 0 e d.consumers,
)
