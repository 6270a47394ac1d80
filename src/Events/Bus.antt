-- ===== src/Events/Bus.antt =====
-- EventBus (src/shared/events.py): the queues of a worker's subscribers, and the mirror to the other
-- workers. A queue is told apart by the number `id`, as the program does it by identity.
use cloglog.Base.{
  ℕ, Bool, true, false, not, ◌&&◌, Option, none, some, List, [], ◌∷◌, ◌++◌, ◌==◌, leb, map, select,
  if◌then◌else◌,
}
use cloglog.Models.{Event}

pub record Queue : Type 0 where
  pub id : ℕ
  pub items : List Event

-- `subscribers` has a row for each queue with its project, in the order of subscription; `dsn` says
-- whether the bus is mirrored, and `listens` whether its LISTEN connection is up.
pub record EventBus : Type 0 where
  pub source_id : ℕ
  pub subscribers : List (ℕ × Queue)
  pub global_subscribers : List Queue
  pub dsn : Bool
  pub listens : Bool

abbrev pub new_queue : ℕ → Queue
new_queue id = record { id = id; items = [] }

unfoldable pub subscribe : ℕ → ℕ → EventBus → EventBus
subscribe id project_id bus = record bus {
  subscribers = bus.subscribers ++ (project_id, new_queue id) ∷ [];
}

unfoldable pub subscribe_all : ℕ → EventBus → EventBus
subscribe_all id bus = record bus {
  global_subscribers = bus.global_subscribers ++ new_queue id ∷ [];
}

unfoldable pub unsubscribe : ℕ → ℕ → EventBus → EventBus
unsubscribe project_id id bus = record bus {
  subscribers = select (λ s. not (s.0 == project_id && s.1.id == id)) bus.subscribers;
}

unfoldable pub unsubscribe_all : ℕ → EventBus → EventBus
unsubscribe_all id bus = record bus {
  global_subscribers = select (λ q. not (q.id == id)) bus.global_subscribers;
}

-- `put_nowait`
abbrev pub put : Event → Queue → Queue
put e q = record q { items = q.items ++ e ∷ [] }

unfoldable pub fan_out : Event → Bool → EventBus → EventBus
fan_out e include_global bus = record bus {
  subscribers = map (λ s. if s.0 == e.project_id then (s.0, put e s.1) else s) bus.subscribers;
  global_subscribers =
      if include_global then map (put e) bus.global_subscribers else bus.global_subscribers;
}

-- What a decoded notification does: a malformed one is dropped, and one's own is not fanned out again.
abbrev pub mirror : Option (ℕ × Event) → EventBus → EventBus
mirror none bus = bus
mirror (some (source, e)) bus = if source == bus.source_id then bus else fan_out e false bus

-- The JSON text of an event with its source, its size in bytes, and how it is read back.
module _ {Payload : Type 0} (encode : ℕ → Event → Payload) (decode : Payload → Option (ℕ × Event))
    (size : Payload → ℕ) where
  unfoldable pub notify_payload_limit : ℕ
  notify_payload_limit = 7800

  -- The NOTIFY that a publication sends, if any; `accepted` says whether the database takes it.
  unfoldable pub notify : Bool → Event → EventBus → Option Payload
  notify accepted e bus =
      let payload = encode bus.source_id e in
      if bus.dsn && leb (size payload) notify_payload_limit && accepted then some payload else none

  unfoldable pub publish : Bool → Event → EventBus → EventBus × Option Payload
  publish accepted e bus = (fan_out e true bus, notify accepted e bus)

  unfoldable pub on_notification : Payload → EventBus → EventBus
  on_notification payload bus = mirror (decode payload) bus

  -- PostgreSQL hands a NOTIFY to every connection that listens, the sender's too.
  abbrev pub receive : Option Payload → EventBus → EventBus
  receive none bus = bus
  receive (some payload) bus = if bus.listens then on_notification payload bus else bus
