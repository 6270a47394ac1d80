-- ===== src/Events/Delivery.antt =====
-- What a publication delivers to the workers and to their subscribers (src/shared/events.py).
use cloglog.Base.{
  false, none, ◌&&◌, ℕ, ◌≡◌, refl, sym, ap, ◌∙◌, Bool, true, false, not, Option, some, List, [],
  ◌∷◌, ◌++◌, ◌==◌, ==_self, leb, map, all, arith, if◌then◌else◌, Bool-cases, inl, inr,
}
use cloglog.Models.{Event}
use cloglog.Events.Bus.{
  Queue, EventBus, fan_out, notify, publish, on_notification, receive, notify_payload_limit, put,
}

-- A queue that holds one event more, at its end.
abbrev pub extended : Event → Queue → Queue
extended e q = record { id = q.id; items = q.items ++ e ∷ [] }

-- Every subscriber of the event's project has it once more, and no other one.
abbrev pub delivered : Event → List (ℕ × Queue) → List (ℕ × Queue)
delivered e [] = []
delivered e (s ∷ rows) =
    (s.0, (if s.0 == e.project_id then extended e s.1 else s.1)) ∷ delivered e rows

-- A worker that published an event: the global subscribers have it too.
abbrev pub with_own : Event → EventBus → EventBus
with_own e bus = record bus {
  subscribers = delivered e bus.subscribers;
  global_subscribers = map (extended e) bus.global_subscribers;
}

-- A worker that an event of another one reaches.
abbrev pub with_mirrored : Event → EventBus → EventBus
with_mirrored e bus = record bus { subscribers = delivered e bus.subscribers }

fan_out-delivered :
    (e : Event) (rows : List (ℕ × Queue))
    → map (λ s. if s.0 == e.project_id then (s.0, put e s.1) else s) rows ≡ delivered e rows
fan_out-delivered e [] = refl
fan_out-delivered e ((p, q) ∷ rows) = elim (Bool-cases (p == e.project_id)) [
  | inl h ↦ rw (h, fan_out-delivered e rows) refl
  | inr h ↦ rw (h, fan_out-delivered e rows) refl
]

fan_out-own : (e : Event) (bus : EventBus) → fan_out e true bus ≡ with_own e bus
unfolding fan_out
fan_out-own e bus = rw (fan_out-delivered e bus.subscribers) refl

fan_out-mirrored : (e : Event) (bus : EventBus) → fan_out e false bus ≡ with_mirrored e bus
unfolding fan_out
fan_out-mirrored e bus = rw (fan_out-delivered e bus.subscribers) refl

module _ {Payload : Type 0} (encode : ℕ → Event → Payload) (decode : Payload → Option (ℕ × Event))
    (size : Payload → ℕ) where
  fan_out-source :
      (e : Event) (b : Bool) (bus : EventBus) → (fan_out e b bus).source_id ≡ bus.source_id
  unfolding fan_out
  fan_out-source e b bus = refl

  on_notification-echo :
      (k : ℕ) (e : Event) (bus : EventBus)
      → decode (encode k e) ≡ some (k, e)
      → k ≡ bus.source_id
      → on_notification encode decode size (encode k e) bus ≡ bus
  unfolding on_notification
  on_notification-echo k e bus back same = rw (back, same, ==_self bus.source_id) refl

  on_notification-peer :
      (k : ℕ) (e : Event) (bus : EventBus)
      → decode (encode k e) ≡ some (k, e)
      → (k == bus.source_id) ≡ false
      → on_notification encode decode size (encode k e) bus ≡ fan_out e false bus
  unfolding on_notification
  on_notification-peer k e bus back other = rw (back, other) refl

  -- Whether the notification of an event goes out.
  abbrev pub goes_out : Bool → Event → EventBus → Bool
  goes_out accepted e bus = bus.dsn && leb (size (encode bus.source_id e)) 7800 && accepted

  own_echo :
      (e : Event) (bus : EventBus)
      → decode (encode bus.source_id e) ≡ some (bus.source_id, e)
      → receive encode decode size (some (encode bus.source_id e)) (fan_out e true bus)
        ≡ fan_out e true bus
  own_echo e bus back =
      rw
        (on_notification-echo bus.source_id e (fan_out e true bus) back
          (sym (fan_out-source e true bus)))
        ground arith

  reaches_peers :
      (k : ℕ) (e : Event) (peers : List EventBus)
      → decode (encode k e) ≡ some (k, e)
      → all (λ c. not (k == c.source_id)) peers ≡ true
      → map (receive encode decode size (some (encode k e))) peers
        ≡ map (λ c. if c.listens then with_mirrored e c else c) peers
  reaches_peers k e [] back h = refl
  reaches_peers k e (c ∷ cs) back h =
      let other : (k == c.source_id) ≡ false = ground arith in
      rw
        (
          on_notification-peer k e c back other,
          fan_out-mirrored e c,
          reaches_peers k e cs back (ground arith),
        )
        refl

  nothing_received :
      (peers : List EventBus) → map (receive encode decode size none) peers ≡ map (λ c. c) peers
  nothing_received [] = refl
  nothing_received (c ∷ cs) = ap (λ xs. c ∷ xs) (nothing_received cs)

  -- A publication reaches every subscriber once, where the codec brings the event back. On the worker that
  -- publishes, the subscribers of the project and all global ones have it once more, and its echo adds
  -- nothing. Each worker with another source that listens has it once more for the subscribers of the
  -- project and for no global one, exactly where the bus is mirrored, the text of the event is within the
  -- limit, and the database takes it; all other queues stay.
  pub publish-once :
      (accepted : Bool) (e : Event) (bus : EventBus) (peers : List EventBus)
      → decode (encode bus.source_id e) ≡ some (bus.source_id, e)
      → all (λ c. not (bus.source_id == c.source_id)) peers ≡ true
      → let (after, sent) = publish encode decode size accepted e bus in
        (receive encode decode size sent after ≡ with_own e bus)
        × (map (receive encode decode size sent) peers
            ≡ map
                (λ c. if goes_out accepted e bus && c.listens then with_mirrored e c else c)
                peers)
  unfolding publish notify notify_payload_limit
  publish-once accepted e bus peers back apart = elim (Bool-cases (goes_out accepted e bus)) [
    | inl h ↦
        rw h
          (own_echo e bus back ∙ fan_out-own e bus, reaches_peers bus.source_id e peers back apart)
    | inr h ↦ rw h (fan_out-own e bus, nothing_received peers)
  ]
