-- ===== src/Tests/Events.antt =====
-- The event bus and its theorems on two workers.
use cloglog.Base.{ℕ, ◌≡◌, refl, true, Option, some, ◌&&◌, if◌then◌else◌, [], ◌∷◌, map}
use cloglog.Models.{Event, EventType}
use cloglog.Events.Bus.{EventBus, new_queue, publish, receive}
use cloglog.Events.Delivery.{publish-once, with_own, with_mirrored, goes_out}

abbrev event : ℕ → Event
event p = record { type = EventType.task_created; project_id = p; payload = [] }

abbrev worker : ℕ → EventBus
worker k = record {
  source_id = k;
  subscribers = (1, new_queue 5) ∷ (2, new_queue 6) ∷ [];
  global_subscribers = new_queue 7 ∷ [];
  dsn = true;
  listens = true;
}

-- A codec that keeps the pair.
abbrev encode : ℕ → Event → ℕ × Event
encode k e = (k, e)

abbrev decode : ℕ × Event → Option (ℕ × Event)
decode m = some m

abbrev size : ℕ × Event → ℕ
size m = 120

publish-once_example :
    let (after, sent) = publish encode decode size true (event 1) (worker 1) in
    (receive encode decode size sent after ≡ with_own (event 1) (worker 1))
    × (map (receive encode decode size sent) (worker 2 ∷ worker 3 ∷ [])
        ≡ map
            (λ c.
              if goes_out encode decode size true (event 1) (worker 1) && c.listens
              then with_mirrored (event 1) c
              else c)
            (worker 2 ∷ worker 3 ∷ []))
publish-once_example =
    publish-once encode decode size true (event 1) (worker 1) (worker 2 ∷ worker 3 ∷ []) refl refl
