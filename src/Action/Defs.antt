-- ===== src/Action/Defs.antt =====
-- The exceptions that the services raise, and the monad of state and exceptions.
use cloglog.Base.{ℕ, suc, String, Bool, Option, none, some, List, [], ◌∷◌, ◌++◌, if◌then◌else◌}
use cloglog.Models.{World, Event}

-- FeatureBlocker and TaskBlocker (src/board/interfaces.py), PipelineBlocker
-- (src/agent/interfaces.py). `reason` is "artifact_missing" or "not_done".
pub data Blocker : Type 0 where
  feature_blocker :
      (feature_id feature_number : ℕ) (feature_title : String) (incomplete_task_numbers : List ℕ)
      → Blocker
  task_blocker : (task_id task_number : ℕ) (task_title status : String) → Blocker
  pipeline_blocker :
      (predecessor_task_type : String) (task_id task_number : ℕ) (task_title status reason : String)
      → Blocker

-- The messages of the ValueErrors, without the values that they print.
pub data Reason : Type 0 where
  worktree_not_found task_not_found feature_not_found no_active_session : Reason
  no_worktree_path already_active agents_cannot_finish not_close_off_owner : Reason
  review_needs_pr pr_already_used must_be_reviewed foreign_task : Reason
  not_an_artifact_task not_in_review self_dependency other_project duplicate cycle : Reason
  project_not_found ids_not_found : Reason

pub data Error : Type 0 where
  value_error : Reason → Error
  task_blocked : List Blocker → Error
  permission_error assertion_error multiple_results_found os_error : Error

pub data Result (A : Type 0) : Type 0 where
  ok : A → Result A
  err : Error → Result A

abbrev pub Action : Type 0 → Type 0
Action A = World → Result A × World

module _ {A : Type 0} where
  abbrev pub pure : A → Action A
  pure a w = (ok a, w)

  abbrev pub raise : Error → Action A
  raise e w = (err e, w)

  abbrev pub gets : (World → A) → Action A
  gets f w = (ok (f w), w)

-- `scalar_one_or_none()` on the rows of a query
abbrev pub scalar_one_or_none : {A : Type 0} → List A → Action (Option A)
scalar_one_or_none [] = pure none
scalar_one_or_none (a ∷ []) = pure (some a)
scalar_one_or_none (a ∷ b ∷ _) = raise multiple_results_found

infixl 5 ◌>>=◌ ◌>>◌
abbrev pub bind_result : {A B : Type 0} → Result A × World → (A → Action B) → Result B × World
bind_result (ok a, w) f = f a w
bind_result (err e, w) f = (err e, w)

abbrev pub ◌>>=◌ : {A B : Type 0} → Action A → (A → Action B) → Action B
◌>>=◌ m f w = bind_result (m w) f

abbrev pub ◌>>◌ : {A B : Type 0} → Action A → Action B → Action B
m >> k = m >>= λ _. k

abbrev pub raise_if : Bool → Error → Action (Unit {0})
raise_if c e w = (if c then err e else ok tt, w)

abbrev pub modify : (World → World) → Action (Unit {0})
modify f w = (ok tt, f w)

-- `if c: action`
abbrev pub when : Bool → Action (Unit {0}) → Action (Unit {0})
when c m w = if c then m w else (ok tt, w)

-- `if x is None: early` and the code behind it, which has the value
abbrev pub unless_none : {A B : Type 0} → Option A → Action B → (A → Action B) → Action B
unless_none none early rest = early
unless_none (some a) early rest = rest a

-- uuid.uuid4(): the next identifier that the environment supplies.
abbrev pub uuid4 : Action ℕ
uuid4 w = (ok (w.uuids 0), record w { uuids = λ n. w.uuids (suc n) })

-- EventBus.publish, as the service sees it: the event is handed over, in order.
abbrev pub publish : Event → Action (Unit {0})
publish e = modify (λ w. record w { events = w.events ++ e ∷ [] })
