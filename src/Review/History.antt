-- ===== src/Review/History.antt =====
-- The history of a table of turns: the statements of src/review/repository.py in any order.
use cloglog.Base.{
  ℕ, String, ◌≡◌, refl, Bool, true, false, ◌||◌, Option, some, List, [], ◌∷◌, ◌++◌, arith, ◌==◌,
  any, select, update_where, List-cases, ◌⊎◌, inl, inr,
}
use text.Mathlib.TextEquality.{eq_iff}
use cloglog.Models.{PrReviewTurn, Json}
use cloglog.Review.Repository.{
  Key, has_key, new_turn, claim_turn, Completion, completed_by, complete_turn, is_unposted,
  mark_posted, is_failed, restarted, reset_to_running, record_findings_and_learnings, set_outcome,
}

-- One statement that ends without an exception.
pub data Step : List PrReviewTurn → List PrReviewTurn → Type 0 where
  claims :
      {turns after : List PrReviewTurn} (id now project_id pr_number : ℕ) (k : Key)
      (session_index : Option ℕ) (inserted : Bool)
      → claim_turn id now project_id pr_number k session_index turns ≡ some (inserted, after)
      → Step turns after
  completes :
      {turns after : List PrReviewTurn} (now : ℕ) (k : Key) (c : Completion)
      → complete_turn now k c turns ≡ some after
      → Step turns after
  posts : {turns : List PrReviewTurn} (now : ℕ) (k : Key) → Step turns (mark_posted now k turns).1
  resets : {turns : List PrReviewTurn} (k : Key) → Step turns (reset_to_running k turns).1
  records :
      {turns after : List PrReviewTurn} (accepted : Bool) (k : Key) (findings learnings : List Json)
      → record_findings_and_learnings accepted k findings learnings turns ≡ some after
      → Step turns after
  marks :
      {turns : List PrReviewTurn} (k : Key) (outcome : String)
      → Step turns (set_outcome k outcome turns)

-- A history of statements.
pub data Steps : List PrReviewTurn → List PrReviewTurn → Type 0 where
  stay : {turns : List PrReviewTurn} → Steps turns turns
  step : {a b c : List PrReviewTurn} → Steps a b → Step b c → Steps a c

pub Steps-append : {a b c : List PrReviewTurn} → Steps a b → Steps b c → Steps a c
Steps-append run stay = run
Steps-append run (step more s) = step (Steps-append run more) s

-- What a statement does to the rows of a key: it changes rows and keeps their keys and sessions, and
-- leaves a row that is posted so; or it adds a row of a key that has none.
pub data Change (turns : List PrReviewTurn) : List PrReviewTurn → Type 0 where
  changed :
      {after : List PrReviewTurn} (p : PrReviewTurn → Bool) (f : PrReviewTurn → PrReviewTurn)
      → ((k : Key) (x : PrReviewTurn) → has_key k (f x) ≡ has_key k x)
      → ((k : Key) (x : PrReviewTurn) → is_unposted k x ≡ false → is_unposted k (f x) ≡ false)
      → ((x : PrReviewTurn) → (f x).session_index ≡ x.session_index)
      → after ≡ update_where p f turns
      → Change turns after
  added :
      {after : List PrReviewTurn} (k : Key) (r : PrReviewTurn)
      → any (has_key k) turns ≡ false
      → ((j : Key) → has_key j r ≡ true → (x : PrReviewTurn) → has_key j x ≡ has_key k x)
      → after ≡ turns ++ r ∷ []
      → Change turns after
  unchanged : {after : List PrReviewTurn} → after ≡ turns → Change turns after

-- A key that the new row has is the key that was claimed.
has_key-new_turn :
    (id now project_id pr_number : ℕ) (k : Key) (session_index : Option ℕ) (j : Key)
    → has_key j (new_turn id now project_id pr_number k session_index) ≡ true
    → (x : PrReviewTurn) → has_key j x ≡ has_key k x
has_key-new_turn id now project_id pr_number k session_index j h x =
    let pr : k.pr_url ≡ j.pr_url = (eq_iff k.pr_url j.pr_url).0 (ground arith) in
    let sha : k.head_sha ≡ j.head_sha = (eq_iff k.head_sha j.head_sha).0 (ground arith) in
    let stage : k.stage ≡ j.stage = (eq_iff k.stage j.stage).0 (ground arith) in
    let number : k.turn_number ≡ j.turn_number = ground arith in rw (pr, sha, stage, number) refl

claim_turn-cases :
    (id now project_id pr_number : ℕ) (k : Key) (i : Option ℕ) (b : Bool)
    (turns : List PrReviewTurn) {after : List PrReviewTurn}
    → claim_turn id now project_id pr_number k i turns ≡ some (b, after)
    → ((any (has_key k) turns ≡ false)
        × (b ≡ true)
        × (after ≡ turns ++ new_turn id now project_id pr_number k i ∷ []))
      ⊎ ((any (has_key k) turns ≡ true) × (b ≡ false) × (after ≡ turns))
unfolding claim_turn
claim_turn-cases id now project_id pr_number k i b turns h = ground arith

pub complete_turn-cases :
    (now : ℕ) (k : Key) (c : Completion) (turns : List PrReviewTurn) {after : List PrReviewTurn}
    → complete_turn now k c turns ≡ some after
    → ((x : PrReviewTurn) × (after ≡ update_where (λ r. r.id == x.id) (completed_by c now) turns))
      ⊎ (after ≡ turns)
unfolding complete_turn
complete_turn-cases now k c turns h = elim (List-cases (select (has_key k) turns)) [
  | inl e ↦ inr (ground arith)
  | inr (x, xs, e) ↦ inl (x, ground arith)
]

pub Step-Change : {turns after : List PrReviewTurn} → Step turns after → Change turns after
unfolding mark_posted reset_to_running record_findings_and_learnings set_outcome
Step-Change (claims {turns = turns} id now project_id pr_number k i b h) =
    elim (claim_turn-cases id now project_id pr_number k i b turns h) [
      | inl (free, inserted, e) ↦
          added k (new_turn id now project_id pr_number k i) free
            (has_key-new_turn id now project_id pr_number k i) e
      | inr (taken, refused, e) ↦ unchanged e
    ]
Step-Change (completes {turns = turns} now k c h) = elim (complete_turn-cases now k c turns h) [
  | inl (x, e) ↦
      changed (λ r. r.id == x.id) (completed_by c now) (λ j y. refl) (λ j y g. g) (λ y. refl) e
  | inr e ↦ unchanged e
]
Step-Change (posts now k) =
    changed (is_unposted k) (λ t. record t { posted_at = some now }) (λ j y. refl)
      (λ j y g. ground arith) (λ y. refl) refl
Step-Change (resets k) = changed (is_failed k) restarted (λ j y. refl) (λ j y g. g) (λ y. refl) refl
Step-Change (records {turns = turns} accepted k findings learnings h) =
    changed (has_key k)
      (λ t. record t { findings_json = some findings; learnings_json = some learnings })
      (λ j y. refl) (λ j y g. g) (λ y. refl) (ground arith)
Step-Change (marks k outcome) =
    changed (has_key k) (λ t. record t { outcome = some outcome }) (λ j y. refl) (λ j y g. g)
      (λ y. refl) refl

pub any-append_last :
    (q : PrReviewTurn → Bool) (rows : List PrReviewTurn) (r : PrReviewTurn)
    → any q (rows ++ r ∷ []) ≡ (any q rows || q r)
any-append_last q [] r = ground arith
any-append_last q (x ∷ rows) r = ground (arith, any-append_last q rows r)

pub any-same :
    {p q : PrReviewTurn → Bool}
    → ((x : PrReviewTurn) → p x ≡ q x)
    → (rows : List PrReviewTurn) → any p rows ≡ any q rows
any-same same [] = refl
any-same same (x ∷ rows) = ground (arith, same x, any-same same rows)
