-- ===== src/ReviewLoop/Turns.antt =====
-- What one turn of the loop does (src/gateway/review_loop.py): its statements on the table, and how
-- it ends.
use cloglog.Base.{
  ℕ, ◌≡◌, refl, Bool, true, false, Option, none, some, List, Bool-cases, inl, inr, if◌then◌else◌,
}
use cloglog.Models.{PrReviewTurn}
use cloglog.Review.Repository.{Completion, complete_turn, is_status}
use cloglog.ReviewLoop.Findings.{ReviewResult}
use cloglog.ReviewLoop.Setting.{
  ReviewLoop, Answer, Outside, Progress, Ending, continues, breaks, raises, annotate, key,
}
use cloglog.ReviewLoop.Run.{
  reviewer_runs, owned_turn, reviewing, failure_status, without_result, not_posted, agreed,
  after_post, done_without_result, done_not_posted, done_posted, noted, failed_post, moved_on,
  or_raise, go_on, with_post, with_answer,
}

pub go_on-cases :
    (P : Bool × Progress → Type 0) (rest : Bool × Progress) (turn : Ending × Progress)
    → (turn.0 ≡ continues → P rest)
    → (turn.0 ≡ breaks → P (true, turn.1))
    → (turn.0 ≡ raises → P (false, turn.1))
    → P (go_on rest turn)
go_on-cases P rest (continues, s) more ends lost = more refl
go_on-cases P rest (breaks, s) more ends lost = ends refl
go_on-cases P rest (raises, s) more ends lost = lost refl

pub or_raise-cases :
    {A : Type 0} (P : Ending × Progress → Type 0) (s : Progress) (k : A → Ending × Progress)
    (answer : Option A)
    → (answer ≡ none → P (raises, s))
    → ((a : A) → answer ≡ some a → P (k a))
    → P (or_raise s k answer)
or_raise-cases P s k none lost found = lost refl
or_raise-cases P s k (some a) lost found = found a refl

module _ (c : ReviewLoop) (o : Outside) where
  -- How a turn that the run owns goes, by what is in `Outside` and what the table takes.
  pub data Owned (n : ℕ) (s : Progress) : Ending × Progress → Type 0 where
    is_noted :
        {turns : List PrReviewTurn}
        → complete_turn
            (o.now n)
            (key c n)
            (done_without_result c o (o.answer n))
            (reviewing c o n s).turns
          ≡ some turns
        → Owned n s (continues, noted c o n (o.answer n) (reviewing c o n s) turns)
    fails_to_post :
        {turns : List PrReviewTurn} (r : ReviewResult)
        → complete_turn
            (o.now n)
            (key c n)
            (done_not_posted c o (o.answer n) r)
            (reviewing c o n s).turns
          ≡ some turns
        → Owned n s (breaks, failed_post c o n (reviewing c o n s) turns)
    posts_review :
        {turns : List PrReviewTurn} (r : ReviewResult)
        → complete_turn
            (o.now n)
            (key c n)
            (done_posted c o (o.answer n) r (reviewing c o n s))
            (reviewing c o n s).turns
          ≡ some turns
        → Owned n s (
          (if agreed c o r (reviewing c o n s) then breaks else continues),
          moved_on c o n r (with_post c o n r (reviewing c o n s)) turns,
        )
    crashed : o.crashes n ≡ true → Owned n s (raises, reviewer_runs c o n s)
    loses :
        (done : Completion) (s' : Progress)
        → is_status done.status ≡ true
        → complete_turn (o.now n) (key c n) done (reviewing c o n s).turns ≡ none
        → s'.turns ≡ (reviewing c o n s).turns
        → s'.ran ≡ (reviewing c o n s).ran
        → Owned n s (raises, s')

  failure_status-is_status : (a : Answer) → is_status (failure_status c o a) ≡ true
  unfolding is_status
  failure_status-is_status a = elim (Bool-cases a.timed_out) [
    | inl e ↦ rw e refl
    | inr e ↦ rw e refl
  ]

  without_result-Owned :
      (n : ℕ) (s : Progress) → Owned n s (without_result c o n (o.answer n) (reviewing c o n s))
  unfolding without_result
  without_result-Owned n s =
      or_raise-cases (Owned n s) (reviewing c o n s) _ _
        (λ h.
          loses (done_without_result c o (o.answer n)) (reviewing c o n s)
            (failure_status-is_status (o.answer n)) h refl refl)
        (λ turns h. is_noted h)

  not_posted-Owned :
      (n : ℕ) (r : ReviewResult) (s : Progress)
      → Owned n s (not_posted c o n (o.answer n) r (reviewing c o n s))
  unfolding not_posted is_status
  not_posted-Owned n r s =
      or_raise-cases (Owned n s) (reviewing c o n s) _ _
        (λ h. loses (done_not_posted c o (o.answer n) r) (reviewing c o n s) refl h refl refl)
        (λ turns h. fails_to_post r h)

  after_post-Owned :
      (n : ℕ) (r : ReviewResult) (s : Progress)
      → Owned n s (after_post c o n (o.answer n) r (with_post c o n r (reviewing c o n s)))
  unfolding after_post is_status
  after_post-Owned n r s =
      or_raise-cases (Owned n s) (with_post c o n r (reviewing c o n s)) _ _
        (λ h.
          loses (done_posted c o (o.answer n) r (reviewing c o n s))
            (with_post c o n r (reviewing c o n s)) refl h refl refl)
        (λ turns h. posts_review r h)

  with_answer-Owned :
      (n : ℕ) (answer : Option ReviewResult) (s : Progress)
      → Owned n s (with_answer c o n answer (reviewing c o n s))
  unfolding with_answer
  with_answer-Owned n none s = without_result-Owned n s
  with_answer-Owned n (some r) s = elim (Bool-cases (o.posts n (annotate c r))) [
    | inl h ↦ rw h (after_post-Owned n r s)
    | inr h ↦ rw h (not_posted-Owned n r s)
  ]

  pub owned_turn-Owned : (n : ℕ) (s : Progress) → Owned n s (owned_turn c o n s)
  unfolding owned_turn
  owned_turn-Owned n s = elim (Bool-cases (o.crashes n)) [
    | inl h ↦ rw h (crashed h)
    | inr h ↦ rw h (with_answer-Owned n (o.answer n).result s)
  ]
