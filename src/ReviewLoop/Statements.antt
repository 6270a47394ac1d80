-- ===== src/ReviewLoop/Statements.antt =====
-- The statements of a run on the table of turns (src/gateway/review_loop.py), as a history.
use cloglog.Base.{
  ℕ, zero, suc, ◌-◌, ◌≡◌, refl, subst, Bool, true, false, Option, none, some, List, arith,
  Bool-cases, inl, inr,
}
use cloglog.Models.{PrReviewTurn, Json}
use cloglog.Review.Repository.{claim_turn, record_findings_and_learnings, reset_to_running}
use cloglog.Review.History.{
  Steps, stay, step, claims, completes, posts, resets, records, marks, Steps-append,
}
use cloglog.ReviewLoop.Findings.{ReviewResult}
use cloglog.ReviewLoop.Setting.{ReviewLoop, Outside, Progress, Ending, key, compute_next_turn}
use cloglog.ReviewLoop.Run.{
  own, or_reset, or_db_error, store_findings, owned_turn, one_turn, loop_turns, run, is_over,
  existing, starting,
}
use cloglog.ReviewLoop.Turns.{
  Owned, is_noted, fails_to_post, posts_review, crashed, loses, owned_turn-Owned, or_raise-cases,
  go_on-cases,
}

-- The statements of other handlers are statements of the repository.
abbrev pub OthersMakeSteps : Outside → Type 0
OthersMakeSteps o = (n : ℕ) (turns : List PrReviewTurn) → Steps turns (o.meanwhile n turns)

module _ (c : ReviewLoop) (o : Outside) where
  or_reset-Steps :
      (n : ℕ) (turns : List PrReviewTurn) (answer : Option (Bool × List PrReviewTurn))
      → claim_turn
          (o.new_id n)
          (o.now n)
          c.project_id
          c.pr_number
          (key c n)
          (some c.session_index)
          turns
        ≡ answer
      → (a : Bool × List PrReviewTurn) → or_reset c o n answer ≡ some a
      → Steps turns a.1
  or_reset-Steps n turns none h a e = absurd (ground arith)
  or_reset-Steps n turns (some (true, t)) h a e =
      let same : (true, t) ≡ a = ground arith in
      subst (λ x. Steps turns x.1) same
        (step stay (
          claims (o.new_id n) (o.now n) c.project_id c.pr_number (key c n) (some c.session_index)
            true h))
  or_reset-Steps n turns (some (false, t)) h a e =
      let same : reset_to_running (key c n) t ≡ a = ground arith in
      subst (λ x. Steps turns x.1) same
        (step
          (step stay (
            claims (o.new_id n) (o.now n) c.project_id c.pr_number (key c n) (some c.session_index)
              false h))
          (resets (key c n)))

  pub own-Steps :
      (n : ℕ) (turns : List PrReviewTurn) (a : Bool × List PrReviewTurn)
      → own c o n turns ≡ some a
      → Steps turns a.1
  unfolding own
  own-Steps n turns a h = or_reset-Steps n turns _ refl a h

  or_db_error-Steps :
      (n : ℕ) (turns : List PrReviewTurn) (b : Bool) (fs ls : List Json)
      (answer : Option (List PrReviewTurn))
      → record_findings_and_learnings b (key c n) fs ls turns ≡ answer
      → Steps turns (or_db_error c o n turns answer)
  or_db_error-Steps n turns b fs ls none h = step stay (marks (key c n) "db_error")
  or_db_error-Steps n turns b fs ls (some after) h = step stay (records b (key c n) fs ls h)

  pub store_findings-Steps :
      (n : ℕ) (r : ReviewResult) (turns : List PrReviewTurn)
      → Steps turns (store_findings c o n r turns)
  unfolding store_findings
  store_findings-Steps n r turns = or_db_error-Steps n turns _ _ _ _ refl

  module _ (others : OthersMakeSteps o) where
    pub Owned-Steps :
        (n : ℕ) (s : Progress) {e : Ending × Progress} → Owned c o n s e → Steps s.turns e.1.turns
    Owned-Steps n s (is_noted h) = step (others n s.turns) (completes (o.now n) (key c n) _ h)
    Owned-Steps n s (fails_to_post r h) =
        step (others n s.turns) (completes (o.now n) (key c n) _ h)
    Owned-Steps n s (posts_review r h) =
        Steps-append
          (step (step (others n s.turns) (completes (o.now n) (key c n) _ h))
            (posts (o.now n) (key c n)))
          (store_findings-Steps n r _)
    Owned-Steps n s (crashed h) = others n s.turns
    Owned-Steps n s (loses done s' valid h same ran) = rw same (others n s.turns)

    owned_turn-Steps : (n : ℕ) (s : Progress) → Steps s.turns (owned_turn c o n s).1.turns
    owned_turn-Steps n s = Owned-Steps n s (owned_turn-Owned c o n s)

    pub one_turn-Steps : (n : ℕ) (s : Progress) → Steps s.turns (one_turn c o n s).1.turns
    unfolding one_turn
    one_turn-Steps n s =
        or_raise-cases (λ e. Steps s.turns e.1.turns) s _ (own c o n s.turns) (λ h. stay)
          (λ a h. elim (Bool-cases a.0) [
            | inl owned ↦ rw owned (
                Steps-append (own-Steps n s.turns a h)
                  (owned_turn-Steps n (record s { turns = a.1 })))
            | inr refused ↦ rw refused (own-Steps n s.turns a h)
          ])

    pub loop_turns-Steps :
        (left n : ℕ) (s : Progress) → Steps s.turns (loop_turns c o left n s).1.turns
    unfolding loop_turns
    loop_turns-Steps zero n s = stay
    loop_turns-Steps (suc left) n s =
        let turn = one_turn c o n s in
        go_on-cases (λ e. Steps s.turns e.1.turns) _ turn
          (λ h. Steps-append (one_turn-Steps n s) (loop_turns-Steps left (suc n) turn.1))
          (λ h. one_turn-Steps n s) (λ h. one_turn-Steps n s)

    -- A run only makes statements of the repository, whatever the reviewer, GitHub and the database
    -- answer.
    pub run-Steps : (turns : List PrReviewTurn) → Steps turns (run c o turns).progress.turns
    unfolding run
    run-Steps turns = elim (Bool-cases (is_over c (existing c turns))) [
      | inl h ↦ rw h stay
      | inr h ↦ rw h (
          loop_turns-Steps (suc c.max_turns - compute_next_turn (existing c turns))
            (compute_next_turn (existing c turns)) (starting turns))
    ]
