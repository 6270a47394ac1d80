-- ===== src/ReviewLoop/Reposts.antt =====
-- A stage that a session has posted on is not posted on again (src/gateway/review_loop.py).
use cloglog.Base.{
  ℕ, zero, suc, ◌-◌, ◌≡◌, ◌≢◌, refl, ◌∙◌, Bool, true, ◌&&◌, Option, none, some, List, [], ◌∷◌,
  arith, any, Bool-cases, ◌⊎◌, inl, inr,
}
use cloglog.Models.{PrReviewTurn, Json}
use cloglog.Review.Repository.{
  Key, has_key, is_stage, record_findings_and_learnings, set_outcome, mark_posted,
}
use cloglog.Review.History.{Steps, step, completes}
use cloglog.Review.Claims.{HasUniqueKeys, Steps-HasUniqueKeys, Steps-keeps}
use cloglog.ReviewLoop.Findings.{ReviewResult}
use cloglog.ReviewLoop.Setting.{ReviewLoop, Outside, Progress, Ending, key, compute_next_turn}
use cloglog.ReviewLoop.Run.{
  own, or_db_error, store_findings, one_turn, loop_turns, run, is_over, existing, starting, at_once,
  outcome_at_once, session_has_posted,
}
use cloglog.ReviewLoop.Turns.{
  Owned, is_noted, fails_to_post, posts_review, crashed, loses, owned_turn-Owned, or_raise-cases,
  go_on-cases,
}
use cloglog.ReviewLoop.Statements.{OthersMakeSteps, own-Steps, one_turn-Steps, store_findings-Steps}
use cloglog.ReviewLoop.Returns.{own-has_key, own-ne-none, completes-owned}
use cloglog.ReviewLoop.Resume.{at_stage, any-existing}
use cloglog.ReviewLoop.Sessions.{
  InSession, posted_in, Steps-posted_in, mark_posted-posted_in, complete_turn-InSession,
  own-InSession, update_where-InSession,
}

-- The other handlers claim turns of the stage only in the session of the run.
abbrev pub OthersInSession : ReviewLoop → Outside → Type 0
OthersInSession c o =
    (n : ℕ) (turns : List PrReviewTurn) → InSession c turns → InSession c (o.meanwhile n turns)

-- The turns are of the session, and where a review was posted the table has a posted turn.
abbrev KeepsPosts : ReviewLoop → Progress → Type 0
KeepsPosts c s = InSession c s.turns × ((s.posted ≡ []) ⊎ (any (posted_in c) s.turns ≡ true))

module _ (c : ReviewLoop) (o : Outside) where
  or_db_error-InSession :
      (n : ℕ) (turns : List PrReviewTurn) (b : Bool) (fs ls : List Json)
      (answer : Option (List PrReviewTurn))
      → record_findings_and_learnings b (key c n) fs ls turns ≡ answer
      → InSession c turns
      → InSession c (or_db_error c o n turns answer)
  unfolding record_findings_and_learnings set_outcome
  or_db_error-InSession n turns b fs ls none h inside =
      update_where-InSession c _ _ turns (λ y. refl) inside
  or_db_error-InSession n turns b fs ls (some after) h inside = ground (
    arith,
    update_where-InSession c (has_key (key c n))
        (λ t. record t { findings_json = some fs; learnings_json = some ls }) turns (λ y. refl)
        inside,
  )

  store_findings-InSession :
      (n : ℕ) (r : ReviewResult) (turns : List PrReviewTurn)
      → InSession c turns
      → InSession c (store_findings c o n r turns)
  unfolding store_findings
  store_findings-InSession n r turns = or_db_error-InSession n turns _ _ _ _ refl

  mark_posted-InSession :
      (now : ℕ) (k : Key) (turns : List PrReviewTurn)
      → InSession c turns
      → InSession c (mark_posted now k turns).1
  unfolding mark_posted
  mark_posted-InSession now k turns = update_where-InSession c _ _ turns (λ y. refl)

  module _ (others : OthersMakeSteps o) (inside : OthersInSession c o)
      (valid : is_stage c.stage ≡ true) where
    stays :
        {turns after : List PrReviewTurn} {A : Type 0}
        → Steps turns after
        → A ⊎ (any (posted_in c) turns ≡ true)
        → A ⊎ (any (posted_in c) after ≡ true)
    stays run (inl e) = inl e
    stays run (inr h) = inr (Steps-posted_in c run h)

    Owned-KeepsPosts :
        (n : ℕ) (s : Progress) {e : Ending × Progress}
        → Owned c o n s e
        → HasUniqueKeys s.turns
        → any (has_key (key c n)) s.turns ≡ true
        → KeepsPosts c s
        → KeepsPosts c e.1
    Owned-KeepsPosts n s (is_noted h) unique there (within, posted) = (
      complete_turn-InSession c (o.now n) (key c n) _ _ h (inside n s.turns within),
      stays (step (others n s.turns) (completes (o.now n) (key c n) _ h)) posted,
    )
    Owned-KeepsPosts n s (fails_to_post r h) unique there (within, posted) = (
      complete_turn-InSession c (o.now n) (key c n) _ _ h (inside n s.turns within),
      stays (step (others n s.turns) (completes (o.now n) (key c n) _ h)) posted,
    )
    Owned-KeepsPosts n s (posts_review {turns = turns} r h) unique there (within, posted) =
        let completed : InSession c turns =
          complete_turn-InSession c (o.now n) (key c n) _ _ h (inside n s.turns within) in
        let kept : any (has_key (key c n)) turns ≡ true =
          Steps-keeps (key c n) (step (others n s.turns) (completes (o.now n) (key c n) _ h))
            there in
        (
          store_findings-InSession n r _
              (mark_posted-InSession (o.now n) (key c n) turns completed),
          inr (
              Steps-posted_in c (store_findings-Steps c o n r _)
                (mark_posted-posted_in c (o.now n) n turns kept completed)),
        )
    Owned-KeepsPosts n s (crashed h) unique there (within, posted) =
        (inside n s.turns within, stays (others n s.turns) posted)
    Owned-KeepsPosts n s (loses done s' ok h same ran) unique there keeps =
        absurd (completes-owned c o others n s done ok unique there h)

    one_turn-KeepsPosts :
        (n : ℕ) (s : Progress)
        → HasUniqueKeys s.turns
        → KeepsPosts c s
        → KeepsPosts c (one_turn c o n s).1
    unfolding one_turn
    one_turn-KeepsPosts n s unique keeps =
        or_raise-cases (λ e. KeepsPosts c e.1) s _ (own c o n s.turns)
          (λ h. absurd (own-ne-none c o n s.turns valid h))
          (λ a h. elim (Bool-cases a.0) [
            | inl owned ↦ rw owned (
                Owned-KeepsPosts n (record s { turns = a.1 })
                  (owned_turn-Owned c o n (record s { turns = a.1 }))
                  (Steps-HasUniqueKeys (own-Steps c o n s.turns a h) unique)
                  (own-has_key c o n s.turns a h)
                  (
                    own-InSession c o n s.turns a h keeps.0,
                    stays (own-Steps c o n s.turns a h) keeps.1,
                  ))
            | inr refused ↦ rw refused (
              own-InSession c o n s.turns a h keeps.0,
              stays (own-Steps c o n s.turns a h) keeps.1,
            )
          ])

    loop_turns-KeepsPosts :
        (left n : ℕ) (s : Progress)
        → HasUniqueKeys s.turns
        → KeepsPosts c s
        → KeepsPosts c (loop_turns c o left n s).1
    unfolding loop_turns
    loop_turns-KeepsPosts zero n s unique keeps = keeps
    loop_turns-KeepsPosts (suc left) n s unique keeps =
        let turn = one_turn c o n s in
        let kept : KeepsPosts c turn.1 = one_turn-KeepsPosts n s unique keeps in
        go_on-cases (λ e. KeepsPosts c e.1) _ turn
          (λ h.
            loop_turns-KeepsPosts left (suc n) turn.1
              (Steps-HasUniqueKeys (one_turn-Steps c o others n s) unique) kept)
          (λ h. kept) (λ h. kept)

    run-KeepsPosts :
        (turns : List PrReviewTurn)
        → HasUniqueKeys turns
        → InSession c turns
        → KeepsPosts c (run c o turns).progress
    unfolding run
    run-KeepsPosts turns unique within = elim (Bool-cases (is_over c (existing c turns))) [
      | inl h ↦ rw h (within, inl refl)
      | inr h ↦
          let start = compute_next_turn (existing c turns) in
          rw h (
            loop_turns-KeepsPosts (suc c.max_turns - start) start (starting turns) unique
              (within, inl refl))
    ]

  any-posted :
      (rows : List PrReviewTurn)
      → any (posted_in c) rows ≡ true
      → any (λ t. at_stage c t && session_has_posted c t) rows ≡ true
  unfolding session_has_posted
  any-posted [] h = h
  any-posted (x ∷ rows) h = ground (arith, any-posted rows)

  -- A post of the session ends the stage.
  posted-is_over :
      (turns : List PrReviewTurn)
      → any (posted_in c) turns ≡ true
      → is_over c (existing c turns) ≡ true
  unfolding is_over
  posted-is_over turns h =
      let found : any (session_has_posted c) (existing c turns) ≡ true =
        any-existing c (session_has_posted c) turns ∙ any-posted turns h in
      ground arith

-- A session posts on a commit in one run at most. Where the keys of the turns are unique and the turns
-- of the stage are of the session of the run, also those that other handlers claim meanwhile: after a
-- run that posted a review and any statements since, a run of the stage in that session starts no
-- reviewer, posts nothing, sends for no CI and leaves the table as it is, whatever is outside.
pub run-posts_once :
    (c : ReviewLoop) (o o' : Outside) (turns : List PrReviewTurn)
    → OthersMakeSteps o
    → OthersInSession c o
    → is_stage c.stage ≡ true
    → HasUniqueKeys turns
    → InSession c turns
    → (run c o turns).progress.posted ≢ []
    → {later : List PrReviewTurn} → Steps (run c o turns).progress.turns later
    → run c o' later ≡ at_once later (outcome_at_once c (existing c later))
unfolding run
run-posts_once c o o' turns others inside valid unique within posted {later} since =
    let kept : KeepsPosts c (run c o turns).progress =
      run-KeepsPosts c o others inside valid turns unique within in
    elim kept.1 [
      | inl nothing ↦ absurd (posted nothing)
      | inr there ↦ rw (posted-is_over c o later (Steps-posted_in c since there)) refl
    ]
