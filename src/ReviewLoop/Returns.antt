-- ===== src/ReviewLoop/Returns.antt =====
-- When a run returns: no statement of its own is refused, and only the reviewer raises (src/gateway/review_loop.py).
use cloglog.Base.{
  ℕ, zero, suc, ◌-◌, ◌≡◌, ◌≢◌, refl, subst, Bool, true, false, Option, none, some, List, arith, any,
  Bool-cases, inl, inr, [], ◌∷◌, ◌++◌, ◌⊎◌, not, ◌||◌, ◌∙◌, ap, any-append,
}
use cloglog.Models.{PrReviewTurn}
use cloglog.Review.Repository.{
  Completion, complete_turn, is_status, Key, has_key, new_turn, claim_turn, reset_to_running,
  is_stage,
}
use cloglog.Review.History.{stay, step, resets, any-append_last}
use cloglog.Review.Claims.{HasUniqueKeys, Steps-HasUniqueKeys, Steps-keeps, has_key_self}
use cloglog.Review.Outcomes.{complete_turn_completes}
use cloglog.ReviewLoop.Setting.{
  ReviewLoop, Outside, Progress, Ending, raises, compute_next_turn, key,
}
use cloglog.ReviewLoop.Bounds.{owned_turn-ran}
use cloglog.ReviewLoop.Run.{
  own, or_reset, owned_turn, one_turn, loop_turns, run, is_over, existing, starting,
}
use cloglog.ReviewLoop.Turns.{
  Owned, is_noted, fails_to_post, posts_review, crashed, loses, owned_turn-Owned, or_raise-cases,
  go_on-cases,
}
use cloglog.ReviewLoop.Statements.{OthersMakeSteps, own-Steps, one_turn-Steps}

claim_turn-has_key :
    (id now p n : ℕ) (k : Key) (i : Option ℕ) (turns : List PrReviewTurn) {b : Bool}
    {after : List PrReviewTurn}
    → claim_turn id now p n k i turns ≡ some (b, after)
    → any (has_key k) after ≡ true
unfolding claim_turn
claim_turn-has_key id now p n k i turns h = ground (
  arith,
  has_key_self id now p n k i,
  any-append_last (has_key k) turns (new_turn id now p n k i),
)

claim_turn-ne-none :
    (id now p n : ℕ) (k : Key) (i : Option ℕ) (turns : List PrReviewTurn)
    → is_stage k.stage ≡ true
    → claim_turn id now p n k i turns ≢ none
unfolding claim_turn
claim_turn-ne-none id now p n k i turns valid h = ground arith

module _ (c : ReviewLoop) (o : Outside) where
  or_reset-has_key :
      (n : ℕ) (turns : List PrReviewTurn) (answer : Option (Bool × List PrReviewTurn))
      → claim_turn
          (o.new_id n)
          (o.now n)
          c.project_id
          c.pr_number
          (key c n)
          (some c.session_index)
          turns
        ≡ answer
      → (a : Bool × List PrReviewTurn) → or_reset c o n answer ≡ some a
      → any (has_key (key c n)) a.1 ≡ true
  or_reset-has_key n turns none h a e = absurd (ground arith)
  or_reset-has_key n turns (some (true, t)) h a e =
      let same : (true, t) ≡ a = ground arith in
      subst (λ x. any (has_key (key c n)) x.1 ≡ true) same
        (claim_turn-has_key _ _ _ _ (key c n) _ turns h)
  or_reset-has_key n turns (some (false, t)) h a e =
      let same : reset_to_running (key c n) t ≡ a = ground arith in
      subst (λ x. any (has_key (key c n)) x.1 ≡ true) same
        (Steps-keeps (key c n) (step stay (resets (key c n)))
          (claim_turn-has_key _ _ _ _ (key c n) _ turns h))

  pub own-has_key :
      (n : ℕ) (turns : List PrReviewTurn) (a : Bool × List PrReviewTurn)
      → own c o n turns ≡ some a
      → any (has_key (key c n)) a.1 ≡ true
  unfolding own
  own-has_key n turns a h = or_reset-has_key n turns _ refl a h

  or_reset-ne-none :
      (n : ℕ) (answer : Option (Bool × List PrReviewTurn))
      → answer ≢ none
      → or_reset c o n answer ≢ none
  or_reset-ne-none n none there h = there refl
  or_reset-ne-none n (some (true, t)) there h = ground arith
  or_reset-ne-none n (some (false, t)) there h = ground arith

  pub own-ne-none :
      (n : ℕ) (turns : List PrReviewTurn) → is_stage c.stage ≡ true → own c o n turns ≢ none
  unfolding own
  own-ne-none n turns valid =
      or_reset-ne-none n _ (claim_turn-ne-none _ _ _ _ (key c n) _ turns valid)

  -- A turn that the run owns can be completed, whatever others have done since.
  pub completes-owned :
      OthersMakeSteps o
      → (n : ℕ) (s : Progress) (done : Completion) → is_status done.status ≡ true
      → HasUniqueKeys s.turns
      → any (has_key (key c n)) s.turns ≡ true
      → complete_turn (o.now n) (key c n) done (o.meanwhile n s.turns) ≢ none
  completes-owned others n s done ok unique there h =
      let met = others n s.turns in
      let (t, one, after, done_so, now_so) =
        complete_turn_completes (o.now n) (key c n) done (o.meanwhile n s.turns)
          (Steps-HasUniqueKeys met unique) (Steps-keeps (key c n) met there) ok in
      ground arith

  -- An exception leaves exactly those turns in which the reviewer raises.
  abbrev Ends : List ℕ → Ending × Progress → Type 0
  Ends before e =
      ((e.0 ≢ raises) × (any o.crashes e.1.ran ≡ any o.crashes before))
      ⊎ ((e.0 ≡ raises) × (any o.crashes e.1.ran ≡ true))

  module _ (others : OthersMakeSteps o) (valid : is_stage c.stage ≡ true) where
    Owned-returns :
        (n : ℕ) (s : Progress) {e : Ending × Progress}
        → Owned c o n s e
        → HasUniqueKeys s.turns
        → any (has_key (key c n)) s.turns ≡ true
        → o.crashes n ≡ false
        → e.0 ≢ raises
    Owned-returns n s (is_noted h) unique there calm = λ e. ground arith
    Owned-returns n s (fails_to_post r h) unique there calm = λ e. ground arith
    Owned-returns n s (posts_review r h) unique there calm = λ e. ground arith
    Owned-returns n s (crashed h) unique there calm = absurd (ground arith)
    Owned-returns n s (loses done s' ok h same ran) unique there calm =
        absurd (completes-owned others n s done ok unique there h)

    ran_last :
        (n : ℕ) (before : List ℕ)
        → any o.crashes (before ++ n ∷ []) ≡ (any o.crashes before || o.crashes n)
    ran_last n before = ground (arith, any-append o.crashes before (n ∷ []))

    crash-raises : (n : ℕ) (s : Progress) → o.crashes n ≡ true → (owned_turn c o n s).0 ≡ raises
    unfolding owned_turn
    crash-raises n s h = rw h refl

    owned_turn-Ends :
        (n : ℕ) (s : Progress)
        → HasUniqueKeys s.turns
        → any (has_key (key c n)) s.turns ≡ true
        → Ends s.ran (owned_turn c o n s)
    owned_turn-Ends n s unique there =
        let ran = ap (any o.crashes) (owned_turn-ran c o n s) ∙ ran_last n s.ran in
        elim (Bool-cases (o.crashes n)) [
          | inl h ↦ inr (crash-raises n s h, ground arith)
          | inr h ↦ inl (Owned-returns n s (owned_turn-Owned c o n s) unique there h, ground arith)
        ]

    one_turn-Ends : (n : ℕ) (s : Progress) → HasUniqueKeys s.turns → Ends s.ran (one_turn c o n s)
    unfolding one_turn
    one_turn-Ends n s unique =
        or_raise-cases (Ends s.ran) s _ (own c o n s.turns)
          (λ h. absurd (own-ne-none n s.turns valid h))
          (λ a h. elim (Bool-cases a.0) [
            | inl owned ↦ rw owned (
                owned_turn-Ends n (record s { turns = a.1 })
                  (Steps-HasUniqueKeys (own-Steps c o n s.turns a h) unique)
                  (own-has_key n s.turns a h))
            | inr refused ↦ rw refused (inl (λ e. ground arith, refl))
          ])

    abbrev MatchesCrashes : Bool × Progress → Type 0
    MatchesCrashes e = e.0 ≡ not (any o.crashes e.1.ran)

    loop_turns-returns :
        (left n : ℕ) (s : Progress)
        → HasUniqueKeys s.turns
        → any o.crashes s.ran ≡ false
        → MatchesCrashes (loop_turns c o left n s)
    unfolding loop_turns
    loop_turns-returns zero n s unique calm = rw calm refl
    loop_turns-returns (suc left) n s unique calm =
        let turn = one_turn c o n s in
        elim (one_turn-Ends n s unique) [
          | inl (quiet, same) ↦
              go_on-cases MatchesCrashes _ turn
                (λ h.
                  loop_turns-returns left (suc n) turn.1
                    (Steps-HasUniqueKeys (one_turn-Steps c o others n s) unique) (same ∙ calm))
                (λ h. rw (same, calm) refl) (λ h. absurd (quiet h))
          | inr (lost, crash) ↦
              go_on-cases MatchesCrashes _ turn (λ h. absurd (ground arith))
                (λ h. absurd (ground arith)) (λ h. rw crash refl)
        ]

    -- Where the keys of the turns are unique, the stage is one that the table takes, and the other
    -- handlers make statements of the repository: a run returns exactly where the reviewer raises in no
    -- turn in which it ran, whatever it and GitHub answer else, and also where the database refuses the
    -- findings.
    pub run-returns :
        (turns : List PrReviewTurn)
        → HasUniqueKeys turns
        → (run c o turns).returned ≡ not (any o.crashes (run c o turns).progress.ran)
    unfolding run
    run-returns turns unique = elim (Bool-cases (is_over c (existing c turns))) [
      | inl h ↦ rw h refl
      | inr h ↦ rw h (
          loop_turns-returns (suc c.max_turns - compute_next_turn (existing c turns))
            (compute_next_turn (existing c turns)) (starting turns) unique refl)
    ]
