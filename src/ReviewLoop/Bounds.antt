-- ===== src/ReviewLoop/Bounds.antt =====
-- How often a run starts the reviewer (src/gateway/review_loop.py).
use cloglog.Base.{
  ℕ, zero, suc, ◌-◌, ◌≡◌, ◌≢◌, refl, sym, ◌∙◌, ap, ◌⊎◌, inl, inr, true, List, [], ◌∷◌, ◌++◌, arith,
  leb, Bool-cases,
}
use mathlib.Core.List.{append_assoc, append-nil}
use cloglog.Models.{PrReviewTurn}
use cloglog.ReviewLoop.Setting.{ReviewLoop, Outside, Progress, Ending, continues, compute_next_turn}
use cloglog.ReviewLoop.Run.{own, owned_turn, one_turn, loop_turns, run, is_over, existing, starting}
use cloglog.ReviewLoop.Turns.{
  Owned, is_noted, fails_to_post, posts_review, crashed, loses, owned_turn-Owned, or_raise-cases,
  go_on-cases,
}

-- `k` numbers from `n` on.
abbrev pub numbers_from : ℕ → ℕ → List ℕ
numbers_from n zero = []
numbers_from n (suc k) = n ∷ numbers_from (suc n) k

-- Of the numbers from `n` on, as many as are left at most.
abbrev pub RanFrom : ℕ → ℕ → List ℕ → List ℕ → Type 0
RanFrom left n before after = (k : ℕ) × (leb k left ≡ true) × (after ≡ before ++ numbers_from n k)

module _ (c : ReviewLoop) (o : Outside) where
  pub Owned-ran :
      (n : ℕ) (s : Progress) {e : Ending × Progress} → Owned c o n s e → e.1.ran ≡ s.ran ++ n ∷ []
  Owned-ran n s (is_noted h) = refl
  Owned-ran n s (fails_to_post r h) = refl
  Owned-ran n s (posts_review r h) = refl
  Owned-ran n s (crashed h) = refl
  Owned-ran n s (loses done s' valid h same ran) = ran

  pub owned_turn-ran : (n : ℕ) (s : Progress) → (owned_turn c o n s).1.ran ≡ s.ran ++ n ∷ []
  owned_turn-ran n s = Owned-ran n s (owned_turn-Owned c o n s)

  one_turn-ran :
      (n : ℕ) (s : Progress)
      → ((one_turn c o n s).1.ran ≡ s.ran ++ n ∷ [])
        ⊎ (((one_turn c o n s).1.ran ≡ s.ran) × ((one_turn c o n s).0 ≢ continues))
  unfolding one_turn
  one_turn-ran n s =
      or_raise-cases (λ e. (e.1.ran ≡ s.ran ++ n ∷ []) ⊎ ((e.1.ran ≡ s.ran) × (e.0 ≢ continues))) s
        _ (own c o n s.turns) (λ h. inr (refl, λ e. ground arith))
        (λ a h. elim (Bool-cases a.0) [
          | inl owned ↦ rw owned (inl (owned_turn-ran n (record s { turns = a.1 })))
          | inr refused ↦ rw refused (inr (refl, λ e. ground arith))
        ])

  RanFrom-one : (left n : ℕ) (s : Progress) → RanFrom (suc left) n s.ran (one_turn c o n s).1.ran
  RanFrom-one left n s = elim (one_turn-ran n s) [
    | inl ran ↦ (1, ground arith, ran)
    | inr (same, stops) ↦ (0, ground arith, same ∙ sym (append-nil s.ran))
  ]

  pub loop_turns-ran :
      (left n : ℕ) (s : Progress) → RanFrom left n s.ran (loop_turns c o left n s).1.ran
  unfolding loop_turns
  loop_turns-ran zero n s = (0, refl, sym (append-nil s.ran))
  loop_turns-ran (suc left) n s =
      let turn = one_turn c o n s in
      go_on-cases (λ e. RanFrom (suc left) n s.ran e.1.ran) _ turn
        (λ h. elim (one_turn-ran n s) [
          | inl ran ↦
              let (k, few, e) = loop_turns-ran left (suc n) turn.1 in
              (
                suc k,
                ground arith,
                e
                    ∙ ap (λ x. x ++ numbers_from (suc n) k) ran
                    ∙ append_assoc s.ran (n ∷ []) (numbers_from (suc n) k),
              )
          | inr (same, stops) ↦ absurd (stops h)
        ])
        (λ h. RanFrom-one left n s) (λ h. RanFrom-one left n s)

  -- A run starts the reviewer for consecutive turns, from the turn that is next, each once, and for
  -- none above the maximum: it ends.
  pub run-consecutive :
      (turns : List PrReviewTurn)
      → let start = compute_next_turn (existing c turns) in
        (k : ℕ) × (leb k (suc c.max_turns - start) ≡ true)
        × ((run c o turns).progress.ran ≡ numbers_from start k)
  unfolding run
  run-consecutive turns = elim (Bool-cases (is_over c (existing c turns))) [
    | inl h ↦ (0, ground arith, rw h refl)
    | inr h ↦
        let start = compute_next_turn (existing c turns) in
        rw h (loop_turns-ran (suc c.max_turns - start) start (starting turns))
  ]
