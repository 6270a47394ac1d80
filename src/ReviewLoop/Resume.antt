-- ===== src/ReviewLoop/Resume.antt =====
-- The turn at which a run resumes (`_compute_next_turn` of src/gateway/review_loop.py).
use cloglog.Base.{
  ℕ, suc, ◌+◌, ◌-◌, ◌≡◌, refl, sym, ◌∙◌, ap, subst, ◌⊎◌, inl, inr, Bool, true, false, ◌&&◌, Option,
  none, some, List, [], ◌∷◌, ◌++◌, arith, ◌==◌, ltb, leb, str_eq, any, all, select, any-sort_by,
  any-select, List-cases, Bool-cases,
}
use cloglog.Models.{PrReviewTurn}
use cloglog.Review.Repository.{
  has_key, is_failed, claim_turn, reset_to_running, is_stage, turns_for_stage,
}
use cloglog.Review.History.{any-same}
use cloglog.ReviewLoop.Setting.{
  ReviewLoop, Outside, Progress, key, lowest, lowest_or, highest, turn_numbers, failed_numbers,
  compute_next_turn,
}
use cloglog.ReviewLoop.Run.{own, or_reset, existing, one_turn, loop_turns, run, is_over, starting}
use cloglog.ReviewLoop.Turns.{or_raise-cases, go_on-cases}
use cloglog.ReviewLoop.Bounds.{owned_turn-ran, loop_turns-ran, numbers_from}
use cloglog.ReviewLoop.Returns.{own-ne-none}

lowest-among : (n : ℕ) (ns : List ℕ) → any (λ m. m == lowest n ns) (n ∷ ns) ≡ true
unfolding lowest
lowest-among n [] = ground arith
lowest-among n (m ∷ ms) = ground (arith, lowest-among n ms, lowest-among m ms)

highest-bounds : (n : ℕ) (ns : List ℕ) → all (λ m. leb m (highest n ns)) (n ∷ ns) ≡ true
unfolding highest
highest-bounds n [] = ground arith
highest-bounds n (m ∷ ms) = elim (Bool-cases (ltb n m)) [
  | inl h ↦
      let e : highest n (m ∷ ms) ≡ highest m ms = rw h refl in
      subst (λ v. all (λ k. leb k v) (n ∷ m ∷ ms) ≡ true) (sym e)
        (ground (arith, highest-bounds m ms))
  | inr h ↦
      let e : highest n (m ∷ ms) ≡ highest n ms = rw h refl in
      subst (λ v. all (λ k. leb k v) (n ∷ m ∷ ms) ≡ true) (sym e)
        (ground (arith, highest-bounds n ms))
]

any-turn_numbers :
    (p : ℕ → Bool) (q : PrReviewTurn → Bool) (rows : List PrReviewTurn)
    → any p (turn_numbers (select q rows)) ≡ any (λ t. q t && p t.turn_number) rows
any-turn_numbers p q [] = refl
any-turn_numbers p q (t ∷ ts) = ground (arith, any-turn_numbers p q ts)

above_all :
    (n : ℕ) (rows : List PrReviewTurn)
    → all (λ m. leb m n) (turn_numbers rows) ≡ true
    → any (λ t. t.turn_number == n + 1) rows ≡ false
above_all n [] h = refl
above_all n (t ∷ ts) h = ground (arith, above_all n ts)

next-failed :
    (t : PrReviewTurn) (ts : List PrReviewTurn) (n : ℕ) (ns : List ℕ)
    → failed_numbers (t ∷ ts) ≡ n ∷ ns
    → compute_next_turn (t ∷ ts) ≡ lowest n ns
unfolding compute_next_turn
next-failed t ts n ns e = ap (lowest_or (highest t.turn_number (turn_numbers ts) + 1)) e

next-unused :
    (t : PrReviewTurn) (ts : List PrReviewTurn)
    → failed_numbers (t ∷ ts) ≡ []
    → compute_next_turn (t ∷ ts) ≡ highest t.turn_number (turn_numbers ts) + 1
unfolding compute_next_turn
next-unused t ts e = ap (lowest_or (highest t.turn_number (turn_numbers ts) + 1)) e

-- A failed turn has the number, or no turn has.
abbrev FailedOrFree : ℕ → List PrReviewTurn → Type 0
FailedOrFree n rows =
    (any (λ t. str_eq t.status "failed" && t.turn_number == n) rows ≡ true)
    ⊎ (any (λ t. t.turn_number == n) rows ≡ false)

next-FailedOrFree : (rows : List PrReviewTurn) → FailedOrFree (compute_next_turn rows) rows
next-FailedOrFree [] = inr refl
next-FailedOrFree (t ∷ ts) = elim (List-cases (failed_numbers (t ∷ ts))) [
  | inl e ↦
      subst (λ m. FailedOrFree m (t ∷ ts)) (sym (next-unused t ts e))
        (inr (
          above_all (highest t.turn_number (turn_numbers ts)) (t ∷ ts)
            (highest-bounds t.turn_number (turn_numbers ts))))
  | inr (n, ns, e) ↦
      subst (λ m. FailedOrFree m (t ∷ ts)) (sym (next-failed t ts n ns e))
        (inl (
          sym (any-turn_numbers (λ m. m == lowest n ns) (λ x. str_eq x.status "failed") (t ∷ ts))
          ∙ (ap (any (λ m. m == lowest n ns)) e ∙ lowest-among n ns)))
]

abbrev pub at_stage : ReviewLoop → PrReviewTurn → Bool
at_stage c t = str_eq t.pr_url c.pr_url && str_eq t.head_sha c.head_sha && str_eq t.stage c.stage

pub any-existing :
    (c : ReviewLoop) (p : PrReviewTurn → Bool) (turns : List PrReviewTurn)
    → any p (existing c turns) ≡ any (λ t. at_stage c t && p t) turns
unfolding turns_for_stage
any-existing c p turns = any-sort_by p (λ t. t.created_at) _ ∙ any-select p (at_stage c) turns

-- Whatever the table holds, the next turn is a failed one of the stage, or its key is free.
next-is_failed-or-free :
    (c : ReviewLoop) (turns : List PrReviewTurn)
    → let k = key c (compute_next_turn (existing c turns)) in
      (any (is_failed k) turns ≡ true) ⊎ (any (has_key k) turns ≡ false)
next-is_failed-or-free c turns =
    let n = compute_next_turn (existing c turns) in
    elim (next-FailedOrFree (existing c turns)) [
      | inl h ↦ inl (
          any-same (λ t. ground arith) turns
          ∙ (sym (any-existing c (λ t. str_eq t.status "failed" && t.turn_number == n) turns) ∙ h))
      | inr h ↦ inr (
          any-same (λ t. ground arith) turns
          ∙ (sym (any-existing c (λ t. t.turn_number == n) turns) ∙ h))
    ]

module _ (c : ReviewLoop) (o : Outside) where
  or_reset-owned :
      (n : ℕ) (turns : List PrReviewTurn) (answer : Option (Bool × List PrReviewTurn))
      → claim_turn
          (o.new_id n)
          (o.now n)
          c.project_id
          c.pr_number
          (key c n)
          (some c.session_index)
          turns
        ≡ answer
      → (any (is_failed (key c n)) turns ≡ true) ⊎ (any (has_key (key c n)) turns ≡ false)
      → (a : Bool × List PrReviewTurn) → or_reset c o n answer ≡ some a
      → a.0 ≡ true
  unfolding claim_turn reset_to_running
  or_reset-owned n turns none h found a e = absurd (ground arith)
  or_reset-owned n turns (some (true, t)) h found a e = ground arith
  or_reset-owned n turns (some (false, t)) h found a e = elim found [
    | inl failed ↦
        let same : t ≡ turns = ground arith in
        let reset : reset_to_running (key c n) t ≡ a = ground arith in
        ap (λ x. x.0) (sym reset) ∙ (ap (any (is_failed (key c n))) same ∙ failed)
    | inr free ↦ absurd (ground arith)
  ]

  own-next :
      (turns : List PrReviewTurn) (a : Bool × List PrReviewTurn)
      → own c o (compute_next_turn (existing c turns)) turns ≡ some a
      → a.0 ≡ true
  unfolding own
  own-next turns a h =
      or_reset-owned (compute_next_turn (existing c turns)) turns _ refl
        (next-is_failed-or-free c turns) a h

  -- The first turn of a run that is not over is run by it.
  first_turn-ran :
      (turns : List PrReviewTurn)
      → is_stage c.stage ≡ true
      → let start = compute_next_turn (existing c turns) in
        (one_turn c o start (starting turns)).1.ran ≡ start ∷ []
  unfolding one_turn
  first_turn-ran turns valid =
      let start = compute_next_turn (existing c turns) in
      or_raise-cases (λ e. e.1.ran ≡ start ∷ []) (starting turns) _ (own c o start turns)
        (λ h. absurd (own-ne-none c o start turns valid h))
        (λ a h.
          rw (own-next turns a h)
            (owned_turn-ran c o start (record (starting turns) { turns = a.1 })))

  -- The reviewer that ran stays noted.
  loop_turns-first :
      (left n : ℕ) (s : Progress)
      → (one_turn c o n s).1.ran ≡ n ∷ []
      → (rest : List ℕ) × ((loop_turns c o (suc left) n s).1.ran ≡ n ∷ rest)
  unfolding loop_turns
  loop_turns-first left n s first =
      let turn = one_turn c o n s in
      go_on-cases (λ e. (rest : List ℕ) × (e.1.ran ≡ n ∷ rest)) _ turn
        (λ h.
          let (k, few, e) = loop_turns-ran c o left (suc n) turn.1 in
          (numbers_from (suc n) k, e ∙ ap (λ x. x ++ numbers_from (suc n) k) first))
        (λ h. ([], first)) (λ h. ([], first))

  -- A run on a stage that is not over starts the reviewer, and first for the turn that is next:
  -- claiming or restarting that turn succeeds whatever the table holds.
  pub run-starts :
      (turns : List PrReviewTurn)
      → is_stage c.stage ≡ true
      → is_over c (existing c turns) ≡ false
      → (rest : List ℕ) × ((run c o turns).progress.ran
          ≡ compute_next_turn (existing c turns) ∷ rest)
  unfolding run is_over
  run-starts turns valid open_stage =
      let start = compute_next_turn (existing c turns) in
      let (left, e) : (left : ℕ) × (suc c.max_turns - start ≡ suc left) =
        (c.max_turns - start, ground arith) in
      let (rest, ran) = loop_turns-first left start (starting turns) (first_turn-ran turns valid) in
      (rest, rw (open_stage, e) ran)
