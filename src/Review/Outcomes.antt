-- ===== src/Review/Outcomes.antt =====
-- What completing and restarting a turn does to its row (src/review/repository.py).
use cloglog.Base.{
  exactly_one, any-select, select-all, ℕ, ◌≡◌, refl, sym, ap, ◌∙◌, ◌⊎◌, inl, inr, Bool, true, false,
  some, List, [], ◌∷◌, arith, ◌==◌, ==_self, str_eq, any, select, update_where, Bool-cases,
}
use cloglog.Models.{PrReviewTurn}
use cloglog.Review.Repository.{
  Key, has_key, Completion, completed_by, complete_turn, is_status, is_failed, restarted,
  reset_to_running,
}
use cloglog.Review.Claims.{HasUniqueKeys}
use cloglog.Review.Posts.{update_where-none}

-- A statement that keeps a test of a query changes the rows that the query selects, and no more.
select-update_where-commutes :
    (q p : PrReviewTurn → Bool) (f : PrReviewTurn → PrReviewTurn) (rows : List PrReviewTurn)
    → ((x : PrReviewTurn) → q (f x) ≡ q x)
    → select q (update_where p f rows) ≡ update_where p f (select q rows)
unfolding update_where
select-update_where-commutes q p f [] same = refl
select-update_where-commutes q p f (x ∷ rows) same =
    ground (arith, same x, select-update_where-commutes q p f rows same)

complete_turn-eq :
    (now : ℕ) (k : Key) (c : Completion) (turns : List PrReviewTurn) (t : PrReviewTurn)
    → select (has_key k) turns ≡ t ∷ []
    → is_status c.status ≡ true
    → complete_turn now k c turns
      ≡ some (update_where (λ r. r.id == t.id) (completed_by c now) turns)
unfolding complete_turn
complete_turn-eq now k c turns t e valid = ground arith

update_where-one :
    (f : PrReviewTurn → PrReviewTurn) (p : PrReviewTurn → Bool) (t : PrReviewTurn)
    → p t ≡ true
    → update_where p f (t ∷ []) ≡ f t ∷ []
unfolding update_where
update_where-one f p t h = rw h refl

-- Where the keys are unique, completing a turn that is there by a status that the table allows returns,
-- and afterwards the row of the key is the old one with the outcome written into it.
pub complete_turn_completes :
    (now : ℕ) (k : Key) (c : Completion) (turns : List PrReviewTurn)
    → HasUniqueKeys turns
    → any (has_key k) turns ≡ true
    → is_status c.status ≡ true
    → (t : PrReviewTurn) × (select (has_key k) turns ≡ t ∷ [])
      × (after : List PrReviewTurn) × (complete_turn now k c turns ≡ some after)
      × (select (has_key k) after ≡ completed_by c now t ∷ [])
complete_turn_completes now k c turns unique there valid =
    let (t, e) = exactly_one (has_key k) turns (unique k) there in
    (
      t,
      e,
      update_where (λ r. r.id == t.id) (completed_by c now) turns,
      complete_turn-eq now k c turns t e valid,
      select-update_where-commutes (has_key k) (λ r. r.id == t.id) (completed_by c now) turns
            (λ x. refl)
          ∙ (ap (update_where (λ r. r.id == t.id) (completed_by c now)) e
              ∙ update_where-one (completed_by c now) (λ r. r.id == t.id) t (==_self t.id)),
    )

-- Where the keys are unique, a turn that is there is restarted exactly when it failed; then its row is
-- running again with its outcome cleared, and else nothing changes.
reset_to_running_restarts :
    (k : Key) (turns : List PrReviewTurn)
    → HasUniqueKeys turns
    → any (has_key k) turns ≡ true
    → let (answer, after) = reset_to_running k turns in
      (t : PrReviewTurn) × (select (has_key k) turns ≡ t ∷ [])
      × (((str_eq t.status "failed" ≡ true)
            × (answer ≡ true)
            × (select (has_key k) after ≡ restarted t ∷ []))
          ⊎ ((str_eq t.status "failed" ≡ false) × (answer ≡ false) × (after ≡ turns)))
unfolding reset_to_running
reset_to_running_restarts k turns unique there =
    let (t, e) = exactly_one (has_key k) turns (unique k) there in
    let own : has_key k t ≡ true = first_has_key turns t e in
    let asked : any (is_failed k) turns ≡ str_eq t.status "failed" = failed_row turns t e in
    elim (Bool-cases (str_eq t.status "failed")) [
      | inl h ↦ (
        t,
        e,
        inl (
          h,
          asked ∙ h,
          select-update_where-commutes (has_key k) (is_failed k) restarted turns (λ x. refl)
              ∙ (ap (update_where (is_failed k) restarted) e
                  ∙ update_where-one restarted (is_failed k) t (rw (own, h) refl)),
        ),
      )
      | inr h ↦
          (t, e, inr (h, asked ∙ h, update_where-none (is_failed k) restarted turns (asked ∙ h)))
    ]
  where
    first_has_key :
        (rows : List PrReviewTurn) (t : PrReviewTurn)
        → select (has_key k) rows ≡ t ∷ []
        → has_key k t ≡ true
    first_has_key rows t e = ground (arith, rw e at (select-all (has_key k) rows))

    failed_row :
        (rows : List PrReviewTurn) (t : PrReviewTurn)
        → select (has_key k) rows ≡ t ∷ []
        → any (is_failed k) rows ≡ str_eq t.status "failed"
    failed_row rows t e =
        sym (any-select (λ x. str_eq x.status "failed") (has_key k) rows)
        ∙ (ap (any (λ x. str_eq x.status "failed")) e ∙ ground arith)
