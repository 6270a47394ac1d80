-- ===== src/Review/Codex.antt =====
-- The status of the codex reviews of a pull request (`_derive_codex_status`).
use cloglog.Base.{
  ap, ◌∙◌, Bool, ◌&&◌, ℕ, String, ◌≡◌, ◌≢◌, ◌↔◌, refl, sym, subst, inl, inr, true, false, List, [],
  ◌∷◌, arith, leb, ltb, truthy, any, all, select, Bool-cases, List-cases,
}
use cloglog.Models.{PrReviewTurn}
use cloglog.Review.Repository.{
  working, pass, exhausted, failed, stale, progress, derive_codex_status, status_of_turns,
  posted_sessions, latest_turn, is_running, has_passed, has_failed, at_sha,
}

-- The turns at a commit.
abbrev pub current : String → List PrReviewTurn → List PrReviewTurn
current sha turns = select (at_sha sha) turns

-- "working" is shown when a turn at the commit is running, and only then.
derive_codex_status-working :
    (turns : List PrReviewTurn) (sha : String) (m c : ℕ)
    → (derive_codex_status turns sha m c ≡ working)
      ↔ ((truthy sha ≡ true) × (any is_running (current sha turns) ≡ true))
unfolding derive_codex_status status_of_turns
derive_codex_status-working turns sha m c = ground arith

-- "pass" is shown when no turn at the commit is running, and one was completed by consensus and its
-- findings were stored; and only then.
derive_codex_status-pass :
    (turns : List PrReviewTurn) (sha : String) (m c : ℕ)
    → (derive_codex_status turns sha m c ≡ pass) ↔ (
        (truthy sha ≡ true)
        × (any is_running (current sha turns) ≡ false)
        × (any has_passed (current sha turns) ≡ true))
unfolding derive_codex_status status_of_turns
derive_codex_status-pass turns sha m c = ground arith

-- "exhausted" is shown only where as many sessions have posted as may, and "stale" and "progress" only
-- where fewer have.
derive_codex_status-cap :
    (turns : List PrReviewTurn) (sha : String) (m c : ℕ)
    → let s = derive_codex_status turns sha m c in
      (s ≡ exhausted → leb c (posted_sessions turns) ≡ true)
      × (s ≡ stale → leb c (posted_sessions turns) ≡ false)
      × ((n k : ℕ) (h : String) → s ≡ progress n k h → leb c (posted_sessions turns) ≡ false)
unfolding derive_codex_status status_of_turns
derive_codex_status-cap turns sha m c = ground arith

latest_turn-then :
    (t u : PrReviewTurn) (us : List PrReviewTurn)
    → ltb t.turn_number u.turn_number ≡ true
    → latest_turn t (u ∷ us) ≡ latest_turn u us
unfolding latest_turn
latest_turn-then t u us h = rw h refl

latest_turn-else :
    (t u : PrReviewTurn) (us : List PrReviewTurn)
    → ltb t.turn_number u.turn_number ≡ false
    → latest_turn t (u ∷ us) ≡ latest_turn t us
unfolding latest_turn
latest_turn-else t u us h = rw h refl

latest_turn-nil : (t : PrReviewTurn) → latest_turn t [] ≡ t
unfolding latest_turn
latest_turn-nil t = refl

abbrev NoneAfter : PrReviewTurn → List PrReviewTurn → Type 0
NoneAfter last turns = all (λ u. leb u.turn_number last.turn_number) turns ≡ true

-- No turn comes after the one that `max` returns.
latest_turn-all :
    (t : PrReviewTurn) (ts : List PrReviewTurn) → NoneAfter (latest_turn t ts) (t ∷ ts)
latest_turn-all t [] = subst (λ r. NoneAfter r (t ∷ [])) (sym (latest_turn-nil t)) (ground arith)
latest_turn-all t (u ∷ us) = elim (Bool-cases (ltb t.turn_number u.turn_number)) [
  | inl e ↦
      subst (λ r. NoneAfter r (t ∷ u ∷ us)) (sym (latest_turn-then t u us e))
        (ground (arith, latest_turn-all u us))
  | inr e ↦
      subst (λ r. NoneAfter r (t ∷ u ∷ us)) (sym (latest_turn-else t u us e))
        (ground (arith, latest_turn-all t us))
]

failed-cases :
    (turns : List PrReviewTurn) (sha : String) (m c : ℕ) (t : PrReviewTurn) (ts : List PrReviewTurn)
    → current sha turns ≡ t ∷ ts
    → derive_codex_status turns sha m c ≡ failed
    → (any is_running (t ∷ ts) ≡ false)
      × (any has_passed (t ∷ ts) ≡ false)
      × (has_failed (latest_turn t ts) ≡ true)
unfolding derive_codex_status status_of_turns
failed-cases turns sha m c t ts e h = ground arith

failed-some :
    (turns : List PrReviewTurn) (sha : String) (m c : ℕ)
    → derive_codex_status turns sha m c ≡ failed
    → current sha turns ≢ []
unfolding derive_codex_status
failed-some turns sha m c h e = ground arith

-- The turn that `max` returns is one of the turns.
latest_turn-any :
    (q : PrReviewTurn → Bool) (t : PrReviewTurn) (ts : List PrReviewTurn)
    → q (latest_turn t ts) ≡ true
    → any q (t ∷ ts) ≡ true
latest_turn-any q t [] h =
    let first : q t ≡ true = ap q (sym (latest_turn-nil t)) ∙ h in ground arith
latest_turn-any q t (u ∷ us) h = elim (Bool-cases (ltb t.turn_number u.turn_number)) [
  | inl e ↦
      let found = latest_turn-any q u us (ap q (sym (latest_turn-then t u us e)) ∙ h) in
      ground arith
  | inr e ↦
      let found = latest_turn-any q t us (ap q (sym (latest_turn-else t u us e)) ∙ h) in
      ground arith
]

-- A turn that has failed, and that none of the turns comes after.
abbrev pub failed_last : List PrReviewTurn → PrReviewTurn → Bool
failed_last turns t = has_failed t && all (λ u. leb u.turn_number t.turn_number) turns

failed_last-any :
    (t : PrReviewTurn) (ts : List PrReviewTurn)
    → has_failed (latest_turn t ts) ≡ true
    → any (failed_last (t ∷ ts)) (t ∷ ts) ≡ true
failed_last-any t ts h =
    latest_turn-any (failed_last (t ∷ ts)) t ts (rw (h, latest_turn-all t ts) refl)

-- "failed" is shown only where no turn at the commit is running, none has passed, and one of the turns at
-- the commit, which no other one comes after, has failed, has timed out, or has lost its findings: a
-- failure that a later turn made good does not count.
pub derive_codex_status-failed :
    (turns : List PrReviewTurn) (sha : String) (m c : ℕ)
    → derive_codex_status turns sha m c ≡ failed
    → (any is_running (current sha turns) ≡ false)
      × (any has_passed (current sha turns) ≡ false)
      × (any (failed_last (current sha turns)) (current sha turns) ≡ true)
derive_codex_status-failed turns sha m c h = elim (List-cases (current sha turns)) [
  | inl e ↦ absurd (failed-some turns sha m c h e)
  | inr (t, ts, e) ↦
      let (running, passed, fails) = failed-cases turns sha m c t ts e h in
      rw e (running, passed, failed_last-any t ts fails)
]
