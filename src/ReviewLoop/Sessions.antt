-- ===== src/ReviewLoop/Sessions.antt =====
-- The session of the turns of a stage, and whether it has posted (src/gateway/review_loop.py).
use cloglog.Base.{
  ℕ, ◌≡◌, refl, ap, subst, ◌∙◌, Bool, true, false, not, ◌&&◌, ◌||◌, Option, none, some, List, [],
  ◌∷◌, arith, ◌==◌, ==_self, is_some, is_id, any, all, update_where, all-append, inl, inr,
}
use cloglog.Models.{PrReviewTurn}
use cloglog.Review.Repository.{
  Key, has_key, is_unposted, is_failed, restarted, claim_turn, new_turn, Completion, completed_by,
  complete_turn, mark_posted, reset_to_running,
}
use cloglog.Review.History.{
  Steps, stay, step, Change, changed, added, unchanged, Step-Change, any-append_last,
  complete_turn-cases,
}
use cloglog.ReviewLoop.Setting.{ReviewLoop, Outside, key}
use cloglog.ReviewLoop.Run.{own, or_reset}
use cloglog.ReviewLoop.Resume.{at_stage}

-- A turn of the stage at the commit is of the session of the run.
abbrev pub is_in_session : ReviewLoop → PrReviewTurn → Bool
is_in_session c t = not (at_stage c t) || is_id t.session_index c.session_index

abbrev pub InSession : ReviewLoop → List PrReviewTurn → Type 0
InSession c turns = all (is_in_session c) turns ≡ true

-- A turn of the stage that the session of the run has posted.
abbrev pub posted_in : ReviewLoop → PrReviewTurn → Bool
posted_in c t = at_stage c t && (is_some t.posted_at && is_id t.session_index c.session_index)

-- A statement that keeps the keys of a row keeps its stage.
at_stage-same :
    (c : ReviewLoop) (f : PrReviewTurn → PrReviewTurn)
    → ((k : Key) (x : PrReviewTurn) → has_key k (f x) ≡ has_key k x)
    → (x : PrReviewTurn) → at_stage c (f x) ≡ at_stage c x
at_stage-same c f same x = ground (
  arith,
  same (key c x.turn_number) x,
  same (key c (f x).turn_number) x,
  ==_self x.turn_number,
  ==_self (f x).turn_number,
)

module _ (c : ReviewLoop) where
  all-same :
      (p : PrReviewTurn → Bool) (f : PrReviewTurn → PrReviewTurn) (rows : List PrReviewTurn)
      → ((x : PrReviewTurn) → is_in_session c (f x) ≡ is_in_session c x)
      → all (is_in_session c) (update_where p f rows) ≡ all (is_in_session c) rows
  unfolding update_where
  all-same p f [] same = refl
  all-same p f (x ∷ rows) same = ground (arith, same x, all-same p f rows same)

  pub update_where-InSession :
      (p : PrReviewTurn → Bool) (f : PrReviewTurn → PrReviewTurn) (rows : List PrReviewTurn)
      → ((x : PrReviewTurn) → is_in_session c (f x) ≡ is_in_session c x)
      → InSession c rows
      → InSession c (update_where p f rows)
  update_where-InSession p f rows same h = all-same p f rows same ∙ h

  pub complete_turn-InSession :
      (now : ℕ) (k : Key) (d : Completion) (turns : List PrReviewTurn) {after : List PrReviewTurn}
      → complete_turn now k d turns ≡ some after
      → InSession c turns
      → InSession c after
  complete_turn-InSession now k d turns h inside = elim (complete_turn-cases now k d turns h) [
    | inl (x, e) ↦
        rw (e, all-same (λ r. r.id == x.id) (completed_by d now) turns (λ y. refl)) inside
    | inr e ↦ rw e inside
  ]

  posted_in-stays :
      (p : PrReviewTurn → Bool) (f : PrReviewTurn → PrReviewTurn) (rows : List PrReviewTurn)
      → ((x : PrReviewTurn) → posted_in c x ≡ true → posted_in c (f x) ≡ true)
      → any (posted_in c) rows ≡ true
      → any (posted_in c) (update_where p f rows) ≡ true
  unfolding update_where
  posted_in-stays p f [] stays h = h
  posted_in-stays p f (x ∷ rows) stays h = ground (arith, stays x, posted_in-stays p f rows stays)

  post-stays :
      (f : PrReviewTurn → PrReviewTurn)
      → ((k : Key) (x : PrReviewTurn) → has_key k (f x) ≡ has_key k x)
      → ((k : Key) (x : PrReviewTurn) → is_unposted k x ≡ false → is_unposted k (f x) ≡ false)
      → ((x : PrReviewTurn) → (f x).session_index ≡ x.session_index)
      → (x : PrReviewTurn) → posted_in c x ≡ true
      → posted_in c (f x) ≡ true
  post-stays f same stamps session x h = ground (
    arith,
    same (key c x.turn_number) x,
    stamps (key c x.turn_number) x,
    ap (λ i. is_id i c.session_index) (session x),
    at_stage-same c f same x,
    ==_self x.turn_number,
  )

  Change-posted_in :
      {turns after : List PrReviewTurn}
      → Change turns after
      → any (posted_in c) turns ≡ true
      → any (posted_in c) after ≡ true
  Change-posted_in {turns = turns} (changed p f same stamps session e) h =
      rw e (posted_in-stays p f turns (λ x g. post-stays f same stamps session x g) h)
  Change-posted_in {turns = turns} (added k r free same e) h =
      rw (e, any-append_last (posted_in c) turns r) ground arith
  Change-posted_in (unchanged e) h = rw e h

  -- A post of the session stays.
  pub Steps-posted_in :
      {turns after : List PrReviewTurn}
      → Steps turns after
      → any (posted_in c) turns ≡ true
      → any (posted_in c) after ≡ true
  Steps-posted_in stay h = h
  Steps-posted_in (step run s) h = Change-posted_in (Step-Change s) (Steps-posted_in run h)

  stamp-posted_in :
      (now n : ℕ) (rows : List PrReviewTurn)
      → any (has_key (key c n)) rows ≡ true
      → InSession c rows
      → any
          (posted_in c)
          (update_where (is_unposted (key c n)) (λ t. record t { posted_at = some now }) rows)
        ≡ true
  unfolding update_where
  stamp-posted_in now n [] there inside = there
  stamp-posted_in now n (x ∷ rows) there inside = ground (arith, stamp-posted_in now n rows)

  pub mark_posted-posted_in :
      (now n : ℕ) (turns : List PrReviewTurn)
      → any (has_key (key c n)) turns ≡ true
      → InSession c turns
      → any (posted_in c) (mark_posted now (key c n) turns).1 ≡ true
  unfolding mark_posted
  mark_posted-posted_in now n turns = stamp-posted_in now n turns

  claim_turn-InSession :
      (id now p n number : ℕ) (turns : List PrReviewTurn) {b : Bool} {after : List PrReviewTurn}
      → claim_turn id now p n (key c number) (some c.session_index) turns ≡ some (b, after)
      → InSession c turns
      → InSession c after
  unfolding claim_turn
  claim_turn-InSession id now p n number turns h inside = ground (
    arith,
    ==_self c.session_index,
    all-append (is_in_session c) turns
        (new_turn id now p n (key c number) (some c.session_index) ∷ []),
  )

  reset_to_running-InSession :
      (k : Key) (turns : List PrReviewTurn)
      → InSession c turns
      → InSession c (reset_to_running k turns).1
  unfolding reset_to_running
  reset_to_running-InSession k turns inside =
      rw (all-same (is_failed k) restarted turns (λ y. refl)) inside

  module _ (o : Outside) where
    or_reset-InSession :
        (n : ℕ) (turns : List PrReviewTurn) (answer : Option (Bool × List PrReviewTurn))
        → claim_turn
            (o.new_id n)
            (o.now n)
            c.project_id
            c.pr_number
            (key c n)
            (some c.session_index)
            turns
          ≡ answer
        → (a : Bool × List PrReviewTurn) → or_reset c o n answer ≡ some a
        → InSession c turns
        → InSession c a.1
    or_reset-InSession n turns none h a e inside = absurd (ground arith)
    or_reset-InSession n turns (some (true, t)) h a e inside =
        let same : (true, t) ≡ a = ground arith in
        subst (λ x. InSession c x.1) same (claim_turn-InSession _ _ _ _ n turns h inside)
    or_reset-InSession n turns (some (false, t)) h a e inside =
        let same : reset_to_running (key c n) t ≡ a = ground arith in
        subst (λ x. InSession c x.1) same
          (reset_to_running-InSession (key c n) t (claim_turn-InSession _ _ _ _ n turns h inside))

    pub own-InSession :
        (n : ℕ) (turns : List PrReviewTurn) (a : Bool × List PrReviewTurn)
        → own c o n turns ≡ some a
        → InSession c turns
        → InSession c a.1
    unfolding own
    own-InSession n turns a h = or_reset-InSession n turns _ refl a h
