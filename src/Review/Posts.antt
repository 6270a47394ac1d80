-- ===== src/Review/Posts.antt =====
-- The stamp of a turn that was posted.
use cloglog.Base.{
  ℕ, ◌≡◌, refl, ◌∙◌, Bool, true, false, some, List, [], ◌∷◌, arith, any, update_where,
  any-update_where, Bool-cases, inl, inr,
}
use cloglog.Models.{PrReviewTurn}
use cloglog.Review.Repository.{Key, has_key, is_unposted, mark_posted}
use cloglog.Review.History.{
  Steps, stay, step, Change, changed, added, unchanged, Step-Change, any-append_last, any-same,
}

-- The rows of a key, where it has one, are all posted.
abbrev pub IsPosted : Key → List PrReviewTurn → Type 0
IsPosted k turns = (any (has_key k) turns ≡ true) × (any (is_unposted k) turns ≡ false)

any-stays_false :
    (q p : PrReviewTurn → Bool) (f : PrReviewTurn → PrReviewTurn) (rows : List PrReviewTurn)
    → ((x : PrReviewTurn) → q x ≡ false → q (f x) ≡ false)
    → any q rows ≡ false
    → any q (update_where p f rows) ≡ false
unfolding update_where
any-stays_false q p f [] stays h = refl
any-stays_false q p f (x ∷ rows) stays h = ground (arith, stays x, any-stays_false q p f rows stays)

Change-IsPosted :
    {turns after : List PrReviewTurn} (k : Key)
    → Change turns after
    → IsPosted k turns
    → IsPosted k after
Change-IsPosted {turns = turns} k (changed p f same stamps session e) (there, posted) = (
  rw (e, any-update_where (has_key k) p f turns (λ x q. same k x)) there,
  rw e (any-stays_false (is_unposted k) p f turns (stamps k) posted),
)
Change-IsPosted {turns = turns} k (added j r free same e) (there, posted) =
    elim (Bool-cases (has_key k r)) [
      | inl h ↦
          let clash : any (has_key k) turns ≡ false = any-same (same k h) turns ∙ free in
          absurd (ground arith)
      | inr h ↦ (
        rw (e, any-append_last (has_key k) turns r) ground arith,
        rw (e, any-append_last (is_unposted k) turns r) ground arith,
      )
    ]
Change-IsPosted k (unchanged e) h = rw e h

Steps-IsPosted :
    {turns after : List PrReviewTurn} (k : Key)
    → Steps turns after
    → IsPosted k turns
    → IsPosted k after
Steps-IsPosted k stay h = h
Steps-IsPosted k (step run s) h = Change-IsPosted k (Step-Change s) (Steps-IsPosted k run h)

any-update_where_none :
    (p : PrReviewTurn → Bool) (f : PrReviewTurn → PrReviewTurn) (rows : List PrReviewTurn)
    → ((x : PrReviewTurn) → p (f x) ≡ false)
    → any p (update_where p f rows) ≡ false
unfolding update_where
any-update_where_none p f [] kills = refl
any-update_where_none p f (x ∷ rows) kills =
    ground (arith, kills x, any-update_where_none p f rows kills)

pub update_where-none :
    (p : PrReviewTurn → Bool) (f : PrReviewTurn → PrReviewTurn) (rows : List PrReviewTurn)
    → any p rows ≡ false
    → update_where p f rows ≡ rows
unfolding update_where
update_where-none p f [] h = refl
update_where-none p f (x ∷ rows) h = ground (arith, update_where-none p f rows)

any-weaken :
    (p q : PrReviewTurn → Bool) (rows : List PrReviewTurn)
    → ((x : PrReviewTurn) → p x ≡ true → q x ≡ true)
    → any p rows ≡ true
    → any q rows ≡ true
any-weaken p q [] weaker h = h
any-weaken p q (x ∷ rows) weaker h = ground (arith, weaker x, any-weaken p q rows weaker)

mark_posted-IsPosted :
    (now : ℕ) (k : Key) (turns : List PrReviewTurn)
    → (mark_posted now k turns).0 ≡ true
    → IsPosted k (mark_posted now k turns).1
unfolding mark_posted
mark_posted-IsPosted now k turns h = (
  rw
      (any-update_where (has_key k) (is_unposted k) (λ t. record t { posted_at = some now }) turns
        (λ x q. refl))
      (any-weaken (is_unposted k) (has_key k) turns (λ x q. ground arith) h),
  any-update_where_none (is_unposted k) (λ t. record t { posted_at = some now }) turns
      (λ x. ground arith),
)

-- A turn is stamped as posted once: after any statements since, a second stamp of the key answers
-- false and changes nothing.
pub mark_posted-once :
    (now now' : ℕ) (k : Key) (turns : List PrReviewTurn) {later : List PrReviewTurn}
    → (mark_posted now k turns).0 ≡ true
    → Steps (mark_posted now k turns).1 later
    → mark_posted now' k later ≡ (false, later)
unfolding mark_posted
mark_posted-once now now' k turns {later} h run =
    let (there, posted) = Steps-IsPosted k run (mark_posted-IsPosted now k turns h) in
    rw
      (
        posted,
        update_where-none (is_unposted k) (λ t. record t { posted_at = some now' }) later posted,
      )
      refl
