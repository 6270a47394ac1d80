-- ===== src/Review/Claims.antt =====
-- The unique keys of the turns, and what a claim decides.
use cloglog.Base.{
  count-append_last, ℕ, ◌≡◌, refl, ◌∙◌, Bool, true, false, Option, some, List, [], ◌∷◌, ◌++◌, arith,
  ==_self, leb, any, count, update_where, any-update_where, Bool-cases, inl, inr,
}
use text.Mathlib.TextPositions.{eq_refl}
use cloglog.Models.{PrReviewTurn}
use cloglog.Review.Repository.{Key, has_key, new_turn, claim_turn, is_stage}
use cloglog.Review.History.{
  Steps, stay, step, Change, changed, added, unchanged, Step-Change, any-append_last, any-same,
}

count-any :
    (q : PrReviewTurn → Bool) (rows : List PrReviewTurn) → any q rows ≡ false → count q rows ≡ 0
count-any q [] h = refl
count-any q (x ∷ rows) h = ground (arith, count-any q rows)

count-update_where :
    (q p : PrReviewTurn → Bool) (f : PrReviewTurn → PrReviewTurn) (rows : List PrReviewTurn)
    → ((x : PrReviewTurn) → q (f x) ≡ q x)
    → count q (update_where p f rows) ≡ count q rows
unfolding update_where
count-update_where q p f [] same = refl
count-update_where q p f (x ∷ rows) same =
    ground (arith, same x, count-update_where q p f rows same)

-- No two rows have the same key.
abbrev pub HasUniqueKeys : List PrReviewTurn → Type 0
HasUniqueKeys turns = (k : Key) → leb (count (has_key k) turns) 1 ≡ true

Change-HasUniqueKeys :
    {turns after : List PrReviewTurn}
    → Change turns after
    → HasUniqueKeys turns
    → HasUniqueKeys after
Change-HasUniqueKeys {turns = turns} (changed p f same stamps session e) u k =
    rw (e, count-update_where (has_key k) p f turns (same k)) (u k)
Change-HasUniqueKeys {turns = turns} (added k r free same e) u j = elim (Bool-cases (has_key j r)) [
  | inl h ↦
      let none_before : count (has_key j) turns ≡ 0 =
        count-any (has_key j) turns (any-same (same j h) turns ∙ free) in
      rw (e, count-append_last (has_key j) turns r) ground (arith, u j)
  | inr h ↦ rw (e, count-append_last (has_key j) turns r) ground (arith, u j)
]
Change-HasUniqueKeys (unchanged e) u k = rw e (u k)

-- The unique constraint holds after any history that starts where it holds.
pub Steps-HasUniqueKeys :
    {turns after : List PrReviewTurn}
    → Steps turns after
    → HasUniqueKeys turns
    → HasUniqueKeys after
Steps-HasUniqueKeys stay u = u
Steps-HasUniqueKeys (step run s) u =
    Change-HasUniqueKeys (Step-Change s) (Steps-HasUniqueKeys run u)

-- A key that has a row keeps one.
Step-keeps :
    {turns after : List PrReviewTurn} (k : Key)
    → Change turns after
    → any (has_key k) turns ≡ true
    → any (has_key k) after ≡ true
Step-keeps {turns = turns} k (changed p f same stamps session e) h =
    rw (e, any-update_where (has_key k) p f turns (λ x q. same k x)) h
Step-keeps {turns = turns} k (added j r free same e) h =
    rw (e, any-append_last (has_key k) turns r) ground arith
Step-keeps k (unchanged e) h = rw e h

pub Steps-keeps :
    {turns after : List PrReviewTurn} (k : Key)
    → Steps turns after
    → any (has_key k) turns ≡ true
    → any (has_key k) after ≡ true
Steps-keeps k stay h = h
Steps-keeps k (step run s) h = Step-keeps k (Step-Change s) (Steps-keeps k run h)

claim_turn-inserts :
    (id now p n : ℕ) (k : Key) (i : Option ℕ) (turns : List PrReviewTurn)
    {claimed : List PrReviewTurn}
    → claim_turn id now p n k i turns ≡ some (true, claimed)
    → (is_stage k.stage ≡ true) × (claimed ≡ turns ++ new_turn id now p n k i ∷ [])
unfolding claim_turn
claim_turn-inserts id now p n k i turns h = (ground arith, ground arith)

pub has_key_self :
    (id now p n : ℕ) (k : Key) (i : Option ℕ) → has_key k (new_turn id now p n k i) ≡ true
has_key_self id now p n k i =
    rw (eq_refl k.pr_url, eq_refl k.head_sha, eq_refl k.stage, ==_self k.turn_number) refl

-- A key is claimed once: after any statements since a claim that inserted the turn, whoever claims the
-- key again inserts nothing.
pub claim_turn-once :
    (id now p n : ℕ) (k : Key) (i : Option ℕ) (turns : List PrReviewTurn)
    {claimed later : List PrReviewTurn}
    → claim_turn id now p n k i turns ≡ some (true, claimed)
    → Steps claimed later
    → (id' now' p' n' : ℕ) (i' : Option ℕ)
    → claim_turn id' now' p' n' k i' later ≡ some (false, later)
unfolding claim_turn
claim_turn-once id now p n k i turns {claimed} {later} h run id' now' p' n' i' =
    let (stage, e) = claim_turn-inserts id now p n k i turns h in
    let there : any (has_key k) claimed ≡ true =
      rw
        (
          e,
          any-append_last (has_key k) turns (new_turn id now p n k i),
          has_key_self id now p n k i,
        )
        ground arith in
    let kept : any (has_key k) later ≡ true = Steps-keeps k run there in rw (stage, kept) refl
