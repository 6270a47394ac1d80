-- ===== src/Base/Table.antt =====
-- A table: the rows that a query selects, and the row that a statement changes.
use mathlib.Core.Path.{◌≡◌, refl}
use mathlib.Core.Bool.{Bool, true, false}
use mathlib.Core.Logic.{inl, inr}
use mathlib.Core.Option.{Option, none, some}
use mathlib.Core.List.{List, [], ◌∷◌}
use native.Mathlib.Omega.{arith}
use cloglog.Base.Tests.{if◌then◌else◌, Bool-cases}
use cloglog.Base.Lists.{select, all, any}

module _ {ℓ} {Row : Type ℓ} where
  -- `session.get` by a key, `.limit(1)`, `.first()`
  unfoldable pub find : (Row → Bool) → List Row → Option Row
  find p [] = none
  find p (r ∷ rows) = if p r then some r else find p rows

  -- `update(...).where(p).values(...)`
  unfoldable pub update_where : (Row → Bool) → (Row → Row) → List Row → List Row
  update_where p f [] = []
  update_where p f (r ∷ rows) = (if p r then f r else r) ∷ update_where p f rows

  -- `delete` of the rows with `p`
  unfoldable pub delete_where : (Row → Bool) → List Row → List Row
  delete_where p [] = []
  delete_where p (r ∷ rows) = if p r then delete_where p rows else r ∷ delete_where p rows

  -- A row that is found has the key that was asked for.
  pub find-eq-some :
      (p : Row → Bool) (rows : List Row) {r : Row} → find p rows ≡ some r → p r ≡ true
  unfolding find
  find-eq-some p [] h = absurd (ground arith)
  find-eq-some p (x ∷ rows) h = elim (Bool-cases (p x)) [
    | inl e ↦ ground arith
    | inr e ↦ find-eq-some p rows (rw e at h)
  ]

  -- Where the statement keeps the key, the row that is found is the changed one.
  pub find-update_where :
      (p : Row → Bool) (f : Row → Row) (rows : List Row) {r : Row}
      → ((x : Row) → p x ≡ true → p (f x) ≡ true)
      → find p rows ≡ some r
      → find p (update_where p f rows) ≡ some (f r)
  unfolding find update_where
  find-update_where p f [] keeps h = absurd (ground arith)
  find-update_where p f (x ∷ rows) {r = r} keeps h = elim (Bool-cases (p x)) [
    | inl e ↦ ground (arith, keeps x)
    | inr e ↦ let ih = find-update_where p f rows {r = r} keeps (rw e at h) in ground arith
  ]

  -- What holds of every row before and of every changed row holds of every row after.
  pub all-update_where :
      (q p : Row → Bool) (f : Row → Row) (rows : List Row)
      → ((x : Row) → q x ≡ true → p x ≡ true → q (f x) ≡ true)
      → all q rows ≡ true
      → all q (update_where p f rows) ≡ true
  unfolding update_where
  all-update_where q p f [] keeps h = refl
  all-update_where q p f (x ∷ rows) keeps h =
      ground (arith, keeps x, all-update_where q p f rows keeps)

  -- After a deletion no row with the key is found.
  pub find-delete_where : (p : Row → Bool) (rows : List Row) → find p (delete_where p rows) ≡ none
  unfolding find delete_where
  find-delete_where p [] = refl
  find-delete_where p (x ∷ rows) = ground (arith, find-delete_where p rows)

  -- Rows that a query does not select may change or go without notice.
  pub select-update_where :
      (q p : Row → Bool) (f : Row → Row) (rows : List Row)
      → ((x : Row) → p x ≡ true → (q x ≡ false) × (q (f x) ≡ false))
      → select q (update_where p f rows) ≡ select q rows
  unfolding update_where
  select-update_where q p f [] apart = refl
  select-update_where q p f (x ∷ rows) apart =
      ground (arith, apart x, select-update_where q p f rows apart)

  -- A test that no changed row passes or fails anew answers as before.
  pub any-update_where :
      (q p : Row → Bool) (f : Row → Row) (rows : List Row)
      → ((x : Row) → p x ≡ true → q (f x) ≡ q x)
      → any q (update_where p f rows) ≡ any q rows
  unfolding update_where
  any-update_where q p f [] same = refl
  any-update_where q p f (x ∷ rows) same = ground (arith, same x, any-update_where q p f rows same)

  -- Where every selected row is changed into one that is not selected, and no other row comes in,
  -- none is left.
  pub select-update_where_none :
      (q p : Row → Bool) (f : Row → Row) (rows : List Row)
      → ((x : Row) → p x ≡ true → q (f x) ≡ false)
      → all p (select q rows) ≡ true
      → select q (update_where p f rows) ≡ []
  unfolding update_where
  select-update_where_none q p f [] kills h = refl
  select-update_where_none q p f (x ∷ rows) kills h =
      ground (arith, kills x, select-update_where_none q p f rows kills)
