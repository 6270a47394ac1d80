-- ===== src/Base/Quantifiers.antt =====
-- `all` and `any` under the list functions of the program.
use mathlib.Core.Path.{◌≡◌, refl, ◌∙◌}
use mathlib.Core.Bool.{Bool, true, false, not, ◌&&◌, ◌||◌}
use mathlib.Core.List.{List, [], ◌∷◌, ◌++◌, map}
use Prim.Native.Nat.{ℕ}
use native.Mathlib.Omega.{arith}
use cloglog.Base.Tests.{if◌then◌else◌}
use cloglog.Base.Lists.{select, all, any, insert_by, sort_by}

module _ {ℓ} {A : Type ℓ} (p : A → Bool) where
  all-insert_by :
      (key : A → ℕ) (x : A) (xs : List A) → all p (insert_by key x xs) ≡ (p x && all p xs)
  all-insert_by key x [] = refl
  all-insert_by key x (y ∷ ys) = ground (arith, all-insert_by key x ys)

  pub all-sort_by : (key : A → ℕ) (xs : List A) → all p (sort_by key xs) ≡ all p xs
  all-sort_by key [] = refl
  all-sort_by key (x ∷ xs) =
      ground (arith, all-insert_by key x (sort_by key xs), all-sort_by key xs)

  any-insert_by :
      (key : A → ℕ) (x : A) (xs : List A) → any p (insert_by key x xs) ≡ (p x || any p xs)
  any-insert_by key x [] = refl
  any-insert_by key x (y ∷ ys) = ground (arith, any-insert_by key x ys)

  pub any-sort_by : (key : A → ℕ) (xs : List A) → any p (sort_by key xs) ≡ any p xs
  any-sort_by key [] = refl
  any-sort_by key (x ∷ xs) =
      ground (arith, any-insert_by key x (sort_by key xs), any-sort_by key xs)

  pub all-append : (xs ys : List A) → all p (xs ++ ys) ≡ (all p xs && all p ys)
  all-append [] ys = refl
  all-append (x ∷ xs) ys = ground (arith, all-append xs ys)

  pub any-append : (xs ys : List A) → any p (xs ++ ys) ≡ (any p xs || any p ys)
  any-append [] ys = refl
  any-append (x ∷ xs) ys = ground (arith, any-append xs ys)

  pub select-append :
      (xs : List A) (z : A) → select p (xs ++ z ∷ []) ≡ select p xs ++ (if p z then z ∷ [] else [])
  select-append [] z = ground arith
  select-append (x ∷ xs) z = ground (arith, select-append xs z)

  -- What fails for one selected row fails for the selection.
  pub all-select-append_last :
      (q : A → Bool) (xs : List A) (x : A)
      → q x ≡ true
      → p x ≡ false
      → all p (select q (xs ++ x ∷ [])) ≡ false
  all-select-append_last q [] x h k = ground arith
  all-select-append_last q (y ∷ xs) x h k = ground (arith, all-select-append_last q xs x h k)

module _ {ℓ} {A : Type ℓ} (p q : A → Bool) where
  pub any-select : (xs : List A) → any p (select q xs) ≡ any (λ x. q x && p x) xs
  any-select [] = refl
  any-select (x ∷ xs) = ground (arith, any-select xs)

  all-select_or : (xs : List A) → all p (select q xs) ≡ all (λ x. not (q x) || p x) xs
  all-select_or [] = refl
  all-select_or (x ∷ xs) = ground (arith, all-select_or xs)

  pub any-or : (xs : List A) → any (λ x. p x || q x) xs ≡ (any p xs || any q xs)
  any-or [] = refl
  any-or (x ∷ xs) = ground (arith, any-or xs)

  pub all-select : (xs : List A) → all p xs ≡ true → all p (select q xs) ≡ true
  all-select [] h = refl
  all-select (x ∷ xs) h = ground (arith, all-select xs)

pub all-map {ℓ κ} :
    {A : Type ℓ} {B : Type κ} (p : B → Bool) (f : A → B) (xs : List A)
    → all p (map f xs) ≡ all (λ x. p (f x)) xs
all-map p f [] = refl
all-map p f (x ∷ xs) = ground (arith, all-map p f xs)

any-map {ℓ κ} :
    {A : Type ℓ} {B : Type κ} (p : B → Bool) (f : A → B) (xs : List A)
    → any p (map f xs) ≡ any (λ x. p (f x)) xs
any-map p f [] = refl
any-map p f (x ∷ xs) = ground (arith, any-map p f xs)

-- A column of the rows that a query selects, in its order.
module _ {ℓ κ} {A : Type ℓ} {B : Type κ} (p : B → Bool) (f : A → B) (key : A → ℕ)
    (q : A → Bool) where
  pub any-column :
      (xs : List A) → any p (map f (sort_by key (select q xs))) ≡ any (λ x. q x && p (f x)) xs
  any-column xs =
      any-map p f (sort_by key (select q xs))
      ∙ any-sort_by (λ x. p (f x)) key (select q xs)
      ∙ any-select (λ x. p (f x)) q xs

  pub all-column :
      (xs : List A) → all p (map f (sort_by key (select q xs))) ≡ all (λ x. not (q x) || p (f x)) xs
  all-column xs =
      all-map p f (sort_by key (select q xs))
      ∙ all-sort_by (λ x. p (f x)) key (select q xs)
      ∙ all-select_or (λ x. p (f x)) q xs
