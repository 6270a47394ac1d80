-- ===== src/Base/Sorting.antt =====
-- The order of a sorted list.
use Prim.Native.Nat.{ℕ}
use mathlib.Core.Path.{◌≡◌, refl}
use mathlib.Core.Bool.{Bool, true, ◌&&◌}
use mathlib.Core.List.{List, [], ◌∷◌, ◌++◌}
use native.Mathlib.Omega.{arith}
use mathlib.Core.Logic.{inl, inr}
use cloglog.Base.Tests.{leb, Bool-cases}
use cloglog.Base.Lists.{all, insert_by, sort_by}

module _ {ℓ} {A : Type ℓ} (key : A → ℕ) where
  -- Every entry's key is at most that of every later one.
  abbrev pub ascending_by : List A → Bool
  ascending_by [] = true
  ascending_by (x ∷ xs) = all (λ y. leb (key x) (key y)) xs && ascending_by xs

  all-leb_trans :
      (x y : A) (xs : List A)
      → leb (key x) (key y) ≡ true
      → all (λ z. leb (key y) (key z)) xs ≡ true
      → all (λ z. leb (key x) (key z)) xs ≡ true
  all-leb_trans x y [] h k = refl
  all-leb_trans x y (z ∷ zs) h k = ground (arith, all-leb_trans x y zs h)

  all-leb-insert_by :
      (x y : A) (xs : List A)
      → leb (key x) (key y) ≡ true
      → all (λ z. leb (key x) (key z)) xs ≡ true
      → all (λ z. leb (key x) (key z)) (insert_by key y xs) ≡ true
  all-leb-insert_by x y [] h k = ground arith
  all-leb-insert_by x y (z ∷ zs) h k = ground (arith, all-leb-insert_by x y zs h)

  insert_by-ascending :
      (x : A) (xs : List A) → ascending_by xs ≡ true → ascending_by (insert_by key x xs) ≡ true
  insert_by-ascending x [] h = refl
  insert_by-ascending x (y ∷ ys) h =
      ground (arith, insert_by-ascending x ys, all-leb_trans x y ys, all-leb-insert_by y x ys)

  pub sort_by-ascending : (xs : List A) → ascending_by (sort_by key xs) ≡ true
  sort_by-ascending [] = refl
  sort_by-ascending (x ∷ xs) = insert_by-ascending x (sort_by key xs) (sort_by-ascending xs)

-- An element that none exceeds stays last.
module _ {ℓ} {A : Type ℓ} (key : A → ℕ) where
  insert_by-append :
      (x : A) (ys : List A) (z : A)
      → leb (key x) (key z) ≡ true
      → insert_by key x (ys ++ z ∷ []) ≡ insert_by key x ys ++ z ∷ []
  insert_by-append x [] z h = rw h refl
  insert_by-append x (y ∷ ys) z h = elim (Bool-cases (leb (key x) (key y))) [
    | inl e ↦ rw e refl
    | inr e ↦ rw (e, insert_by-append x ys z h) refl
  ]

  pub sort_by-append :
      (xs : List A) (z : A)
      → all (λ x. leb (key x) (key z)) xs ≡ true
      → sort_by key (xs ++ z ∷ []) ≡ sort_by key xs ++ z ∷ []
  sort_by-append [] z h = refl
  sort_by-append (x ∷ xs) z h =
      rw (sort_by-append xs z (ground arith)) (insert_by-append x (sort_by key xs) z (ground arith))
