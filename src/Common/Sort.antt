-- ===== src/Common/Sort.antt =====
-- `sorted(xs, key=...)`: Python's sort is stable, and so is this insertion sort by a test `le`.
use mathlib.Core.Bool.{Bool}
use mathlib.Core.List.{List, [], ◌∷◌, Perm}
use mathlib.Core.List.Perm
use mathlib.Core.Logic.{inl, inr}
use mathlib.Core.Path.{◌≡◌}
use mathlib.Core.Bool.{true, false}
use native.Mathlib.Omega.{arith}
use project_atreides.Common.Lists.{All, Member}
use project_atreides.Common.Tests.{Bool-cases, if◌then◌else◌}

module _ {ℓ} {A : Type ℓ} (le : A → A → Bool) where
  unfoldable pub place : A → List A → List A
  place x [] = x ∷ []
  place x (y ∷ ys) = let rest = place x ys in if le x y then x ∷ y ∷ ys else y ∷ rest

  unfoldable pub sorted : List A → List A
  unfolding place
  sorted [] = []
  sorted (x ∷ xs) = place x (sorted xs)

  pub place-perm : (x : A) (ys : List A) → Perm (place x ys) (x ∷ ys)
  unfolding place
  place-perm x [] = Perm.refl (x ∷ [])
  place-perm x (y ∷ ys) = elim (Bool-cases (le x y)) [
    | inl e ↦ rw e (Perm.refl (x ∷ y ∷ ys))
    | inr e ↦ rw e (Perm.trans (Perm.cons y (place-perm x ys)) (Perm.swap x y ys))
  ]

  pub sorted-perm : (xs : List A) → Perm (sorted xs) xs
  unfolding sorted
  sorted-perm [] = Perm.refl []
  sorted-perm (x ∷ xs) = Perm.trans (place-perm x (sorted xs)) (Perm.cons x (sorted-perm xs))

-- Every member stands before those that it is below.
abbrev pub IsSorted {ℓ} : {A : Type ℓ} → (A → A → Bool) → List A → Type ℓ
IsSorted le [] = Unit
IsSorted le (x ∷ xs) = All (λ y. le x y ≡ true) xs × IsSorted le xs

module _ {A : Type 0} (le : A → A → Bool) where
  pub Member-place : (a x : A) (ys : List A) → Member a (place le x ys) → Member a (x ∷ ys)
  unfolding place
  Member-place a x [] m = m
  Member-place a x (y ∷ ys) m = ground (arith, Member-place a x ys)

  pub Member-place_intro : (a x : A) (ys : List A) → Member a (x ∷ ys) → Member a (place le x ys)
  unfolding place
  Member-place_intro a x [] m = m
  Member-place_intro a x (y ∷ ys) m = ground (arith, Member-place_intro a x ys)

  pub Member-sorted : (a : A) (xs : List A) → Member a (sorted le xs) → Member a xs
  unfolding sorted
  Member-sorted a [] m = m
  Member-sorted a (x ∷ xs) m = ground (arith, Member-place a x (sorted le xs) m, Member-sorted a xs)

  pub Member-sorted_intro : (a : A) (xs : List A) → Member a xs → Member a (sorted le xs)
  unfolding sorted
  Member-sorted_intro a [] m = m
  Member-sorted_intro a (x ∷ xs) m =
      Member-place_intro a x (sorted le xs) (ground (arith, Member-sorted_intro a xs))

module _ {A : Type 0} (le : A → A → Bool) (total : (a b : A) → le a b ≡ false → le b a ≡ true)
    (trans : (a b c : A) → le a b ≡ true → le b c ≡ true → le a c ≡ true) where
  All-below :
      (x y : A) (ys : List A)
      → le x y ≡ true
      → All (λ z. le y z ≡ true) ys
      → All (λ z. le x z ≡ true) ys
  All-below x y [] h all = tt
  All-below x y (z ∷ ys) h all = (trans x y z h all.0, All-below x y ys h all.1)

  All-place :
      (y x : A) (ys : List A)
      → le y x ≡ true
      → All (λ z. le y z ≡ true) ys
      → All (λ z. le y z ≡ true) (place le x ys)
  unfolding place
  All-place y x [] h all = (h, tt)
  All-place y x (z ∷ ys) h all = ground (arith, All-place y x ys h)

  place-IsSorted : (x : A) (ys : List A) → IsSorted le ys → IsSorted le (place le x ys)
  unfolding place
  place-IsSorted x [] s = (tt, tt)
  place-IsSorted x (y ∷ ys) s = elim (Bool-cases (le x y)) [
    | inl e ↦ rw e ((e, All-below x y ys e s.0), s)
    | inr e ↦ rw e (All-place y x ys (total x y e) s.0, place-IsSorted x ys s.1)
  ]

  pub sorted-IsSorted : (xs : List A) → IsSorted le (sorted le xs)
  unfolding sorted
  sorted-IsSorted [] = tt
  sorted-IsSorted (x ∷ xs) = place-IsSorted x (sorted le xs) (sorted-IsSorted xs)
