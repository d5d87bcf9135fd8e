-- ===== src/Common/Lists.antt =====
-- Lists measured by native numbers, and tests over lists as the code makes them.
use Prim.Native.Nat.{ℕ, suc, ◌+◌}
use mathlib.Core.Path.{◌≡◌, refl, ap, sym, subst}
use mathlib.Core.Logic.{◌⊎◌, inl, inr}
use mathlib.Core.Bool.{Bool, true, false, ◌&&◌, ◌||◌}
use mathlib.Core.List.{List, [], ◌∷◌, ◌++◌, map}
use native.Mathlib.Omega.{arith}
use project_atreides.Common.Tests.{if◌then◌else◌}

module _ {ℓ} {A : Type ℓ} where
  abbrev pub length : List A → ℕ
  length [] = 0
  length (_ ∷ xs) = suc (length xs)

  abbrev pub any : (A → Bool) → List A → Bool
  any p [] = false
  any p (x ∷ xs) = p x || any p xs

  abbrev pub all : (A → Bool) → List A → Bool
  all p [] = true
  all p (x ∷ xs) = p x && all p xs

  -- `[x for x in xs if p x]`
  abbrev pub keep : (A → Bool) → List A → List A
  keep p [] = []
  keep p (x ∷ xs) = let rest = keep p xs in if p x then x ∷ rest else rest

  pub length-append : (xs ys : List A) → length (xs ++ ys) ≡ length xs + length ys
  length-append [] ys = omega arith
  length-append (x ∷ xs) ys = omega (arith, length-append xs ys)

  pub length-snoc : (xs : List A) (x : A) → length (xs ++ x ∷ []) ≡ suc (length xs)
  length-snoc [] x = refl
  length-snoc (y ∷ xs) x = omega (arith, length-snoc xs x)

  pub any-append : (p : A → Bool) (xs ys : List A) → any p (xs ++ ys) ≡ (any p xs || any p ys)
  any-append p [] ys = refl
  any-append p (x ∷ xs) ys = ground (arith, any-append p xs ys)

  pub keep-append : (p : A → Bool) (xs ys : List A) → keep p (xs ++ ys) ≡ keep p xs ++ keep p ys
  keep-append p [] ys = refl
  keep-append p (x ∷ xs) ys = ground (arith, keep-append p xs ys)

-- A property of every member, by recursion.
abbrev pub All {ℓ κ} : {A : Type ℓ} → (A → Type κ) → List A → Type κ
All P [] = Unit
All P (x ∷ xs) = P x × All P xs

pub All-append {ℓ κ} :
    {A : Type ℓ} (P : A → Type κ) (xs ys : List A) → All P xs → All P ys → All P (xs ++ ys)
All-append P [] ys hx hy = hy
All-append P (x ∷ xs) ys hx hy = (hx.0, All-append P xs ys hx.1 hy)

-- Membership by recursion, which the tactics take apart.
abbrev pub Member : {A : Type 0} → A → List A → Type 0
Member a [] = ⊥
Member a (x ∷ xs) = (a ≡ x) ⊎ Member a xs

pub All-Member {κ} :
    {A : Type 0} (P : A → Type κ) (a : A) (xs : List A) → All P xs → Member a xs → P a
All-Member P a [] all m = absurd m
All-Member P a (x ∷ xs) all (inl e) = subst P (sym e) all.0
All-Member P a (x ∷ xs) all (inr m) = All-Member P a xs all.1 m

pub Member-append_cases :
    {A : Type 0} (a : A) (xs ys : List A) → Member a (xs ++ ys) → Member a xs ⊎ Member a ys
Member-append_cases a [] ys m = inr m
Member-append_cases a (x ∷ xs) ys (inl e) = inl (inl e)
Member-append_cases a (x ∷ xs) ys (inr m) = elim (Member-append_cases a xs ys m) [
  | inl before ↦ inl (inr before)
  | inr after ↦ inr after
]

pub Member-append_left : {A : Type 0} (a : A) (xs ys : List A) → Member a xs → Member a (xs ++ ys)
Member-append_left a [] ys h = absurd h
Member-append_left a (x ∷ xs) ys (inl e) = inl e
Member-append_left a (x ∷ xs) ys (inr h) = inr (Member-append_left a xs ys h)

pub Member-append_right : {A : Type 0} (a : A) (xs ys : List A) → Member a ys → Member a (xs ++ ys)
Member-append_right a [] ys h = h
Member-append_right a (x ∷ xs) ys h = inr (Member-append_right a xs ys h)

pub Member-keep :
    {A : Type 0} (p : A → Bool) (a : A) (xs : List A)
    → Member a (keep p xs)
    → Member a xs × (p a ≡ true)
Member-keep p a [] h = absurd h
Member-keep p a (x ∷ xs) h = ground (arith, Member-keep p a xs)

pub Member-keep_intro :
    {A : Type 0} (p : A → Bool) (a : A) (xs : List A)
    → Member a xs
    → p a ≡ true
    → Member a (keep p xs)
Member-keep_intro p a [] h e = absurd h
Member-keep_intro p a (x ∷ xs) h e = ground (arith, Member-keep_intro p a xs)

pub length-map : {A B : Type 0} (f : A → B) (xs : List A) → length (map f xs) ≡ length xs
length-map f [] = refl
length-map f (x ∷ xs) = omega (arith, length-map f xs)

pub Member-map :
    {A B : Type 0} (f : A → B) (b : B) (xs : List A)
    → Member b (map f xs)
    → (a : A) × Member a xs × (b ≡ f a)
Member-map f b [] m = absurd m
Member-map f b (x ∷ xs) (inl e) = (x, inl refl, e)
Member-map f b (x ∷ xs) (inr m) = let (a, at, e) = Member-map f b xs m in (a, inr at, e)

pub Member-map_intro :
    {A B : Type 0} (f : A → B) (a : A) (xs : List A) → Member a xs → Member (f a) (map f xs)
Member-map_intro f a [] m = absurd m
Member-map_intro f a (x ∷ xs) (inl e) = inl (ap f e)
Member-map_intro f a (x ∷ xs) (inr m) = inr (Member-map_intro f a xs m)
