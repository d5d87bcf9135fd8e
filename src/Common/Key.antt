-- ===== src/Common/Key.antt =====
-- Values with a Boolean equality test, which is what a dictionary, a set and `==` need.
use mathlib.Core.Option.{Option, none, some}
use mathlib.Core.Bool.{◌&&◌}
use Prim.Native.Nat.{ℕ}
use Prim.Native.String.{String}
use mathlib.Core.Path.{◌≡◌, refl}
use mathlib.Core.Logic.{◌↔◌, ◌≢◌, inl, inr}
use mathlib.Core.Bool.{Bool, true, false, ◌||◌}
use native.Mathlib.Omega.{arith}
use mathlib.Core.List.{◌++◌, List, [], ◌∷◌}
use text.Mathlib.Text.{◌==◌ as str_eq}
use text.Mathlib.TextEquality.{eq_iff}
use project_atreides.Common.Tests.{nat_eq, nat_eq_iff, Bool-cases, if◌then◌else◌}
use project_atreides.Common.Int.{ℤ, eqb_ℤ, eqb_ℤ_iff}
use project_atreides.Common.Lists.{Member, any}

pub record Key (A : Type 0) : Type 0 where
  pub eqb : A → A → Bool
  pub eqb_iff : (a b : A) → (eqb a b ≡ true) ↔ (a ≡ b)

infix 50 ◌==◌
abbrev pub ◌==◌ : {A : Type 0} ⦃k : Key A⦄ → A → A → Bool
◌==◌ ⦃k⦄ = k.eqb

instance abbrev pub nat_key : Key ℕ
nat_key = record { eqb = nat_eq; eqb_iff = nat_eq_iff }

instance abbrev pub string_key : Key String
string_key = record { eqb = str_eq; eqb_iff = eq_iff }

instance abbrev pub int_key : Key ℤ
int_key = record { eqb = eqb_ℤ; eqb_iff = eqb_ℤ_iff }

module _ {A : Type 0} ⦃k : Key A⦄ where
  pub ==-eq : {a b : A} → (a == b) ≡ true → a ≡ b
  ==-eq {a} {b} h = (k.eqb_iff a b).0 h

  pub ==_self : (a : A) → (a == a) ≡ true
  ==_self a = (k.eqb_iff a a).1 refl

  pub ==_ne : {a b : A} → a ≢ b → (a == b) ≡ false
  ==_ne {a} {b} h = elim (Bool-cases (a == b)) [
    | inl e ↦ absurd (h ((k.eqb_iff a b).0 e))
    | inr e ↦ e
  ]

  pub ne_of_== : {a b : A} → (a == b) ≡ false → a ≢ b
  ne_of_== {a} {b} h e = cc (h, (k.eqb_iff a b).1 e)

  -- `a in xs`
  abbrev pub contains : List A → A → Bool
  contains xs a = any (λ x. x == a) xs

  -- The members of `set(xs)`, each once.
  abbrev pub distinct : List A → List A
  distinct [] = []
  distinct (x ∷ xs) = let rest = distinct xs in if contains xs x then rest else x ∷ rest

  -- `len(set(xs)) != len(xs)`
  abbrev pub has_duplicates : List A → Bool
  has_duplicates [] = false
  has_duplicates (x ∷ xs) = contains xs x || has_duplicates xs

  pub ==_symm : (a b : A) → (a == b) ≡ (b == a)
  ==_symm a b = ground (arith, k.eqb_iff a b, k.eqb_iff b a)

  pub contains-snoc :
      (xs : List A) (x a : A) → contains (xs ++ x ∷ []) a ≡ (contains xs a || x == a)
  contains-snoc [] x a = ground arith
  contains-snoc (y ∷ xs) x a = ground (arith, contains-snoc xs x a)

  pub has_duplicates-snoc :
      (xs : List A) (x : A) → has_duplicates (xs ++ x ∷ []) ≡ (has_duplicates xs || contains xs x)
  has_duplicates-snoc [] x = refl
  has_duplicates-snoc (y ∷ xs) x =
      ground (arith, has_duplicates-snoc xs x, contains-snoc xs x y, ==_symm x y)

  pub Member-contains : (xs : List A) (a : A) → Member a xs → contains xs a ≡ true
  Member-contains [] a h = absurd h
  Member-contains (x ∷ xs) a h = ground (arith, k.eqb_iff x a, Member-contains xs a)

  pub contains-Member : (xs : List A) (a : A) → contains xs a ≡ true → Member a xs
  contains-Member [] a h = cc
  contains-Member (x ∷ xs) a h = ground (arith, k.eqb_iff x a, contains-Member xs a)

  pub Member-distinct : (a : A) (xs : List A) → Member a (distinct xs) → Member a xs
  Member-distinct a [] m = m
  Member-distinct a (x ∷ xs) m = ground (arith, Member-distinct a xs)

  pub Member-distinct_intro : (a : A) (xs : List A) → Member a xs → Member a (distinct xs)
  Member-distinct_intro a [] m = m
  Member-distinct_intro a (x ∷ xs) (inl e) =
      rw e (ground (arith, contains-Member xs x, Member-distinct_intro x xs))
  Member-distinct_intro a (x ∷ xs) (inr m) = ground (arith, Member-distinct_intro a xs m)

  -- `==` on tuples and on optional values
  abbrev pub same_list : List A → List A → Bool
  same_list [] [] = true
  same_list [] (_ ∷ _) = false
  same_list (_ ∷ _) [] = false
  same_list (x ∷ xs) (y ∷ ys) = x == y && same_list xs ys

  abbrev pub same_option : Option A → Option A → Bool
  same_option none none = true
  same_option none (some _) = false
  same_option (some _) none = false
  same_option (some a) (some b) = a == b

  pub same_list_iff : (xs ys : List A) → (same_list xs ys ≡ true) ↔ (xs ≡ ys)
  same_list_iff [] [] = (λ _. refl, λ _. refl)
  same_list_iff [] (y ∷ ys) = (λ h. cc, λ h. cc)
  same_list_iff (x ∷ xs) [] = (λ h. cc, λ h. cc)
  same_list_iff (x ∷ xs) (y ∷ ys) = (
    λ h. ground (arith, k.eqb_iff x y, same_list_iff xs ys),
    λ h. ground (arith, k.eqb_iff x y, same_list_iff xs ys),
  )

  pub same_option_iff : (a b : Option A) → (same_option a b ≡ true) ↔ (a ≡ b)
  same_option_iff none none = (λ _. refl, λ _. refl)
  same_option_iff none (some b) = (λ h. cc, λ h. cc)
  same_option_iff (some a) none = (λ h. cc, λ h. cc)
  same_option_iff (some a) (some b) =
      (λ h. ground (arith, k.eqb_iff a b), λ h. ground (arith, k.eqb_iff a b))

abbrev pub same_bool : Bool → Bool → Bool
same_bool true b = b
same_bool false true = false
same_bool false false = true
