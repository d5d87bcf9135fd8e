-- ===== src/Common/Distinct.antt =====
-- Lists without a repeated entry, and what they say of the fields of a pool.
use mathlib.Core.Path.{◌≡◌, ap, sym, subst, ◌∙◌}
use mathlib.Core.Logic.{inl, inr}
use mathlib.Core.List.{List, [], ◌∷◌, ◌++◌, map}
use native.Mathlib.Omega.{arith}
use Prim.Native.Nat.{suc, ◌≤◌}
use project_atreides.Common.Lists.{
  length, Member, All, All-Member, Member-map, Member-map_intro, Member-append_cases,
}
use project_atreides.Common.Tests.{Bool-cases}
use project_atreides.Common.Key.{Key, contains, distinct, Member-contains}

-- No entry twice.
abbrev pub IsDistinct : {A : Type 0} → List A → Type 0
IsDistinct [] = Unit
IsDistinct (x ∷ xs) = (¬ (Member x xs)) × IsDistinct xs

module _ {K : Type 0} ⦃k : Key K⦄ where
  pub length-distinct : (xs : List K) → length (distinct xs) ≤ length xs
  length-distinct [] = omega arith
  length-distinct (x ∷ xs) = ground (arith, length-distinct xs)

  pub distinct-IsDistinct : (xs : List K) → length (distinct xs) ≡ length xs → IsDistinct xs
  distinct-IsDistinct [] h = tt
  distinct-IsDistinct (x ∷ xs) h = elim (Bool-cases (contains xs x)) [
    | inl e ↦
        let short : length (distinct xs) ≡ suc (length xs) = rw e at h in
        absurd (omega (arith, length-distinct xs, short))
    | inr e ↦
        let rest : suc (length (distinct xs)) ≡ suc (length xs) = rw e at h in
        (λ m. cc (Member-contains xs x m, e), distinct-IsDistinct xs (omega (arith, rest)))
  ]

module _ {A B : Type 0} (f : A → B) where
  -- A field that differs all over the pool tells its members apart.
  pub injective_on :
      (xs : List A) (a b : A)
      → IsDistinct (map f xs)
      → Member a xs
      → Member b xs
      → f a ≡ f b
      → a ≡ b
  injective_on [] a b d m n e = absurd m
  injective_on (x ∷ xs) a b d (inl p) (inl q) e = p ∙ sym q
  injective_on (x ∷ xs) a b d (inl p) (inr q) e =
      absurd (d.0 (subst (λ y. Member y (map f xs)) (sym e ∙ ap f p) (Member-map_intro f b xs q)))
  injective_on (x ∷ xs) a b d (inr p) (inl q) e =
      absurd (d.0 (subst (λ y. Member y (map f xs)) (e ∙ ap f q) (Member-map_intro f a xs p)))
  injective_on (x ∷ xs) a b d (inr p) (inr q) e = injective_on xs a b d.1 p q e

-- Members of a pool that differ in one field differ in every field that tells the pool apart.
pub IsDistinct-carries :
    {A B C : Type 0} (f : A → B) (g : A → C) (pool xs : List A)
    → IsDistinct (map f pool)
    → All (λ a. Member a pool) xs
    → IsDistinct (map g xs)
    → IsDistinct (map f xs)
IsDistinct-carries f g pool [] df inside dg = tt
IsDistinct-carries f g pool (x ∷ xs) df inside dg = (
  λ m.
      let (b, there, e) = Member-map f (f x) xs m in
      let same =
        injective_on f pool x b df inside.0 (All-Member (λ a. Member a pool) b xs inside.1 there)
          e in
      dg.0 (subst (λ y. Member y (map g xs)) (sym (ap g same)) (Member-map_intro g b xs there)),
  IsDistinct-carries f g pool xs df inside.1 dg.1,
)

pub IsDistinct-snoc :
    {A : Type 0} (xs : List A) (x : A) → IsDistinct xs → ¬ (Member x xs) → IsDistinct (xs ++ x ∷ [])
IsDistinct-snoc [] x d fresh = (λ m. m, tt)
IsDistinct-snoc (y ∷ xs) x d fresh = (
  λ m. elim (Member-append_cases y xs (x ∷ []) m) [
    | inl before ↦ d.0 before
    | inr (inl e) ↦ fresh (inl (sym e))
    | inr (inr none_left) ↦ none_left
  ],
  IsDistinct-snoc xs x d.1 (λ m. fresh (inr m)),
)
