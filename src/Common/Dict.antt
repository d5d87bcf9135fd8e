-- ===== src/Common/Dict.antt =====
-- A Python dict in insertion order: a write to a present key keeps its place.
use mathlib.Core.Path.{◌≡◌, refl, ap}
use mathlib.Core.Logic.{◌≢◌, inl, inr}
use mathlib.Core.Bool.{false, Bool, true, not, ◌&&◌}
use mathlib.Core.Option.{Option, none, some}
use mathlib.Core.List.{List, [], ◌∷◌}
use native.Mathlib.Omega.{arith}
use Prim.Native.Nat.{suc}
use mathlib.Core.Bool.{false, ◌||◌}
use project_atreides.Common.Lists.{length, Member}
use project_atreides.Common.Tests.{is_some, Bool-cases, if◌then◌else◌}
use project_atreides.Common.Key.{==-eq, Key, ◌==◌, ==_self, ==_ne, ==_symm}

abbrev pub Dict {ℓ} : Type 0 → Type ℓ → Type ℓ
Dict K V = List (K × V)

module _ {ℓ} {K : Type 0} ⦃k : Key K⦄ {V : Type ℓ} where
  -- `d.get(key)`
  unfoldable pub lookup : K → Dict K V → Option V
  lookup key [] = none
  lookup key ((j, v) ∷ d) = if j == key then some v else lookup key d

  -- `d[key] = v`
  unfoldable pub insert : K → V → Dict K V → Dict K V
  insert key v [] = (key, v) ∷ []
  insert key v ((j, w) ∷ d) = if j == key then (j, v) ∷ d else (j, w) ∷ insert key v d

  -- `key in d`
  abbrev pub has_key : K → Dict K V → Bool
  has_key key d = is_some (lookup key d)

  pub lookup-nil : (key : K) → lookup key [] ≡ none
  unfolding lookup
  lookup-nil key = refl

  pub lookup-insert_self : (key : K) (v : V) (d : Dict K V) → lookup key (insert key v d) ≡ some v
  unfolding lookup insert
  lookup-insert_self key v [] = rw (==_self key)
  lookup-insert_self key v ((j, w) ∷ d) = elim (Bool-cases (j == key)) [
    | inl e ↦ rw e (rw e)
    | inr e ↦ rw e (rw e (lookup-insert_self key v d))
  ]

  pub lookup-insert :
      (j key : K) (v : V) (d : Dict K V)
      → lookup j (insert key v d) ≡ (if key == j then some v else lookup j d)
  unfolding lookup insert
  lookup-insert j key v [] = refl
  lookup-insert j key v ((i, w) ∷ d) =
      ground (arith, k.eqb_iff key j, k.eqb_iff i key, k.eqb_iff i j, lookup-insert j key v d)

  pub lookup-insert_ne :
      (j key : K) (v : V) (d : Dict K V) → key ≢ j → lookup j (insert key v d) ≡ lookup j d
  lookup-insert_ne j key v d h = rw lookup-insert (rw (==_ne h))

  pub length-insert_new :
      (key : K) (v : V) (d : Dict K V)
      → has_key key d ≡ false
      → length (insert key v d) ≡ suc (length d)
  unfolding lookup insert
  length-insert_new key v [] h = refl
  length-insert_new key v ((i, w) ∷ d) h = ground (arith, length-insert_new key v d)

  pub has_key-insert :
      (j key : K) (v : V) (d : Dict K V) → has_key j (insert key v d) ≡ (key == j || has_key j d)
  has_key-insert j key v d = rw lookup-insert (ground arith)

  -- A write of a new key leaves every other entry.
  pub lookup-insert_new :
      (j key : K) (v w : V) (d : Dict K V)
      → has_key key d ≡ false
      → lookup j d ≡ some w
      → lookup j (insert key v d) ≡ some w
  lookup-insert_new j key v w d new h = rw lookup-insert (elim (Bool-cases (key == j)) [
    | inl q ↦ let there : key ≡ j = ==-eq q in absurd (cc (there, new, h))
    | inr q ↦ rw q h
  ])

  -- No key twice.
  unfoldable pub unique_keys : Dict K V → Bool
  unique_keys [] = true
  unique_keys ((j, v) ∷ d) = not (has_key j d) && unique_keys d

  pub unique_keys-insert :
      (key : K) (v : V) (d : Dict K V) → unique_keys d ≡ true → unique_keys (insert key v d) ≡ true
  unfolding unique_keys insert lookup
  unique_keys-insert key v [] h = refl
  unique_keys-insert key v ((j, w) ∷ d) h =
      ground (
        arith,
        k.eqb_iff j key,
        has_key-insert j key v d,
        ==_symm j key,
        unique_keys-insert key v d,
      )

module _ {K : Type 0} ⦃k : Key K⦄ {V : Type 0} where
  pub Member-has_key : (key : K) (v : V) (d : Dict K V) → Member (key, v) d → has_key key d ≡ true
  unfolding lookup
  Member-has_key key v [] m = absurd m
  Member-has_key key v ((j, w) ∷ d) (inl e) = rw (ap (λ p. p.0) e) (rw (==_self j) refl)
  Member-has_key key v ((j, w) ∷ d) (inr m) = ground (arith, Member-has_key key v d m)

  pub Member-lookup :
      (key : K) (v : V) (d : Dict K V)
      → unique_keys d ≡ true
      → Member (key, v) d
      → lookup key d ≡ some v
  unfolding lookup unique_keys
  Member-lookup key v [] u m = absurd m
  Member-lookup key v ((j, w) ∷ d) u (inl e) =
      rw (ap (λ p. p.0) e, ap (λ p. p.1) e) (rw (==_self j) refl)
  Member-lookup key v ((j, w) ∷ d) u (inr m) =
      ground
        (arith, k.eqb_iff j key, Member-has_key key v d m, Member-lookup key v d (ground arith) m)

  pub lookup-Member : (key : K) (v : V) (d : Dict K V) → lookup key d ≡ some v → Member (key, v) d
  unfolding lookup
  lookup-Member key v [] h = cc h
  lookup-Member key v ((j, w) ∷ d) h = elim (Bool-cases (j == key)) [
    | inl e ↦
        let found : some w ≡ some v = rw (lookup, e) at h in
        let same : j ≡ key = ==-eq e in inl (cc (same, found))
    | inr e ↦ inr (lookup-Member key v d (rw (lookup, e) at h))
  ]
