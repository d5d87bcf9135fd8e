-- ===== src/Common/Decimal.antt =====
-- What Python's default decimal context does to a result: it keeps 28 significant digits and rounds
-- half to even. Amounts are integers in units of their common exponent.
use Prim.Native.Nat.{ℕ, zero, suc, ◌+◌, ◌*◌, ◌/◌, ◌%◌, ◌≤◌, ◌<◌}
use project_atreides.Common.Tests.{Bool-cases, ltb, nat_eq, if◌then◌else◌}
use mathlib.Core.Path.{◌≡◌, refl}
use mathlib.Core.Logic.{inl, inr}
use mathlib.Core.Bool.{true, false, ◌&&◌, ◌||◌}
use native.Mathlib.Omega.{arith}
use project_atreides.Common.Int.{
  ℤ, pos, negsuc, ◌-ℤ◌, pos_part, neg_part, sub_ℕ, -ℤ_parts, eq_of_parts,
}

-- The least number that 28 digits do not hold.
abbrev pub precision : ℕ
precision = 10000000000000000000000000000

-- `m` digits kept, and `tail` of `place` dropped.
unfoldable half_even : ℕ → ℕ → ℕ → ℕ
half_even m tail place =
    if ltb place (2 * tail) || nat_eq place (2 * tail) && nat_eq (m % 2) 1
    then suc m * place
    else m * place

-- Digits of `m` are dropped while it has more than 28. The fuel is enough from `m` on.
unfoldable keep : ℕ → ℕ → ℕ → ℕ → ℕ
unfolding half_even
keep zero m tail place = half_even m tail place
keep (suc fuel) m tail place = elim (ltb m precision) [
  | true ↦ half_even m tail place
  | false ↦ keep fuel (m / 10) (m % 10 * place + tail) (place * 10)
]

-- More fuel than the number changes nothing.
keep_fuel :
    (fuel m tail place : ℕ) → m ≤ fuel → keep fuel m tail place ≡ keep (suc fuel) m tail place
unfolding keep
keep_fuel zero zero tail place h = refl
keep_fuel zero (suc m) tail place h = absurd (omega arith)
keep_fuel (suc fuel) m tail place h = elim (Bool-cases (ltb m precision)) [
  | inl e ↦ rw (keep, e) refl
  | inr e ↦
      rw (keep, e) (keep_fuel fuel (m / 10) (m % 10 * place + tail) (place * 10) (ground arith))
]

unfoldable pub round_28 : ℕ → ℕ
unfolding half_even keep
round_28 n = keep n n 0 1

unfoldable pub round_ℤ : ℤ → ℤ
unfolding round_28
round_ℤ a = sub_ℕ (round_28 (pos_part a)) (round_28 (neg_part a))

-- `a - b` and `abs(a)` in the default context
unfoldable pub decimal_sub : ℤ → ℤ → ℤ
unfolding round_28 round_ℤ
decimal_sub a b = round_ℤ (a -ℤ b)

unfoldable pub decimal_abs : ℤ → ℕ
unfolding round_28
decimal_abs a = round_28 (pos_part a + neg_part a)

half_even-positive : (m tail place : ℕ) → 1 ≤ m → 1 ≤ place → 1 ≤ half_even m tail place
unfolding half_even
half_even-positive zero tail place h g = absurd (omega arith)
half_even-positive (suc m) tail zero h g = absurd (omega arith)
half_even-positive (suc m) tail (suc place) h g = ground arith

keep-positive : (fuel m tail place : ℕ) → 1 ≤ m → 1 ≤ place → 1 ≤ keep fuel m tail place
unfolding keep
keep-positive zero m tail place h g = half_even-positive m tail place h g
keep-positive (suc fuel) m tail place h g = elim (Bool-cases (ltb m precision)) [
  | inl e ↦ rw (keep, e) (half_even-positive m tail place h g)
  | inr e ↦
      rw (keep, e)
        (keep-positive fuel (m / 10) (m % 10 * place + tail) (place * 10) (ground arith)
          (omega arith))
]

ten_times : (m place : ℕ) → 10 ≤ place → m * 10 ≤ m * place
ten_times zero place h = omega arith
ten_times (suc m) place h = omega (arith, ten_times m place h)

half_even-large :
    (m tail place : ℕ)
    → 1000000000000000000000000000 ≤ m
    → 10 ≤ place
    → precision ≤ half_even m tail place
unfolding half_even
half_even-large m tail place h g = ground (arith, ten_times m place g)

keep-large :
    (fuel m tail place : ℕ)
    → 1000000000000000000000000000 ≤ m
    → 10 ≤ place
    → precision ≤ keep fuel m tail place
unfolding keep
keep-large zero m tail place h g = half_even-large m tail place h g
keep-large (suc fuel) m tail place h g = elim (Bool-cases (ltb m precision)) [
  | inl e ↦ rw (keep, e) (half_even-large m tail place h g)
  | inr e ↦
      rw (keep, e)
        (keep-large fuel (m / 10) (m % 10 * place + tail) (place * 10) (ground arith) (omega arith))
]

half_even_whole : (m : ℕ) → half_even m 0 1 ≡ m
unfolding half_even
half_even_whole m = ground arith

pub round_28_exact : (n : ℕ) → n < precision → round_28 n ≡ n
unfolding round_28 keep
round_28_exact zero h = half_even_whole 0
round_28_exact (suc n) h =
    let e : ltb (suc n) precision ≡ true = ground arith in rw (keep, e) (half_even_whole (suc n))

pub round_28-positive : (n : ℕ) → 1 ≤ n → 1 ≤ round_28 n
unfolding round_28
round_28-positive n h = keep-positive n n 0 1 h (omega arith)

pub round_28-large : (n : ℕ) → precision ≤ n → precision ≤ round_28 n
unfolding round_28 keep
round_28-large zero h = absurd (omega arith)
round_28-large (suc n) h =
    let e : ltb (suc n) precision ≡ false = ground arith in
    rw (keep, e) (keep-large n (suc n / 10) _ 10 (omega arith) (omega arith))

round_ℤ_exact : (a : ℤ) → pos_part a + neg_part a < precision → round_ℤ a ≡ a
unfolding round_ℤ
round_ℤ_exact (pos n) h =
    let e = round_28_exact n (omega arith) in let z = round_28_exact 0 (omega arith) in ground arith
round_ℤ_exact (negsuc n) h =
    let e = round_28_exact (suc n) (omega arith) in
    let z = round_28_exact 0 (omega arith) in ground arith

round_ℤ-zero : (a : ℤ) → round_ℤ a ≡ pos 0 → a ≡ pos 0
unfolding round_ℤ
round_ℤ-zero (pos zero) h = refl
round_ℤ-zero (pos (suc n)) h =
    let e = round_28-positive (suc n) (omega arith) in
    let z = round_28_exact 0 (omega arith) in absurd (ground arith)
round_ℤ-zero (negsuc n) h =
    let e = round_28-positive (suc n) (omega arith) in
    let z = round_28_exact 0 (omega arith) in absurd (ground arith)

-- A difference that 28 digits hold is exact.
pub decimal_sub_exact :
    (a b : ℤ) → pos_part (a -ℤ b) + neg_part (a -ℤ b) < precision → decimal_sub a b ≡ a -ℤ b
unfolding decimal_sub
decimal_sub_exact a b h = round_ℤ_exact (a -ℤ b) h

-- Rounding makes no two amounts equal.
pub decimal_sub-zero : (a b : ℤ) → decimal_sub a b ≡ pos 0 → b ≡ a
unfolding decimal_sub
decimal_sub-zero a b h =
    let e = round_ℤ-zero (a -ℤ b) h in ground (arith, -ℤ_parts a b, eq_of_parts b a)

pub decimal_abs_exact :
    (a : ℤ) → decimal_abs a < precision → decimal_abs a ≡ pos_part a + neg_part a
unfolding decimal_abs
decimal_abs_exact a h = elim (Bool-cases (ltb (pos_part a + neg_part a) precision)) [
  | inl e ↦ round_28_exact (pos_part a + neg_part a) (ground arith)
  | inr e ↦ absurd (ground (arith, round_28-large (pos_part a + neg_part a)))
]

pub decimal_abs_small :
    (a : ℤ) → pos_part a + neg_part a < precision → decimal_abs a ≡ pos_part a + neg_part a
unfolding decimal_abs
decimal_abs_small a h = round_28_exact (pos_part a + neg_part a) h
