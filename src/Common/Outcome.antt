-- ===== src/Common/Outcome.antt =====
-- Python calls that may raise: a value or the exception, with the error type of the caller.
use mathlib.Core.Path.{◌≡◌, refl}
use mathlib.Core.Logic.{◌⊎◌, inl, inr}
use mathlib.Core.Bool.{Bool, true, false}

pub data Result {ℓ} (E : Type 0) (A : Type ℓ) : Type ℓ where
  ok : A → Result E A
  err : E → Result E A

infixl 5 ◌>>=◌ ◌>>◌
abbrev pub ◌>>=◌ {ℓ κ} :
    {E : Type 0} {A : Type ℓ} {B : Type κ} → Result E A → (A → Result E B) → Result E B
ok a >>= f = f a
err e >>= f = err e

abbrev pub ◌>>◌ {ℓ} : {E : Type 0} {B : Type ℓ} → Result E (Unit {0}) → Result E B → Result E B
m >> k = m >>= λ _. k

-- `if cond: raise e`
abbrev pub raise_if : {E : Type 0} → Bool → E → Result E (Unit {0})
raise_if true e = err e
raise_if false e = ok tt

-- Whether a call returned, as a test.
abbrev pub is_ok {ℓ} : {E : Type 0} {A : Type ℓ} → Result E A → Bool
is_ok (ok _) = true
is_ok (err _) = false

-- To split on the result of a call and keep the equation.
pub Result-cases {ℓ} :
    {E : Type 0} {A : Type ℓ} (r : Result E A) → ((e : E) × (r ≡ err e)) ⊎ ((a : A) × (r ≡ ok a))
Result-cases (ok a) = inr (a, refl)
Result-cases (err e) = inl (e, refl)

pub ok_injective {ℓ} :
    {E : Type 0} {A : Type ℓ} {a b : A} → ◌≡◌ {A = Result E A} (ok a) (ok b) → a ≡ b
ok_injective h = cc h

pub err_ok {ℓ} : {E : Type 0} {A : Type ℓ} {e : E} {a : A} → ¬ (◌≡◌ {A = Result E A} (err e) (ok a))
err_ok h = cc h

-- A chain that returns passed each of its steps.
pub raise_if-ok {κ} :
    {E : Type 0} {B : Type κ} (test : Bool) (e : E) (k : Result E B) (b : B)
    → (raise_if test e >> k) ≡ ok b
    → (test ≡ false) × (k ≡ ok b)
raise_if-ok true e k b h = absurd (err_ok h)
raise_if-ok false e k b h = (refl, h)

pub check-ok {κ} :
    {E : Type 0} {B : Type κ} (m : Result E (Unit {0})) (k : Result E B) (b : B)
    → (m >> k) ≡ ok b
    → (m ≡ ok tt) × (k ≡ ok b)
check-ok (ok tt) k b h = (refl, h)
check-ok (err e) k b h = absurd (err_ok h)
