-- ===== src/Deadlines/Rules.antt =====
-- atreides/deadlines/model.py: rules and rule tables, and the dispositions of the clocks. A
-- rule's value is a Decimal: an integer, or one with a fractional part. Citations, quotes and other
-- texts of provenance are not modelled.
use project_atreides.Deadlines.Calendar.{CalendarError}
use project_atreides.Common.Key.{string_key, ◌==◌}
use project_atreides.Common.{
  Bool, true, false, Option, none, some, List, [], String, ◌∷◌, if◌then◌else◌, ℕ, refl, inl, inr,
  Result, ok, err, ◌≡◌, ◌⊎◌,
}
use project_atreides.Common.Int.{ℤ}

pub data RuleUnit : Type 0 where
  business_days settlement_days calendar_days months clock_time : RuleUnit

pub data RuleValue : Type 0 where
  whole : ℤ → RuleValue
  fractional : RuleValue

pub record DeadlineRule : Type 0 where
  pub rule_id : String
  pub citation : String
  pub value : RuleValue
  pub unit : RuleUnit
  pub requires_caller_opening_time : Bool

-- `DeadlineRuleTable.get`, over the rules of the table
unfoldable pub get : List DeadlineRule → String → Option DeadlineRule
get [] id = none
get (r ∷ rs) id = let rest = get rs id in if r.rule_id == id then some r else rest

-- The dispositions that the deadline clocks use of the kernel package's
pub data Disposition : Type 0 where
  pass hold indeterminate : Disposition

abbrev pub is_business_unit : RuleUnit → Bool
is_business_unit business_days = true
is_business_unit _ = false

abbrev pub is_clock_unit : RuleUnit → Bool
is_clock_unit clock_time = true
is_clock_unit _ = false

-- A call of a clock may also raise: for a rule that is no integer, in the calendar, for an opening
-- that it assumes checked, or on comparing an instant that has a zone with one that has none.
pub data ClockError : Type 0 where
  not_an_integer unchecked_opening naive_comparison : ClockError
  calendar_error : CalendarError → ClockError

-- `_whole`, `_whole_days` and `_days`
unfoldable pub whole_value : RuleValue → Result ClockError ℤ
whole_value (whole n) = ok n
whole_value fractional = err not_an_integer

abbrev pub lift_calendar : Result CalendarError ℕ → Result ClockError ℕ
lift_calendar (ok d) = ok d
lift_calendar (err e) = err (calendar_error e)

pub value-cases : (v : RuleValue) → (v ≡ fractional) ⊎ ((n : ℤ) × (v ≡ whole n))
value-cases fractional = inl refl
value-cases (whole n) = inr (n, refl)

abbrev pub lift_days : Option (Result CalendarError ℕ) → Option (Result ClockError ℕ)
lift_days none = none
lift_days (some result) = some (lift_calendar result)

-- A step of a clock after one that may run out of rounds or raise
abbrev pub and_then :
    {A B : Type 0}
    → Option (Result ClockError A)
    → (A → Option (Result ClockError B))
    → Option (Result ClockError B)
and_then none f = none
and_then (some (err e)) f = some (err e)
and_then (some (ok a)) f = f a

-- A step that returned
pub and_then-ok :
    {A B : Type 0} (m : Option (Result ClockError A)) (f : A → Option (Result ClockError B)) (b : B)
    → and_then m f ≡ some (ok b)
    → (a : A) × (m ≡ some (ok a)) × (f a ≡ some (ok b))
and_then-ok none f b h = cc h
and_then-ok (some (err e)) f b h = cc h
and_then-ok (some (ok a)) f b h = (a, refl, h)
