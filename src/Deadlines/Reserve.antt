-- ===== src/Deadlines/Reserve.antt =====
-- atreides/deadlines/reserve_deposit.py: when a reserve deposit is due. An instant is an integer, a
-- date its ordinal. The opening of banking is given as what Python's `datetime` makes of it: from a
-- date and a number of hours, the instant so many hours after the opening on that date.
pub mod Due
mod Tests
use project_atreides.Deadlines.Rules.{
  DeadlineRule, get, Disposition, pass, hold, indeterminate, is_business_unit, is_clock_unit,
  ClockError, whole_value, lift_calendar,
}
use project_atreides.Deadlines.Calendar.{MarketCalendar, add_business_days}
use project_atreides.Common.{
  ℕ, Bool, false, not, Option, none, some, List, [], Result, ok, err, is_some, String, ◌||◌, ◌∷◌,
  ◌++◌, if◌then◌else◌, ◌>>=◌,
}
use project_atreides.Common.Int.{ℤ, ltb_ℤ}

pub data Basis : Type 0 where
  weekly required_daily qualifying_monthly additional voluntary_daily : Basis

-- `computation.basis`: `None`, one that names a member, or another text
pub data GivenBasis : Type 0 where
  no_basis unknown_basis : GivenBasis
  basis : Basis → GivenBasis

-- `RULE_IDS[basis]`
unfoldable pub rule_id_of : Basis → String
rule_id_of weekly = "rule_15c3_3.reserve.weekly"
rule_id_of required_daily = "rule_15c3_3.reserve.required_daily"
rule_id_of qualifying_monthly = "rule_15c3_3.reserve.qualifying_monthly"
rule_id_of additional = "rule_15c3_3.reserve.additional"
rule_id_of voluntary_daily = "rule_15c3_3.reserve.voluntary_daily"

-- `OFFSET_RULE_ID`
abbrev pub offset_rule_id : String
offset_rule_id = "rule_15c3_3.reserve.opening_offset"

-- What an assessment says is missing
pub data Missing : Type 0 where
  computation_basis business_calendar : Missing
  unknown_computation_basis opening_of_banking_business reserve_units : Missing
  rule : String → Missing

-- `breached` is whether the deposit is reported as overdue.
pub record Assessment : Type 0 where
  pub disposition : Disposition
  pub due_at : Option ℤ
  pub missing_rules : List Missing
  pub missing_inputs : List Missing
  pub breached : Bool

abbrev pub lacking_rules : List Missing → Assessment
lacking_rules missing = record {
  disposition = indeterminate;
  due_at = none;
  missing_rules = missing;
  missing_inputs = [];
  breached = false;
}

abbrev pub lacking_input : Missing → Assessment
lacking_input missing = record {
  disposition = hold;
  due_at = none;
  missing_rules = [];
  missing_inputs = missing ∷ [];
  breached = false;
}

-- The tuple `missing`
unfoldable pub missing_of : Basis → List DeadlineRule → List Missing
missing_of b table =
    (if is_some (get table (rule_id_of b)) then [] else rule (rule_id_of b) ∷ [])
    ++ (if is_some (get table offset_rule_id) then [] else rule offset_rule_id ∷ [])

-- `datetime.combine(due_date, banking_open) + timedelta(hours=...)`
abbrev pub Opening : Type 0
Opening = ℕ → ℤ → ℤ

unfoldable pub assess_due : ℤ → ℤ → Assessment
assess_due evaluated_at due_at = record {
  disposition = if ltb_ℤ due_at evaluated_at then hold else pass;
  due_at = some due_at;
  missing_rules = [];
  missing_inputs = [];
  breached = ltb_ℤ due_at evaluated_at;
}

module _ (year_of : ℕ → ℕ) (fuel : ℕ) where
  -- From the computation of the due date on. `none` is the calendar's loop out of rounds.
  unfoldable pub assess_dated :
      MarketCalendar
      → ℕ
      → Opening
      → ℤ
      → DeadlineRule
      → DeadlineRule
      → Option (Result ClockError Assessment)
  assess_dated calendar computed_on banking_open evaluated_at basis_rule offset_rule =
      elim (whole_value basis_rule.value) [
        | err e ↦ some (err e)
        | ok days ↦ elim (add_business_days year_of fuel calendar computed_on days) [
          | none ↦ none
          | some result ↦ some (
              lift_calendar result >>= λ due_date. whole_value offset_rule.value >>= λ hours.
              ok (assess_due evaluated_at (banking_open due_date hours)))
        ]
      ]

  -- The checks on the two rules, which are present, and on the caller's inputs
  unfoldable pub assess_rules :
      Option MarketCalendar
      → ℕ
      → Option Opening
      → ℤ
      → DeadlineRule
      → DeadlineRule
      → Option (Result ClockError Assessment)
  assess_rules calendar computed_on none evaluated_at basis_rule offset_rule =
      some (ok (lacking_rules (opening_of_banking_business ∷ [])))
  assess_rules none computed_on (some opening) evaluated_at basis_rule offset_rule =
      some (ok (lacking_input business_calendar))
  assess_rules (some calendar) computed_on (some opening) evaluated_at basis_rule offset_rule =
      if not (is_business_unit basis_rule.unit) || not (is_clock_unit offset_rule.unit)
      then some (ok (lacking_rules (reserve_units ∷ [])))
      else assess_dated calendar computed_on opening evaluated_at basis_rule offset_rule

  -- `assess_reserve_deposit`, with the table given. `banking_open` is `none` also where the time
  -- that the caller gave has no zone.
  unfoldable pub assess_reserve_deposit :
      GivenBasis
      → ℕ
      → ℤ
      → Option MarketCalendar
      → Option Opening
      → List DeadlineRule
      → Option (Result ClockError Assessment)
  assess_reserve_deposit no_basis computed_on evaluated_at calendar banking_open table =
      some (ok (lacking_input computation_basis))
  assess_reserve_deposit unknown_basis computed_on evaluated_at calendar banking_open table =
      some (ok (lacking_rules (unknown_computation_basis ∷ [])))
  assess_reserve_deposit (basis b) computed_on evaluated_at calendar banking_open table =
      elim (get table (rule_id_of b)) [
        | none ↦ some (ok (lacking_rules (missing_of b table)))
        | some basis_rule ↦ elim (get table offset_rule_id) [
          | none ↦ some (ok (lacking_rules (missing_of b table)))
          | some offset_rule ↦
              assess_rules calendar computed_on banking_open evaluated_at basis_rule offset_rule
        ]
      ]
