-- ===== src/Deadlines/Acats.antt =====
-- atreides/deadlines/acats.py: when the transfer of an account must be validated and completed. It
-- reads only the dates of its instants, which are ordinals.
pub mod Timed
mod Tests
use project_atreides.Deadlines.Rules.{
  DeadlineRule, get, Disposition, pass, hold, indeterminate, ClockError, whole_value, and_then,
  lift_days, is_business_unit,
}
use project_atreides.Deadlines.Calendar.{MarketCalendar, add_business_days}
use project_atreides.Common.Key.{◌==◌, string_key}
use project_atreides.Common.{
  ℕ, Bool, true, false, not, Option, none, some, List, [], Result, ok, is_some, ltb, leb, String,
  ◌&&◌, ◌∷◌, ◌++◌, if◌then◌else◌,
}

-- What the clock reads of a `RuleSource` and of the table
pub record RuleSource : Type 0 where
  pub source_id : String
  pub effective_date : Option ℕ
  pub expires_at : Option ℕ

pub record RuleTable : Type 0 where
  pub sources : List RuleSource
  pub rules : List DeadlineRule

pub record AcatsTransfer : Type 0 where
  pub instruction_on : ℕ
  pub validation_on : Option ℕ

pub data AcatsMissing : Type 0 where
  current_acats_version no_business_calendar : AcatsMissing
  absent_acats_rule unsupported_acats_unit : String → AcatsMissing

pub data AcatsBreach : Type 0 where
  validation_overdue validation_late completion_overdue : AcatsBreach

pub record AcatsAssessment : Type 0 where
  pub disposition : Disposition
  pub missing_rules : List AcatsMissing
  pub missing_inputs : List AcatsMissing
  pub breaches : List AcatsBreach
  pub validation_due : Option ℕ
  pub completion_due : Option ℕ

abbrev pub validation_rule_id : String
validation_rule_id = "finra_11870.validation"

abbrev pub completion_rule_id : String
completion_rule_id = "finra_11870.completion"

-- The first source named so
unfoldable pub find_source : List RuleSource → String → Option RuleSource
find_source [] id = none
find_source (s ∷ ss) id = let rest = find_source ss id in if s.source_id == id then some s else rest

abbrev pub covers_date : Option ℕ → Option ℕ → ℕ → Bool
covers_date none expires date = false
covers_date (some from) none date = false
covers_date (some from) (some expires) date = leb from date && leb date expires

abbrev pub is_in_force : Option RuleSource → ℕ → Bool
is_in_force none date = false
is_in_force (some s) date = covers_date s.effective_date s.expires_at date

abbrev pub acats_without : Disposition → List AcatsMissing → List AcatsMissing → AcatsAssessment
acats_without disposition missing_rules missing_inputs = record {
  disposition = disposition;
  missing_rules = missing_rules;
  missing_inputs = missing_inputs;
  breaches = [];
  validation_due = none;
  completion_due = none;
}

abbrev pub breach_if : Bool → AcatsBreach → List AcatsBreach
breach_if test breach = if test then breach ∷ [] else []

abbrev pub is_past : ℕ → Option ℕ → Bool
is_past date none = false
is_past date (some due) = ltb due date

-- The list `breaches`
unfoldable pub acats_breaches : AcatsTransfer → ℕ → ℕ → Option ℕ → List AcatsBreach
acats_breaches t today validation_due completion_due = elim t.validation_on [
  | none ↦
      breach_if (ltb validation_due today) validation_overdue
      ++ breach_if (is_past today completion_due) completion_overdue
  | some validated ↦
      breach_if (ltb validation_due validated) validation_late
      ++ breach_if (is_past today completion_due) completion_overdue
]

abbrev pub is_clean : List AcatsBreach → Bool
is_clean [] = true
is_clean (_ ∷ _) = false

unfoldable pub acats_assessed : AcatsTransfer → ℕ → ℕ → Option ℕ → AcatsAssessment
acats_assessed t today validation_due completion_due =
    let breaches = acats_breaches t today validation_due completion_due in
    record {
      disposition = if is_clean breaches then pass else hold;
      missing_rules = [];
      missing_inputs = [];
      breaches = breaches;
      validation_due = some validation_due;
      completion_due = completion_due;
    }

unfoldable pub missing_acats_rules : List DeadlineRule → List AcatsMissing
missing_acats_rules rules =
    (if is_some (get rules validation_rule_id)
      then []
      else absent_acats_rule validation_rule_id ∷ [])
    ++ (if is_some (get rules completion_rule_id)
        then []
        else absent_acats_rule completion_rule_id ∷ [])

module _ (year_of : ℕ → ℕ) (fuel : ℕ) where
  -- The due date of the completion: none before the validation
  unfoldable pub completion_of :
      MarketCalendar → DeadlineRule → Option ℕ → Option (Result ClockError (Option ℕ))
  completion_of calendar completion none = some (ok none)
  completion_of calendar completion (some validated) =
      and_then (some (whole_value completion.value)) (λ days.
        and_then (lift_days (add_business_days year_of fuel calendar validated days))
          (λ due. some (ok (some due))))

  -- From the computation of the due dates on
  unfoldable pub acats_dated :
      AcatsTransfer
      → ℕ
      → MarketCalendar
      → DeadlineRule
      → DeadlineRule
      → Option (Result ClockError AcatsAssessment)
  acats_dated t today calendar validation completion =
      and_then (some (whole_value validation.value)) (λ days.
        and_then (lift_days (add_business_days year_of fuel calendar t.instruction_on days))
          (λ validation_due.
            and_then (completion_of calendar completion t.validation_on)
              (λ completion_due. some (ok (acats_assessed t today validation_due completion_due)))))

  -- The checks after the rules were found
  unfoldable pub acats_under :
      AcatsTransfer
      → ℕ
      → Option MarketCalendar
      → DeadlineRule
      → DeadlineRule
      → Option (Result ClockError AcatsAssessment)
  acats_under t today none validation completion =
      some (ok (acats_without hold [] (no_business_calendar ∷ [])))
  acats_under t today (some calendar) validation completion =
      if not (is_business_unit validation.unit)
      then some
          (ok (acats_without indeterminate (unsupported_acats_unit validation_rule_id ∷ []) []))
      else if not (is_business_unit completion.unit)
      then some
          (ok (acats_without indeterminate (unsupported_acats_unit completion_rule_id ∷ []) []))
      else acats_dated t today calendar validation completion

  -- `assess_acats`, with the table given
  unfoldable pub assess_acats :
      AcatsTransfer
      → ℕ
      → Option MarketCalendar
      → RuleTable
      → Option (Result ClockError AcatsAssessment)
  assess_acats t today calendar table =
      if not (is_in_force (find_source table.sources "finra-11870") today)
      then some (ok (acats_without indeterminate (current_acats_version ∷ []) []))
      else elim (get table.rules validation_rule_id) [
        | none ↦ some (ok (acats_without indeterminate (missing_acats_rules table.rules) []))
        | some validation ↦ elim (get table.rules completion_rule_id) [
          | none ↦ some (ok (acats_without indeterminate (missing_acats_rules table.rules) []))
          | some completion ↦ acats_under t today calendar validation completion
        ]
      ]
