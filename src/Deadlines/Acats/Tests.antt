-- ===== src/Deadlines/Acats/Tests.antt =====
-- A transfer of atreides/deadlines/acats.py that was validated late, and the theorem at it.
use project_atreides.Common.Dict.{lookup}
use project_atreides.Deadlines.Rules.{whole_value, get, RuleUnit, DeadlineRule, whole}
use project_atreides.Deadlines.Acats.Timed.{assess_acats_exact, IsUndated, IsDated, IsMet}
use project_atreides.Common.{ℕ, refl, true, false, some, [], ok, String, ◌≡◌, ◌↔◌, ◌⊎◌, ◌∷◌}
use project_atreides.Common.Int.{ℤ, pos}
use project_atreides.Deadlines.Calendar.{MarketCalendar, advance, is_business_day}
use project_atreides.Deadlines.Acats.{
  RuleTable, AcatsTransfer, AcatsAssessment, assess_acats, validation_rule_id, hold, acats_under,
  is_in_force, completion_rule_id, validation_late, acats_dated, find_source, completion_of, pass,
  acats_assessed, acats_breaches,
}
use project_atreides.Deadlines.Calendar.{add_business_days}

abbrev calendar : MarketCalendar
calendar = record { holidays = (1, 4 ∷ []) ∷ [] }

abbrev one_year : ℕ → ℕ
one_year d = 1

abbrev rule_of : String → ℤ → DeadlineRule
rule_of id days = record {
  rule_id = id;
  citation = "FINRA Rule 11870";
  value = whole days;
  unit = RuleUnit.business_days;
  requires_caller_opening_time = false;
}

abbrev table : RuleTable
table = record {
  sources =
      record { source_id = "finra-11870"; effective_date = some 1; expires_at = some 90 } ∷ [];
  rules = rule_of validation_rule_id (pos 1) ∷ rule_of completion_rule_id (pos 2) ∷ [];
}

abbrev transfer : AcatsTransfer
transfer = record { instruction_on = 3; validation_on = some 8 }

-- Due on the fifth day, since the fourth is a holiday, and validated on the eighth
abbrev late_validation : AcatsAssessment
late_validation = record {
  disposition = hold;
  missing_rules = [];
  missing_inputs = [];
  breaches = validation_late ∷ [];
  validation_due = some 5;
  completion_due = some 10;
}

assessed_late :
    assess_acats one_year 10 transfer 9 (some calendar) table ≡ some (ok late_validation)
unfolding assess_acats acats_under acats_dated completion_of acats_assessed acats_breaches
    find_source whole_value get add_business_days advance is_business_day lookup
assessed_late = refl

assess_acats_exact_example :
    IsUndated late_validation
    ⊎ ((c : MarketCalendar) × (validation : DeadlineRule) × (completion : DeadlineRule)
        × (validation_due : ℕ) × (is_in_force (find_source table.sources "finra-11870") 9 ≡ true)
        × (get table.rules validation_rule_id ≡ some validation)
        × (get table.rules completion_rule_id ≡ some completion)
        × (some calendar ≡ some c)
        × IsDated one_year 10 transfer 9 c validation completion late_validation
        × (late_validation.validation_due ≡ some validation_due)
        × ((late_validation.disposition ≡ pass)
            ↔ IsMet transfer.validation_on 9 validation_due late_validation.completion_due))
assess_acats_exact_example =
    assess_acats_exact one_year 10 transfer 9 (some calendar) table late_validation assessed_late
