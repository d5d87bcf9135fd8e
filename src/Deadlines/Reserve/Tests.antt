-- ===== src/Deadlines/Reserve/Tests.antt =====
-- A weekly computation on the third day, due two business days later at the opening of banking.
use project_atreides.Common.Dict.{lookup}
use project_atreides.Deadlines.Rules.{whole_value, DeadlineRule, RuleUnit, whole, get, pass}
use project_atreides.Deadlines.Calendar.{
  MarketCalendar, add_business_days, advance, is_business_day,
}
use project_atreides.Deadlines.Reserve.{
  Assessment, weekly, basis, rule_id_of, assess_reserve_deposit, assess_rules, assess_dated,
  assess_due, Opening,
}
use project_atreides.Deadlines.Reserve.Due.{reserve_pass_timed, IsOnTime}
use project_atreides.Common.{ℕ, refl, false, some, List, [], ok, String, ◌+◌, ◌*◌, ◌≡◌, ◌∷◌}
use project_atreides.Common.Int.{◌+ℤ◌, ◌*ℤ◌, pos}

abbrev calendar : MarketCalendar
calendar = record { holidays = (1, 4 ∷ []) ∷ [] }

abbrev year_at : ℕ → ℕ
year_at d = 1

-- Ten in the morning, in minutes
abbrev opening : Opening
opening day hours = pos (day * 1440 + 600) +ℤ hours *ℤ pos 60

abbrev rule_named : String → RuleUnit → DeadlineRule
rule_named id unit = record {
  rule_id = id;
  citation = "17 CFR 240.15c3-3(e)(3)";
  value = whole (pos 1);
  unit = unit;
  requires_caller_opening_time = false;
}

abbrev table : List DeadlineRule
table =
    rule_named "rule_15c3_3.reserve.weekly" RuleUnit.business_days
    ∷ rule_named "rule_15c3_3.reserve.opening_offset" RuleUnit.clock_time
    ∷ []

abbrev in_time : Assessment
in_time = assess_due (pos 7000) (opening 5 (pos 1))

assessed :
    assess_reserve_deposit year_at 5
      (basis weekly)
      3
      (pos 7000)
      (some calendar)
      (some opening)
      table
    ≡ some (ok in_time)
unfolding assess_reserve_deposit assess_rules assess_dated whole_value get rule_id_of
    add_business_days advance is_business_day lookup
assessed = refl

passed : in_time.disposition ≡ pass
unfolding assess_due ◌+ℤ◌ ◌*ℤ◌
passed = refl

reserve_pass_timed_example :
    IsOnTime year_at 5 (basis weekly) 3 (pos 7000) (some calendar) (some opening) table in_time
reserve_pass_timed_example =
    reserve_pass_timed year_at 5 (basis weekly) 3 (pos 7000) (some calendar) (some opening) table
      in_time assessed passed
