-- ===== src/Deadlines/CloseOut/Tests.antt =====
-- A short fail of atreides/deadlines/rule_204.py, in time and late, and the theorem at it.
use project_atreides.Common.Dict.{lookup}
use project_atreides.Deadlines.CloseOut.Timed.{
  assess_rule_204_exact, IsUntimed, IsTimedBy, IsLateOrNot,
}
use project_atreides.Common.{ℕ, refl, true, Option, some, [], Result, ok, ◌+◌, ◌*◌, ◌≡◌, ◌⊎◌, ◌∷◌}
use project_atreides.Common.Int.{ℤ, pos}
use project_atreides.Deadlines.Calendar.{
  MarketCalendar, add_settlement_days, add_business_days, advance, is_business_day,
}
use project_atreides.Deadlines.CloseOut.{
  Rule204Fail, Rule204Assessment, assess_rule_204, Rule204Origin, origin, opens_at, hold,
  close_out_under, short_or_general, settlement_days, close_out_days, close_out_on,
  close_out_rule_id, close_out_by,
}
use project_atreides.Deadlines.Rules.{DeadlineRule, ClockError, whole}
use project_atreides.Deadlines.Rules.{whole_value, get}

abbrev calendar : MarketCalendar
calendar = record { holidays = (1, 4 ∷ []) ∷ [] }

abbrev one_year : ℕ → ℕ
one_year d = 1

abbrev short_fail : Rule204Fail
short_fail = record { trade_date = 1; settlement_date = 3; origin_class = origin short_or_general }

abbrev short_rule : DeadlineRule
short_rule = record {
  rule_id = "rule_204.short_or_general";
  citation = "17 CFR 242.204(a)";
  value = whole (pos 1);
  unit = settlement_days;
  requires_caller_opening_time = true;
}

abbrev opens : ℕ → ℤ
opens d = pos (d * 24 + 9)

abbrev assess_at : ℤ → Option (Result ClockError Rule204Assessment)
assess_at now =
    assess_rule_204 one_year 10 short_fail now (some calendar) (opens_at opens) (short_rule ∷ [])

-- The fourth day is a holiday: the fail is due on the fifth, at its opening.
abbrev late_close_out : Rule204Assessment
late_close_out = record {
  disposition = hold;
  due_at = some (pos 129);
  missing_rules = [];
  missing_inputs = [];
  overdue = true;
  preborrow_condition_applies = true;
}

assessed_late : assess_at (pos 130) ≡ some (ok late_close_out)
unfolding assess_rule_204 close_out_under close_out_days close_out_on close_out_by whole_value get
    close_out_rule_id add_settlement_days add_business_days advance is_business_day lookup
assessed_late = refl

assess_rule_204_exact_example :
    IsUntimed late_close_out
    ⊎ ((o : Rule204Origin) × (r : DeadlineRule) × (due : ℤ) × (short_fail.origin_class ≡ origin o)
        × (get (short_rule ∷ []) (close_out_rule_id o) ≡ some r)
        × IsTimedBy one_year 10 short_fail
            (pos 130)
            (some calendar)
            (opens_at opens)
            r
            late_close_out
        × (late_close_out.due_at ≡ some due)
        × IsLateOrNot (pos 130) due late_close_out)
assess_rule_204_exact_example =
    assess_rule_204_exact one_year 10 short_fail (pos 130) (some calendar) (opens_at opens)
      (short_rule ∷ []) late_close_out assessed_late
