-- ===== src/Deadlines/CloseOut.antt =====
-- atreides/deadlines/rule_204.py: when a fail to deliver must be closed out. An instant is an integer,
-- a date its ordinal. The regular opening is given as what `datetime.combine` makes of it: from a
-- date the instant of the opening on that date. Fields that are only passed on are left out.
pub mod Timed
mod Tests
use project_atreides.Deadlines.Rules.{
  RuleUnit, business_days, settlement_days, calendar_days, months, clock_time, DeadlineRule, get,
  Disposition, pass, hold, indeterminate, ClockError, whole_value, and_then, unchecked_opening,
  lift_days, naive_comparison,
}
use project_atreides.Deadlines.Calendar.{MarketCalendar, add_settlement_days}
use project_atreides.Common.{
  ℕ, suc, Bool, true, false, not, Option, none, some, List, [], Result, ok, err, String, ◌+◌, ◌-◌,
  ◌&&◌, ◌∷◌, if◌then◌else◌,
}
use project_atreides.Common.Int.{ℤ, pos, negsuc, ltb_ℤ}

pub data Rule204Origin : Type 0 where
  short_or_general long market_making deemed_owned : Rule204Origin

-- `fail.origin_class`: `None`, one that names a member, or another text
pub data GivenOrigin : Type 0 where
  no_origin : GivenOrigin
  unknown_origin : String → GivenOrigin
  origin : Rule204Origin → GivenOrigin

-- `RULE_IDS[origin]`
unfoldable pub close_out_rule_id : Rule204Origin → String
close_out_rule_id short_or_general = "rule_204.short_or_general"
close_out_rule_id long = "rule_204.long"
close_out_rule_id market_making = "rule_204.market_making"
close_out_rule_id deemed_owned = "rule_204.deemed_owned"

pub record Rule204Fail : Type 0 where
  pub trade_date : ℕ
  pub settlement_date : ℕ
  pub origin_class : GivenOrigin

-- What an assessment says is missing
pub data CloseOutMissing : Type 0 where
  no_origin_class no_settlement_calendar no_trading_hours unsupported_unit : CloseOutMissing
  unread_origin_class : String → CloseOutMissing
  absent_rule : String → CloseOutMissing

pub record Rule204Assessment : Type 0 where
  pub disposition : Disposition
  pub due_at : Option ℤ
  pub missing_rules : List CloseOutMissing
  pub missing_inputs : List CloseOutMissing
  pub overdue : Bool
  pub preborrow_condition_applies : Bool

-- `regular_trading_open`: `None`, a time without a zone, or one with
pub data TradingOpen : Type 0 where
  not_given naive : TradingOpen
  opens_at : (ℕ → ℤ) → TradingOpen

abbrev pub undecided_for : CloseOutMissing → Rule204Assessment
undecided_for missing = record {
  disposition = indeterminate;
  due_at = none;
  missing_rules = missing ∷ [];
  missing_inputs = [];
  overdue = false;
  preborrow_condition_applies = false;
}

abbrev pub held_for : CloseOutMissing → Rule204Assessment
held_for missing = record {
  disposition = hold;
  due_at = none;
  missing_rules = [];
  missing_inputs = missing ∷ [];
  overdue = false;
  preborrow_condition_applies = false;
}

abbrev pub is_aware : TradingOpen → Bool
is_aware not_given = false
is_aware naive = false
is_aware (opens_at _) = true

-- `trade_date + timedelta(days=days)`; a rule's value is not negative
abbrev pub add_days : ℕ → ℤ → ℕ
add_days date (pos n) = date + n
add_days date (negsuc n) = date - suc n

unfoldable pub close_out_by : ℤ → ℤ → Rule204Assessment
close_out_by evaluated_at due_at =
    let late = ltb_ℤ due_at evaluated_at in
    record {
      disposition = if late then hold else pass;
      due_at = some due_at;
      missing_rules = [];
      missing_inputs = [];
      overdue = late;
      preborrow_condition_applies = late;
    }

-- The end of `assess_rule_204`: without an opening its assertion fails, and the instant that a time
-- without a zone gives cannot be compared.
unfoldable pub close_out_on : TradingOpen → ℤ → ℕ → Option (Result ClockError Rule204Assessment)
close_out_on not_given evaluated_at due_date = some (err unchecked_opening)
close_out_on naive evaluated_at due_date = some (err naive_comparison)
close_out_on (opens_at opening) evaluated_at due_date =
    some (ok (close_out_by evaluated_at (opening due_date)))

module _ (year_of : ℕ → ℕ) (fuel : ℕ) where
  -- The part on the rule's unit, after its number of days
  unfoldable pub close_out_days :
      Rule204Fail
      → ℤ
      → Option MarketCalendar
      → TradingOpen
      → RuleUnit
      → ℤ
      → Option (Result ClockError Rule204Assessment)
  close_out_days f evaluated_at none opening settlement_days days =
      some (ok (held_for no_settlement_calendar))
  close_out_days f evaluated_at (some calendar) opening settlement_days days =
      and_then (lift_days (add_settlement_days year_of fuel calendar f.settlement_date days))
        (close_out_on opening evaluated_at)
  close_out_days f evaluated_at calendar opening calendar_days days =
      close_out_on opening evaluated_at (add_days f.trade_date days)
  close_out_days f evaluated_at calendar opening business_days days =
      some (ok (undecided_for unsupported_unit))
  close_out_days f evaluated_at calendar opening months days =
      some (ok (undecided_for unsupported_unit))
  close_out_days f evaluated_at calendar opening clock_time days =
      some (ok (undecided_for unsupported_unit))

  -- The part after the rule was found
  unfoldable pub close_out_under :
      Rule204Fail
      → ℤ
      → Option MarketCalendar
      → TradingOpen
      → DeadlineRule
      → Option (Result ClockError Rule204Assessment)
  close_out_under f evaluated_at calendar opening r =
      if r.requires_caller_opening_time && not (is_aware opening)
      then some (ok (undecided_for no_trading_hours))
      else and_then (some (whole_value r.value))
          (close_out_days f evaluated_at calendar opening r.unit)

  -- `assess_rule_204`, with the table given
  unfoldable pub assess_rule_204 :
      Rule204Fail
      → ℤ
      → Option MarketCalendar
      → TradingOpen
      → List DeadlineRule
      → Option (Result ClockError Rule204Assessment)
  assess_rule_204 f evaluated_at calendar opening table = elim f.origin_class [
    | no_origin ↦ some (ok (held_for no_origin_class))
    | unknown_origin text ↦ some (ok (undecided_for (unread_origin_class text)))
    | origin o ↦ elim (get table (close_out_rule_id o)) [
      | none ↦ some (ok (undecided_for (absent_rule (close_out_rule_id o))))
      | some r ↦ close_out_under f evaluated_at calendar opening r
    ]
  ]
