-- ===== src/Deadlines/Calendar.antt =====
-- atreides/deadlines/calendar.py: business days of a market. A date is its ordinal, of which
-- Python's `weekday` is `(ordinal + 6) % 7`; `year_of` stands for Python's `date.year`.
pub mod Count
mod Tests
use project_atreides.Common.{
  ℕ, zero, suc, Bool, not, Option, none, some, List, Result, ok, err, ltb, leb, ◌+◌, ◌-◌, ◌&&◌,
  if◌then◌else◌, ◌>>=◌, ◌>>◌, ◌%◌,
}
use project_atreides.Common.Int.{ℤ, pos, negsuc}
use project_atreides.Common.Dict.{Dict, lookup}
use project_atreides.Common.Key.{contains, nat_key}

-- What the decisions read of a `MarketCalendar`
pub record MarketCalendar : Type 0 where
  pub holidays : Dict ℕ (List ℕ)

pub data CalendarError : Type 0 where
  indeterminate : ℕ → CalendarError
  negative_count : CalendarError

abbrev pub weekday : ℕ → ℕ
weekday d = (d + 6) % 7

module _ (year_of : ℕ → ℕ) where
  unfoldable pub is_business_day : MarketCalendar → ℕ → Result CalendarError Bool
  is_business_day c d = elim (lookup (year_of d) c.holidays) [
    | none ↦ err (indeterminate (year_of d))
    | some days ↦ ok (ltb (weekday d) 5 && not (contains days d))
  ]

  -- The loop of `add_business_days`, which ends in at most `fuel` rounds or gives `none`
  unfoldable pub advance : ℕ → MarketCalendar → ℕ → ℕ → Option (Result CalendarError ℕ)
  advance fuel c cursor zero = some (ok cursor)
  advance zero c cursor (suc remaining) = none
  advance (suc fuel) c cursor (suc remaining) =
      let business = advance fuel c (suc cursor) remaining in
      let other_day = advance fuel c (suc cursor) (suc remaining) in
      elim (is_business_day c (suc cursor)) [
        | err e ↦ some (err e)
        | ok b ↦ if b then business else other_day
      ]

  unfoldable pub add_business_days : ℕ → MarketCalendar → ℕ → ℤ → Option (Result CalendarError ℕ)
  add_business_days fuel c start (negsuc n) = some (err negative_count)
  add_business_days fuel c start (pos n) = advance fuel c start n

  unfoldable pub add_settlement_days : ℕ → MarketCalendar → ℕ → ℤ → Option (Result CalendarError ℕ)
  add_settlement_days fuel c start days = add_business_days fuel c start days

  -- The loop of `business_days_after` over the days that are left
  unfoldable pub count_days : MarketCalendar → ℕ → ℕ → ℕ → Result CalendarError ℕ
  count_days c cursor zero total = ok total
  count_days c cursor (suc days) total = do
    b ← is_business_day c (suc cursor)
    count_days c (suc cursor) days (if b then suc total else total)

  unfoldable pub business_days_after : MarketCalendar → ℕ → ℕ → Result CalendarError ℕ
  unfolding count_days
  business_days_after c start close =
      if leb close start then ok 0 else count_days c start (close - start) 0
