-- ===== src/Deadlines/Calendar/Tests.antt =====
-- The market calendar with one year loaded. The ordinals 3 to 9 are a Wednesday to a Tuesday.
use project_atreides.Common.Dict.{lookup, has_key}
use project_atreides.Deadlines.Calendar.{
  MarketCalendar, add_business_days, advance, business_days_after, is_business_day, CalendarError,
}
use project_atreides.Deadlines.Calendar.Count.{
  business_days_after-add_business_days, add_business_days-total,
}
use project_atreides.Common.{
  ℕ, refl, false, some, [], Result, ok, ltb, ◌+◌, ◌≡◌, ◌∷◌, if◌then◌else◌,
}
use project_atreides.Common.Int.{pos}
use project_atreides.Common.Key.{nat_key}

abbrev calendar : MarketCalendar
calendar = record { holidays = (1, 4 ∷ []) ∷ [] }

abbrev year_at : ℕ → ℕ
year_at d = if ltb d 10 then 1 else 2

over_weekend : add_business_days year_at 7 calendar 3 (pos 2) ≡ some (ok 8)
unfolding add_business_days advance is_business_day lookup
over_weekend = refl

unread_year : has_key (year_at (3 + 7)) calendar.holidays ≡ false
unfolding lookup
unread_year = refl

business_days_after-add_business_days_example : business_days_after year_at calendar 3 8 ≡ ok 2
business_days_after-add_business_days_example =
    business_days_after-add_business_days year_at 7 calendar 3 2 8 over_weekend

add_business_days-total_example :
    (r : Result CalendarError ℕ) × (add_business_days year_at 7 calendar 3 (pos 6) ≡ some r)
add_business_days-total_example = add_business_days-total year_at 6 calendar 3 (pos 6) unread_year
