-- ===== src/Deadlines/Calendar/Count.antt =====
-- atreides/deadlines/calendar.py: `add_business_days` and `business_days_after` agree.
use project_atreides.Deadlines.Calendar.{
  MarketCalendar, CalendarError, is_business_day, advance, add_business_days, count_days,
  business_days_after, negative_count, indeterminate,
}
use project_atreides.Common.{
  ℕ, zero, suc, refl, false, some, arith, Result, ok, ◌+◌, ◌-◌, ◌≡◌, ap, inl, inr, true, err, leb,
  ◌∙◌, Result-cases, Option-cases,
}
use project_atreides.Common.Int.{ℤ, pos, negsuc}
use project_atreides.Common.Dict.{has_key, lookup}
use project_atreides.Common.Key.{nat_key}

module _ (year_of : ℕ → ℕ) where
  raised-advance :
      (fuel : ℕ) (c : MarketCalendar) (cursor n d : ℕ) (e : CalendarError)
      → is_business_day year_of c (suc cursor) ≡ err e
      → ¬ (advance year_of (suc fuel) c cursor (suc n) ≡ some (ok d))
  unfolding advance
  raised-advance fuel c cursor n d e q h = let failed = rw (advance, q) at h in cc failed

  -- Where `advance` returns a date, the days from the cursor to it count as `n`.
  advance-count :
      (fuel : ℕ) (c : MarketCalendar) (cursor n d total : ℕ)
      → advance year_of fuel c cursor n ≡ some (ok d)
      → (m : ℕ) × (d ≡ cursor + m) × (count_days year_of c cursor m total ≡ ok (n + total))
  unfolding advance count_days
  advance-count fuel c cursor zero d total h = (0, ground arith, ap ok (omega arith))
  advance-count zero c cursor (suc n) d total h = cc h
  advance-count (suc fuel) c cursor (suc n) d total h =
      elim (Result-cases (is_business_day year_of c (suc cursor))) [
        | inl (e, q) ↦ absurd (raised-advance fuel c cursor n d e q h)
        | inr (true, q) ↦
            let later : advance year_of fuel c (suc cursor) n ≡ some (ok d) =
              rw (advance, q) at h in
            let (m, at, counted) = advance-count fuel c (suc cursor) n d (suc total) later in
            (suc m, omega (arith, at), rw (count_days, q) (counted ∙ ap ok (omega arith)))
        | inr (false, q) ↦
            let later : advance year_of fuel c (suc cursor) (suc n) ≡ some (ok d) =
              rw (advance, q) at h in
            let (m, at, counted) = advance-count fuel c (suc cursor) (suc n) d total later in
            (suc m, omega (arith, at), rw (count_days, q) counted)
      ]

  counted_after :
      (c : MarketCalendar) (start m n : ℕ)
      → count_days year_of c start m 0 ≡ ok n
      → business_days_after year_of c start (start + m) ≡ ok n
  unfolding business_days_after count_days
  counted_after c start zero n h =
      let early : leb (start + 0) start ≡ true = ground arith in rw (business_days_after, early) h
  counted_after c start (suc m) n h =
      let late : leb (start + suc m) start ≡ false = ground arith in
      let days : start + suc m - start ≡ suc m = omega arith in
      rw (business_days_after, late, days) h

  -- The calendar's two operations are inverse: where `add_business_days` returns a date for a count,
  -- `business_days_after` returns that count for the date.
  pub business_days_after-add_business_days :
      (fuel : ℕ) (c : MarketCalendar) (start n d : ℕ)
      → add_business_days year_of fuel c start (pos n) ≡ some (ok d)
      → business_days_after year_of c start d ≡ ok n
  unfolding add_business_days
  business_days_after-add_business_days fuel c start n d h =
      let (m, at, counted) = advance-count fuel c start n d 0 h in
      rw at (counted_after c start m n (counted ∙ ap ok (omega arith)))

  is_business_day_unread :
      (c : MarketCalendar) (d : ℕ)
      → has_key (year_of d) c.holidays ≡ false
      → is_business_day year_of c d ≡ err (indeterminate (year_of d))
  unfolding is_business_day
  is_business_day_unread c d h = elim (Option-cases (lookup (year_of d) c.holidays)) [
    | inl q ↦ rw (is_business_day, q) refl
    | inr (days, q) ↦ absurd (cc (q, h))
  ]

  advance-total :
      (n : ℕ) (c : MarketCalendar) (cursor remaining : ℕ)
      → has_key (year_of (cursor + suc n)) c.holidays ≡ false
      → (r : Result CalendarError ℕ) × (advance year_of (suc n) c cursor remaining ≡ some r)
  unfolding advance
  advance-total n c cursor zero h = (ok cursor, refl)
  advance-total zero c cursor (suc remaining) h =
      let next : cursor + 1 ≡ suc cursor = omega arith in
      let unread = is_business_day_unread c (suc cursor) (rw next at h) in
      (err (indeterminate (year_of (suc cursor))), rw (advance, unread) refl)
  advance-total (suc n) c cursor (suc remaining) h =
      let next : cursor + suc (suc n) ≡ suc cursor + suc n = omega arith in
      let h' : has_key (year_of (suc cursor + suc n)) c.holidays ≡ false = rw next at h in
      elim (Result-cases (is_business_day year_of c (suc cursor))) [
        | inl (e, q) ↦ (err e, rw (advance, q) refl)
        | inr (true, q) ↦
            let (r, later) = advance-total n c (suc cursor) remaining h' in
            (r, rw (advance, q) later)
        | inr (false, q) ↦
            let (r, later) = advance-total n c (suc cursor) (suc remaining) h' in
            (r, rw (advance, q) later)
      ]

  -- `add_business_days` returns or raises: in a calendar that has no holidays loaded for the year of
  -- the date `n + 1` days after the start, `n + 1` rounds are enough for any count of days.
  pub add_business_days-total :
      (n : ℕ) (c : MarketCalendar) (start : ℕ) (days : ℤ)
      → has_key (year_of (start + suc n)) c.holidays ≡ false
      → (r : Result CalendarError ℕ) × (add_business_days year_of (suc n) c start days ≡ some r)
  unfolding add_business_days
  add_business_days-total n c start (negsuc k) h = (err negative_count, refl)
  add_business_days-total n c start (pos k) h = advance-total n c start k h
