-- ===== src/Deadlines/CloseOut/Timed.antt =====
-- atreides/deadlines/rule_204.py: what an assessment says of its due time, on every branch.
use project_atreides.Common.{
  ℕ, refl, subst, inl, inr, true, false, not, Option, none, some, List, [], arith, Result, ok,
  Bool-cases, Option-cases, String, ◌≡◌, ◌≢◌, ◌⊎◌, ◌&&◌, ◌++◌,
}
use project_atreides.Common.Int.{◌≤ℤ◌, ◌<ℤ◌, ℤ}
use project_atreides.Deadlines.CloseOut.{
  close_out_on, Rule204Assessment, GivenOrigin, close_out_by, CloseOutMissing, Rule204Fail,
  close_out_days, close_out_under, assess_rule_204, TradingOpen, pass, no_origin, ClockError,
  MarketCalendar, opens_at, unknown_origin, hold, undecided_for, held_for, DeadlineRule, RuleUnit,
  Rule204Origin, settlement_days, whole_value, is_aware, not_given, origin, lift_days, naive,
  add_settlement_days, get, calendar_days, close_out_rule_id, add_days,
}
use project_atreides.Deadlines.Rules.{and_then-ok, business_days, months, clock_time}

close_out_on-ok :
    (opening : TradingOpen) (evaluated_at : ℤ) (due_date : ℕ) (a : Rule204Assessment)
    → close_out_on opening evaluated_at due_date ≡ some (ok a)
    → (at : ℕ → ℤ) × (opening ≡ opens_at at) × (close_out_by evaluated_at (at due_date) ≡ a)
unfolding close_out_on
close_out_on-ok not_given evaluated_at due_date a h = cc h
close_out_on-ok naive evaluated_at due_date a h = cc h
close_out_on-ok (opens_at at) evaluated_at due_date a h = (at, refl, cc h)

-- An assessment without a due time: it does not pass, says what is missing and claims no lateness.
abbrev pub IsUntimed : Rule204Assessment → Type 0
IsUntimed a =
    (a.due_at ≡ none)
    × (a.disposition ≢ pass)
    × ((a.missing_rules ++ a.missing_inputs) ≢ [])
    × (a.overdue ≡ false)
    × (a.preborrow_condition_applies ≡ false)

origin-cases :
    (g : GivenOrigin)
    → (g ≡ no_origin)
      ⊎ (((text : String) × (g ≡ unknown_origin text)) ⊎ ((o : Rule204Origin) × (g ≡ origin o)))
origin-cases no_origin = inl refl
origin-cases (unknown_origin text) = inr (inl (text, refl))
origin-cases (origin o) = inr (inr (o, refl))

-- In time and passed, or late and held.
abbrev pub IsLateOrNot : ℤ → ℤ → Rule204Assessment → Type 0
IsLateOrNot evaluated_at due a =
    ((evaluated_at ≤ℤ due)
      × (a.disposition ≡ pass)
      × (a.overdue ≡ false)
      × (a.preborrow_condition_applies ≡ false))
    ⊎ ((due <ℤ evaluated_at)
        × (a.disposition ≡ hold)
        × (a.overdue ≡ true)
        × (a.preborrow_condition_applies ≡ true))

close_out_by-cases :
    (evaluated_at due : ℤ) → IsLateOrNot evaluated_at due (close_out_by evaluated_at due)
unfolding close_out_by
close_out_by-cases evaluated_at due = ground arith

due_at-close_out_by : (evaluated_at due : ℤ) → (close_out_by evaluated_at due).due_at ≡ some due
unfolding close_out_by
due_at-close_out_by evaluated_at due = refl

undecided_for-IsUntimed :
    (missing : CloseOutMissing) (a : Rule204Assessment)
    → ◌≡◌ {A = Option (Result ClockError Rule204Assessment)}
        (some (ok (undecided_for missing)))
        (some (ok a))
    → IsUntimed a
undecided_for-IsUntimed missing a h =
    let same : undecided_for missing ≡ a = cc h in
    subst IsUntimed same (refl, λ e. cc e, λ e. cc e, refl, refl)

held_for-IsUntimed :
    (missing : CloseOutMissing) (a : Rule204Assessment)
    → ◌≡◌ {A = Option (Result ClockError Rule204Assessment)}
        (some (ok (held_for missing)))
        (some (ok a))
    → IsUntimed a
held_for-IsUntimed missing a h =
    let same : held_for missing ≡ a = cc h in
    subst IsUntimed same (refl, λ e. cc e, λ e. cc e, refl, refl)

module _ (year_of : ℕ → ℕ) (fuel : ℕ) where
  -- The due date that a rule gives: so many settlement days after the settlement date, by the
  -- calendar, or so many days after the trade date.
  abbrev pub IsDueDate : Rule204Fail → Option MarketCalendar → DeadlineRule → ℤ → ℕ → Type 0
  IsDueDate f calendar r days due_date =
      ((r.unit ≡ settlement_days)
        × ((c : MarketCalendar) × (calendar ≡ some c)
            × (lift_days (add_settlement_days year_of fuel c f.settlement_date days)
                ≡ some (ok due_date))))
      ⊎ ((r.unit ≡ calendar_days) × (due_date ≡ add_days f.trade_date days))

  -- An assessment against a due time, which the rule of the fail's origin and the opening give
  abbrev pub IsTimedBy :
      Rule204Fail
      → ℤ
      → Option MarketCalendar
      → TradingOpen
      → DeadlineRule
      → Rule204Assessment
      → Type 0
  IsTimedBy f evaluated_at calendar opening r a =
      (days : ℤ) × (due_date : ℕ) × (at : ℕ → ℤ) × (whole_value r.value ≡ ok days)
      × IsDueDate f calendar r days due_date
      × (opening ≡ opens_at at)
      × (close_out_by evaluated_at (at due_date) ≡ a)

  close_out_days_exact :
      (f : Rule204Fail) (evaluated_at : ℤ) (calendar : Option MarketCalendar)
      (opening : TradingOpen) (u : RuleUnit) (days : ℤ) (a : Rule204Assessment)
      → close_out_days year_of fuel f evaluated_at calendar opening u days ≡ some (ok a)
      → IsUntimed a
        ⊎ ((due_date : ℕ) × (at : ℕ → ℤ) × (((u ≡ settlement_days)
                × ((c : MarketCalendar) × (calendar ≡ some c)
                    × (lift_days (add_settlement_days year_of fuel c f.settlement_date days)
                        ≡ some (ok due_date))))
              ⊎ ((u ≡ calendar_days) × (due_date ≡ add_days f.trade_date days)))
            × (opening ≡ opens_at at)
            × (close_out_by evaluated_at (at due_date) ≡ a))
  unfolding close_out_days
  close_out_days_exact f evaluated_at none opening settlement_days days a h =
      inl (held_for-IsUntimed _ a h)
  close_out_days_exact f evaluated_at (some c) opening settlement_days days a h =
      let (due_date, counted, timed) = and_then-ok _ _ a h in
      let (at, given, same) = close_out_on-ok opening evaluated_at due_date a timed in
      inr (due_date, at, inl (refl, (c, refl, counted)), given, same)
  close_out_days_exact f evaluated_at calendar opening calendar_days days a h =
      let (at, given, same) = close_out_on-ok opening evaluated_at _ a h in
      inr (add_days f.trade_date days, at, inr (refl, refl), given, same)
  close_out_days_exact f evaluated_at calendar opening business_days days a h =
      inl (undecided_for-IsUntimed _ a h)
  close_out_days_exact f evaluated_at calendar opening months days a h =
      inl (undecided_for-IsUntimed _ a h)
  close_out_days_exact f evaluated_at calendar opening clock_time days a h =
      inl (undecided_for-IsUntimed _ a h)

  close_out_under_exact :
      (f : Rule204Fail) (evaluated_at : ℤ) (calendar : Option MarketCalendar)
      (opening : TradingOpen) (r : DeadlineRule) (a : Rule204Assessment)
      → close_out_under year_of fuel f evaluated_at calendar opening r ≡ some (ok a)
      → IsUntimed a ⊎ IsTimedBy f evaluated_at calendar opening r a
  unfolding close_out_under
  close_out_under_exact f evaluated_at calendar opening r a h =
      elim (Bool-cases (r.requires_caller_opening_time && not (is_aware opening))) [
        | inl e ↦ inl (undecided_for-IsUntimed _ a (rw (close_out_under, e) at h))
        | inr e ↦
            let (days, counted, timed) =
              and_then-ok (some (whole_value r.value)) _ a (rw (close_out_under, e) at h) in
            elim (close_out_days_exact f evaluated_at calendar opening r.unit days a timed) [
              | inl without ↦ inl without
              | inr (due_date, at, dated, given, same) ↦
                  inr (days, due_date, at, cc counted, dated, given, same)
            ]
      ]

  -- Every assessment that `assess_rule_204` returns either has no due time, and then does not pass,
  -- names what is missing and reports neither a breach nor the pre-borrow condition; or has the due
  -- time that the table's rule for the fail's origin gives, and then passes exactly if it was
  -- evaluated no later, and reports the breach and the pre-borrow condition exactly if it was later.
  pub assess_rule_204_exact :
      (f : Rule204Fail) (evaluated_at : ℤ) (calendar : Option MarketCalendar)
      (opening : TradingOpen) (table : List DeadlineRule) (a : Rule204Assessment)
      → assess_rule_204 year_of fuel f evaluated_at calendar opening table ≡ some (ok a)
      → IsUntimed a
        ⊎ ((o : Rule204Origin) × (r : DeadlineRule) × (due : ℤ) × (f.origin_class ≡ origin o)
            × (get table (close_out_rule_id o) ≡ some r)
            × IsTimedBy f evaluated_at calendar opening r a
            × (a.due_at ≡ some due)
            × IsLateOrNot evaluated_at due a)
  unfolding assess_rule_204
  assess_rule_204_exact f evaluated_at calendar opening table a h =
      elim (origin-cases f.origin_class) [
        | inl e ↦ inl (held_for-IsUntimed _ a (rw (assess_rule_204, e) at h))
        | inr (inl (text, e)) ↦ inl (undecided_for-IsUntimed _ a (rw (assess_rule_204, e) at h))
        | inr (inr (o, e)) ↦ elim (Option-cases (get table (close_out_rule_id o))) [
          | inl e' ↦ inl (undecided_for-IsUntimed _ a (rw (assess_rule_204, e, e') at h))
          | inr (r, e') ↦
              elim (close_out_under_exact f evaluated_at calendar opening r a
                (rw (assess_rule_204, e, e') at h)) [
                  | inl without ↦ inl without
                  | inr timed ↦
                      let (days, due_date, at, counted, dated, given, same) = timed in
                      inr (
                        o,
                        r,
                        at due_date,
                        e,
                        e',
                        timed,
                        subst (λ x. x.due_at ≡ some (at due_date)) same (due_at-close_out_by _ _),
                        subst (IsLateOrNot evaluated_at (at due_date)) same
                            (close_out_by-cases _ _),
                      )
                ]
        ]
      ]
