-- ===== src/Deadlines/Reserve/Due.antt =====
-- atreides/deadlines/reserve_deposit.py: a deposit passes only against a due time.
use project_atreides.Deadlines.Rules.{
  whole, DeadlineRule, get, pass, is_business_unit, is_clock_unit, ClockError, whole_value,
  value-cases,
}
use project_atreides.Deadlines.Calendar.{MarketCalendar, add_business_days}
use project_atreides.Deadlines.Reserve.{
  Basis, GivenBasis, no_basis, unknown_basis, basis, rule_id_of, offset_rule_id, Assessment,
  assess_due, assess_dated, assess_rules, assess_reserve_deposit, Opening,
}
use project_atreides.Common.{
  ℕ, Option, some, ok, ◌≡◌, refl, sym, ap, inl, inr, not, none, List, arith, Result, err,
  Bool-cases, Option-cases, ◌∙◌, ◌||◌, Result-cases,
}
use project_atreides.Common.Int.{ℤ, ◌≤ℤ◌}

raised :
    {a : Assessment} {e : ClockError}
    → ¬ (◌≡◌ {A = Option (Result ClockError Assessment)} (some (err e)) (some (ok a)))
raised h = cc h

unfinished :
    {a : Assessment} → ¬ (◌≡◌ {A = Option (Result ClockError Assessment)} none (some (ok a)))
unfinished h = cc h

returned :
    {a b : Assessment}
    → ◌≡◌ {A = Option (Result ClockError Assessment)} (some (ok a)) (some (ok b))
    → a ≡ b
returned h = cc h

not_late :
    (evaluated_at due : ℤ) → (assess_due evaluated_at due).disposition ≡ pass → evaluated_at ≤ℤ due
unfolding assess_due
not_late evaluated_at due h = ground arith

module _ (year_of : ℕ → ℕ) (fuel : ℕ) where
  -- The due time that a calendar, an opening and two rules give, and an evaluation against it.
  abbrev pub IsTimed :
      Option MarketCalendar
      → ℕ
      → Option Opening
      → ℤ
      → DeadlineRule
      → DeadlineRule
      → Assessment
      → Type 0
  IsTimed calendar computed_on banking_open evaluated_at basis_rule offset_rule a =
      (c : MarketCalendar) × (o : Opening) × (days : ℤ) × (hours : ℤ) × (due_date : ℕ) × (calendar
        ≡ some c)
      × (banking_open ≡ some o)
      × (basis_rule.value ≡ whole days)
      × (offset_rule.value ≡ whole hours)
      × (add_business_days year_of fuel c computed_on days ≡ some (ok due_date))
      × (a ≡ assess_due evaluated_at (o due_date hours))

  assess_dated-IsTimed :
      (c : MarketCalendar) (computed_on : ℕ) (o : Opening) (evaluated_at : ℤ)
      (basis_rule offset_rule : DeadlineRule) (a : Assessment)
      → assess_dated year_of fuel c computed_on o evaluated_at basis_rule offset_rule ≡ some (ok a)
      → IsTimed (some c) computed_on (some o) evaluated_at basis_rule offset_rule a
  unfolding assess_dated whole_value
  assess_dated-IsTimed c computed_on o evaluated_at basis_rule offset_rule a h =
      elim (value-cases basis_rule.value) [
        | inl e ↦ absurd (raised (rw (assess_dated, whole_value, e) at h))
        | inr (days, e) ↦ elim (Option-cases (add_business_days year_of fuel c computed_on days)) [
          | inl q ↦ absurd (unfinished (rw (assess_dated, whole_value, e, q) at h))
          | inr (result, q) ↦ elim (Result-cases result) [
            | inl (x, r) ↦ absurd (raised (rw (assess_dated, whole_value, e, q, r) at h))
            | inr (due_date, r) ↦ elim (value-cases offset_rule.value) [
              | inl e' ↦ absurd (raised (rw (assess_dated, whole_value, e, q, r, e') at h))
              | inr (hours, e') ↦ (
                c,
                o,
                days,
                hours,
                due_date,
                refl,
                refl,
                e,
                e',
                q ∙ ap some r,
                sym (returned (rw (assess_dated, whole_value, e, q, r, e') at h)),
              )
            ]
          ]
        ]
      ]

  assess_rules-pass :
      (calendar : Option MarketCalendar) (computed_on : ℕ) (banking_open : Option Opening)
      (evaluated_at : ℤ) (basis_rule offset_rule : DeadlineRule) (a : Assessment)
      → assess_rules year_of fuel calendar computed_on banking_open evaluated_at basis_rule
          offset_rule
        ≡ some (ok a)
      → a.disposition ≡ pass
      → IsTimed calendar computed_on banking_open evaluated_at basis_rule offset_rule a
  unfolding assess_rules
  assess_rules-pass calendar computed_on none evaluated_at basis_rule offset_rule a h p =
      absurd (cc (ap (λ a. a.disposition) (returned h), p))
  assess_rules-pass none computed_on (some o) evaluated_at basis_rule offset_rule a h p =
      absurd (cc (ap (λ a. a.disposition) (returned h), p))
  assess_rules-pass (some c) computed_on (some o) evaluated_at basis_rule offset_rule a h p =
      elim (Bool-cases
        (not (is_business_unit basis_rule.unit) || not (is_clock_unit offset_rule.unit))) [
          | inl e ↦
              let undecided = returned (rw (assess_rules, e) at h) in
              absurd (cc (ap (λ a. a.disposition) undecided, p))
          | inr e ↦
              assess_dated-IsTimed c computed_on o evaluated_at basis_rule offset_rule a
                (rw (assess_rules, e) at h)
        ]

  -- A recognised basis with its rule and the offset rule in the table, and a due time computed from
  -- them that the evaluation is not after.
  abbrev pub IsOnTime :
      GivenBasis
      → ℕ
      → ℤ
      → Option MarketCalendar
      → Option Opening
      → List DeadlineRule
      → Assessment
      → Type 0
  IsOnTime given computed_on evaluated_at calendar banking_open table a =
      (b : Basis) × (basis_rule : DeadlineRule) × (offset_rule : DeadlineRule) × (due : ℤ) × (given
        ≡ basis b)
      × (get table (rule_id_of b) ≡ some basis_rule)
      × (get table offset_rule_id ≡ some offset_rule)
      × IsTimed calendar computed_on banking_open evaluated_at basis_rule offset_rule a
      × (a.due_at ≡ some due)
      × (evaluated_at ≤ℤ due)

  -- A PASS is never a default: it has a recognised basis, its rule and the offset rule in the table,
  -- a calendar, an opening of banking and a due time computed from these, and it was evaluated no
  -- later than that due time.
  pub reserve_pass_timed :
      (given : GivenBasis) (computed_on : ℕ) (evaluated_at : ℤ) (calendar : Option MarketCalendar)
      (banking_open : Option Opening) (table : List DeadlineRule) (a : Assessment)
      → assess_reserve_deposit year_of fuel given computed_on evaluated_at calendar banking_open
          table
        ≡ some (ok a)
      → a.disposition ≡ pass
      → IsOnTime given computed_on evaluated_at calendar banking_open table a
  unfolding assess_reserve_deposit assess_due
  reserve_pass_timed no_basis computed_on evaluated_at calendar banking_open table a h p =
      absurd (cc (ap (λ a. a.disposition) (returned h), p))
  reserve_pass_timed unknown_basis computed_on evaluated_at calendar banking_open table a h p =
      absurd (cc (ap (λ a. a.disposition) (returned h), p))
  reserve_pass_timed (basis b) computed_on evaluated_at calendar banking_open table a h p =
      elim (Option-cases (get table (rule_id_of b))) [
        | inl e ↦
            let missing = returned (rw (assess_reserve_deposit, e) at h) in
            absurd (cc (ap (λ a. a.disposition) missing, p))
        | inr (basis_rule, e) ↦ elim (Option-cases (get table offset_rule_id)) [
          | inl e' ↦
              let missing = returned (rw (assess_reserve_deposit, e, e') at h) in
              absurd (cc (ap (λ a. a.disposition) missing, p))
          | inr (offset_rule, e') ↦
              let timed =
                assess_rules-pass calendar computed_on banking_open evaluated_at basis_rule
                  offset_rule a (rw (assess_reserve_deposit, e, e') at h) p in
              let (c, o, days, hours, due_date, hc, ho, hd, hh, ha, at) = timed in
              let on_time : evaluated_at ≤ℤ o due_date hours =
                not_late evaluated_at (o due_date hours) (sym (ap (λ a. a.disposition) at) ∙ p) in
              (
                b,
                basis_rule,
                offset_rule,
                o due_date hours,
                refl,
                e,
                e',
                timed,
                ap (λ a. a.due_at) at,
                on_time,
              )
        ]
      ]
