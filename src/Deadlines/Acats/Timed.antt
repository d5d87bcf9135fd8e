-- ===== src/Deadlines/Acats/Timed.antt =====
-- atreides/deadlines/acats.py: what an assessment of a transfer says, on every branch.
use project_atreides.Common.{
  ℕ, refl, subst, inl, inr, Option, none, some, List, [], arith, Result, ok, ◌≤◌, ◌≡◌, ◌≢◌, ◌↔◌,
  ◌⊎◌, ◌++◌, sym, ap, Bool, true, false, not, Bool-cases, Option-cases, if◌then◌else◌,
}
use project_atreides.Deadlines.Acats.{
  AcatsAssessment, missing_acats_rules, completion_of, acats_assessed, pass, ClockError, get,
  MarketCalendar, acats_breaches, validation_rule_id, AcatsTransfer, completion_rule_id,
  acats_without, indeterminate, is_clean, hold, whole_value, acats_dated, acats_under, assess_acats,
  lift_days, is_business_unit, RuleTable, add_business_days, is_in_force, find_source,
}
use project_atreides.Deadlines.Rules.{DeadlineRule, and_then-ok}
use project_atreides.Common.Int.{ℤ}

-- No due date: the assessment does not pass, says what is missing and reports no breach.
abbrev pub IsUndated : AcatsAssessment → Type 0
IsUndated a =
    (a.validation_due ≡ none)
    × (a.disposition ≢ pass)
    × ((a.missing_rules ++ a.missing_inputs) ≢ [])
    × (a.breaches ≡ [])

-- The transfer is in time: not validated and not past the validation's due date, or validated by that
-- date and not past the completion's.
abbrev pub IsMet : Option ℕ → ℕ → ℕ → Option ℕ → Type 0
IsMet none today validation_due completion_due = today ≤ validation_due
IsMet (some validated) today validation_due none = validated ≤ validation_due
IsMet (some validated) today validation_due (some due) =
    (validated ≤ validation_due) × (today ≤ due)

returned-IsUndated :
    (x a : AcatsAssessment)
    → ◌≡◌ {A = Option (Result ClockError AcatsAssessment)} (some (ok x)) (some (ok a))
    → IsUndated x
    → IsUndated a
returned-IsUndated x a h u = let same : x ≡ a = cc h in subst IsUndated same u

missing_rules_some :
    (rules : List DeadlineRule)
    → (get rules validation_rule_id ≡ none) ⊎ (get rules completion_rule_id ≡ none)
    → (missing_acats_rules rules ++ []) ≢ []
unfolding missing_acats_rules
missing_rules_some rules (inl e) h = ground arith
missing_rules_some rules (inr e) h = ground arith

acats_without-IsUndated :
    (rules : List DeadlineRule) (a : AcatsAssessment)
    → (get rules validation_rule_id ≡ none) ⊎ (get rules completion_rule_id ≡ none)
    → ◌≡◌ {A = Option (Result ClockError AcatsAssessment)}
        (some (ok (acats_without indeterminate (missing_acats_rules rules) [])))
        (some (ok a))
    → IsUndated a
acats_without-IsUndated rules a e h =
    returned-IsUndated _ a h (refl, λ q. cc q, missing_rules_some rules e, refl)

-- No completion is due before the validation.
completion_of-none :
    (year_of : ℕ → ℕ) (fuel : ℕ) (c : MarketCalendar) (completion : DeadlineRule) (due : Option ℕ)
    → completion_of year_of fuel c completion none ≡ some (ok due)
    → due ≡ none
unfolding completion_of
completion_of-none year_of fuel c completion due h = cc h

acats_breaches-IsMet :
    (i : ℕ) (v : Option ℕ) (today validation_due : ℕ) (completion_due : Option ℕ)
    → (v ≡ none → completion_due ≡ none)
    → (is_clean (
          acats_breaches
            (record { instruction_on = i; validation_on = v })
            today
            validation_due
            completion_due)
        ≡ true)
      ↔ IsMet v today validation_due completion_due
unfolding acats_breaches
acats_breaches-IsMet i none today validation_due none h = ground arith
acats_breaches-IsMet i none today validation_due (some due) h = cc (h refl)
acats_breaches-IsMet i (some validated) today validation_due none h = ground arith
acats_breaches-IsMet i (some validated) today validation_due (some due) h = ground arith

passes_if_clean : (clean : Bool) → ((if clean then pass else hold) ≡ pass) ↔ (clean ≡ true)
passes_if_clean true = (λ e. refl, λ e. refl)
passes_if_clean false = (λ e. cc e, λ e. cc e)

acats_assessed-IsMet :
    (t : AcatsTransfer) (today validation_due : ℕ) (completion_due : Option ℕ)
    → (t.validation_on ≡ none → completion_due ≡ none)
    → ((acats_assessed t today validation_due completion_due).disposition ≡ pass)
      ↔ IsMet t.validation_on today validation_due completion_due
unfolding acats_assessed
acats_assessed-IsMet t today validation_due completion_due h =
    let by_list =
      acats_breaches-IsMet t.instruction_on t.validation_on today validation_due completion_due h in
    let by_test =
      passes_if_clean (is_clean (acats_breaches t today validation_due completion_due)) in
    (λ p. by_list.0 (by_test.0 p), λ m. by_test.1 (by_list.1 m))

module _ (year_of : ℕ → ℕ) (fuel : ℕ) where
  -- The due dates that the rules give, counted in business days by the calendar, and the assessment
  -- against them.
  abbrev pub IsDated :
      AcatsTransfer → ℕ → MarketCalendar → DeadlineRule → DeadlineRule → AcatsAssessment → Type 0
  IsDated t today c validation completion a =
      (days : ℤ) × (validation_due : ℕ) × (completion_due : Option ℕ) × (whole_value
          validation.value
        ≡ ok days)
      × (lift_days (add_business_days year_of fuel c t.instruction_on days)
          ≡ some (ok validation_due))
      × (completion_of year_of fuel c completion t.validation_on ≡ some (ok completion_due))
      × (acats_assessed t today validation_due completion_due ≡ a)

  acats_dated-IsDated :
      (t : AcatsTransfer) (today : ℕ) (c : MarketCalendar) (validation completion : DeadlineRule)
      (a : AcatsAssessment)
      → acats_dated year_of fuel t today c validation completion ≡ some (ok a)
      → IsDated t today c validation completion a
  unfolding acats_dated
  acats_dated-IsDated t today c validation completion a h =
      let (days, counted, h1) = and_then-ok (some (whole_value validation.value)) _ a h in
      let (validation_due, dated, h2) =
        and_then-ok (lift_days (add_business_days year_of fuel c t.instruction_on days)) _ a h1 in
      let (completion_due, completed, h3) =
        and_then-ok (completion_of year_of fuel c completion t.validation_on) _ a h2 in
      (days, validation_due, completion_due, cc counted, dated, completed, cc h3)

  -- A PASS, exactly where the transfer is in time
  dated_exact :
      (t : AcatsTransfer) (today : ℕ) (c : MarketCalendar) (validation completion : DeadlineRule)
      (a : AcatsAssessment)
      → IsDated t today c validation completion a
      → (validation_due : ℕ) × (a.validation_due ≡ some validation_due)
        × ((a.disposition ≡ pass) ↔ IsMet t.validation_on today validation_due a.completion_due)
  unfolding acats_assessed
  dated_exact t today c validation completion a
        (days, validation_due, completion_due, counted, dated, completed, same) =
      (
        validation_due,
        sym (ap (λ x. x.validation_due) same),
        subst
            (λ x.
              (x.disposition ≡ pass) ↔ IsMet t.validation_on today validation_due x.completion_due)
            same
            (acats_assessed-IsMet t today validation_due completion_due (λ none_yet.
              completion_of-none year_of fuel c completion completion_due (
                subst (λ v. completion_of year_of fuel c completion v ≡ some (ok completion_due))
                  none_yet completed))),
      )

  acats_under-IsDated :
      (t : AcatsTransfer) (today : ℕ) (calendar : Option MarketCalendar)
      (validation completion : DeadlineRule) (a : AcatsAssessment)
      → acats_under year_of fuel t today calendar validation completion ≡ some (ok a)
      → IsUndated a
        ⊎ ((c : MarketCalendar) × (calendar ≡ some c) × IsDated t today c validation completion a)
  unfolding acats_under
  acats_under-IsDated t today none validation completion a h =
      inl (returned-IsUndated _ a h (refl, λ q. cc q, λ q. cc q, refl))
  acats_under-IsDated t today (some c) validation completion a h =
      elim (Bool-cases (not (is_business_unit validation.unit))) [
        | inl e ↦
            inl
              (returned-IsUndated _ a (rw (acats_under, e) at h) (refl, λ q. cc q, λ q. cc q, refl))
        | inr e ↦ elim (Bool-cases (not (is_business_unit completion.unit))) [
          | inl e' ↦ inl (
              returned-IsUndated _ a (rw (acats_under, e, e') at h)
                (refl, λ q. cc q, λ q. cc q, refl))
          | inr e' ↦ inr (
            c,
            refl,
            acats_dated-IsDated t today c validation completion a (rw (acats_under, e, e') at h),
          )
        ]
      ]

  -- Every assessment that `assess_acats` returns either has no due date, and then does not pass, says
  -- what is missing and reports no breach; or rests on a source in force on that day, on both rules
  -- and a calendar, has the due dates that these give in business days after the instruction and
  -- after the validation, and passes exactly if the transfer is in time against them.
  pub assess_acats_exact :
      (t : AcatsTransfer) (today : ℕ) (calendar : Option MarketCalendar) (table : RuleTable)
      (a : AcatsAssessment)
      → assess_acats year_of fuel t today calendar table ≡ some (ok a)
      → IsUndated a
        ⊎ ((c : MarketCalendar) × (validation : DeadlineRule) × (completion : DeadlineRule)
            × (validation_due : ℕ) × (is_in_force (find_source table.sources "finra-11870") today
                ≡ true)
            × (get table.rules validation_rule_id ≡ some validation)
            × (get table.rules completion_rule_id ≡ some completion)
            × (calendar ≡ some c)
            × IsDated t today c validation completion a
            × (a.validation_due ≡ some validation_due)
            × ((a.disposition ≡ pass)
                ↔ IsMet t.validation_on today validation_due a.completion_due))
  unfolding assess_acats
  assess_acats_exact t today calendar table a h =
      elim (Bool-cases (is_in_force (find_source table.sources "finra-11870") today)) [
        | inr e ↦
            inl (
              returned-IsUndated _ a (rw (assess_acats, e) at h) (refl, λ q. cc q, λ q. cc q, refl))
        | inl e ↦ elim (Option-cases (get table.rules validation_rule_id)) [
          | inl e' ↦
              inl (acats_without-IsUndated table.rules a (inl e') (rw (assess_acats, e, e') at h))
          | inr (validation, e') ↦ elim (Option-cases (get table.rules completion_rule_id)) [
            | inl e'' ↦ inl (
                acats_without-IsUndated table.rules a (inr e'')
                  (rw (assess_acats, e, e', e'') at h))
            | inr (completion, e'') ↦
                elim (acats_under-IsDated t today calendar validation completion a
                  (rw (assess_acats, e, e', e'') at h)) [
                    | inl without ↦ inl without
                    | inr (c, given, dated) ↦
                        let (due, at, passes) =
                          dated_exact t today c validation completion a dated in
                        inr (c, validation, completion, due, e, e', e'', given, dated, at, passes)
                  ]
          ]
        ]
      ]
