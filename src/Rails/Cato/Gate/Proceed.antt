-- ===== src/Rails/Cato/Gate/Proceed.antt =====
-- atreides/rails/cato_cash.py: what a PROCEED of `evaluate` says of its inputs.
use project_atreides.Common.{
  ℕ, refl, Bool, true, false, Option, none, some, arith, ◌*◌, ◌≡◌, ◌≢◌, subst, inl, inr,
  Option-cases, ok, Bool-cases, String, ◌∙◌,
}
use project_atreides.Common.Int.{◌≤ℤ◌, ℤ, pos}
use project_atreides.Rails.Cato.Inputs.{
  Counterparty, OperationContext, CounterpartyStanding, FreshnessPolicy,
}
use project_atreides.Rails.Boundary.{Raw, member, plain, other}
use project_atreides.Rails.Cato.Checks.{
  funding_stop, finality_stop, counterparty_stop, is_funded, is_outcome, Stop, stop_if, checks,
  window_stop, stale_inputs, above_hold, Reading, finite, above_escalate,
}
use project_atreides.Rails.Cato.Decision.{
  GateDecision, ReasonCode, proceed, hold, escalate, construct_decision, CatoCashDecision,
}
use project_atreides.Rails.Cato.Ladder.{or_else, RailStates}
use project_atreides.Rails.Funding.{FundingState}
use project_atreides.Rails.Determination.{
  DeterminationOutcome, awaiting_determination, qualification_unknown, outcome_key,
}
use project_atreides.Rails.Cato.Gate.{
  judge, select_rail, CashRail, recommend_rail, evaluate, held_early, unrecognised_operation,
  decided,
}

abbrev pub IsGoodStanding : Option Counterparty → Type 0
IsGoodStanding none = Unit
IsGoodStanding (some c) = c.standing ≡ CounterpartyStanding.in_good_standing

-- The operation, its funding and the reading pass every check before the rail is chosen.
abbrev pub IsClear : ℕ → OperationContext → FundingState → ℤ → Type 0
IsClear quarter o f stress =
    (o.is_material ≡ false)
    × IsGoodStanding o.counterparty
    × (f.position_is_assertable ≡ true)
    × (f.net_obligation ≤ℤ f.projected_funded_position)
    × (pos 0 ≤ℤ f.net_debit_cap_headroom)
    × (f.clearing_fund_sufficient ≡ true)
    × (stress ≤ℤ pos (2 * quarter))
    × (o.correspondent_finality_resolvable ≡ true)
    × (o.determination_outcome ≢ member awaiting_determination)
    × (o.determination_outcome ≢ member qualification_unknown)

is_outcome-false :
    (o : Raw DeterminationOutcome) (p : DeterminationOutcome)
    → is_outcome o p ≡ false
    → o ≢ member p
is_outcome-false (member o) p h e = ground (arith, outcome_key.eqb_iff o p)
is_outcome-false (plain s) p h e = cc e
is_outcome-false other p h e = cc e

counterparty_stop-none : (c : Option Counterparty) → counterparty_stop c ≡ none → IsGoodStanding c
counterparty_stop-none none h = tt
counterparty_stop-none (some c) h = ground arith

funding_stop-none :
    (f : FundingState)
    → funding_stop f ≡ none
    → (f.position_is_assertable ≡ true)
      × (f.net_obligation ≤ℤ f.projected_funded_position)
      × (pos 0 ≤ℤ f.net_debit_cap_headroom)
      × (f.clearing_fund_sufficient ≡ true)
unfolding funding_stop is_funded
funding_stop-none f h = ground arith

finality_stop-none :
    (o : OperationContext)
    → finality_stop o ≡ none
    → (o.correspondent_finality_resolvable ≡ true)
      × (is_outcome o.determination_outcome awaiting_determination ≡ false)
      × (is_outcome o.determination_outcome qualification_unknown ≡ false)
unfolding finality_stop
finality_stop-none o h = ground arith

stop_if-none :
    (test : Bool) (d : GateDecision) (reason : ReasonCode) (rest : Option Stop)
    → stop_if test d reason rest ≡ none
    → (test ≡ false) × (rest ≡ none)
stop_if-none true d reason rest h = ground arith
stop_if-none false d reason rest h = (refl, h)

pub or_else-none : {A : Type 0} (a b : Option A) → or_else a b ≡ none → (a ≡ none) × (b ≡ none)
or_else-none none b h = (refl, h)
or_else-none (some a) b h = cc h

calm_below :
    (quarter : ℕ) (stress : ℤ) → above_hold quarter stress ≡ false → stress ≤ℤ pos (2 * quarter)
calm_below quarter stress h = ground arith

pub checks-none :
    (quarter : ℕ) (o : OperationContext) (f : FundingState) (rails : RailStates) (stress : ℤ)
    (age : Option ℤ) (policy : Option FreshnessPolicy)
    → checks quarter o f rails stress age policy ≡ none
    → (stale_inputs o rails age policy ≡ false)
      × IsClear quarter o f stress
      × (window_stop o rails ≡ none)
unfolding checks
checks-none quarter o f rails stress age policy h =
    let (fresh, h1) = stop_if-none _ _ _ _ h in
    let (calm, h2) = stop_if-none _ _ _ _ h1 in
    let (routine, h3) = stop_if-none _ _ _ _ h2 in
    let (standing, h4) = or_else-none _ _ h3 in
    let (funds, h5) = or_else-none _ _ h4 in
    let (below, h6) = stop_if-none _ _ _ _ h5 in
    let (window, finality) = or_else-none _ _ h6 in
    let (assertable, covered, capped, posted) = funding_stop-none f funds in
    let (resolvable, determined, assessed) = finality_stop-none o finality in
    (
      fresh,
      (
        routine,
        counterparty_stop-none o.counterparty standing,
        assertable,
        covered,
        capped,
        posted,
        calm_below _ _ below,
        resolvable,
        is_outcome-false _ _ determined,
        is_outcome-false _ _ assessed,
      ),
      window,
    )

-- No check that fires proceeds.
IsStop : Option Stop → Type 0
IsStop none = Unit
IsStop (some stop) = stop.0 ≢ proceed

none-IsStop : IsStop none
unfolding IsStop
none-IsStop = tt

hold_stops : hold ≢ proceed
hold_stops e = cc e

escalate_stops : escalate ≢ proceed
escalate_stops e = cc e

stop_if-IsStop :
    (test : Bool) (d : GateDecision) (reason : ReasonCode) (rest : Option Stop)
    → d ≢ proceed
    → IsStop rest
    → IsStop (stop_if test d reason rest)
unfolding IsStop
stop_if-IsStop true d reason rest hd hr = hd
stop_if-IsStop false d reason rest hd hr = hr

or_else-IsStop : (a b : Option Stop) → IsStop a → IsStop b → IsStop (or_else a b)
unfolding IsStop
or_else-IsStop none b ha hb = hb
or_else-IsStop (some a) b ha hb = ha

counterparty_stop-IsStop : (c : Option Counterparty) → IsStop (counterparty_stop c)
unfolding IsStop
counterparty_stop-IsStop none = tt
counterparty_stop-IsStop (some c) = ground arith

window_stop-IsStop : (o : OperationContext) (rails : RailStates) → IsStop (window_stop o rails)
unfolding IsStop window_stop
window_stop-IsStop o rails = ground arith

funding_stop-IsStop : (f : FundingState) → IsStop (funding_stop f)
unfolding IsStop funding_stop
funding_stop-IsStop f = ground arith

finality_stop-IsStop : (o : OperationContext) → IsStop (finality_stop o)
unfolding IsStop finality_stop
finality_stop-IsStop o = ground arith

checks-IsStop :
    (quarter : ℕ) (o : OperationContext) (f : FundingState) (rails : RailStates) (stress : ℤ)
    (age : Option ℤ) (policy : Option FreshnessPolicy)
    → IsStop (checks quarter o f rails stress age policy)
unfolding checks
checks-IsStop quarter o f rails stress age policy =
    stop_if-IsStop (stale_inputs o rails age policy) _ _ _ hold_stops (
      stop_if-IsStop (above_escalate quarter stress) _ _ _ escalate_stops (
        stop_if-IsStop o.is_material _ _ _ hold_stops (
          or_else-IsStop _ _ (counterparty_stop-IsStop o.counterparty) (
            or_else-IsStop _ _ (funding_stop-IsStop f) (
              stop_if-IsStop (above_hold quarter stress) _ _ _ hold_stops
                (or_else-IsStop _ _ (window_stop-IsStop o rails) (finality_stop-IsStop o)))))))

-- What `judge` says when it proceeds.
pub judge-proceed :
    (quarter : ℕ) (o : OperationContext) (f : FundingState) (rails : RailStates) (reading : Reading)
    (age : Option ℤ) (policy : Option FreshnessPolicy)
    → (judge quarter o f rails reading age policy).0 ≡ proceed
    → (stress : ℤ) × (r : CashRail) × (reading ≡ finite stress)
      × (checks quarter o f rails stress age policy ≡ none)
      × (recommend_rail quarter o rails stress ≡ some r)
      × ((judge quarter o f rails reading age policy).2 ≡ some r)
unfolding judge select_rail IsStop
judge-proceed quarter o f rails Reading.not_finite age policy h = cc h
judge-proceed quarter o f rails (finite stress) age policy h =
    elim (Option-cases (checks quarter o f rails stress age policy)) [
      | inl none_fires ↦ elim (Option-cases (recommend_rail quarter o rails stress)) [
        | inl no_rail ↦ absurd (hold_stops (rw (judge, none_fires, select_rail, no_rail) at h))
        | inr (r, chosen) ↦
            (stress, r, refl, none_fires, chosen, rw (judge, none_fires, select_rail, chosen) refl)
      ]
      | inr (stop, fires) ↦ absurd (
          subst IsStop fires (checks-IsStop quarter o f rails stress age policy)
            (rw (judge, fires) at h))
    ]

module _ (quarter : ℕ) (parse_id : String → Option String) where
  construct_decision-ok :
      (c d : CatoCashDecision)
      → construct_decision parse_id c ≡ ok d
      → (c.decision ≡ d.decision) × (c.recommended_rail ≡ d.recommended_rail)
  unfolding construct_decision
  construct_decision-ok c d h = ground arith

  -- A PROCEED comes from `judge`.
  pub evaluate-judge :
      (o : OperationContext) (f : FundingState) (rails : RailStates) (reading : Reading)
      (age : Option ℤ) (policy : Option FreshnessPolicy) (id digest : Option String) (halted : Bool)
      (d : CatoCashDecision)
      → evaluate quarter parse_id o f rails reading age policy id digest halted ≡ ok d
      → d.decision ≡ proceed
      → (halted ≡ false)
        × (unrecognised_operation o ≡ false)
        × ((judge quarter o f rails reading age policy).0 ≡ proceed)
        × ((judge quarter o f rails reading age policy).2 ≡ d.recommended_rail)
  unfolding evaluate held_early decided
  evaluate-judge o f rails reading age policy id digest true d h p =
      absurd (hold_stops ((construct_decision-ok _ d h).0 ∙ p))
  evaluate-judge o f rails reading age policy id digest false d h p =
      elim (Bool-cases (unrecognised_operation o)) [
        | inl e ↦ absurd (hold_stops ((construct_decision-ok _ d (rw e at h)).0 ∙ p))
        | inr e ↦
            let (same, rail) = construct_decision-ok _ d (rw e at h) in (refl, e, same ∙ p, rail)
      ]

  -- When `evaluate` returns a PROCEED, no halt blocks it, the operation's enums are recognised, the
  -- stress reading is a number at or under the hold threshold, no policed input is stale, the
  -- operation is not material, a named counterparty is in good standing, the funding position is
  -- assertable and covers the net obligation, the net-debit cap has headroom, the clearing fund is
  -- sufficient, the correspondent's finality is resolvable, and the determination neither is awaited
  -- nor stands unassessed.
  pub proceed-IsClear :
      (o : OperationContext) (f : FundingState) (rails : RailStates) (reading : Reading)
      (age : Option ℤ) (policy : Option FreshnessPolicy) (id digest : Option String) (halted : Bool)
      (d : CatoCashDecision)
      → evaluate quarter parse_id o f rails reading age policy id digest halted ≡ ok d
      → d.decision ≡ proceed
      → (halted ≡ false)
        × (unrecognised_operation o ≡ false)
        × (stale_inputs o rails age policy ≡ false)
        × ((stress : ℤ) × (reading ≡ finite stress) × IsClear quarter o f stress)
  proceed-IsClear o f rails reading age policy id digest halted d h p =
      let (free, known, judged, same) =
        evaluate-judge o f rails reading age policy id digest halted d h p in
      let (stress, r, read, quiet, chosen, rail) =
        judge-proceed quarter o f rails reading age policy judged in
      let (fresh, clear, window) = checks-none quarter o f rails stress age policy quiet in
      (free, known, fresh, (stress, read, clear))
