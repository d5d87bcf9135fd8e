-- ===== src/Rails/Cato/Checks.antt =====
-- The checks of `evaluate`, atreides/rails/cato_cash.py, in their order.
use project_atreides.Rails.Boundary.{Raw, member}
use project_atreides.Rails.Funding.{FundingState}
use project_atreides.Rails.Determination.{
  DeterminationOutcome, awaiting_determination, qualification_unknown, outcome_key,
}
use project_atreides.Rails.Cato.Rails.{CashRail, RailState, usable, is_unassessed}
use project_atreides.Rails.Cato.Inputs.{
  OperationContext, FreshnessPolicy, polices_anything, stale, Counterparty, CounterpartyStanding,
}
use project_atreides.Rails.Cato.Ladder.{
  RailStates, within_cap, is_ledger_final, is_ports, serviceable, or_else,
}
use project_atreides.Rails.Cato.Decision.{
  GateDecision, hold, escalate, ReasonCode, systemic_stress_escalate,
  material_magnitude_quorum_unavailable, unfunded_at_settlement_instant, risk_control_breach,
  broad_stress_hold, no_rail_in_window, unresolvable_finality, determination_pending,
  unassessed_revocation_authority, market_data_stale, settlement_perimeter_unassessed,
  counterparty_unassessed, counterparty_not_in_good_standing, counterparty_under_review,
  funding_indeterminate,
}
use project_atreides.Common.{
  ℕ, Bool, false, not, Option, none, some, any, is_some, ◌*◌, ◌&&◌, ◌||◌, if◌then◌else◌,
}
use project_atreides.Common.Int.{ℤ, pos, leb_ℤ, ltb_ℤ}
use project_atreides.Common.Key.{◌==◌}

-- `ofr_stlfsi4`: not a finite number, or so many units
pub data Reading : Type 0 where
  not_finite : Reading
  finite : ℤ → Reading

-- What a check that fires decides
abbrev pub Stop : Type 0
Stop = GateDecision × ReasonCode

abbrev pub stop_if : Bool → GateDecision → ReasonCode → Option Stop → Option Stop
stop_if test decision reason rest = if test then some (decision, reason) else rest

-- `FundingState.is_funded`
unfoldable pub is_funded : FundingState → Bool
is_funded f = leb_ℤ f.net_obligation f.projected_funded_position

abbrev pub stale_counterparty : Option Counterparty → Option ℤ → Bool
stale_counterparty none maximum = false
stale_counterparty (some c) maximum = stale c.assessed_age_seconds maximum

-- Check 0b
unfoldable pub stale_inputs :
    OperationContext → RailStates → Option ℤ → Option FreshnessPolicy → Bool
stale_inputs o rails stress_age none = false
stale_inputs o rails stress_age (some p) =
    polices_anything p
    && (stale stress_age p.max_stress_reading_age_seconds
        || any (λ e. stale (e.1).observed_age_seconds p.max_rail_state_age_seconds) rails
        || stale_counterparty o.counterparty p.max_counterparty_assessment_age_seconds)

-- Check 2b
abbrev pub standing_stop : CounterpartyStanding → Option Stop
standing_stop CounterpartyStanding.not_assessed = some (hold, counterparty_unassessed)
standing_stop CounterpartyStanding.in_good_standing = none
standing_stop CounterpartyStanding.under_review = some (escalate, counterparty_under_review)
standing_stop CounterpartyStanding.suspended = some (hold, counterparty_not_in_good_standing)
standing_stop CounterpartyStanding.defaulted = some (hold, counterparty_not_in_good_standing)

abbrev pub counterparty_stop : Option Counterparty → Option Stop
counterparty_stop none = none
counterparty_stop (some c) = standing_stop c.standing

-- Checks 3a, 3 and 4
unfoldable pub funding_stop : FundingState → Option Stop
unfolding is_funded
funding_stop f = stop_if (not f.position_is_assertable) hold funding_indeterminate (
    stop_if (not (is_funded f)) hold unfunded_at_settlement_instant (
      stop_if (ltb_ℤ f.net_debit_cap_headroom (pos 0) || not f.clearing_fund_sufficient) hold
        risk_control_breach none))

abbrev pub is_unlinked : OperationContext → Bool
is_unlinked o = not (is_some o.depository_linked_rail)

-- Whether a ledger-final rail is open and able to carry the operation, its perimeter aside
abbrev pub open_ledger_rail : OperationContext → CashRail × RailState → Bool
open_ledger_rail o (r, s) =
    not (is_ports r) && is_ledger_final (member r) && usable s && within_cap s.value_cap o.notional

abbrev pub can_carry : OperationContext → CashRail × RailState → Bool
can_carry o (r, s) = not (is_ports r) && serviceable s o

-- Check 6
unfoldable pub window_stop : OperationContext → RailStates → Option Stop
window_stop o rails =
    if is_unlinked o && not (any (can_carry o) rails)
    then some (
      hold,
      if is_unassessed o.settlement_perimeter
            && not o.within_business_hours
            && any (open_ledger_rail o) rails
          then settlement_perimeter_unassessed
          else no_rail_in_window,
    )
    else none

abbrev pub is_outcome : Raw DeterminationOutcome → DeterminationOutcome → Bool
is_outcome (member o) p = o == p
is_outcome _ p = false

-- Checks 7, 8 and 9
unfoldable pub finality_stop : OperationContext → Option Stop
finality_stop o = stop_if (not o.correspondent_finality_resolvable) hold unresolvable_finality (
    stop_if (is_outcome o.determination_outcome awaiting_determination) hold determination_pending (
      stop_if (is_outcome o.determination_outcome qualification_unknown) hold
        unassessed_revocation_authority none))

module _ (quarter : ℕ) where
  -- OFR_ESCALATE_THRESHOLD and OFR_HOLD_THRESHOLD
  abbrev pub above_escalate : ℤ → Bool
  above_escalate stress = ltb_ℤ (pos (4 * quarter)) stress

  abbrev pub above_hold : ℤ → Bool
  above_hold stress = ltb_ℤ (pos (2 * quarter)) stress

  -- The checks after the one that the reading is a number
  unfoldable pub checks :
      OperationContext
      → FundingState
      → RailStates
      → ℤ
      → Option ℤ
      → Option FreshnessPolicy
      → Option Stop
  unfolding stale_inputs funding_stop window_stop finality_stop
  checks o f rails stress stress_age policy =
      stop_if (stale_inputs o rails stress_age policy) hold market_data_stale (
        stop_if (above_escalate stress) escalate systemic_stress_escalate (
          stop_if o.is_material hold material_magnitude_quorum_unavailable (
            or_else (counterparty_stop o.counterparty) (
              or_else (funding_stop f) (
                stop_if (above_hold stress) hold broad_stress_hold
                  (or_else (window_stop o rails) (finality_stop o)))))))
