-- ===== src/Rails/Cato/Gate.antt =====
-- `evaluate` of atreides/rails/cato_cash.py: the selection of the rail, and the decision.
-- The amounts of its inputs are finite; a Decimal NaN, on which a comparison raises, is no input here.
mod Choice
pub mod Proceed
pub mod Carries
pub mod Funded
pub mod Binding
use project_atreides.Rails.Boundary.{Raw, member}
use project_atreides.Rails.Funding.{FundingState}
use project_atreides.Rails.Determination.{
  DeterminationOutcome, obligation_finality_class, outcome_key,
}
use project_atreides.Rails.Finality.{FinalityClass}
use project_atreides.Rails.Cato.Rails.{CashRail, rail_finality, SettlementPerimeter}
use project_atreides.Rails.Cato.Inputs.{OperationContext, unrecognised_operation, FreshnessPolicy}
use project_atreides.Rails.Cato.Ladder.{RailStates, recommend_rail}
use project_atreides.Rails.Cato.Decision.{
  GateDecision, proceed, hold, ReasonCode, CatoCashDecision, DecisionError, construct_decision,
  no_rail_in_window, stress_reading_unusable, halt_active, input_unrecognised, cleared,
  gate_unavailable,
}
use project_atreides.Common.{ℕ, Bool, Option, none, some, Result, String, if◌then◌else◌}
use project_atreides.Common.Int.{ℤ}
use project_atreides.Rails.Cato.Checks.{finite, not_finite, checks, Reading}

module _ (quarter : ℕ) where
  -- Check 10
  unfoldable pub select_rail :
      OperationContext → RailStates → ℤ → GateDecision × ReasonCode × Option CashRail
  select_rail o rails stress = elim (recommend_rail quarter o rails stress) [
    | none ↦ (hold, no_rail_in_window, none)
    | some r ↦ (proceed, cleared, some r)
  ]

  unfoldable pub judge :
      OperationContext
      → FundingState
      → RailStates
      → Reading
      → Option ℤ
      → Option FreshnessPolicy
      → GateDecision × ReasonCode × Option CashRail
  unfolding checks select_rail
  judge o f rails not_finite stress_age policy = (hold, stress_reading_unusable, none)
  judge o f rails (finite stress) stress_age policy =
      elim (checks quarter o f rails stress stress_age policy) [
        | some (decision, reason) ↦ (decision, reason, none)
        | none ↦ select_rail o rails stress
      ]

abbrev pub finality_of : Option CashRail → Option FinalityClass
finality_of none = none
finality_of (some r) = some (rail_finality r)

-- `obligation_finality_class`, on the outcome of a recognised operation
abbrev pub obligation_class : Raw DeterminationOutcome → Option FinalityClass
obligation_class (member o) = obligation_finality_class o
obligation_class _ = none

-- `_decide`
unfoldable pub decided :
    OperationContext
    → Option String
    → Option String
    → GateDecision × ReasonCode × Option CashRail
    → CatoCashDecision
decided o id digest (decision, reason, rail) = record {
  decision = decision;
  reason_code = reason;
  recommended_rail = rail;
  finality_class = finality_of rail;
  evaluated_notional = some o.notional;
  evaluated_currency = some o.currency;
  obligation_finality_class = obligation_class o.determination_outcome;
  settlement_perimeter = o.settlement_perimeter;
  obligation_id = id;
  obligation_digest = digest;
}

-- A decision of the two checks before `_decide` is defined
unfoldable pub held_early :
    OperationContext → Option String → Option String → ReasonCode → CatoCashDecision
held_early o id digest reason = record {
  decision = hold;
  reason_code = reason;
  recommended_rail = none;
  finality_class = none;
  evaluated_notional = some o.notional;
  evaluated_currency = some o.currency;
  obligation_finality_class = none;
  settlement_perimeter = member SettlementPerimeter.not_assessed;
  obligation_id = id;
  obligation_digest = digest;
}

-- `halted` is whether the kernel package's `gate_under_halt` blocks Atreides under the halt given.
module _ (quarter : ℕ) (parse_id : String → Option String) where
  unfoldable pub evaluate :
      OperationContext
      → FundingState
      → RailStates
      → Reading
      → Option ℤ
      → Option FreshnessPolicy
      → Option String
      → Option String
      → Bool
      → Result DecisionError CatoCashDecision
  unfolding judge decided held_early
  evaluate o f rails reading stress_age policy id digest halted = construct_decision parse_id (
      if halted
      then held_early o id digest halt_active
      else if unrecognised_operation o
      then held_early o id digest input_unrecognised
      else decided o id digest (judge quarter o f rails reading stress_age policy))

-- `absent_gate_decision`
unfoldable pub absent_gate_decision : CatoCashDecision
absent_gate_decision = record {
  decision = hold;
  reason_code = gate_unavailable;
  recommended_rail = none;
  finality_class = none;
  evaluated_notional = none;
  evaluated_currency = none;
  obligation_finality_class = none;
  settlement_perimeter = member SettlementPerimeter.not_assessed;
  obligation_id = none;
  obligation_digest = none;
}
