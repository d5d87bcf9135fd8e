-- ===== src/Rails/Cato/Gate/Funded.antt =====
-- atreides/rails/cato_cash.py and funding_state.py: the gate's funding checks on a projection.
use project_atreides.Rails.Funding.{
  FundingInputs, FundingState, project_funding, to_gate_input, settles,
}
use project_atreides.Rails.Funding.Dispositions.{gate_input-settles}
use project_atreides.Rails.Funding.Queue.{committed_at}
use project_atreides.Common.{true, none, arith, ◌≡◌, ◌↔◌}
use project_atreides.Common.Int.{◌≤ℤ◌, pos}
use project_atreides.Rails.Cato.Checks.{funding_stop, is_funded}

funding_stop-none_iff :
    (f : FundingState)
    → (funding_stop f ≡ none) ↔ (
        (f.position_is_assertable ≡ true)
        × (f.net_obligation ≤ℤ f.projected_funded_position)
        × (pos 0 ≤ℤ f.net_debit_cap_headroom)
        × (f.clearing_fund_sufficient ≡ true))
unfolding funding_stop is_funded
funding_stop-none_iff f = ground arith

-- The funding checks of the gate let a projection through exactly when its disposition settles and
-- the committed flows cover the obligation already at the settlement instant. A deferred-net leg
-- that is funded only at the close of its window is held.
pub funding_stop-settles :
    (i : FundingInputs)
    → (funding_stop (to_gate_input (project_funding i)) ≡ none) ↔ (
        (settles (project_funding i).disposition ≡ true)
        × (i.obligation ≤ℤ committed_at i i.settlement_offset))
funding_stop-settles i =
    let stops = funding_stop-none_iff (to_gate_input (project_funding i)) in
    let says = gate_input-settles i in (λ h. says.0 (stops.0 h), λ h. stops.1 (says.1 h))
