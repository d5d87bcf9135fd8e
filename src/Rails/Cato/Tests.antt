-- ===== src/Rails/Cato/Tests.antt =====
-- Runs of the gate of atreides/rails/cato_cash.py, with its golden vectors, and its theorems at them.
use project_atreides.Rails.Funding.{
  FundingInputs, FundingState, project_funding, to_gate_input, settles,
}
use project_atreides.Rails.Finality.{deferred_net, finality_key, correspondent_dependent}
use project_atreides.Rails.Determination.{outcome_key, obligation_finality_class, not_applicable}
use project_atreides.Rails.Cato.Inputs.{polices_anything, OperationContext, unrecognised_operation}
use project_atreides.Rails.Cato.Rails.{
  SettlementPerimeter, rail_key, ports_wholesale, CashRail, RailState, fedwire, tokenized_deposit,
  available, chips, fednow, not_yet_issued, usable, continuously_available, is_on_us,
}
use project_atreides.Common.{
  String, true, false, Option, none, some, ℕ, refl, [], Result, ok, err, ◌≡◌, ◌∷◌, if◌then◌else◌,
  inl, inr, is_ok, Member, ◌≢◌, ◌↔◌, ◌⊎◌,
}
use project_atreides.Common.Int.{ℤ, pos, ◌≤ℤ◌}
use project_atreides.Common.Key.{◌==◌, string_key}
use project_atreides.Rails.Cato.Ladder.{
  recommend_linked, linked_blocked, RailStates, recommend_rail, ladder, stress_rule, material_rule,
  window_rule, tokenized_rule, default_rule, prefer, first_serviceable, serviceable, usable_rails,
}
use project_atreides.Rails.Cato.Gate.{
  evaluate, judge, select_rail, finality_of, held_early, decided,
}
use project_atreides.Rails.Cato.Checks.{
  finite, Reading, checks, stale_inputs, funding_stop, window_stop, finality_stop, is_funded,
  not_finite,
}
use project_atreides.Rails.Cato.Decision.{
  DecisionError, CatoCashDecision, escalate, hold, proceed, GateDecision, systemic_stress_escalate,
  broad_stress_hold, cleared, ReasonCode, construct_decision,
}
use project_atreides.Rails.Boundary.{member, Raw}
use project_atreides.Common.Dict.{lookup}
use project_atreides.Common.Sort.{sorted, place}
use project_atreides.Rails.Cato.Gate.Carries.{IsKeyed, IsOpen, proceed-serviceable, proceed-IsOpen}
use project_atreides.Rails.Cato.Gate.Proceed.{IsClear, proceed-IsClear}
use project_atreides.Rails.Funding.Queue.{committed_at}
use project_atreides.Rails.Cato.Gate.Binding.{is_ok-evaluate}
use project_atreides.Rails.Cato.Gate.Funded.{funding_stop-settles}
use project_atreides.Rails.Cato.Digest.{is_digest}

-- 100 units make 0.25.
abbrev unit : ℕ
unit = 100

abbrev read_any : String → Option String
read_any s = if s == "" then none else some s

abbrev open_rail : CashRail → Option ℤ → Option ℤ → RailState
open_rail r cutoff cap = record {
  rail = member r;
  status = member available;
  seconds_to_cutoff = cutoff;
  value_cap = cap;
  observed_age_seconds = none;
}

abbrev std_rails : RailStates
std_rails =
    (fedwire, open_rail fedwire (some (pos 7200)) none)
    ∷ (chips, open_rail chips (some (pos 7200)) none)
    ∷ (fednow, open_rail fednow none (some (pos 10000000)))
    ∷ (
      ports_wholesale,
      record (open_rail ports_wholesale none none) { status = member not_yet_issued },
    )
    ∷ []

abbrev token_rails : RailStates
token_rails =
    (tokenized_deposit, open_rail tokenized_deposit none none)
    ∷ (chips, open_rail chips (some (pos 7200)) none)
    ∷ []

abbrev op : OperationContext
op = record {
  notional = pos 1000;
  currency = "USD";
  is_material = false;
  is_lvps_material = false;
  is_fx_leg = false;
  pvp_available = false;
  depository_linked_rail = none;
  correspondent_finality_resolvable = true;
  tokenized_deposit_supported = false;
  within_business_hours = true;
  determination_outcome = member not_applicable;
  counterparty = none;
  settlement_perimeter = member SettlementPerimeter.not_assessed;
}

abbrev night_op : OperationContext
night_op = record op { tokenized_deposit_supported = true; within_business_hours = false }

abbrev funds : FundingState
funds = record {
  projected_funded_position = pos 5000;
  net_obligation = pos 1000;
  net_debit_cap_headroom = pos 100;
  clearing_fund_sufficient = true;
  position_is_assertable = true;
}

-- Opens the code of the gate in the runs below.
all_gate : Unit {0}
unfolding evaluate judge checks select_rail recommend_rail ladder stress_rule material_rule
    window_rule tokenized_rule default_rule prefer first_serviceable serviceable usable
    continuously_available usable_rails lookup stale_inputs funding_stop window_stop finality_stop
    is_funded unrecognised_operation construct_decision held_early decided sorted place
    polices_anything recommend_linked linked_blocked obligation_finality_class
all_gate = tt

abbrev run_gate : OperationContext → RailStates → Reading → Result DecisionError CatoCashDecision
run_gate o rails reading = evaluate unit read_any o funds rails reading none none none none false

abbrev on_rail : OperationContext → CashRail → CatoCashDecision
on_rail o r = record {
  decision = proceed;
  reason_code = cleared;
  recommended_rail = some r;
  finality_class = finality_of (some r);
  evaluated_notional = some o.notional;
  evaluated_currency = some o.currency;
  obligation_finality_class = none;
  settlement_perimeter = o.settlement_perimeter;
  obligation_id = none;
  obligation_digest = none;
}

-- The golden vectors
clear_proceed_default_fedwire : run_gate op std_rails (finite (pos 0)) ≡ ok (on_rail op fedwire)
unfolding all_gate
clear_proceed_default_fedwire = refl

abbrev reason_of : Result DecisionError CatoCashDecision → Option (GateDecision × ReasonCode)
reason_of (ok d) = some (d.decision, d.reason_code)
reason_of (err e) = none

systemic_stress_escalates :
    reason_of (run_gate op std_rails (finite (pos 600))) ≡ some (escalate, systemic_stress_escalate)
unfolding all_gate
systemic_stress_escalates = refl

broad_stress_holds :
    reason_of (run_gate op std_rails (finite (pos 300))) ≡ some (hold, broad_stress_hold)
unfolding all_gate
broad_stress_holds = refl

-- Out of hours, with the perimeter not assessed: the token is not serviceable, and is chosen.
night_token :
    run_gate night_op token_rails (finite (pos 0)) ≡ ok (on_rail night_op tokenized_deposit)
unfolding all_gate
night_token = refl

token_rails-IsKeyed : IsKeyed token_rails
token_rails-IsKeyed r s (inl e) = cc e
token_rails-IsKeyed r s (inr (inl e)) = cc e
token_rails-IsKeyed r s (inr (inr m)) = absurd m

proceed-IsClear_example :
    (false ≡ false)
    × (unrecognised_operation op ≡ false)
    × (stale_inputs op std_rails none none ≡ false)
    × ((stress : ℤ) × (finite (pos 0) ≡ finite stress) × IsClear unit op funds stress)
proceed-IsClear_example =
    proceed-IsClear unit read_any op funds std_rails (finite (pos 0)) none none none none false
      (on_rail op fedwire) clear_proceed_default_fedwire refl

proceed-IsOpen_example :
    (r : CashRail) × (s : RailState) × (some tokenized_deposit ≡ some r)
    × IsOpen night_op token_rails r s
    × (r ≢ ports_wholesale)
    × ((l : Raw CashRail) → night_op.depository_linked_rail ≡ some l → l ≡ member r)
proceed-IsOpen_example =
    proceed-IsOpen unit read_any night_op funds token_rails (finite (pos 0)) none none none none
      false (on_rail night_op tokenized_deposit) night_token refl

proceed-serviceable_example :
    (r : CashRail) × (s : RailState) × (some tokenized_deposit ≡ some r)
    × Member (r, s) token_rails
    × ((serviceable s night_op ≡ true)
        ⊎ ((night_op.depository_linked_rail ≡ none)
            × (r ≡ tokenized_deposit)
            × (night_op.within_business_hours ≡ false)
            × (is_on_us night_op.settlement_perimeter ≡ false)))
proceed-serviceable_example =
    proceed-serviceable unit read_any night_op funds token_rails (finite (pos 0)) none none none
      none false (on_rail night_op tokenized_deposit) token_rails-IsKeyed night_token refl

is_ok-evaluate_example :
    is_ok (evaluate unit read_any op funds std_rails not_finite none none (some "OBL-1") none false)
    ≡ false
is_ok-evaluate_example =
    is_ok-evaluate unit read_any op funds std_rails not_finite none none (some "OBL-1") none false

digest_well_formed :
    is_digest "sha256:0123456789abcdef0123456789abcdef0123456789abcdef0123456789abcdef" ≡ true
unfolding is_digest
digest_well_formed = refl

digest_newline_accepted :
    is_digest "sha256:0123456789abcdef0123456789abcdef0123456789abcdef0123456789abcdef\n" ≡ true
unfolding is_digest
digest_newline_accepted = refl

digest_upper_case_refused :
    is_digest "sha256:0123456789ABCDEF0123456789abcdef0123456789abcdef0123456789abcdef" ≡ false
unfolding is_digest
digest_upper_case_refused = refl

-- Funded at the close of its window, and short at the settlement instant
abbrev late_leg : FundingInputs
late_leg = record {
  opening_position = pos 30;
  obligation = pos 100;
  finality_class = member deferred_net;
  settlement_offset = pos 10;
  window_close_offset = some (pos 90);
  flows =
      record {
        offset = pos 60;
        amount = pos 80;
        label = "receivable";
        committed = true;
        offset_is_certain = true;
      }
      ∷ [];
  net_debit_cap = none;
  clearing_fund_requirement = pos 0;
  clearing_fund_posted = pos 0;
  determination_outcome = member not_applicable;
}

funding_stop-settles_example : (funding_stop (to_gate_input (project_funding late_leg)) ≡ none) ↔ (
    (settles (project_funding late_leg).disposition ≡ true)
    × (late_leg.obligation ≤ℤ committed_at late_leg late_leg.settlement_offset))
funding_stop-settles_example = funding_stop-settles late_leg

-- No answer on a rail whose finality is not observable
abbrev unseen_leg : FundingInputs
unseen_leg = record late_leg { finality_class = member correspondent_dependent }
