-- ===== src/Rails/Funding/Records.antt =====
-- The records of atreides/rails/funding_state.py. Offsets are integers; amounts are Decimals of one
-- exponent, as integers. The rationale texts and the version constant are not modelled.
use project_atreides.Common.{String, List, Bool, true, false, Option, not, ◌||◌}
use project_atreides.Common.Int.{ℤ, leb_ℤ}
use project_atreides.Common.Key.{int_key}
use project_atreides.Rails.Finality
use project_atreides.Rails.Finality.{FinalityClass, finality_key}
use project_atreides.Rails.Boundary.{Raw, coerce_member, recognised}
use project_atreides.Rails.Determination.{
  DeterminationOutcome, outcome_key, outcome_members, outcome_value,
}

pub data FundingDisposition : Type 0 where
  funded funded_qualified will_queue will_fail cap_breach : FundingDisposition
  clearing_fund_deficient indeterminate : FundingDisposition

pub record CashFlow : Type 0 where
  pub offset : ℤ
  pub amount : ℤ
  pub label : String
  pub committed : Bool
  pub offset_is_certain : Bool

pub record LadderPoint : Type 0 where
  pub offset : ℤ
  pub position : ℤ
  pub label : String

pub record FundingInputs : Type 0 where
  pub opening_position : ℤ
  pub obligation : ℤ
  pub finality_class : Raw FinalityClass
  pub settlement_offset : ℤ
  pub window_close_offset : Option ℤ
  pub flows : List CashFlow
  pub net_debit_cap : Option ℤ
  pub clearing_fund_requirement : ℤ
  pub clearing_fund_posted : ℤ
  pub determination_outcome : Raw DeterminationOutcome

-- `FundingInputs.__post_init__`, on the fields that the constructor was given
unfoldable pub construct : FundingInputs → FundingInputs
construct i = record i {
  finality_class = coerce_member Finality.value Finality.members i.finality_class;
  determination_outcome = coerce_member outcome_value outcome_members i.determination_outcome;
}

-- `unrecognised_fields`, as whether it is not empty
unfoldable pub has_unrecognised : FundingInputs → Bool
has_unrecognised i = not (recognised i.finality_class) || not (recognised i.determination_outcome)

unfoldable pub clearing_fund_sufficient : FundingInputs → Bool
clearing_fund_sufficient i = leb_ℤ i.clearing_fund_requirement i.clearing_fund_posted

-- The fields of `FundingState` that `to_gate_input` fills
pub record FundingState : Type 0 where
  pub projected_funded_position : ℤ
  pub net_obligation : ℤ
  pub net_debit_cap_headroom : ℤ
  pub clearing_fund_sufficient : Bool
  pub position_is_assertable : Bool

pub record FundingProjection : Type 0 where
  pub disposition : FundingDisposition
  pub projected_position : ℤ
  pub optimistic_position : ℤ
  pub obligation : ℤ
  pub shortfall : ℤ
  pub net_debit_cap_headroom : ℤ
  pub clearing_fund_sufficient : Bool
  pub funded_at_offset : Option ℤ
  pub ladder : List LadderPoint
  pub determination_outcome : DeterminationOutcome

unfoldable pub settles : FundingDisposition → Bool
settles funded = true
settles funded_qualified = true
settles _ = false

unfoldable pub is_failure : FundingDisposition → Bool
is_failure will_fail = true
is_failure cap_breach = true
is_failure clearing_fund_deficient = true
is_failure _ = false

abbrev pub is_indeterminate : FundingDisposition → Bool
is_indeterminate indeterminate = true
is_indeterminate _ = false

unfoldable pub to_gate_input : FundingProjection → FundingState
to_gate_input p = record {
  projected_funded_position = p.projected_position;
  net_obligation = p.obligation;
  net_debit_cap_headroom = p.net_debit_cap_headroom;
  clearing_fund_sufficient = p.clearing_fund_sufficient;
  position_is_assertable = not (is_indeterminate p.disposition);
}
