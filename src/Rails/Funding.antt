-- ===== src/Rails/Funding.antt =====
-- atreides/rails/funding_state.py: whether a cash leg can settle, and what a shortfall means on each
-- finality class. `Records` has the data and `Position` the arithmetic of the flows. Amounts
-- are finite and sums exact, as the code's are while they have at most 28 digits.
mod Records
mod Position
pub mod Queue
pub mod Dispositions
mod Tests
pub use Records.{
  FundingDisposition, CashFlow, LadderPoint, FundingInputs, FundingState, FundingProjection, funded,
  funded_qualified, will_queue, will_fail, cap_breach, clearing_fund_deficient, indeterminate,
}
unfoldable pub use Records.{
  construct, has_unrecognised, clearing_fund_sufficient, settles, is_failure, is_indeterminate,
  to_gate_input,
}
unfoldable pub use Position.{
  position_at, by_offset_label, flow_le, point_le, run_ladder, settlement_position, build_ladder,
  timed_flows, lowest, cap_trough, committed_offsets, past, first_funded, candidates,
  first_funded_offset, shortfall_of, headroom_under, headroom,
}
use project_atreides.Common.{
  Bool, true, false, Option, some, none, if◌then◌else◌, not, ◌&&◌, ◌||◌, is_some,
}
use project_atreides.Common.Int.{ℤ, pos, leb_ℤ, ltb_ℤ, eqb_ℤ}
use project_atreides.Common.Key.{int_key}
use project_atreides.Rails.Finality
use project_atreides.Rails.Finality.{
  deferred_net, ledger_final, correspondent_dependent, determination_dependent, finality_key,
}
use project_atreides.Rails.Boundary.{Raw, member, plain, other, is_member}
use project_atreides.Rails.Determination.{
  DeterminationOutcome, awaiting_determination, qualified_bounded, qualified_unbounded,
  qualification_unknown, outcome_key,
}

abbrev pub recorded_outcome : Raw DeterminationOutcome → DeterminationOutcome
recorded_outcome (member o) = o
recorded_outcome (plain _) = qualification_unknown
recorded_outcome other = qualification_unknown

-- The inner function `build`
pub build : FundingInputs → FundingDisposition → Option ℤ → FundingProjection
build i d funded_at = record {
  disposition = d;
  projected_position = settlement_position i;
  optimistic_position = position_at i.opening_position i.flows i.settlement_offset false;
  obligation = i.obligation;
  shortfall = shortfall_of i;
  net_debit_cap_headroom = headroom i;
  clearing_fund_sufficient = clearing_fund_sufficient i;
  funded_at_offset = funded_at;
  ladder = build_ladder i;
  determination_outcome = recorded_outcome i.determination_outcome;
}

abbrev pub is_qualified : Raw DeterminationOutcome → Bool
is_qualified o =
    is_member o qualified_bounded
    || is_member o qualified_unbounded
    || is_member o qualification_unknown

-- The inner function `build_funded`
pub funded_disposition : FundingInputs → FundingDisposition
funded_disposition i =
    if not (is_qualified i.determination_outcome) then funded else funded_qualified

-- The position that a deferred-net rail settles on
pub position_at_finality : FundingInputs → ℤ
position_at_finality i = elim i.window_close_offset [
  | none ↦ settlement_position i
  | some close ↦ position_at i.opening_position i.flows close true
]

abbrev pub queue_or_fail : Option ℤ → FundingDisposition × Option ℤ
queue_or_fail (some t) = (will_queue, some t)
queue_or_fail none = (will_fail, none)

-- Step 6: short at the instant
pub when_short : FundingInputs → FundingDisposition × Option ℤ
when_short i =
    if is_member i.finality_class deferred_net
    then (
      if leb_ℤ i.obligation (position_at_finality i) then funded_disposition i else will_fail,
      none,
    )
    else if is_member i.finality_class ledger_final
    then (will_fail, none)
    else queue_or_fail (first_funded_offset i)

-- The ladder of checks of `project_funding`, in its order
pub decide_funding : FundingInputs → FundingDisposition × Option ℤ
decide_funding i =
    if has_unrecognised i
    then (indeterminate, none)
    else if is_member i.finality_class determination_dependent
    then (indeterminate, none)
    else if not (clearing_fund_sufficient i)
    then (clearing_fund_deficient, none)
    else if is_some i.net_debit_cap && ltb_ℤ (headroom i) (pos 0)
    then (cap_breach, none)
    else if is_member i.determination_outcome awaiting_determination
    then (indeterminate, none)
    else if is_member i.finality_class correspondent_dependent
    then (indeterminate, none)
    else if eqb_ℤ (shortfall_of i) (pos 0)
    then (funded_disposition i, none)
    else when_short i

pub project_funding : FundingInputs → FundingProjection
project_funding i = let (d, funded_at) = decide_funding i in build i d funded_at
