-- ===== src/Rails/Funding/Tests.antt =====
-- Runs of `project_funding`, atreides/rails/funding_state.py, and its theorems at them.
use project_atreides.Common.Sort.{sorted, place}
use project_atreides.Rails.Finality.{gross_final}
use project_atreides.Rails.Boundary.{member, plain, coerce_member}
use project_atreides.Rails.Determination.{not_applicable, qualified_bounded}
use project_atreides.Rails.Funding.{
  FundingInputs, CashFlow, project_funding, past, clearing_fund_sufficient, build,
  position_at_finality, decide_funding, headroom, has_unrecognised, cap_trough, construct,
  settlement_position, shortfall_of, when_short, first_funded_offset, position_at, lowest,
  timed_flows, flow_le, build_ladder, run_ladder, point_le, funded_disposition, will_queue,
  will_fail, settles, indeterminate,
}
use project_atreides.Rails.Funding.Dispositions.{
  will_queue_exact, will_fail_exact, settles_exact, IsOpenToFunding, IsCovered,
  qualification_only_marks, mark_qualified,
}
use project_atreides.Common.{ℕ, refl, true, false, none, some, [], arith, ◌≡◌, ◌∷◌, ◌↔◌}
use project_atreides.Common.Int.{◌+ℤ◌, ◌-ℤ◌, ◌≤ℤ◌, ◌<ℤ◌, ℤ, pos}
use project_atreides.Rails.Funding.Queue.{committed_at}

abbrev inflow : ℕ → ℕ → CashFlow
inflow at amount = record {
  offset = pos at;
  amount = pos amount;
  label = "receivable";
  committed = true;
  offset_is_certain = true;
}

abbrev leg : FundingInputs
leg = record {
  opening_position = pos 30;
  obligation = pos 100;
  finality_class = member gross_final;
  settlement_offset = pos 10;
  window_close_offset = some (pos 90);
  flows = inflow 60 40 ∷ inflow 40 50 ∷ inflow 95 900 ∷ [];
  net_debit_cap = none;
  clearing_fund_requirement = pos 0;
  clearing_fund_posted = pos 0;
  determination_outcome = member not_applicable;
}

abbrev short_leg : FundingInputs
short_leg = record leg { obligation = pos 200 }

abbrev funded_leg : FundingInputs
funded_leg = record leg { obligation = pos 20; net_debit_cap = some (pos 5) }

-- Opens the code of the model in the runs below.
all_code : Unit {0}
unfolding project_funding build decide_funding has_unrecognised clearing_fund_sufficient headroom
    cap_trough settlement_position shortfall_of when_short first_funded_offset position_at lowest
    position_at_finality timed_flows flow_le build_ladder run_ladder point_le sorted place ◌+ℤ◌ ◌-ℤ◌
    funded_disposition settles
all_code = tt

leg_queues :
    ((project_funding leg).disposition ≡ will_queue)
    × ((project_funding leg).funded_at_offset ≡ some (pos 60))
unfolding all_code
leg_queues = (refl, refl)

short_leg_fails : (project_funding short_leg).disposition ≡ will_fail
unfolding all_code
short_leg_fails = refl

funded_leg-settles : settles (project_funding funded_leg).disposition ≡ true
unfolding all_code
funded_leg-settles = refl

misspelt_class :
    (project_funding (construct (record leg { finality_class = plain "gross_final" }))).disposition
    ≡ indeterminate
unfolding project_funding build decide_funding has_unrecognised construct coerce_member
misspelt_class = refl

will_queue_exact_example :
    (leg.finality_class ≡ member gross_final)
    × (leg.settlement_offset ≤ℤ pos 60)
    × (past leg.window_close_offset (pos 60) ≡ false)
    × (leg.obligation ≤ℤ committed_at leg (pos 60))
    × ((u : ℤ) → leg.settlement_offset ≤ℤ u → u <ℤ pos 60 → committed_at leg u <ℤ leg.obligation)
will_queue_exact_example = will_queue_exact leg (pos 60) leg_queues.0 leg_queues.1

will_fail_exact_example : committed_at short_leg (pos 70) <ℤ pos 200
will_fail_exact_example = will_fail_exact short_leg (pos 70) refl short_leg_fails (omega arith) refl

settles_exact_example :
    (settles (project_funding funded_leg).disposition ≡ true)
    ↔ (IsOpenToFunding funded_leg × IsCovered funded_leg)
settles_exact_example = settles_exact funded_leg

qualification_only_marks_example :
    (project_funding
      (record funded_leg { determination_outcome = member qualified_bounded })).disposition
    ≡ mark_qualified (project_funding funded_leg).disposition
qualification_only_marks_example = qualification_only_marks funded_leg qualified_bounded refl
