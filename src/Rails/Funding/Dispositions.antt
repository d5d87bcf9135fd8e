-- ===== src/Rails/Funding/Dispositions.antt =====
-- atreides/rails/funding_state.py: what each disposition of `project_funding` says of the flows.
use project_atreides.Common.{
  ◌≡◌, arith, some, none, true, false, ◌⊎◌, refl, List, [], ◌∷◌, ◌↔◌, ◌≢◌, if◌then◌else◌,
}
use project_atreides.Common.Int.{ℤ, ◌<ℤ◌, ◌≤ℤ◌, pos, leb_ℤ, eqb_ℤ, -ℤ_parts}
use project_atreides.Rails.Finality.{
  gross_final, finality_key, deferred_net, correspondent_dependent, determination_dependent,
}
use project_atreides.Rails.Boundary.{Raw, member}
use project_atreides.Rails.Determination.{
  outcome_key, DeterminationOutcome, not_applicable, awaiting_determination,
}
use project_atreides.Rails.Funding.{
  funded, cap_breach, clearing_fund_deficient, indeterminate, FundingInputs, decide_funding,
  when_short, has_unrecognised, shortfall_of, funded_disposition, settlement_position, will_fail,
  will_queue, first_funded_offset, project_funding, build, past, settles, to_gate_input,
  clearing_fund_sufficient, is_qualified, position_at_finality, headroom, cap_trough, first_funded,
  candidates, FundingDisposition, funded_qualified,
}
use project_atreides.Rails.Funding.Queue.{
  committed_at, first_funded_offset-some, first_funded_offset-none, first_funded_offset_earliest,
}

-- `shortfall == 0` is the test whether the committed position covers the obligation.
shortfall-zero :
    (i : FundingInputs)
    → eqb_ℤ (shortfall_of i) (pos 0) ≡ leb_ℤ i.obligation (committed_at i i.settlement_offset)
unfolding shortfall_of settlement_position
shortfall-zero i = ground (arith, -ℤ_parts i.obligation (committed_at i i.settlement_offset))

-- Past every earlier check, and short at the settlement instant, only a gross-final rail is left.
reaches_search :
    (i : FundingInputs) (t : ℤ)
    → decide_funding i ≡ (will_queue, some t)
    → (i.finality_class ≡ member gross_final)
      × (first_funded_offset i ≡ some t)
      × (committed_at i i.settlement_offset <ℤ i.obligation)
unfolding decide_funding when_short has_unrecognised funded_disposition
reaches_search i t h = ground (arith, shortfall-zero i)

reaches_failure :
    (i : FundingInputs)
    → i.finality_class ≡ member gross_final
    → (decide_funding i).0 ≡ will_fail
    → first_funded_offset i ≡ none
unfolding decide_funding when_short has_unrecognised funded_disposition
reaches_failure i g h = ground arith

-- A WILL_QUEUE answer with an offset: the rail is gross-final, the offset is an instant from
-- settlement to the close of the window at which the committed flows cover the obligation, and at
-- every instant from settlement until then, whether or not a flow lands on it, they do not.
pub will_queue_exact :
    (i : FundingInputs) (t : ℤ)
    → (project_funding i).disposition ≡ will_queue
    → (project_funding i).funded_at_offset ≡ some t
    → (i.finality_class ≡ member gross_final)
      × (i.settlement_offset ≤ℤ t)
      × (past i.window_close_offset t ≡ false)
      × (i.obligation ≤ℤ committed_at i t)
      × ((u : ℤ) → i.settlement_offset ≤ℤ u → u <ℤ t → committed_at i u <ℤ i.obligation)
unfolding project_funding build
will_queue_exact i t h k =
    let (gross, searched, short) = reaches_search i t (λ j. (h j, k j)) in
    let (from, open_then, covers) = first_funded_offset-some i t searched in
    (gross, from, open_then, covers, first_funded_offset_earliest i t searched)

-- A WILL_FAIL answer on a gross-final rail: at every instant from settlement to the close of the
-- window the committed flows fall short of the obligation.
pub will_fail_exact :
    (i : FundingInputs) (u : ℤ)
    → i.finality_class ≡ member gross_final
    → (project_funding i).disposition ≡ will_fail
    → i.settlement_offset ≤ℤ u
    → past i.window_close_offset u ≡ false
    → committed_at i u <ℤ i.obligation
unfolding project_funding build
will_fail_exact i u gross h = first_funded_offset-none i u (reaches_failure i gross h)

-- No check before the test of the shortfall stops the projection.
abbrev pub IsOpenToFunding : FundingInputs → Type 0
IsOpenToFunding i =
    (has_unrecognised i ≡ false)
    × (i.finality_class ≢ member determination_dependent)
    × (i.clearing_fund_requirement ≤ℤ i.clearing_fund_posted)
    × ((i.net_debit_cap ≡ none) ⊎ (pos 0 ≤ℤ headroom i))
    × (i.determination_outcome ≢ member awaiting_determination)
    × (i.finality_class ≢ member correspondent_dependent)

settles-IsOpenToFunding :
    (i : FundingInputs) → settles (project_funding i).disposition ≡ true → IsOpenToFunding i
unfolding project_funding build decide_funding when_short funded_disposition settles
    clearing_fund_sufficient
settles-IsOpenToFunding i h = ground arith

-- The committed flows cover the obligation when the rail has it, at the latest.
abbrev pub IsCovered : FundingInputs → Type 0
IsCovered i =
    (i.obligation ≤ℤ committed_at i i.settlement_offset)
    ⊎ ((i.finality_class ≡ member deferred_net) × (i.obligation ≤ℤ position_at_finality i))

settles-IsCovered :
    (i : FundingInputs) → settles (project_funding i).disposition ≡ true → IsCovered i
unfolding project_funding build decide_funding when_short has_unrecognised funded_disposition
    settles clearing_fund_sufficient
settles-IsCovered i h = ground (arith, shortfall-zero i)

open_decides :
    (i : FundingInputs)
    → IsOpenToFunding i
    → decide_funding i
      ≡ (if eqb_ℤ (shortfall_of i) (pos 0) then (funded_disposition i, none) else when_short i)
unfolding decide_funding clearing_fund_sufficient
open_decides i (known, fixed, fund, cap, due, seen) = ground arith

covered_settles :
    (i : FundingInputs)
    → IsCovered i
    → settles
        (if eqb_ℤ (shortfall_of i) (pos 0) then (funded_disposition i, none) else when_short i).0
      ≡ true
unfolding when_short funded_disposition settles
covered_settles i h = ground (arith, shortfall-zero i)

-- An answer settles exactly if the inputs are recognised, the rail's class is neither
-- determination-dependent nor correspondent-dependent, the clearing fund is sufficient, a stated
-- net-debit cap keeps a headroom of zero or more, the obligation does not await determination, and
-- the committed flows cover it at the settlement instant or, on a deferred-net rail, at the close of
-- its window.
pub settles_exact :
    (i : FundingInputs)
    → (settles (project_funding i).disposition ≡ true) ↔ (
        IsOpenToFunding i
        × ((i.obligation ≤ℤ committed_at i i.settlement_offset)
            ⊎ ((i.finality_class ≡ member deferred_net)
                × (i.obligation ≤ℤ position_at_finality i))))
unfolding project_funding build
settles_exact i = (
  λ h. (settles-IsOpenToFunding i h, settles-IsCovered i h),
  λ h. rw (open_decides i h.0) (covered_settles i h.1),
)

-- What the gate input of a projection says, test by test, holds exactly when the disposition settles
-- and the obligation is covered at the settlement instant.
pub gate_input-settles :
    (i : FundingInputs)
    → let f = to_gate_input (project_funding i) in
      ((f.position_is_assertable ≡ true)
        × (f.net_obligation ≤ℤ f.projected_funded_position)
        × (pos 0 ≤ℤ f.net_debit_cap_headroom)
        × (f.clearing_fund_sufficient ≡ true))
      ↔ ((settles (project_funding i).disposition ≡ true)
          × (i.obligation ≤ℤ committed_at i i.settlement_offset))
unfolding project_funding build decide_funding when_short has_unrecognised funded_disposition
    settles to_gate_input settlement_position headroom
gate_input-settles i = ground (arith, shortfall-zero i)

-- What the projection refuses to answer: an unrecognised input, a determination-dependent rail and,
-- where neither hard control stops it first, an undetermined obligation or a correspondent-dependent
-- rail.
abbrev pub IsRefused : FundingInputs → Type 0
IsRefused i =
    (has_unrecognised i ≡ true)
    ⊎ (i.finality_class ≡ member determination_dependent)
    ⊎ ((i.clearing_fund_requirement ≤ℤ i.clearing_fund_posted)
        × ((i.net_debit_cap ≡ none) ⊎ (pos 0 ≤ℤ headroom i))
        × ((i.determination_outcome ≡ member awaiting_determination)
            ⊎ (i.finality_class ≡ member correspondent_dependent)))

pub gate_input-IsRefused :
    (i : FundingInputs)
    → ((to_gate_input (project_funding i)).position_is_assertable ≡ false) ↔ IsRefused i
unfolding project_funding build decide_funding when_short funded_disposition to_gate_input
    clearing_fund_sufficient
gate_input-IsRefused i = ground arith

-- The amounts do not depend on the determination outcome.
outcome_unread :
    (i : FundingInputs) (o : Raw DeterminationOutcome)
    → let j = record i { determination_outcome = o } in
      (headroom j ≡ headroom i)
      × (shortfall_of j ≡ shortfall_of i)
      × (clearing_fund_sufficient j ≡ clearing_fund_sufficient i)
      × (position_at_finality j ≡ position_at_finality i)
unfolding headroom cap_trough shortfall_of clearing_fund_sufficient position_at_finality
    settlement_position
outcome_unread i o = (refl, refl, refl, refl)

first_funded-outcome_unread :
    (i : FundingInputs) (o : Raw DeterminationOutcome) (os : List ℤ)
    → first_funded (record i { determination_outcome = o }) os ≡ first_funded i os
unfolding first_funded
first_funded-outcome_unread i o [] = refl
first_funded-outcome_unread i o (c ∷ os) = rw (first_funded-outcome_unread i o os)

first_funded_offset-outcome_unread :
    (i : FundingInputs) (o : Raw DeterminationOutcome)
    → first_funded_offset (record i { determination_outcome = o }) ≡ first_funded_offset i
unfolding first_funded_offset candidates
first_funded_offset-outcome_unread i o = first_funded-outcome_unread i o _

abbrev pub mark_qualified : FundingDisposition → FundingDisposition
mark_qualified funded = funded_qualified
mark_qualified funded_qualified = funded_qualified
mark_qualified will_queue = will_queue
mark_qualified will_fail = will_fail
mark_qualified cap_breach = cap_breach
mark_qualified clearing_fund_deficient = clearing_fund_deficient
mark_qualified indeterminate = indeterminate

-- A qualification never improves an answer: with a qualified outcome the disposition is that of the
-- same inputs with no contingency, but that FUNDED reads FUNDED_QUALIFIED.
pub qualification_only_marks :
    (i : FundingInputs) (o : DeterminationOutcome)
    → is_qualified (member o) ≡ true
    → (project_funding (record i { determination_outcome = member o })).disposition
      ≡ mark_qualified
          (project_funding (record i { determination_outcome = member not_applicable })).disposition
unfolding project_funding build decide_funding when_short has_unrecognised funded_disposition
qualification_only_marks i o h = ground (
  arith,
  outcome_unread i (member o),
  outcome_unread i (member not_applicable),
  first_funded_offset-outcome_unread i (member o),
  first_funded_offset-outcome_unread i (member not_applicable),
)
