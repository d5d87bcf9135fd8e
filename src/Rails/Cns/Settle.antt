-- ===== src/Rails/Cns/Settle.antt =====
-- `settle_net_position` of atreides/rails/cns.py.
use project_atreides.Deadlines.Calendar.{CalendarError, business_days_after}
use project_atreides.Rails.Cns.Profile.{
  MarketProfile, NetPosition, close_out_deadline, is_message_rule, is_unread,
}
use project_atreides.Rails.Cns.Results.{
  SettlementFacts, FailPosition, NetSettlementResult, Reported, silent, unusable, amount,
  CnsDisposition, SecuritiesBreakCode, is_zero, flat, settled_in_full, partial_allocation,
  failed_to_deliver, failed_to_receive, indeterminate, fail_to_deliver, fail_to_receive,
  partial_with_unexplained_allocation, close_out_deadline_unreadable, close_out_deadline_passed,
  eligible_settled_divergence, quantity_not_restated, processing_date_not_established,
  allocation_against_flat_position, outcome_not_reported, market_profile_mismatch,
  allocation_not_finite, allocation_wrong_sign, allocation_exceeds_position,
}
use project_atreides.Common.{
  ℕ, Bool, true, false, not, Option, none, some, List, [], Result, ok, is_some, ltb, ◌&&◌, ◌||◌,
  ◌∷◌, ◌++◌, if◌then◌else◌, ◌>>=◌,
}
use project_atreides.Common.Int.{ℤ, pos, ltb_ℤ}
use project_atreides.Common.Key.{◌==◌, string_key}
use project_atreides.Common.Decimal.{decimal_abs, decimal_sub}

abbrev pub break_if : Bool → SecuritiesBreakCode → List SecuritiesBreakCode
break_if test code = if test then code ∷ [] else []

-- The break that is found before anything else
unfoldable pub date_breaks : NetPosition → MarketProfile → List SecuritiesBreakCode
date_breaks position profile =
    break_if
      (is_message_rule profile.processing_date_rule
        && not (is_some position.assigned_processing_date_offset_days))
      processing_date_not_established

abbrev pub is_unusable : Reported → Bool
is_unusable unusable = true
is_unusable silent = false
is_unusable (amount a) = false

unfoldable pub quantity_refusal : ℤ → Reported → Option SecuritiesBreakCode
quantity_refusal quantity silent = none
quantity_refusal quantity unusable = none
quantity_refusal quantity (amount a) =
    if ltb_ℤ (pos 0) quantity && ltb_ℤ a (pos 0) || ltb_ℤ quantity (pos 0) && ltb_ℤ (pos 0) a
    then some allocation_wrong_sign
    else if not (is_zero quantity) && ltb (decimal_abs quantity) (decimal_abs a)
    then some allocation_exceeds_position
    else none

-- The calls of `refuse_allocation`, in their order
unfoldable pub allocation_refusal :
    NetPosition → MarketProfile → Reported → Reported → Option SecuritiesBreakCode
unfolding quantity_refusal
allocation_refusal position profile quantity cash =
    if not (position.market_id == profile.market_id)
    then some market_profile_mismatch
    else if is_unusable quantity || is_unusable cash
    then some allocation_not_finite
    else quantity_refusal position.quantity quantity

-- INDETERMINATE, with nothing allocated
unfoldable pub undecided : NetPosition → List SecuritiesBreakCode → NetSettlementResult
undecided position breaks = record {
  disposition = indeterminate;
  position = position;
  allocated_quantity = pos 0;
  allocated_cash = pos 0;
  residual = none;
  breaks = breaks;
}

-- The test of the branch for `close_out_deadline_passed`
abbrev pub past_deadline : Option ℤ → ℕ → Bool
past_deadline none aged = false
past_deadline (some days) aged = ltb_ℤ days (pos aged)

-- `_open_fail_breaks`
unfoldable pub open_fail_breaks :
    MarketProfile → SettlementFacts → FailPosition → List SecuritiesBreakCode
open_fail_breaks profile f residual =
    (if is_unread profile.close_out_regime
      then close_out_deadline_unreadable ∷ []
      else break_if (past_deadline profile.close_out_deadline_days residual.aged_business_days)
          close_out_deadline_passed)
    ++ break_if f.spans_record_date eligible_settled_divergence
    ++ break_if (f.corporate_action_ratio_applied && not f.quantity_restated) quantity_not_restated

-- The residual of a settlement that is not full, in the default decimal context
unfoldable pub residual_of :
    NetPosition → MarketProfile → SettlementFacts → ℤ → ℤ → ℕ → FailPosition
residual_of position profile f quantity cash aged = record {
  security_id = position.security_id;
  quantity = decimal_sub position.quantity quantity;
  cash = decimal_sub f.signed_cash cash;
  settlement_date = f.settlement_date;
  as_of_date = f.as_of_date;
  aged_business_days = aged;
  close_out_deadline_offset_days = close_out_deadline profile position.settlement_date_offset_days;
  restated_by_corporate_action = f.quantity_restated;
}

-- PARTIAL_ALLOCATION or a fail, with the breaks of the open residual
unfoldable pub settle_open :
    NetPosition → MarketProfile → SettlementFacts → ℤ → ℤ → FailPosition → NetSettlementResult
settle_open position profile f quantity cash residual =
    let breaks = date_breaks position profile ++ open_fail_breaks profile f residual in
    let receives =
      ltb_ℤ (pos 0) position.quantity || is_zero position.quantity && ltb_ℤ (pos 0) f.signed_cash in
    if not (is_zero quantity && is_zero cash)
    then record {
      disposition = partial_allocation;
      position = position;
      allocated_quantity = quantity;
      allocated_cash = cash;
      residual = some residual;
      breaks =
          breaks
          ++ break_if (not profile.allocation_rule_published) partial_with_unexplained_allocation;
    }
    else record {
      disposition = if receives then failed_to_receive else failed_to_deliver;
      position = position;
      allocated_quantity = pos 0;
      allocated_cash = pos 0;
      residual = some residual;
      breaks = breaks ++ (if receives then fail_to_receive else fail_to_deliver) ∷ [];
    }

-- FLAT and SETTLED_IN_FULL
unfoldable pub settle_closed :
    NetPosition → CnsDisposition → ℤ → ℤ → List SecuritiesBreakCode → NetSettlementResult
settle_closed position disposition quantity cash breaks = record {
  disposition = disposition;
  position = position;
  allocated_quantity = quantity;
  allocated_cash = cash;
  residual = none;
  breaks = breaks;
}

module _ (year_of : ℕ → ℕ) where
  -- From the check of a flat position on, for reported amounts that were not refused
  unfoldable pub settle_amounts :
      NetPosition
      → MarketProfile
      → SettlementFacts
      → ℤ
      → ℤ
      → Result CalendarError NetSettlementResult
  settle_amounts position profile f quantity cash =
      if is_zero position.quantity && is_zero f.signed_cash
      then ok (
          settle_closed position flat quantity cash (
            date_breaks position profile
            ++ break_if (not (is_zero quantity)) allocation_against_flat_position))
      else if is_zero (decimal_sub position.quantity quantity)
          && is_zero (decimal_sub f.signed_cash cash)
      then ok (settle_closed position settled_in_full quantity cash (date_breaks position profile))
      else (business_days_after year_of f.calendar f.settlement_date f.as_of_date >>= λ aged. ok (
          settle_open position profile f quantity cash
            (residual_of position profile f quantity cash aged)))

  unfoldable pub settle_reported :
      NetPosition
      → MarketProfile
      → SettlementFacts
      → Reported
      → Reported
      → Result CalendarError NetSettlementResult
  settle_reported position profile f (amount quantity) (amount cash) =
      settle_amounts position profile f quantity cash
  settle_reported position profile f _ _ =
      ok (undecided position (date_breaks position profile ++ outcome_not_reported ∷ []))

  unfoldable pub settle_net_position :
      NetPosition
      → MarketProfile
      → SettlementFacts
      → Reported
      → Reported
      → Result CalendarError NetSettlementResult
  unfolding allocation_refusal
  settle_net_position position profile f quantity cash =
      elim (allocation_refusal position profile quantity cash) [
        | some code ↦ ok (undecided position (date_breaks position profile ++ code ∷ []))
        | none ↦ settle_reported position profile f quantity cash
      ]
