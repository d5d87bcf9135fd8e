-- ===== src/Rails/Cns/Tests.antt =====
-- Continuous net settlement on two securities, one of them settled in part.
use project_atreides.Common.Dict.{lookup, insert}
use project_atreides.Common.Sort.{sorted, place}
use project_atreides.Deadlines.Calendar.{business_days_after, count_days, is_business_day}
use project_atreides.Rails.Cns.Profile.{
  MarketProfile, NetPosition, CloseOutRegime, ProcessingDateRule,
}
use project_atreides.Rails.Cns.Netting.{
  Quantity, units, NettingContext, add_trades, add_trade, read_quantity, total_of, count_of,
  position_of, net_positions, magnitude,
}
use project_atreides.Rails.Cns.Netting.Sums.{net_sum, net_count}
use project_atreides.Rails.Cns.Netting.Positions.{net_positions_exact}
use project_atreides.Rails.Cns.Results.{
  SettlementFacts, NetSettlementResult, amount, completed, settled_in_full,
  processing_date_not_established,
}
use project_atreides.Rails.Cns.Settle.{
  settle_net_position, settle_reported, settle_amounts, settle_open, settle_closed, residual_of,
  date_breaks, allocation_refusal, quantity_refusal,
}
use project_atreides.Rails.Cns.Conserve.{
  settle_conserves, is_settlement, open_quantity, open_cash, left_of,
}
use project_atreides.Rails.Cns.Reports.{completed_reported}
use project_atreides.Rails.Boundary.{member, plain, coerce_member, named}
use project_atreides.Rails.Cns.Profile.{MarketProfileFields, construct_market, check_market}
use project_atreides.Rails.Cns.Assessed.{IsAssessed, construct_market-IsAssessed}
use project_atreides.Rails.Cns.Bounds.{settle_bounded}
use project_atreides.Common.{
  ℕ, refl, true, false, none, some, List, [], ok, any, Member, String, ◌+◌, ◌≤◌, ◌≡◌, ◌≢◌, ◌⊎◌, ◌∷◌,
  arith, ◌<◌,
}
use project_atreides.Common.Int.{◌+ℤ◌, ◌-ℤ◌, pos, negsuc}
use project_atreides.Common.Key.{◌==◌, string_key}
use project_atreides.Common.Decimal.{decimal_abs, decimal_sub, precision}

abbrev trades : List (String × Quantity)
trades = ("B", units (pos 10)) ∷ ("A", units (negsuc 4)) ∷ ("B", units (negsuc 2)) ∷ []

abbrev context : NettingContext
context = record {
  market_id = "US";
  settlement_date_offset_days = pos 1;
  assigned_processing_date_offset_days = none;
}

abbrev net_a : NetPosition
net_a = record {
  security_id = "A";
  quantity = negsuc 4;
  settlement_date_offset_days = pos 1;
  market_id = "US";
  constituent_trade_count = 1;
  assigned_processing_date_offset_days = none;
}

abbrev net_b : NetPosition
net_b = record net_a { security_id = "B"; quantity = pos 7; constituent_trade_count = 2 }

netted_ok : net_positions 100 context trades true ≡ ok (net_a ∷ net_b ∷ [])
unfolding net_positions add_trades add_trade read_quantity total_of count_of position_of lookup
    insert sorted place ◌+ℤ◌ decimal_abs
netted_ok = refl

net_positions_exact_example :
    ((p : NetPosition)
      → Member p (net_a ∷ net_b ∷ [])
      → (p.quantity ≡ net_sum p.security_id trades)
        × (p.constituent_trade_count ≡ net_count p.security_id trades)
        × (decimal_abs p.quantity ≤ 100))
    × ((id : String)
        → any (λ x. x.0 == id) trades ≡ true
        → (p : NetPosition) × Member p (net_a ∷ net_b ∷ []) × (p.security_id ≡ id))
net_positions_exact_example = net_positions_exact 100 context trades (net_a ∷ net_b ∷ []) netted_ok

abbrev profile : MarketProfile
profile = record {
  market_id = "US";
  settlement_cycle_days = some (pos 1);
  processing_date_rule = ProcessingDateRule.session_closure_message;
  message_name = some "Good Night Message";
  close_out_regime = CloseOutRegime.mandatory_deadline;
  close_out_deadline_days = some (pos 3);
  allocation_rule_published = true;
  provenance = some "rules";
}

abbrev facts : SettlementFacts
facts = record {
  signed_cash = negsuc 69;
  settlement_date = 3;
  as_of_date = 4;
  calendar = record { holidays = (1, []) ∷ [] };
  spans_record_date = false;
  corporate_action_ratio_applied = false;
  quantity_restated = false;
}

abbrev year_at : ℕ → ℕ
year_at d = 1

abbrev partly : NetSettlementResult
partly =
    settle_open net_b profile facts (pos 4) (negsuc 39)
      (residual_of net_b profile facts (pos 4) (negsuc 39) 1)

abbrev fully : NetSettlementResult
fully =
    settle_closed net_b settled_in_full (pos 7) (negsuc 69) (processing_date_not_established ∷ [])

partly_ok :
    settle_net_position year_at net_b profile facts (amount (pos 4)) (amount (negsuc 39))
    ≡ ok partly
unfolding settle_net_position settle_reported settle_amounts allocation_refusal quantity_refusal
    business_days_after count_days is_business_day lookup ◌-ℤ◌ decimal_abs decimal_sub
partly_ok = refl

partly_settles : is_settlement partly.disposition ≡ true
unfolding settle_open
partly_settles = refl

not_zero : pos 7 ≢ pos 0
not_zero = λ h. cc h

fully_ok :
    settle_net_position year_at net_b profile facts (amount (pos 7)) (amount (negsuc 69)) ≡ ok fully
unfolding settle_net_position settle_reported settle_amounts allocation_refusal quantity_refusal
    date_breaks ◌-ℤ◌ decimal_abs decimal_sub
fully_ok = refl

fully-completed : completed fully ≡ true
unfolding completed settle_closed
fully-completed = refl

left_fits : left_of (pos 7) (amount (pos 4)) < precision
unfolding ◌-ℤ◌
left_fits = omega arith

cash_left_fits : left_of (negsuc 69) (amount (negsuc 39)) < precision
unfolding ◌-ℤ◌
cash_left_fits = omega arith

-- A residual of more than 28 digits is rounded.
residual_rounds :
    decimal_sub (pos 123456789012345678901234567899) (pos 0) ≡ pos 123456789012345678901234567900
unfolding decimal_sub ◌-ℤ◌
residual_rounds = refl

-- One unit above 1E+30 is within the limit.
limit_rounds :
    read_quantity 1000000000000000000000000000000 (units (pos 1000000000000000000000000000001))
    ≡ ok (pos 1000000000000000000000000000001)
unfolding read_quantity decimal_abs
limit_rounds = refl

settle_conserves_example :
    (partly.allocated_quantity +ℤ open_quantity partly.residual ≡ pos 7)
    × (partly.allocated_cash +ℤ open_cash partly.residual ≡ negsuc 69)
settle_conserves_example =
    settle_conserves year_at net_b profile facts (amount (pos 4)) (amount (negsuc 39)) partly
      partly_ok left_fits cash_left_fits partly_settles

settle_bounded_example :
    magnitude partly.allocated_quantity + magnitude (open_quantity partly.residual)
    ≡ magnitude (pos 7)
settle_bounded_example =
    settle_bounded year_at net_b profile facts (amount (pos 4)) (amount (negsuc 39)) partly
      partly_ok partly_settles not_zero (omega arith)

completed_reported_example :
    (amount (pos 7) ≡ amount (pos 7))
    × ((amount (negsuc 69) ≡ amount (negsuc 69)) ⊎ ((pos 7 ≡ pos 0) × (negsuc 69 ≡ pos 0)))
completed_reported_example =
    completed_reported year_at net_b profile facts (amount (pos 7)) (amount (negsuc 69)) fully
      fully_ok fully-completed

abbrev fields : MarketProfileFields
fields = record {
  market_id = "US";
  settlement_cycle_days = some (pos 1);
  processing_date_rule = plain "session_closure_message";
  message_name = some "Good Night Message";
  close_out_regime = member CloseOutRegime.mandatory_deadline;
  close_out_deadline_days = some (pos 3);
  allocation_rule_published = true;
  provenance = some "rules";
}

constructed : construct_market fields ≡ ok profile
unfolding construct_market check_market coerce_member named
constructed = refl

construct_market-IsAssessed_example : IsAssessed profile
construct_market-IsAssessed_example = construct_market-IsAssessed fields profile constructed
