-- ===== src/Rails/Cns/Results.antt =====
-- The data of a settlement in atreides/rails/cns.py. An allocation may be missing, may be no finite
-- Decimal, or is an amount.
use project_atreides.Common.{ℕ, Bool, true, false, Option, List, any, String, if◌then◌else◌}
use project_atreides.Common.Int.{ℤ, pos, eqb_ℤ}
use project_atreides.Rails.Cns.Profile.{NetPosition}
use project_atreides.Deadlines.Calendar.{MarketCalendar}

pub data CnsDisposition : Type 0 where
  settled_in_full partial_allocation failed_to_deliver failed_to_receive : CnsDisposition
  flat not_novated indeterminate : CnsDisposition

pub data SecuritiesBreakCode : Type 0 where
  fail_to_deliver fail_to_receive partial_with_unexplained_allocation : SecuritiesBreakCode
  close_out_deadline_unreadable close_out_deadline_passed : SecuritiesBreakCode
  eligible_settled_divergence quantity_not_restated : SecuritiesBreakCode
  processing_date_not_established allocation_against_flat_position : SecuritiesBreakCode
  outcome_not_reported market_profile_mismatch allocation_not_finite : SecuritiesBreakCode
  allocation_wrong_sign allocation_exceeds_position : SecuritiesBreakCode

-- An argument of `settle_net_position`: `None`, not a finite Decimal, or an amount
pub data Reported : Type 0 where
  silent unusable : Reported
  amount : ℤ → Reported

pub record FailPosition : Type 0 where
  pub security_id : String
  pub quantity : ℤ
  pub cash : ℤ
  pub settlement_date : ℕ
  pub as_of_date : ℕ
  pub aged_business_days : ℕ
  pub close_out_deadline_offset_days : Option ℤ
  pub restated_by_corporate_action : Bool

pub record NetSettlementResult : Type 0 where
  pub disposition : CnsDisposition
  pub position : NetPosition
  pub allocated_quantity : ℤ
  pub allocated_cash : ℤ
  pub residual : Option FailPosition
  pub breaks : List SecuritiesBreakCode

-- The arguments besides the position, its profile and what was allocated
pub record SettlementFacts : Type 0 where
  pub signed_cash : ℤ
  pub settlement_date : ℕ
  pub as_of_date : ℕ
  pub calendar : MarketCalendar
  pub spans_record_date : Bool
  pub corporate_action_ratio_applied : Bool
  pub quantity_restated : Bool

abbrev pub is_zero : ℤ → Bool
is_zero a = eqb_ℤ a (pos 0)

abbrev pub is_flat_break : SecuritiesBreakCode → Bool
is_flat_break allocation_against_flat_position = true
is_flat_break _ = false

-- `NetSettlementResult.is_fail`
unfoldable pub is_fail : CnsDisposition → Bool
is_fail failed_to_deliver = true
is_fail failed_to_receive = true
is_fail _ = false

abbrev pub is_done : CnsDisposition → Bool
is_done settled_in_full = true
is_done flat = true
is_done _ = false

unfoldable pub completed : NetSettlementResult → Bool
completed r = if any is_flat_break r.breaks then false else is_done r.disposition
