-- ===== src/Rails/Cato/Decision.antt =====
-- The decision of the gate of atreides/rails/cato_cash.py. Its rationale, its list of checks and its
-- snapshot are texts and are not modelled; the list that `evaluate` records is never empty, so that
-- the test on a PROCEED without checks does not fire. `dsor_lineage_uri` is only passed on.
use project_atreides.Rails.Boundary.{Raw}
use project_atreides.Rails.Finality.{FinalityClass}
use project_atreides.Rails.Cato.Rails.{CashRail, SettlementPerimeter}
use project_atreides.Common.{
  Bool, true, false, not, Option, none, some, Result, ok, err, raise_if, is_some, String, ◌>>=◌,
  ◌>>◌,
}
use project_atreides.Common.Int.{ℤ}
use project_atreides.Common.Key.{same_bool}
use project_atreides.Rails.Cato.Digest.{is_digest}

pub data GateDecision : Type 0 where
  proceed hold escalate : GateDecision

pub data ReasonCode : Type 0 where
  systemic_stress_escalate material_magnitude_quorum_unavailable : ReasonCode
  unfunded_at_settlement_instant risk_control_breach broad_stress_hold : ReasonCode
  no_rail_in_window unresolvable_finality determination_pending : ReasonCode
  unassessed_revocation_authority market_data_stale settlement_perimeter_unassessed : ReasonCode
  counterparty_unassessed counterparty_not_in_good_standing counterparty_under_review : ReasonCode
  stress_reading_unusable funding_indeterminate halt_active input_unrecognised : ReasonCode
  cleared gate_unavailable : ReasonCode

pub record CatoCashDecision : Type 0 where
  pub decision : GateDecision
  pub reason_code : ReasonCode
  pub recommended_rail : Option CashRail
  pub finality_class : Option FinalityClass
  pub evaluated_notional : Option ℤ
  pub evaluated_currency : Option String
  pub obligation_finality_class : Option FinalityClass
  pub settlement_perimeter : Raw SettlementPerimeter
  pub obligation_id : Option String
  pub obligation_digest : Option String

-- The `ValueError`s of the constructor on a decision of `evaluate`
pub data DecisionError : Type 0 where
  half_bound not_an_obligation_id not_a_digest : DecisionError

-- `parse_id` is the kernel package's `ObligationId`.
module _ (parse_id : String → Option String) where
  abbrev pub read_id : Option String → Result DecisionError (Option String)
  read_id none = ok none
  read_id (some s) = elim (parse_id s) [ none ↦ err not_an_obligation_id | some id ↦ ok (some id) ]

  abbrev pub bad_digest : Option String → Bool
  bad_digest none = false
  bad_digest (some s) = not (is_digest s)

  -- `CatoCashDecision.__post_init__`
  unfoldable pub construct_decision : CatoCashDecision → Result DecisionError CatoCashDecision
  construct_decision d = do
    raise_if (not (same_bool (is_some d.obligation_id) (is_some d.obligation_digest))) half_bound
    id ← read_id d.obligation_id
    raise_if (bad_digest d.obligation_digest) not_a_digest
    ok (record d { obligation_id = id })

-- `CatoCashDecision.proceeds` and `bound`
unfoldable pub proceeds : CatoCashDecision → Bool
proceeds d = elim d.decision [ proceed ↦ true | hold ↦ false | escalate ↦ false ]

unfoldable pub bound : CatoCashDecision → Bool
bound d = is_some d.obligation_id
