-- ===== src/Agents/Eligibility/Tests.antt =====
-- An operation through one correspondent, atreides/agents/tier2/eligibility.py, and the theorem at it.
use project_atreides.Agents.Eligibility.Exact.{verify_eligibility_exact}
use project_atreides.Common.{
  ℕ, refl, Bool, true, false, none, some, List, [], Result, ok, err, String, ◌≡◌, ◌↔◌, ◌∷◌, ◌⊎◌,
}
use project_atreides.Common.Int.{pos}
use project_atreides.Agents.Eligibility.{
  ScreeningEvidence, ComplianceEvidence, EligibilityError, naive, aware, naive_comparison,
  verify_eligibility, EligibilityVerification, EligibilityInputs, all_passed, verify_kyc,
  verify_kyb, verify_ofac, verify_sanctions, verify_correspondents, construct_check,
  construct_verification, evidence_failure, screening_failure, attestation_failure, by_bic,
  standings_of, standing_of, is_before,
}
use project_atreides.Common.Dict.{lookup, insert}
use project_atreides.Agents.Eligibility.Judged.{IsComparable, IsEligible}

abbrev clear_of : String → ScreeningEvidence
clear_of id = record { subject_id = id; matched = false; matched_list = none }

abbrev attested_until : ℕ → ComplianceEvidence
attested_until instant = record { correspondent_bic = "BANKUS33"; expires_at = aware (pos instant) }

abbrev payment : List ComplianceEvidence → EligibilityInputs
payment compliance = record {
  check_time = aware (pos 50);
  kyc_evidence = some (record { subject = "owner"; expires_at = aware (pos 90) });
  kyb_evidence = none;
  ofac_screenings = clear_of "owner" ∷ [];
  sanctions_screenings = clear_of "owner" ∷ [];
  correspondent_compliance = compliance;
  requires_kyb = false;
  requires_correspondent_compliance = true;
  expected_correspondent_bics = "BANKUS33" ∷ [];
}

abbrev passes : Result EligibilityError EligibilityVerification → Bool
passes (ok v) = all_passed v
passes (err e) = false

-- Opens the code of the model in the runs below.
all_eligibility : Unit {0}
unfolding verify_eligibility verify_kyc verify_kyb verify_ofac verify_sanctions
    verify_correspondents construct_check construct_verification all_passed evidence_failure
    screening_failure attestation_failure standings_of standing_of is_before by_bic lookup insert
all_eligibility = tt

current_passes : passes (verify_eligibility (payment (attested_until 60 ∷ []))) ≡ true
unfolding all_eligibility
current_passes = refl

-- A current attestation before an expired one of the same correspondent does not count.
last_attestation_counts :
    passes (verify_eligibility (payment (attested_until 60 ∷ attested_until 40 ∷ []))) ≡ false
unfolding all_eligibility
last_attestation_counts = refl

-- A datetime without a zone is compared with one that has a zone.
naive_expiry :
    verify_eligibility
      (payment (record { correspondent_bic = "BANKUS33"; expires_at = naive (pos 60) } ∷ []))
    ≡ err naive_comparison
unfolding all_eligibility
naive_expiry = refl

verify_eligibility_exact_example :
    let i = payment (attested_until 60 ∷ []) in
    (IsComparable i
      × ((v : EligibilityVerification) × (verify_eligibility i ≡ ok v)
          × ((all_passed v ≡ true) ↔ IsEligible i)))
    ⊎ ((¬ IsComparable i) × (verify_eligibility i ≡ err naive_comparison))
verify_eligibility_exact_example = verify_eligibility_exact (payment (attested_until 60 ∷ []))
