-- ===== src/Agents/Eligibility/Exact.antt =====
-- atreides/agents/tier2/eligibility.py: what an operation has that passes every check.
use project_atreides.Common.{
  refl, err, Result, true, false, not, Option, none, some, [], arith, ok, All, is_some, ◌≡◌, ◌↔◌,
  ◌⊎◌, ◌∷◌, ◌&&◌, if◌then◌else◌, inl, inr,
}
use project_atreides.Agents.Eligibility.{
  EligibilityInputs, evidence_failure, naive_comparison, EligibilityError, screening_failure,
  attestation_failure, EligibilityCheckKind, construct_check, FailureReason, lookup,
  EligibilityCheck, checked, by_bic, EligibilityVerification, verify_eligibility, all_passed, kyc,
  verify_kyc, kyb, verify_kyb, ofac, verify_ofac, sanctions, verify_sanctions,
  correspondent_bank_compliance, verify_correspondents, construct_verification,
}
use project_atreides.Common.Key.{string_key}
use project_atreides.Agents.Eligibility.Judged.{
  IsCurrent, IsComparable, IsAttested, IsEligible, screening_failure-none, evidence_failure-Judged,
  unless-Judged, attestation_failure-Judged,
}

-- The check that a reason, or none, makes.
abbrev check_for :
    EligibilityCheckKind → EligibilityInputs → Option FailureReason → EligibilityCheck
check_for kind i reason = record {
  kind = kind;
  passed = not (is_some reason);
  failure_reason = reason;
  verified_at = i.check_time;
}

checked-ok :
    (kind : EligibilityCheckKind) (i : EligibilityInputs) (reason : Option FailureReason)
    → checked kind i reason ≡ ok (check_for kind i reason)
unfolding construct_check
checked-ok kind i none = refl
checked-ok kind i (some reason) = refl

is_some-none : (o : Option FailureReason) → (not (is_some o) ≡ true) ↔ (o ≡ none)
is_some-none none = (λ h. refl, λ h. refl)
is_some-none (some r) = (λ h. cc h, λ h. cc h)

-- The five checks, in their order
abbrev five_checks :
    EligibilityInputs
    → Option FailureReason
    → Option FailureReason
    → Option FailureReason
    → EligibilityVerification
five_checks i owner partner banks = record {
  checks =
      check_for kyc i owner
      ∷ check_for kyb i partner
      ∷ check_for ofac i (screening_failure i.ofac_screenings)
      ∷ check_for sanctions i (screening_failure i.sanctions_screenings)
      ∷ check_for correspondent_bank_compliance i banks
      ∷ [];
}

abbrev owner_of : EligibilityInputs → Result EligibilityError (Option FailureReason)
owner_of i = evidence_failure i.check_time i.kyc_evidence

abbrev partner_of : EligibilityInputs → Result EligibilityError (Option FailureReason)
partner_of i = if not i.requires_kyb then ok none else evidence_failure i.check_time i.kyb_evidence

abbrev banks_of : EligibilityInputs → Result EligibilityError (Option FailureReason)
banks_of i =
    if not i.requires_correspondent_compliance
    then ok none
    else attestation_failure i.check_time (by_bic [] i.correspondent_compliance)
        i.expected_correspondent_bics

verify_eligibility-ok :
    (i : EligibilityInputs) (a b c : Option FailureReason)
    → owner_of i ≡ ok a
    → partner_of i ≡ ok b
    → banks_of i ≡ ok c
    → verify_eligibility i ≡ ok (five_checks i a b c)
unfolding verify_eligibility verify_kyc verify_kyb verify_ofac verify_sanctions
    verify_correspondents construct_verification
verify_eligibility-ok i a b c at_a at_b at_c =
    rw
      (
        at_a,
        at_b,
        at_c,
        checked-ok kyc i a,
        checked-ok kyb i b,
        checked-ok ofac i (screening_failure i.ofac_screenings),
        checked-ok sanctions i (screening_failure i.sanctions_screenings),
        checked-ok correspondent_bank_compliance i c,
      )
      refl

owner_raises :
    (i : EligibilityInputs)
    → owner_of i ≡ err naive_comparison
    → verify_eligibility i ≡ err naive_comparison
unfolding verify_eligibility verify_kyc
owner_raises i at = rw at refl

partner_raises :
    (i : EligibilityInputs) (a : Option FailureReason)
    → owner_of i ≡ ok a
    → partner_of i ≡ err naive_comparison
    → verify_eligibility i ≡ err naive_comparison
unfolding verify_eligibility verify_kyc verify_kyb
partner_raises i a at_a at = rw (at_a, checked-ok kyc i a, at) refl

banks_raise :
    (i : EligibilityInputs) (a b : Option FailureReason)
    → owner_of i ≡ ok a
    → partner_of i ≡ ok b
    → banks_of i ≡ err naive_comparison
    → verify_eligibility i ≡ err naive_comparison
unfolding verify_eligibility verify_kyc verify_kyb verify_ofac verify_sanctions
    verify_correspondents
banks_raise i a b at_a at_b at =
    rw
      (
        at_a,
        at_b,
        checked-ok kyc i a,
        checked-ok kyb i b,
        checked-ok ofac i (screening_failure i.ofac_screenings),
        checked-ok sanctions i (screening_failure i.sanctions_screenings),
        at,
      )
      refl

all_five :
    (a b c d e : Option FailureReason)
    → (not (is_some a)
          && (not (is_some b)
              && (not (is_some c) && (not (is_some d) && (not (is_some e) && true))))
        ≡ true)
      ↔ ((a ≡ none) × (b ≡ none) × (c ≡ none) × (d ≡ none) × (e ≡ none))
all_five a b c d e =
    ground (arith, is_some-none a, is_some-none b, is_some-none c, is_some-none d, is_some-none e)

five_checks-IsEligible :
    (i : EligibilityInputs) (a b c : Option FailureReason)
    → (a ≡ none) ↔ IsCurrent i.check_time i.kyc_evidence
    → (b ≡ none) ↔ ((i.requires_kyb ≡ false) ⊎ IsCurrent i.check_time i.kyb_evidence)
    → (c ≡ none) ↔ (
        (i.requires_correspondent_compliance ≡ false)
        ⊎ All
            (λ bic. IsAttested i.check_time (lookup bic (by_bic [] i.correspondent_compliance)))
            i.expected_correspondent_bics)
    → (all_passed (five_checks i a b c) ≡ true) ↔ IsEligible i
unfolding all_passed
five_checks-IsEligible i a b c owner partner banks =
    let five =
      all_five a b (screening_failure i.ofac_screenings) (screening_failure i.sanctions_screenings)
        c in
    let treasury = screening_failure-none i.ofac_screenings in
    let others = screening_failure-none i.sanctions_screenings in
    (
      λ h.
          let (p, q, r, s, t) = five.0 h in
          (owner.0 p, partner.0 q, treasury.0 r, others.0 s, banks.0 t),
      λ h.
          let (p, q, r, s, t) = h in
          five.1 (owner.1 p, partner.1 q, treasury.1 r, others.1 s, banks.1 t),
    )

-- Where every expiry that `verify_eligibility` reads has the kind of the time of the check, both
-- without a zone or both with one, it returns, and its verification passes every check exactly if the
-- operation has current evidence on its owner and, where required, on its counterparty, was screened
-- on both kinds of list without a match, and, where required, has for every expected correspondent a
-- last attestation that is current. Where one has not, it raises.
pub verify_eligibility_exact :
    (i : EligibilityInputs)
    → (IsComparable i
        × ((v : EligibilityVerification) × (verify_eligibility i ≡ ok v)
            × ((all_passed v ≡ true) ↔ IsEligible i)))
      ⊎ ((¬ IsComparable i) × (verify_eligibility i ≡ err naive_comparison))
verify_eligibility_exact i = elim (evidence_failure-Judged i.check_time i.kyc_evidence) [
  | inr (differ, at) ↦ inr (λ h. differ h.0, owner_raises i at)
  | inl (same_a, (a, at_a, owner)) ↦
      elim (unless-Judged i.requires_kyb _ _ _
        (evidence_failure-Judged i.check_time i.kyb_evidence)) [
          | inr (differ, at) ↦ inr (λ h. differ h.1, partner_raises i a at_a at)
          | inl (same_b, (b, at_b, partner)) ↦
              elim (unless-Judged i.requires_correspondent_compliance _ _ _ (
                attestation_failure-Judged i.check_time (by_bic [] i.correspondent_compliance)
                  i.expected_correspondent_bics)) [
                    | inr (differ, at) ↦ inr (λ h. differ h.2, banks_raise i a b at_a at_b at)
                    | inl (same_c, (c, at_c, banks)) ↦ inl (
                      (same_a, same_b, same_c),
                      (
                        five_checks i a b c,
                        verify_eligibility-ok i a b c at_a at_b at_c,
                        five_checks-IsEligible i a b c owner partner banks,
                      ),
                    )
                  ]
        ]
]
