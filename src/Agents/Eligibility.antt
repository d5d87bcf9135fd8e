-- ===== src/Agents/Eligibility.antt =====
-- atreides/agents/tier2/eligibility.py, with the checks of outputs.py: whether an operation is
-- eligible for routing. Texts of reasons are constructors, and what evidence only carries is left out.
pub mod Judged
pub mod Exact
mod Tests
use project_atreides.Common.Dict.{Dict, lookup, insert}
use project_atreides.Common.Key.{string_key, ◌==◌, has_duplicates, contains, nat_key}
use project_atreides.Common.{
  ℕ, Bool, true, false, not, Option, none, some, List, [], map, Result, ok, raise_if, length, any,
  all, is_some, nat_eq, String, ◌&&◌, ◌∷◌, if◌then◌else◌, ◌>>=◌, ◌>>◌, err,
}
use project_atreides.Common.Int.{ℤ, ltb_ℤ}

pub data EligibilityCheckKind : Type 0 where
  kyc kyb ofac sanctions correspondent_bank_compliance : EligibilityCheckKind

abbrev pub kind_index : EligibilityCheckKind → ℕ
kind_index kyc = 0
kind_index kyb = 1
kind_index ofac = 2
kind_index sanctions = 3
kind_index correspondent_bank_compliance = 4

pub data FailureReason : Type 0 where
  evidence_missing evidence_expired not_screened screening_matched : FailureReason
  attestation_missing attestation_expired : FailureReason

-- A `datetime` without a zone, or with one as the instant that it stands for
pub data Instant : Type 0 where
  naive aware : ℤ → Instant

pub record EligibilityCheck : Type 0 where
  pub kind : EligibilityCheckKind
  pub passed : Bool
  pub failure_reason : Option FailureReason
  pub verified_at : Instant

-- The `ValueError`s of the models, and the `TypeError` of `<` on a naive and an aware datetime
pub data EligibilityError : Type 0 where
  failure_without_reason pass_with_reason duplicate_kind missing_kind : EligibilityError
  match_without_list list_without_match no_expected_bic : EligibilityError
  naive_comparison : EligibilityError

-- `EligibilityCheck._validate_failure_reason_consistency`
unfoldable pub construct_check : EligibilityCheck → Result EligibilityError EligibilityCheck
construct_check c = do
  raise_if (not c.passed && not (is_some c.failure_reason)) failure_without_reason
  raise_if (c.passed && is_some c.failure_reason) pass_with_reason
  ok c

-- `KYCEvidence` and `KYBEvidence`
pub record Evidence : Type 0 where
  pub subject : String
  pub expires_at : Instant

-- `OFACScreeningEvidence` and `SanctionsScreeningEvidence`
pub record ScreeningEvidence : Type 0 where
  pub subject_id : String
  pub matched : Bool
  pub matched_list : Option String

abbrev pub names_list : Option String → Bool
names_list none = false
names_list (some s) = not (s == "")

-- `_validate_matched_list_consistency`
unfoldable pub construct_screening : ScreeningEvidence → Result EligibilityError ScreeningEvidence
construct_screening s = do
  raise_if (s.matched && not (names_list s.matched_list)) match_without_list
  raise_if (not s.matched && is_some s.matched_list) list_without_match
  ok s

pub record ComplianceEvidence : Type 0 where
  pub correspondent_bic : String
  pub expires_at : Instant

pub record EligibilityInputs : Type 0 where
  pub check_time : Instant
  pub kyc_evidence : Option Evidence
  pub kyb_evidence : Option Evidence
  pub ofac_screenings : List ScreeningEvidence
  pub sanctions_screenings : List ScreeningEvidence
  pub correspondent_compliance : List ComplianceEvidence
  pub requires_kyb : Bool
  pub requires_correspondent_compliance : Bool
  pub expected_correspondent_bics : List String

-- `_validate_correspondent_expectations_set_when_required`
unfoldable pub construct_inputs : EligibilityInputs → Result EligibilityError EligibilityInputs
construct_inputs i = do
  raise_if (i.requires_correspondent_compliance && nat_eq (length i.expected_correspondent_bics) 0)
      no_expected_bic
  ok i

-- `a < b`
unfoldable pub is_before : Instant → Instant → Result EligibilityError Bool
is_before (naive a) (naive b) = ok (ltb_ℤ a b)
is_before (aware a) (aware b) = ok (ltb_ℤ a b)
is_before (naive a) (aware b) = err naive_comparison
is_before (aware a) (naive b) = err naive_comparison

abbrev pub checked :
    EligibilityCheckKind
    → EligibilityInputs
    → Option FailureReason
    → Result EligibilityError EligibilityCheck
checked kind i none =
    construct_check
      (record { kind = kind; passed = true; failure_reason = none; verified_at = i.check_time })
checked kind i (some reason) = construct_check (record {
  kind = kind;
  passed = false;
  failure_reason = some reason;
  verified_at = i.check_time;
})

-- The two tests on an evidence in `_verify_kyc` and `_verify_kyb`
unfoldable pub evidence_failure :
    Instant → Option Evidence → Result EligibilityError (Option FailureReason)
unfolding is_before
evidence_failure now none = ok (some evidence_missing)
evidence_failure now (some e) = do
  late ← is_before e.expires_at now
  ok (if late then some evidence_expired else none)

unfoldable pub verify_kyc : EligibilityInputs → Result EligibilityError EligibilityCheck
verify_kyc i = do reason ← evidence_failure i.check_time i.kyc_evidence; checked kyc i reason

unfoldable pub verify_kyb : EligibilityInputs → Result EligibilityError EligibilityCheck
verify_kyb i = do
  reason ← if not i.requires_kyb then ok none else evidence_failure i.check_time i.kyb_evidence
  checked kyb i reason

abbrev pub screening_of_none : List ScreeningEvidence → Bool
screening_of_none [] = true
screening_of_none (_ ∷ _) = false

-- The tests of `_verify_ofac` and `_verify_sanctions`
unfoldable pub screening_failure : List ScreeningEvidence → Option FailureReason
screening_failure screenings =
    if screening_of_none screenings
    then some not_screened
    else if any (λ s. s.matched) screenings
    then some screening_matched
    else none

unfoldable pub verify_ofac : EligibilityInputs → Result EligibilityError EligibilityCheck
verify_ofac i = checked ofac i (screening_failure i.ofac_screenings)

unfoldable pub verify_sanctions : EligibilityInputs → Result EligibilityError EligibilityCheck
verify_sanctions i = checked sanctions i (screening_failure i.sanctions_screenings)

-- `by_bic`: of two attestations of a BIC the later stands.
unfoldable pub by_bic :
    Dict String ComplianceEvidence → List ComplianceEvidence → Dict String ComplianceEvidence
by_bic d [] = d
by_bic d (e ∷ es) = by_bic (insert e.correspondent_bic e d) es

-- Where an expected correspondent's attestation goes: to `missing`, to `expired` or to neither
pub data Standing : Type 0 where
  missing expired current : Standing

abbrev pub is_missing : Standing → Bool
is_missing missing = true
is_missing expired = false
is_missing current = false

abbrev pub is_expired : Standing → Bool
is_expired missing = false
is_expired expired = true
is_expired current = false

-- One round of the loop over the expected correspondents
unfoldable pub standing_of : Instant → Option ComplianceEvidence → Result EligibilityError Standing
unfolding is_before
standing_of now none = ok missing
standing_of now (some e) = do
  late ← is_before e.expires_at now
  ok (if late then expired else current)

unfoldable pub standings_of :
    Instant → Dict String ComplianceEvidence → List String → Result EligibilityError (List Standing)
unfolding standing_of
standings_of now attested [] = ok []
standings_of now attested (bic ∷ bics) = do
  standing ← standing_of now (lookup bic attested)
  standings ← standings_of now attested bics
  ok (standing ∷ standings)

unfoldable pub attestation_failure :
    Instant
    → Dict String ComplianceEvidence
    → List String
    → Result EligibilityError (Option FailureReason)
unfolding standings_of
attestation_failure now attested bics = do
  standings ← standings_of now attested bics
  ok (
      if any is_missing standings
      then some attestation_missing
      else if any is_expired standings
      then some attestation_expired
      else none)

unfoldable pub verify_correspondents : EligibilityInputs → Result EligibilityError EligibilityCheck
verify_correspondents i = do
  reason ←
      if not i.requires_correspondent_compliance
      then ok none
      else attestation_failure i.check_time (by_bic [] i.correspondent_compliance)
          i.expected_correspondent_bics
  checked correspondent_bank_compliance i reason

pub record EligibilityVerification : Type 0 where
  pub checks : List EligibilityCheck

abbrev pub kinds_of : List EligibilityCheck → List ℕ
kinds_of cs = map (λ c. kind_index c.kind) cs

-- `_validate_all_kinds_present_exactly_once`
unfoldable pub construct_verification :
    EligibilityVerification → Result EligibilityError EligibilityVerification
construct_verification v = do
  raise_if (has_duplicates (kinds_of v.checks)) duplicate_kind
  raise_if (not (all (contains (kinds_of v.checks)) (0 ∷ 1 ∷ 2 ∷ 3 ∷ 4 ∷ []))) missing_kind
  ok v

-- `all_passed`
unfoldable pub all_passed : EligibilityVerification → Bool
all_passed v = all (λ c. c.passed) v.checks

unfoldable pub verify_eligibility :
    EligibilityInputs → Result EligibilityError EligibilityVerification
verify_eligibility i = do
  a ← verify_kyc i
  b ← verify_kyb i
  c ← verify_ofac i
  d ← verify_sanctions i
  e ← verify_correspondents i
  construct_verification (record { checks = a ∷ b ∷ c ∷ d ∷ e ∷ [] })
