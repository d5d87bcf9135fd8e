-- ===== src/Agents/Eligibility/Judged.antt =====
-- atreides/agents/tier2/eligibility.py: what each check answers, and the comparisons that raise.
use project_atreides.Common.{
  refl, err, Result, true, false, not, Option, none, some, List, [], arith, ok, any, All, String,
  ◌≡◌, ◌≢◌, ◌↔◌, ◌⊎◌, ◌∷◌, Bool, if◌then◌else◌, inl, inr,
}
use project_atreides.Common.Int.{◌≤ℤ◌, ltb_ℤ}
use project_atreides.Agents.Eligibility.{
  Evidence, ScreeningEvidence, ComplianceEvidence, EligibilityInputs, evidence_failure, is_before,
  Instant, naive, aware, naive_comparison, EligibilityError, Standing, missing, expired, current,
  standing_of, standings_of, evidence_missing, evidence_expired, screening_failure,
  attestation_failure, FailureReason, lookup, is_missing, by_bic, is_expired, attestation_missing,
  attestation_expired,
}
use project_atreides.Common.Dict.{Dict}
use project_atreides.Common.Key.{string_key}

-- Two datetimes that Python compares: both without a zone, or both with one.
abbrev pub SameKind : Instant → Instant → Type 0
SameKind (naive a) (naive b) = Unit {0}
SameKind (aware a) (aware b) = Unit {0}
SameKind (naive a) (aware b) = ⊥
SameKind (aware a) (naive b) = ⊥

-- Datetimes of one kind, the first not after the second
abbrev pub NotAfter : Instant → Instant → Type 0
NotAfter (naive a) (naive b) = a ≤ℤ b
NotAfter (aware a) (aware b) = a ≤ℤ b
NotAfter (naive a) (aware b) = ⊥
NotAfter (aware a) (naive b) = ⊥

-- Evidence that has not expired at the time of the check
abbrev pub IsCurrent : Instant → Option Evidence → Type 0
IsCurrent now none = ⊥
IsCurrent now (some e) = NotAfter now e.expires_at

abbrev pub IsScreened : List ScreeningEvidence → Type 0
IsScreened screenings = (screenings ≢ []) × All (λ s. s.matched ≡ false) screenings

abbrev pub IsAttested : Instant → Option ComplianceEvidence → Type 0
IsAttested now none = ⊥
IsAttested now (some e) = NotAfter now e.expires_at

-- Current evidence on the owner and, where required, on the counterparty; both kinds of screening
-- made and without a match; and, where required, for every expected correspondent a last attestation
-- that is current.
abbrev pub IsEligible : EligibilityInputs → Type 0
IsEligible i =
    IsCurrent i.check_time i.kyc_evidence
    × ((i.requires_kyb ≡ false) ⊎ IsCurrent i.check_time i.kyb_evidence)
    × IsScreened i.ofac_screenings
    × IsScreened i.sanctions_screenings
    × ((i.requires_correspondent_compliance ≡ false)
        ⊎ All (λ bic. IsAttested i.check_time (lookup bic (by_bic [] i.correspondent_compliance)))
            i.expected_correspondent_bics)

-- Every expiry that is read has the kind of the time of the check.
abbrev pub IsDated : Instant → Option Evidence → Type 0
IsDated now none = Unit {0}
IsDated now (some e) = SameKind e.expires_at now

abbrev pub IsDatedAttestation : Instant → Option ComplianceEvidence → Type 0
IsDatedAttestation now none = Unit {0}
IsDatedAttestation now (some e) = SameKind e.expires_at now

abbrev pub IsComparable : EligibilityInputs → Type 0
IsComparable i =
    IsDated i.check_time i.kyc_evidence
    × ((i.requires_kyb ≡ false) ⊎ IsDated i.check_time i.kyb_evidence)
    × ((i.requires_correspondent_compliance ≡ false)
        ⊎ All
            (λ bic.
              IsDatedAttestation i.check_time (lookup bic (by_bic [] i.correspondent_compliance)))
            i.expected_correspondent_bics)

-- A step that answers `Q` exactly, by no reason to fail, where `C` holds, and raises where not.
abbrev pub Judged : Result EligibilityError (Option FailureReason) → Type 0 → Type 0 → Type 0
Judged r C Q =
    (C × ((reason : Option FailureReason) × (r ≡ ok reason) × ((reason ≡ none) ↔ Q)))
    ⊎ ((¬ C) × (r ≡ err naive_comparison))

-- `<` on two datetimes
is_before-cases :
    (a now : Instant)
    → (SameKind a now
        × ((late : Bool) × (is_before a now ≡ ok late) × ((late ≡ false) ↔ NotAfter now a)))
      ⊎ ((¬ SameKind a now) × (is_before a now ≡ err naive_comparison))
unfolding is_before
is_before-cases (naive a) (naive b) = inl (tt, (ltb_ℤ a b, refl, ground arith))
is_before-cases (aware a) (aware b) = inl (tt, (ltb_ℤ a b, refl, ground arith))
is_before-cases (naive a) (aware b) = inr (λ h. h, refl)
is_before-cases (aware a) (naive b) = inr (λ h. h, refl)

reason_if-none :
    (late : Bool) → ((if late then some evidence_expired else none) ≡ none) ↔ (late ≡ false)
reason_if-none late = ground arith

pub evidence_failure-Judged :
    (now : Instant) (e : Option Evidence)
    → Judged (evidence_failure now e) (IsDated now e) (IsCurrent now e)
unfolding evidence_failure
evidence_failure-Judged now none =
    inl (tt, (some evidence_missing, refl, (λ h. cc h, λ h. absurd h)))
evidence_failure-Judged now (some e) = elim (is_before-cases e.expires_at now) [
  | inl (same, (late, at, says)) ↦
      let none_iff = reason_if-none late in
      inl (
        same,
        (
          if late then some evidence_expired else none,
          rw at refl,
          (λ h. says.0 (none_iff.0 h), λ h. none_iff.1 (says.1 h)),
        ),
      )
  | inr (differ, at) ↦ inr (differ, rw at refl)
]

any_matched :
    (ss : List ScreeningEvidence)
    → (any (λ s. s.matched) ss ≡ false) ↔ All (λ s. s.matched ≡ false) ss
any_matched [] = (λ h. tt, λ h. refl)
any_matched (s ∷ ss) = ground (arith, any_matched ss)

pub screening_failure-none :
    (ss : List ScreeningEvidence) → (screening_failure ss ≡ none) ↔ IsScreened ss
unfolding screening_failure
screening_failure-none [] = (λ h. cc h, λ h. absurd (h.0 refl))
screening_failure-none (s ∷ ss) = (
  λ h. (λ e. cc e, (any_matched (s ∷ ss)).0 (ground arith)),
  λ h. ground (arith, (any_matched (s ∷ ss)).1 h.1),
)

standing_of-cases :
    (now : Instant) (o : Option ComplianceEvidence)
    → (IsDatedAttestation now o
        × ((standing : Standing) × (standing_of now o ≡ ok standing)
            × (((is_missing standing ≡ false) × (is_expired standing ≡ false)) ↔ IsAttested now o)))
      ⊎ ((¬ IsDatedAttestation now o) × (standing_of now o ≡ err naive_comparison))
unfolding standing_of
standing_of-cases now none = inl (tt, (missing, refl, (λ h. cc h.0, λ h. absurd h)))
standing_of-cases now (some e) = elim (is_before-cases e.expires_at now) [
  | inl (same, (true, at, says)) ↦
      inl (same, (expired, rw at refl, (λ h. cc h.1, λ h. cc (says.1 h))))
  | inl (same, (false, at, says)) ↦
      inl (same, (current, rw at refl, (λ h. says.0 refl, λ h. (refl, refl))))
  | inr (differ, at) ↦ inr (differ, rw at refl)
]

standings_of-cases :
    (now : Instant) (d : Dict String ComplianceEvidence) (bics : List String)
    → (All (λ bic. IsDatedAttestation now (lookup bic d)) bics
        × ((standings : List Standing) × (standings_of now d bics ≡ ok standings)
            × (((any is_missing standings ≡ false) × (any is_expired standings ≡ false))
                ↔ All (λ bic. IsAttested now (lookup bic d)) bics)))
      ⊎ ((¬ All (λ bic. IsDatedAttestation now (lookup bic d)) bics)
          × (standings_of now d bics ≡ err naive_comparison))
unfolding standings_of
standings_of-cases now d [] = inl (tt, ([], refl, (λ h. tt, λ h. (refl, refl))))
standings_of-cases now d (bic ∷ bics) = elim (standing_of-cases now (lookup bic d)) [
  | inr (differ, at) ↦ inr (λ h. differ h.0, rw at refl)
  | inl (same, (standing, at, says)) ↦ elim (standings_of-cases now d bics) [
    | inr (differ, rest) ↦ inr (λ h. differ h.1, rw (at, rest) refl)
    | inl (all_same, (standings, rest, all_say)) ↦ inl (
      (same, all_same),
      (standing ∷ standings, rw (at, rest) refl, ground (arith, says, all_say)),
    )
  ]
]

pub attestation_failure-Judged :
    (now : Instant) (d : Dict String ComplianceEvidence) (bics : List String)
    → Judged
        (attestation_failure now d bics)
        (All (λ bic. IsDatedAttestation now (lookup bic d)) bics)
        (All (λ bic. IsAttested now (lookup bic d)) bics)
unfolding attestation_failure
attestation_failure-Judged now d bics = elim (standings_of-cases now d bics) [
  | inl (same, (standings, at, says)) ↦ inl (
    same,
    (
      if any is_missing standings
          then some attestation_missing
          else if any is_expired standings
          then some attestation_expired
          else none,
      rw at refl,
      ground (arith, says),
    ),
  )
  | inr (differ, at) ↦ inr (differ, rw at refl)
]

pub unless-Judged :
    (required : Bool) (r : Result EligibilityError (Option FailureReason)) (C Q : Type 0)
    → Judged r C Q
    → Judged (if not required then ok none else r) ((required ≡ false) ⊎ C) ((required ≡ false) ⊎ Q)
unless-Judged false r C Q j = inl (inl refl, (none, refl, (λ h. inl refl, λ h. refl)))
unless-Judged true r C Q (inl (c, (reason, at, says))) =
    inl
      (inr c, (reason, at, (λ h. inr (says.0 h), λ h. elim h [ inl e ↦ cc e | inr q ↦ says.1 q ])))
unless-Judged true r C Q (inr (not_c, at)) =
    inr (λ h. elim h [ inl e ↦ cc e | inr c ↦ not_c c ], at)
