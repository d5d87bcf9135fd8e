-- ===== src/Rails/Determination/Revocable.antt =====
-- atreides/rails/determination.py: exactly when a contingent obligation's value can still move.
use project_atreides.Rails.Finality.{determination_dependent}
use project_atreides.Rails.Determination.{
  DeterminationProfile, not_assessed, cancellation_and_return_of_funds, unqualified,
  classify_determination, obligation_finality_class,
}
use project_atreides.Common.{Bool, true, false, Option, none, some, arith, ◌≡◌, ◌↔◌, ◌⊎◌}
use project_atreides.Common.Int.{◌≤ℤ◌, ℤ, leb_ℤ}

-- The stated window is known to have run.
abbrev pub has_elapsed : Option ℤ → Option ℤ → Bool
has_elapsed (some w) (some t) = leb_ℤ w t
has_elapsed (some w) none = false
has_elapsed none t = false

-- A contingent obligation carries DETERMINATION_DEPENDENT exactly when the outcome is not
-- determined, or the rulebook is unread, or the venue may cancel and return funds and its stated
-- window, if it states one, is not known to have run.
pub classify_revocable :
    (p : DeterminationProfile) (determined : Bool) (elapsed : Option ℤ)
    → (obligation_finality_class (classify_determination p true determined elapsed)
        ≡ some determination_dependent)
      ↔ ((determined ≡ false)
          ⊎ (p.revocation_form ≡ not_assessed)
          ⊎ ((p.revocation_form ≡ cancellation_and_return_of_funds)
              × (has_elapsed p.qualification_window_seconds elapsed ≡ false)))
unfolding classify_determination obligation_finality_class
classify_revocable p determined elapsed = (λ h. ground arith, λ h. ground arith)

-- Finality once reached is kept: with more time elapsed the outcome stays UNQUALIFIED.
pub unqualified_persists :
    (p : DeterminationProfile) (contingent determined : Bool) (t t' : ℤ)
    → t ≤ℤ t'
    → classify_determination p contingent determined (some t) ≡ unqualified
    → classify_determination p contingent determined (some t') ≡ unqualified
unfolding classify_determination
unqualified_persists p contingent determined t t' later h = ground arith
