-- ===== src/Rails/Tests.antt =====
-- The theorem on determination, and coercion and determination at concrete values.
use project_atreides.Rails.Finality
use project_atreides.Rails.Finality.{gross_final, determination_dependent}
use project_atreides.Rails.Boundary.{member, plain, coerce_member}
use project_atreides.Rails.Determination.{
  DeterminationProfile, not_assessed, cancellation_and_return_of_funds, classify_determination,
  obligation_finality_class,
}
use project_atreides.Rails.Determination.Revocable.{classify_revocable, has_elapsed}
use project_atreides.Common.{refl, Bool, true, false, some, ◌≡◌, ◌↔◌, ◌⊎◌}
use project_atreides.Common.Int.{pos}

coerce_gross :
    coerce_member Finality.value Finality.members (plain "GROSS_FINAL") ≡ member gross_final
unfolding coerce_member
coerce_gross = refl

abbrev venue : DeterminationProfile
venue = record {
  venue_id = "DCM-1";
  revocation_form = cancellation_and_return_of_funds;
  qualification_window_seconds = some (pos 3600);
  provenance = some "rule 6.4";
}

classify_revocable_example :
    (obligation_finality_class (classify_determination venue true true (some (pos 60)))
      ≡ some determination_dependent)
    ↔ ((◌≡◌ {A = Bool} true false)
        ⊎ (venue.revocation_form ≡ not_assessed)
        ⊎ ((venue.revocation_form ≡ cancellation_and_return_of_funds)
            × (has_elapsed (some (pos 3600)) (some (pos 60)) ≡ false)))
classify_revocable_example = classify_revocable venue true (some (pos 60))
