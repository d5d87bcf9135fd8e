-- ===== src/Rails/Determination.antt =====
-- atreides/rails/determination.py: whether the value of a contingent obligation can still be taken
-- back, from what the venue's rulebook says.
pub mod Revocable
use project_atreides.Common.{
  String, List, [], ◌∷◌, ◌≡◌, ◌↔◌, ℕ, Bool, true, false, arith, nat_eq, Option, some, none, Result,
  ok, err, ◌>>=◌, ◌>>◌, raise_if, if◌then◌else◌, not, ◌&&◌, is_some,
}
use project_atreides.Common.Int.{ℤ, pos, leb_ℤ}
use project_atreides.Common.Key.{Key, ◌==◌, string_key}
use project_atreides.Rails.Finality.{FinalityClass, determination_dependent}
use project_atreides.Rails.Boundary.{Raw, member, plain, other, coerce_member}

pub data RevocationForm : Type 0 where
  not_assessed none_disclosed liquidation_at_administered_price : RevocationForm
  cancellation_and_return_of_funds : RevocationForm

pub data DeterminationOutcome : Type 0 where
  not_applicable awaiting_determination qualified_bounded qualified_unbounded : DeterminationOutcome
  qualification_unknown unqualified : DeterminationOutcome

abbrev pub revocation_members : List RevocationForm
revocation_members =
    not_assessed ∷ none_disclosed ∷ liquidation_at_administered_price
    ∷ cancellation_and_return_of_funds ∷ []

abbrev pub revocation_value : RevocationForm → String
revocation_value not_assessed = "not_assessed"
revocation_value none_disclosed = "none_disclosed"
revocation_value liquidation_at_administered_price = "liquidation_at_administered_price"
revocation_value cancellation_and_return_of_funds = "cancellation_and_return_of_funds"

abbrev pub outcome_members : List DeterminationOutcome
outcome_members =
    not_applicable ∷ awaiting_determination ∷ qualified_bounded ∷ qualified_unbounded
    ∷ qualification_unknown ∷ unqualified ∷ []

abbrev pub outcome_value : DeterminationOutcome → String
outcome_value not_applicable = "not_applicable"
outcome_value awaiting_determination = "awaiting_determination"
outcome_value qualified_bounded = "qualified_bounded"
outcome_value qualified_unbounded = "qualified_unbounded"
outcome_value qualification_unknown = "qualification_unknown"
outcome_value unqualified = "unqualified"

abbrev pub outcome_index : DeterminationOutcome → ℕ
outcome_index not_applicable = 0
outcome_index awaiting_determination = 1
outcome_index qualified_bounded = 2
outcome_index qualified_unbounded = 3
outcome_index qualification_unknown = 4
outcome_index unqualified = 5

pub outcome_index-eq_iff :
    (a b : DeterminationOutcome) → (nat_eq (outcome_index a) (outcome_index b) ≡ true) ↔ (a ≡ b)
outcome_index-eq_iff a b = ground arith

instance abbrev pub outcome_key : Key DeterminationOutcome
outcome_key = record {
  eqb = λ a b. nat_eq (outcome_index a) (outcome_index b);
  eqb_iff = outcome_index-eq_iff;
}

-- The `ValueError`s of `DeterminationProfile.__post_init__`; `not_a_form` is the one that
-- `RevocationForm(value)` raises.
pub data ProfileError : Type 0 where
  not_a_form venue_required provenance_required window_unread window_not_positive : ProfileError

-- The arguments of the constructor, and the profile with its form coerced.
pub record ProfileFields : Type 0 where
  pub venue_id : String
  pub revocation_form : Raw RevocationForm
  pub qualification_window_seconds : Option ℤ
  pub provenance : Option String

pub record DeterminationProfile : Type 0 where
  pub venue_id : String
  pub revocation_form : RevocationForm
  pub qualification_window_seconds : Option ℤ
  pub provenance : Option String

abbrev pub is_assessed : RevocationForm → Bool
is_assessed not_assessed = false
is_assessed none_disclosed = true
is_assessed liquidation_at_administered_price = true
is_assessed cancellation_and_return_of_funds = true

-- `not self.provenance`: `None` and the empty text are both false.
abbrev pub is_blank : Option String → Bool
is_blank none = true
is_blank (some s) = s == ""

abbrev pub not_positive : Option ℤ → Bool
not_positive none = false
not_positive (some w) = leb_ℤ w (pos 0)

-- A member stays a member, and `RevocationForm(value)` raises unless the value names one.
abbrev pub as_form : Raw RevocationForm → Result ProfileError RevocationForm
as_form (member a) = ok a
as_form (plain _) = err not_a_form
as_form other = err not_a_form

-- `DeterminationProfile.__post_init__`
unfoldable pub construct_profile : ProfileFields → Result ProfileError DeterminationProfile
construct_profile f = do
  form ← as_form (coerce_member revocation_value revocation_members f.revocation_form)
  raise_if (f.venue_id == "") venue_required
  raise_if (is_assessed form && is_blank f.provenance) provenance_required
  raise_if (not (is_assessed form) && is_some f.qualification_window_seconds) window_unread
  raise_if (not_positive f.qualification_window_seconds) window_not_positive
  ok (record {
    venue_id = f.venue_id;
    revocation_form = form;
    qualification_window_seconds = f.qualification_window_seconds;
    provenance = f.provenance;
  })

-- `DeterminationProfile.reverses_settlement`
unfoldable pub reverses_settlement : RevocationForm → Bool
reverses_settlement cancellation_and_return_of_funds = true
reverses_settlement not_assessed = false
reverses_settlement none_disclosed = false
reverses_settlement liquidation_at_administered_price = false

pub absent_determination_profile : String → Result ProfileError DeterminationProfile
unfolding construct_profile
absent_determination_profile venue_id = construct_profile (record {
  venue_id = venue_id;
  revocation_form = member not_assessed;
  qualification_window_seconds = none;
  provenance = none;
})

abbrev by_window : Option ℤ → Option ℤ → DeterminationOutcome
by_window none elapsed = qualified_unbounded
by_window (some w) none = qualified_bounded
by_window (some w) (some t) = if leb_ℤ w t then unqualified else qualified_bounded

-- `classify_determination(profile, instrument_is_contingent, determined, seconds)`
unfoldable pub classify_determination :
    DeterminationProfile → Bool → Bool → Option ℤ → DeterminationOutcome
unfolding reverses_settlement
classify_determination p contingent determined elapsed =
    if not contingent
    then not_applicable
    else if not determined
    then awaiting_determination
    else if not (is_assessed p.revocation_form)
    then qualification_unknown
    else if not (reverses_settlement p.revocation_form)
    then unqualified
    else by_window p.qualification_window_seconds elapsed

unfoldable pub obligation_finality_class : DeterminationOutcome → Option FinalityClass
obligation_finality_class not_applicable = none
obligation_finality_class unqualified = none
obligation_finality_class awaiting_determination = some determination_dependent
obligation_finality_class qualified_bounded = some determination_dependent
obligation_finality_class qualified_unbounded = some determination_dependent
obligation_finality_class qualification_unknown = some determination_dependent
