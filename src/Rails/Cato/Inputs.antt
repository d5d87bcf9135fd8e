-- ===== src/Rails/Cato/Inputs.antt =====
-- The inputs of the gate of atreides/rails/cato_cash.py: counterparties, freshness and the operation.
use project_atreides.Rails.Boundary.{Raw, member, plain, other, coerce_member, recognised}
use project_atreides.Rails.Cato.Rails.{
  CashRail, rail_value, rail_members, SettlementPerimeter, perimeter_value, perimeter_members,
}
use project_atreides.Rails.Determination.{
  DeterminationOutcome, outcome_value, outcome_members, is_blank,
}
use project_atreides.Common.{
  Bool, true, false, not, Option, none, some, List, [], Result, ok, err, raise_if, is_some, String,
  ◌&&◌, ◌||◌, ◌∷◌, ◌>>=◌, ◌>>◌,
}
use project_atreides.Common.Int.{ℤ, pos, leb_ℤ, ltb_ℤ}
use project_atreides.Common.Key.{◌==◌, string_key}

pub data CounterpartyStanding : Type 0 where
  not_assessed in_good_standing under_review suspended defaulted : CounterpartyStanding

abbrev pub standing_members : List CounterpartyStanding
standing_members = not_assessed ∷ in_good_standing ∷ under_review ∷ suspended ∷ defaulted ∷ []

abbrev pub standing_value : CounterpartyStanding → String
standing_value not_assessed = "not_assessed"
standing_value in_good_standing = "in_good_standing"
standing_value under_review = "under_review"
standing_value suspended = "suspended"
standing_value defaulted = "defaulted"

pub record CounterpartyFields : Type 0 where
  pub counterparty_id : String
  pub standing : Raw CounterpartyStanding
  pub assessed_age_seconds : Option ℤ
  pub provenance : Option String

pub record Counterparty : Type 0 where
  pub counterparty_id : String
  pub standing : CounterpartyStanding
  pub assessed_age_seconds : Option ℤ
  pub provenance : Option String

-- The `ValueError`s of `Counterparty` and of `FreshnessPolicy`
pub data InputError : Type 0 where
  not_a_standing id_required provenance_required unassessed_age negative_age : InputError
  not_positive : InputError

abbrev pub is_standing_unread : CounterpartyStanding → Bool
is_standing_unread not_assessed = true
is_standing_unread in_good_standing = false
is_standing_unread under_review = false
is_standing_unread suspended = false
is_standing_unread defaulted = false

-- `CounterpartyStanding(value)` matches a value exactly.
abbrev pub as_standing : Raw CounterpartyStanding → Result InputError CounterpartyStanding
as_standing (member a) = ok a
as_standing (plain _) = err not_a_standing
as_standing other = err not_a_standing

abbrev pub is_negative : Option ℤ → Bool
is_negative none = false
is_negative (some age) = ltb_ℤ age (pos 0)

-- `Counterparty.__post_init__`
unfoldable pub construct_counterparty : CounterpartyFields → Result InputError Counterparty
construct_counterparty f = do
  standing ← as_standing (coerce_member standing_value standing_members f.standing)
  raise_if (f.counterparty_id == "") id_required
  raise_if (not (is_standing_unread standing) && is_blank f.provenance) provenance_required
  raise_if (is_standing_unread standing && is_some f.assessed_age_seconds) unassessed_age
  raise_if (is_negative f.assessed_age_seconds) negative_age
  ok (record {
    counterparty_id = f.counterparty_id;
    standing = standing;
    assessed_age_seconds = f.assessed_age_seconds;
    provenance = f.provenance;
  })

pub record FreshnessPolicy : Type 0 where
  pub max_stress_reading_age_seconds : Option ℤ
  pub max_rail_state_age_seconds : Option ℤ
  pub max_counterparty_assessment_age_seconds : Option ℤ

abbrev pub is_not_positive : Option ℤ → Bool
is_not_positive none = false
is_not_positive (some n) = leb_ℤ n (pos 0)

-- `FreshnessPolicy.__post_init__`
unfoldable pub construct_policy : FreshnessPolicy → Result InputError FreshnessPolicy
construct_policy p = do
  raise_if
      (is_not_positive p.max_stress_reading_age_seconds
        || is_not_positive p.max_rail_state_age_seconds
        || is_not_positive p.max_counterparty_assessment_age_seconds)
      not_positive
  ok p

-- `FreshnessPolicy.polices_anything`
unfoldable pub polices_anything : FreshnessPolicy → Bool
polices_anything p =
    is_some p.max_stress_reading_age_seconds
    || is_some p.max_rail_state_age_seconds
    || is_some p.max_counterparty_assessment_age_seconds

-- `_staleness`, without the reason's text
unfoldable pub stale : Option ℤ → Option ℤ → Bool
stale age none = false
stale none (some maximum) = true
stale (some age) (some maximum) = ltb_ℤ maximum age

pub record OperationContext : Type 0 where
  pub notional : ℤ
  pub currency : String
  pub is_material : Bool
  pub is_lvps_material : Bool
  pub is_fx_leg : Bool
  pub pvp_available : Bool
  pub depository_linked_rail : Option (Raw CashRail)
  pub correspondent_finality_resolvable : Bool
  pub tokenized_deposit_supported : Bool
  pub within_business_hours : Bool
  pub determination_outcome : Raw DeterminationOutcome
  pub counterparty : Option Counterparty
  pub settlement_perimeter : Raw SettlementPerimeter

abbrev pub coerce_linked : Option (Raw CashRail) → Option (Raw CashRail)
coerce_linked none = none
coerce_linked (some r) = some (coerce_member rail_value rail_members r)

-- `OperationContext.__post_init__`, on the fields that the constructor was given
unfoldable pub construct_operation : OperationContext → OperationContext
construct_operation o = record o {
  determination_outcome = coerce_member outcome_value outcome_members o.determination_outcome;
  settlement_perimeter = coerce_member perimeter_value perimeter_members o.settlement_perimeter;
  depository_linked_rail = coerce_linked o.depository_linked_rail;
}

abbrev pub recognised_linked : Option (Raw CashRail) → Bool
recognised_linked none = true
recognised_linked (some r) = recognised r

-- `OperationContext.unrecognised_fields`, as whether it is not empty
unfoldable pub unrecognised_operation : OperationContext → Bool
unrecognised_operation o =
    not (recognised o.determination_outcome)
    || not (recognised o.settlement_perimeter)
    || not (recognised_linked o.depository_linked_rail)
