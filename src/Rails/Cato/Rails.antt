-- ===== src/Rails/Cato/Rails.antt =====
-- The cash rails of atreides/rails/cato_cash.py and the settlement perimeter of
-- atreides/rails/perimeter.py.
use project_atreides.Rails.Boundary.{Raw, member, plain, other, coerce_member}
use project_atreides.Rails.Finality.{
  FinalityClass, gross_final, deferred_net, ledger_final, correspondent_dependent,
}
use project_atreides.Common.{
  ℕ, Bool, true, false, not, Option, none, some, List, [], arith, nat_eq, String, ◌≡◌, ◌↔◌, ◌&&◌,
  ◌∷◌, if◌then◌else◌,
}
use project_atreides.Common.Int.{ℤ, pos, ltb_ℤ}
use project_atreides.Common.Key.{Key}

pub data CashRail : Type 0 where
  fedwire chips fednow nss_dtc_nscc ficc_gsd_funds_only correspondent : CashRail
  tokenized_deposit regulated_stablecoin ports_wholesale : CashRail

abbrev pub rail_members : List CashRail
rail_members =
    fedwire ∷ chips ∷ fednow ∷ nss_dtc_nscc ∷ ficc_gsd_funds_only ∷ correspondent
    ∷ tokenized_deposit ∷ regulated_stablecoin ∷ ports_wholesale ∷ []

abbrev pub rail_value : CashRail → String
rail_value fedwire = "fedwire"
rail_value chips = "chips"
rail_value fednow = "fednow"
rail_value nss_dtc_nscc = "nss_dtc_nscc"
rail_value ficc_gsd_funds_only = "ficc_gsd_funds_only"
rail_value correspondent = "correspondent"
rail_value tokenized_deposit = "tokenized_deposit"
rail_value regulated_stablecoin = "regulated_stablecoin"
rail_value ports_wholesale = "ports_wholesale"

abbrev pub rail_index : CashRail → ℕ
rail_index fedwire = 0
rail_index chips = 1
rail_index fednow = 2
rail_index nss_dtc_nscc = 3
rail_index ficc_gsd_funds_only = 4
rail_index correspondent = 5
rail_index tokenized_deposit = 6
rail_index regulated_stablecoin = 7
rail_index ports_wholesale = 8

pub rail_index-eq_iff : (a b : CashRail) → (nat_eq (rail_index a) (rail_index b) ≡ true) ↔ (a ≡ b)
rail_index-eq_iff a b = ground arith

instance abbrev pub rail_key : Key CashRail
rail_key = record { eqb = λ a b. nat_eq (rail_index a) (rail_index b); eqb_iff = rail_index-eq_iff }

-- `RAIL_FINALITY`
abbrev pub rail_finality : CashRail → FinalityClass
rail_finality fedwire = gross_final
rail_finality fednow = gross_final
rail_finality chips = deferred_net
rail_finality nss_dtc_nscc = deferred_net
rail_finality ficc_gsd_funds_only = deferred_net
rail_finality tokenized_deposit = ledger_final
rail_finality regulated_stablecoin = ledger_final
rail_finality correspondent = correspondent_dependent
rail_finality ports_wholesale = ledger_final

pub data RailStatus : Type 0 where
  available closed degraded not_yet_issued : RailStatus

abbrev pub status_members : List RailStatus
status_members = available ∷ closed ∷ degraded ∷ not_yet_issued ∷ []

abbrev pub status_value : RailStatus → String
status_value available = "available"
status_value closed = "closed"
status_value degraded = "degraded"
status_value not_yet_issued = "not_yet_issued"

-- `state.status is RailStatus.AVAILABLE`
abbrev pub is_available : Raw RailStatus → Bool
is_available (member available) = true
is_available (member _) = false
is_available (plain _) = false
is_available other = false

-- `RailState`. Seconds are integers, which may be negative.
pub record RailState : Type 0 where
  pub rail : Raw CashRail
  pub status : Raw RailStatus
  pub seconds_to_cutoff : Option ℤ
  pub value_cap : Option ℤ
  pub observed_age_seconds : Option ℤ

-- `RailState.__post_init__`, on the fields that the constructor was given
unfoldable pub construct_rail : RailState → RailState
construct_rail s = record s {
  rail = coerce_member rail_value rail_members s.rail;
  status = coerce_member status_value status_members s.status;
}

abbrev pub before_cutoff : Option ℤ → Bool
before_cutoff none = true
before_cutoff (some seconds) = ltb_ℤ (pos 0) seconds

-- `RailState.usable`
unfoldable pub usable : RailState → Bool
usable s = is_available s.status && before_cutoff s.seconds_to_cutoff

pub data SettlementPerimeter : Type 0 where
  not_assessed on_us off_us : SettlementPerimeter

abbrev pub perimeter_members : List SettlementPerimeter
perimeter_members = not_assessed ∷ on_us ∷ off_us ∷ []

abbrev pub perimeter_value : SettlementPerimeter → String
perimeter_value not_assessed = "NOT_ASSESSED"
perimeter_value on_us = "ON_US"
perimeter_value off_us = "OFF_US"

-- `perimeter is SettlementPerimeter.ON_US`, and the same for NOT_ASSESSED
abbrev pub is_on_us : Raw SettlementPerimeter → Bool
is_on_us (member on_us) = true
is_on_us (member _) = false
is_on_us (plain _) = false
is_on_us other = false

abbrev pub is_unassessed : Raw SettlementPerimeter → Bool
is_unassessed (member not_assessed) = true
is_unassessed (member _) = false
is_unassessed (plain _) = false
is_unassessed other = false

unfoldable pub continuously_available : Bool → Raw SettlementPerimeter → Bool
continuously_available is_ledger_final perimeter =
    if not is_ledger_final then true else is_on_us perimeter
