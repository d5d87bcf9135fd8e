-- ===== src/Rails/Cato/Ladder.antt =====
-- The rail ladder of atreides/rails/cato_cash.py. A finite stress reading is an integer number of
-- units, of which `quarter` make 0.25: every float is such a multiple for a fine enough unit.
use text.Mathlib.Text.{is_le}
use Prim.Native.String.{compare}
use project_atreides.Common.Dict.{lookup, Dict}
use project_atreides.Common.Sort.{sorted}
use project_atreides.Rails.Boundary.{Raw, member, plain, other}
use project_atreides.Rails.Finality.{ledger_final, finality_key}
use project_atreides.Rails.Cato.Rails.{
  CashRail, rail_key, rail_value, rail_finality, RailState, usable, fedwire, fednow,
  tokenized_deposit, ports_wholesale, continuously_available,
}
use project_atreides.Rails.Cato.Inputs.{OperationContext}
use project_atreides.Common.{
  ℕ, Bool, true, false, not, Option, none, some, List, [], keep, ◌∷◌, if◌then◌else◌,
}
use project_atreides.Common.Int.{ℤ, pos, leb_ℤ}
use project_atreides.Common.Key.{◌==◌}

-- `rails`, by the rail
abbrev pub RailStates : Type 0
RailStates = Dict CashRail RailState

abbrev pub within_cap : Option ℤ → ℤ → Bool
within_cap none notional = true
within_cap (some cap) notional = leb_ℤ notional cap

-- `RAIL_FINALITY.get(rail) is FinalityClass.LEDGER_FINAL`
abbrev pub is_ledger_final : Raw CashRail → Bool
is_ledger_final (member r) = rail_finality r == ledger_final
is_ledger_final (plain _) = false
is_ledger_final other = false

abbrev pub is_ports : CashRail → Bool
is_ports r = r == ports_wholesale

-- `_serviceable`
unfoldable pub serviceable : RailState → OperationContext → Bool
serviceable s o =
    if not (usable s)
    then false
    else if not (within_cap s.value_cap o.notional)
    then false
    else if not o.within_business_hours
    then continuously_available (is_ledger_final s.rail) o.settlement_perimeter
    else true

-- The linked rail, where it is a member and in the rail state
abbrev pub linked_state : Raw CashRail → RailStates → Option RailState
linked_state (member r) rails = lookup r rails
linked_state (plain _) rails = none
linked_state other rails = none

abbrev pub is_ports_raw : Raw CashRail → Bool
is_ports_raw (member r) = is_ports r
is_ports_raw (plain _) = false
is_ports_raw other = false

-- Whether `_linked_rail_blocker` gives a reason
unfoldable pub linked_blocked : Raw CashRail → RailStates → OperationContext → Bool
linked_blocked linked rails o = elim (linked_state linked rails) [
  | none ↦ true
  | some s ↦ if is_ports_raw linked then true else not (serviceable s o)
]

-- Rule 4: the linked rail, or none
unfoldable pub recommend_linked : Raw CashRail → RailStates → OperationContext → Option CashRail
unfolding linked_blocked
recommend_linked (member r) rails o = if linked_blocked (member r) rails o then none else some r
recommend_linked (plain _) rails o = none
recommend_linked other rails o = none

-- `usable`, the dictionary of the usable rails
unfoldable pub usable_rails : RailStates → RailStates
usable_rails rails = keep (λ entry. usable entry.1) rails

-- `_prefer`
unfoldable pub prefer : RailStates → ℤ → List CashRail → Option CashRail
prefer open_rails notional [] = none
prefer open_rails notional (r ∷ rs) =
    let rest = prefer open_rails notional rs in
    elim (lookup r open_rails) [
      | none ↦ rest
      | some s ↦ if within_cap s.value_cap notional then some r else rest
    ]

abbrev pub by_value : CashRail × RailState → CashRail × RailState → Bool
by_value a b = is_le (compare (rail_value a.0) (rail_value b.0))

-- The last loop, over the rails in the order of their values
unfoldable pub first_serviceable : OperationContext → List (CashRail × RailState) → Option CashRail
first_serviceable o [] = none
first_serviceable o ((r, s) ∷ entries) =
    let rest = first_serviceable o entries in
    if is_ports r then rest else if not (serviceable s o) then rest else some r

abbrev pub or_else : {A : Type 0} → Option A → Option A → Option A
or_else none rest = rest
or_else (some a) rest = some a

abbrev pub when : {A : Type 0} → Bool → Option A → Option A
when test a = if test then a else none

-- Rule 1
unfoldable pub stress_rule : ℕ → OperationContext → RailStates → ℤ → Option CashRail
stress_rule quarter o open_rails stress =
    when (leb_ℤ (pos quarter) stress) (prefer open_rails o.notional (fedwire ∷ fednow ∷ []))

-- Rule 2
unfoldable pub material_rule : OperationContext → RailStates → Option CashRail
material_rule o open_rails =
    when o.is_lvps_material (prefer open_rails o.notional (fedwire ∷ fednow ∷ []))

-- Rule 3, whose test on FedNow is that of `_prefer`
unfoldable pub window_rule : OperationContext → RailStates → Option CashRail
window_rule o open_rails =
    when (not o.within_business_hours) (prefer open_rails o.notional (fednow ∷ []))

-- Rule 5
unfoldable pub tokenized_rule : OperationContext → RailStates → Option CashRail
tokenized_rule o open_rails =
    when o.tokenized_deposit_supported (prefer open_rails o.notional (tokenized_deposit ∷ []))

-- Rule 6
unfoldable pub default_rule : OperationContext → RailStates → Option CashRail
default_rule o open_rails = prefer open_rails o.notional (fedwire ∷ [])

-- The rules over the usable rails, and the last loop
unfoldable pub ladder : ℕ → OperationContext → RailStates → ℤ → Option CashRail
ladder quarter o open_rails stress = or_else (stress_rule quarter o open_rails stress) (
    or_else (material_rule o open_rails) (
      or_else (window_rule o open_rails) (
        or_else (tokenized_rule o open_rails) (
          or_else (default_rule o open_rails) (first_serviceable o (sorted by_value open_rails))))))

-- `_recommend_rail`
unfoldable pub recommend_rail : ℕ → OperationContext → RailStates → ℤ → Option CashRail
unfolding ladder recommend_linked usable_rails
recommend_rail quarter o rails stress = elim o.depository_linked_rail [
  | some linked ↦ recommend_linked linked rails o
  | none ↦ ladder quarter o (usable_rails rails) stress
]
