-- ===== src/Escalation/Tests.antt =====
-- Runs of the escalation register, atreides/escalation/register.py, and its theorems at them.
use project_atreides.Common.{◌≡◌, refl, none, some, List, [], ◌∷◌, ok, err, ◌↔◌, Member}
use project_atreides.Common.Int.{pos, negsuc}
use project_atreides.Common.Dict.{lookup, insert}
use project_atreides.Common.Key.{string_key}
use project_atreides.Escalation.{
  overdue, Escalation, Register, construct, empty_register, raise_escalation, acknowledge, state,
  gather, unacknowledged, overdue_at, deadline_precedes, not_found,
}
use project_atreides.Escalation.Invariant.{IsValid, empty_register-IsValid}
use project_atreides.Escalation.History.{
  Call, raising, acknowledging, run, perform, run-IsValid, Extends, run-Extends,
}
use project_atreides.Escalation.Queries.{IsWaiting, unacknowledged_exact, overdue_exact}

abbrev wire : Escalation
wire = record {
  escalation_id = "E-1";
  operation_id = "op-1";
  raised_at = pos 5;
  reason = "cap breach";
  routed_to = "tier 2";
  acknowledge_by = some (pos 60);
  doctrine_version = "v0.1";
}

abbrev repo : Escalation
repo = record {
  escalation_id = "E-2";
  operation_id = "op-2";
  raised_at = negsuc 9;
  reason = "fail";
  routed_to = "tier 1";
  acknowledge_by = none;
  doctrine_version = "v0.1";
}

abbrev morning : List Call
morning = raising wire ∷ raising repo ∷ raising wire ∷ acknowledging "E-9" "ops" (pos 7) ∷ []

abbrev desk : Register
desk = run morning empty_register

early_deadline : construct (record wire { acknowledge_by = some (pos 4) }) ≡ err deadline_precedes
unfolding construct
early_deadline = refl

unknown_acknowledgement : (acknowledge "E-9" "ops" (pos 7) desk).0 ≡ err not_found
unfolding acknowledge run perform construct raise_escalation empty_register lookup insert
unknown_acknowledgement = refl

overdue_then : overdue_at (pos 61) desk ≡ ok (wire ∷ [])
unfolding overdue_at unacknowledged gather acknowledge run perform construct raise_escalation
    empty_register lookup insert
overdue_then = refl

waiting_then : unacknowledged (pos 4) desk ≡ ok (repo ∷ [])
unfolding overdue_at unacknowledged gather acknowledge run perform construct raise_escalation
    empty_register lookup insert
waiting_then = refl

desk-IsValid : IsValid desk
desk-IsValid = run-IsValid morning empty_register empty_register-IsValid

run-IsValid_example : IsValid (run morning empty_register)
run-IsValid_example = run-IsValid morning empty_register empty_register-IsValid

run-Extends_example : Extends desk (run (acknowledging "E-1" "ana" (pos 70) ∷ []) desk)
run-Extends_example = run-Extends (acknowledging "E-1" "ana" (pos 70) ∷ []) desk

unacknowledged_exact_example :
    (es : List Escalation) × (unacknowledged (pos 4) desk ≡ ok es)
    × ((e : Escalation) → Member e es ↔ IsWaiting desk (pos 4) e)
unacknowledged_exact_example = unacknowledged_exact desk (pos 4) desk-IsValid

overdue_exact_example :
    (es : List Escalation) × (overdue_at (pos 61) desk ≡ ok es)
    × ((e : Escalation)
        → Member e es ↔ (
            (lookup e.escalation_id desk.raised_by_id ≡ some e)
            × (state e.escalation_id (pos 61) desk ≡ ok overdue)))
overdue_exact_example = overdue_exact desk (pos 61) desk-IsValid
