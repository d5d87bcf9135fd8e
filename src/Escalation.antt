-- ===== src/Escalation.antt =====
-- The escalation register, atreides/escalation/register.py: escalations are raised, and count as
-- delivered only when somebody acknowledges them. Offsets are Python integers; an operation's UUID
-- and the doctrine version are carried and never read, so they are texts.
pub mod Invariant
pub mod History
pub mod Queries
mod Tests
use project_atreides.Common.{
  ℕ, String, Bool, false, not, Option, none, some, List, [], ◌∷◌, ◌++◌, if◌then◌else◌, Result, ok,
  err, ◌>>=◌, ◌>>◌, raise_if, keep, length, is_some,
}
use project_atreides.Common.Int.{ℤ, ltb_ℤ, leb_ℤ}
use project_atreides.Common.Key.{◌==◌, string_key}
use project_atreides.Common.Dict.{Dict, lookup, insert, has_key}

-- `EscalationState`
pub data EscalationState : Type 0 where
  raised acknowledged acknowledged_late overdue : EscalationState

-- The exceptions: the four `ValueError`s of `Escalation`, the one of `Acknowledgement`, the two
-- error classes of the module, and the `KeyError` of a subscript on a dictionary.
pub data Error : Type 0 where
  id_required reason_required destination_required deadline_precedes : Error
  acknowledger_required not_found already_acknowledged key_error : Error

pub record Escalation : Type 0 where
  pub escalation_id : String
  pub operation_id : String
  pub raised_at : ℤ
  pub reason : String
  pub routed_to : String
  pub acknowledge_by : Option ℤ
  pub doctrine_version : String

pub record Acknowledgement : Type 0 where
  pub escalation_id : String
  pub acknowledged_by : String
  pub acknowledged_at : ℤ

-- Whether a deadline is stated and lies before `t`.
abbrev pub before : Option ℤ → ℤ → Bool
before none t = false
before (some d) t = ltb_ℤ d t

-- `Escalation.__post_init__`, on the fields that the constructor was given
pub construct : Escalation → Result Error Escalation
construct e = do
  raise_if (e.escalation_id == "") id_required
  raise_if (e.reason == "") reason_required
  raise_if (e.routed_to == "") destination_required
  raise_if (before e.acknowledge_by e.raised_at) deadline_precedes
  ok e

-- `Escalation.has_deadline`
pub has_deadline : Escalation → Bool
has_deadline e = is_some e.acknowledge_by

-- `Acknowledgement.__post_init__`
pub construct_acknowledgement : Acknowledgement → Result Error Acknowledgement
construct_acknowledgement a = do raise_if (a.acknowledged_by == "") acknowledger_required; ok a

-- The attributes of `EscalationRegister`
pub record Register : Type 0 where
  pub raised_by_id : Dict String Escalation
  pub acknowledged_by_id : Dict String Acknowledgement
  pub order : List String

-- `EscalationRegister.__init__`
pub empty_register : Register
empty_register = record { raised_by_id = []; acknowledged_by_id = []; order = [] }

pub raise_escalation : Escalation → Register → Result Error Escalation × Register
raise_escalation e r =
    if has_key e.escalation_id r.raised_by_id then (err already_acknowledged, r) else (
      ok e,
      record r {
        raised_by_id = insert e.escalation_id e r.raised_by_id;
        order = r.order ++ e.escalation_id ∷ [];
      },
    )

-- The last statements of `acknowledge`: the new record is stored once it is constructed.
abbrev store_acknowledgement :
    String → Result Error Acknowledgement → Register → Result Error Acknowledgement × Register
store_acknowledgement id (err x) r = (err x, r)
store_acknowledgement id (ok a) r =
    (ok a, record r { acknowledged_by_id = insert id a r.acknowledged_by_id })

pub acknowledge : String → String → ℤ → Register → Result Error Acknowledgement × Register
unfolding construct_acknowledgement
acknowledge id by at r =
    if not (has_key id r.raised_by_id)
    then (err not_found, r)
    else if has_key id r.acknowledged_by_id
    then (err already_acknowledged, r)
    else store_acknowledgement id
        (construct_acknowledgement
          (record { escalation_id = id; acknowledged_by = by; acknowledged_at = at }))
        r

-- `state`, once the two dictionaries have been read
abbrev derived_state : Option ℤ → Option Acknowledgement → ℤ → EscalationState
derived_state deadline (some a) as_of =
    if before deadline a.acknowledged_at then acknowledged_late else acknowledged
derived_state deadline none as_of = if before deadline as_of then overdue else raised

abbrev state_of : Option Escalation → Option Acknowledgement → ℤ → Result Error EscalationState
state_of none a as_of = err not_found
state_of (some e) a as_of = ok (derived_state e.acknowledge_by a as_of)

pub state : String → ℤ → Register → Result Error EscalationState
state id as_of r = state_of (lookup id r.raised_by_id) (lookup id r.acknowledged_by_id) as_of

-- `d[key]`
abbrev pub get : {V : Type 0} → String → Dict String V → Result Error V
get key d = elim (lookup key d) [ none ↦ err key_error | some v ↦ ok v ]

-- The generator of `unacknowledged`: an acknowledged identifier is skipped before `_raised` is read.
pub gather : Register → ℤ → List String → Result Error (List Escalation)
gather r as_of [] = ok []
gather r as_of (id ∷ ids) =
    let rest = gather r as_of ids in
    if has_key id r.acknowledged_by_id then rest else do
      e ← get id r.raised_by_id
      es ← rest
      ok (if leb_ℤ e.raised_at as_of then e ∷ es else es)

pub unacknowledged : ℤ → Register → Result Error (List Escalation)
unfolding gather
unacknowledged as_of r = gather r as_of r.order

pub overdue_at : ℤ → Register → Result Error (List Escalation)
unfolding unacknowledged
overdue_at as_of r = do
  es ← unacknowledged as_of r
  ok (keep (λ e. before e.acknowledge_by as_of) es)

pub acknowledgement_for : String → Register → Result Error (Option Acknowledgement)
acknowledgement_for id r =
    if has_key id r.raised_by_id then ok (lookup id r.acknowledged_by_id) else err not_found

-- The property `raised`
pub collect : Register → List String → Result Error (List Escalation)
collect r [] = ok []
collect r (id ∷ ids) = do e ← get id r.raised_by_id; es ← collect r ids; ok (e ∷ es)

pub raised_escalations : Register → Result Error (List Escalation)
unfolding collect
raised_escalations r = collect r r.order

-- `__len__`
pub size : Register → ℕ
size r = length r.raised_by_id
