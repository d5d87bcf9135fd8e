-- ===== src/Escalation/History.antt =====
-- Any sequence of calls on an EscalationRegister (atreides/escalation/register.py): the register is
-- append-only.
use mathlib.Core.List.{append_assoc, append-nil}
use project_atreides.Common.{
  String, ◌≡◌, refl, sym, some, List, [], ◌∷◌, ◌++◌, Result, ok, err, arith, Bool-cases, inl, inr,
}
use project_atreides.Common.Int.{ℤ}
use project_atreides.Common.Key.{◌==◌, string_key}
use project_atreides.Common.Dict.{lookup, has_key, lookup-insert_new}
use project_atreides.Escalation.{
  Escalation, Acknowledgement, Error, Register, construct, construct_acknowledgement,
  raise_escalation, acknowledge,
}
use project_atreides.Escalation.Invariant.{IsValid, raise_escalation-IsValid, acknowledge-IsValid}

-- A caller's statement: it constructs an escalation and raises it, or it acknowledges one.
pub data Call : Type 0 where
  raising : Escalation → Call
  acknowledging : String → String → ℤ → Call

-- An escalation whose constructor raises never reaches the register.
abbrev raise_constructed : Result Error Escalation → Register → Register
raise_constructed (err _) r = r
raise_constructed (ok e) r = (raise_escalation e r).1

unfoldable pub perform : Call → Register → Register
perform (raising e) r = raise_constructed (construct e) r
perform (acknowledging id by at) r = (acknowledge id by at r).1

unfoldable pub run : List Call → Register → Register
run [] r = r
run (c ∷ cs) r = run cs (perform c r)

construct-ok : (e e' : Escalation) → construct e ≡ ok e' → e' ≡ e
unfolding construct
construct-ok e e' h = ground arith

perform-IsValid : (c : Call) (r : Register) → IsValid r → IsValid (perform c r)
unfolding perform
perform-IsValid (raising e) r v = from (construct e) refl
  where
    from : (m : Result Error Escalation) → construct e ≡ m → IsValid (raise_constructed m r)
    from (err _) h = v
    from (ok e') h =
        raise_escalation-IsValid e' r
          (let same : e ≡ e' = sym (construct-ok e e' h) in rw same at h) v
perform-IsValid (acknowledging id by at) r v = acknowledge-IsValid id by at r v

-- Every sequence of calls, refused calls among them, leaves a valid register.
pub run-IsValid : (cs : List Call) (r : Register) → IsValid r → IsValid (run cs r)
unfolding run
run-IsValid [] r v = v
run-IsValid (c ∷ cs) r v = run-IsValid cs (perform c r) (perform-IsValid c r v)

-- What a later register keeps of an earlier one.
pub record Extends (r s : Register) : Type 0 where
  pub raised_kept :
      (id : String) (e : Escalation)
      → lookup id r.raised_by_id ≡ some e
      → lookup id s.raised_by_id ≡ some e
  pub acknowledged_kept :
      (id : String) (a : Acknowledgement)
      → lookup id r.acknowledged_by_id ≡ some a
      → lookup id s.acknowledged_by_id ≡ some a
  pub order_kept : (later : List String) × (s.order ≡ r.order ++ later)

Extends-refl : (r : Register) → Extends r r
Extends-refl r = record {
  raised_kept = λ id e h. h;
  acknowledged_kept = λ id a h. h;
  order_kept = ([], sym (append-nil r.order));
}

Extends-trans : {r s t : Register} → Extends r s → Extends s t → Extends r t
Extends-trans {r} {s} {t} x y = record {
  raised_kept = λ id e h. y.raised_kept id e (x.raised_kept id e h);
  acknowledged_kept = λ id a h. y.acknowledged_kept id a (x.acknowledged_kept id a h);
  order_kept = (
    x.order_kept.0 ++ y.order_kept.0,
    rw (y.order_kept.1, x.order_kept.1) (append_assoc r.order x.order_kept.0 y.order_kept.0),
  );
}

raise_escalation-Extends : (e : Escalation) (r : Register) → Extends r (raise_escalation e r).1
unfolding raise_escalation
raise_escalation-Extends e r = elim (Bool-cases (has_key e.escalation_id r.raised_by_id)) [
  | inl old ↦ rw old (Extends-refl r)
  | inr new ↦ rw new (record {
    raised_kept = λ id e' h. lookup-insert_new id e.escalation_id e e' r.raised_by_id new h;
    acknowledged_kept = λ id a h. h;
    order_kept = (e.escalation_id ∷ [], refl);
  })
]

pub acknowledge-Extends :
    (id by : String) (at : ℤ) (r : Register) → Extends r (acknowledge id by at r).1
unfolding acknowledge construct_acknowledgement
acknowledge-Extends id by at r = elim (Bool-cases (has_key id r.raised_by_id)) [
  | inr new ↦ rw new (Extends-refl r)
  | inl old ↦ elim (Bool-cases (has_key id r.acknowledged_by_id)) [
    | inl taken ↦ rw (old, taken) (Extends-refl r)
    | inr free ↦ elim (Bool-cases (by == "")) [
      | inl nameless ↦ rw (old, free, nameless) (Extends-refl r)
      | inr named ↦
          rw (old, free, named)
            (record {
              raised_kept = λ id' e h. h;
              acknowledged_kept =
                  λ id' a h. lookup-insert_new id' id _ a r.acknowledged_by_id free h;
              order_kept = ([], sym (append-nil r.order));
            })
    ]
  ]
]

perform-Extends : (c : Call) (r : Register) → Extends r (perform c r)
unfolding perform
perform-Extends (raising e) r = elim (construct e) as (λ m. Extends r (raise_constructed m r)) [
  | err _ ↦ Extends-refl r
  | ok e' ↦ raise_escalation-Extends e' r
]
perform-Extends (acknowledging id by at) r = acknowledge-Extends id by at r

-- No sequence of calls removes or changes an escalation or an acknowledgement, and the order of
-- raising only grows at its end.
pub run-Extends : (cs : List Call) (r : Register) → Extends r (run cs r)
unfolding run
run-Extends [] r = Extends-refl r
run-Extends (c ∷ cs) r = Extends-trans (perform-Extends c r) (run-Extends cs (perform c r))
