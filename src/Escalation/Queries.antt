-- ===== src/Escalation/Queries.antt =====
-- What the register reports, atreides/escalation/register.py: `state`, `unacknowledged` and
-- `overdue` agree with one another and with the records.
use project_atreides.Common.{
  String, true, false, ◌||◌, ◌≡◌, refl, sym, none, some, List, [], ◌∷◌, ok, arith, is_some, inl,
  inr, ◌∙◌, ap, if◌then◌else◌, not, Member, keep, Member-keep, Member-keep_intro, ◌↔◌, Option-cases,
}
use project_atreides.Common.Int.{ℤ, leb_ℤ, ◌≤ℤ◌}
use project_atreides.Common.Key.{string_key, contains-Member, Member-contains}
use project_atreides.Common.Dict.{lookup, has_key}
use project_atreides.Escalation.{
  overdue, Escalation, Register, construct, before, state, gather, unacknowledged, overdue_at,
}
use project_atreides.Escalation.Invariant.{IsValid}

-- An escalation that the register holds, raised by `as_of`, and that nobody has acknowledged.
abbrev pub IsWaiting : Register → ℤ → Escalation → Type 0
IsWaiting r as_of e =
    (lookup e.escalation_id r.raised_by_id ≡ some e)
    × (has_key e.escalation_id r.acknowledged_by_id ≡ false)
    × (leb_ℤ e.raised_at as_of ≡ true)

-- The escalations among `ids` that wait, in the order of `ids`.
waiting : Register → ℤ → List String → List Escalation
waiting r as_of [] = []
waiting r as_of (id ∷ ids) =
    let rest = waiting r as_of ids in
    elim (lookup id r.raised_by_id) [
      | none ↦ rest
      | some e ↦
          if has_key id r.acknowledged_by_id || not (leb_ℤ e.raised_at as_of)
          then rest
          else e ∷ rest
    ]

-- The loop of `unacknowledged` raises no `KeyError` over identifiers that were raised.
gather-waiting :
    (r : Register) (as_of : ℤ) (ids : List String)
    → ((id : String) → Member id ids → has_key id r.raised_by_id ≡ true)
    → gather r as_of ids ≡ ok (waiting r as_of ids)
unfolding gather waiting
gather-waiting r as_of [] all_raised = refl
gather-waiting r as_of (id ∷ ids) all_raised =
    ground
      (arith, all_raised id (inl refl), gather-waiting r as_of ids (λ j m. all_raised j (inr m)))

Member-waiting :
    (r : Register) (as_of : ℤ) (ids : List String) (e : Escalation)
    → IsValid r
    → Member e (waiting r as_of ids)
    → IsWaiting r as_of e
unfolding waiting
Member-waiting r as_of [] e v m = absurd m
Member-waiting r as_of (id ∷ ids) e v m = elim (Option-cases (lookup id r.raised_by_id)) [
  | inl gone ↦ ground (arith, Member-waiting r as_of ids e v)
  | inr (e', found) ↦
      let own = (v.filed id e' found).0 in ground (arith, own, Member-waiting r as_of ids e v)
]

Member-waiting_intro :
    (r : Register) (as_of : ℤ) (ids : List String) (e : Escalation)
    → Member e.escalation_id ids
    → IsWaiting r as_of e
    → Member e (waiting r as_of ids)
unfolding waiting
Member-waiting_intro r as_of [] e m w = absurd m
Member-waiting_intro r as_of (id ∷ ids) e (inl q) w = ground (arith, q)
Member-waiting_intro r as_of (id ∷ ids) e (inr m) w =
    ground (arith, Member-waiting_intro r as_of ids e m w)

order-raised :
    (r : Register)
    → IsValid r
    → (id : String) → Member id r.order
    → has_key id r.raised_by_id ≡ true
order-raised r v id m = sym (v.listed id) ∙ Member-contains r.order id m

-- On a valid register `unacknowledged` returns, and lists exactly the escalations raised no later
-- than `as_of` that nobody has acknowledged.
pub unacknowledged_exact :
    (r : Register) (as_of : ℤ)
    → IsValid r
    → (es : List Escalation) × (unacknowledged as_of r ≡ ok es)
      × ((e : Escalation) → Member e es ↔ IsWaiting r as_of e)
unfolding unacknowledged
unacknowledged_exact r as_of v = (
  waiting r as_of r.order,
  gather-waiting r as_of r.order (order-raised r v),
  λ e. (
    Member-waiting r as_of r.order e v,
    λ w.
        Member-waiting_intro r as_of r.order e
          (contains-Member r.order e.escalation_id
            (v.listed e.escalation_id ∙ ap (is_some {A = Escalation}) w.0))
          w,
  ),
)

-- What the constructor checked: a deadline is not before the raising.
deadline_after_raising :
    (e : Escalation) (as_of : ℤ)
    → construct e ≡ ok e
    → before e.acknowledge_by as_of ≡ true
    → leb_ℤ e.raised_at as_of ≡ true
unfolding construct
deadline_after_raising e as_of c late = ground arith

-- OVERDUE is derived only when nobody has acknowledged and the deadline has passed.
state-overdue :
    (r : Register) (as_of : ℤ) (e : Escalation)
    → lookup e.escalation_id r.raised_by_id ≡ some e
    → state e.escalation_id as_of r ≡ ok overdue
    → (has_key e.escalation_id r.acknowledged_by_id ≡ false)
      × (before e.acknowledge_by as_of ≡ true)
unfolding state
state-overdue r as_of e found h = ground arith

-- On a valid register `overdue` returns, and lists exactly those of its escalations whose derived
-- state is OVERDUE at that instant.
pub overdue_exact :
    (r : Register) (as_of : ℤ)
    → IsValid r
    → (es : List Escalation) × (overdue_at as_of r ≡ ok es)
      × ((e : Escalation)
          → Member e es ↔ (
              (lookup e.escalation_id r.raised_by_id ≡ some e)
              × (state e.escalation_id as_of r ≡ ok overdue)))
unfolding overdue_at state
overdue_exact r as_of v =
    let (es, listed, exact) = unacknowledged_exact r as_of v in
    (
      keep (λ e. before e.acknowledge_by as_of) es,
      rw listed,
      λ e. (
        λ m.
            let found = Member-keep (λ x. before x.acknowledge_by as_of) e es m in
            let w = (exact e).0 found.0 in (w.0, ground (arith, w.0, w.1, found.1)),
        λ h.
            let (free, late) = state-overdue r as_of e h.0 h.1 in
            let raised_by_then =
              deadline_after_raising e as_of (v.filed e.escalation_id e h.0).1 late in
            Member-keep_intro (λ x. before x.acknowledge_by as_of) e es
              ((exact e).1 (h.0, free, raised_by_then)) late,
      ),
    )

-- An overdue escalation that nobody acknowledges stays overdue at every later instant.
pub overdue_persists :
    (id : String) (t t' : ℤ) (r : Register)
    → t ≤ℤ t'
    → state id t r ≡ ok overdue
    → state id t' r ≡ ok overdue
unfolding state
overdue_persists id t t' r later h = ground arith
