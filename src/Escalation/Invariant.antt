-- ===== src/Escalation/Invariant.antt =====
-- What holds of the register between two calls: atreides/escalation/register.py keeps two
-- dictionaries and a list of identifiers, and these agree.
use project_atreides.Common.{
  String, true, false, ◌≡◌, refl, some, [], ◌∷◌, ok, arith, length, length-append, Bool-cases, inl,
  inr, if◌then◌else◌,
}
use mathlib.Core.Option.{some-injective}
use project_atreides.Common.Int.{ℤ}
use project_atreides.Common.Key.{
  ◌==◌, string_key, contains, has_duplicates, ==-eq, contains-snoc, has_duplicates-snoc,
}
use project_atreides.Common.Dict.{lookup, has_key, lookup-insert, has_key-insert, length-insert_new}
use project_atreides.Escalation.{
  Escalation, Acknowledgement, Register, construct, construct_acknowledgement, empty_register,
  raise_escalation, acknowledge,
}

-- Every escalation is filed under its own identifier and passed the constructor's checks; every
-- acknowledgement belongs to a raised escalation and names somebody; the order lists the
-- identifiers raised, each once.
pub record IsValid (r : Register) : Type 0 where
  pub filed :
      (id : String) (e : Escalation)
      → lookup id r.raised_by_id ≡ some e
      → (e.escalation_id ≡ id) × (construct e ≡ ok e)
  pub delivered :
      (id : String) (a : Acknowledgement)
      → lookup id r.acknowledged_by_id ≡ some a
      → (has_key id r.raised_by_id ≡ true)
        × (a.escalation_id ≡ id)
        × ((a.acknowledged_by == "") ≡ false)
  pub listed : (id : String) → contains r.order id ≡ has_key id r.raised_by_id
  pub unrepeated : has_duplicates r.order ≡ false
  pub counted : length r.order ≡ length r.raised_by_id

pub empty_register-IsValid : IsValid empty_register
unfolding empty_register lookup
empty_register-IsValid = record {
  filed = λ id e h. cc;
  delivered = λ id a h. cc;
  listed = λ id. refl;
  unrepeated = refl;
  counted = refl;
}

-- Raising a constructed escalation keeps the register valid, whether it is recorded or refused.
pub raise_escalation-IsValid :
    (e : Escalation) (r : Register)
    → construct e ≡ ok e
    → IsValid r
    → IsValid (raise_escalation e r).1
unfolding raise_escalation
raise_escalation-IsValid e r c v = elim (Bool-cases (has_key e.escalation_id r.raised_by_id)) [
  | inl old ↦ rw old v
  | inr new ↦ rw new (record {
    filed = λ id e' h. filed_after id e' (rw lookup-insert at h);
    delivered = λ id a h.
        let old = v.delivered id a h in (rw has_key-insert (rw old.0 (ground arith)), old.1, old.2);
    listed = λ id. rw (contains-snoc, has_key-insert) (ground (arith, v.listed id));
    unrepeated = rw has_duplicates-snoc (ground (arith, v.unrepeated, v.listed e.escalation_id));
    counted = omega (
      arith,
      length-append {0} r.order (e.escalation_id ∷ []),
      v.counted,
      length-insert_new e.escalation_id e r.raised_by_id new,
    );
  })
]
  where
    filed_after :
        (id : String) (e' : Escalation)
        → (if e.escalation_id == id then some e else lookup id r.raised_by_id) ≡ some e'
        → (e'.escalation_id ≡ id) × (construct e' ≡ ok e')
    filed_after id e' h = elim (Bool-cases (e.escalation_id == id)) [
      | inl q ↦ let same : e ≡ e' = some-injective _ _ (rw q at h) in rw (← same) (==-eq q, c)
      | inr q ↦ v.filed id e' (rw q at h)
    ]

-- Acknowledging keeps the register valid, whatever the identifier, the name and the instant are.
pub acknowledge-IsValid :
    (id by : String) (at : ℤ) (r : Register) → IsValid r → IsValid (acknowledge id by at r).1
unfolding acknowledge construct_acknowledgement
acknowledge-IsValid id by at r v = elim (Bool-cases (has_key id r.raised_by_id)) [
  | inr new ↦ rw new v
  | inl old ↦ elim (Bool-cases (has_key id r.acknowledged_by_id)) [
    | inl taken ↦ rw (old, taken) v
    | inr free ↦ elim (Bool-cases (by == "")) [
      | inl nameless ↦ rw (old, free, nameless) v
      | inr named ↦
          rw (old, free, named)
            (record {
              filed = v.filed;
              delivered = λ id' a h. delivered_after old named id' a (rw lookup-insert at h);
              listed = v.listed;
              unrepeated = v.unrepeated;
              counted = v.counted;
            })
    ]
  ]
]
  where
    delivered_after :
        has_key id r.raised_by_id ≡ true
        → (by == "") ≡ false
        → (id' : String) (a : Acknowledgement)
        → (if id == id'
            then some (record { escalation_id = id; acknowledged_by = by; acknowledged_at = at })
            else lookup id' r.acknowledged_by_id)
          ≡ some a
        → (has_key id' r.raised_by_id ≡ true)
          × (a.escalation_id ≡ id')
          × ((a.acknowledged_by == "") ≡ false)
    delivered_after old named id' a h = elim (Bool-cases (id == id')) [
      | inl q ↦
          let same = some-injective _ _ (rw q at h) in
          let there : id ≡ id' = ==-eq q in rw (← same) (rw (← there) (old, refl, named))
      | inr q ↦ v.delivered id' a (rw q at h)
    ]
