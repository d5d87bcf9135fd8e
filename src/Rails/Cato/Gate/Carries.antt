-- ===== src/Rails/Cato/Gate/Carries.antt =====
-- atreides/rails/cato_cash.py: the rail that `_recommend_rail` chooses can carry the operation.
use project_atreides.Rails.Funding.{FundingState}
use project_atreides.Rails.Cato.Rails.{
  tokenized_deposit, ports_wholesale, CashRail, RailState, usable, rail_key, continuously_available,
  is_on_us,
}
use project_atreides.Common.{
  ℕ, ap, subst, inl, inr, true, none, some, arith, Member, Bool-cases, Option-cases, Member-keep,
  ◌≡◌, ◌≢◌, ◌⊎◌, refl, sym, Bool, false, Option, ok, String, ◌∙◌,
}
use project_atreides.Common.Int.{ℤ}
use project_atreides.Rails.Cato.Inputs.{OperationContext, FreshnessPolicy}
use project_atreides.Rails.Cato.Ladder.{
  RailStates, recommend_linked, recommend_rail, linked_blocked, usable_rails, serviceable,
  within_cap, is_ports,
}
use project_atreides.Rails.Cato.Gate.Choice.{
  IsChosen, ladder-some, serviceable-open, IsPreferred, IsPreferred-named,
}
use project_atreides.Rails.Boundary.{plain, other, Raw, member}
use project_atreides.Common.Dict.{lookup, lookup-Member}
use project_atreides.Rails.Cato.Checks.{Reading}
use project_atreides.Rails.Cato.Decision.{CatoCashDecision, proceed}
use project_atreides.Rails.Cato.Gate.{evaluate}
use project_atreides.Rails.Cato.Gate.Proceed.{evaluate-judge, judge-proceed}

-- The rail, with its state: in the rail state, usable, and with no value cap below the notional.
abbrev pub IsOpen : OperationContext → RailStates → CashRail → RailState → Type 0
IsOpen o rails r s =
    Member (r, s) rails × (usable s ≡ true) × (within_cap s.value_cap o.notional ≡ true)

-- Each rail state stands under its own rail.
abbrev pub IsKeyed : RailStates → Type 0
IsKeyed rails = (r : CashRail) (s : RailState) → Member (r, s) rails → s.rail ≡ member r

linked-some :
    (l : Raw CashRail) (rails : RailStates) (o : OperationContext) (r : CashRail)
    → recommend_linked l rails o ≡ some r
    → (l ≡ member r)
      × ((s : RailState) × Member (r, s) rails × (serviceable s o ≡ true) × (r ≢ ports_wholesale))
unfolding recommend_linked linked_blocked
linked-some (plain t) rails o r h = cc h
linked-some other rails o r h = cc h
linked-some (member q) rails o r h = elim (Option-cases (lookup q rails)) [
  | inl e ↦ cc (rw (recommend_linked, linked_blocked, e) at h)
  | inr (s, e) ↦ elim (Bool-cases (is_ports q)) [
    | inl e' ↦ cc (rw (recommend_linked, linked_blocked, e, e') at h)
    | inr e' ↦ elim (Bool-cases (serviceable s o)) [
      | inr e'' ↦ cc (rw (recommend_linked, linked_blocked, e, e', e'') at h)
      | inl e'' ↦
          let same : some q ≡ some r = rw (recommend_linked, linked_blocked, e, e', e'') at h in
          let same' : q ≡ r = cc same in
          (
            ap member same',
            (
              s,
              subst (λ x. Member (x, s) rails) same' (lookup-Member q s rails e),
              e'',
              λ p. ground (arith, rail_key.eqb_iff q ports_wholesale),
            ),
          )
    ]
  ]
]

-- A chosen rail, its state, and how it came to be chosen.
IsRecommended : OperationContext → RailStates → CashRail → Type 0
IsRecommended o rails r =
    (s : RailState) × IsOpen o rails r s
    × (r ≢ ports_wholesale)
    × ((serviceable s o ≡ true) ⊎ ((o.depository_linked_rail ≡ none) × IsPreferred r))
    × ((l : Raw CashRail) → o.depository_linked_rail ≡ some l → l ≡ member r)

chosen-IsRecommended :
    (o : OperationContext) (rails : RailStates) (r : CashRail)
    → o.depository_linked_rail ≡ none
    → IsChosen o (usable_rails rails) r
    → IsRecommended o rails r
unfolding IsChosen IsRecommended usable_rails
chosen-IsRecommended o rails r free (s, m, fits, how) =
    let (there, opened) = Member-keep (λ entry. usable entry.1) (r, s) rails m in
    (
      s,
      (there, opened, fits),
      elim how [ inl listed ↦ IsPreferred-named r listed | inr (ready, named) ↦ named ],
      elim how [ inl listed ↦ inr (free, listed) | inr (ready, named) ↦ inl ready ],
      λ l e. cc (e, free),
    )

recommend_rail-some :
    (quarter : ℕ) (o : OperationContext) (rails : RailStates) (stress : ℤ) (r : CashRail)
    → recommend_rail quarter o rails stress ≡ some r
    → IsRecommended o rails r
unfolding recommend_rail IsRecommended
recommend_rail-some quarter o rails stress r h = elim (Option-cases o.depository_linked_rail) [
  | inl free ↦
      chosen-IsRecommended o rails r free
        (ladder-some quarter o (usable_rails rails) stress r (rw (recommend_rail, free) at h))
  | inr (l, linked) ↦
      let (same, (s, there, ready, named)) =
        linked-some l rails o r (rw (recommend_rail, linked) at h) in
      (
        s,
        (there, (serviceable-open s o ready).0, (serviceable-open s o ready).1),
        named,
        inl ready,
        λ k e. ground (arith, same, linked, e),
      )
]

-- A preferred rail under its own rail is serviceable, but for a tokenized deposit out of hours.
preferred_serviceable :
    (o : OperationContext) (r : CashRail) (s : RailState)
    → IsPreferred r
    → s.rail ≡ member r
    → usable s ≡ true
    → within_cap s.value_cap o.notional ≡ true
    → (serviceable s o ≡ true)
      ⊎ ((r ≡ tokenized_deposit)
          × (o.within_business_hours ≡ false)
          × (is_on_us o.settlement_perimeter ≡ false))
unfolding serviceable continuously_available
preferred_serviceable o r s (inl e) keyed opened fits =
    inl (rw (opened, fits, keyed, e) (ground arith))
preferred_serviceable o r s (inr (inl e)) keyed opened fits =
    inl (rw (opened, fits, keyed, e) (ground arith))
preferred_serviceable o r s (inr (inr (inl e))) keyed opened fits =
    elim (Bool-cases o.within_business_hours) [
      | inl open_now ↦ inl (rw (opened, fits, open_now) refl)
      | inr closed_now ↦ elim (Bool-cases (is_on_us o.settlement_perimeter)) [
        | inl on ↦ inl (rw (opened, fits, closed_now, keyed, e, on) refl)
        | inr off ↦ inr (e, closed_now, off)
      ]
    ]
preferred_serviceable o r s (inr (inr (inr m))) keyed opened fits = absurd m

module _ (quarter : ℕ) (parse_id : String → Option String) where
  proceed-IsRecommended :
      (o : OperationContext) (f : FundingState) (rails : RailStates) (reading : Reading)
      (age : Option ℤ) (policy : Option FreshnessPolicy) (id digest : Option String) (halted : Bool)
      (d : CatoCashDecision)
      → evaluate quarter parse_id o f rails reading age policy id digest halted ≡ ok d
      → d.decision ≡ proceed
      → (r : CashRail) × (d.recommended_rail ≡ some r) × IsRecommended o rails r
  proceed-IsRecommended o f rails reading age policy id digest halted d h p =
      let (free, known, judged, same) =
        evaluate-judge quarter parse_id o f rails reading age policy id digest halted d h p in
      let (stress, r, read, quiet, chosen, rail) =
        judge-proceed quarter o f rails reading age policy judged in
      (r, sym same ∙ rail, recommend_rail-some quarter o rails stress r chosen)

  -- When `evaluate` returns a PROCEED, it recommends a rail that is in the rail state, usable and
  -- without a value cap below the notional, and that is not the PORTS placeholder. A
  -- depository-linked operation gets the rail that it is linked to and no other.
  pub proceed-IsOpen :
      (o : OperationContext) (f : FundingState) (rails : RailStates) (reading : Reading)
      (age : Option ℤ) (policy : Option FreshnessPolicy) (id digest : Option String) (halted : Bool)
      (d : CatoCashDecision)
      → evaluate quarter parse_id o f rails reading age policy id digest halted ≡ ok d
      → d.decision ≡ proceed
      → (r : CashRail) × (s : RailState) × (d.recommended_rail ≡ some r)
        × IsOpen o rails r s
        × (r ≢ ports_wholesale)
        × ((l : Raw CashRail) → o.depository_linked_rail ≡ some l → l ≡ member r)
  unfolding IsRecommended
  proceed-IsOpen o f rails reading age policy id digest halted d h p =
      let (r, rail, (s, opened, named, how, linked)) =
        proceed-IsRecommended o f rails reading age policy id digest halted d h p in
      (r, s, rail, opened, named, linked)

  -- When `evaluate` returns a PROCEED and each rail state stands under its own rail, the recommended
  -- rail passes `_serviceable`, the predicate of check 6, but for one case: a tokenized deposit
  -- preferred by rule 5 for an operation with no linked rail, outside business hours and with a
  -- perimeter other than ON_US.
  pub proceed-serviceable :
      (o : OperationContext) (f : FundingState) (rails : RailStates) (reading : Reading)
      (age : Option ℤ) (policy : Option FreshnessPolicy) (id digest : Option String) (halted : Bool)
      (d : CatoCashDecision)
      → IsKeyed rails
      → evaluate quarter parse_id o f rails reading age policy id digest halted ≡ ok d
      → d.decision ≡ proceed
      → (r : CashRail) × (s : RailState) × (d.recommended_rail ≡ some r)
        × Member (r, s) rails
        × ((serviceable s o ≡ true)
            ⊎ ((o.depository_linked_rail ≡ none)
                × (r ≡ tokenized_deposit)
                × (o.within_business_hours ≡ false)
                × (is_on_us o.settlement_perimeter ≡ false)))
  unfolding IsRecommended
  proceed-serviceable o f rails reading age policy id digest halted d keyed h p =
      let (r, rail, (s, (there, opened, fits), named, how, linked)) =
        proceed-IsRecommended o f rails reading age policy id digest halted d h p in
      (
        r,
        s,
        rail,
        there,
        elim how [
          | inl ready ↦ inl ready
          | inr (free, listed) ↦
              elim (preferred_serviceable o r s listed (keyed r s there) opened fits) [
                | inl ready ↦ inl ready
                | inr (token, closed_now, off) ↦ inr (free, token, closed_now, off)
              ]
        ],
      )
