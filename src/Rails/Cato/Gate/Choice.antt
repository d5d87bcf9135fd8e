-- ===== src/Rails/Cato/Gate/Choice.antt =====
-- What the rules of `_recommend_rail`, atreides/rails/cato_cash.py, choose among.
use project_atreides.Rails.Cato.Rails.{
  tokenized_deposit, fedwire, fednow, ports_wholesale, CashRail, RailState, usable, rail_key,
}
use project_atreides.Common.{
  refl, sym, subst, inl, inr, Bool, true, false, Option, none, some, List, [], arith, Member,
  Bool-cases, Option-cases, ◌≡◌, ◌≢◌, ◌⊎◌, ◌∷◌, ℕ,
}
use project_atreides.Common.Int.{ℤ}
use project_atreides.Rails.Cato.Inputs.{OperationContext}
use project_atreides.Rails.Cato.Ladder.{
  RailStates, or_else, when, prefer, first_serviceable, serviceable, within_cap, is_ports, ladder,
  by_value, stress_rule, material_rule, window_rule, tokenized_rule, default_rule,
}
use project_atreides.Common.Dict.{lookup, lookup-Member}
use project_atreides.Common.Sort.{sorted, Member-sorted}

or_else-some :
    {A : Type 0} (a b : Option A) (r : A) → or_else a b ≡ some r → (a ≡ some r) ⊎ (b ≡ some r)
or_else-some none b r h = inr h
or_else-some (some a) b r h = inl h

when-some :
    {A : Type 0} (test : Bool) (a : Option A) (r : A)
    → when test a ≡ some r
    → (test ≡ true) × (a ≡ some r)
when-some true a r h = (refl, h)
when-some false a r h = cc h

prefer-some :
    (rails : RailStates) (notional : ℤ) (rs : List CashRail) (r : CashRail)
    → prefer rails notional rs ≡ some r
    → Member r rs
      × ((s : RailState) × Member (r, s) rails × (within_cap s.value_cap notional ≡ true))
unfolding prefer
prefer-some rails notional [] r h = cc h
prefer-some rails notional (q ∷ rs) r h = elim (Option-cases (lookup q rails)) [
  | inl e ↦ let (m, found) = prefer-some rails notional rs r (rw (prefer, e) at h) in (inr m, found)
  | inr (s, e) ↦ elim (Bool-cases (within_cap s.value_cap notional)) [
    | inl fits ↦
        let same : some q ≡ some r = rw (prefer, e, fits) at h in
        let same' : q ≡ r = cc same in
        (
          inl (sym same'),
          (s, subst (λ x. Member (x, s) rails) same' (lookup-Member q s rails e), fits),
        )
    | inr over ↦
        let (m, found) = prefer-some rails notional rs r (rw (prefer, e, over) at h) in
        (inr m, found)
  ]
]

first_serviceable-some :
    (o : OperationContext) (entries : List (CashRail × RailState)) (r : CashRail)
    → first_serviceable o entries ≡ some r
    → (s : RailState) × Member (r, s) entries × (serviceable s o ≡ true) × (r ≢ ports_wholesale)
unfolding first_serviceable
first_serviceable-some o [] r h = cc h
first_serviceable-some o ((q, s) ∷ entries) r h = elim (Bool-cases (is_ports q)) [
  | inl e ↦
      let (t, m, ready, named) =
        first_serviceable-some o entries r (rw (first_serviceable, e) at h) in
      (t, inr m, ready, named)
  | inr e ↦ elim (Bool-cases (serviceable s o)) [
    | inl e' ↦
        let same : some q ≡ some r = rw (first_serviceable, e, e') at h in
        let same' : q ≡ r = cc same in
        (s, inl (cc same'), e', λ p. ground (arith, rail_key.eqb_iff q ports_wholesale))
    | inr e' ↦
        let (t, m, ready, named) =
          first_serviceable-some o entries r (rw (first_serviceable, e, e') at h) in
        (t, inr m, ready, named)
  ]
]

pub serviceable-open :
    (s : RailState) (o : OperationContext)
    → serviceable s o ≡ true
    → (usable s ≡ true) × (within_cap s.value_cap o.notional ≡ true)
unfolding serviceable
serviceable-open s o h = ground arith

abbrev pub IsPreferred : CashRail → Type 0
IsPreferred r = Member r (fedwire ∷ fednow ∷ tokenized_deposit ∷ [])

pub IsPreferred-named : (r : CashRail) → IsPreferred r → r ≢ ports_wholesale
IsPreferred-named r m e = ground (arith, e, rail_key.eqb_iff r r)

-- What the ladder's answer is in the dictionary of the usable rails.
unfoldable pub IsChosen : OperationContext → RailStates → CashRail → Type 0
IsChosen o open_rails r =
    (s : RailState) × Member (r, s) open_rails
    × (within_cap s.value_cap o.notional ≡ true)
    × ((IsPreferred r) ⊎ ((serviceable s o ≡ true) × (r ≢ ports_wholesale)))

preferred :
    (o : OperationContext) (open_rails : RailStates) (rs : List CashRail) (r : CashRail)
    → ((q : CashRail) → Member q rs → IsPreferred q)
    → prefer open_rails o.notional rs ≡ some r
    → IsChosen o open_rails r
unfolding IsChosen
preferred o open_rails rs r listed h =
    let (m, found) = prefer-some open_rails o.notional rs r h in
    let (s, there, fits) = found in (s, there, fits, inl (listed r m))

gross : (q : CashRail) → Member q (fedwire ∷ fednow ∷ []) → IsPreferred q
gross q (inl e) = inl e
gross q (inr (inl e)) = inr (inl e)
gross q (inr (inr m)) = absurd m

instant : (q : CashRail) → Member q (fednow ∷ []) → IsPreferred q
instant q (inl e) = inr (inl e)
instant q (inr m) = absurd m

tokenized : (q : CashRail) → Member q (tokenized_deposit ∷ []) → IsPreferred q
tokenized q (inl e) = inr (inr (inl e))
tokenized q (inr m) = absurd m

default_rail : (q : CashRail) → Member q (fedwire ∷ []) → IsPreferred q
default_rail q (inl e) = inl e
default_rail q (inr m) = absurd m

last_loop :
    (o : OperationContext) (open_rails : RailStates) (r : CashRail)
    → first_serviceable o (sorted by_value open_rails) ≡ some r
    → IsChosen o open_rails r
unfolding IsChosen
last_loop o open_rails r h =
    let (s, m, ready, named) = first_serviceable-some o (sorted by_value open_rails) r h in
    (
      s,
      Member-sorted by_value (r, s) open_rails m,
      (serviceable-open s o ready).1,
      inr (ready, named),
    )

when_preferred :
    (o : OperationContext) (open_rails : RailStates) (rs : List CashRail) (r : CashRail)
    (test : Bool)
    → ((q : CashRail) → Member q rs → IsPreferred q)
    → when test (prefer open_rails o.notional rs) ≡ some r
    → IsChosen o open_rails r
when_preferred o open_rails rs r test listed h =
    preferred o open_rails rs r listed (when-some test _ r h).1

stress_rule-some :
    (quarter : ℕ) (o : OperationContext) (open_rails : RailStates) (stress : ℤ) (r : CashRail)
    → stress_rule quarter o open_rails stress ≡ some r
    → IsChosen o open_rails r
unfolding stress_rule
stress_rule-some quarter o open_rails stress r h = when_preferred o open_rails _ r _ gross h

material_rule-some :
    (o : OperationContext) (open_rails : RailStates) (r : CashRail)
    → material_rule o open_rails ≡ some r
    → IsChosen o open_rails r
unfolding material_rule
material_rule-some o open_rails r h = when_preferred o open_rails _ r _ gross h

window_rule-some :
    (o : OperationContext) (open_rails : RailStates) (r : CashRail)
    → window_rule o open_rails ≡ some r
    → IsChosen o open_rails r
unfolding window_rule
window_rule-some o open_rails r h = when_preferred o open_rails _ r _ instant h

tokenized_rule-some :
    (o : OperationContext) (open_rails : RailStates) (r : CashRail)
    → tokenized_rule o open_rails ≡ some r
    → IsChosen o open_rails r
unfolding tokenized_rule
tokenized_rule-some o open_rails r h = when_preferred o open_rails _ r _ tokenized h

default_rule-some :
    (o : OperationContext) (open_rails : RailStates) (r : CashRail)
    → default_rule o open_rails ≡ some r
    → IsChosen o open_rails r
unfolding default_rule
default_rule-some o open_rails r h = preferred o open_rails _ r default_rail h

pub ladder-some :
    (quarter : ℕ) (o : OperationContext) (open_rails : RailStates) (stress : ℤ) (r : CashRail)
    → ladder quarter o open_rails stress ≡ some r
    → IsChosen o open_rails r
unfolding ladder
ladder-some quarter o open_rails stress r h =
    elim (or_else-some (stress_rule quarter o open_rails stress) _ r h) [
      | inl chosen ↦ stress_rule-some quarter o open_rails stress r chosen
      | inr h1 ↦ elim (or_else-some (material_rule o open_rails) _ r h1) [
        | inl chosen ↦ material_rule-some o open_rails r chosen
        | inr h2 ↦ elim (or_else-some (window_rule o open_rails) _ r h2) [
          | inl chosen ↦ window_rule-some o open_rails r chosen
          | inr h3 ↦ elim (or_else-some (tokenized_rule o open_rails) _ r h3) [
            | inl chosen ↦ tokenized_rule-some o open_rails r chosen
            | inr h4 ↦ elim (or_else-some (default_rule o open_rails) _ r h4) [
              | inl chosen ↦ default_rule-some o open_rails r chosen
              | inr chosen ↦ last_loop o open_rails r chosen
            ]
          ]
        ]
      ]
    ]
