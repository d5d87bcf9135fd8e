-- ===== src/Rails/Cns/Conserve.antt =====
-- `settle_net_position` of atreides/rails/cns.py: what is allocated and what stays open add up to the
-- obligation, and silence or a refused report settles nothing.
use project_atreides.Deadlines.Calendar.{business_days_after}
use project_atreides.Rails.Cns.Profile.{MarketProfile, NetPosition}
use project_atreides.Rails.Cns.Results.{
  SettlementFacts, NetSettlementResult, is_zero, flat, settled_in_full,
  allocation_against_flat_position, Reported, SecuritiesBreakCode, amount, outcome_not_reported,
  FailPosition, CnsDisposition, silent, indeterminate, unusable, not_novated, partial_allocation,
  failed_to_deliver, failed_to_receive,
}
use project_atreides.Rails.Cns.Settle.{
  settle_amounts, settle_open, settle_closed, residual_of, date_breaks, break_if,
  settle_net_position, settle_reported, undecided, allocation_refusal,
}
use project_atreides.Common.{
  ℕ, true, none, ok, ◌≡◌, ◌⊎◌, sym, inl, inr, Bool, false, not, [], Bool-cases, ◌&&◌, ◌∷◌, ◌++◌,
  ok_injective, Result-cases, err_ok, refl, Option, some, Option-cases, and_split, ◌<◌, ◌∙◌,
}
use project_atreides.Common.Int.{◌-ℤ◌, ℤ, pos, int_laws, ◌+ℤ◌, +ℤ-zero, eqb_ℤ_iff}
use project_atreides.Common.Decimal.{decimal_sub, precision, decimal_sub_exact, decimal_sub-zero}
use project_atreides.Rails.Cns.Netting.{magnitude}

-- What is left open of the quantity and of the cash.
abbrev pub open_quantity : Option FailPosition → ℤ
open_quantity none = pos 0
open_quantity (some residual) = residual.quantity

abbrev pub open_cash : Option FailPosition → ℤ
open_cash none = pos 0
open_cash (some residual) = residual.cash

abbrev pub is_settlement : CnsDisposition → Bool
is_settlement flat = false
is_settlement indeterminate = false
is_settlement not_novated = false
is_settlement settled_in_full = true
is_settlement partial_allocation = true
is_settlement failed_to_deliver = true
is_settlement failed_to_receive = true

-- The size of what a reported amount leaves of a sum, before any rounding
abbrev pub left_of : ℤ → Reported → ℕ
left_of total silent = 0
left_of total unusable = 0
left_of total (amount a) = magnitude (total -ℤ a)

module _ (year_of : ℕ → ℕ) (position : NetPosition) (profile : MarketProfile)
    (f : SettlementFacts) where
  -- Whether nothing is left of the position and of its cash.
  abbrev pub settled_flat : Bool
  settled_flat = is_zero position.quantity && is_zero f.signed_cash

  abbrev pub settled_full : ℤ → ℤ → Bool
  settled_full q c =
      is_zero (decimal_sub position.quantity q) && is_zero (decimal_sub f.signed_cash c)

  -- What a return of `settle_amounts` is: flat, settled in full, or open.
  abbrev pub Outcome : ℤ → ℤ → NetSettlementResult → Type 0
  Outcome q c r =
      ((settled_flat ≡ true)
        × (r
            ≡ settle_closed position flat q c (
                date_breaks position profile
                ++ break_if (not (is_zero q)) allocation_against_flat_position)))
      ⊎ ((settled_flat ≡ false)
          × (settled_full q c ≡ true)
          × (r ≡ settle_closed position settled_in_full q c (date_breaks position profile)))
      ⊎ ((settled_flat ≡ false)
          × (settled_full q c ≡ false)
          × ((aged : ℕ) × (business_days_after year_of f.calendar f.settlement_date f.as_of_date
                ≡ ok aged)
              × (r ≡ settle_open position profile f q c (residual_of position profile f q c aged))))

  settle_amounts-cases :
      (q c : ℤ) (r : NetSettlementResult)
      → settle_amounts year_of position profile f q c ≡ ok r
      → Outcome q c r
  unfolding settle_amounts
  settle_amounts-cases q c r h = elim (Bool-cases settled_flat) [
    | inl e ↦ inl (e, sym (ok_injective (rw (settle_amounts, e) at h)))
    | inr e ↦ elim (Bool-cases (settled_full q c)) [
      | inl e' ↦ inr (inl (e, e', sym (ok_injective (rw (settle_amounts, e, e') at h))))
      | inr e' ↦
          elim (Result-cases
            (business_days_after year_of f.calendar f.settlement_date f.as_of_date)) [
              | inl (x, q') ↦ absurd (err_ok (rw (settle_amounts, e, e', q') at h))
              | inr (aged, q') ↦ inr (
                  inr (e, e', (aged, q', sym (ok_injective (rw (settle_amounts, e, e', q') at h)))))
            ]
    ]
  ]

  -- A result that leaves the outcome open, for the break that is last.
  abbrev pub IsUndecided : NetSettlementResult → Type 0
  IsUndecided r =
      (code : SecuritiesBreakCode) × (r
        ≡ undecided position (date_breaks position profile ++ code ∷ []))

  -- The outcome of two reported amounts.
  abbrev pub IsReported : Reported → Reported → NetSettlementResult → Type 0
  IsReported quantity cash r =
      (q : ℤ) × (c : ℤ) × (quantity ≡ amount q) × (cash ≡ amount c) × Outcome q c r

  settle_reported-cases :
      (quantity cash : Reported) (r : NetSettlementResult)
      → settle_reported year_of position profile f quantity cash ≡ ok r
      → IsUndecided r ⊎ IsReported quantity cash r
  unfolding settle_reported
  settle_reported-cases silent cash r h = inl (outcome_not_reported, sym (ok_injective h))
  settle_reported-cases unusable cash r h = inl (outcome_not_reported, sym (ok_injective h))
  settle_reported-cases (amount q) silent r h = inl (outcome_not_reported, sym (ok_injective h))
  settle_reported-cases (amount q) unusable r h = inl (outcome_not_reported, sym (ok_injective h))
  settle_reported-cases (amount q) (amount c) r h =
      inr (q, c, refl, refl, settle_amounts-cases q c r h)

  pub settle_net_position-cases :
      (quantity cash : Reported) (r : NetSettlementResult)
      → settle_net_position year_of position profile f quantity cash ≡ ok r
      → IsUndecided r
        ⊎ ((allocation_refusal position profile quantity cash ≡ none) × IsReported quantity cash r)
  unfolding settle_net_position
  settle_net_position-cases quantity cash r h =
      elim (Option-cases (allocation_refusal position profile quantity cash)) [
        | inr (code, e) ↦ inl (code, sym (ok_injective (rw (settle_net_position, e) at h)))
        | inl e ↦ elim (settle_reported-cases quantity cash r (rw (settle_net_position, e) at h)) [
          | inl u ↦ inl u
          | inr o ↦ inr (e, o)
        ]
      ]

  rest_of : (a b : ℤ) → magnitude (a -ℤ b) < precision → b +ℤ decimal_sub a b ≡ a
  rest_of a b h = rw (decimal_sub_exact a b h) (omega int_laws)

  none_left : (a b : ℤ) → is_zero (decimal_sub a b) ≡ true → b +ℤ pos 0 ≡ a
  none_left a b h = +ℤ-zero b ∙ decimal_sub-zero a b ((eqb_ℤ_iff (decimal_sub a b) (pos 0)).0 h)

  settle_open-conserves :
      (q c : ℤ) (aged : ℕ)
      → magnitude (position.quantity -ℤ q) < precision
      → magnitude (f.signed_cash -ℤ c) < precision
      → let r = settle_open position profile f q c (residual_of position profile f q c aged) in
        (r.allocated_quantity +ℤ open_quantity r.residual ≡ position.quantity)
        × (r.allocated_cash +ℤ open_cash r.residual ≡ f.signed_cash)
  unfolding settle_open residual_of
  settle_open-conserves q c aged fit_q fit_c = elim (Bool-cases (is_zero q && is_zero c)) [
    | inr e ↦ rw (settle_open, e) (rest_of position.quantity q fit_q, rest_of f.signed_cash c fit_c)
    | inl e ↦
        let (zero_q, zero_c) = and_split (is_zero q) (is_zero c) e in
        let no_q : q ≡ pos 0 = (eqb_ℤ_iff q (pos 0)).0 zero_q in
        let no_c : c ≡ pos 0 = (eqb_ℤ_iff c (pos 0)).0 zero_c in
        rw (settle_open, e)
          (
            rw (← no_q) (rest_of position.quantity q fit_q),
            rw (← no_c) (rest_of f.signed_cash c fit_c),
          )
  ]

  Outcome-conserves :
      (q c : ℤ) (r : NetSettlementResult)
      → Outcome q c r
      → magnitude (position.quantity -ℤ q) < precision
      → magnitude (f.signed_cash -ℤ c) < precision
      → is_settlement r.disposition ≡ true
      → (r.allocated_quantity +ℤ open_quantity r.residual ≡ position.quantity)
        × (r.allocated_cash +ℤ open_cash r.residual ≡ f.signed_cash)
  unfolding settle_closed
  Outcome-conserves q c r (inl (e, h)) fit_q fit_c s = let s' : false ≡ true = rw h at s in cc s'
  Outcome-conserves q c r (inr (inl (e, e', h))) fit_q fit_c s =
      let (no_q, no_c) =
        and_split (is_zero (decimal_sub position.quantity q))
          (is_zero (decimal_sub f.signed_cash c)) e' in
      rw h (none_left position.quantity q no_q, none_left f.signed_cash c no_c)
  Outcome-conserves q c r (inr (inr (e, e', (aged, b, h)))) fit_q fit_c s =
      rw h (settle_open-conserves q c aged fit_q fit_c)

  -- Conservation: where what the report leaves of the quantity and of the cash has at most 28 digits,
  -- a settlement in full, a partial one and a fail all account for the whole obligation; what was
  -- allocated and what stays open add up to the position's quantity and to its cash.
  pub settle_conserves :
      (quantity cash : Reported) (r : NetSettlementResult)
      → settle_net_position year_of position profile f quantity cash ≡ ok r
      → left_of position.quantity quantity < precision
      → left_of f.signed_cash cash < precision
      → is_settlement r.disposition ≡ true
      → (r.allocated_quantity +ℤ open_quantity r.residual ≡ position.quantity)
        × (r.allocated_cash +ℤ open_cash r.residual ≡ f.signed_cash)
  unfolding undecided
  settle_conserves quantity cash r h fit_q fit_c s =
      elim (settle_net_position-cases quantity cash r h) [
        | inl (code, u) ↦ let s' : false ≡ true = rw u at s in cc s'
        | inr (e, (q, c, at_q, at_c, o)) ↦
            Outcome-conserves q c r o (rw at_q at fit_q) (rw at_c at fit_c) s
      ]
