-- ===== src/Rails/Cns/Bounds.antt =====
-- `settle_net_position` of atreides/rails/cns.py: an allocation stays within the position.
use project_atreides.Rails.Cns.Profile.{MarketProfile, NetPosition}
use project_atreides.Rails.Cns.Netting.{magnitude}
use project_atreides.Rails.Cns.Results.{
  SettlementFacts, NetSettlementResult, Reported, amount, is_zero,
}
use project_atreides.Rails.Cns.Settle.{
  settle_net_position, settle_open, settle_closed, residual_of, undecided, allocation_refusal,
  quantity_refusal,
}
use project_atreides.Rails.Cns.Conserve.{
  Outcome, settle_net_position-cases, is_settlement, open_quantity,
}
use project_atreides.Common.{
  ℕ, inl, inr, true, false, none, ok, ◌+◌, ◌≡◌, ◌≢◌, refl, arith, Bool-cases, ◌&&◌, and_split, ◌≤◌,
  ◌<◌,
}
use project_atreides.Common.Int.{◌-ℤ◌, ℤ, pos, -ℤ_parts, eqb_ℤ_iff}
use project_atreides.Common.Decimal.{
  decimal_abs, precision, decimal_sub, decimal_abs_small, decimal_sub-zero, decimal_abs_exact,
  decimal_sub_exact,
}

module _ (year_of : ℕ → ℕ) (position : NetPosition) (profile : MarketProfile)
    (f : SettlementFacts) where
  -- A report that is not refused stays within the position and on its side.
  within_position :
      (q : ℤ) (cash : Reported)
      → allocation_refusal position profile (amount q) cash ≡ none
      → position.quantity ≢ pos 0
      → decimal_abs q ≤ decimal_abs position.quantity
  unfolding allocation_refusal quantity_refusal
  within_position q cash h n = ground arith

  usable_quantity :
      (q : ℤ) (cash : Reported)
      → allocation_refusal position profile (amount q) cash ≡ none
      → position.quantity ≢ pos 0
      → magnitude position.quantity < precision
      → magnitude q + magnitude (decimal_sub position.quantity q) ≡ magnitude position.quantity
  unfolding allocation_refusal quantity_refusal
  usable_quantity q cash h n fit =
      let whole = decimal_abs_small position.quantity fit in
      let within = within_position q cash h n in
      let part = decimal_abs_exact q (omega arith) in
      let exact : magnitude q + magnitude (position.quantity -ℤ q) ≡ magnitude position.quantity =
        ground (arith, -ℤ_parts position.quantity q) in
      rw (decimal_sub_exact position.quantity q (omega arith)) exact

  full_amount : (a b : ℤ) → is_zero (decimal_sub a b) ≡ true → b ≡ a
  full_amount a b h = decimal_sub-zero a b ((eqb_ℤ_iff (decimal_sub a b) (pos 0)).0 h)

  settle_open_bounded :
      (q c : ℤ) (cash : Reported) (aged : ℕ)
      → allocation_refusal position profile (amount q) cash ≡ none
      → position.quantity ≢ pos 0
      → magnitude position.quantity < precision
      → let r = settle_open position profile f q c (residual_of position profile f q c aged) in
        magnitude r.allocated_quantity + magnitude (open_quantity r.residual)
        ≡ magnitude position.quantity
  unfolding settle_open residual_of
  settle_open_bounded q c cash aged usable n fit = elim (Bool-cases (is_zero q && is_zero c)) [
    | inr e ↦ rw (settle_open, e) (usable_quantity q cash usable n fit)
    | inl e ↦
        let (zero_q, _) = and_split (is_zero q) (is_zero c) e in
        let nothing : magnitude q ≡ 0 = rw ((eqb_ℤ_iff q (pos 0)).0 zero_q) refl in
        rw (settle_open, e) (omega (arith, nothing, usable_quantity q cash usable n fit))
  ]

  Outcome-bounded :
      (q c : ℤ) (cash : Reported) (r : NetSettlementResult)
      → allocation_refusal position profile (amount q) cash ≡ none
      → Outcome year_of position profile f q c r
      → is_settlement r.disposition ≡ true
      → position.quantity ≢ pos 0
      → magnitude position.quantity < precision
      → magnitude r.allocated_quantity + magnitude (open_quantity r.residual)
        ≡ magnitude position.quantity
  unfolding settle_closed
  Outcome-bounded q c cash r usable (inl (e, h)) s n fit =
      let s' : false ≡ true = rw h at s in cc s'
  Outcome-bounded q c cash r usable (inr (inl (e, e', h))) s n fit =
      let (full_q, _) =
        and_split (is_zero (decimal_sub position.quantity q))
          (is_zero (decimal_sub f.signed_cash c)) e' in
      rw h (rw (full_amount position.quantity q full_q) (omega arith))
  Outcome-bounded q c cash r usable (inr (inr (e, e', (aged, b, h)))) s n fit =
      rw h (settle_open_bounded q c cash aged usable n fit)

  -- An allocation never overshoots: on a position that is not zero and has at most 28 digits, what a
  -- settlement in full, a partial one or a fail allocates and what it leaves open are, in size, parts
  -- of the position.
  pub settle_bounded :
      (quantity cash : Reported) (r : NetSettlementResult)
      → settle_net_position year_of position profile f quantity cash ≡ ok r
      → is_settlement r.disposition ≡ true
      → position.quantity ≢ pos 0
      → magnitude position.quantity < precision
      → magnitude r.allocated_quantity + magnitude (open_quantity r.residual)
        ≡ magnitude position.quantity
  unfolding undecided
  settle_bounded quantity cash r h s n fit =
      elim (settle_net_position-cases year_of position profile f quantity cash r h) [
        | inl (code, u) ↦ let s' : false ≡ true = rw u at s in cc s'
        | inr (e, (q, c, at_q, _, o)) ↦ Outcome-bounded q c cash r (rw at_q at e) o s n fit
      ]
