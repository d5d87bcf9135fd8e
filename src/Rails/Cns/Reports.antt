-- ===== src/Rails/Cns/Reports.antt =====
-- `settle_net_position` of atreides/rails/cns.py: what the answers say of the report they rest on.
use project_atreides.Rails.Cns.Profile.{MarketProfile, NetPosition}
use project_atreides.Rails.Cns.Results.{
  SettlementFacts, FailPosition, NetSettlementResult, Reported, amount, SecuritiesBreakCode,
  is_zero, flat, failed_to_deliver, failed_to_receive, completed, is_flat_break, is_done,
  allocation_against_flat_position,
}
use project_atreides.Rails.Cns.Settle.{
  settle_net_position, settle_open, settle_closed, residual_of, undecided, date_breaks, break_if,
}
use project_atreides.Rails.Cns.Conserve.{Outcome, settle_net_position-cases}
use project_atreides.Common.{
  ℕ, sym, inl, inr, true, false, ok, ◌≡◌, ◌∙◌, ◌⊎◌, refl, ap, Bool, not, List, [], arith, any,
  Bool-cases, ◌&&◌, ◌∷◌, ◌++◌, if◌then◌else◌, and_split,
}
use project_atreides.Common.Int.{ℤ, pos, eqb_ℤ_iff}
use project_atreides.Common.Decimal.{decimal_sub, decimal_sub-zero}

module _ (year_of : ℕ → ℕ) (position : NetPosition) (profile : MarketProfile)
    (f : SettlementFacts) where
  full_amount : (a b : ℤ) → is_zero (decimal_sub a b) ≡ true → b ≡ a
  full_amount a b h = decimal_sub-zero a b ((eqb_ℤ_iff (decimal_sub a b) (pos 0)).0 h)

  completed-is_done : (r : NetSettlementResult) → completed r ≡ true → is_done r.disposition ≡ true
  unfolding completed
  completed-is_done r h = ground arith

  fail_not_done :
      (receives : Bool)
      → is_done (if receives then failed_to_receive else failed_to_deliver) ≡ false
  fail_not_done true = refl
  fail_not_done false = refl

  open_not_done :
      (q c : ℤ) (residual : FailPosition)
      → is_done (settle_open position profile f q c residual).disposition ≡ false
  unfolding settle_open
  open_not_done q c residual = elim (Bool-cases (is_zero q && is_zero c)) [
    | inr e ↦ rw (settle_open, e) refl
    | inl e ↦ rw (settle_open, e) (fail_not_done _)
  ]

  flat_break_seen :
      (xs : List SecuritiesBreakCode)
      → any is_flat_break (xs ++ allocation_against_flat_position ∷ []) ≡ true
  flat_break_seen [] = refl
  flat_break_seen (x ∷ xs) = ground (arith, flat_break_seen xs)

  flat_completed :
      (q c : ℤ) (xs : List SecuritiesBreakCode)
      → completed (
          settle_closed position flat q c
            (xs ++ break_if (not (is_zero q)) allocation_against_flat_position))
        ≡ true
      → q ≡ pos 0
  unfolding completed settle_closed
  flat_completed q c xs h = elim (Bool-cases (is_zero q)) [
    | inl e ↦ (eqb_ℤ_iff q (pos 0)).0 e
    | inr e ↦
        let h' : (if any is_flat_break (xs ++ allocation_against_flat_position ∷ [])
              then false
              else true)
            ≡ true =
          rw (completed, settle_closed, e) at h in
        absurd (cc (h', flat_break_seen xs))
  ]

  Outcome-completed :
      (q c : ℤ) (r : NetSettlementResult)
      → Outcome year_of position profile f q c r
      → completed r ≡ true
      → (q ≡ position.quantity)
        × ((c ≡ f.signed_cash) ⊎ ((position.quantity ≡ pos 0) × (f.signed_cash ≡ pos 0)))
  Outcome-completed q c r (inl (e, h)) s =
      let (zero_q, zero_c) = and_split (is_zero position.quantity) (is_zero f.signed_cash) e in
      let no_q : position.quantity ≡ pos 0 = (eqb_ℤ_iff position.quantity (pos 0)).0 zero_q in
      let no_c : f.signed_cash ≡ pos 0 = (eqb_ℤ_iff f.signed_cash (pos 0)).0 zero_c in
      (flat_completed q c (date_breaks position profile) (rw h at s) ∙ sym no_q, inr (no_q, no_c))
  Outcome-completed q c r (inr (inl (e, e', h))) s =
      let (full_q, full_c) =
        and_split (is_zero (decimal_sub position.quantity q))
          (is_zero (decimal_sub f.signed_cash c)) e' in
      (full_amount position.quantity q full_q, inl (full_amount f.signed_cash c full_c))
  Outcome-completed q c r (inr (inr (e, e', (aged, b, h)))) s =
      let done : is_done r.disposition ≡ true = completed-is_done r s in
      absurd (cc (rw h at done, open_not_done q c (residual_of position profile f q c aged)))

  -- A completed day rests on a report: the venue reported exactly the position's quantity and exactly
  -- its cash, or the position is flat in quantity and cash and any cash was reported.
  pub completed_reported :
      (quantity cash : Reported) (r : NetSettlementResult)
      → settle_net_position year_of position profile f quantity cash ≡ ok r
      → completed r ≡ true
      → (quantity ≡ amount position.quantity)
        × ((cash ≡ amount f.signed_cash) ⊎ ((position.quantity ≡ pos 0) × (f.signed_cash ≡ pos 0)))
  unfolding undecided
  completed_reported quantity cash r h s =
      elim (settle_net_position-cases year_of position profile f quantity cash r h) [
        | inl (code, u) ↦
            let done : is_done r.disposition ≡ true = completed-is_done r s in
            let done' : false ≡ true = rw u at done in cc done'
        | inr (e, (q, c, at_q, at_c, o)) ↦
            let (same_q, same_c) = Outcome-completed q c r o s in
            (
              at_q ∙ ap amount same_q,
              elim same_c [ inl same ↦ inl (at_c ∙ ap amount same) | inr none_due ↦ inr none_due ],
            )
      ]
