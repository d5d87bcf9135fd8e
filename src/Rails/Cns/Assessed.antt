-- ===== src/Rails/Cns/Assessed.antt =====
-- The market profiles of atreides/rails/cns.py that can be constructed.
use project_atreides.Rails.Cns.Profile.{
  MarketProfile, MarketProfileFields, construct_market, check_market, as_member, is_mandatory,
  is_unread, is_message_rule, no_text, close_out_deadline, processing_date_offset,
  follows_from_trade_date, NetPosition, regime_value, regime_members, rule_value, rule_members,
}
use project_atreides.Common.{
  true, false, not, none, arith, ok, is_some, ◌≡◌, ◌⊎◌, inl, inr, Bool-cases, Result-cases, err_ok,
  subst,
}
use project_atreides.Common.Int.{ℤ}
use project_atreides.Rails.Boundary.{coerce_member}

-- A profile that passes the checks.
abbrev pub IsAssessed : MarketProfile → Type 0
IsAssessed p =
    ((offset : ℤ) → is_some (close_out_deadline p offset) ≡ is_mandatory p.close_out_regime)
    × (is_message_rule p.processing_date_rule ≡ not (no_text p.message_name))
    × (((is_unread p.close_out_regime ≡ false) × (no_text p.provenance ≡ false))
        ⊎ ((is_unread p.close_out_regime ≡ true)
            × (p.settlement_cycle_days ≡ none)
            × (follows_from_trade_date p ≡ false)
            × ((position : NetPosition) → processing_date_offset p position ≡ none)))

check_market-same : (p q : MarketProfile) → check_market p ≡ ok q → p ≡ q
unfolding check_market
check_market-same p q h = ground arith

check_market-IsAssessed : (p q : MarketProfile) → check_market p ≡ ok q → IsAssessed p
unfolding check_market close_out_deadline processing_date_offset follows_from_trade_date
check_market-IsAssessed p q h = (
  (λ offset. ground arith),
  ground arith,
  elim (Bool-cases (is_unread p.close_out_regime)) [
    | inr e ↦ inl (e, ground arith)
    | inl e ↦ inr (e, ground arith, ground arith, λ position. ground arith)
  ],
)

checked-IsAssessed : (p q : MarketProfile) → check_market p ≡ ok q → IsAssessed q
checked-IsAssessed p q h =
    subst IsAssessed (check_market-same p q h) (check_market-IsAssessed p q h)

-- A profile that can be constructed keeps what was read apart from what was not: it has a close-out
-- deadline exactly under a mandatory regime, names a message exactly if one fixes the processing
-- date, and either says where it was read or states no cycle and dates no position.
pub construct_market-IsAssessed :
    (f : MarketProfileFields) (p : MarketProfile) → construct_market f ≡ ok p → IsAssessed p
unfolding construct_market
construct_market-IsAssessed f p h =
    let regime = as_member (coerce_member regime_value regime_members f.close_out_regime) in
    let rule = as_member (coerce_member rule_value rule_members f.processing_date_rule) in
    elim (Result-cases regime) [
      | inl (x, e) ↦ absurd (err_ok (rw (construct_market, e) at h))
      | inr (r, e) ↦ elim (Result-cases rule) [
        | inl (x, e') ↦ absurd (err_ok (rw (construct_market, e, e') at h))
        | inr (s, e') ↦
            let profile : MarketProfile = record {
              market_id = f.market_id;
              settlement_cycle_days = f.settlement_cycle_days;
              processing_date_rule = s;
              message_name = f.message_name;
              close_out_regime = r;
              close_out_deadline_days = f.close_out_deadline_days;
              allocation_rule_published = f.allocation_rule_published;
              provenance = f.provenance;
            } in
            checked-IsAssessed profile p (rw (construct_market, e, e') at h)
      ]
    ]
