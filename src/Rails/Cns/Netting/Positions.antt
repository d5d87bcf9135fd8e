-- ===== src/Rails/Cns/Netting/Positions.antt =====
-- `net_positions` of atreides/rails/cns.py: what the positions are.
use project_atreides.Common.Dict.{lookup, has_key, lookup-Member, Member-lookup, unique_keys}
use project_atreides.Common.Sort.{sorted, Member-sorted, Member-sorted_intro}
use project_atreides.Rails.Cns.Profile.{NetPosition}
use project_atreides.Rails.Cns.Netting.{
  Quantity, Totals, total_of, count_of, add_trades, NettingContext, position_of, net_positions,
  id_le, decimal_abs,
}
use project_atreides.Rails.Cns.Netting.Sums.{net_sum, net_count, IsNetted, add_trades-IsNetted}
use project_atreides.Common.{
  ℕ, refl, sym, inl, inr, true, List, [], map, arith, ok, any, Member, Option-cases, String, ◌≤◌,
  ◌≡◌, Result-cases, Member-map, err_ok, Member-map_intro, ok_injective, ◌+◌, ◌∙◌,
}
use project_atreides.Common.Int.{ℤ, ◌+ℤ◌, zero-+ℤ, pos}
use project_atreides.Common.Key.{◌==◌, string_key}
use project_atreides.Common.Decimal.{decimal_abs_small}

abbrev none_yet : Totals
none_yet = record { totals = []; counts = [] }

from_zero : (id : String) (a : ℤ) → total_of id none_yet +ℤ a ≡ a
unfolding total_of lookup
from_zero id a = zero-+ℤ a

nothing_within : (id : String) (limit : ℕ) → decimal_abs (total_of id none_yet) ≤ limit
unfolding total_of lookup
nothing_within id limit =
    let none_of : decimal_abs (pos 0) ≡ 0 = decimal_abs_small (pos 0) (omega arith) in omega arith

no_count : (id : String) (n : ℕ) → count_of id none_yet + n ≡ n
unfolding count_of lookup
no_count id n = omega arith

module _ (limit : ℕ) (c : NettingContext) (trades : List (String × Quantity)) where
  netted :
      (ps : List NetPosition)
      → net_positions limit c trades true ≡ ok ps
      → (t : Totals) × IsNetted limit trades none_yet t
        × (ps ≡ map (position_of c t) (sorted id_le t.totals))
  unfolding net_positions total_of lookup unique_keys
  netted ps h = elim (Result-cases (add_trades limit trades none_yet)) [
    | inl (x, e) ↦ absurd (err_ok (rw (net_positions, e) at h))
    | inr (t, e) ↦ (
      t,
      add_trades-IsNetted limit trades none_yet t (λ id. nothing_within id limit) refl e,
      sym (ok_injective (rw (net_positions, e) at h)),
    )
  ]

  total_of-Member :
      (t : Totals) (id : String) (total : ℤ)
      → unique_keys t.totals ≡ true
      → Member (id, total) t.totals
      → total_of id t ≡ total
  unfolding total_of
  total_of-Member t id total u m = rw (Member-lookup id total t.totals u m) refl

  -- The netting is exact: where it returns, each position carries the sum of its security's trades and
  -- their number, its size rounded to 28 digits is within the limit, and each security that was
  -- traded has a position.
  pub net_positions_exact :
      (ps : List NetPosition)
      → net_positions limit c trades true ≡ ok ps
      → ((p : NetPosition)
          → Member p ps
          → (p.quantity ≡ net_sum p.security_id trades)
            × (p.constituent_trade_count ≡ net_count p.security_id trades)
            × (decimal_abs p.quantity ≤ limit))
        × ((id : String)
            → any (λ x. x.0 == id) trades ≡ true
            → (p : NetPosition) × Member p ps × (p.security_id ≡ id))
  unfolding position_of
  net_positions_exact ps h =
      let (t, n, at) = netted ps h in
      (
        λ p m.
            let ((id, total), m', e) =
              Member-map (position_of c t) p (sorted id_le t.totals) (rw at at m) in
            let there = Member-sorted id_le (id, total) t.totals m' in
            let whole = total_of-Member t id total (n.unique) there in
            let sum : total ≡ net_sum id trades =
              sym whole ∙ n.summed id ∙ from_zero id (net_sum id trades) in
            rw e
              (sum, n.counted id ∙ no_count id (net_count id trades), rw (← whole) (n.bounded id)),
        λ id m.
            let present : has_key id t.totals ≡ true = ground (arith, n.traded id) in
            elim (Option-cases (lookup id t.totals)) [
              | inl q ↦ absurd (cc (q, present))
              | inr (total, q) ↦ (
                position_of c t (id, total),
                rw at (
                    Member-map_intro (position_of c t) (id, total) (sorted id_le t.totals)
                      (Member-sorted_intro id_le (id, total) t.totals
                        (lookup-Member id total t.totals q))),
                refl,
              )
            ],
      )
