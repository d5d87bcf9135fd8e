-- ===== src/Rails/Cns/Netting/Sums.antt =====
-- `net_positions` of atreides/rails/cns.py: one position for each security traded, the sum of its
-- trades.
use project_atreides.Common.Dict.{
  insert, lookup-insert, unique_keys, has_key, unique_keys-insert, has_key-insert,
}
use project_atreides.Rails.Cns.Netting.{
  Quantity, boolean, not_finite, units, read_quantity, Totals, total_of, count_of, add_trade,
  add_trades, decimal_abs,
}
use project_atreides.Common.{
  ℕ, suc, sym, ap, inl, inr, true, List, [], arith, ok, any, Bool-cases, ltb, String, ◌+◌, ◌≤◌, ◌≡◌,
  ◌∙◌, ◌||◌, ◌∷◌, if◌then◌else◌, err_ok, ok_injective, Result-cases,
}
use project_atreides.Common.Int.{◌+ℤ◌, ℤ, pos, +ℤ-zero, +ℤ_assoc}
use project_atreides.Common.Key.{◌==◌, string_key}

-- The quantity of a trade, the sum of a security's trades and their number.
abbrev pub units_of : Quantity → ℤ
units_of (units q) = q
units_of boolean = pos 0
units_of not_finite = pos 0

abbrev pub net_sum : String → List (String × Quantity) → ℤ
net_sum id [] = pos 0
net_sum id ((j, q) ∷ trades) = (if j == id then units_of q else pos 0) +ℤ net_sum id trades

abbrev pub net_count : String → List (String × Quantity) → ℕ
net_count id [] = 0
net_count id ((j, q) ∷ trades) = (if j == id then 1 else 0) + net_count id trades

abbrev WithinLimit : ℕ → Totals → Type 0
WithinLimit limit t = (id : String) → decimal_abs (total_of id t) ≤ limit

-- What an accepted trade does to the sums.
record IsAdded (limit : ℕ) (trade : String × Quantity) (t t' : Totals) : Type 0 where
  totals_next : t'.totals ≡ insert trade.0 (total_of trade.0 t +ℤ units_of trade.1) t.totals
  counts_next : t'.counts ≡ insert trade.0 (suc (count_of trade.0 t)) t.counts
  within : decimal_abs (total_of trade.0 t +ℤ units_of trade.1) ≤ limit

add_trade-IsAdded :
    (limit : ℕ) (trade : String × Quantity) (t t' : Totals)
    → add_trade limit trade t ≡ ok t'
    → IsAdded limit trade t t'
unfolding add_trade read_quantity
add_trade-IsAdded limit (id, boolean) t t' h = cc h
add_trade-IsAdded limit (id, not_finite) t t' h = cc h
add_trade-IsAdded limit (id, units q) t t' h = elim (Bool-cases (ltb limit (decimal_abs q))) [
  | inl e ↦ absurd (err_ok (rw (add_trade, read_quantity, e) at h))
  | inr e ↦ elim (Bool-cases (ltb limit (decimal_abs (total_of id t +ℤ q)))) [
    | inl e' ↦ absurd (err_ok (rw (add_trade, read_quantity, e, e') at h))
    | inr e' ↦
        let same = ok_injective (rw (add_trade, read_quantity, e, e') at h) in
        record {
          totals_next = sym (ap (λ t. t.totals) same);
          counts_next = sym (ap (λ t. t.counts) same);
          within = ground arith;
        }
  ]
]

total_of-added :
    (id : String) (limit : ℕ) (trade : String × Quantity) (t t' : Totals)
    → IsAdded limit trade t t'
    → total_of id t' ≡ total_of id t +ℤ (if trade.0 == id then units_of trade.1 else pos 0)
unfolding total_of
total_of-added id limit (j, q) t t' a =
    rw (a.totals_next)
      (rw lookup-insert (ground (arith, string_key.eqb_iff j id, +ℤ-zero (total_of id t))))

count_of-added :
    (id : String) (limit : ℕ) (trade : String × Quantity) (t t' : Totals)
    → IsAdded limit trade t t'
    → count_of id t' ≡ count_of id t + (if trade.0 == id then 1 else 0)
unfolding count_of
count_of-added id limit (j, q) t t' a =
    rw (a.counts_next) (rw lookup-insert (ground (arith, string_key.eqb_iff j id)))

within-added :
    (limit : ℕ) (trade : String × Quantity) (t t' : Totals)
    → IsAdded limit trade t t'
    → WithinLimit limit t
    → WithinLimit limit t'
unfolding total_of
within-added limit (j, q) t t' a w id =
    rw (a.totals_next) (rw lookup-insert (ground (arith, a.within, w id)))

-- The sums over accepted trades, from sums that have each key once.
pub record IsNetted (limit : ℕ) (trades : List (String × Quantity)) (t t' : Totals) : Type 0 where
  pub summed : (id : String) → total_of id t' ≡ total_of id t +ℤ net_sum id trades
  pub counted : (id : String) → count_of id t' ≡ count_of id t + net_count id trades
  pub bounded : WithinLimit limit t'
  pub unique : unique_keys t'.totals ≡ true
  pub traded :
      (id : String) → has_key id t'.totals ≡ (has_key id t.totals || any (λ x. x.0 == id) trades)

pub add_trades-IsNetted :
    (limit : ℕ) (trades : List (String × Quantity)) (t t' : Totals)
    → WithinLimit limit t
    → unique_keys t.totals ≡ true
    → add_trades limit trades t ≡ ok t'
    → IsNetted limit trades t t'
unfolding add_trades
add_trades-IsNetted limit [] t t' w u h =
    let same : t ≡ t' = ok_injective h in
    rw (← same) (record {
      summed = λ id. sym (+ℤ-zero (total_of id t));
      counted = λ id. omega arith;
      bounded = w;
      unique = u;
      traded = λ id. ground arith;
    })
add_trades-IsNetted limit (trade ∷ trades) t t' w u h =
    elim (Result-cases (add_trade limit trade t)) [
      | inl (x, e) ↦ absurd (err_ok (rw (add_trades, e) at h))
      | inr (s, e) ↦
          let a = add_trade-IsAdded limit trade t s e in
          let u' : unique_keys s.totals ≡ true =
            rw (a.totals_next) (unique_keys-insert trade.0 _ t.totals u) in
          let n =
            add_trades-IsNetted limit trades s t' (within-added limit trade t s a w) u'
              (rw (add_trades, e) at h) in
          record {
            summed = λ id.
                n.summed id
                ∙ ap (λ x. x +ℤ net_sum id trades) (total_of-added id limit trade t s a)
                ∙ +ℤ_assoc (total_of id t) _ (net_sum id trades);
            counted = λ id. omega (arith, n.counted id, count_of-added id limit trade t s a);
            bounded = n.bounded;
            unique = n.unique;
            traded = λ id.
                let grown : has_key id s.totals ≡ (trade.0 == id || has_key id t.totals) =
                  rw (a.totals_next) (has_key-insert id trade.0 _ t.totals) in
                ground (arith, n.traded id, grown);
          }
    ]
