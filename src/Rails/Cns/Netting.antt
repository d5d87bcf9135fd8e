-- ===== src/Rails/Cns/Netting.antt =====
-- `net_positions` of atreides/rails/cns.py. A quantity is a Decimal that is finite, or something
-- that the function refuses.
use text.Mathlib.Text.{is_le}
use Prim.Native.String.{compare}
pub mod Sums
pub mod Positions
use project_atreides.Rails.Cns.Profile.{NetPosition}
use project_atreides.Common.{
  ℕ, suc, Bool, not, Option, none, some, List, [], map, Result, ok, err, raise_if, ltb, String, ◌+◌,
  ◌∷◌, if◌then◌else◌, ◌>>=◌, ◌>>◌,
}
use project_atreides.Common.Int.{◌+ℤ◌, ℤ, pos, pos_part, neg_part}
use project_atreides.Common.Dict.{Dict, lookup, insert}
use project_atreides.Common.Sort.{sorted}
use project_atreides.Common.Key.{string_key}
use project_atreides.Common.Decimal.{decimal_abs}

-- What a trade may carry for a quantity: `True` or `False`, an integer number of units of the common
-- exponent, or a non-finite or non-Decimal value.
pub data Quantity : Type 0 where
  boolean not_finite : Quantity
  units : ℤ → Quantity

pub data NettingError : Type 0 where
  quantity_boolean_refused quantity_not_finite quantity_exceeds_declared_context : NettingError
  net_position_exceeds_declared_context : NettingError

-- The size of an amount
abbrev pub magnitude : ℤ → ℕ
magnitude a = pos_part a + neg_part a

-- The checks of one trade's quantity. `abs` rounds to the 28 digits of the default context.
unfoldable pub read_quantity : ℕ → Quantity → Result NettingError ℤ
read_quantity limit boolean = err quantity_boolean_refused
read_quantity limit not_finite = err quantity_not_finite
read_quantity limit (units q) =
    if ltb limit (decimal_abs q) then err quantity_exceeds_declared_context else ok q

abbrev pub total_or_zero : Option ℤ → ℤ
total_or_zero none = pos 0
total_or_zero (some t) = t

abbrev pub count_or_zero : Option ℕ → ℕ
count_or_zero none = 0
count_or_zero (some n) = n

-- The dictionaries `totals` and `counts`
pub record Totals : Type 0 where
  pub totals : Dict String ℤ
  pub counts : Dict String ℕ

unfoldable pub total_of : String → Totals → ℤ
total_of id t = total_or_zero (lookup id t.totals)

unfoldable pub count_of : String → Totals → ℕ
count_of id t = count_or_zero (lookup id t.counts)

-- One round of the loop. `limit` is 1E+30 in units of the exponent. The addition's context of 80
-- digits holds every sum of two amounts within it while an amount has no more than 49 decimals; the
-- `abs` after it stands outside that context.
unfoldable pub add_trade : ℕ → String × Quantity → Totals → Result NettingError Totals
add_trade limit (id, quantity) t = do
  q ← read_quantity limit quantity
  raise_if (ltb limit (decimal_abs (total_of id t +ℤ q))) net_position_exceeds_declared_context
  ok (record {
    totals = insert id (total_of id t +ℤ q) t.totals;
    counts = insert id (suc (count_of id t)) t.counts;
  })

unfoldable pub add_trades : ℕ → List (String × Quantity) → Totals → Result NettingError Totals
add_trades limit [] t = ok t
add_trades limit (trade ∷ trades) t = do t' ← add_trade limit trade t; add_trades limit trades t'

-- `sorted(totals)`, as the entries in the order of their keys
abbrev pub id_le : String × ℤ → String × ℤ → Bool
id_le a b = is_le (compare a.0 b.0)

-- The arguments besides the trades
pub record NettingContext : Type 0 where
  pub market_id : String
  pub settlement_date_offset_days : ℤ
  pub assigned_processing_date_offset_days : Option ℤ

unfoldable pub position_of : NettingContext → Totals → String × ℤ → NetPosition
position_of c t (id, total) = record {
  security_id = id;
  quantity = total;
  settlement_date_offset_days = c.settlement_date_offset_days;
  market_id = c.market_id;
  constituent_trade_count = count_of id t;
  assigned_processing_date_offset_days = c.assigned_processing_date_offset_days;
}

-- `net_positions(trades, novated)`
unfoldable pub net_positions :
    ℕ → NettingContext → List (String × Quantity) → Bool → Result NettingError (List NetPosition)
net_positions limit c trades novated =
    let netted = add_trades limit trades (record { totals = []; counts = [] }) in
    if not novated
    then ok []
    else netted >>= λ t. ok (map (position_of c t) (sorted id_le t.totals))
