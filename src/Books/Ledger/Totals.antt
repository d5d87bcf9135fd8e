-- ===== src/Books/Ledger/Totals.antt =====
-- The sums of atreides/books/ledger.py: `defaultdict(Decimal)` over the lines of an entry and over
-- all entries, and what is found in them.
use project_atreides.Books.Ledger.Lines.{LedgerLine, RecordSide, side_key}
use project_atreides.Common.{Option, none, some, List, [], String, ◌≡◌, ◌∷◌, if◌then◌else◌, arith}
use project_atreides.Common.Int.{◌+ℤ◌, ℤ, pos, +ℤ-zero}
use project_atreides.Common.Key.{◌==◌, Key, string_key}
use project_atreides.Common.Dict.{Dict, lookup, insert, lookup-insert}

-- `d.get(key, 0)`
abbrev pub or_zero : Option ℤ → ℤ
or_zero none = pos 0
or_zero (some v) = v

module _ {K : Type 0} ⦃k : Key K⦄ where
  unfoldable pub value_at : K → Dict K ℤ → ℤ
  value_at key d = or_zero (lookup key d)

  -- `d[key] += amount`
  unfoldable pub add_to : K → ℤ → Dict K ℤ → Dict K ℤ
  unfolding value_at
  add_to key amount d = insert key (value_at key d +ℤ amount) d

  pub value_at-add_to :
      (j key : K) (amount : ℤ) (d : Dict K ℤ)
      → value_at j (add_to key amount d) ≡ value_at j d +ℤ (if key == j then amount else pos 0)
  unfolding value_at add_to
  value_at-add_to j key amount d =
      rw lookup-insert (ground (arith, k.eqb_iff key j, +ℤ-zero (or_zero (lookup j d))))

unfoldable pub issue_totals_from : List LedgerLine → Dict String ℤ → Dict String ℤ
issue_totals_from [] d = d
issue_totals_from (l ∷ ls) d =
    issue_totals_from ls (elim l.issue [ none ↦ d | some issue ↦ add_to issue l.quantity d ])

unfoldable pub money_totals_from : List LedgerLine → Dict String ℤ → Dict String ℤ
money_totals_from [] d = d
money_totals_from (l ∷ ls) d =
    money_totals_from ls (elim l.currency [ none ↦ d | some currency ↦ add_to currency l.money d ])

-- The dictionaries `securities` and `money` of the validator
abbrev pub issue_totals : List LedgerLine → Dict String ℤ
issue_totals ls = issue_totals_from ls []

abbrev pub money_totals : List LedgerLine → Dict String ℤ
money_totals ls = money_totals_from ls []

-- `d[issue]` of a `defaultdict`
abbrev pub or_empty : Option (Dict RecordSide ℤ) → Dict RecordSide ℤ
or_empty none = []
or_empty (some d) = d

-- `result[line.issue][line.record_side] += line.quantity`, for a line with an issue
unfoldable pub add_line :
    LedgerLine → Dict String (Dict RecordSide ℤ) → Dict String (Dict RecordSide ℤ)
add_line l d = elim l.issue [
  | none ↦ d
  | some issue ↦ insert issue (add_to l.record_side l.quantity (or_empty (lookup issue d))) d
]

unfoldable pub add_lines :
    List LedgerLine → Dict String (Dict RecordSide ℤ) → Dict String (Dict RecordSide ℤ)
add_lines [] d = d
add_lines (l ∷ ls) d = add_lines ls (add_line l d)

-- The loop over entries, each given by its lines
unfoldable pub quantities_of :
    List (List LedgerLine) → Dict String (Dict RecordSide ℤ) → Dict String (Dict RecordSide ℤ)
quantities_of [] d = d
quantities_of (ls ∷ rest) d = quantities_of rest (add_lines ls d)

-- What the books hold of an issue on a side
unfoldable pub amount_at : String → RecordSide → Dict String (Dict RecordSide ℤ) → ℤ
amount_at issue side d = value_at side (or_empty (lookup issue d))
