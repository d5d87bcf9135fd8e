-- ===== src/Books/Ledger/Balance.antt =====
-- atreides/books/ledger.py: the stock record of balanced entries is in balance.
use project_atreides.Books.Ledger.{
  LedgerLine, JournalEntry, EquitiesBooks, ownership, location, side_key, RecordSide, quantities,
  verify_stock_record, verify_issues, verify_issue, located, account_key, reserve_key, Dict, lookup,
  insert, int_key, StockRecordBreak,
}
use project_atreides.Common.Dict.{lookup, unique_keys, Member-lookup, unique_keys-insert}
use project_atreides.Books.Ledger.Sums.{IsEntry, amount_at-add_lines, entry_balanced}
use project_atreides.Books.Ledger.Totals.{
  value_at, add_line, add_lines, quantities_of, amount_at, or_empty, add_to,
}
use project_atreides.Common.{
  refl, none, some, List, [], All, String, ◌≡◌, ◌∙◌, ◌∷◌, inl, inr, true, map, Member,
}
use project_atreides.Common.Int.{◌+ℤ◌, ℤ, pos, int_laws, ◌-ℤ◌, parts_of_eq}
use project_atreides.Common.Key.{string_key}

entries_balanced :
    (issue : String) (es : List JournalEntry) (d : Dict String (Dict RecordSide ℤ))
    → All IsEntry es
    → let d' = quantities_of (map (λ e. e.lines) es) d in
      amount_at issue ownership d' +ℤ amount_at issue location d'
      ≡ amount_at issue ownership d +ℤ amount_at issue location d
unfolding quantities_of
entries_balanced issue [] d h = refl
entries_balanced issue (e ∷ es) d h =
    entries_balanced issue es (add_lines e.lines d) h.1
    ∙ omega (
      int_laws,
      parts_of_eq (entry_balanced issue e h.0),
      parts_of_eq (amount_at-add_lines issue ownership e.lines d),
      parts_of_eq (amount_at-add_lines issue location e.lines d),
    )

add_line-unique_keys :
    (l : LedgerLine) (d : Dict String (Dict RecordSide ℤ))
    → unique_keys d ≡ true
    → unique_keys (add_line l d) ≡ true
unfolding add_line
add_line-unique_keys l d u =
    elim (l.issue)
      as (λ o.
        unique_keys {K = String} {V = Dict RecordSide ℤ} (elim o [
          | none ↦ d
          | some i ↦ insert i (add_to l.record_side l.quantity (or_empty (lookup i d))) d
        ])
        ≡ true) [
          | none ↦ u
          | some i ↦
              unique_keys-insert i (add_to l.record_side l.quantity (or_empty (lookup i d))) d u
        ]

add_lines-unique_keys :
    (ls : List LedgerLine) (d : Dict String (Dict RecordSide ℤ))
    → unique_keys d ≡ true
    → unique_keys (add_lines ls d) ≡ true
unfolding add_lines
add_lines-unique_keys [] d u = u
add_lines-unique_keys (l ∷ ls) d u =
    add_lines-unique_keys ls (add_line l d) (add_line-unique_keys l d u)

pub quantities_of-unique_keys :
    (es : List JournalEntry) (d : Dict String (Dict RecordSide ℤ))
    → unique_keys d ≡ true
    → unique_keys (quantities_of (map (λ e. e.lines) es) d) ≡ true
unfolding quantities_of
quantities_of-unique_keys [] d u = u
quantities_of-unique_keys (e ∷ es) d u =
    quantities_of-unique_keys es _ (add_lines-unique_keys e.lines d u)

verify_issues-balanced :
    (owner : String) (items : Dict String (Dict RecordSide ℤ)) (breaks : List StockRecordBreak)
    → ((issue : String) (sides : Dict RecordSide ℤ)
        → Member (issue, sides) items
        → value_at ownership sides +ℤ value_at location sides ≡ pos 0)
    → verify_issues none owner items breaks ≡ breaks
unfolding verify_issues verify_issue located
verify_issues-balanced owner [] breaks h = refl
verify_issues-balanced owner ((issue, sides) ∷ items) breaks h =
    let held = value_at ownership sides in
    let there = value_at location sides in
    let zero : held -ℤ (pos 0 -ℤ there) ≡ pos 0 =
      omega (int_laws, parts_of_eq (h issue sides (inl refl))) in
    rw zero (verify_issues-balanced owner items breaks (λ i s m. h i s (inr m)))

-- Double entry keeps the stock record in balance: books whose entries are as the validators return
-- them have, for every issue, as much owned as located, and `verify_stock_record` without observed
-- locations leaves the books as they are, with no new break.
pub verify_stock_record_balanced :
    (b : EquitiesBooks)
    → All IsEntry b.entries
    → ((issue : String)
        → amount_at issue ownership (quantities b) +ℤ amount_at issue location (quantities b)
          ≡ pos 0)
      × (verify_stock_record none b ≡ b)
unfolding verify_stock_record quantities amount_at ◌+ℤ◌ value_at lookup unique_keys
verify_stock_record_balanced b h =
    let total : (issue : String)
        → amount_at issue ownership (quantities b) +ℤ amount_at issue location (quantities b)
          ≡ pos 0 =
      λ issue. entries_balanced issue b.entries [] h in
    (
      total,
      rw
          (verify_issues-balanced b.break_owner (quantities b) b.breaks (λ issue sides m.
            let at : lookup issue (quantities b) ≡ some sides =
              Member-lookup issue sides (quantities b) (quantities_of-unique_keys b.entries [] refl)
                m in
            rw at at (total issue)))
          refl,
    )
