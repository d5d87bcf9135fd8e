-- ===== src/Books/Ledger/Tests.antt =====
-- The book of record on a purchase and its reversal.
use project_atreides.Common.{refl, Option, ◌≢◌}
use project_atreides.Books.Ledger.{
  JournalEntry, EquitiesBooks, LedgerLine, construct_entry, construct_line, is_security, is_cash,
  post, dangling, quantities, verify_stock_record, empty_books, duplicate_result, PostingSource,
  AccountType, RecordSide, ownership, location, has_nonzero, reserve_lines, reserve_facts, lookup,
  insert, Dict,
}
use project_atreides.Books.Ledger.Totals.{
  issue_totals_from, money_totals_from, add_to, value_at, amount_at,
}
use project_atreides.Books.Ledger.Journal.{
  IsValid, run_posts, run_posts-IsValid, post_once, reversals_known,
}
use project_atreides.Common.Dict.{lookup, insert}
use project_atreides.Books.Ledger.{
  find_open, remove_open, located, quantities_of, add_line, StockRecordBreak,
}
use project_atreides.Books.Ledger.Totals.{add_lines}
use project_atreides.Books.Ledger.Breaks.{IsSingle}
use project_atreides.Books.Ledger.Breaks.Found.{verify_stock_record_finds}
use project_atreides.Books.Ledger.Balance.{verify_stock_record_balanced}
use project_atreides.Books.Ledger.Sums.{IsEntry}
use project_atreides.Common.{inl, inr, false, none, some, [], arith, ok, String, ◌≡◌, ◌∷◌}
use project_atreides.Common.Int.{◌+ℤ◌, ℤ, pos, negsuc, ◌-ℤ◌, parts_of_eq}
use project_atreides.Common.Key.{string_key}
use project_atreides.Books.Ledger.Lines.{side_key}

abbrev line : AccountType → RecordSide → ℤ → LedgerLine
line account side quantity = record {
  account_id = "A1";
  account_type = account;
  record_side = side;
  issue = some "XYZ";
  quantity = quantity;
  currency = none;
  money = pos 0;
}

abbrev purchase : JournalEntry
purchase = record {
  entry_id = "E1";
  source_event_id = "S1";
  source = PostingSource.trade_capture;
  effective_date = 10;
  effective_date_basis = "TRADE_DATE";
  authority = "desk";
  lines =
      line AccountType.customer_cash ownership (pos 100)
      ∷ line AccountType.dtc location (negsuc 99)
      ∷ [];
  posting_event_id = "S1";
  reserve_source_facts = [];
  reverses_entry_id = none;
  synthetic = false;
}

abbrev undo : JournalEntry
undo = record purchase {
  entry_id = "E2";
  source_event_id = "S2";
  source = PostingSource.reversal;
  lines =
      line AccountType.customer_cash ownership (negsuc 99)
      ∷ line AccountType.dtc location (pos 100)
      ∷ [];
  posting_event_id = "S2";
  reverses_entry_id = some "E1";
}

abbrev name_of : JournalEntry → String
name_of e = e.entry_id

abbrev books : EquitiesBooks
books = record (empty_books "operations") {
  entries = purchase ∷ [];
  by_source = ("S1", purchase) ∷ [];
}

purchase-IsEntry : IsEntry purchase
unfolding construct_entry construct_line is_security is_cash issue_totals_from money_totals_from
    has_nonzero add_to value_at lookup insert ◌+ℤ◌ reserve_lines reserve_facts
purchase-IsEntry = record { lines_valid = (refl, (refl, tt)); entry_valid = refl }

books-IsValid : IsValid books
unfolding empty_books lookup reversals_known dangling
books-IsValid = record {
  found = λ e m. elim m [ inl h ↦ rw h refl | inr h ↦ absurd h ];
  indexed = λ id e h. ground (arith, string_key.eqb_iff "S1" id);
  reversals = refl;
}

verify_stock_record_balanced_example :
    ((issue : String)
      → amount_at issue ownership (quantities books) +ℤ amount_at issue location (quantities books)
        ≡ pos 0)
    × (verify_stock_record none books ≡ books)
unfolding empty_books
verify_stock_record_balanced_example = verify_stock_record_balanced books (purchase-IsEntry, tt)

run_posts-IsValid_example : IsValid (run_posts name_of (undo ∷ purchase ∷ []) books)
run_posts-IsValid_example = run_posts-IsValid name_of (undo ∷ purchase ∷ []) books books-IsValid

post_once_example :
    let s = run_posts name_of (undo ∷ []) books in
    post name_of purchase s ≡ (ok (duplicate_result name_of purchase purchase), s)
unfolding empty_books
post_once_example =
    post_once name_of purchase purchase (undo ∷ []) books books-IsValid (inl refl) refl

-- The depository shows 90 of the 100 shares owned.
abbrev observed : Option (Dict String ℤ)
observed = some (("XYZ", pos 90) ∷ [])

abbrev held : Dict RecordSide ℤ
held = (ownership, pos 100) ∷ (location, negsuc 99) ∷ []

no_breaks : IsSingle books.breaks
unfolding empty_books find_open remove_open
no_breaks = λ issue. refl

held_by_books : lookup "XYZ" (quantities books) ≡ some held
unfolding quantities quantities_of add_lines add_line add_to value_at lookup insert ◌+ℤ◌ empty_books
held_by_books = refl

short_by_ten : value_at ownership held ≢ located observed "XYZ" held
unfolding value_at located lookup
short_by_ten = λ h. ground (arith, parts_of_eq h)

verify_stock_record_finds_example :
    (x : StockRecordBreak) × (find_open "XYZ" (verify_stock_record observed books).breaks ≡ some x)
    × (x.difference ≡ value_at ownership held -ℤ located observed "XYZ" held)
verify_stock_record_finds_example =
    verify_stock_record_finds observed books "XYZ" held no_breaks held_by_books short_by_ten
