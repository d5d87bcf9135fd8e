-- ===== src/Books/Ledger.antt =====
-- atreides/books/ledger.py: the append-only equities book of record. Of the posting evidence
-- (`BooksPosting`) only its source event is read. `canonical` stands for the kernel package's
-- `canonical_bytes_of`, of which only the equality of two results is read. Sums are exact, as the
-- code's are while they have at most 28 digits.
mod Lines
pub mod Totals
mod Entries
pub mod Sums
pub mod Balance
pub mod Breaks
pub mod Journal
mod Tests
pub use Lines.{
  AccountType, RecordSide, PostingSource, ReserveActivity, ReserveSourceFact, LedgerLine,
  LedgerError, ownership, location, money_side, account_key, side_key, is_reserve_source,
  margin_interest, reversal, other_event, unbalanced, reversal_unnamed, not_a_reversal,
  not_synthetic, facts_missing, unknown_reversal, construct_fact,
}
use project_atreides.Common.{
  ℕ, suc, Bool, true, false, not, Option, none, some, List, [], map, Result, ok, err, length, any,
  String, ◌&&◌, ◌∷◌, ◌++◌, if◌then◌else◌,
}
use project_atreides.Common.Int.{◌-ℤ◌, ℤ, pos}
use project_atreides.Common.Key.{◌==◌, Key, string_key, int_key}
use project_atreides.Common.Dict.{Dict, lookup, insert}
use project_atreides.Books.Ledger.Totals.{value_at}
unfoldable pub use Lines.{construct_line, is_security, is_cash}
pub use Entries.{JournalEntry, Reserve, reserve_key, is_reversal, is_margin_interest, same_set}
unfoldable pub use Entries.{reserve_lines, reserve_facts, has_nonzero, construct_entry}
unfoldable pub use Totals.{add_to, add_line, quantities_of, amount_at, issue_totals, money_totals}

pub record DuplicatePosting : Type 0 where
  pub source_event_id : String
  pub original_entry_id : String
  pub duplicate_entry_id : String

-- `reused` is whether `break_reason` tells of other posting economics.
pub record PostingResult : Type 0 where
  pub posted : Bool
  pub entry : JournalEntry
  pub duplicate : Option DuplicatePosting
  pub reused : Bool

-- The text `break_id` is made of the issue and `break_number`.
pub record StockRecordBreak : Type 0 where
  pub break_number : ℕ
  pub issue : String
  pub ownership_quantity : ℤ
  pub location_quantity : ℤ
  pub difference : ℤ
  pub owner : String
  pub state : String

pub record EquitiesBooks : Type 0 where
  pub break_owner : String
  pub entries : List JournalEntry
  pub by_source : Dict String JournalEntry
  pub breaks : List StockRecordBreak

unfoldable pub empty_books : String → EquitiesBooks
empty_books owner = record { break_owner = owner; entries = []; by_source = []; breaks = [] }

-- `entry.reverses_entry_id` names no entry of the journal
unfoldable pub dangling : Option String → List JournalEntry → Bool
dangling none es = false
dangling (some id) es = not (any (λ prior. prior.entry_id == id) es)

module _ {Bytes : Type 0} ⦃k : Key Bytes⦄ (canonical : JournalEntry → Bytes) where
  -- The return for a source event that was posted before
  abbrev pub duplicate_result : JournalEntry → JournalEntry → PostingResult
  duplicate_result original entry = record {
    posted = false;
    entry = original;
    duplicate = some (record {
      source_event_id = entry.source_event_id;
      original_entry_id = original.entry_id;
      duplicate_entry_id = entry.entry_id;
    });
    reused = not (canonical original == canonical entry);
  }

  -- `EquitiesBooks.post`, and the books after the call
  unfoldable pub post :
      JournalEntry → EquitiesBooks → Result LedgerError PostingResult × EquitiesBooks
  post entry b = elim (lookup entry.source_event_id b.by_source) [
    | some original ↦ (ok (duplicate_result original entry), b)
    | none ↦ if dangling entry.reverses_entry_id b.entries then (err unknown_reversal, b) else (
      ok (record { posted = true; entry = entry; duplicate = none; reused = false }),
      record b {
        entries = b.entries ++ entry ∷ [];
        by_source = insert entry.source_event_id entry b.by_source;
      },
    )
  ]

-- `EquitiesBooks.quantities`
unfoldable pub quantities : EquitiesBooks → Dict String (Dict RecordSide ℤ)
quantities b = quantities_of (map (λ e. e.lines) b.entries) []

-- Whether a break is the `existing` one that the loop looks for
abbrev pub is_open_for : String → StockRecordBreak → Bool
is_open_for issue item = item.issue == issue && item.state == "OPEN"

unfoldable pub find_open : String → List StockRecordBreak → Option StockRecordBreak
find_open issue [] = none
find_open issue (x ∷ xs) =
    let rest = find_open issue xs in if is_open_for issue x then some x else rest

-- `self._breaks.remove(existing)`: the first break equal to it is the one that was found.
unfoldable pub remove_open : String → List StockRecordBreak → List StockRecordBreak
remove_open issue [] = []
remove_open issue (x ∷ xs) =
    let rest = remove_open issue xs in if is_open_for issue x then xs else x ∷ rest

abbrev pub stays : Option StockRecordBreak → ℤ → Bool
stays none difference = false
stays (some existing) difference = existing.difference == difference

-- The location quantity that one issue is compared with
unfoldable pub located : Option (Dict String ℤ) → String → Dict RecordSide ℤ → ℤ
located (some observed) issue sides = value_at issue observed
located none issue sides = pos 0 -ℤ value_at location sides

-- One round of the loop of `verify_stock_record`
unfoldable pub verify_issue :
    Option (Dict String ℤ)
    → String
    → String × Dict RecordSide ℤ
    → List StockRecordBreak
    → List StockRecordBreak
verify_issue observed owner (issue, sides) breaks =
    let held = value_at ownership sides in
    let there = located observed issue sides in
    let difference = held -ℤ there in
    if difference == pos 0
    then breaks
    else if stays (find_open issue breaks) difference
    then breaks
    else (let others = remove_open issue breaks in
        others
        ++ (record {
          break_number = suc (length others);
          issue = issue;
          ownership_quantity = held;
          location_quantity = there;
          difference = difference;
          owner = owner;
          state = "OPEN";
        })
          ∷ [])

unfoldable pub verify_issues :
    Option (Dict String ℤ)
    → String
    → Dict String (Dict RecordSide ℤ)
    → List StockRecordBreak
    → List StockRecordBreak
verify_issues observed owner [] breaks = breaks
verify_issues observed owner (item ∷ items) breaks =
    verify_issues observed owner items (verify_issue observed owner item breaks)

-- `EquitiesBooks.verify_stock_record`, as the books after the call, whose breaks it returns
unfoldable pub verify_stock_record : Option (Dict String ℤ) → EquitiesBooks → EquitiesBooks
verify_stock_record observed b = record b {
  breaks = verify_issues observed b.break_owner (quantities b) b.breaks;
}
