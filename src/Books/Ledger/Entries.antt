-- ===== src/Books/Ledger/Entries.antt =====
-- atreides/books/ledger.py: journal entries and what an entry must satisfy.
use project_atreides.Common.{
  ℕ, Bool, true, false, not, Option, some, List, map, arith, Result, ok, raise_if, any, all, keep,
  is_some, String, ◌≡◌, ◌↔◌, ◌&&◌, ◌||◌, ◌>>◌,
}
use project_atreides.Common.Int.{ℤ, pos}
use project_atreides.Common.Key.{
  ◌==◌, same_option, Key, contains, same_option_iff, string_key, int_key,
}
use project_atreides.Common.Dict.{Dict}
use project_atreides.Books.Ledger.Lines.{
  LedgerLine, ReserveSourceFact, LedgerError, AccountType, PostingSource, account_key,
  is_reserve_source, other_event, unbalanced, reversal_unnamed, not_a_reversal, not_synthetic,
  facts_missing,
}
use project_atreides.Books.Ledger.Totals.{issue_totals, money_totals}

pub record JournalEntry : Type 0 where
  pub entry_id : String
  pub source_event_id : String
  pub source : PostingSource
  pub effective_date : ℕ
  pub effective_date_basis : String
  pub authority : String
  pub lines : List LedgerLine
  pub posting_event_id : String
  pub reserve_source_facts : List ReserveSourceFact
  pub reverses_entry_id : Option String
  pub synthetic : Bool

abbrev pub is_reversal : PostingSource → Bool
is_reversal PostingSource.reversal = true
is_reversal _ = false

abbrev pub is_margin_interest : PostingSource → Bool
is_margin_interest PostingSource.margin_interest = true
is_margin_interest _ = false

-- A pair of account type and issue
pub record Reserve : Type 0 where
  pub account_type : AccountType
  pub issue : Option String

pub same_reserve_iff :
    (p q : Reserve)
    → ((p.account_type == q.account_type && same_option p.issue q.issue) ≡ true) ↔ (p ≡ q)
same_reserve_iff p q = (
  λ h.
      ground
        (arith, account_key.eqb_iff p.account_type q.account_type, same_option_iff p.issue q.issue),
  λ h.
      ground
        (arith, account_key.eqb_iff p.account_type q.account_type, same_option_iff p.issue q.issue),
)

instance abbrev pub reserve_key : Key Reserve
reserve_key = record {
  eqb = λ p q. p.account_type == q.account_type && same_option p.issue q.issue;
  eqb_iff = same_reserve_iff;
}

unfoldable pub reserve_lines : List LedgerLine → List Reserve
reserve_lines ls =
    map (λ l. record { account_type = l.account_type; issue = l.issue })
      (keep (λ l. is_reserve_source l.account_type) ls)

unfoldable pub reserve_facts : List ReserveSourceFact → List Reserve
reserve_facts fs = map (λ f. record { account_type = f.account_type; issue = some f.issue }) fs

-- `xs == ys` on sets
abbrev pub same_set : List Reserve → List Reserve → Bool
same_set xs ys = all (contains ys) xs && all (contains xs) ys

-- Whether the list of unbalanced issues, or of unbalanced currencies, is not empty
unfoldable pub has_nonzero : Dict String ℤ → Bool
has_nonzero d = any (λ kv. not (kv.1 == pos 0)) d

-- `JournalEntry._balanced_and_attributable`
unfoldable pub construct_entry : JournalEntry → Result LedgerError JournalEntry
construct_entry e = do
  raise_if (not (e.posting_event_id == e.source_event_id)) other_event
  raise_if (has_nonzero (issue_totals e.lines) || has_nonzero (money_totals e.lines)) unbalanced
  raise_if (is_reversal e.source && not (is_some e.reverses_entry_id)) reversal_unnamed
  raise_if (not (is_reversal e.source) && is_some e.reverses_entry_id) not_a_reversal
  raise_if (is_margin_interest e.source && not e.synthetic) not_synthetic
  raise_if (not (same_set (reserve_lines e.lines) (reserve_facts e.reserve_source_facts)))
      facts_missing
  ok e
