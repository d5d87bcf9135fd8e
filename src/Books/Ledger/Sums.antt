-- ===== src/Books/Ledger/Sums.antt =====
-- atreides/books/ledger.py: what each balanced entry adds to an issue.
use project_atreides.Books.Ledger.{
  LedgerLine, JournalEntry, construct_line, is_security, is_cash, construct_entry, has_nonzero,
  ownership, location, money_side, side_key, RecordSide, account_key, reserve_key, Dict, lookup,
  insert, int_key,
}
use project_atreides.Common.Dict.{lookup}
use project_atreides.Books.Ledger.Totals.{
  value_at, value_at-add_to, issue_totals_from, issue_totals, add_line, add_lines, amount_at,
  or_empty, add_to,
}
use project_atreides.Common.{
  refl, sym, false, none, some, List, [], arith, ok, All, String, ◌≡◌, ◌∙◌, ◌&&◌, ◌∷◌,
  if◌then◌else◌, true, Bool, ◌≢◌,
}
use project_atreides.Common.Int.{◌+ℤ◌, ℤ, pos, int_laws, +ℤ-zero, zero-+ℤ, +ℤ_assoc, parts_of_eq}
use project_atreides.Common.Key.{◌==◌, string_key, same_option}
use project_atreides.Common.Dict.{lookup-insert}

-- A line as its validator returns it.
abbrev pub IsLine : LedgerLine → Type 0
IsLine l = construct_line l ≡ ok l

-- An entry as its validator returns it, of such lines.
pub record IsEntry (e : JournalEntry) : Type 0 where
  pub lines_valid : All IsLine e.lines
  pub entry_valid : construct_entry e ≡ ok e

-- What a line brings to an issue, and to an issue on one side.
share : String → LedgerLine → ℤ
share issue l = if same_option l.issue (some issue) then l.quantity else pos 0

share_on : String → RecordSide → LedgerLine → ℤ
share_on issue side l =
    if same_option l.issue (some issue) && l.record_side == side then l.quantity else pos 0

issue_sum : String → List LedgerLine → ℤ
unfolding share
issue_sum issue [] = pos 0
issue_sum issue (l ∷ ls) = share issue l +ℤ issue_sum issue ls

pub side_sum : String → RecordSide → List LedgerLine → ℤ
unfolding share_on
side_sum issue side [] = pos 0
side_sum issue side (l ∷ ls) = share_on issue side l +ℤ side_sum issue side ls

value_at-issue_totals_from :
    (issue : String) (ls : List LedgerLine) (d : Dict String ℤ)
    → value_at issue (issue_totals_from ls d) ≡ value_at issue d +ℤ issue_sum issue ls
unfolding issue_totals_from issue_sum share
value_at-issue_totals_from issue [] d = sym (+ℤ-zero (value_at issue d))
value_at-issue_totals_from issue (l ∷ ls) d =
    elim (l.issue)
      as (λ o.
        value_at issue (issue_totals_from ls (elim o [ none ↦ d | some i ↦ add_to i l.quantity d ]))
        ≡ value_at issue d
          +ℤ ((if same_option o (some issue) then l.quantity else pos 0) +ℤ issue_sum issue ls)) [
            | none ↦ rw (value_at-issue_totals_from issue ls d, zero-+ℤ) refl
            | some i ↦
                rw
                  (
                    value_at-issue_totals_from issue ls (add_to i l.quantity d),
                    value_at-add_to issue i l.quantity d,
                  )
                  (+ℤ_assoc (value_at issue d) _ _)
          ]

amount_at-add_line :
    (issue : String) (side : RecordSide) (l : LedgerLine) (d : Dict String (Dict RecordSide ℤ))
    → amount_at issue side (add_line l d) ≡ amount_at issue side d +ℤ share_on issue side l
unfolding amount_at add_line share_on
amount_at-add_line issue side l d =
    elim (l.issue)
      as (λ o.
        value_at side (
          or_empty (
            lookup issue (elim o [
              | none ↦ d
              | some i ↦ insert i (add_to l.record_side l.quantity (or_empty (lookup i d))) d
            ])))
        ≡ value_at side (or_empty (lookup issue d))
          +ℤ (if same_option o (some issue) && l.record_side == side then l.quantity else pos 0)) [
            | none ↦ sym (+ℤ-zero _)
            | some i ↦ rw lookup-insert (
                ground (
                  arith,
                  string_key.eqb_iff i issue,
                  value_at-add_to side l.record_side l.quantity (or_empty (lookup i d)),
                  +ℤ-zero (value_at side (or_empty (lookup issue d))),
                ))
          ]

pub amount_at-add_lines :
    (issue : String) (side : RecordSide) (ls : List LedgerLine)
    (d : Dict String (Dict RecordSide ℤ))
    → amount_at issue side (add_lines ls d) ≡ amount_at issue side d +ℤ side_sum issue side ls
unfolding add_lines side_sum
amount_at-add_lines issue side [] d = sym (+ℤ-zero (amount_at issue side d))
amount_at-add_lines issue side (l ∷ ls) d =
    rw (amount_at-add_lines issue side ls (add_line l d), amount_at-add_line issue side l d)
      (+ℤ_assoc (amount_at issue side d) _ _)

sides-split :
    (side : RecordSide) (b : Bool) (q : ℤ)
    → (b ≡ true → side ≢ money_side)
    → (if b then q else pos 0)
      ≡ (if b && side == ownership then q else pos 0)
        +ℤ (if b && side == location then q else pos 0)
sides-split side false q h = sym (+ℤ-zero (pos 0))
sides-split ownership true q h = sym (+ℤ-zero q)
sides-split location true q h = sym (zero-+ℤ q)
sides-split money_side true q h = absurd (h refl refl)

-- A valid line stands on the ownership or the location side of its issue.
share-sides :
    (issue : String) (l : LedgerLine)
    → IsLine l
    → share issue l ≡ share_on issue ownership l +ℤ share_on issue location l
unfolding share share_on construct_line is_security is_cash
share-sides issue l h =
    sides-split l.record_side (same_option l.issue (some issue)) l.quantity (λ b e. ground arith)

issue_sum-sides :
    (issue : String) (ls : List LedgerLine)
    → All IsLine ls
    → issue_sum issue ls ≡ side_sum issue ownership ls +ℤ side_sum issue location ls
unfolding issue_sum side_sum
issue_sum-sides issue [] h = sym (+ℤ-zero (pos 0))
issue_sum-sides issue (l ∷ ls) h =
    omega
      (int_laws, parts_of_eq (share-sides issue l h.0), parts_of_eq (issue_sum-sides issue ls h.1))

value_at-has_nonzero :
    (issue : String) (d : Dict String ℤ) → has_nonzero d ≡ false → value_at issue d ≡ pos 0
unfolding has_nonzero value_at lookup
value_at-has_nonzero issue [] h = refl
value_at-has_nonzero issue ((j, v) ∷ d) h =
    ground (arith, value_at-has_nonzero issue d, int_key.eqb_iff v (pos 0))

-- Each entry brings as much to the ownership side of an issue as it takes from the location side.
pub entry_balanced :
    (issue : String) (e : JournalEntry)
    → IsEntry e
    → side_sum issue ownership e.lines +ℤ side_sum issue location e.lines ≡ pos 0
unfolding construct_entry value_at lookup
entry_balanced issue e h =
    let zero : has_nonzero (issue_totals e.lines) ≡ false = ground (arith, h.entry_valid) in
    sym (issue_sum-sides issue e.lines h.lines_valid)
    ∙ sym (zero-+ℤ (issue_sum issue e.lines))
    ∙ sym (value_at-issue_totals_from issue e.lines [])
    ∙ value_at-has_nonzero issue (issue_totals e.lines) zero
