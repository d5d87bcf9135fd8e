-- ===== src/Books/Ledger/Breaks/Found.antt =====
-- atreides/books/ledger.py: `verify_stock_record` leaves an open break for each issue that does not
-- agree with the locations it is compared with.
use project_atreides.Common.Dict.{lookup, unique_keys, lookup-Member, has_key}
use project_atreides.Books.Ledger.{
  EquitiesBooks, StockRecordBreak, is_open_for, find_open, remove_open, located, verify_issue,
  verify_issues, verify_stock_record, quantities, RecordSide, ownership, Dict,
}
use project_atreides.Books.Ledger.Totals.{value_at}
use project_atreides.Books.Ledger.Balance.{quantities_of-unique_keys}
use project_atreides.Books.Ledger.Breaks.{
  IsSingle, replace_open, replace_open-IsSingle, replace_open-finds, replace_open-others,
}
use project_atreides.Common.{
  suc, refl, inl, inr, true, false, Option, some, List, [], arith, length, Member, String, ◌≡◌, ◌∙◌,
  ◌≢◌, ◌⊎◌, ◌∷◌, Bool-cases, Option-cases,
}
use project_atreides.Common.Int.{◌-ℤ◌, ℤ, pos, -ℤ_parts, eq_of_parts, eqb_ℤ, eqb_ℤ_iff}
use project_atreides.Common.Key.{==_self, string_key}
use project_atreides.Books.Ledger.Lines.{side_key}

module _ (observed : Option (Dict String ℤ)) (owner : String) where
  -- By how much an issue disagrees.
  abbrev pub disagreement : String × Dict RecordSide ℤ → ℤ
  disagreement (issue, sides) = value_at ownership sides -ℤ located observed issue sides

  -- The break that a disagreement opens.
  abbrev opened : String × Dict RecordSide ℤ → List StockRecordBreak → StockRecordBreak
  opened (issue, sides) breaks = record {
    break_number = suc (length (remove_open issue breaks));
    issue = issue;
    ownership_quantity = value_at ownership sides;
    location_quantity = located observed issue sides;
    difference = disagreement (issue, sides);
    owner = owner;
    state = "OPEN";
  }

  opened_open :
      (item : String × Dict RecordSide ℤ) (breaks : List StockRecordBreak)
      → is_open_for item.0 (opened item breaks) ≡ true
  opened_open (issue, sides) breaks = rw (==_self issue) refl

  abbrev IsFoundIn : String × Dict RecordSide ℤ → List StockRecordBreak → Type 0
  IsFoundIn item breaks =
      (x : StockRecordBreak) × (find_open item.0 breaks ≡ some x)
      × (x.difference ≡ disagreement item)

  -- One round changes nothing, with the disagreement on record if there is one, or opens a break.
  verify_issue-cases :
      (item : String × Dict RecordSide ℤ) (breaks : List StockRecordBreak)
      → ((verify_issue observed owner item breaks ≡ breaks)
          × ((disagreement item ≡ pos 0) ⊎ IsFoundIn item breaks))
        ⊎ (verify_issue observed owner item breaks
            ≡ replace_open item.0 (opened item breaks) breaks)
  unfolding verify_issue replace_open
  verify_issue-cases (issue, sides) breaks =
      let d = disagreement (issue, sides) in
      elim (Bool-cases (eqb_ℤ d (pos 0))) [
        | inl e ↦ inl (rw (verify_issue, e) refl, inl ((eqb_ℤ_iff d (pos 0)).0 e))
        | inr e ↦ elim (Option-cases (find_open issue breaks)) [
          | inl f ↦ inr (rw (verify_issue, e, f) refl)
          | inr (x, f) ↦ elim (Bool-cases (eqb_ℤ x.difference d)) [
            | inl q ↦
                inl (rw (verify_issue, e, f, q) refl, inr (x, f, (eqb_ℤ_iff x.difference d).0 q))
            | inr q ↦ inr (rw (verify_issue, e, f, q) refl)
          ]
        ]
      ]

  verify_issue-IsSingle :
      (item : String × Dict RecordSide ℤ) (breaks : List StockRecordBreak)
      → IsSingle breaks
      → IsSingle (verify_issue observed owner item breaks)
  verify_issue-IsSingle item breaks single = elim (verify_issue-cases item breaks) [
    | inl (same, _) ↦ rw same single
    | inr new ↦
        rw new (
          replace_open-IsSingle item.0 (opened item breaks) breaks (opened_open item breaks) single)
  ]

  verify_issue-finds :
      (item : String × Dict RecordSide ℤ) (breaks : List StockRecordBreak)
      → IsSingle breaks
      → disagreement item ≢ pos 0
      → IsFoundIn item (verify_issue observed owner item breaks)
  verify_issue-finds item breaks single n = elim (verify_issue-cases item breaks) [
    | inl (same, inl agreed) ↦ absurd (n agreed)
    | inl (same, inr found) ↦ rw same found
    | inr new ↦ (
      opened item breaks,
      rw new
          (replace_open-finds item.0 (opened item breaks) breaks (opened_open item breaks) single),
      refl,
    )
  ]

  verify_issue-others :
      (item : String × Dict RecordSide ℤ) (i : String) (breaks : List StockRecordBreak)
      → i ≢ item.0
      → find_open i (verify_issue observed owner item breaks) ≡ find_open i breaks
  verify_issue-others item i breaks n = elim (verify_issue-cases item breaks) [
    | inl (same, _) ↦ rw same refl
    | inr new ↦
        rw new
          (replace_open-others item.0 (opened item breaks) breaks i (opened_open item breaks) n)
  ]

  verify_issues-others :
      (items : Dict String (Dict RecordSide ℤ)) (i : String) (breaks : List StockRecordBreak)
      → has_key i items ≡ false
      → find_open i (verify_issues observed owner items breaks) ≡ find_open i breaks
  unfolding verify_issues lookup
  verify_issues-others [] i breaks h = refl
  verify_issues-others ((j, sides) ∷ items) i breaks h =
      let n : i ≢ j = λ e. absurd (ground (arith, string_key.eqb_iff j i)) in
      let h' : has_key i items ≡ false = ground (arith) in
      verify_issues-others items i (verify_issue observed owner (j, sides) breaks) h'
      ∙ verify_issue-others (j, sides) i breaks n

  verify_issues-finds :
      (items : Dict String (Dict RecordSide ℤ)) (item : String × Dict RecordSide ℤ)
      (breaks : List StockRecordBreak)
      → IsSingle breaks
      → unique_keys items ≡ true
      → Member item items
      → disagreement item ≢ pos 0
      → IsFoundIn item (verify_issues observed owner items breaks)
  unfolding verify_issues unique_keys
  verify_issues-finds [] item breaks single u m n = absurd m
  verify_issues-finds ((j, held) ∷ items) item breaks single u (inl e) n =
      let later : has_key j items ≡ false = ground arith in
      let (y, found, at) = verify_issue-finds (j, held) breaks single (rw e at n) in
      rw e (
        y,
        verify_issues-others items j (verify_issue observed owner (j, held) breaks) later ∙ found,
        at,
      )
  verify_issues-finds ((j, held) ∷ items) item breaks single u (inr m) n =
      verify_issues-finds items item (verify_issue observed owner (j, held) breaks)
        (verify_issue-IsSingle (j, held) breaks single) (ground arith) m n

-- No disagreement is missed: with no two open breaks of an issue before the call, each issue of the
-- books whose ownership differs from its location, observed or recorded, has an open break after it
-- that carries the very difference.
pub verify_stock_record_finds :
    (observed : Option (Dict String ℤ)) (b : EquitiesBooks) (issue : String)
    (sides : Dict RecordSide ℤ)
    → IsSingle b.breaks
    → lookup issue (quantities b) ≡ some sides
    → value_at ownership sides ≢ located observed issue sides
    → (x : StockRecordBreak) × (find_open issue (verify_stock_record observed b).breaks ≡ some x)
      × (x.difference ≡ value_at ownership sides -ℤ located observed issue sides)
unfolding verify_stock_record quantities unique_keys
verify_stock_record_finds observed b issue sides single h n =
    verify_issues-finds observed b.break_owner (quantities b) (issue, sides) b.breaks single
      (quantities_of-unique_keys b.entries [] refl) (lookup-Member issue sides (quantities b) h)
      (λ e. n (
        ground (
          arith,
          -ℤ_parts (value_at ownership sides) (located observed issue sides),
          eq_of_parts (value_at ownership sides) (located observed issue sides),
        )))
