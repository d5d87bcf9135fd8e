-- ===== src/Books/Ledger/Breaks.antt =====
-- atreides/books/ledger.py: what `verify_stock_record` finds against observed locations.
pub mod Found
use project_atreides.Books.Ledger.{
  StockRecordBreak, is_open_for, find_open, remove_open, string_key,
}
use project_atreides.Common.{
  refl, sym, inl, inr, true, false, none, some, List, [], arith, Bool-cases, is_some, String, ◌≡◌,
  ◌∙◌, ◌≢◌, ◌∷◌, ◌++◌, if◌then◌else◌,
}
use project_atreides.Common.Key.{◌==◌, ==-eq, ne_of_==}

-- No issue has two open breaks.
abbrev pub IsSingle : List StockRecordBreak → Type 0
IsSingle breaks = (issue : String) → find_open issue (remove_open issue breaks) ≡ none

find_open-snoc :
    (issue : String) (xs : List StockRecordBreak) (y : StockRecordBreak)
    → find_open issue (xs ++ y ∷ []) ≡ (
        if is_some (find_open issue xs)
        then find_open issue xs
        else if is_open_for issue y
        then some y
        else none)
unfolding find_open
find_open-snoc issue [] y = refl
find_open-snoc issue (x ∷ xs) y = ground (arith, find_open-snoc issue xs y)

remove_open-snoc_new :
    (issue : String) (xs : List StockRecordBreak) (y : StockRecordBreak)
    → find_open issue xs ≡ none
    → is_open_for issue y ≡ true
    → remove_open issue (xs ++ y ∷ []) ≡ xs
unfolding find_open remove_open
remove_open-snoc_new issue [] y h open_y = ground arith
remove_open-snoc_new issue (x ∷ xs) y h open_y = ground (arith, remove_open-snoc_new issue xs y)

remove_open-snoc_other :
    (issue : String) (xs : List StockRecordBreak) (y : StockRecordBreak)
    → is_open_for issue y ≡ false
    → find_open issue (remove_open issue (xs ++ y ∷ [])) ≡ find_open issue (remove_open issue xs)
unfolding find_open remove_open
remove_open-snoc_other issue [] y h = ground arith
remove_open-snoc_other issue (x ∷ xs) y h =
    ground (arith, remove_open-snoc_other issue xs y h, find_open-snoc issue xs y)

find_open-remove_other :
    (i j : String) (xs : List StockRecordBreak)
    → i ≢ j
    → find_open i (remove_open j xs) ≡ find_open i xs
unfolding find_open remove_open
find_open-remove_other i j [] n = refl
find_open-remove_other i j (x ∷ xs) n = ground (
  arith,
  find_open-remove_other i j xs n,
  string_key.eqb_iff x.issue i,
  string_key.eqb_iff x.issue j,
)

remove_open-remove_other :
    (i j : String) (xs : List StockRecordBreak)
    → i ≢ j
    → find_open i (remove_open i (remove_open j xs)) ≡ find_open i (remove_open i xs)
unfolding find_open remove_open
remove_open-remove_other i j [] n = refl
remove_open-remove_other i j (x ∷ xs) n = ground (
  arith,
  remove_open-remove_other i j xs n,
  find_open-remove_other i j xs n,
  string_key.eqb_iff x.issue i,
  string_key.eqb_iff x.issue j,
)

-- A new open break in the place of the issue's old one.
pub replace_open : String → StockRecordBreak → List StockRecordBreak → List StockRecordBreak
replace_open issue y breaks = remove_open issue breaks ++ y ∷ []

module _ (issue : String) (y : StockRecordBreak) (breaks : List StockRecordBreak) where
  pub replace_open-IsSingle :
      is_open_for issue y ≡ true → IsSingle breaks → IsSingle (replace_open issue y breaks)
  unfolding replace_open
  replace_open-IsSingle open_y single i = elim (Bool-cases (issue == i)) [
    | inl e ↦
        let same : issue ≡ i = ==-eq e in
        rw (← same) (
          rw (remove_open-snoc_new issue (remove_open issue breaks) y (single issue) open_y)
            (single issue))
    | inr e ↦
        let other : is_open_for i y ≡ false = ground (
          arith,
          string_key.eqb_iff issue i,
          string_key.eqb_iff y.issue i,
          string_key.eqb_iff y.issue issue,
        ) in
        remove_open-snoc_other i (remove_open issue breaks) y other
        ∙ remove_open-remove_other i issue breaks (λ q. ne_of_== e (sym q))
        ∙ single i
  ]

  pub replace_open-finds :
      is_open_for issue y ≡ true
      → IsSingle breaks
      → find_open issue (replace_open issue y breaks) ≡ some y
  unfolding replace_open
  replace_open-finds open_y single =
      find_open-snoc issue (remove_open issue breaks) y ∙ rw (single issue, open_y) refl

  pub replace_open-others :
      (i : String)
      → is_open_for issue y ≡ true
      → i ≢ issue
      → find_open i (replace_open issue y breaks) ≡ find_open i breaks
  unfolding replace_open
  replace_open-others i open_y n =
      let other : is_open_for i y ≡ false =
        ground (arith, string_key.eqb_iff y.issue i, string_key.eqb_iff y.issue issue) in
      find_open-snoc i (remove_open issue breaks) y
      ∙ rw (find_open-remove_other i issue breaks n, other)
          (elim (find_open i breaks) as (λ o. (if is_some o then o else none) ≡ o) [
            | none ↦ refl
            | some x ↦ refl
          ])
