-- ===== src/Books/Ledger/Lines.antt =====
-- The data of atreides/books/ledger.py: account types, sides, sources, lines and source facts, and
-- what a line must satisfy. The patterns and lengths that Pydantic checks of texts are not modelled.
use project_atreides.Common.{
  ℕ, sym, ap, Bool, true, not, Option, arith, Result, ok, raise_if, is_some, nat_eq, String, ◌≡◌,
  ◌∙◌, ◌↔◌, ◌&&◌, ◌||◌, if◌then◌else◌, ◌>>◌, nat_eq_iff,
}
use project_atreides.Common.Int.{ℤ, pos}
use project_atreides.Common.Key.{◌==◌, Key, same_bool, int_key}

pub data AccountType : Type 0 where
  customer_cash customer_margin firm_proprietary pab fail_to_receive stock_borrowed : AccountType
  dtc bank_control fail_to_deliver stock_loaned in_transfer cash : AccountType
  reserve_bank_customer reserve_bank_pab : AccountType

pub data RecordSide : Type 0 where
  ownership location money_side : RecordSide

pub data PostingSource : Type 0 where
  trade_capture allocation cns_settlement cns_fail corporate_action : PostingSource
  cash_movement stock_loan margin_interest reversal : PostingSource

pub data ReserveActivity : Type 0 where
  customer_activity pab_activity firm_activity : ReserveActivity

abbrev pub account_index : AccountType → ℕ
account_index customer_cash = 0
account_index customer_margin = 1
account_index firm_proprietary = 2
account_index pab = 3
account_index fail_to_receive = 4
account_index stock_borrowed = 5
account_index dtc = 6
account_index bank_control = 7
account_index fail_to_deliver = 8
account_index stock_loaned = 9
account_index in_transfer = 10
account_index cash = 11
account_index reserve_bank_customer = 12
account_index reserve_bank_pab = 13

abbrev pub account_of : ℕ → AccountType
account_of n =
    if nat_eq n 0
    then customer_cash
    else if nat_eq n 1
    then customer_margin
    else if nat_eq n 2
    then firm_proprietary
    else if nat_eq n 3
    then pab
    else if nat_eq n 4
    then fail_to_receive
    else if nat_eq n 5
    then stock_borrowed
    else if nat_eq n 6
    then dtc
    else if nat_eq n 7
    then bank_control
    else if nat_eq n 8
    then fail_to_deliver
    else if nat_eq n 9
    then stock_loaned
    else if nat_eq n 10
    then in_transfer
    else if nat_eq n 11
    then cash
    else if nat_eq n 12
    then reserve_bank_customer
    else reserve_bank_pab

account_of-account_index : (a : AccountType) → account_of (account_index a) ≡ a
account_of-account_index a = ground arith

pub account_index-eq_iff :
    (a b : AccountType) → (nat_eq (account_index a) (account_index b) ≡ true) ↔ (a ≡ b)
account_index-eq_iff a b = (
  λ h.
      sym (account_of-account_index a)
      ∙ ap account_of ((nat_eq_iff (account_index a) (account_index b)).0 h)
      ∙ account_of-account_index b,
  λ h. (nat_eq_iff (account_index a) (account_index b)).1 (ap account_index h),
)

instance abbrev pub account_key : Key AccountType
account_key = record {
  eqb = λ a b. nat_eq (account_index a) (account_index b);
  eqb_iff = account_index-eq_iff;
}

abbrev pub side_index : RecordSide → ℕ
side_index ownership = 0
side_index location = 1
side_index money_side = 2

pub side_index-eq_iff : (a b : RecordSide) → (nat_eq (side_index a) (side_index b) ≡ true) ↔ (a ≡ b)
side_index-eq_iff a b = ground arith

instance abbrev pub side_key : Key RecordSide
side_key = record { eqb = λ a b. nat_eq (side_index a) (side_index b); eqb_iff = side_index-eq_iff }

-- The members of the two sets that name the reserve sources
abbrev pub is_reserve_source : AccountType → Bool
is_reserve_source t = t == fail_to_receive || t == stock_borrowed || t == fail_to_deliver

pub record ReserveSourceFact : Type 0 where
  pub account_type : AccountType
  pub issue : String
  pub activity : ReserveActivity
  pub settlement_date : ℕ
  pub contract_price : ℤ

pub record LedgerLine : Type 0 where
  pub account_id : String
  pub account_type : AccountType
  pub record_side : RecordSide
  pub issue : Option String
  pub quantity : ℤ
  pub currency : Option String
  pub money : ℤ

-- The `ValueError`s of the validators, and of `EquitiesBooks.post`
pub data LedgerError : Type 0 where
  not_reserve_source not_one_unit security_on_money cash_off_money : LedgerError
  other_event unbalanced reversal_unnamed not_a_reversal not_synthetic : LedgerError
  facts_missing unknown_reversal : LedgerError

-- `ReserveSourceFact._is_reserve_source`
unfoldable pub construct_fact : ReserveSourceFact → Result LedgerError ReserveSourceFact
construct_fact f = do raise_if (not (is_reserve_source f.account_type)) not_reserve_source; ok f

unfoldable pub is_security : LedgerLine → Bool
is_security l = is_some l.issue && not (l.quantity == pos 0) && not (is_some l.currency)

unfoldable pub is_cash : LedgerLine → Bool
is_cash l = is_some l.currency && not (l.money == pos 0) && not (is_some l.issue)

-- `LedgerLine._one_unit`
unfoldable pub construct_line : LedgerLine → Result LedgerError LedgerLine
unfolding is_security is_cash
construct_line l = do
  raise_if (same_bool (is_security l) (is_cash l)) not_one_unit
  raise_if (is_security l && l.record_side == money_side) security_on_money
  raise_if (is_cash l && not (l.record_side == money_side)) cash_off_money
  ok l
