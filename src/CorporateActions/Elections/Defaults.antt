-- ===== src/CorporateActions/Elections/Defaults.antt =====
-- `assign_defaults` of atreides/corporate_actions/election.py. A holding is its account with its
-- eligible balance; where no account has two, the dictionary `eligible` is the list of holdings.
pub mod Exact
use text.Mathlib.Text.{is_le}
use Prim.Native.String.{compare}
use project_atreides.Common.Dict.{lookup}
use project_atreides.Common.Sort.{sorted}
use project_atreides.Common.{
  ℕ, Bool, not, Option, none, some, List, [], map, Result, ok, err, length, nat_eq, String, ◌++◌,
  if◌then◌else◌,
}
use project_atreides.Common.Int.{◌-ℤ◌, ℤ, pos, leb_ℤ, ltb_ℤ}
use project_atreides.CorporateActions.Elections.Records.{
  ElectionBook, elected_by, firm_deadline, accepted_instructions,
}
use project_atreides.Common.Key.{distinct, string_key}

-- Why there is no default, for all accounts or for one
pub data DefaultRefusal : Type 0 where
  nothing_to_elect deadline_not_passed default_not_stated : DefaultRefusal
  over_instructed instructed_without_position : DefaultRefusal

-- The `ValueError`
pub data HoldingsError : Type 0 where
  repeated_account : HoldingsError

pub record AccountDefault : Type 0 where
  pub account_id : String
  pub eligible_balance : Option ℤ
  pub elected_quantity : ℕ
  pub default_quantity : Option ℤ
  pub refusal : Option DefaultRefusal

pub record DefaultAssignment : Type 0 where
  pub event_id : String
  pub as_of : ℤ
  pub firm_deadline : Option ℤ
  pub default_option_id : Option String
  pub refusal : Option DefaultRefusal
  pub accounts : List AccountDefault

abbrev pub Holding : Type 0
Holding = String × ℤ

abbrev pub text_le : String → String → Bool
text_le a b = is_le (compare a b)

-- The part of the loop for an account with a balance
unfoldable pub balance_default : String → ℕ → ℤ → AccountDefault
balance_default account elected balance =
    let over = ltb_ℤ balance (pos elected) in
    record {
      account_id = account;
      eligible_balance = some balance;
      elected_quantity = elected;
      default_quantity = if over then none else some (balance -ℤ pos elected);
      refusal = if over then some over_instructed else none;
    }

abbrev pub account_of : Holding → String
account_of h = h.0

module _ {W : Type 0} where
  -- `elected_quantity`
  unfoldable pub elected_quantity_of : ElectionBook W → String → ℕ
  elected_quantity_of b account = elected_by account (accepted_instructions b.journal)

  unfoldable pub account_default : ElectionBook W → List Holding → String → AccountDefault
  account_default b holdings account = elim (lookup account holdings) [
    | none ↦ record {
      account_id = account;
      eligible_balance = none;
      elected_quantity = elected_quantity_of b account;
      default_quantity = none;
      refusal = some instructed_without_position;
    }
    | some balance ↦ balance_default account (elected_quantity_of b account) balance
  ]

  -- `sorted(set(eligible) | instructed)`
  unfoldable pub default_accounts : ElectionBook W → List Holding → List String
  default_accounts b holdings = sorted text_le (
      distinct
        (map account_of holdings ++ map (λ i. i.account_id) (accepted_instructions b.journal)))

  -- The inner function `refused`
  unfoldable pub refuse_defaults : ElectionBook W → ℤ → DefaultRefusal → DefaultAssignment
  refuse_defaults b as_of reason = record {
    event_id = b.event.event_id;
    as_of = as_of;
    firm_deadline = firm_deadline b.event b.lead_days;
    default_option_id = none;
    refusal = some reason;
    accounts = [];
  }

  -- The part of `assign_defaults` after its refusals
  unfoldable pub assign_accounts :
      ElectionBook W → List Holding → ℤ → String → Result HoldingsError DefaultAssignment
  assign_accounts b holdings as_of option =
      if not (nat_eq (length (distinct (map account_of holdings))) (length holdings))
      then err repeated_account
      else ok (record {
        event_id = b.event.event_id;
        as_of = as_of;
        firm_deadline = firm_deadline b.event b.lead_days;
        default_option_id = some option;
        refusal = none;
        accounts = map (account_default b holdings) (default_accounts b holdings);
      })

  abbrev pub assign_stated :
      ElectionBook W → List Holding → ℤ → Option String → Result HoldingsError DefaultAssignment
  assign_stated b holdings as_of none = ok (refuse_defaults b as_of default_not_stated)
  assign_stated b holdings as_of (some option) = assign_accounts b holdings as_of option

  abbrev pub assign_after :
      ElectionBook W → List Holding → ℤ → Option ℤ → Result HoldingsError DefaultAssignment
  assign_after b holdings as_of none = ok (refuse_defaults b as_of nothing_to_elect)
  assign_after b holdings as_of (some deadline) =
      if leb_ℤ as_of deadline
      then ok (refuse_defaults b as_of deadline_not_passed)
      else assign_stated b holdings as_of b.event.default_option_id

  unfoldable pub assign_defaults :
      ElectionBook W → List Holding → ℤ → Result HoldingsError DefaultAssignment
  assign_defaults b holdings as_of =
      assign_after b holdings as_of (firm_deadline b.event b.lead_days)
