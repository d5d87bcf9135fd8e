-- ===== src/Rails/Cns/Profile.antt =====
-- The market profile and the data of atreides/rails/cns.py. Texts of breaks and rationales are not
-- modelled: a break is its code, and the security that it names is the position's.
use project_atreides.Common.{
  ℕ, Bool, true, false, not, Option, none, some, List, [], Result, ok, err, raise_if, is_some,
  String, ◌&&◌, ◌||◌, ◌∷◌, if◌then◌else◌, ◌>>=◌, ◌>>◌,
}
use project_atreides.Common.Int.{◌+ℤ◌, ℤ, pos}
use project_atreides.Common.Key.{◌==◌, string_key}
use project_atreides.Rails.Boundary.{Raw, coerce_member, member, plain, other}

pub data CloseOutRegime : Type 0 where
  not_assessed none_published mandatory_deadline : CloseOutRegime

pub data ProcessingDateRule : Type 0 where
  not_assessed fixed_cycle_from_trade_date session_closure_message : ProcessingDateRule

abbrev pub regime_members : List CloseOutRegime
regime_members =
    CloseOutRegime.not_assessed ∷ CloseOutRegime.none_published ∷ CloseOutRegime.mandatory_deadline
    ∷ []

abbrev pub regime_value : CloseOutRegime → String
regime_value CloseOutRegime.not_assessed = "not_assessed"
regime_value CloseOutRegime.none_published = "none_published"
regime_value CloseOutRegime.mandatory_deadline = "mandatory_deadline"

abbrev pub rule_members : List ProcessingDateRule
rule_members =
    ProcessingDateRule.not_assessed ∷ ProcessingDateRule.fixed_cycle_from_trade_date
    ∷ ProcessingDateRule.session_closure_message ∷ []

abbrev pub rule_value : ProcessingDateRule → String
rule_value ProcessingDateRule.not_assessed = "not_assessed"
rule_value ProcessingDateRule.fixed_cycle_from_trade_date = "fixed_cycle_from_trade_date"
rule_value ProcessingDateRule.session_closure_message = "session_closure_message"

-- The arguments of the constructor. `session_closure_message` is `message_name` here.
pub record MarketProfileFields : Type 0 where
  pub market_id : String
  pub settlement_cycle_days : Option ℤ
  pub processing_date_rule : Raw ProcessingDateRule
  pub message_name : Option String
  pub close_out_regime : Raw CloseOutRegime
  pub close_out_deadline_days : Option ℤ
  pub allocation_rule_published : Bool
  pub provenance : Option String

pub record MarketProfile : Type 0 where
  pub market_id : String
  pub settlement_cycle_days : Option ℤ
  pub processing_date_rule : ProcessingDateRule
  pub message_name : Option String
  pub close_out_regime : CloseOutRegime
  pub close_out_deadline_days : Option ℤ
  pub allocation_rule_published : Bool
  pub provenance : Option String

-- The `ValueError`s of the constructor
pub data MarketError : Type 0 where
  not_a_member market_required provenance_required rule_unread deadline_unstated : MarketError
  deadline_meaningless message_unnamed message_meaningless : MarketError

-- `CloseOutRegime(value)` and `ProcessingDateRule(value)`, which match a value exactly
abbrev pub as_member : {A : Type 0} → Raw A → Result MarketError A
as_member (member a) = ok a
as_member (plain _) = err not_a_member
as_member other = err not_a_member

-- `not text`: `None` and the empty text are both false.
abbrev pub no_text : Option String → Bool
no_text none = true
no_text (some s) = s == ""

abbrev pub is_mandatory : CloseOutRegime → Bool
is_mandatory CloseOutRegime.mandatory_deadline = true
is_mandatory CloseOutRegime.not_assessed = false
is_mandatory CloseOutRegime.none_published = false

abbrev pub is_unread : CloseOutRegime → Bool
is_unread CloseOutRegime.not_assessed = true
is_unread CloseOutRegime.none_published = false
is_unread CloseOutRegime.mandatory_deadline = false

abbrev pub is_message_rule : ProcessingDateRule → Bool
is_message_rule ProcessingDateRule.session_closure_message = true
is_message_rule ProcessingDateRule.not_assessed = false
is_message_rule ProcessingDateRule.fixed_cycle_from_trade_date = false

abbrev pub is_fixed_cycle : ProcessingDateRule → Bool
is_fixed_cycle ProcessingDateRule.fixed_cycle_from_trade_date = true
is_fixed_cycle ProcessingDateRule.not_assessed = false
is_fixed_cycle ProcessingDateRule.session_closure_message = false

-- `processing_date_rule is not ProcessingDateRule.NOT_ASSESSED`
abbrev pub is_read_rule : ProcessingDateRule → Bool
is_read_rule ProcessingDateRule.not_assessed = false
is_read_rule ProcessingDateRule.fixed_cycle_from_trade_date = true
is_read_rule ProcessingDateRule.session_closure_message = true

-- `MarketProfile.__post_init__`, after the coercion of the two fields
unfoldable pub check_market : MarketProfile → Result MarketError MarketProfile
check_market p = do
  raise_if (p.market_id == "") market_required
  raise_if (not (is_unread p.close_out_regime) && no_text p.provenance) provenance_required
  raise_if
      (is_unread p.close_out_regime
        && (is_some p.close_out_deadline_days
            || is_some p.settlement_cycle_days
            || is_read_rule p.processing_date_rule))
      rule_unread
  raise_if (is_mandatory p.close_out_regime && not (is_some p.close_out_deadline_days))
      deadline_unstated
  raise_if (not (is_mandatory p.close_out_regime) && is_some p.close_out_deadline_days)
      deadline_meaningless
  raise_if (is_message_rule p.processing_date_rule && no_text p.message_name) message_unnamed
  raise_if (not (no_text p.message_name) && not (is_message_rule p.processing_date_rule))
      message_meaningless
  ok p

unfoldable pub construct_market : MarketProfileFields → Result MarketError MarketProfile
unfolding check_market
construct_market f = do
  regime ← as_member (coerce_member regime_value regime_members f.close_out_regime)
  rule ← as_member (coerce_member rule_value rule_members f.processing_date_rule)
  check_market (record {
    market_id = f.market_id;
    settlement_cycle_days = f.settlement_cycle_days;
    processing_date_rule = rule;
    message_name = f.message_name;
    close_out_regime = regime;
    close_out_deadline_days = f.close_out_deadline_days;
    allocation_rule_published = f.allocation_rule_published;
    provenance = f.provenance;
  })

-- `MarketProfile.settlement_date_follows_from_trade_date`
unfoldable pub follows_from_trade_date : MarketProfile → Bool
follows_from_trade_date p = is_fixed_cycle p.processing_date_rule && is_some p.settlement_cycle_days

pub absent_market_profile : String → Result MarketError MarketProfile
unfolding construct_market
absent_market_profile market_id = construct_market (record {
  market_id = market_id;
  settlement_cycle_days = none;
  processing_date_rule = member ProcessingDateRule.not_assessed;
  message_name = none;
  close_out_regime = member CloseOutRegime.not_assessed;
  close_out_deadline_days = none;
  allocation_rule_published = false;
  provenance = none;
})

-- `close_out_deadline`, on a profile that the constructor returned: its assertion cannot fail there.
unfoldable pub close_out_deadline : MarketProfile → ℤ → Option ℤ
close_out_deadline p offset =
    if not (is_mandatory p.close_out_regime)
    then none
    else elim p.close_out_deadline_days [ none ↦ none | some d ↦ some (offset +ℤ d) ]

pub record NetPosition : Type 0 where
  pub security_id : String
  pub quantity : ℤ
  pub settlement_date_offset_days : ℤ
  pub market_id : String
  pub constituent_trade_count : ℕ
  pub assigned_processing_date_offset_days : Option ℤ

unfoldable pub processing_date_offset : MarketProfile → NetPosition → Option ℤ
processing_date_offset p position =
    if is_fixed_cycle p.processing_date_rule
    then some (pos 0)
    else if is_message_rule p.processing_date_rule
    then position.assigned_processing_date_offset_days
    else none
