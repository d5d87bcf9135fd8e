-- ===== src/CorporateActions/Elections/Records.antt =====
-- atreides/corporate_actions/election.py: the submissions, the journal's entries and what is read of
-- the journal.
use project_atreides.CorporateActions.Lifecycle.{
  Participation, mandatory, voluntary, mandatory_with_choice,
}
use project_atreides.Common.Key.{◌==◌, string_key, nat_key}
use project_atreides.Common.Int.{◌-ℤ◌, ℤ, pos, ltb_ℤ}
use project_atreides.Common.{
  ℕ, Bool, true, false, not, Option, none, some, List, [], String, ◌+◌, ◌&&◌, ◌∷◌, if◌then◌else◌,
}

-- What elections read of a `CorporateActionEvent`; of an option its identifier
pub record ElectiveEvent : Type 0 where
  pub event_id : String
  pub participation : Participation
  pub announcement_date : ℤ
  pub election_deadline : Option ℤ
  pub protect_deadline : Option ℤ
  pub options : List String
  pub default_option_id : Option String

-- `firm_deadline`, where `lead_days` is the policy's `firm_lead_days`
unfoldable pub firm_deadline : ElectiveEvent → ℕ → Option ℤ
firm_deadline ev lead_days = elim ev.election_deadline [
  | none ↦ none
  | some depository ↦ some (depository -ℤ pos lead_days)
]

pub record ElectionInstruction (W : Type 0) : Type 0 where
  pub instruction_id : String
  pub account_id : String
  pub option_id : String
  pub quantity : ℕ
  pub in_face_amount : Bool
  pub received_date : ℤ
  pub protect : Bool
  pub origin : W

pub record ProtectCover (W : Type 0) : Type 0 where
  pub cover_id : String
  pub instruction_id : String
  pub account_id : String
  pub quantity : ℕ
  pub received_date : ℤ
  pub origin : W

pub data Submission (W : Type 0) : Type 0 where
  instruct : ElectionInstruction W → Submission W
  cover : ProtectCover W → Submission W

pub data ElectionRefusal : Type 0 where
  event_not_elective late early options_not_stated unknown_option : ElectionRefusal
  protect_not_offered conflicting_duplicate unknown_protect late_cover over_cover : ElectionRefusal

-- `outcome` with its `refusal` or `duplicate_of`, which the entry's validator keeps together
pub data ElectionOutcome : Type 0 where
  accepted : ElectionOutcome
  refused : ElectionRefusal → ElectionOutcome
  duplicate : ℕ → ElectionOutcome

pub record ElectionEntry (W : Type 0) : Type 0 where
  pub event_id : String
  pub sequence : ℕ
  pub submission : Submission W
  pub outcome : ElectionOutcome

pub record ElectionBook (W : Type 0) : Type 0 where
  pub event : ElectiveEvent
  pub lead_days : ℕ
  pub journal : List (ElectionEntry W)

abbrev pub submission_id : {W : Type 0} → Submission W → String
submission_id (instruct i) = i.instruction_id
submission_id (cover c) = c.cover_id

abbrev pub is_duplicate : ElectionOutcome → Bool
is_duplicate (duplicate _) = true
is_duplicate accepted = false
is_duplicate (refused _) = false

abbrev pub is_voluntary : Participation → Bool
is_voluntary voluntary = true
is_voluntary mandatory = false
is_voluntary mandatory_with_choice = false

abbrev pub is_after : ℤ → Option ℤ → Bool
is_after date none = false
is_after date (some deadline) = ltb_ℤ deadline date

abbrev pub outcome_of : Option ElectionRefusal → ElectionOutcome
outcome_of none = accepted
outcome_of (some reason) = refused reason

module _ {W : Type 0} where
  -- `_first`
  unfoldable pub first_entry : List (ElectionEntry W) → String → Option (ElectionEntry W)
  first_entry [] id = none
  first_entry (e ∷ es) id =
      let rest = first_entry es id in
      if not (is_duplicate e.outcome) && submission_id e.submission == id then some e else rest

  abbrev pub as_instruction :
      ElectionOutcome → Submission W → List (ElectionInstruction W) → List (ElectionInstruction W)
  as_instruction accepted (instruct i) rest = i ∷ rest
  as_instruction accepted (cover c) rest = rest
  as_instruction (refused _) s rest = rest
  as_instruction (duplicate _) s rest = rest

  abbrev pub as_cover :
      ElectionOutcome → Submission W → List (ProtectCover W) → List (ProtectCover W)
  as_cover accepted (cover c) rest = c ∷ rest
  as_cover accepted (instruct i) rest = rest
  as_cover (refused _) s rest = rest
  as_cover (duplicate _) s rest = rest

  unfoldable pub accepted_instructions : List (ElectionEntry W) → List (ElectionInstruction W)
  accepted_instructions [] = []
  accepted_instructions (e ∷ es) = as_instruction e.outcome e.submission (accepted_instructions es)

  unfoldable pub accepted_covers : List (ElectionEntry W) → List (ProtectCover W)
  accepted_covers [] = []
  accepted_covers (e ∷ es) = as_cover e.outcome e.submission (accepted_covers es)

  -- The sum of `elected_quantity`
  unfoldable pub elected_by : String → List (ElectionInstruction W) → ℕ
  elected_by account [] = 0
  elected_by account (i ∷ is) =
      let rest = elected_by account is in
      if i.account_id == account then i.quantity + rest else rest

  -- The sum in `_uncovered`
  unfoldable pub covered_of : String → List (ProtectCover W) → ℕ
  covered_of id [] = 0
  covered_of id (c ∷ cs) =
      let rest = covered_of id cs in if c.instruction_id == id then c.quantity + rest else rest
