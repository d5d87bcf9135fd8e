-- ===== src/CorporateActions/Elections.antt =====
-- atreides/corporate_actions/election.py: the journal of elections and covers, and the defaults. A
-- date is its ordinal and a quantity a number of the smallest unit; sums are exact, as the code's are
-- while they have at most 28 digits. `W` stands for the provenance and
-- source of a submission, which are only carried and compared.
mod Records
pub mod Accepted
pub mod Covered
pub mod Retry
pub mod Defaults
pub mod Replay
mod Tests
pub use Records.{
  ElectiveEvent, ElectionInstruction, ProtectCover, Submission, instruct, cover, ElectionRefusal,
  event_not_elective, late, early, options_not_stated, unknown_option, protect_not_offered,
  conflicting_duplicate, unknown_protect, late_cover, over_cover, ElectionOutcome, accepted,
  refused, duplicate, ElectionEntry, ElectionBook,
}
unfoldable pub use Records.{
  firm_deadline, submission_id, is_duplicate, is_voluntary, first_entry, as_instruction, as_cover,
  accepted_instructions, accepted_covers, elected_by, covered_of, is_after, outcome_of,
}
use project_atreides.CorporateActions.Lifecycle.{elective}
use project_atreides.Common.Key.{◌==◌, Key, contains, string_key, nat_key, same_bool}
use project_atreides.Common.Int.{◌-ℤ◌, ℤ, pos, ltb_ℤ, eqb_ℤ}
use project_atreides.Common.{
  ℕ, Bool, false, not, Option, none, some, List, [], length, is_some, nat_eq, ◌&&◌, ◌||◌, ◌∷◌, ◌++◌,
  if◌then◌else◌,
}

module _ {W : Type 0} where
  -- `_uncovered`
  unfoldable pub uncovered : List (ElectionEntry W) → ElectionInstruction W → ℤ
  uncovered journal i =
      pos i.quantity -ℤ pos (covered_of i.instruction_id (accepted_covers journal))

  -- The search of `_refusal` for the instruction that a cover delivers against
  unfoldable pub find_protect :
      ProtectCover W → List (ElectionInstruction W) → Option (ElectionInstruction W)
  find_protect c [] = none
  find_protect c (i ∷ is) =
      let rest = find_protect c is in
      if i.instruction_id == c.instruction_id && i.protect && i.account_id == c.account_id
      then some i
      else rest

  unfoldable pub cover_refusal : ElectionBook W → ProtectCover W → Option ElectionRefusal
  unfolding find_protect
  cover_refusal b c = elim (find_protect c (accepted_instructions b.journal)) [
    | none ↦ some unknown_protect
    | some i ↦
        if is_after c.received_date b.event.protect_deadline
        then some late_cover
        else if ltb_ℤ (uncovered b.journal i) (pos c.quantity)
        then some over_cover
        else none
  ]

  unfoldable pub instruction_refusal :
      ElectionBook W → ElectionInstruction W → Option ElectionRefusal
  instruction_refusal b i =
      if is_after i.received_date (firm_deadline b.event b.lead_days)
      then some late
      else if nat_eq (length b.event.options) 0
      then some options_not_stated
      else if not (contains b.event.options i.option_id)
      then some unknown_option
      else if i.protect
          && (not (is_voluntary b.event.participation) || not (is_some b.event.protect_deadline))
      then some protect_not_offered
      else none

  abbrev pub received_on : Submission W → ℤ
  received_on (instruct i) = i.received_date
  received_on (cover c) = c.received_date

  abbrev pub kind_refusal : ElectionBook W → Submission W → Option ElectionRefusal
  kind_refusal b (instruct i) = instruction_refusal b i
  kind_refusal b (cover c) = cover_refusal b c

  -- `_refusal`
  unfoldable pub election_refusal : ElectionBook W → Submission W → Option ElectionRefusal
  election_refusal b s =
      if not (elective b.event.participation)
      then some event_not_elective
      else if ltb_ℤ (received_on s) b.event.announcement_date
      then some early
      else kind_refusal b s

module _ {W : Type 0} ⦃k : Key W⦄ where
  -- `==` on submissions
  abbrev pub same_submission : Submission W → Submission W → Bool
  same_submission (instruct i) (instruct j) =
      i.instruction_id == j.instruction_id
      && i.account_id == j.account_id
      && i.option_id == j.option_id
      && i.quantity == j.quantity
      && same_bool i.in_face_amount j.in_face_amount
      && eqb_ℤ i.received_date j.received_date
      && same_bool i.protect j.protect
      && i.origin == j.origin
  same_submission (cover c) (cover d) =
      c.cover_id == d.cover_id
      && c.instruction_id == d.instruction_id
      && c.account_id == d.account_id
      && c.quantity == d.quantity
      && eqb_ℤ c.received_date d.received_date
      && c.origin == d.origin
  same_submission (instruct _) (cover _) = false
  same_submission (cover _) (instruct _) = false

  -- The outcome of `submit`
  unfoldable pub submit_outcome : ElectionBook W → Submission W → ElectionOutcome
  submit_outcome b s = elim (first_entry b.journal (submission_id s)) [
    | none ↦ outcome_of (election_refusal b s)
    | some first ↦
        if same_submission first.submission s
        then duplicate first.sequence
        else refused conflicting_duplicate
  ]

  -- `submit`: the new book and the entry
  unfoldable pub submit : ElectionBook W → Submission W → ElectionBook W × ElectionEntry W
  submit b s =
      let entry : ElectionEntry W = record {
        event_id = b.event.event_id;
        sequence = length b.journal;
        submission = s;
        outcome = submit_outcome b s;
      } in
      (record b { journal = b.journal ++ entry ∷ [] }, entry)

  abbrev pub empty_book : ElectiveEvent → ℕ → ElectionBook W
  empty_book ev lead_days = record { event = ev; lead_days = lead_days; journal = [] }

  -- The book after a sequence of calls of `submit`
  unfoldable pub submit_all : ElectionBook W → List (Submission W) → ElectionBook W
  submit_all b [] = b
  submit_all b (s ∷ ss) = submit_all (submit b s).0 ss
