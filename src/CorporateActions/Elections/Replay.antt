-- ===== src/CorporateActions/Elections/Replay.antt =====
-- `rebuild_elections` of atreides/corporate_actions/election.py, and `uncovered_protect_balance`.
pub mod Exact
use project_atreides.Common.{
  ℕ, suc, Bool, true, false, not, List, [], Result, ok, err, nat_eq, String, ◌&&◌, ◌∷◌,
  if◌then◌else◌,
}
use project_atreides.Common.Int.{◌+ℤ◌, ℤ, pos}
use project_atreides.Common.Key.{◌==◌, Key, string_key, nat_key}
use project_atreides.CorporateActions.Elections.Records.{
  ElectionEntry, ElectionBook, ElectionRefusal, ElectionOutcome, ElectionInstruction,
  accepted_instructions, ElectiveEvent, event_not_elective, late, early, options_not_stated,
  unknown_option, protect_not_offered, conflicting_duplicate, unknown_protect, late_cover,
  over_cover,
}
use project_atreides.CorporateActions.Elections.{
  accepted, refused, duplicate, same_submission, submit, uncovered, empty_book,
}

-- The three ways in which `rebuild_elections` raises a `JournalMismatchError`
pub data ReplayMismatch : Type 0 where
  wrong_event wrong_sequence other_outcome : ReplayMismatch

-- `uncovered_protect_balance`
unfoldable pub protect_balance_over :
    {W : Type 0} → List (ElectionEntry W) → String → List (ElectionInstruction W) → ℤ
protect_balance_over journal account [] = pos 0
protect_balance_over journal account (i ∷ is) =
    let rest = protect_balance_over journal account is in
    if i.protect && i.account_id == account then uncovered journal i +ℤ rest else rest

unfoldable pub uncovered_protect_balance : {W : Type 0} → ElectionBook W → String → ℤ
uncovered_protect_balance b account =
    protect_balance_over b.journal account (accepted_instructions b.journal)

abbrev pub refusal_index : ElectionRefusal → ℕ
refusal_index event_not_elective = 0
refusal_index late = 1
refusal_index early = 2
refusal_index options_not_stated = 3
refusal_index unknown_option = 4
refusal_index protect_not_offered = 5
refusal_index conflicting_duplicate = 6
refusal_index unknown_protect = 7
refusal_index late_cover = 8
refusal_index over_cover = 9

abbrev pub same_outcome : ElectionOutcome → ElectionOutcome → Bool
same_outcome accepted accepted = true
same_outcome (refused r) (refused q) = nat_eq (refusal_index r) (refusal_index q)
same_outcome (duplicate n) (duplicate m) = nat_eq n m
same_outcome accepted (refused _) = false
same_outcome accepted (duplicate _) = false
same_outcome (refused _) accepted = false
same_outcome (refused _) (duplicate _) = false
same_outcome (duplicate _) accepted = false
same_outcome (duplicate _) (refused _) = false

module _ {W : Type 0} ⦃k : Key W⦄ where
  -- `==` on entries
  unfoldable pub same_election : ElectionEntry W → ElectionEntry W → Bool
  same_election e d =
      e.event_id == d.event_id
      && e.sequence == d.sequence
      && same_submission e.submission d.submission
      && same_outcome e.outcome d.outcome

  -- The loop of `rebuild_elections`
  unfoldable pub replay_elections :
      ElectionBook W → ℕ → List (ElectionEntry W) → Result ReplayMismatch (ElectionBook W)
  replay_elections b expected [] = ok b
  replay_elections b expected (e ∷ es) =
      let rest = replay_elections (submit b e.submission).0 (suc expected) es in
      if not (e.event_id == b.event.event_id)
      then err wrong_event
      else if not (e.sequence == expected)
      then err wrong_sequence
      else if not (same_election (submit b e.submission).1 e)
      then err other_outcome
      else rest

  unfoldable pub rebuild_elections :
      ElectiveEvent → ℕ → List (ElectionEntry W) → Result ReplayMismatch (ElectionBook W)
  rebuild_elections ev lead_days journal = replay_elections (empty_book ev lead_days) 0 journal
