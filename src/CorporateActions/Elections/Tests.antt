-- ===== src/CorporateActions/Elections/Tests.antt =====
-- A tender offer of atreides/corporate_actions/election.py, and the theorems at it.
use project_atreides.CorporateActions.Elections.Defaults.{
  assign_defaults, DefaultAssignment, Holding, AccountDefault, assign_accounts, account_default,
  balance_default, elected_quantity_of, default_accounts,
}
use project_atreides.CorporateActions.Lifecycle.{voluntary}
use project_atreides.Common.Distinct.{IsDistinct}
use project_atreides.Common.Sort.{sorted, place}
use project_atreides.Common.Dict.{lookup}
use project_atreides.Common.{
  ℕ, refl, inl, true, false, none, some, List, [], map, ok, Member, String, ◌≡◌, ◌∷◌,
}
use project_atreides.Common.Int.{◌-ℤ◌, ◌≤ℤ◌, ◌<ℤ◌, ℤ, pos}
use project_atreides.CorporateActions.Elections.Records.{
  ElectiveEvent, Submission, ElectionBook, accepted, first_entry,
}
use project_atreides.CorporateActions.Elections.{
  submit_all, submit, instruct, cover, empty_book, submit_outcome, refused, accepted_instructions,
  duplicate, election_refusal, over_cover, ProtectCover, accepted_covers, cover_refusal, late,
  ElectionInstruction, instruction_refusal, uncovered, find_protect, covered_of, elected_by,
  firm_deadline,
}
use project_atreides.CorporateActions.Elections.Accepted.{instruction_ids}
use project_atreides.CorporateActions.Elections.Defaults.Exact.{IsAccounted, assign_defaults_exact}
use project_atreides.Common.Key.{string_key}
use project_atreides.CorporateActions.Elections.Retry.{retry_changes_nothing}
use project_atreides.CorporateActions.Elections.Covered.{submit_all-never_over}

abbrev offer : ElectiveEvent
offer = record {
  event_id = "CA-1";
  participation = voluntary;
  announcement_date = pos 10;
  election_deadline = some (pos 30);
  protect_deadline = some (pos 33);
  options = "001" ∷ "002" ∷ [];
  default_option_id = some "002";
}

abbrev order : String → String → ℕ → ℕ → Submission String
order id account quantity day = instruct (record {
  instruction_id = id;
  account_id = account;
  option_id = "001";
  quantity = quantity;
  in_face_amount = false;
  received_date = pos day;
  protect = true;
  origin = "desk";
})

abbrev delivery : String → ℕ → Submission String
delivery id quantity = cover (record {
  cover_id = id;
  instruction_id = "I-1";
  account_id = "A";
  quantity = quantity;
  received_date = pos 32;
  origin = "desk";
})

abbrev calls : List (Submission String)
calls =
    order "I-1" "A" 50 20
    ∷ delivery "C-1" 30
    ∷ delivery "C-2" 30
    ∷ delivery "C-3" 20
    ∷ order "I-2" "B" 10 29
    ∷ []

abbrev book : ElectionBook String
book = submit_all (empty_book offer 2) calls

-- Opens the code of the model in the runs below.
all_elections : Unit {0}
unfolding submit_all submit submit_outcome election_refusal cover_refusal instruction_refusal
    find_protect uncovered first_entry accepted_instructions accepted_covers covered_of elected_by
    firm_deadline ◌-ℤ◌
all_elections = tt

outcomes :
    map (λ e. e.outcome) book.journal
    ≡ accepted ∷ accepted ∷ refused over_cover ∷ accepted ∷ refused late ∷ []
unfolding all_elections
outcomes = refl

submit_all-never_over_example :
    IsDistinct (instruction_ids (accepted_instructions book.journal))
    × ((c : ProtectCover String)
        → Member c (accepted_covers book.journal)
        → Member c.instruction_id (instruction_ids (accepted_instructions book.journal)))
    × ((i : ElectionInstruction String)
        → Member i (accepted_instructions book.journal)
        → pos 0 ≤ℤ uncovered book.journal i)
submit_all-never_over_example = submit_all-never_over offer 2 calls

abbrev retried_book : ElectionBook String
retried_book =
    submit_all (submit (empty_book offer 2) (order "I-1" "A" 50 20)).0 (delivery "C-1" 30 ∷ [])

first_unseen : first_entry {W = String} [] "I-1" ≡ none
unfolding first_entry
first_unseen = refl

retry_changes_nothing_example :
    ((submit retried_book (order "I-1" "A" 50 20)).1.outcome ≡ duplicate 0)
    × (accepted_instructions (submit retried_book (order "I-1" "A" 50 20)).0.journal
        ≡ accepted_instructions retried_book.journal)
    × (accepted_covers (submit retried_book (order "I-1" "A" 50 20)).0.journal
        ≡ accepted_covers retried_book.journal)
retry_changes_nothing_example =
    retry_changes_nothing (empty_book offer 2) (order "I-1" "A" 50 20) (delivery "C-1" 30 ∷ [])
      first_unseen

abbrev held : List Holding
held = ("A", pos 80) ∷ ("C", pos 5) ∷ []

abbrev of_a : AccountDefault
of_a = record {
  account_id = "A";
  eligible_balance = some (pos 80);
  elected_quantity = 50;
  default_quantity = some (pos 30);
  refusal = none;
}

abbrev of_c : AccountDefault
of_c = record {
  account_id = "C";
  eligible_balance = some (pos 5);
  elected_quantity = 0;
  default_quantity = some (pos 5);
  refusal = none;
}

abbrev defaults : DefaultAssignment
defaults = record {
  event_id = "CA-1";
  as_of = pos 31;
  firm_deadline = some (pos 28);
  default_option_id = some "002";
  refusal = none;
  accounts = of_a ∷ of_c ∷ [];
}

defaults_assigned : assign_defaults book held (pos 31) ≡ ok defaults
unfolding all_elections assign_defaults assign_accounts account_default balance_default
    default_accounts elected_quantity_of lookup sorted place
defaults_assigned = refl

assign_defaults_exact_example :
    ((deadline : ℤ) × (firm_deadline offer 2 ≡ some deadline) × (deadline <ℤ pos 31))
    × (defaults.default_option_id ≡ offer.default_option_id)
    × ((x : AccountDefault) × Member x (of_a ∷ of_c ∷ [])
        × (x.account_id ≡ "A")
        × IsAccounted (elected_quantity_of book "A") (pos 80) x)
unfolding all_elections
assign_defaults_exact_example =
    assign_defaults_exact book held (pos 31) defaults "A" (pos 80) defaults_assigned refl (inl refl)
