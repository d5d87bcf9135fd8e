-- ===== src/CorporateActions/Lifecycle/Milestones.antt =====
-- The enumerations of atreides/corporate_actions/lifecycle.py, with their equality, and
-- `Participation` of atreides/corporate_actions/events.py.
use project_atreides.Common.Key.{Key}
use project_atreides.Common.{ℕ, Bool, true, false, arith, nat_eq, ◌≡◌, ◌↔◌}

pub data Milestone : Type 0 where
  entitlement_fixed elections_closed paid cancelled reversed : Milestone

pub data LifecycleStatus : Type 0 where
  open_status paid_status cancelled_status reversed_status : LifecycleStatus

pub data RefusalReason : Type 0 where
  ended already_reached not_elective entitlement_not_fixed elections_open : RefusalReason
  not_paid already_paid before_announcement before_previous_milestone : RefusalReason

pub data Participation : Type 0 where
  mandatory voluntary mandatory_with_choice : Participation

-- `Participation.elective`
abbrev pub elective : Participation → Bool
elective mandatory = false
elective voluntary = true
elective mandatory_with_choice = true

abbrev pub milestone_index : Milestone → ℕ
milestone_index entitlement_fixed = 0
milestone_index elections_closed = 1
milestone_index paid = 2
milestone_index cancelled = 3
milestone_index reversed = 4

pub milestone_index-eq_iff :
    (a b : Milestone) → (nat_eq (milestone_index a) (milestone_index b) ≡ true) ↔ (a ≡ b)
milestone_index-eq_iff a b = ground arith

instance abbrev pub milestone_key : Key Milestone
milestone_key = record {
  eqb = λ a b. nat_eq (milestone_index a) (milestone_index b);
  eqb_iff = milestone_index-eq_iff;
}

abbrev pub status_index : LifecycleStatus → ℕ
status_index open_status = 0
status_index paid_status = 1
status_index cancelled_status = 2
status_index reversed_status = 3

pub status_index-eq_iff :
    (a b : LifecycleStatus) → (nat_eq (status_index a) (status_index b) ≡ true) ↔ (a ≡ b)
status_index-eq_iff a b = ground arith

instance abbrev pub status_key : Key LifecycleStatus
status_key = record {
  eqb = λ a b. nat_eq (status_index a) (status_index b);
  eqb_iff = status_index-eq_iff;
}

abbrev pub reason_index : RefusalReason → ℕ
reason_index ended = 0
reason_index already_reached = 1
reason_index not_elective = 2
reason_index entitlement_not_fixed = 3
reason_index elections_open = 4
reason_index not_paid = 5
reason_index already_paid = 6
reason_index before_announcement = 7
reason_index before_previous_milestone = 8

pub reason_index-eq_iff :
    (a b : RefusalReason) → (nat_eq (reason_index a) (reason_index b) ≡ true) ↔ (a ≡ b)
reason_index-eq_iff a b = ground arith

instance abbrev pub reason_key : Key RefusalReason
reason_key = record {
  eqb = λ a b. nat_eq (reason_index a) (reason_index b);
  eqb_iff = reason_index-eq_iff;
}
