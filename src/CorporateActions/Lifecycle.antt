-- ===== src/CorporateActions/Lifecycle.antt =====
-- atreides/corporate_actions/lifecycle.py: which milestones may follow which, and the journal that
-- rebuilds the state. A date is its ordinal. `W` stands for a request's provenance and source,
-- which come from the kernel package and are only carried and compared.
pub mod Milestones
pub mod Invariant
pub mod Journal
mod Tests
pub use Milestones.{
  Milestone, entitlement_fixed, elections_closed, paid, cancelled, reversed, LifecycleStatus,
  RefusalReason, Participation, mandatory, voluntary, mandatory_with_choice, ended, already_reached,
  not_elective, entitlement_not_fixed, elections_open, not_paid, already_paid, before_announcement,
  before_previous_milestone, milestone_key, status_key, reason_key, elective,
}
use project_atreides.Common.{
  ℕ, suc, Bool, true, false, not, Option, none, some, List, [], Result, ok, err, length, is_some,
  ltb, String, ◌&&◌, ◌∷◌, ◌++◌, if◌then◌else◌,
}
use project_atreides.Common.Key.{
  ◌==◌, contains, same_list, Key, same_option, same_bool, nat_key, string_key,
}

-- What the lifecycle reads of a `CorporateActionEvent`
pub record Event : Type 0 where
  pub event_id : String
  pub announcement_date : ℕ
  pub participation : Participation

pub record LifecycleState : Type 0 where
  pub status : LifecycleStatus
  pub reached : List Milestone
  pub last_effective_date : Option ℕ

pub record TransitionRequest (W : Type 0) : Type 0 where
  pub milestone : Milestone
  pub effective_date : ℕ
  pub origin : W

-- `outcome` is "refused" exactly if `applied` is false.
pub record TransitionEntry (W : Type 0) : Type 0 where
  pub event_id : String
  pub sequence : ℕ
  pub request : TransitionRequest W
  pub applied : Bool
  pub refusal : Option RefusalReason
  pub state_before : LifecycleState
  pub state_after : LifecycleState

pub record Lifecycle (W : Type 0) : Type 0 where
  pub event : Event
  pub state : LifecycleState
  pub journal : List (TransitionEntry W)

abbrev pub initial_state : LifecycleState
initial_state = record {
  status = LifecycleStatus.open_status;
  reached = [];
  last_effective_date = none;
}

-- `state.last_effective_date is not None and request.effective_date < state.last_effective_date`
abbrev pub precedes : Option ℕ → ℕ → Bool
precedes none d = false
precedes (some last) d = ltb d last

abbrev pub is_ended : LifecycleStatus → Bool
is_ended LifecycleStatus.open_status = false
is_ended LifecycleStatus.paid_status = false
is_ended LifecycleStatus.cancelled_status = true
is_ended LifecycleStatus.reversed_status = true

abbrev pub is_paid : LifecycleStatus → Bool
is_paid LifecycleStatus.open_status = false
is_paid LifecycleStatus.paid_status = true
is_paid LifecycleStatus.cancelled_status = false
is_paid LifecycleStatus.reversed_status = false

abbrev pub refuse_if : Bool → RefusalReason → Option RefusalReason → Option RefusalReason
refuse_if test reason rest = if test then some reason else rest

-- The rest of `_refusal`, by the milestone
pub milestone_refusal : Event → LifecycleState → Milestone → Option RefusalReason
milestone_refusal ev s reversed = refuse_if (not (is_paid s.status)) not_paid none
milestone_refusal ev s cancelled = refuse_if (is_paid s.status) already_paid none
milestone_refusal ev s entitlement_fixed =
    refuse_if (contains s.reached entitlement_fixed) already_reached none
milestone_refusal ev s elections_closed =
    refuse_if (contains s.reached elections_closed) already_reached
      (refuse_if (not (elective ev.participation)) not_elective none)
milestone_refusal ev s paid = refuse_if (contains s.reached paid) already_reached (
    refuse_if (not (contains s.reached entitlement_fixed)) entitlement_not_fixed (
      refuse_if (elective ev.participation && not (contains s.reached elections_closed))
        elections_open none))

-- `_refusal`
pub refusal_of : Event → LifecycleState → Milestone → ℕ → Option RefusalReason
unfolding milestone_refusal
refusal_of ev s m date = refuse_if (is_ended s.status) ended (
    refuse_if (ltb date ev.announcement_date) before_announcement (
      refuse_if (precedes s.last_effective_date date) before_previous_milestone
        (milestone_refusal ev s m)))

-- `_STATUS_AFTER.get(milestone, status)`
pub status_after : Milestone → LifecycleStatus → LifecycleStatus
status_after paid s = LifecycleStatus.paid_status
status_after cancelled s = LifecycleStatus.cancelled_status
status_after reversed s = LifecycleStatus.reversed_status
status_after entitlement_fixed s = s
status_after elections_closed s = s

pub advance : LifecycleState → Milestone → ℕ → LifecycleState
unfolding status_after
advance s m date = record {
  status = status_after m s.status;
  reached = s.reached ++ m ∷ [];
  last_effective_date = some date;
}

abbrev pub after_refusal : Option RefusalReason → LifecycleState → LifecycleState → LifecycleState
after_refusal (some _) before after = before
after_refusal none before after = after

-- The state that `_step` leaves
pub step_state : Event → LifecycleState → Milestone → ℕ → LifecycleState
unfolding refusal_of advance
step_state ev s m date = after_refusal (refusal_of ev s m date) s (advance s m date)

module _ {W : Type 0} where
  -- `_step`
  unfoldable pub step : Event → LifecycleState → ℕ → TransitionRequest W → TransitionEntry W
  unfolding step_state
  step ev s n r = record {
    event_id = ev.event_id;
    sequence = n;
    request = r;
    applied = not (is_some (refusal_of ev s r.milestone r.effective_date));
    refusal = refusal_of ev s r.milestone r.effective_date;
    state_before = s;
    state_after = step_state ev s r.milestone r.effective_date;
  }

  -- `Lifecycle.request`, whose entry is the last one of the new journal
  unfoldable pub make_request : Lifecycle W → TransitionRequest W → Lifecycle W × TransitionEntry W
  unfolding step
  make_request lc r =
      let entry = step lc.event lc.state (length lc.journal) r in
      (
        record { event = lc.event; state = entry.state_after; journal = lc.journal ++ entry ∷ [] },
        entry,
      )

  unfoldable pub start : Event → Lifecycle W
  start ev = record { event = ev; state = initial_state; journal = [] }

-- The three ways in which `rebuild` raises a `JournalMismatchError`
pub data JournalMismatch : Type 0 where
  other_event out_of_sequence not_recomputed : JournalMismatch

unfoldable pub same_state : LifecycleState → LifecycleState → Bool
same_state s t =
    (s.status == t.status)
    && (same_list s.reached t.reached)
    && (same_option s.last_effective_date t.last_effective_date)

module _ {W : Type 0} ⦃w : Key W⦄ where
  unfoldable pub same_request : TransitionRequest W → TransitionRequest W → Bool
  same_request r q =
      (r.milestone == q.milestone)
      && (r.effective_date == q.effective_date)
      && (r.origin == q.origin)

  -- `recomputed == recorded`, field by field
  unfoldable pub same_entry : TransitionEntry W → TransitionEntry W → Bool
  same_entry e f =
      (e.event_id == f.event_id)
      && (e.sequence == f.sequence)
      && same_request e.request f.request
      && same_bool e.applied f.applied
      && same_option e.refusal f.refusal
      && same_state e.state_before f.state_before
      && same_state e.state_after f.state_after

  -- The loop of `rebuild`
  unfoldable pub rebuild_from :
      Event → Lifecycle W → ℕ → List (TransitionEntry W) → Result JournalMismatch (Lifecycle W)
  rebuild_from ev lc n [] = ok lc
  rebuild_from ev lc n (e ∷ es) =
      let (lc', recomputed) = make_request lc e.request in
      let rest = rebuild_from ev lc' (suc n) es in
      if not (e.event_id == ev.event_id)
      then err other_event
      else if not (e.sequence == n)
      then err out_of_sequence
      else if not (same_entry recomputed e)
      then err not_recomputed
      else rest

  unfoldable pub rebuild : Event → List (TransitionEntry W) → Result JournalMismatch (Lifecycle W)
  unfolding rebuild_from
  rebuild ev journal = rebuild_from ev (start ev) 0 journal
