-- ===== src/CorporateActions/Lifecycle/Invariant.antt =====
-- Which states the lifecycle of atreides/corporate_actions/lifecycle.py can reach.
use project_atreides.CorporateActions.Lifecycle.{
  Event, LifecycleState, TransitionRequest, Lifecycle, step_state, start, make_request, step,
  Milestone, elective, is_ended, is_paid, initial_state, paid, LifecycleStatus, cancelled, reversed,
  entitlement_fixed, elections_closed, ended,
}
use project_atreides.Common.{
  ℕ, refl, Bool, true, false, Option, none, some, arith, ⊤, ◌≤◌, ◌≡◌, ◌||◌, List, [], ◌∷◌, ◌++◌,
  ◌∙◌,
}
use project_atreides.Common.Key.{◌==◌, contains, has_duplicates, has_duplicates-snoc, contains-snoc}
use project_atreides.CorporateActions.Lifecycle.Milestones.{milestone_key, status_key}

abbrev pub has : LifecycleState → Milestone → Bool
has s m = contains s.reached m

abbrev pub NotBefore : ℕ → Option ℕ → Type 0
NotBefore d none = ⊤
NotBefore d (some last) = d ≤ last

-- What holds of every state of an event's lifecycle.
pub record IsValid (ev : Event) (s : LifecycleState) : Type 0 where
  pub once : has_duplicates s.reached ≡ false
  pub paid_shown : has s paid ≡ (is_paid s.status || s.status == LifecycleStatus.reversed_status)
  pub cancelled_shown : has s cancelled ≡ (s.status == LifecycleStatus.cancelled_status)
  pub reversed_shown : has s reversed ≡ (s.status == LifecycleStatus.reversed_status)
  pub paid_entitled : has s paid ≡ true → has s entitlement_fixed ≡ true
  pub paid_elected :
      has s paid ≡ true → elective ev.participation ≡ true → has s elections_closed ≡ true
  pub closed_elective : has s elections_closed ≡ true → elective ev.participation ≡ true
  pub dated : NotBefore ev.announcement_date s.last_effective_date

initial_state-IsValid : (ev : Event) → IsValid ev initial_state
initial_state-IsValid ev = record {
  once = refl;
  paid_shown = refl;
  cancelled_shown = refl;
  reversed_shown = refl;
  paid_entitled = λ h. cc;
  paid_elected = λ h. cc;
  closed_elective = λ h. cc;
  dated = tt;
}

-- What a new milestone at the end does to the tests on the milestones reached.
snoc_facts :
    (xs : List Milestone) (m : Milestone)
    → (has_duplicates (xs ++ m ∷ []) ≡ (has_duplicates xs || contains xs m))
      × (contains (xs ++ m ∷ []) entitlement_fixed
          ≡ (contains xs entitlement_fixed || m == entitlement_fixed))
      × (contains (xs ++ m ∷ []) elections_closed
          ≡ (contains xs elections_closed || m == elections_closed))
      × (contains (xs ++ m ∷ []) paid ≡ (contains xs paid || m == paid))
      × (contains (xs ++ m ∷ []) cancelled ≡ (contains xs cancelled || m == cancelled))
      × (contains (xs ++ m ∷ []) reversed ≡ (contains xs reversed || m == reversed))
snoc_facts xs m = (
  has_duplicates-snoc xs m,
  contains-snoc xs m entitlement_fixed,
  contains-snoc xs m elections_closed,
  contains-snoc xs m paid,
  contains-snoc xs m cancelled,
  contains-snoc xs m reversed,
)

-- A request, applied or refused, keeps the state valid.
pub step_state-IsValid :
    (ev : Event) (s : LifecycleState) (m : Milestone) (date : ℕ)
    → IsValid ev s
    → IsValid ev (step_state ev s m date)
unfolding step_state
step_state-IsValid ev s entitlement_fixed date v =
    ground (arith, snoc_facts s.reached entitlement_fixed)
step_state-IsValid ev s elections_closed date v =
    ground (arith, snoc_facts s.reached elections_closed)
step_state-IsValid ev s paid date v = ground (arith, snoc_facts s.reached paid)
step_state-IsValid ev s cancelled date v = ground (arith, snoc_facts s.reached cancelled)
step_state-IsValid ev s reversed date v = ground (arith, snoc_facts s.reached reversed)

module _ {W : Type 0} where
  -- Requests in turn.
  unfoldable pub run_requests : List (TransitionRequest W) → Lifecycle W → Lifecycle W
  run_requests [] lc = lc
  run_requests (r ∷ rs) lc = run_requests rs (make_request lc r).0

  run_from-IsValid :
      (rs : List (TransitionRequest W)) (lc : Lifecycle W)
      → IsValid lc.event lc.state
      → IsValid lc.event (run_requests rs lc).state
  unfolding run_requests make_request step
  run_from-IsValid [] lc v = v
  run_from-IsValid (r ∷ rs) lc v =
      run_from-IsValid rs (make_request lc r).0
        (step_state-IsValid lc.event lc.state r.milestone r.effective_date v)

  -- Whatever is requested of an event, in whatever order, its lifecycle is in a valid state: no
  -- milestone is recorded twice, the status is the one that the milestones show, payment has the
  -- entitlement fixed and, on an elective event, elections closed, elections close only on an
  -- elective event, and nothing is dated before the announcement.
  pub run_requests-IsValid :
      (ev : Event) (rs : List (TransitionRequest W)) → IsValid ev (run_requests rs (start ev)).state
  unfolding start
  run_requests-IsValid ev rs = run_from-IsValid rs (start ev) (initial_state-IsValid ev)

  -- Nothing follows an ended lifecycle: each request is refused as ENDED, and the state stays.
  pub run_requests_ended :
      (rs : List (TransitionRequest W)) (lc : Lifecycle W)
      → is_ended lc.state.status ≡ true
      → ((run_requests rs lc).state ≡ lc.state)
        × ((r : TransitionRequest W) → (make_request (run_requests rs lc) r).1.refusal ≡ some ended)
  unfolding run_requests make_request step step_state
  run_requests_ended [] lc h = (refl, λ r. rw h)
  run_requests_ended (r ∷ rs) lc h =
      let next = (make_request lc r).0 in
      let stays : next.state ≡ lc.state = rw h in
      let later = run_requests_ended rs next (rw stays h) in (later.0 ∙ stays, later.1)
