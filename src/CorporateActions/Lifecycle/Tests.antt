-- ===== src/CorporateActions/Lifecycle/Tests.antt =====
-- The lifecycle of atreides/corporate_actions/lifecycle.py on a dividend.
use project_atreides.CorporateActions.Lifecycle.Invariant.{
  run_requests, IsValid, run_requests-IsValid, run_requests_ended,
}
use project_atreides.CorporateActions.Lifecycle.Journal.{rebuild-run_requests, rebuild_exact}
use project_atreides.CorporateActions.Lifecycle.{
  Event, TransitionRequest, Lifecycle, start, make_request, rebuild, rebuild_from, step, step_state,
  refusal_of, milestone_refusal, advance, status_after, is_ended, Milestone, entitlement_fixed,
  elections_closed, paid, reversed, mandatory, ended,
}
use project_atreides.Common.{ℕ, refl, true, some, List, [], map, ok, String, ◌≡◌, ◌∷◌}
use project_atreides.Common.Key.{string_key}

abbrev dividend : Event
dividend = record { event_id = "EV1"; announcement_date = 100; participation = mandatory }

abbrev request : Milestone → ℕ → TransitionRequest String
request m date = record { milestone = m; effective_date = date; origin = "vendor" }

-- The second payment and the elections are refused.
abbrev requests : List (TransitionRequest String)
requests =
    request entitlement_fixed 101
    ∷ request elections_closed 102
    ∷ request paid 103
    ∷ request paid 104
    ∷ request reversed 105
    ∷ []

abbrev lc : Lifecycle String
lc = run_requests requests (start dividend)

all_code : Unit {0}
unfolding run_requests make_request step start rebuild rebuild_from
all_code = tt

lc_ended : is_ended lc.state.status ≡ true
unfolding run_requests make_request step start step_state refusal_of milestone_refusal advance
    status_after
lc_ended = refl

run_requests-IsValid_example : IsValid dividend (run_requests requests (start dividend)).state
run_requests-IsValid_example = run_requests-IsValid dividend requests

run_requests_ended_example :
    ((run_requests requests lc).state ≡ lc.state)
    × ((r : TransitionRequest String)
        → (make_request (run_requests requests lc) r).1.refusal ≡ some ended)
run_requests_ended_example = run_requests_ended requests lc lc_ended

rebuild-run_requests_example : rebuild dividend lc.journal ≡ ok lc
rebuild-run_requests_example = rebuild-run_requests dividend requests

rebuild_exact_example :
    (lc.journal ≡ lc.journal)
    × (lc ≡ run_requests (map (λ e. e.request) lc.journal) (start dividend))
rebuild_exact_example =
    rebuild_exact dividend lc.journal lc (rebuild-run_requests dividend requests)
