-- ===== src/CorporateActions/Lifecycle/Journal.antt =====
-- atreides/corporate_actions/lifecycle.py: `rebuild` accepts the journals that the lifecycle writes,
-- and no others.
use mathlib.Core.List.{append_assoc, append-nil}
use project_atreides.CorporateActions.Lifecycle.{
  Event, LifecycleState, TransitionRequest, TransitionEntry, Lifecycle, start, make_request, step,
  same_state, same_request, same_entry, rebuild_from, rebuild, same_bool, status_key, Key,
  milestone_key,
}
use project_atreides.CorporateActions.Lifecycle.Invariant.{run_requests}
use project_atreides.Common.{
  Bool, true, arith, ◌≡◌, ◌↔◌, refl, sym, List, [], map, ok, length, ◌∙◌, ◌∷◌, ◌++◌, ℕ, suc, ap,
  length-snoc,
}
use project_atreides.Common.Key.{same_list_iff, same_option_iff, nat_key, string_key, ==_self}
use project_atreides.CorporateActions.Lifecycle.Milestones.{reason_key}

same_bool_iff : (a b : Bool) → (same_bool a b ≡ true) ↔ (a ≡ b)
same_bool_iff a b = ground arith

same_state_iff : (s t : LifecycleState) → (same_state s t ≡ true) ↔ (s ≡ t)
unfolding same_state
same_state_iff s t = (
  λ h. ground (
    arith,
    status_key.eqb_iff s.status t.status,
    same_list_iff s.reached t.reached,
    same_option_iff s.last_effective_date t.last_effective_date,
  ),
  λ h. ground (
    arith,
    status_key.eqb_iff s.status t.status,
    same_list_iff s.reached t.reached,
    same_option_iff s.last_effective_date t.last_effective_date,
  ),
)

module _ {W : Type 0} ⦃w : Key W⦄ where
  same_request_iff : (r q : TransitionRequest W) → (same_request r q ≡ true) ↔ (r ≡ q)
  unfolding same_request
  same_request_iff r q = (
    λ h. ground (arith, milestone_key.eqb_iff r.milestone q.milestone, w.eqb_iff r.origin q.origin),
    λ h. ground (arith, milestone_key.eqb_iff r.milestone q.milestone, w.eqb_iff r.origin q.origin),
  )

  same_entry_iff : (e f : TransitionEntry W) → (same_entry e f ≡ true) ↔ (e ≡ f)
  unfolding same_entry
  same_entry_iff e f = (
    λ h. ground (
      arith,
      string_key.eqb_iff e.event_id f.event_id,
      same_request_iff e.request f.request,
      same_bool_iff e.applied f.applied,
      same_option_iff e.refusal f.refusal,
      same_state_iff e.state_before f.state_before,
      same_state_iff e.state_after f.state_after,
    ),
    λ h. ground (
      arith,
      string_key.eqb_iff e.event_id f.event_id,
      same_request_iff e.request f.request,
      same_bool_iff e.applied f.applied,
      same_option_iff e.refusal f.refusal,
      same_state_iff e.state_before f.state_before,
      same_state_iff e.state_after f.state_after,
    ),
  )

  -- The entries that a sequence of requests writes.
  entries : List (TransitionRequest W) → Lifecycle W → List (TransitionEntry W)
  entries [] lc = []
  entries (r ∷ rs) lc = (make_request lc r).1 ∷ entries rs (make_request lc r).0

  journal-run_requests :
      (rs : List (TransitionRequest W)) (lc : Lifecycle W)
      → (run_requests rs lc).journal ≡ lc.journal ++ entries rs lc
  unfolding run_requests entries make_request
  journal-run_requests [] lc = sym (append-nil lc.journal)
  journal-run_requests (r ∷ rs) lc =
      let (next, entry) = make_request lc r in
      journal-run_requests rs next ∙ append_assoc lc.journal (entry ∷ []) (entries rs next)

  rebuild_from-entries :
      (rs : List (TransitionRequest W)) (lc : Lifecycle W)
      → rebuild_from lc.event lc (length lc.journal) (entries rs lc) ≡ ok (run_requests rs lc)
  unfolding rebuild_from entries run_requests make_request step
  rebuild_from-entries [] lc = refl
  rebuild_from-entries (r ∷ rs) lc =
      let (next, entry) = make_request lc r in
      let later : rebuild_from lc.event next (suc (length lc.journal)) (entries rs next)
          ≡ ok (run_requests rs next) =
        rw (length-snoc lc.journal entry) at (rebuild_from-entries rs next) in
      rw
        (
          ==_self lc.event.event_id,
          ==_self (length lc.journal),
          (same_entry_iff entry entry).1 refl,
        )
        later

  -- An accepted entry is the one that its request recomputes to.
  rebuild_from-cons :
      (ev : Event) (lc lc' : Lifecycle W) (n : ℕ) (e : TransitionEntry W)
      (es : List (TransitionEntry W))
      → rebuild_from ev lc n (e ∷ es) ≡ ok lc'
      → ((make_request lc e.request).1 ≡ e)
        × (rebuild_from ev (make_request lc e.request).0 (suc n) es ≡ ok lc')
  unfolding rebuild_from
  rebuild_from-cons ev lc lc' n e es h =
      let (lc'', e') = make_request lc e.request in
      (ground (arith, same_entry_iff e' e), ground arith)

  rebuild_from_exact :
      (es : List (TransitionEntry W)) (lc lc' : Lifecycle W) (n : ℕ)
      → rebuild_from lc.event lc n es ≡ ok lc'
      → (lc'.journal ≡ lc.journal ++ es) × (lc' ≡ run_requests (map (λ e. e.request) es) lc)
  unfolding run_requests make_request
  rebuild_from_exact [] lc lc' n h =
      let same : lc ≡ lc' = unfold rebuild_from in cc h in
      rw (← same) (sym (append-nil lc.journal), refl)
  rebuild_from_exact (e ∷ es) lc lc' n h =
      let (next, entry) = make_request lc e.request in
      let (recomputed, rest) = rebuild_from-cons lc.event lc lc' n e es h in
      let later = rebuild_from_exact es next lc' (suc n) rest in
      (
        later.0
            ∙ append_assoc lc.journal (entry ∷ []) es
            ∙ ap (λ x. lc.journal ++ x ∷ es) recomputed,
        later.1,
      )

  -- Replaying the journal of any sequence of requests gives back the very lifecycle.
  pub rebuild-run_requests :
      (ev : Event) (rs : List (TransitionRequest W))
      → rebuild ev (run_requests rs (start ev)).journal ≡ ok (run_requests rs (start ev))
  unfolding rebuild start run_requests
  rebuild-run_requests ev rs =
      rw (journal-run_requests rs (start ev)) (rebuild_from-entries rs (start ev))

  -- Only such journals rebuild: where `rebuild` returns, the lifecycle is what the requests of the
  -- given journal produce, and its journal is the given one, entry by entry.
  pub rebuild_exact :
      (ev : Event) (journal : List (TransitionEntry W)) (lc : Lifecycle W)
      → rebuild ev journal ≡ ok lc
      → (lc.journal ≡ journal) × (lc ≡ run_requests (map (λ e. e.request) journal) (start ev))
  unfolding rebuild start run_requests
  rebuild_exact ev journal lc h = rebuild_from_exact journal (start ev) lc 0 h
