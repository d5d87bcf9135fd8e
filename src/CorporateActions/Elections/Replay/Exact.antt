-- ===== src/CorporateActions/Elections/Replay/Exact.antt =====
-- atreides/corporate_actions/election.py: a journal that `rebuild_elections` accepts is what its
-- submissions write.
use mathlib.Core.List.{append-nil, append_assoc}
use project_atreides.Common.{
  true, arith, ◌≡◌, refl, ap, ℕ, suc, sym, Bool, false, not, List, [], map, Result, ok, err, ◌∙◌,
  ◌∷◌, ◌++◌, if◌then◌else◌, nat_eq_iff, err_ok, and_split, ok_injective,
}
use project_atreides.CorporateActions.Elections.Records.{
  instruct, cover, accepted, refused, duplicate, ElectionRefusal, ElectionOutcome, Submission,
  ElectionEntry, ElectiveEvent,
}
use project_atreides.Common.Key.{Key, string_key, ==-eq, nat_key, ◌==◌}
use project_atreides.CorporateActions.Elections.Replay.{
  refusal_index, same_outcome, same_submission, ReplayMismatch, same_election, replay_elections,
  rebuild_elections, wrong_event, wrong_sequence, other_outcome,
}
use project_atreides.Common.Int.{eqb_ℤ_iff}
use project_atreides.CorporateActions.Elections.{submit_all, submit, ElectionBook, empty_book}

refusal_index-injective : (r q : ElectionRefusal) → refusal_index r ≡ refusal_index q → r ≡ q
refusal_index-injective r q h = ground arith

same_outcome_eq : (o p : ElectionOutcome) → same_outcome o p ≡ true → o ≡ p
same_outcome_eq accepted accepted h = refl
same_outcome_eq (refused r) (refused q) h =
    ap refused (refusal_index-injective r q ((nat_eq_iff _ _).0 h))
same_outcome_eq (duplicate n) (duplicate m) h = ap duplicate ((nat_eq_iff n m).0 h)
same_outcome_eq accepted (refused _) h = cc h
same_outcome_eq accepted (duplicate _) h = cc h
same_outcome_eq (refused _) accepted h = cc h
same_outcome_eq (refused _) (duplicate _) h = cc h
same_outcome_eq (duplicate _) accepted h = cc h
same_outcome_eq (duplicate _) (refused _) h = cc h

if_err-ok :
    {A : Type 0} (test : Bool) (e : ReplayMismatch) (k : Result ReplayMismatch A) (b : A)
    → (if test then err e else k) ≡ ok b
    → (test ≡ false) × (k ≡ ok b)
if_err-ok true e k b h = absurd (err_ok h)
if_err-ok false e k b h = (refl, h)

not-false : (t : Bool) → not t ≡ false → t ≡ true
not-false t h = ground arith

entry_eq :
    {W : Type 0} (e d : ElectionEntry W)
    → e.event_id ≡ d.event_id
    → e.sequence ≡ d.sequence
    → e.submission ≡ d.submission
    → e.outcome ≡ d.outcome
    → e ≡ d
entry_eq e d a b c o = cc (a, b, c, o)

module _ {W : Type 0} ⦃k : Key W⦄ where
  same_submission_eq : (s t : Submission W) → same_submission s t ≡ true → s ≡ t
  same_submission_eq (instruct i) (instruct j) h = ap instruct (
      ground (
        arith,
        string_key.eqb_iff i.instruction_id j.instruction_id,
        string_key.eqb_iff i.account_id j.account_id,
        string_key.eqb_iff i.option_id j.option_id,
        eqb_ℤ_iff i.received_date j.received_date,
        k.eqb_iff i.origin j.origin,
      ))
  same_submission_eq (cover c) (cover d) h = ap cover (
      ground (
        arith,
        string_key.eqb_iff c.cover_id d.cover_id,
        string_key.eqb_iff c.instruction_id d.instruction_id,
        string_key.eqb_iff c.account_id d.account_id,
        eqb_ℤ_iff c.received_date d.received_date,
        k.eqb_iff c.origin d.origin,
      ))
  same_submission_eq (instruct i) (cover d) h = cc h
  same_submission_eq (cover c) (instruct j) h = cc h

  same_election_eq : (e d : ElectionEntry W) → same_election e d ≡ true → e ≡ d
  unfolding same_election
  same_election_eq e d h =
      let (rest, outcomes) = and_split _ _ h in
      let (ids, submissions) = and_split _ _ rest in
      let (events, sequences) = and_split _ _ ids in
      let same_event : e.event_id ≡ d.event_id = ==-eq events in
      let same_sequence : e.sequence ≡ d.sequence = ==-eq sequences in
      entry_eq e d same_event same_sequence (same_submission_eq _ _ submissions)
        (same_outcome_eq _ _ outcomes)

  replayed :
      (b r : ElectionBook W) (expected : ℕ) (es : List (ElectionEntry W))
      → replay_elections b expected es ≡ ok r
      → (r ≡ submit_all b (map (λ e. e.submission) es)) × (r.journal ≡ b.journal ++ es)
  unfolding replay_elections submit_all submit
  replayed b r expected [] h = (
    sym (ok_injective h),
    ap (λ x. x.journal) (sym (ok_injective h)) ∙ sym (append-nil b.journal),
  )
  replayed b r expected (e ∷ es) h =
      let (one_event, h1) = if_err-ok (not (e.event_id == b.event.event_id)) wrong_event _ r h in
      let (in_sequence, h2) = if_err-ok (not (e.sequence == expected)) wrong_sequence _ r h1 in
      let (recomputed, h3) =
        if_err-ok (not (same_election (submit b e.submission).1 e)) other_outcome _ r h2 in
      let same = same_election_eq (submit b e.submission).1 e (not-false _ recomputed) in
      let (run, grown) = replayed (submit b e.submission).0 r (suc expected) es h3 in
      (
        run,
        grown
            ∙ append_assoc b.journal ((submit b e.submission).1 ∷ []) es
            ∙ ap (λ x. b.journal ++ x ∷ es) same,
      )

  -- Where `rebuild_elections` returns, the book is what the submissions of the given journal produce
  -- from a new book, and its journal is the given one.
  pub rebuild_elections_exact :
      (ev : ElectiveEvent) (lead_days : ℕ) (journal : List (ElectionEntry W)) (b : ElectionBook W)
      → rebuild_elections ev lead_days journal ≡ ok b
      → (b ≡ submit_all (empty_book ev lead_days) (map (λ e. e.submission) journal))
        × (b.journal ≡ journal)
  unfolding rebuild_elections
  rebuild_elections_exact ev lead_days journal b h =
      replayed (empty_book ev lead_days) b 0 journal h
