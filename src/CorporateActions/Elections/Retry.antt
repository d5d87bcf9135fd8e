-- ===== src/CorporateActions/Elections/Retry.antt =====
-- atreides/corporate_actions/election.py: a submission that is repeated changes nothing.
use mathlib.Core.List.{append-nil, append_assoc}
use project_atreides.Common.{
  refl, sym, inl, inr, true, false, not, Option, none, some, List, [], arith, length, Bool-cases,
  String, ◌≡◌, ◌∙◌, ◌&&◌, ◌∷◌, ◌++◌,
}
use project_atreides.Common.Key.{◌==◌, Key, ==_self, string_key}
use project_atreides.CorporateActions.Elections.Records.{
  first_entry, ElectionRefusal, ElectionEntry, is_duplicate, Submission,
}
use project_atreides.CorporateActions.Elections.{
  instruct, cover, submit_all, submit, submit_outcome, submission_id, outcome_of, same_submission,
  ElectionBook, election_refusal, duplicate, accepted_instructions, accepted_covers,
}
use project_atreides.CorporateActions.Elections.Accepted.{
  accepted_instructions-snoc, accepted_covers-snoc,
}

outcome_of-first : (r : Option ElectionRefusal) → is_duplicate (outcome_of r) ≡ false
outcome_of-first none = refl
outcome_of-first (some reason) = refl

module _ {W : Type 0} where
  first_entry-append :
      (es new : List (ElectionEntry W)) (id : String) (f : ElectionEntry W)
      → first_entry es id ≡ some f
      → first_entry (es ++ new) id ≡ some f
  unfolding first_entry
  first_entry-append [] new id f h = cc h
  first_entry-append (e ∷ es) new id f h =
      elim (Bool-cases (not (is_duplicate e.outcome) && submission_id e.submission == id)) [
        | inl q ↦ let same : some e ≡ some f = rw (first_entry, q) at h in rw q same
        | inr q ↦ rw q (first_entry-append es new id f (rw (first_entry, q) at h))
      ]

  first_entry-snoc_new :
      (es : List (ElectionEntry W)) (e : ElectionEntry W)
      → first_entry es (submission_id e.submission) ≡ none
      → is_duplicate e.outcome ≡ false
      → first_entry (es ++ e ∷ []) (submission_id e.submission) ≡ some e
  unfolding first_entry
  first_entry-snoc_new [] e h q = rw q (rw (==_self (submission_id e.submission)) refl)
  first_entry-snoc_new (d ∷ es) e h q =
      elim (Bool-cases (
        not (is_duplicate d.outcome) && submission_id d.submission == submission_id e.submission)) [
          | inl r ↦ cc (rw (first_entry, r) at h)
          | inr r ↦ rw r (first_entry-snoc_new es e (rw (first_entry, r) at h) q)
        ]

module _ {W : Type 0} ⦃k : Key W⦄ where
  same_submission_self : (s : Submission W) → same_submission s s ≡ true
  same_submission_self (instruct i) =
      ground (
        arith,
        ==_self i.instruction_id,
        ==_self i.account_id,
        ==_self i.option_id,
        ==_self i.origin,
      )
  same_submission_self (cover c) =
      ground (
        arith,
        ==_self c.cover_id,
        ==_self c.instruction_id,
        ==_self c.account_id,
        ==_self c.origin,
      )

  -- The journal of a book only grows at its end.
  submit_all-journal :
      (b : ElectionBook W) (ss : List (Submission W))
      → (new : List (ElectionEntry W)) × ((submit_all b ss).journal ≡ b.journal ++ new)
  unfolding submit_all submit
  submit_all-journal b [] = ([], sym (append-nil b.journal))
  submit_all-journal b (s ∷ ss) =
      let (new, e) = submit_all-journal (submit b s).0 ss in
      ((submit b s).1 ∷ new, e ∙ append_assoc b.journal ((submit b s).1 ∷ []) new)

  submitted_first :
      (b : ElectionBook W) (s : Submission W)
      → first_entry b.journal (submission_id s) ≡ none
      → first_entry (submit b s).0.journal (submission_id s) ≡ some (submit b s).1
  unfolding submit submit_outcome
  submitted_first b s fresh =
      first_entry-snoc_new b.journal (submit b s).1 fresh
        (rw (is_duplicate, submit, submit_outcome, fresh) (outcome_of-first (election_refusal b s)))

  retried :
      (b : ElectionBook W) (s : Submission W) (f : ElectionEntry W)
      → first_entry b.journal (submission_id s) ≡ some f
      → f.submission ≡ s
      → submit_outcome b s ≡ duplicate f.sequence
  unfolding submit_outcome
  retried b s f found same = rw (submit_outcome, found) (rw same (rw (same_submission_self s) refl))

  -- A submission with an identifier that the journal has not seen, submitted again after any other
  -- submissions, is journalled as a duplicate of its first entry, whether that was accepted or
  -- refused, and leaves the accepted instructions and covers as they were.
  pub retry_changes_nothing :
      (b : ElectionBook W) (s : Submission W) (ss : List (Submission W))
      → first_entry b.journal (submission_id s) ≡ none
      → let later = submit_all (submit b s).0 ss in
        let again = submit later s in
        (again.1.outcome ≡ duplicate (length b.journal))
        × (accepted_instructions again.0.journal ≡ accepted_instructions later.journal)
        × (accepted_covers again.0.journal ≡ accepted_covers later.journal)
  unfolding submit
  retry_changes_nothing b s ss fresh =
      let later = submit_all (submit b s).0 ss in
      let (new, grown) = submit_all-journal (submit b s).0 ss in
      let found : first_entry later.journal (submission_id s) ≡ some (submit b s).1 =
        rw grown (first_entry-append (submit b s).0.journal new _ _ (submitted_first b s fresh)) in
      let repeated = retried later s (submit b s).1 found refl in
      (
        repeated,
        rw (accepted_instructions-snoc later.journal (submit later s).1, repeated) (append-nil _),
        rw (accepted_covers-snoc later.journal (submit later s).1, repeated) (append-nil _),
      )
