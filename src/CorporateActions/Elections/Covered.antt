-- ===== src/CorporateActions/Elections/Covered.antt =====
-- atreides/corporate_actions/election.py: no sequence of submissions covers a protect instruction
-- beyond its quantity.
use mathlib.Core.List.{map-append, append-nil}
use project_atreides.Common.Distinct.{IsDistinct, IsDistinct-snoc, injective_on}
use project_atreides.Common.{
  sym, ap, subst, inl, inr, List, [], arith, Member, Bool-cases, Member-append_left, ◌+◌, ◌≤◌, ◌≡◌,
  ◌∙◌, ◌∷◌, ◌++◌, Member-append_cases, Member-map_intro, ℕ, refl, none, some, Option-cases,
  if◌then◌else◌,
}
use project_atreides.Common.Key.{◌==◌, ==-eq, string_key, Key}
use project_atreides.CorporateActions.Elections.Records.{
  ElectionInstruction, ProtectCover, covered_of, Submission, ElectionOutcome, accepted,
  ElectionBook, accepted_instructions,
}
use project_atreides.CorporateActions.Elections.Accepted.{
  instruction_ids, covered_of-snoc, covered_of-none, accepted_instructions-snoc,
  accepted_covers-snoc, first_entry-fresh, find_protect-some,
}
use project_atreides.Common.Int.{◌-ℤ◌, ◌≤ℤ◌, pos, ltb_ℤ, -ℤ_parts}
use project_atreides.CorporateActions.Elections.{
  instruct, cover, refused, duplicate, submit_outcome, election_refusal, cover_refusal, uncovered,
  submit, submit_all, as_instruction, first_entry, kind_refusal, is_after, find_protect,
  accepted_covers, ElectiveEvent, as_cover, submission_id, late_cover, empty_book, over_cover,
}

room : (q done more : ℕ) → pos more ≤ℤ (pos q -ℤ pos done) → done + more ≤ q
room q done more h = ground (arith, -ℤ_parts (pos q) (pos done))

not_negative : (q done : ℕ) → done ≤ q → pos 0 ≤ℤ (pos q -ℤ pos done)
not_negative q done h = ground (arith, -ℤ_parts (pos q) (pos done))

module _ {W : Type 0} where
  -- The accepted instructions have each its own identifier, each accepted cover delivers against one
  -- of them, and what was delivered against one is at most its quantity.
  abbrev pub AreCovered : List (ElectionInstruction W) → List (ProtectCover W) → Type 0
  AreCovered is cs =
      IsDistinct (instruction_ids is)
      × ((c : ProtectCover W) → Member c cs → Member c.instruction_id (instruction_ids is))
      × ((i : ElectionInstruction W) → Member i is → covered_of i.instruction_id cs ≤ i.quantity)

  add_instruction :
      (is : List (ElectionInstruction W)) (cs : List (ProtectCover W)) (i : ElectionInstruction W)
      → ¬ (Member i.instruction_id (instruction_ids is))
      → AreCovered is cs
      → AreCovered (is ++ i ∷ []) cs
  add_instruction is cs i fresh (apart, known, bounded) = (
    subst IsDistinct (sym (map-append (λ j. j.instruction_id) is (i ∷ [])))
        (IsDistinct-snoc (instruction_ids is) i.instruction_id apart fresh),
    λ c m.
        subst (Member c.instruction_id) (sym (map-append (λ j. j.instruction_id) is (i ∷ [])))
          (Member-append_left _ _ _ (known c m)),
    λ j m. elim (Member-append_cases j is (i ∷ []) m) [
      | inl before ↦ bounded j before
      | inr (inl e) ↦
          let none_yet : covered_of i.instruction_id cs ≡ 0 =
            covered_of-none i.instruction_id cs
              (λ c at same. fresh (subst (λ x. Member x (instruction_ids is)) same (known c at))) in
          subst (λ x. covered_of x.instruction_id cs ≤ x.quantity) (sym e) (omega (arith, none_yet))
      | inr (inr none_left) ↦ absurd none_left
    ],
  )

  add_cover :
      (is : List (ElectionInstruction W)) (cs : List (ProtectCover W)) (c : ProtectCover W)
      (p : ElectionInstruction W)
      → Member p is
      → p.instruction_id ≡ c.instruction_id
      → covered_of p.instruction_id cs + c.quantity ≤ p.quantity
      → AreCovered is cs
      → AreCovered is (cs ++ c ∷ [])
  add_cover is cs c p there named fits (apart, known, bounded) = (
    apart,
    λ d m. elim (Member-append_cases d cs (c ∷ []) m) [
      | inl before ↦ known d before
      | inr (inl e) ↦
          subst (λ x. Member x (instruction_ids is)) (named ∙ ap (λ x. x.instruction_id) (sym e))
            (Member-map_intro (λ i. i.instruction_id) p is there)
      | inr (inr none_left) ↦ absurd none_left
    ],
    λ i m.
        rw (covered_of-snoc i.instruction_id cs c)
          (elim (Bool-cases (c.instruction_id == i.instruction_id)) [
            | inl e ↦
                let same : p ≡ i =
                  injective_on (λ j. j.instruction_id) is p i apart there m (named ∙ ==-eq e) in
                rw e
                  (subst (λ x. covered_of x.instruction_id cs + c.quantity ≤ x.quantity) same fits)
            | inr e ↦ rw e (bounded i m)
          ]),
  )

  -- What a submission must bring to be accepted, for the books to stay covered.
  abbrev Admits : List (ElectionInstruction W) → List (ProtectCover W) → Submission W → Type 0
  Admits is cs (instruct i) = ¬ (Member i.instruction_id (instruction_ids is))
  Admits is cs (cover c) =
      (p : ElectionInstruction W) × Member p is
      × (p.instruction_id ≡ c.instruction_id)
      × (covered_of p.instruction_id cs + c.quantity ≤ p.quantity)

  grow :
      (o : ElectionOutcome) (s : Submission W) (is : List (ElectionInstruction W))
      (cs : List (ProtectCover W))
      → (o ≡ accepted → Admits is cs s)
      → AreCovered is cs
      → AreCovered (is ++ as_instruction o s []) (cs ++ as_cover o s [])
  grow accepted (instruct i) is cs admits h =
      subst (λ x. AreCovered (is ++ i ∷ []) x) (sym (append-nil cs))
        (add_instruction is cs i (admits refl) h)
  grow accepted (cover c) is cs admits h =
      let (p, there, named, fits) = admits refl in
      subst (λ x. AreCovered x (cs ++ c ∷ [])) (sym (append-nil is))
        (add_cover is cs c p there named fits h)
  grow (refused _) s is cs admits h = rw (append-nil is, append-nil cs) h
  grow (duplicate _) s is cs admits h = rw (append-nil is, append-nil cs) h

module _ {W : Type 0} ⦃k : Key W⦄ where
  outcome-accepted :
      (b : ElectionBook W) (s : Submission W)
      → submit_outcome b s ≡ accepted
      → (first_entry b.journal (submission_id s) ≡ none) × (election_refusal b s ≡ none)
  unfolding submit_outcome
  outcome-accepted b s h = ground arith

  kind_accepted :
      (b : ElectionBook W) (s : Submission W)
      → election_refusal b s ≡ none
      → kind_refusal b s ≡ none
  unfolding election_refusal
  kind_accepted b s h = ground arith

  not_over :
      (b : ElectionBook W) (c : ProtectCover W) (p : ElectionInstruction W)
      → (if is_after c.received_date b.event.protect_deadline
          then some late_cover
          else if ltb_ℤ (uncovered b.journal p) (pos c.quantity)
          then some over_cover
          else none)
        ≡ none
      → pos c.quantity ≤ℤ uncovered b.journal p
  not_over b c p h = ground arith

  cover-accepted :
      (b : ElectionBook W) (c : ProtectCover W)
      → cover_refusal b c ≡ none
      → (p : ElectionInstruction W) × (find_protect c (accepted_instructions b.journal) ≡ some p)
        × (pos c.quantity ≤ℤ uncovered b.journal p)
  unfolding cover_refusal
  cover-accepted b c h = elim (Option-cases (find_protect c (accepted_instructions b.journal))) [
    | inl e ↦ cc (rw (cover_refusal, e) at h)
    | inr (p, e) ↦ (p, e, not_over b c p (rw (cover_refusal, e) at h))
  ]

  admitted :
      (b : ElectionBook W) (s : Submission W)
      → submit_outcome b s ≡ accepted
      → Admits (accepted_instructions b.journal) (accepted_covers b.journal) s
  unfolding uncovered
  admitted b (instruct i) h =
      first_entry-fresh b.journal i.instruction_id (outcome-accepted b (instruct i) h).0
  admitted b (cover c) h =
      let (p, found, fits) =
        cover-accepted b c (kind_accepted b (cover c) (outcome-accepted b (cover c) h).1) in
      let (there, named) = find_protect-some c _ p found in
      (
        p,
        there,
        named,
        room p.quantity (covered_of p.instruction_id (accepted_covers b.journal)) c.quantity fits,
      )

  submit-AreCovered :
      (b : ElectionBook W) (s : Submission W)
      → AreCovered (accepted_instructions b.journal) (accepted_covers b.journal)
      → AreCovered
          (accepted_instructions (submit b s).0.journal)
          (accepted_covers (submit b s).0.journal)
  unfolding submit
  submit-AreCovered b s h =
      rw
        (
          accepted_instructions-snoc b.journal (submit b s).1,
          accepted_covers-snoc b.journal (submit b s).1,
        )
        (grow (submit_outcome b s) s _ _ (admitted b s) h)

  submit_all-AreCovered :
      (b : ElectionBook W) (ss : List (Submission W))
      → AreCovered (accepted_instructions b.journal) (accepted_covers b.journal)
      → AreCovered
          (accepted_instructions (submit_all b ss).journal)
          (accepted_covers (submit_all b ss).journal)
  unfolding submit_all
  submit_all-AreCovered b [] h = h
  submit_all-AreCovered b (s ∷ ss) h =
      submit_all-AreCovered (submit b s).0 ss (submit-AreCovered b s h)

  nothing_yet : AreCovered {W = W} (accepted_instructions []) (accepted_covers [])
  unfolding accepted_instructions accepted_covers
  nothing_yet = (tt, λ c m. m, λ i m. absurd m)

  -- After any submissions to a new book, whatever their order, repetitions and refusals, no accepted
  -- instruction shares its identifier with another, every accepted cover delivers against an accepted
  -- instruction, and no instruction's uncovered quantity is negative.
  pub submit_all-never_over :
      (ev : ElectiveEvent) (lead_days : ℕ) (ss : List (Submission W))
      → let journal = (submit_all (empty_book ev lead_days) ss).journal in
        IsDistinct (instruction_ids (accepted_instructions journal))
        × ((c : ProtectCover W)
            → Member c (accepted_covers journal)
            → Member c.instruction_id (instruction_ids (accepted_instructions journal)))
        × ((i : ElectionInstruction W)
            → Member i (accepted_instructions journal)
            → pos 0 ≤ℤ uncovered journal i)
  unfolding uncovered
  submit_all-never_over ev lead_days ss =
      let (apart, known, bounded) =
        submit_all-AreCovered (empty_book ev lead_days) ss nothing_yet in
      (apart, known, λ i m. not_negative i.quantity _ (bounded i m))
