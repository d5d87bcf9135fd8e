-- ===== src/CorporateActions/Elections/Accepted.antt =====
-- atreides/corporate_actions/election.py: what an entry at the end of the journal adds to the accepted
-- instructions and covers.
use project_atreides.Common.{
  refl, sym, ap, inl, inr, none, some, List, [], map, arith, Member, Bool-cases, String, ◌+◌, ◌≡◌,
  ◌∙◌, ◌≢◌, ◌&&◌, ◌∷◌, ◌++◌, if◌then◌else◌, true,
}
use project_atreides.Common.Key.{◌==◌, ==-eq, string_key}
use project_atreides.CorporateActions.Elections.Records.{
  ElectionOutcome, accepted_instructions, accepted_covers, covered_of, ElectionInstruction,
  first_entry,
}
use project_atreides.CorporateActions.Elections.{
  accepted, cover, instruct, refused, duplicate, find_protect, Submission, ElectionEntry,
  ProtectCover, as_instruction, as_cover, submission_id,
}

module _ {W : Type 0} where
  pub as_instruction-append :
      (o : ElectionOutcome) (s : Submission W) (rest new : List (ElectionInstruction W))
      → as_instruction o s rest ++ new ≡ as_instruction o s (rest ++ new)
  as_instruction-append accepted (instruct i) rest new = refl
  as_instruction-append accepted (cover c) rest new = refl
  as_instruction-append (refused _) s rest new = refl
  as_instruction-append (duplicate _) s rest new = refl

  pub as_cover-append :
      (o : ElectionOutcome) (s : Submission W) (rest new : List (ProtectCover W))
      → as_cover o s rest ++ new ≡ as_cover o s (rest ++ new)
  as_cover-append accepted (instruct i) rest new = refl
  as_cover-append accepted (cover c) rest new = refl
  as_cover-append (refused _) s rest new = refl
  as_cover-append (duplicate _) s rest new = refl

  pub accepted_instructions-snoc :
      (es : List (ElectionEntry W)) (e : ElectionEntry W)
      → accepted_instructions (es ++ e ∷ [])
        ≡ accepted_instructions es ++ as_instruction e.outcome e.submission []
  unfolding accepted_instructions
  accepted_instructions-snoc [] e = refl
  accepted_instructions-snoc (d ∷ es) e =
      rw (accepted_instructions-snoc es e) (sym (as_instruction-append d.outcome d.submission _ _))

  pub accepted_covers-snoc :
      (es : List (ElectionEntry W)) (e : ElectionEntry W)
      → accepted_covers (es ++ e ∷ []) ≡ accepted_covers es ++ as_cover e.outcome e.submission []
  unfolding accepted_covers
  accepted_covers-snoc [] e = refl
  accepted_covers-snoc (d ∷ es) e =
      rw (accepted_covers-snoc es e) (sym (as_cover-append d.outcome d.submission _ _))

  pub covered_of-snoc :
      (id : String) (cs : List (ProtectCover W)) (c : ProtectCover W)
      → covered_of id (cs ++ c ∷ [])
        ≡ (if c.instruction_id == id then covered_of id cs + c.quantity else covered_of id cs)
  unfolding covered_of
  covered_of-snoc id [] c = ground arith
  covered_of-snoc id (d ∷ cs) c = ground (arith, covered_of-snoc id cs c)

  abbrev pub instruction_ids : List (ElectionInstruction W) → List String
  instruction_ids is = map (λ i. i.instruction_id) is

  fresh_step :
      (e : ElectionEntry W) (es : List (ElectionEntry W)) (id : String)
      → first_entry (e ∷ es) id ≡ none
      → (first_entry es id ≡ none → ¬ (Member id (instruction_ids (accepted_instructions es))))
      → ¬ (
          Member id
            (instruction_ids (as_instruction e.outcome e.submission (accepted_instructions es))))
  unfolding first_entry
  fresh_step e es id h ih m = ground (arith, string_key.eqb_iff (submission_id e.submission) id)

  -- An identifier with no entry but duplicates is no accepted instruction's.
  pub first_entry-fresh :
      (es : List (ElectionEntry W)) (id : String)
      → first_entry es id ≡ none
      → ¬ (Member id (instruction_ids (accepted_instructions es)))
  unfolding first_entry accepted_instructions
  first_entry-fresh [] id h m = m
  first_entry-fresh (e ∷ es) id h m = fresh_step e es id h (first_entry-fresh es id) m

  -- A sum over covers of other instructions is zero.
  pub covered_of-none :
      (id : String) (cs : List (ProtectCover W))
      → ((c : ProtectCover W) → Member c cs → c.instruction_id ≢ id)
      → covered_of id cs ≡ 0
  unfolding covered_of
  covered_of-none id [] h = refl
  covered_of-none id (c ∷ cs) h = elim (Bool-cases (c.instruction_id == id)) [
    | inl e ↦ absurd (h c (inl refl) (==-eq e))
    | inr e ↦ rw e (covered_of-none id cs (λ d m. h d (inr m)))
  ]

  pub find_protect-some :
      (c : ProtectCover W) (is : List (ElectionInstruction W)) (i : ElectionInstruction W)
      → find_protect c is ≡ some i
      → Member i is × (i.instruction_id ≡ c.instruction_id)
  unfolding find_protect
  find_protect-some c [] i h = cc h
  find_protect-some c (j ∷ is) i h =
      elim (Bool-cases
        (j.instruction_id == c.instruction_id && j.protect && j.account_id == c.account_id)) [
          | inl e ↦
              let same : some j ≡ some i = rw (find_protect, e) at h in
              let same' : j ≡ i = cc same in
              let first : (j.instruction_id == c.instruction_id) ≡ true = ground (arith, e) in
              (inl (sym same'), ap (λ x. x.instruction_id) (sym same') ∙ ==-eq first)
          | inr e ↦
              let (m, named) = find_protect-some c is i (rw (find_protect, e) at h) in
              (inr m, named)
        ]
