-- ===== src/Contracts/Quorum/Signers.antt =====
-- atreides/contracts/quorum.py: who stands behind the signatures of a completed ceremony.
use project_atreides.Common.{
  sym, ap, subst, List, [], map, arith, length, Member, All, ◌≡◌, ◌∙◌, ◌∷◌, Member-map, refl, true,
  false, not, ok, any, String, nat_eq_iff, raise_if-ok, check-ok, ok_injective, length-map,
}
use project_atreides.Common.Key.{distinct, contains, contains-Member, string_key}
use project_atreides.Contracts.Quorum.{
  SigningAuthority, repeats, construct_quorum, Signature, has_stranger, check_count,
  check_independence, QuorumAuthority, pool_ids, signer_ids, strip_option, completed, requires,
  identity, pool_size, system, duplicate_authority, signer_not_in_pool, double_signing,
}
use project_atreides.Common.Int.{◌≤ℤ◌, pos, eqb_ℤ_iff}
use project_atreides.Common.Distinct.{IsDistinct, distinct-IsDistinct, IsDistinct-carries}

found_parts :
    (pool : List SigningAuthority) (s : Signature) (signatures : List Signature)
    → any (λ s. not (contains (map (λ a. a.authority_id) pool) s.authority_id)) (s ∷ signatures)
      ≡ false
    → (contains (map (λ a. a.authority_id) pool) s.authority_id ≡ true)
      × (any (λ s. not (contains (map (λ a. a.authority_id) pool) s.authority_id)) signatures
          ≡ false)
found_parts pool s signatures h = ground arith

-- Each signature refers to a member of the pool.
signers_found :
    (pool : List SigningAuthority) (signatures : List Signature)
    → any (λ s. not (contains (map (λ a. a.authority_id) pool) s.authority_id)) signatures ≡ false
    → (signers : List SigningAuthority) × All (λ a. Member a pool) signers
      × (map (λ a. a.authority_id) signers ≡ map (λ s. s.authority_id) signatures)
signers_found pool [] h = ([], tt, refl)
signers_found pool (s ∷ signatures) h =
    let (known, rest) = found_parts pool s signatures h in
    let (a, there, e) =
      Member-map (λ a. a.authority_id) s.authority_id pool (contains-Member _ _ known) in
    let (signers, inside, same) = signers_found pool signatures rest in
    (a ∷ signers, (there, inside), cc (e, same))

repeats-IsDistinct : (xs : List String) → repeats xs ≡ false → IsDistinct xs
unfolding repeats
repeats-IsDistinct xs h =
    distinct-IsDistinct xs (ground (arith, nat_eq_iff (length (distinct xs)) (length xs)))

-- What the validators leave of a record that they accept: the record, but for the session.
accepted :
    (strip : String → String) (q r : QuorumAuthority)
    → construct_quorum strip q ≡ ok r
    → (repeats (pool_ids q) ≡ false)
      × (has_stranger q ≡ false)
      × (repeats (signer_ids q) ≡ false)
      × (check_count q ≡ ok tt)
      × (check_independence q ≡ ok tt)
      × (record q { session_id = strip_option strip q.session_id } ≡ r)
unfolding construct_quorum
accepted strip q r h =
    let (sized, h1) = raise_if-ok _ pool_size _ r h in
    let (unique, h2) = raise_if-ok (repeats (pool_ids q)) duplicate_authority _ r h1 in
    let (known, h3) = raise_if-ok (has_stranger q) signer_not_in_pool _ r h2 in
    let (once, h4) = raise_if-ok (repeats (signer_ids q)) double_signing _ r h3 in
    let (counted, h5) = check-ok (check_count q) _ r h4 in
    let (independent, h6) = check-ok (check_independence q) _ r h5 in
    (unique, known, once, counted, independent, ok_injective h6)

counted_exactly :
    (q : QuorumAuthority)
    → check_count q ≡ ok tt
    → (pos (length q.collected_signatures) ≤ℤ q.threshold.n)
      × (q.ceremony_state ≡ completed → pos (length q.collected_signatures) ≡ q.threshold.n)
unfolding check_count
counted_exactly q h = ground (arith, eqb_ℤ_iff (pos (length q.collected_signatures)) q.threshold.n)

independent_fields :
    (q : QuorumAuthority)
    → check_independence q ≡ ok tt
    → (requires q identity ≡ true → repeats (map (λ a. a.identity_id) q.signing_pool) ≡ false)
      × (requires q system ≡ true → repeats (map (λ a. a.signing_system) q.signing_pool) ≡ false)
unfolding check_independence
independent_fields q h = ground arith

-- Members of the signing pool that gave the collected signatures, in their order: pairwise
-- different, with different persons and systems where those requirements are active, and as many as
-- the threshold asks for once the ceremony is completed.
abbrev pub AreSigners : QuorumAuthority → List SigningAuthority → Type 0
AreSigners q signers =
    All (λ a. Member a q.signing_pool) signers
    × (map (λ a. a.authority_id) signers ≡ signer_ids q)
    × IsDistinct (map (λ a. a.authority_id) signers)
    × (requires q identity ≡ true → IsDistinct (map (λ a. a.identity_id) signers))
    × (requires q system ≡ true → IsDistinct (map (λ a. a.signing_system) signers))
    × (pos (length signers) ≤ℤ q.threshold.n)
    × (q.ceremony_state ≡ completed → pos (length signers) ≡ q.threshold.n)

length-signers :
    (signers : List SigningAuthority) (signatures : List Signature)
    → map (λ a. a.authority_id) signers ≡ map (λ s. s.authority_id) signatures
    → length signers ≡ length signatures
length-signers signers signatures e =
    sym (length-map (λ a. a.authority_id) signers)
    ∙ ap length e
    ∙ length-map (λ s. s.authority_id) signatures

found_signers :
    (q : QuorumAuthority)
    → has_stranger q ≡ false
    → repeats (signer_ids q) ≡ false
    → check_count q ≡ ok tt
    → check_independence q ≡ ok tt
    → (signers : List SigningAuthority) × AreSigners q signers
unfolding has_stranger
found_signers q known once counted independent =
    let (signers, inside, same) = signers_found q.signing_pool q.collected_signatures known in
    let apart : IsDistinct (map (λ a. a.authority_id) signers) =
      subst IsDistinct (sym same) (repeats-IsDistinct (signer_ids q) once) in
    let (bounded, exact) = counted_exactly q counted in
    let (persons, systems) = independent_fields q independent in
    let many = length-signers signers q.collected_signatures same in
    (
      signers,
      (
        inside,
        same,
        apart,
        λ active.
            IsDistinct-carries (λ a. a.identity_id) (λ a. a.authority_id) q.signing_pool signers
              (repeats-IsDistinct _ (persons active)) inside apart,
        λ active.
            IsDistinct-carries (λ a. a.signing_system) (λ a. a.authority_id) q.signing_pool signers
              (repeats-IsDistinct _ (systems active)) inside apart,
        rw many bounded,
        λ done. rw many (exact done),
      ),
    )

-- Behind the signatures of every record that `QuorumAuthority` accepts stand members of its signing
-- pool, one for each signature and no two the same; where identity independence is required they are
-- different persons, where system independence is required they use different signing systems. They
-- are never more than the threshold asks for, and exactly as many when the ceremony is completed.
pub construct_quorum-signers :
    (strip : String → String) (q r : QuorumAuthority)
    → construct_quorum strip q ≡ ok r
    → (signers : List SigningAuthority) × AreSigners r signers
construct_quorum-signers strip q r h =
    let (unique, known, once, counted, independent, same) = accepted strip q r h in
    subst (λ x. (signers : List SigningAuthority) × AreSigners x signers) same
      (found_signers q known once counted independent)
