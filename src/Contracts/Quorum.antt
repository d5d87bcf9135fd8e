-- ===== src/Contracts/Quorum.antt =====
-- atreides/contracts/quorum.py: thresholds, signing authorities, signatures and the record of a
-- ceremony, each with its validators in their order. `strip` is Python's `str.strip`, which the
-- models apply to every text; an instant is an integer.
pub mod Signers
mod Tests
use project_atreides.Common.Key.{string_key, distinct, ◌==◌, contains}
use project_atreides.Common.{
  ℕ, Bool, true, false, not, Option, List, map, Result, ok, raise_if, length, any, nat_eq, ltb,
  String, ◌&&◌, ◌||◌, ◌>>=◌, ◌>>◌, none, some,
}
use project_atreides.Common.Int.{ℤ, pos, ltb_ℤ, eqb_ℤ}

pub data IndependenceRequirement : Type 0 where
  identity organizational geographic system temporal : IndependenceRequirement

pub data CeremonyStep : Type 0 where
  package_assembly ceremony_initiation signature_collection : CeremonyStep
  quorum_verification operation_execution post_operation_reconciliation : CeremonyStep

pub data CeremonyState : Type 0 where
  pending in_progress completed failed escalated : CeremonyState

-- The `ValidationError`s, by the check that raises
pub data QuorumError : Type 0 where
  below_one n_exceeds_m empty_text pool_size duplicate_authority : QuorumError
  signer_not_in_pool double_signing too_many_signatures incomplete : QuorumError
  shared_identity one_unit one_jurisdiction shared_system : QuorumError

pub record QuorumThreshold : Type 0 where
  pub n : ℤ
  pub m : ℤ

-- `QuorumThreshold`, with its field bounds and `_enforce_n_le_m`
unfoldable pub construct_threshold : QuorumThreshold → Result QuorumError QuorumThreshold
construct_threshold t = do
  raise_if (ltb_ℤ t.n (pos 1) || ltb_ℤ t.m (pos 1)) below_one
  raise_if (ltb_ℤ t.m t.n) n_exceeds_m
  ok t

pub record SigningAuthority : Type 0 where
  pub authority_id : String
  pub identity_id : String
  pub organizational_unit : String
  pub jurisdiction : String
  pub signing_system : String

pub record Signature : Type 0 where
  pub authority_id : String
  pub signed_at : ℤ
  pub commentary : Option String

abbrev pub strip_option : (String → String) → Option String → Option String
strip_option strip none = none
strip_option strip (some s) = some (strip s)

module _ (strip : String → String) where
  unfoldable pub construct_authority : SigningAuthority → Result QuorumError SigningAuthority
  construct_authority a = do
    raise_if
        (strip a.authority_id == ""
          || strip a.identity_id == ""
          || strip a.organizational_unit == ""
          || strip a.jurisdiction == ""
          || strip a.signing_system == "")
        empty_text
    ok (record {
      authority_id = strip a.authority_id;
      identity_id = strip a.identity_id;
      organizational_unit = strip a.organizational_unit;
      jurisdiction = strip a.jurisdiction;
      signing_system = strip a.signing_system;
    })

  unfoldable pub construct_signature : Signature → Result QuorumError Signature
  construct_signature s = do
    raise_if (strip s.authority_id == "") empty_text
    ok (record s {
      authority_id = strip s.authority_id;
      commentary = strip_option strip s.commentary;
    })

pub record QuorumAuthority : Type 0 where
  pub threshold : QuorumThreshold
  pub independence_requirements : List IndependenceRequirement
  pub signing_pool : List SigningAuthority
  pub collected_signatures : List Signature
  pub ceremony_step : CeremonyStep
  pub ceremony_state : CeremonyState
  pub session_id : Option String

abbrev pub pool_ids : QuorumAuthority → List String
pool_ids q = map (λ a. a.authority_id) q.signing_pool

abbrev pub signer_ids : QuorumAuthority → List String
signer_ids q = map (λ s. s.authority_id) q.collected_signatures

-- `len(set(xs)) != len(xs)`
unfoldable pub repeats : List String → Bool
repeats xs = not (nat_eq (length (distinct xs)) (length xs))

-- `len(set(xs)) < 2`
unfoldable pub fewer_than_two : List String → Bool
fewer_than_two xs = ltb (length (distinct xs)) 2

abbrev pub requirement_index : IndependenceRequirement → ℕ
requirement_index identity = 0
requirement_index organizational = 1
requirement_index geographic = 2
requirement_index system = 3
requirement_index temporal = 4

abbrev pub is_requirement : IndependenceRequirement → IndependenceRequirement → Bool
is_requirement a b = nat_eq (requirement_index a) (requirement_index b)

abbrev pub requires : QuorumAuthority → IndependenceRequirement → Bool
requires q a = any (is_requirement a) q.independence_requirements

abbrev pub is_completed : CeremonyState → Bool
is_completed completed = true
is_completed _ = false

-- `_enforce_signature_pool_membership`
unfoldable pub has_stranger : QuorumAuthority → Bool
has_stranger q = any (λ s. not (contains (pool_ids q) s.authority_id)) q.collected_signatures

-- `_enforce_signature_count_bounded_by_threshold`
unfoldable pub check_count : QuorumAuthority → Result QuorumError (Unit {0})
check_count q = do
  raise_if (ltb_ℤ q.threshold.n (pos (length q.collected_signatures))) too_many_signatures
  raise_if
      (is_completed q.ceremony_state
        && not (eqb_ℤ (pos (length q.collected_signatures)) q.threshold.n))
      incomplete
  ok tt

-- `_enforce_pool_independence`
unfoldable pub check_independence : QuorumAuthority → Result QuorumError (Unit {0})
check_independence q = do
  raise_if (requires q identity && repeats (map (λ a. a.identity_id) q.signing_pool))
      shared_identity
  raise_if
      (requires q organizational
        && fewer_than_two (map (λ a. a.organizational_unit) q.signing_pool))
      one_unit
  raise_if (requires q geographic && fewer_than_two (map (λ a. a.jurisdiction) q.signing_pool))
      one_jurisdiction
  raise_if (requires q system && repeats (map (λ a. a.signing_system) q.signing_pool)) shared_system
  ok tt

-- The validators of `QuorumAuthority` in their order, on parts that are constructed
unfoldable pub construct_quorum :
    (String → String) → QuorumAuthority → Result QuorumError QuorumAuthority
construct_quorum strip q = do
  raise_if (not (eqb_ℤ (pos (length q.signing_pool)) q.threshold.m)) pool_size
  raise_if (repeats (pool_ids q)) duplicate_authority
  raise_if (has_stranger q) signer_not_in_pool
  raise_if (repeats (signer_ids q)) double_signing
  check_count q
  check_independence q
  ok (record q { session_id = strip_option strip q.session_id })
