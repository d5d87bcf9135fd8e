-- ===== src/Contracts/Quorum/Tests.antt =====
-- A two-of-three ceremony of atreides/contracts/quorum.py, and the theorem at it.
use project_atreides.Common.{refl, none, some, List, [], ok, err, String, ◌≡◌, ◌∷◌}
use project_atreides.Common.Int.{pos}
use project_atreides.Contracts.Quorum.{
  SigningAuthority, Signature, QuorumAuthority, construct_quorum, construct_threshold, identity,
  repeats, n_exceeds_m, system, has_stranger, operation_execution, check_count, completed,
  check_independence, fewer_than_two, double_signing,
}
use project_atreides.Contracts.Quorum.Signers.{AreSigners, construct_quorum-signers}

abbrev as_given : String → String
as_given s = s

abbrev officer : String → String → String → String → String → SigningAuthority
officer id person unit country device = record {
  authority_id = id;
  identity_id = person;
  organizational_unit = unit;
  jurisdiction = country;
  signing_system = device;
}

abbrev signed_by : String → Signature
signed_by id = record { authority_id = id; signed_at = pos 0; commentary = none }

abbrev ceremony : QuorumAuthority
ceremony = record {
  threshold = record { n = pos 2; m = pos 3 };
  independence_requirements = identity ∷ system ∷ [];
  signing_pool =
      officer "a" "Ann" "risk" "US" "hsm-1"
      ∷ officer "b" "Bob" "audit" "US" "hsm-2"
      ∷ officer "c" "Cyd" "risk" "GB" "hsm-3"
      ∷ [];
  collected_signatures = signed_by "c" ∷ signed_by "a" ∷ [];
  ceremony_step = operation_execution;
  ceremony_state = completed;
  session_id = some "S-1";
}

ceremony_accepted : construct_quorum as_given ceremony ≡ ok ceremony
unfolding construct_quorum repeats has_stranger check_count check_independence fewer_than_two
ceremony_accepted = refl

-- The same signer twice
double_signature :
    construct_quorum as_given
      (record ceremony { collected_signatures = signed_by "c" ∷ signed_by "c" ∷ [] })
    ≡ err double_signing
unfolding construct_quorum repeats has_stranger check_count check_independence fewer_than_two
double_signature = refl

-- A threshold above the pool
six_of_five : construct_threshold (record { n = pos 6; m = pos 5 }) ≡ err n_exceeds_m
unfolding construct_threshold
six_of_five = refl

construct_quorum-signers_example : (signers : List SigningAuthority) × AreSigners ceremony signers
construct_quorum-signers_example =
    construct_quorum-signers as_given ceremony ceremony ceremony_accepted
