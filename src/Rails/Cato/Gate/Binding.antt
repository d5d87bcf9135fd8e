-- ===== src/Rails/Cato/Gate/Binding.antt =====
-- atreides/rails/cato_cash.py: what makes `evaluate` raise on finite amounts.
use project_atreides.Rails.Funding.{FundingState}
use project_atreides.Common.{
  ℕ, inl, inr, Bool, true, false, Option, none, some, arith, is_ok, Bool-cases, is_some, String,
  ◌≡◌, ◌&&◌,
}
use project_atreides.Common.Int.{ℤ}
use project_atreides.Rails.Cato.Decision.{construct_decision, CatoCashDecision}
use project_atreides.Rails.Cato.Gate.{
  evaluate, held_early, decided, OperationContext, RailStates, Reading, FreshnessPolicy,
  unrecognised_operation,
}
use project_atreides.Rails.Cato.Digest.{is_digest}

module _ (quarter : ℕ) (parse_id : String → Option String) where
  -- An obligation's identifier and digest are both absent, or both there and well formed.
  abbrev pub well_bound : Option String → Option String → Bool
  well_bound none none = true
  well_bound none (some _) = false
  well_bound (some _) none = false
  well_bound (some id) (some digest) = is_some (parse_id id) && is_digest digest

  is_ok-construct :
      (c : CatoCashDecision)
      → is_ok (construct_decision parse_id c) ≡ well_bound c.obligation_id c.obligation_digest
  unfolding construct_decision
  is_ok-construct c = ground arith

  -- On finite amounts, that is for a funding state, a notional and value caps that are integers of
  -- one unit, `evaluate` returns a decision exactly when the identifier and the digest are both absent
  -- or both given, the identifier one that the kernel reads and the digest `sha256:` with 64
  -- lower-case hexadecimal digits and at most a newline after them.
  pub is_ok-evaluate :
      (o : OperationContext) (f : FundingState) (rails : RailStates) (reading : Reading)
      (age : Option ℤ) (policy : Option FreshnessPolicy) (id digest : Option String) (halted : Bool)
      → is_ok (evaluate quarter parse_id o f rails reading age policy id digest halted)
        ≡ well_bound id digest
  unfolding evaluate held_early decided
  is_ok-evaluate o f rails reading age policy id digest true = is_ok-construct _
  is_ok-evaluate o f rails reading age policy id digest false =
      elim (Bool-cases (unrecognised_operation o)) [
        | inl e ↦ rw e (is_ok-construct _)
        | inr e ↦ rw e (is_ok-construct _)
      ]
