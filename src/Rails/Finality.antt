-- ===== src/Rails/Finality.antt =====
-- atreides/rails/finality.py: when a cash movement, or the entitlement to it, becomes irrevocable.
use project_atreides.Common.{String, List, [], ◌∷◌, ◌≡◌, ◌↔◌, ℕ, true, arith}
use project_atreides.Common.{nat_eq}
use project_atreides.Common.Key.{Key}

pub data FinalityClass : Type 0 where
  gross_final deferred_net ledger_final correspondent_dependent : FinalityClass
  determination_dependent : FinalityClass

-- The members in declaration order, and their values.
abbrev pub members : List FinalityClass
members =
    gross_final ∷ deferred_net ∷ ledger_final ∷ correspondent_dependent ∷ determination_dependent
    ∷ []

abbrev pub value : FinalityClass → String
value gross_final = "GROSS_FINAL"
value deferred_net = "DEFERRED_NET"
value ledger_final = "LEDGER_FINAL"
value correspondent_dependent = "CORRESPONDENT_DEPENDENT"
value determination_dependent = "DETERMINATION_DEPENDENT"

abbrev pub index : FinalityClass → ℕ
index gross_final = 0
index deferred_net = 1
index ledger_final = 2
index correspondent_dependent = 3
index determination_dependent = 4

pub index-eq_iff : (a b : FinalityClass) → (nat_eq (index a) (index b) ≡ true) ↔ (a ≡ b)
index-eq_iff a b = ground arith

instance abbrev pub finality_key : Key FinalityClass
finality_key = record { eqb = λ a b. nat_eq (index a) (index b); eqb_iff = index-eq_iff }
