-- ===== src/CorporateActions/Elections/Defaults/Exact.antt =====
-- atreides/corporate_actions/election.py: the defaults leave no eligible share unaccounted for.
use project_atreides.Common.Distinct.{IsDistinct, distinct-IsDistinct}
use project_atreides.Common.{
  ℕ, refl, sym, ap, subst, inl, inr, false, none, some, List, [], map, arith, Member, Bool-cases,
  String, ◌≡◌, ◌⊎◌, ◌∷◌, Member-map_intro, true, Option, ok, length, nat_eq, Member-append_left,
  ◌∙◌, nat_eq_iff, length-map, err_ok, ok_injective,
}
use project_atreides.Common.Int.{
  ◌+ℤ◌, ◌-ℤ◌, ◌≤ℤ◌, ◌<ℤ◌, ℤ, pos, ltb_ℤ, int_laws, -ℤ_parts, eq_of_parts, +ℤ_parts, leb_ℤ,
}
use project_atreides.Common.Key.{◌==◌, ==_self, ==-eq, string_key, distinct, Member-distinct_intro}
use project_atreides.Common.Dict.{lookup}
use project_atreides.CorporateActions.Elections.Defaults.{
  AccountDefault, balance_default, Holding, over_instructed, account_of, assign_accounts,
  refuse_defaults, assign_defaults, ElectionBook, account_default, DefaultAssignment,
  default_accounts, assign_stated, assign_after, firm_deadline, elected_quantity_of,
  deadline_not_passed, text_le,
}
use project_atreides.Common.Sort.{Member-sorted_intro}

lookup-holding :
    (holdings : List Holding) (account : String) (balance : ℤ)
    → IsDistinct (map account_of holdings)
    → Member (account, balance) holdings
    → lookup account holdings ≡ some balance
unfolding lookup
lookup-holding [] account balance d m = absurd m
lookup-holding ((a, v) ∷ holdings) account balance d (inl e) =
    rw (ap (λ p. p.0) e, ap (λ p. p.1) e) (rw (==_self a) refl)
lookup-holding ((a, v) ∷ holdings) account balance d (inr m) = elim (Bool-cases (a == account)) [
  | inl e ↦ absurd (
      d.0 (
        subst (λ x. Member x (map account_of holdings)) (sym (==-eq e))
          (Member-map_intro account_of (account, balance) holdings m)))
  | inr e ↦ rw e (lookup-holding holdings account balance d.1 m)
]

-- An account's entry: the balance that it holds, all that it elected and, unless it elected more than
-- it holds, a default for exactly the rest.
abbrev pub IsAccounted : ℕ → ℤ → AccountDefault → Type 0
IsAccounted elected balance x =
    (x.eligible_balance ≡ some balance)
    × (x.elected_quantity ≡ elected)
    × (((balance <ℤ pos elected) × (x.default_quantity ≡ none) × (x.refusal ≡ some over_instructed))
        ⊎ ((q : ℤ) × (x.default_quantity ≡ some q)
            × (x.refusal ≡ none)
            × (pos 0 ≤ℤ q)
            × (q +ℤ pos elected ≡ balance)))

rest_of :
    (balance : ℤ) (elected : ℕ)
    → ltb_ℤ balance (pos elected) ≡ false
    → (pos 0 ≤ℤ (balance -ℤ pos elected)) × ((balance -ℤ pos elected) +ℤ pos elected ≡ balance)
rest_of balance elected h = (
  ground (arith, -ℤ_parts balance (pos elected)),
  eq_of_parts _ _ (
      omega (
        int_laws,
        -ℤ_parts balance (pos elected),
        +ℤ_parts (balance -ℤ pos elected) (pos elected),
      )),
)

balance_default-IsAccounted :
    (account : String) (elected : ℕ) (balance : ℤ)
    → IsAccounted elected balance (balance_default account elected balance)
unfolding balance_default
balance_default-IsAccounted account elected balance =
    elim (Bool-cases (ltb_ℤ balance (pos elected))) [
      | inl e ↦ (refl, refl, inl (ground arith, rw e refl, rw e refl))
      | inr e ↦
          let (more, exact) = rest_of balance elected e in
          (refl, refl, inr (balance -ℤ pos elected, rw e refl, rw e refl, more, exact))
    ]

account_id-balance_default :
    (account : String) (elected : ℕ) (balance : ℤ)
    → (balance_default account elected balance).account_id ≡ account
unfolding balance_default
account_id-balance_default account elected balance = refl

distinct_holdings :
    (holdings : List Holding)
    → nat_eq (length (distinct (map account_of holdings))) (length holdings) ≡ true
    → IsDistinct (map account_of holdings)
distinct_holdings holdings h =
    distinct-IsDistinct (map account_of holdings)
      ((nat_eq_iff _ _).0 h ∙ sym (length-map account_of holdings))

module _ {W : Type 0} where
  assigned :
      (b : ElectionBook W) (holdings : List Holding) (as_of : ℤ) (option : String)
      (d : DefaultAssignment)
      → assign_accounts b holdings as_of option ≡ ok d
      → IsDistinct (map account_of holdings)
        × (d.default_option_id ≡ some option)
        × (map (account_default b holdings) (default_accounts b holdings) ≡ d.accounts)
  unfolding assign_accounts
  assigned b holdings as_of option d h =
      elim (Bool-cases (nat_eq (length (distinct (map account_of holdings))) (length holdings))) [
        | inr e ↦ absurd (err_ok (rw (assign_accounts, e) at h))
        | inl e ↦
            let same = ok_injective (rw (assign_accounts, e) at h) in
            (
              distinct_holdings holdings e,
              sym (ap (λ x. x.default_option_id) same),
              ap (λ x. x.accounts) same,
            )
      ]

  assign_stated-IsAssigned :
      (b : ElectionBook W) (holdings : List Holding) (as_of : ℤ) (o : Option String)
      (d : DefaultAssignment)
      → assign_stated b holdings as_of o ≡ ok d
      → d.refusal ≡ none
      → (option : String) × (o ≡ some option) × (assign_accounts b holdings as_of option ≡ ok d)
  unfolding refuse_defaults
  assign_stated-IsAssigned b holdings as_of none d h r =
      absurd (cc (ap (λ x. x.refusal) (ok_injective h), r))
  assign_stated-IsAssigned b holdings as_of (some option) d h r = (option, refl, h)

  assign_after-IsAssigned :
      (b : ElectionBook W) (holdings : List Holding) (as_of : ℤ) (o : Option ℤ)
      (d : DefaultAssignment)
      → assign_after b holdings as_of o ≡ ok d
      → d.refusal ≡ none
      → (deadline : ℤ) × (option : String) × (o ≡ some deadline)
        × (deadline <ℤ as_of)
        × (b.event.default_option_id ≡ some option)
        × (assign_accounts b holdings as_of option ≡ ok d)
  unfolding refuse_defaults
  assign_after-IsAssigned b holdings as_of none d h r =
      absurd (cc (ap (λ x. x.refusal) (ok_injective h), r))
  assign_after-IsAssigned b holdings as_of (some deadline) d h r =
      elim (Bool-cases (leb_ℤ as_of deadline)) [
        | inl e ↦
            let early : refuse_defaults b as_of deadline_not_passed ≡ d =
              ok_injective (rw e at h) in
            absurd (cc (ap (λ x. x.refusal) early, r))
        | inr e ↦
            let (option, stated, done) =
              assign_stated-IsAssigned b holdings as_of b.event.default_option_id d (rw e at h) r in
            (deadline, option, refl, ground arith, stated, done)
      ]

  -- Where `assign_defaults` assigns defaults, the firm's deadline has passed, the option is the one
  -- that the event states, and every holding has an entry with its balance and all that its account
  -- elected: a default of zero or more for exactly the rest or, where more was elected than is held, a
  -- refusal as OVER_INSTRUCTED without a default.
  pub assign_defaults_exact :
      (b : ElectionBook W) (holdings : List Holding) (as_of : ℤ) (d : DefaultAssignment)
      (account : String) (balance : ℤ)
      → assign_defaults b holdings as_of ≡ ok d
      → d.refusal ≡ none
      → Member (account, balance) holdings
      → ((deadline : ℤ) × (firm_deadline b.event b.lead_days ≡ some deadline) × (deadline <ℤ as_of))
        × (d.default_option_id ≡ b.event.default_option_id)
        × ((x : AccountDefault) × Member x d.accounts
            × (x.account_id ≡ account)
            × IsAccounted (elected_quantity_of b account) balance x)
  unfolding assign_defaults account_default default_accounts
  assign_defaults_exact b holdings as_of d account balance h r m =
      let (deadline, option, due, passed, stated, done) =
        assign_after-IsAssigned b holdings as_of (firm_deadline b.event b.lead_days) d h r in
      let (apart, chosen, accounts) = assigned b holdings as_of option d done in
      let found = lookup-holding holdings account balance apart m in
      let entry : account_default b holdings account
          ≡ balance_default account (elected_quantity_of b account) balance =
        rw (account_default, found) refl in
      let listed : Member account (default_accounts b holdings) =
        Member-sorted_intro text_le account _ (
          Member-distinct_intro account _ (
            Member-append_left account _ _
              (Member-map_intro account_of (account, balance) holdings m))) in
      (
        (deadline, due, passed),
        chosen ∙ sym stated,
        (
          balance_default account (elected_quantity_of b account) balance,
          subst (Member (balance_default account (elected_quantity_of b account) balance)) accounts
              (subst
                (λ x. Member x (map (account_default b holdings) (default_accounts b holdings)))
                entry
                (Member-map_intro (account_default b holdings) account (default_accounts b holdings)
                  listed)),
          account_id-balance_default account (elected_quantity_of b account) balance,
          balance_default-IsAccounted account (elected_quantity_of b account) balance,
        ),
      )
