-- ===== src/Rails/Funding/Queue.antt =====
-- atreides/rails/funding_state.py: the search of `_first_funded_offset` looks only at the offsets of
-- committed flows, and misses no instant of the window.
use project_atreides.Common.{
  List, [], ◌∷◌, ◌++◌, ◌≡◌, refl, true, if◌then◌else◌, ◌&&◌, Member, inl, inr, arith, Bool-cases,
  false, All, some, none, all,
}
use project_atreides.Common.Int.{ℤ, leb_ℤ, max_ℤ, ◌≤ℤ◌, ◌<ℤ◌}
use project_atreides.Common.Key.{int_key, Member-distinct_intro}
use project_atreides.Rails.Finality.{finality_key}
use project_atreides.Rails.Funding.{
  FundingInputs, CashFlow, position_at, committed_offsets, candidates, first_funded, past,
  first_funded_offset,
}
use project_atreides.Common.Sort.{Member-sorted_intro, IsSorted, sorted-IsSorted}

-- The committed position at an offset.
abbrev pub committed_at : FundingInputs → ℤ → ℤ
committed_at i o = position_at i.opening_position i.flows o true

-- Two offsets with the same committed flows behind them have the same position.
position_at_congr :
    (flows : List CashFlow) (total a b : ℤ)
    → ((f : CashFlow) → Member f flows → f.committed ≡ true → leb_ℤ f.offset a ≡ leb_ℤ f.offset b)
    → position_at total flows a true ≡ position_at total flows b true
unfolding position_at
position_at_congr [] total a b same = refl
position_at_congr (f ∷ fs) total a b same = elim (Bool-cases f.committed) [
  | inl e ↦ rw (e, same f (inl refl) e) (position_at_congr fs _ a b (λ g m. same g (inr m)))
  | inr e ↦ ground (arith, position_at_congr fs total a b (λ g m. same g (inr m)))
]

-- The last offset, from `s` on, at which a committed flow lands by `t`.
latest : ℤ → List CashFlow → ℤ → ℤ
latest s [] t = s
latest s (f ∷ fs) t =
    let m = latest s fs t in if f.committed && leb_ℤ f.offset t then max_ℤ m f.offset else m

latest_bounds :
    (s t : ℤ) (flows : List CashFlow) → s ≤ℤ t → (s ≤ℤ latest s flows t) × (latest s flows t ≤ℤ t)
unfolding latest
latest_bounds s t [] h = (omega arith, h)
latest_bounds s t (f ∷ fs) h = ground (arith, latest_bounds s t fs h)

latest_covers :
    (s t : ℤ) (flows : List CashFlow) (f : CashFlow)
    → Member f flows
    → f.committed ≡ true
    → leb_ℤ f.offset t ≡ true
    → f.offset ≤ℤ latest s flows t
unfolding latest
latest_covers s t [] f m c h = absurd m
latest_covers s t (g ∷ fs) f (inl e) c h = ground (arith, e)
latest_covers s t (g ∷ fs) f (inr m) c h = ground (arith, latest_covers s t fs f m c h)

Member-latest :
    (s t : ℤ) (flows : List CashFlow)
    → Member (latest s flows t) (committed_offsets flows ++ s ∷ [])
unfolding latest committed_offsets
Member-latest s t [] = inl refl
Member-latest s t (f ∷ fs) = ground (arith, Member-latest s t fs)

leb_ℤ_total : (a b : ℤ) → leb_ℤ a b ≡ false → leb_ℤ b a ≡ true
leb_ℤ_total a b h = ground arith

leb_ℤ_trans : (a b c : ℤ) → leb_ℤ a b ≡ true → leb_ℤ b c ≡ true → leb_ℤ a c ≡ true
leb_ℤ_trans a b c h k = ground arith

-- Every instant from settlement on has the position of some candidate before it.
candidate_for :
    (i : FundingInputs) (t : ℤ)
    → i.settlement_offset ≤ℤ t
    → (c : ℤ) × Member c (candidates i)
      × (i.settlement_offset ≤ℤ c)
      × (c ≤ℤ t)
      × (committed_at i c ≡ committed_at i t)
unfolding candidates
candidate_for i t h =
    let c = latest i.settlement_offset i.flows t in
    let (from, to) = latest_bounds i.settlement_offset t i.flows h in
    (
      c,
      Member-sorted_intro leb_ℤ c _
          (Member-distinct_intro c _ (Member-latest i.settlement_offset t i.flows)),
      from,
      to,
      position_at_congr i.flows i.opening_position c t
          (λ f m e. ground (arith, latest_covers i.settlement_offset t i.flows f m e, to)),
    )

All-leb : (o c : ℤ) (os : List ℤ) → All (λ y. leb_ℤ o y ≡ true) os → Member c os → leb_ℤ o c ≡ true
All-leb o c [] all m = absurd m
All-leb o c (x ∷ os) all (inl e) = rw e all.0
All-leb o c (x ∷ os) all (inr m) = All-leb o c os all.1 m

-- The search fails only if the position is short at every candidate in the window.
first_funded-none :
    (i : FundingInputs) (os : List ℤ) (c : ℤ)
    → IsSorted leb_ℤ os
    → first_funded i os ≡ none
    → Member c os
    → i.settlement_offset ≤ℤ c
    → past i.window_close_offset c ≡ false
    → committed_at i c <ℤ i.obligation
unfolding first_funded
first_funded-none i [] c s h m from open_then = absurd m
first_funded-none i (o ∷ os) c s h (inl e) from open_then = ground (arith, e)
first_funded-none i (o ∷ os) c s h (inr m) from open_then =
    ground (arith, All-leb o c os s.0 m, first_funded-none i os c s.1)

-- The search answers with a funded candidate in the window, and with the first.
first_funded-some :
    (i : FundingInputs) (os : List ℤ) (t : ℤ)
    → first_funded i os ≡ some t
    → (i.settlement_offset ≤ℤ t)
      × (past i.window_close_offset t ≡ false)
      × (i.obligation ≤ℤ committed_at i t)
unfolding first_funded
first_funded-some i [] t h = cc
first_funded-some i (o ∷ os) t h = ground (arith, first_funded-some i os t)

first_funded_earliest :
    (i : FundingInputs) (os : List ℤ) (t c : ℤ)
    → IsSorted leb_ℤ os
    → first_funded i os ≡ some t
    → Member c os
    → i.settlement_offset ≤ℤ c
    → c <ℤ t
    → committed_at i c <ℤ i.obligation
unfolding first_funded
first_funded_earliest i [] t c s h m from early = absurd m
first_funded_earliest i (o ∷ os) t c s h (inl e) from early = ground (arith, e)
first_funded_earliest i (o ∷ os) t c s h (inr m) from early =
    ground (arith, All-leb o c os s.0 m, first_funded_earliest i os t c s.1)

candidates-IsSorted : (i : FundingInputs) → IsSorted leb_ℤ (candidates i)
unfolding candidates
candidates-IsSorted i = sorted-IsSorted leb_ℤ leb_ℤ_total leb_ℤ_trans _

pub first_funded_offset-some :
    (i : FundingInputs) (t : ℤ)
    → first_funded_offset i ≡ some t
    → (i.settlement_offset ≤ℤ t)
      × (past i.window_close_offset t ≡ false)
      × (i.obligation ≤ℤ committed_at i t)
unfolding first_funded_offset
first_funded_offset-some i t h = first_funded-some i (candidates i) t h

pub first_funded_offset_earliest :
    (i : FundingInputs) (t : ℤ)
    → first_funded_offset i ≡ some t
    → (u : ℤ) → i.settlement_offset ≤ℤ u
    → u <ℤ t
    → committed_at i u <ℤ i.obligation
unfolding first_funded_offset
first_funded_offset_earliest i t h u from early =
    let (c, m, c_from, c_to, same) = candidate_for i u from in
    let short =
      first_funded_earliest i (candidates i) t c (candidates-IsSorted i) h m c_from (omega arith) in
    rw (← same) short

pub first_funded_offset-none :
    (i : FundingInputs) (u : ℤ)
    → first_funded_offset i ≡ none
    → i.settlement_offset ≤ℤ u
    → past i.window_close_offset u ≡ false
    → committed_at i u <ℤ i.obligation
unfolding first_funded_offset
first_funded_offset-none i u h from open_then =
    let (c, m, c_from, c_to, same) = candidate_for i u from in
    let short =
      first_funded-none i (candidates i) c (candidates-IsSorted i) h m c_from (ground arith) in
    rw (← same) short
