-- ===== src/Rails/Funding/Position.antt =====
-- atreides/rails/funding_state.py: the position over time, the ladder, the trough that the cap is
-- tested against and the search for the instant that funding arrives.
use Prim.Native.String.{compare}
use text.Mathlib.Text.{is_le}
use project_atreides.Common.{
  String, List, [], ◌∷◌, ◌++◌, Bool, true, false, Option, some, none, if◌then◌else◌, not, ◌&&◌,
  ◌||◌,
}
use project_atreides.Common.Int.{ℤ, pos, ◌+ℤ◌, ◌-ℤ◌, leb_ℤ, ltb_ℤ, eqb_ℤ, min_ℤ, max_ℤ}
use project_atreides.Common.Key.{distinct, int_key}
use project_atreides.Common.Sort.{sorted}
use project_atreides.Rails.Finality.{finality_key}
use project_atreides.Rails.Determination.{outcome_key}
use project_atreides.Rails.Funding.Records.{CashFlow, LadderPoint, FundingInputs}

-- `_position_at`
unfoldable pub position_at : ℤ → List CashFlow → ℤ → Bool → ℤ
position_at total [] offset committed_only = total
position_at total (f ∷ fs) offset committed_only =
    position_at
      (if leb_ℤ f.offset offset && (f.committed || not committed_only)
        then total +ℤ f.amount
        else total)
      fs offset committed_only

-- The sort key `(offset, label)`
unfoldable pub by_offset_label : ℤ → String → ℤ → String → Bool
by_offset_label o l o' l' = ltb_ℤ o o' || (eqb_ℤ o o' && is_le (compare l l'))

unfoldable pub flow_le : CashFlow → CashFlow → Bool
unfolding by_offset_label
flow_le f g = by_offset_label f.offset f.label g.offset g.label

unfoldable pub point_le : LadderPoint → LadderPoint → Bool
unfolding by_offset_label
point_le p q = by_offset_label p.offset p.label q.offset q.label

-- The loop of `_build_ladder` over the sorted flows
unfoldable pub run_ladder : ℤ → List CashFlow → List LadderPoint
run_ladder running [] = []
run_ladder running (f ∷ fs) =
    let skip = run_ladder running fs in
    let step = run_ladder (running +ℤ f.amount) fs in
    if f.committed
    then record { offset = f.offset; position = running +ℤ f.amount; label = f.label } ∷ step
    else skip

-- What happens on the funding account at the settlement instant, on committed flows
unfoldable pub settlement_position : FundingInputs → ℤ
unfolding position_at
settlement_position i = position_at i.opening_position i.flows i.settlement_offset true

-- The first part of `_build_ladder`'s result
unfoldable pub build_ladder : FundingInputs → List LadderPoint
unfolding run_ladder settlement_position flow_le point_le
build_ladder i = sorted point_le (
    (record { offset = pos 0; position = i.opening_position; label = "opening position" }
      ∷ run_ladder i.opening_position (sorted flow_le i.flows))
    ++ record {
      offset = i.settlement_offset;
      position = settlement_position i -ℤ i.obligation;
      label = "post-settlement";
    }
      ∷ [])

-- The flows that the net-debit cap is tested against, with the offset that each counts at
unfoldable pub timed_flows : Option ℤ → List CashFlow → List CashFlow
timed_flows close [] = []
timed_flows none (f ∷ fs) = let rest = timed_flows none fs in if f.committed then f ∷ rest else rest
timed_flows (some close) (f ∷ fs) =
    let rest = timed_flows (some close) fs in
    if not f.committed
    then rest
    else if leb_ℤ f.offset close
    then f ∷ rest
    else if not f.offset_is_certain && ltb_ℤ f.amount (pos 0)
    then record f { offset = close } ∷ rest
    else rest

unfoldable pub lowest : ℤ → ℤ → List CashFlow → ℤ
lowest running trough [] = trough
lowest running trough (f ∷ fs) =
    lowest (running +ℤ f.amount) (min_ℤ trough (running +ℤ f.amount)) fs

unfoldable pub cap_trough : FundingInputs → ℤ → ℤ
unfolding timed_flows lowest flow_le
cap_trough i settle_pos =
    min_ℤ
      (lowest i.opening_position i.opening_position
        (sorted flow_le (timed_flows i.window_close_offset i.flows)))
      (settle_pos -ℤ i.obligation)

-- `{f.offset_seconds for f in inputs.flows if f.committed}`
unfoldable pub committed_offsets : List CashFlow → List ℤ
committed_offsets [] = []
committed_offsets (f ∷ fs) =
    let rest = committed_offsets fs in if f.committed then f.offset ∷ rest else rest

abbrev pub past : Option ℤ → ℤ → Bool
past none o = false
past (some close) o = ltb_ℤ close o

-- The loop of `_first_funded_offset` over the sorted candidates
unfoldable pub first_funded : FundingInputs → List ℤ → Option ℤ
unfolding position_at
first_funded i [] = none
first_funded i (o ∷ os) =
    let rest = first_funded i os in
    if ltb_ℤ o i.settlement_offset
    then rest
    else if past i.window_close_offset o
    then none
    else if leb_ℤ i.obligation (position_at i.opening_position i.flows o true)
    then some o
    else rest

unfoldable pub candidates : FundingInputs → List ℤ
unfolding committed_offsets
candidates i = sorted leb_ℤ (distinct (committed_offsets i.flows ++ i.settlement_offset ∷ []))

unfoldable pub first_funded_offset : FundingInputs → Option ℤ
unfolding first_funded candidates
first_funded_offset i = first_funded i (candidates i)

unfoldable pub shortfall_of : FundingInputs → ℤ
shortfall_of i = max_ℤ (pos 0) (i.obligation -ℤ settlement_position i)

abbrev pub headroom_under : Option ℤ → ℤ → ℤ
headroom_under none trough = pos 0
headroom_under (some cap) trough = cap +ℤ min_ℤ trough (pos 0)

unfoldable pub headroom : FundingInputs → ℤ
headroom i = headroom_under i.net_debit_cap (cap_trough i (settlement_position i))
