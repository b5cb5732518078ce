-- ===== src/Targets/Plan.antt =====
-- `build_plan` of api/services/cash_to_targets.py over all targets.
use metron.Prelude.{
  Option, none, some, String, List, [], ◌∷◌, map, Bool, true, false, ◌||◌, if◌then◌else◌,
}
use metron.Prelude.Int.{ℤ, pos, ◌+ℤ◌, ◌-ℤ◌, ltb_ℤ, max_ℤ, sum}
use metron.Prelude.Float.{Float}
use metron.Prelude.Dict.{Dict, lookup, insert}
use metron.Prelude.Day.{Day}
use metron.Targets.Line.{
  TargetLine, PlanTargetsConfig, CashToTargetsLine, Reason, Skipped, PricePoint, Outcome, outcome,
}

-- A row of `analytics.valued_holdings`, as far as the plan reads it: `none` for no ticker or an
-- empty one.
pub record Holding : Type 0 where
  pub ticker : Option String
  pub market_value : Option ℤ

pub record CashToTargetsPlan : Type 0 where
  pub as_of : Day
  pub amount_usd : ℤ
  pub allocated_usd : ℤ
  pub unallocated_usd : ℤ
  pub unallocated_reasons : List Reason
  pub lines : List CashToTargetsLine
  pub portfolio_value : ℤ
  pub deployment_basis : ℤ
  pub skipped : List Skipped

-- What the loop over the targets has made, and the cash that it leaves.
pub record Spent : Type 0 where
  pub lines : List CashToTargetsLine
  pub skipped : List Skipped
  pub remaining : ℤ

abbrev pub or_zero : Option ℤ → ℤ
or_zero none = pos 0
or_zero (some v) = v

abbrev pub market_values : List Holding → List ℤ
market_values [] = []
market_values (h ∷ hs) =
    let rest = market_values hs in elim h.market_value [ none ↦ rest | some v ↦ v ∷ rest ]

-- `{h.ticker: h for h in held if h.ticker}`, of the values alone
abbrev pub held_by_ticker : Dict ℤ → List Holding → Dict ℤ
held_by_ticker d [] = d
held_by_ticker d (h ∷ hs) = elim h.ticker [
  | none ↦ held_by_ticker d hs
  | some t ↦ held_by_ticker (insert t (or_zero h.market_value) d) hs
]

abbrev pub existing_mv : Dict ℤ → String → ℤ
existing_mv held symbol = or_zero (lookup symbol held)

abbrev pub eq_reason : Reason → Reason → Bool
eq_reason Reason.at_or_above_target Reason.at_or_above_target = true
eq_reason Reason.at_or_above_cap Reason.at_or_above_cap = true
eq_reason Reason.unpriced Reason.unpriced = true
eq_reason Reason.min_line Reason.min_line = true
eq_reason Reason.cash_exhausted Reason.cash_exhausted = true
eq_reason _ _ = false

abbrev pub seen_reason : Reason → List Reason → Bool
seen_reason r [] = false
seen_reason r (s ∷ ss) = eq_reason r s || seen_reason r ss

-- The reasons of `skipped` in order of first appearance, without those of `seen`.
abbrev pub first_reasons : List Reason → List Skipped → List Reason
first_reasons seen [] = []
first_reasons seen (row ∷ rows) =
    let skipped_rest = first_reasons seen rows in
    let rest = first_reasons (row.reason ∷ seen) rows in
    if seen_reason row.reason seen then skipped_rest else row.reason ∷ rest

abbrev pub reasons_or_min_line : List Reason → List Reason
reasons_or_min_line [] = Reason.min_line ∷ []
reasons_or_min_line (r ∷ rs) = r ∷ rs

abbrev pub unallocated_reasons : ℤ → List Skipped → List Reason
unallocated_reasons unallocated skipped =
    if ltb_ℤ (pos 0) unallocated then reasons_or_min_line (first_reasons [] skipped) else []

abbrev pub usd_of : CashToTargetsLine → ℤ
usd_of line = line.usd

module _ ⦃f : Float⦄ where
  abbrev pub after : ℤ → Outcome → ℤ
  after remaining (Outcome.bought line) = f.round 2 (remaining -ℤ line.usd)
  after remaining (Outcome.skip row) = remaining

  abbrev pub record_outcome : Outcome → Spent → Spent
  record_outcome (Outcome.bought line) s = record s { lines = line ∷ s.lines }
  record_outcome (Outcome.skip row) s = record s { skipped = row ∷ s.skipped }

  abbrev pub basis_of : List Holding → ℤ → ℤ
  basis_of held amount_usd = sum (market_values held) +ℤ amount_usd

  abbrev pub empty_plan : List Holding → ℤ → Day → CashToTargetsPlan
  empty_plan held amount_usd as_of = record {
    as_of = as_of;
    amount_usd = f.round 2 amount_usd;
    allocated_usd = pos 0;
    unallocated_usd = f.round 2 amount_usd;
    unallocated_reasons = [];
    lines = [];
    portfolio_value = f.round 2 (sum (market_values held));
    deployment_basis = f.round 2 (basis_of held amount_usd);
    skipped = [];
  }

  abbrev pub plan_of : List Holding → ℤ → Day → Spent → CashToTargetsPlan
  plan_of held amount_usd as_of s =
      let allocated = f.round 2 (sum (map usd_of s.lines)) in
      let unallocated = f.round 2 (amount_usd -ℤ allocated) in
      record {
        as_of = as_of;
        amount_usd = f.round 2 amount_usd;
        allocated_usd = allocated;
        unallocated_usd = unallocated;
        unallocated_reasons = unallocated_reasons unallocated s.skipped;
        lines = s.lines;
        portfolio_value = f.round 2 (sum (market_values held));
        deployment_basis = f.round 2 (basis_of held amount_usd);
        skipped = s.skipped;
      }

module _ ⦃f : Float⦄ (priced : String → Option PricePoint) where
  -- The loop over the targets.
  unfoldable pub spend : PlanTargetsConfig → ℤ → Dict ℤ → ℤ → List TargetLine → Spent
  spend config basis held remaining [] = record { lines = []; skipped = []; remaining = remaining }
  spend config basis held remaining (t ∷ ts) =
      let o = outcome config basis (existing_mv held t.symbol) (priced t.symbol) remaining t in
      record_outcome o (spend config basis held (after remaining o) ts)

  -- The plan for the targets given, with the early return for none.
  abbrev pub plan_for :
      List Holding → ℤ → PlanTargetsConfig → Day → List TargetLine → CashToTargetsPlan
  plan_for held amount_usd config as_of [] = empty_plan held amount_usd as_of
  plan_for held amount_usd config as_of (t ∷ ts) =
      plan_of held amount_usd as_of
        (spend config (basis_of held amount_usd) (held_by_ticker [] held) amount_usd (t ∷ ts))

  unfoldable pub build_plan : List Holding → ℤ → PlanTargetsConfig → Day → CashToTargetsPlan
  build_plan held amount config as_of =
      plan_for held (max_ℤ (pos 0) amount) config as_of config.targets
