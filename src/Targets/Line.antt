-- ===== src/Targets/Line.antt =====
-- What `build_plan` (api/services/cash_to_targets.py) does with one target.
use metron.Prelude.{Option, none, some, String, List, Bool, false, ◌&&◌, ◌||◌, if◌then◌else◌}
use metron.Prelude.Int.{ℤ, pos, ◌+ℤ◌, ◌-ℤ◌, ltb_ℤ, leb_ℤ, min_ℤ}
use metron.Prelude.Float.{Float, ◌⊛◌, ◌⊘◌}
use metron.Prelude.Day.{Day}

pub record TargetLine : Type 0 where
  pub symbol : String
  pub weight : ℤ

pub record PlanTargetsConfig : Type 0 where
  pub targets : List TargetLine
  pub max_single_position : Option ℤ
  pub min_line_usd : ℤ

pub record CashToTargetsLine : Type 0 where
  pub symbol : String
  pub target_weight : ℤ
  pub weight_before : ℤ
  pub weight_after : ℤ
  -- a count
  pub shares : ℤ
  pub usd : ℤ
  pub price : ℤ
  pub price_as_of : Option Day

-- The keys of `_UNALLOCATED_REASON_TEXT`.
pub data Reason : Type 0 where
  at_or_above_target at_or_above_cap unpriced min_line cash_exhausted : Reason

pub record Skipped : Type 0 where
  pub symbol : String
  pub reason : Reason

-- What the price reader gives for a symbol.
pub record PricePoint : Type 0 where
  pub close : Option ℤ
  pub bar_date : Option Day

pub data Outcome : Type 0 where
  bought : CashToTargetsLine → Outcome
  skip : Skipped → Outcome

-- The close of a point with a usable price.
abbrev pub usable : Option PricePoint → Option ℤ
usable none = none
usable (some point) = elim point.close [
  | none ↦ none
  | some close ↦ if leb_ℤ close (pos 0) then none else some close
]

abbrev pub day_of : Option PricePoint → Option Day
day_of none = none
day_of (some point) = point.bar_date

module _ ⦃f : Float⦄ where
  abbrev pub cap_usd : PlanTargetsConfig → ℤ → Option ℤ
  cap_usd config basis = elim config.max_single_position [
    | none ↦ none
    | some share ↦ some (share ⊛ basis)
  ]

  abbrev pub ceiling : Option ℤ → ℤ → ℤ
  ceiling none target_usd = target_usd
  ceiling (some cap) target_usd = min_ℤ target_usd cap

  abbrev pub over_cap : Option ℤ → ℤ → ℤ → Bool
  over_cap none limit existing_mv = false
  over_cap (some cap) limit existing_mv = leb_ℤ limit (cap +ℤ f.dust) && leb_ℤ cap existing_mv

  abbrev pub headroom_reason : Option ℤ → ℤ → ℤ → Reason
  headroom_reason cap limit existing_mv =
      if over_cap cap limit existing_mv then at_or_above_cap else at_or_above_target

  abbrev pub weight_of : ℤ → ℤ → ℤ
  weight_of value basis = if ltb_ℤ (pos 0) basis then value ⊘ basis else pos 0

  abbrev pub skip_for : TargetLine → Reason → Outcome
  skip_for t reason = skip (record { symbol = t.symbol; reason = reason })

  abbrev pub whole_shares : ℤ → ℤ → ℤ
  whole_shares budget close = f.floor (budget ⊘ close)

  -- `round(shares * close, 2)`
  abbrev pub line_usd : ℤ → ℤ → ℤ
  line_usd shares close = f.round 2 (f.float shares ⊛ close)

  -- The line of a target with a price, room under its ceiling, and cash left.
  abbrev pub buy : TargetLine → PlanTargetsConfig → Option Day → ℤ → ℤ → ℤ → ℤ → Outcome
  buy t config day basis existing_mv close budget =
      let shares = whole_shares budget close in
      let usd = line_usd shares close in
      if leb_ℤ shares (pos 0) || ltb_ℤ usd config.min_line_usd
      then skip_for t min_line
      else bought (record {
        symbol = t.symbol;
        target_weight = t.weight;
        weight_before = weight_of existing_mv basis;
        weight_after = weight_of (existing_mv +ℤ usd) basis;
        shares = shares;
        usd = usd;
        price = close;
        price_as_of = day;
      })

  abbrev pub headroom : TargetLine → PlanTargetsConfig → ℤ → ℤ → ℤ
  headroom t config basis existing_mv =
      ceiling (cap_usd config basis) (t.weight ⊛ basis) -ℤ existing_mv

  -- One round of the loop over the targets, on the cash that remains.
  unfoldable pub outcome : PlanTargetsConfig → ℤ → ℤ → Option PricePoint → ℤ → TargetLine → Outcome
  outcome config basis existing_mv point remaining t = elim (usable point) [
    | none ↦ skip_for t unpriced
    | some close ↦
        let room = headroom t config basis existing_mv in
        let limit = ceiling (cap_usd config basis) (t.weight ⊛ basis) in
        if leb_ℤ room (pos 0)
        then skip_for t (headroom_reason (cap_usd config basis) limit existing_mv)
        else if ltb_ℤ remaining config.min_line_usd
        then skip_for t cash_exhausted
        else buy t config (day_of point) basis existing_mv close (min_ℤ remaining room)
  ]
