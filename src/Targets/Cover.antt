-- ===== src/Targets/Cover.antt =====
-- What the plan of `build_plan` (api/services/cash_to_targets.py) says of each target.
use metron.Prelude.{
  ◌≡◌, refl, subst, inl, inr, Option, none, some, String, Bool, true, false, List, [], ◌∷◌, arith,
  Bool-cases, Option-cases, if◌then◌else◌,
}
use metron.Prelude.Int.{ℤ, pos, ◌≤ℤ◌, ◌<ℤ◌, leb_ℤ, ltb_ℤ, max_ℤ, min_ℤ}
use metron.Prelude.Float.{Float}
use metron.Prelude.Dict.{Dict}
use metron.Prelude.Day.{Day}
use metron.Targets.Line.{
  TargetLine, PlanTargetsConfig, CashToTargetsLine, Reason, Skipped, PricePoint, Outcome, outcome,
  buy, usable, headroom, day_of, whole_shares, line_usd,
}
use metron.Targets.Plan.{
  Holding, Spent, eq_reason, existing_mv, after, record_outcome, plan_for, basis_of, held_by_ticker,
  spend, build_plan,
}

abbrev is_none {ℓ} : {A : Type ℓ} → Option A → Bool
is_none none = true
is_none (some x) = false

abbrev IsPositive : Option ℤ → Type 0
IsPositive none = Unit
IsPositive (some c) = pos 0 <ℤ c

IsPositive-close :
    (o : Option ℤ)
    → IsPositive (elim o [ none ↦ none | some c ↦ if leb_ℤ c (pos 0) then none else some c ])
IsPositive-close none = tt
IsPositive-close (some c) = elim (Bool-cases (leb_ℤ c (pos 0))) [
  | inl e ↦ rw (IsPositive, e) tt
  | inr e ↦ rw (IsPositive, e) (ground arith)
]

usable-IsPositive : (point : Option PricePoint) → IsPositive (usable point)
usable-IsPositive none = tt
usable-IsPositive (some point) = IsPositive-close point.close

module _ (priced : String → Option PricePoint) (min_line_usd : ℤ) where
  -- A line for a target buys some shares at the target's own price, a positive one, for no less
  -- than the minimum.
  pub record IsLine (t : TargetLine) (line : CashToTargetsLine) : Type 0 where
    pub symbol : line.symbol ≡ t.symbol
    pub weight : line.target_weight ≡ t.weight
    pub price : usable (priced t.symbol) ≡ some line.price
    pub price_positive : pos 0 <ℤ line.price
    pub some_shares : pos 0 <ℤ line.shares
    pub large_enough : min_line_usd ≤ℤ line.usd

  -- A target that is skipped is said to be unpriced exactly when it has no usable price.
  pub record IsSkip (t : TargetLine) (row : Skipped) : Type 0 where
    pub symbol : row.symbol ≡ t.symbol
    pub unpriced : eq_reason row.reason Reason.unpriced ≡ is_none (usable (priced t.symbol))

  -- Each target has one line or is skipped once, and both lists keep the order of the targets.
  pub data Covers : List TargetLine → List CashToTargetsLine → List Skipped → Type 0 where
    done : Covers [] [] []
    line :
        (t : TargetLine) (l : CashToTargetsLine) (ts : List TargetLine)
        (ls : List CashToTargetsLine) (ss : List Skipped)
        → IsLine t l
        → Covers ts ls ss
        → Covers (t ∷ ts) (l ∷ ls) ss
    skipped :
        (t : TargetLine) (s : Skipped) (ts : List TargetLine) (ls : List CashToTargetsLine)
        (ss : List Skipped)
        → IsSkip t s
        → Covers ts ls ss
        → Covers (t ∷ ts) ls (s ∷ ss)

  abbrev IsOutcome : TargetLine → Outcome → Type 0
  IsOutcome t (Outcome.bought l) = IsLine t l
  IsOutcome t (Outcome.skip s) = IsSkip t s

module _ ⦃f : Float⦄ (priced : String → Option PricePoint) (config : PlanTargetsConfig) where
  abbrev Right : TargetLine → Outcome → Type 0
  Right t o = IsOutcome priced config.min_line_usd t o

  not_unpriced :
      (capped : Bool)
      → eq_reason
          (if capped then Reason.at_or_above_cap else Reason.at_or_above_target)
          Reason.unpriced
        ≡ false
  not_unpriced true = refl
  not_unpriced false = refl

  buy-IsOutcome :
      (t : TargetLine) (day : Option Day) (basis mv close budget : ℤ)
      → usable (priced t.symbol) ≡ some close
      → pos 0 <ℤ close
      → Right t (buy t config day basis mv close budget)
  buy-IsOutcome t day basis mv close budget e h =
      elim (Bool-cases (leb_ℤ (whole_shares budget close) (pos 0))) [
        | inl stop ↦ rw (IsOutcome, stop) (record { symbol = refl; unpriced = rw e refl })
        | inr enough ↦
            elim (Bool-cases
              (ltb_ℤ (line_usd (whole_shares budget close) close) config.min_line_usd)) [
                | inl stop ↦
                    rw (IsOutcome, enough, stop) (record { symbol = refl; unpriced = rw e refl })
                | inr large ↦
                    rw (IsOutcome, enough, large)
                      (record {
                        symbol = refl;
                        weight = refl;
                        price = e;
                        price_positive = h;
                        some_shares = ground arith;
                        large_enough = ground arith;
                      })
              ]
      ]

  outcome-IsOutcome :
      (t : TargetLine) (basis mv remaining : ℤ)
      → Right t (outcome config basis mv (priced t.symbol) remaining t)
  unfolding outcome
  outcome-IsOutcome t basis mv remaining = elim (Option-cases (usable (priced t.symbol))) [
    | inl e ↦ rw (IsOutcome, e) (record { symbol = refl; unpriced = rw e refl })
    | inr (close, e) ↦
        rw (IsOutcome, e)
          (elim (Bool-cases (leb_ℤ (headroom t config basis mv) (pos 0))) [
            | inl full ↦
                rw (IsOutcome, full) (record { symbol = refl; unpriced = rw e (not_unpriced _) })
            | inr room ↦
                rw (IsOutcome, room)
                  (elim (Bool-cases (ltb_ℤ remaining config.min_line_usd)) [
                    | inl few ↦ rw (IsOutcome, few) (record { symbol = refl; unpriced = rw e refl })
                    | inr cash ↦
                        rw (IsOutcome, cash)
                          (buy-IsOutcome t (day_of (priced t.symbol)) basis mv close
                            (min_ℤ remaining (headroom t config basis mv)) e
                            (subst IsPositive e (usable-IsPositive (priced t.symbol))))
                  ])
          ])
  ]

  abbrev CoversTargets : List TargetLine → Spent → Type 0
  CoversTargets ts s = Covers priced config.min_line_usd ts s.lines s.skipped

  record_outcome-Covers :
      (t : TargetLine) (ts : List TargetLine) (o : Outcome) (s : Spent)
      → Right t o
      → CoversTargets ts s
      → CoversTargets (t ∷ ts) (record_outcome o s)
  record_outcome-Covers t ts (Outcome.bought l) s h k = line t l ts s.lines s.skipped h k
  record_outcome-Covers t ts (Outcome.skip row) s h k = skipped t row ts s.lines s.skipped h k

  spend-Covers :
      (basis : ℤ) (held : Dict ℤ) (cash : ℤ) (ts : List TargetLine)
      → CoversTargets ts (spend priced config basis held cash ts)
  unfolding spend
  spend-Covers basis held cash [] = done
  spend-Covers basis held cash (t ∷ ts) =
      let o = outcome config basis (existing_mv held t.symbol) (priced t.symbol) cash t in
      record_outcome-Covers t ts o _ (outcome-IsOutcome t basis (existing_mv held t.symbol) cash)
        (spend-Covers basis held (after cash o) ts)

  plan_for-Covers :
      (held : List Holding) (amount : ℤ) (as_of : Day) (ts : List TargetLine)
      → let p = plan_for priced held amount config as_of ts in
        Covers priced config.min_line_usd ts p.lines p.skipped
  plan_for-Covers held amount as_of [] = done
  plan_for-Covers held amount as_of (t ∷ ts) =
      spend-Covers (basis_of held amount) (held_by_ticker [] held) amount (t ∷ ts)

  -- Whatever the cash, the prices and the holdings, a plan accounts for each target once and in
  -- order: with a line, which buys some shares at the target's positive price for no less than the
  -- minimum, or with a reason, which is that it has no usable price exactly when it has none.
  pub build_plan-Covers :
      (held : List Holding) (amount : ℤ) (as_of : Day)
      → let p = build_plan priced held amount config as_of in
        Covers priced config.min_line_usd config.targets p.lines p.skipped
  unfolding build_plan
  build_plan-Covers held amount as_of =
      plan_for-Covers held (max_ℤ (pos 0) amount) as_of config.targets
