-- ===== src/Account/Series.antt =====
-- `account_performance` of portfolio_analytics/domain/account_performance.py: linked performance over
-- consecutive observations. `xirr` is the quant library's and is a parameter; the texts of the
-- reasons are values of `SeriesWhy`.
use metron.Prelude.{
  ℕ, Option, none, some, List, [], ◌∷◌, ◌++◌, map, keep, length, ◌&&◌, if◌then◌else◌,
}
use metron.Prelude.Int.{ℤ, pos, ◌+ℤ◌, ◌-ℤ◌, neg_ℤ, leb_ℤ, sum}
use metron.Prelude.Result.{Result, ok, raised}
use metron.Prelude.Float.{Float, ◌⊛◌, ◌⊘◌}
use metron.Prelude.Day.{Day}
use metron.Prelude.Sort.{sorted}
use metron.Ledger.Reports.{CashFlow}
use metron.Account.Events.{AccountEvent, account_external_flow, is_external}
use metron.Account.Wealth.{WealthObservation, observed, wealth}
use metron.Account.Period.{PeriodPnL, Why, in_window, is_reconciled, net_pnl, decompose_period}

pub data Units : Type 0 where
  fraction fraction_per_year usd : Units

pub data SeriesWhy : Type 0 where
  broken_period : Day → Day → Option Why → SeriesWhy
  non_positive_capital : Day → SeriesWhy
  xirr_did_not_converge : SeriesWhy

pub data SeriesError : Type 0 where
  too_few_observations : SeriesError

pub record Metric : Type 0 where
  pub value : Option ℤ
  pub units : Units
  pub start : Day
  pub end : Day
  pub n : ℕ
  pub unavailable_reason : Option SeriesWhy

-- The six entries of the `metrics` dictionary.
pub record Metrics : Type 0 where
  pub twr_net : Metric
  pub twr_gross : Metric
  pub mwr_net_annualized : Metric
  pub net_pnl : Metric
  pub gross_pnl : Metric
  pub explicit_costs : Metric

pub record AccountPerformance : Type 0 where
  pub periods : List PeriodPnL
  pub metrics : Metrics

abbrev pub obs_day : WealthObservation → Day
obs_day o = o.when

abbrev pub event_day : AccountEvent → Day
event_day e = e.when

-- `obs[-1]`, of a list whose first item is given
abbrev pub last_of : WealthObservation → List WealthObservation → WealthObservation
last_of o [] = o
last_of o (p ∷ ps) = last_of p ps

-- `next((p for p in periods if p.status != "reconciled"), None)`
abbrev pub first_broken : List PeriodPnL → Option SeriesWhy
first_broken [] = none
first_broken (p ∷ ps) =
    if is_reconciled p.status
    then first_broken ps
    else some (broken_period p.start p.end p.unavailable_reason)

-- `None if why else value`
abbrev pub unless : Option SeriesWhy → Option ℤ → Option ℤ
unless none value = value
unless (some why) value = none

-- `p.net_pnl or 0.0`, and the same of the costs
abbrev pub or_zero : Option ℤ → ℤ
or_zero none = pos 0
or_zero (some v) = v

abbrev pub flow : AccountEvent → CashFlow
flow e = record { when = e.when; amount = neg_ℤ (account_external_flow e) }

-- The flows between the first wealth, put in, and the last, taken out.
abbrev pub flows_given : WealthObservation → WealthObservation → List AccountEvent → List CashFlow
flows_given first last evs =
    record { when = first.when; amount = neg_ℤ (observed (wealth first)) }
    ∷ (map flow (keep (λ e. is_external e.kind && in_window first.when last.when e) evs)
        ++ record { when = last.when; amount = observed (wealth last) } ∷ [])

module _ ⦃f : Float⦄ where
  -- The loop that links the periods, with the reason at which it breaks.
  unfoldable pub link : ℤ → ℤ → List PeriodPnL → Option SeriesWhy × ℤ × ℤ
  link net gross [] = (none, net, gross)
  link net gross (p ∷ ps) =
      let at_work = observed p.wealth_start +ℤ p.external in
      let end = observed p.wealth_end in
      let rest =
        link (net ⊛ (end ⊘ at_work)) (gross ⊛ ((end +ℤ observed p.explicit_costs) ⊘ at_work)) ps in
      if leb_ℤ at_work (pos 0) then (some (non_positive_capital p.end), net, gross) else rest

  -- The loop breaks at once where a period is already known to be broken.
  abbrev pub growth : List PeriodPnL → Option SeriesWhy × ℤ × ℤ
  growth ps = elim (first_broken ps) [
    | some why ↦ (some why, f.one, f.one)
    | none ↦ link f.one f.one ps
  ]

  -- `decompose_period` of each observation and the next.
  abbrev pub periods_of :
      List AccountEvent → ℤ → ℤ → WealthObservation → List WealthObservation → List PeriodPnL
  periods_of evs tol qtol o [] = []
  periods_of evs tol qtol o (p ∷ ps) =
      decompose_period o p evs tol qtol ∷ periods_of evs tol qtol p ps

  module _ (xirr : List CashFlow → Option ℤ) where
    abbrev pub money_weighted :
        Option SeriesWhy
        → WealthObservation
        → WealthObservation
        → List AccountEvent
        → Option ℤ × Option SeriesWhy
    money_weighted (some why) first last evs = (none, some why)
    money_weighted none first last evs = elim (xirr (flows_given first last evs)) [
      | none ↦ (none, some xirr_did_not_converge)
      | some rate ↦ (some rate, none)
    ]

    abbrev pub measure :
        List AccountEvent
        → ℤ
        → ℤ
        → WealthObservation
        → WealthObservation
        → List WealthObservation
        → AccountPerformance
    measure evs tol qtol o p ps =
        let periods = periods_of evs tol qtol o (p ∷ ps) in
        let last = last_of p ps in
        let (why, net_growth, gross_growth) = growth periods in
        let (mwr, mwr_why) = money_weighted why o last evs in
        let net = sum (map (λ q. or_zero (net_pnl q)) periods) in
        let costs = sum (map (λ q. or_zero q.explicit_costs) periods) in
        let metric : Option ℤ → Units → Option SeriesWhy → Metric = λ v u w. record {
          value = unless w v;
          units = u;
          start = o.when;
          end = last.when;
          n = length periods;
          unavailable_reason = w;
        } in
        record {
          periods = periods;
          metrics = record {
            twr_net = metric (some (net_growth -ℤ f.one)) fraction why;
            twr_gross = metric (some (gross_growth -ℤ f.one)) fraction why;
            mwr_net_annualized = metric mwr fraction_per_year mwr_why;
            net_pnl = metric (some net) usd why;
            gross_pnl = metric (some (net +ℤ costs)) usd why;
            explicit_costs = metric (some costs) usd why;
          };
        }

    abbrev pub perform :
        List AccountEvent → ℤ → ℤ → List WealthObservation → Result SeriesError AccountPerformance
    perform evs tol qtol [] = raised too_few_observations
    perform evs tol qtol (o ∷ []) = raised too_few_observations
    perform evs tol qtol (o ∷ p ∷ ps) = ok (measure evs tol qtol o p ps)

    unfoldable pub account_performance :
        List WealthObservation → List AccountEvent → ℤ → ℤ → Result SeriesError AccountPerformance
    account_performance observations events tol qtol =
        perform (sorted event_day events) tol qtol (sorted obs_day observations)
