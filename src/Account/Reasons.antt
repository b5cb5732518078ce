-- ===== src/Account/Reasons.antt =====
-- Which figures of `account_performance` are given, and which carry a reason instead
-- (portfolio_analytics/domain/account_performance.py).
use metron.Prelude.{
  ◌≡◌, refl, sym, ap, ◌∙◌, All, ◌++◌, subst, Option, none, some, Bool, true, false, not, List, [],
  ◌∷◌, inl, inr, Option-cases,
}
use metron.Prelude.Int.{ℤ}
use metron.Prelude.Result.{ok, Ensures}
use metron.Prelude.Float.{Float}
use metron.Prelude.Sort.{sorted}
use metron.Ledger.Reports.{CashFlow}
use metron.Account.Events.{AccountEvent}
use metron.Account.Wealth.{WealthObservation}
use metron.Account.Linked.{same_perf}
use metron.Account.Period.{PeriodPnL, is_reconciled}
use metron.Account.Series.{
  broken_period, Metric, Metrics, AccountPerformance, SeriesWhy, unless, growth, first_broken,
  money_weighted, flows_given, periods_of, measure, perform, account_performance, obs_day,
  event_day, last_of,
}

abbrev pub is_some {ℓ} : {A : Type ℓ} → Option A → Bool
is_some none = false
is_some (some x) = true

-- A figure is given or carries a reason, and never both.
abbrev pub IsExplained : Metric → Type 0
IsExplained m = is_some m.value ≡ not (is_some m.unavailable_reason)

pub record AreExplained (m : Metrics) : Type 0 where
  pub twr_net : IsExplained m.twr_net
  pub twr_gross : IsExplained m.twr_gross
  pub mwr_net_annualized : IsExplained m.mwr_net_annualized
  pub net_pnl : IsExplained m.net_pnl
  pub gross_pnl : IsExplained m.gross_pnl
  pub explicit_costs : IsExplained m.explicit_costs

-- The figure has no value, and carries the reason.
pub record IsMissing (why : SeriesWhy) (m : Metric) : Type 0 where
  pub value : m.value ≡ none
  pub reason : m.unavailable_reason ≡ some why

-- Every figure does.
pub record AllMissing (why : SeriesWhy) (m : Metrics) : Type 0 where
  pub twr_net : IsMissing why m.twr_net
  pub twr_gross : IsMissing why m.twr_gross
  pub mwr_net_annualized : IsMissing why m.mwr_net_annualized
  pub net_pnl : IsMissing why m.net_pnl
  pub gross_pnl : IsMissing why m.gross_pnl
  pub explicit_costs : IsMissing why m.explicit_costs

first_broken-append :
    (before : List PeriodPnL) (p : PeriodPnL) (later : List PeriodPnL)
    → All (λ q. is_reconciled q.status ≡ true) before
    → is_reconciled p.status ≡ false
    → first_broken (before ++ p ∷ later) ≡ some (broken_period p.start p.end p.unavailable_reason)
first_broken-append [] p later h broken = rw broken refl
first_broken-append (q ∷ before) p later h broken =
    rw h.0 (first_broken-append before p later h.1 broken)

unless-IsExplained : (w : Option SeriesWhy) (v : ℤ) → is_some (unless w (some v)) ≡ not (is_some w)
unless-IsExplained none v = refl
unless-IsExplained (some w) v = refl

module _ ⦃f : Float⦄ (xirr : List CashFlow → Option ℤ) where
  abbrev pub figures : AccountPerformance → Metrics
  figures r = r.metrics

  money_weighted-IsExplained :
      (w : Option SeriesWhy) (o l : WealthObservation) (evs : List AccountEvent)
      → let (rate, why) = money_weighted xirr w o l evs in
        is_some (unless why rate) ≡ not (is_some why)
  money_weighted-IsExplained (some w) o l evs = refl
  money_weighted-IsExplained none o l evs = elim (Option-cases (xirr (flows_given o l evs))) [
    | inl e ↦ rw (money_weighted, e)
    | inr (r, e) ↦ rw (money_weighted, e)
  ]

  measure-AreExplained :
      (evs : List AccountEvent) (tol qtol : ℤ) (o p : WealthObservation)
      (ps : List WealthObservation)
      → AreExplained (measure xirr evs tol qtol o p ps).metrics
  measure-AreExplained evs tol qtol o p ps =
      let why = (growth (periods_of evs tol qtol o (p ∷ ps))).0 in
      record {
        twr_net = unless-IsExplained why _;
        twr_gross = unless-IsExplained why _;
        mwr_net_annualized = money_weighted-IsExplained why o (last_of p ps) evs;
        net_pnl = unless-IsExplained why _;
        gross_pnl = unless-IsExplained why _;
        explicit_costs = unless-IsExplained why _;
      }

  perform-AreExplained :
      (evs : List AccountEvent) (tol qtol : ℤ) (os : List WealthObservation)
      → Ensures (λ r. AreExplained (figures r)) (perform xirr evs tol qtol os)
  perform-AreExplained evs tol qtol [] = tt
  perform-AreExplained evs tol qtol (o ∷ []) = tt
  perform-AreExplained evs tol qtol (o ∷ p ∷ ps) = measure-AreExplained evs tol qtol o p ps

  -- Each of the six figures has a value exactly when it carries no reason for being unavailable.
  pub account_performance-AreExplained :
      (observations : List WealthObservation) (events : List AccountEvent) (tol qtol : ℤ)
      → Ensures
          (λ r. AreExplained (figures r))
          (account_performance xirr observations events tol qtol)
  unfolding account_performance
  account_performance-AreExplained observations events tol qtol =
      perform-AreExplained (sorted event_day events) tol qtol (sorted obs_day observations)

  measure-AllMissing :
      (evs : List AccountEvent) (tol qtol : ℤ) (o p : WealthObservation)
      (ps : List WealthObservation) (w : SeriesWhy)
      → first_broken (periods_of evs tol qtol o (p ∷ ps)) ≡ some w
      → AllMissing w (measure xirr evs tol qtol o p ps).metrics
  measure-AllMissing evs tol qtol o p ps w h =
      rw (measure, growth, h)
        (record {
          twr_net = record { value = refl; reason = refl };
          twr_gross = record { value = refl; reason = refl };
          mwr_net_annualized = record { value = refl; reason = refl };
          net_pnl = record { value = refl; reason = refl };
          gross_pnl = record { value = refl; reason = refl };
          explicit_costs = record { value = refl; reason = refl };
        })

  perform-AllMissing :
      (evs : List AccountEvent) (tol qtol : ℤ) (os : List WealthObservation)
      (perf : AccountPerformance) (w : SeriesWhy)
      → perform xirr evs tol qtol os ≡ ok perf
      → first_broken perf.periods ≡ some w
      → AllMissing w perf.metrics
  perform-AllMissing evs tol qtol [] perf w k h = absurd (cc)
  perform-AllMissing evs tol qtol (o ∷ []) perf w k h = absurd (cc)
  perform-AllMissing evs tol qtol (o ∷ p ∷ ps) perf w k h =
      let m : measure xirr evs tol qtol o p ps ≡ perf = same_perf _ perf k in
      subst (λ (r : AccountPerformance). AllMissing w r.metrics) m
        (measure-AllMissing evs tol qtol o p ps w
          (subst (λ (r : AccountPerformance). first_broken r.periods ≡ some w) (sym m) h))

  -- One period that is not reconciled, the first such, leaves all six figures without a value, each
  -- with that period and the period's own reason as its reason.
  pub account_performance-AllMissing :
      (observations : List WealthObservation) (events : List AccountEvent) (tol qtol : ℤ)
      (perf : AccountPerformance) (before : List PeriodPnL) (p : PeriodPnL) (later : List PeriodPnL)
      → account_performance xirr observations events tol qtol ≡ ok perf
      → perf.periods ≡ before ++ p ∷ later
      → All (λ q. is_reconciled q.status ≡ true) before
      → is_reconciled p.status ≡ false
      → AllMissing (broken_period p.start p.end p.unavailable_reason) perf.metrics
  unfolding account_performance
  account_performance-AllMissing observations events tol qtol perf before p later k split h broken =
      perform-AllMissing (sorted event_day events) tol qtol (sorted obs_day observations) perf _ k
        (ap first_broken split ∙ first_broken-append before p later h broken)
