-- ===== src/Account/Linked.antt =====
-- What the figures of `account_performance` say
-- (portfolio_analytics/domain/account_performance.py).
use metron.Prelude.{
  ℕ, ◌≤◌, ◌≡◌, refl, sym, subst, ap, ap₂, ◌∙◌, Option, none, some, Bool, true, false, ◌&&◌, List,
  [], ◌∷◌, map, keep, inl, inr, ltb, leb, Bool-cases, Option-cases, arith,
}
use metron.Prelude.Int.{ℤ, pos, ◌+ℤ◌, ◌-ℤ◌, sum, int_laws, +ℤ_zero, zero_+ℤ}
use metron.Prelude.Result.{Result, ok}
use metron.Prelude.Float.{Float}
use metron.Prelude.Day.{Day}
use metron.Prelude.Sort.{IsSorted, sorted, sorted-IsSorted, sum-sorted}
use metron.Ledger.Reports.{CashFlow}
use metron.Account.Events.{AccountEvent, account_external_flow}
use metron.Account.Wealth.{WealthObservation, observed, wealth}
use metron.Account.Period.{
  PeriodPnL, in_window, is_reconciled, external_of, net_pnl, decompose_period,
}
use metron.Account.Gate.{net_pnl_lem}
use metron.Account.Series.{
  AccountPerformance, SeriesWhy, SeriesError, obs_day, event_day, last_of, first_broken, unless,
  or_zero, growth, periods_of, measure, perform, account_performance,
}

some_why_ne : {w : SeriesWhy} → some w ≡ none → ⊥
some_why_ne h = cc

abbrev pub ok_perf : AccountPerformance → Result SeriesError AccountPerformance
ok_perf a = ok a

pub same_perf : (a b : AccountPerformance) → ok_perf a ≡ ok_perf b → a ≡ b
same_perf a b h = cc

-- Windows that meet share no event.
abbrev pub flow_between : Day → Day → List AccountEvent → ℤ
flow_between a b es = external_of (keep (in_window a b) es)

flow_if : Bool → ℤ → ℤ
flow_if true x = x
flow_if false x = pos 0

keep-cons :
    (a b : Day) (e : AccountEvent) (es : List AccountEvent)
    → flow_between a b (e ∷ es)
      ≡ flow_if (in_window a b e) (account_external_flow e) +ℤ flow_between a b es
unfolding flow_if
keep-cons a b e es = elim (Bool-cases (in_window a b e)) [
  | inl h ↦ rw h
  | inr h ↦ rw h (omega int_laws)
]

window_split :
    (a b c t : ℕ) (x : ℤ)
    → a ≤ b
    → b ≤ c
    → flow_if (ltb a t && leb t b) x +ℤ flow_if (ltb b t && leb t c) x
      ≡ flow_if (ltb a t && leb t c) x
unfolding flow_if
window_split a b c t x h k = elim (Bool-cases (leb t b)) [
  | inl e ↦
      let after : ltb b t ≡ false = ground arith in
      let before : leb t c ≡ true = ground arith in rw (e, after, before) (+ℤ_zero _)
  | inr e ↦
      let later : ltb b t ≡ true = ground arith in
      let after : ltb a t ≡ true = ground arith in rw (e, later, after) (zero_+ℤ _)
]

add_pairs : (a b c d : ℤ) → a +ℤ b +ℤ (c +ℤ d) ≡ a +ℤ c +ℤ (b +ℤ d)
add_pairs a b c d = omega int_laws

flow_between_add :
    (a b c : Day) (es : List AccountEvent)
    → a ≤ b
    → b ≤ c
    → flow_between a b es +ℤ flow_between b c es ≡ flow_between a c es
flow_between_add a b c [] h k = omega int_laws
flow_between_add a b c (e ∷ es) h k =
    rw (keep-cons a b e es, keep-cons b c e es, keep-cons a c e es)
      (add_pairs (flow_if (in_window a b e) (account_external_flow e)) _ _ _
        ∙ ap₂ (λ (x y : ℤ). x +ℤ y) (window_split a b c e.when (account_external_flow e) h k)
            (flow_between_add a b c es h k))

module _ ⦃f : Float⦄ (evs : List AccountEvent) (tol qtol : ℤ) where
  abbrev wealth_of : WealthObservation → ℤ
  wealth_of o = observed (wealth o)

  net_of :
      (o p : WealthObservation)
      → is_reconciled (decompose_period o p evs tol qtol).status ≡ true
      → or_zero (net_pnl (decompose_period o p evs tol qtol))
        ≡ wealth_of p -ℤ wealth_of o -ℤ flow_between o.when p.when evs
  net_of o p h = rw (net_pnl_lem o p evs tol qtol, h)

  telescope : (a b c x y z : ℤ) → x +ℤ y ≡ z → b -ℤ a -ℤ x +ℤ (c -ℤ b -ℤ y) ≡ c -ℤ a -ℤ z
  telescope a b c x y z h = rw (← h) (omega int_laws)

  last-after :
      (o : WealthObservation) (ps : List WealthObservation)
      → IsSorted obs_day (o ∷ ps)
      → o.when ≤ (last_of o ps).when
  last-after o [] h = omega arith
  last-after o (p ∷ ps) h = let first = h.0.0 in omega (arith, last-after p ps h.1)

  flow_between_none : (a : Day) (es : List AccountEvent) → flow_between a a es ≡ pos 0
  unfolding flow_if
  flow_between_none a [] = refl
  flow_between_none a (e ∷ es) =
      rw (keep-cons a a e es, flow_between_none a es, empty_window) (omega int_laws)
    where
      empty_window : in_window a a e ≡ false
      empty_window = ground arith

  net_pnl-sum :
      (o : WealthObservation) (ps : List WealthObservation)
      → IsSorted obs_day (o ∷ ps)
      → first_broken (periods_of evs tol qtol o ps) ≡ none
      → sum (map (λ q. or_zero (net_pnl q)) (periods_of evs tol qtol o ps))
        ≡ wealth_of (last_of o ps) -ℤ wealth_of o -ℤ flow_between o.when (last_of o ps).when evs
  net_pnl-sum o [] h k = rw (flow_between_none o.when evs) (omega int_laws)
  net_pnl-sum o (p ∷ ps) h k =
      elim (Bool-cases (is_reconciled (decompose_period o p evs tol qtol).status)) [
        | inl e ↦
            rw (net_of o p e, net_pnl-sum p ps h.1 (rw e at k))
              (telescope (wealth_of o) (wealth_of p) (wealth_of (last_of p ps)) _ _ _ (
                flow_between_add o.when p.when (last_of p ps).when evs h.0.0 (last-after p ps h.1)))
        | inr e ↦ absurd (some_why_ne (rw e at k))
      ]

  growth-unbroken : (ps : List PeriodPnL) → (growth ps).0 ≡ none → first_broken ps ≡ none
  growth-unbroken ps h = elim (Option-cases (first_broken ps)) [
    | inl e ↦ e
    | inr (w, e) ↦ absurd (some_why_ne (rw (growth, e) at h))
  ]

  value_given :
      (why : Option SeriesWhy) (x v : ℤ) → unless why (some x) ≡ some v → (why ≡ none) × (x ≡ v)
  value_given none x v h = (refl, ground arith)
  value_given (some w) x v h = absurd (cc)

  module _ (xirr : List CashFlow → Option ℤ) where
    perform-net_pnl :
        (o : WealthObservation) (ps : List WealthObservation) (perf : AccountPerformance) (v : ℤ)
        → IsSorted obs_day (o ∷ ps)
        → perform xirr evs tol qtol (o ∷ ps) ≡ ok perf
        → perf.metrics.net_pnl.value ≡ some v
        → v ≡ wealth_of (last_of o ps) -ℤ wealth_of o -ℤ flow_between o.when (last_of o ps).when evs
    perform-net_pnl o [] perf v h k e = absurd (cc)
    perform-net_pnl o (p ∷ ps) perf v h k e =
        let m : measure xirr evs tol qtol o p ps ≡ perf = same_perf _ perf k in
        let given =
          value_given _ _ v
            (subst (λ (r : AccountPerformance). r.metrics.net_pnl.value ≡ some v) (sym m) e) in
        sym given.1
        ∙ net_pnl-sum o (p ∷ ps) h (growth-unbroken (periods_of evs tol qtol o (p ∷ ps)) given.0)

-- Sorting the events does not change what flows in a window.
flow_between-sum :
    (a b : Day) (es : List AccountEvent)
    → flow_between a b es ≡ sum (map (λ e. flow_if (in_window a b e) (account_external_flow e)) es)
flow_between-sum a b [] = refl
flow_between-sum a b (e ∷ es) = rw (keep-cons a b e es, flow_between-sum a b es)

flow_between-sorted :
    (a b : Day) (es : List AccountEvent)
    → flow_between a b (sorted event_day es) ≡ flow_between a b es
flow_between-sorted a b es =
    flow_between-sum a b (sorted event_day es)
    ∙ sum-sorted event_day (λ e. flow_if (in_window a b e) (account_external_flow e)) es
    ∙ sym (flow_between-sum a b es)

module _ ⦃f : Float⦄ (xirr : List CashFlow → Option ℤ) where
  -- Where `account_performance` reports a net P&L, it is the wealth of the last observation less
  -- that of the first and less the external capital of the events after the first and up to the
  -- last, in whatever order observations and events are given.
  pub account_performance-net_pnl :
      (observations : List WealthObservation) (events : List AccountEvent) (tol qtol : ℤ)
      (o : WealthObservation) (ps : List WealthObservation) (perf : AccountPerformance) (v : ℤ)
      → sorted obs_day observations ≡ o ∷ ps
      → account_performance xirr observations events tol qtol ≡ ok perf
      → perf.metrics.net_pnl.value ≡ some v
      → v
        ≡ observed (wealth (last_of o ps))
          -ℤ observed (wealth o)
          -ℤ flow_between o.when (last_of o ps).when events
  unfolding account_performance
  account_performance-net_pnl observations events tol qtol o ps perf v first k e =
      perform-net_pnl (sorted event_day events) tol qtol xirr o ps perf v
        (subst (λ l. IsSorted obs_day l) first (sorted-IsSorted obs_day observations))
        (rw first at k) e
      ∙ ap (λ (x : ℤ). observed (wealth (last_of o ps)) -ℤ observed (wealth o) -ℤ x)
          (flow_between-sorted o.when (last_of o ps).when events)
