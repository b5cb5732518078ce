-- ===== src/Account/Tests.antt =====
-- A small account, run through the engine, and the theorems at it.
use metron.Prelude.{
  true, false, ℕ, ◌≡◌, refl, ◌↔◌, String, Option, none, some, List, [], ◌∷◌, map, if◌then◌else◌,
  arith,
}
use metron.Prelude.Int.{ℤ, pos, ◌+ℤ◌, ◌-ℤ◌, ◌*ℤ◌, ◌≤ℤ◌, sum, ltb_ℤ, abs_ℤ}
use metron.Prelude.Result.{ok, Ensures}
use metron.Prelude.Units.{whole_units}
use metron.Prelude.Dict.{Dict, lookup}
use metron.Prelude.Texts.{union_keys}
use metron.Prelude.Day.{Day}
use metron.Prelude.Sort.{sorted, insert_sorted}
use metron.Ledger.Reports.{CashFlow}
use metron.Account.Events.{EventKind, AccountEvent}
use metron.Account.Positions.{
  unexplained_position_changes, gap, lookup-unexplained_position_changes,
}
use metron.Account.Wealth.{WealthObservation, wealth, observed, summed, combine_observations}
use metron.Account.Rollup.{combine_observations-wealth}
use metron.Account.Period.{
  PeriodPnL, position_change, Status, is_reconciled, blocked, decompose_period, net_pnl,
}
use metron.Account.Identity.{cash_in, events_in, residual-cash_in}
use metron.Account.Gate.{PositionsExplained, residual, reconciled_iff}
use metron.Account.Series.{AccountPerformance, broken_period, account_performance, measure, link}
use metron.Account.Linked.{account_performance-net_pnl, flow_between}
use metron.Account.Reasons.{
  AreExplained, AllMissing, figures, account_performance-AreExplained,
  account_performance-AllMissing,
}

abbrev shares : String → ℕ → Dict ℤ
shares s n = (s, pos n) ∷ []

abbrev seen : Day → ℕ → ℕ → ℕ → WealthObservation
seen when mv cash held = record {
  when = when;
  holdings_mv = pos mv;
  cash = some (pos cash);
  cash_source = some "custodian";
  accrued_income = some (pos 0);
  financing_debit = some (pos 0);
  positions = some (shares "VTI" held);
}

abbrev event : Day → EventKind → ℕ → ℕ → ℕ → AccountEvent
event when kind amount fees quantity = record {
  when = when;
  kind = kind;
  amount = pos amount;
  fees = pos fees;
  symbol = "VTI";
  quantity = pos quantity;
}

abbrev monday : WealthObservation
monday = seen 100 500 100 10

abbrev tuesday : WealthObservation
tuesday = seen 101 660 99 12

abbrev wednesday : WealthObservation
wednesday = seen 102 700 99 12

abbrev events : List AccountEvent
events = event 101 EventKind.buy 100 1 2 ∷ event 101 EventKind.deposit 100 0 0 ∷ []

xirr : List CashFlow → Option ℤ
xirr flows = some (pos 7)

first_day : (decompose_period monday tuesday events (pos 0) (pos 0)).status ≡ Status.reconciled
unfolding decompose_period wealth unexplained_position_changes union_keys ◌+ℤ◌ ◌-ℤ◌ ◌*ℤ◌
first_day = refl

residual-cash_in_example :
    (decompose_period monday tuesday events (pos 0) (pos 0)).residual
    ≡ some (
        observed tuesday.cash
        -ℤ observed monday.cash
        -ℤ sum (map cash_in (events_in monday tuesday events)))
residual-cash_in_example = residual-cash_in monday tuesday events (pos 0) (pos 0) refl

reconciled_iff_example :
    ((decompose_period monday tuesday events (pos 0) (pos 0)).status ≡ Status.reconciled) ↔ (
      (blocked monday tuesday ≡ none)
      × (abs_ℤ (residual monday tuesday events (pos 0) (pos 0)) ≤ℤ pos 0)
      × PositionsExplained monday tuesday events (pos 0) (pos 0))
reconciled_iff_example = reconciled_iff monday tuesday events (pos 0) (pos 0) (omega arith)

lookup-unexplained_position_changes_example :
    lookup "VTI" (unexplained_position_changes (shares "VTI" 10) (shares "VTI" 15) events (pos 0))
    ≡ (if ltb_ℤ (pos 0) (abs_ℤ (gap (shares "VTI" 10) (shares "VTI" 15) events "VTI"))
        then some (gap (shares "VTI" 10) (shares "VTI" 15) events "VTI")
        else none)
lookup-unexplained_position_changes_example =
    lookup-unexplained_position_changes (shares "VTI" 10) (shares "VTI" 15) events (pos 0) "VTI"
      (omega arith)

combine_observations-wealth_example :
    Ensures
      (λ o. wealth o ≡ summed (map wealth (monday ∷ seen 100 20 30 1 ∷ [])))
      (combine_observations (monday ∷ seen 100 20 30 1 ∷ []))
combine_observations-wealth_example = combine_observations-wealth (monday ∷ seen 100 20 30 1 ∷ [])

abbrev week : List WealthObservation
week = wednesday ∷ monday ∷ tuesday ∷ []

abbrev week_result : AccountPerformance
week_result = measure xirr events (pos 0) (pos 0) monday tuesday (wednesday ∷ [])

week_runs : account_performance xirr week events (pos 0) (pos 0) ≡ ok week_result
unfolding account_performance sorted insert_sorted
week_runs = refl

week_net : week_result.metrics.net_pnl.value ≡ some (pos 99)
unfolding link decompose_period net_pnl wealth unexplained_position_changes union_keys ◌+ℤ◌ ◌-ℤ◌
    ◌*ℤ◌
week_net = refl

account_performance-net_pnl_example :
    pos 99 ≡ observed (wealth wednesday) -ℤ observed (wealth monday) -ℤ flow_between 100 102 events
unfolding sorted insert_sorted
account_performance-net_pnl_example =
    account_performance-net_pnl xirr week events (pos 0) (pos 0) monday (tuesday ∷ wednesday ∷ [])
      week_result (pos 99) refl week_runs week_net

account_performance-AreExplained_example :
    Ensures
      (λ r. AreExplained (figures xirr r))
      (account_performance xirr week events (pos 0) (pos 0))
account_performance-AreExplained_example =
    account_performance-AreExplained xirr week events (pos 0) (pos 0)

-- Ten more shares arrive on Wednesday, and no event says why.
abbrev late_transfer : WealthObservation
late_transfer = seen 102 1200 99 22

abbrev odd_week : List WealthObservation
odd_week = monday ∷ tuesday ∷ late_transfer ∷ []

abbrev odd_result : AccountPerformance
odd_result = measure xirr events (pos 0) (pos 0) monday tuesday (late_transfer ∷ [])

odd_runs : account_performance xirr odd_week events (pos 0) (pos 0) ≡ ok odd_result
unfolding account_performance sorted insert_sorted
odd_runs = refl

abbrev calm_period : PeriodPnL
calm_period = decompose_period monday tuesday events (pos 0) (pos 0)

abbrev odd_period : PeriodPnL
odd_period = decompose_period tuesday late_transfer events (pos 0) (pos 0)

calm_reconciled : is_reconciled calm_period.status ≡ true
unfolding decompose_period wealth unexplained_position_changes union_keys ◌+ℤ◌ ◌-ℤ◌ ◌*ℤ◌
calm_reconciled = refl

odd_broken : is_reconciled odd_period.status ≡ false
unfolding decompose_period wealth unexplained_position_changes union_keys ◌+ℤ◌ ◌-ℤ◌ ◌*ℤ◌
odd_broken = refl

odd_reason : odd_period.unavailable_reason ≡ some (position_change (shares "VTI" 10))
unfolding decompose_period wealth unexplained_position_changes union_keys ◌+ℤ◌ ◌-ℤ◌ ◌*ℤ◌
odd_reason = refl

account_performance-AllMissing_example :
    AllMissing
      (broken_period odd_period.start odd_period.end odd_period.unavailable_reason)
      odd_result.metrics
account_performance-AllMissing_example =
    account_performance-AllMissing xirr odd_week events (pos 0) (pos 0) odd_result
      (calm_period ∷ []) odd_period [] odd_runs refl (calm_reconciled, tt) odd_broken
