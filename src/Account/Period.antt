-- ===== src/Account/Period.antt =====
-- `decompose_period` of portfolio_analytics/domain/account_performance.py: one period's P&L, gated on
-- the wealth identity and on the positions. The texts of the reasons are values of `Why`.
use metron.Prelude.{
  Option, none, some, Bool, true, false, ◌&&◌, List, [], ◌∷◌, map, keep, String, ltb, leb,
  if◌then◌else◌,
}
use metron.Prelude.Int.{ℤ, pos, ◌+ℤ◌, ◌-ℤ◌, leb_ℤ, abs_ℤ, sum}
use metron.Prelude.Float.{Float}
use metron.Prelude.Dict.{Dict}
use metron.Prelude.Day.{Day}
use metron.Account.Events.{EventKind, AccountEvent, account_external_flow}
use metron.Account.Positions.{unexplained_position_changes}
use metron.Account.Wealth.{Component, WealthObservation, missing, observed, wealth}
use text.Mathlib.Text.{◌==◌ as str_eq}

pub data Status : Type 0 where
  reconciled unreconciled unavailable : Status

pub data Why : Type 0 where
  not_observed : List Component → Day → Why
  positions_not_observed : Day → Why
  source_switches : Option String → Option String → Why
  position_change : Dict ℤ → Why
  residual_exceeds : ℤ → ℤ → Why

pub record PeriodPnL : Type 0 where
  pub start : Day
  pub end : Day
  pub wealth_start : Option ℤ
  pub wealth_end : Option ℤ
  pub external : ℤ
  pub price_pnl : Option ℤ
  pub income : Option ℤ
  pub corporate_action_cash : ℤ
  pub explicit_costs : Option ℤ
  pub fx_translation : ℤ
  pub residual : Option ℤ
  pub status : Status
  pub unavailable_reason : Option Why

abbrev pub is_reconciled : Status → Bool
is_reconciled Status.reconciled = true
is_reconciled _ = false

-- `PeriodPnL.net_pnl`
unfoldable pub net_pnl : PeriodPnL → Option ℤ
net_pnl p =
    if is_reconciled p.status
    then some (observed p.wealth_end -ℤ observed p.wealth_start -ℤ p.external)
    else none

-- `PeriodPnL.gross_pnl`
unfoldable pub gross_pnl : PeriodPnL → Option ℤ
gross_pnl p = elim (net_pnl p) [
  | none ↦ none
  | some net ↦ elim p.explicit_costs [ none ↦ none | some costs ↦ some (net +ℤ costs) ]
]

-- `_unavailable`
abbrev pub unavailable_period : WealthObservation → WealthObservation → ℤ → Why → PeriodPnL
unavailable_period start end external why = record {
  start = start.when;
  end = end.when;
  wealth_start = wealth start;
  wealth_end = wealth end;
  external = external;
  price_pnl = none;
  income = none;
  corporate_action_cash = pos 0;
  explicit_costs = none;
  fx_translation = pos 0;
  residual = none;
  status = Status.unavailable;
  unavailable_reason = some why;
}

abbrev pub same_source : Option String → Option String → Bool
same_source none none = true
same_source (some s) (some t) = str_eq s t
same_source _ _ = false

abbrev pub not_seen : WealthObservation → Option Why
not_seen o = elim (missing o) [
  | c ∷ cs ↦ some (not_observed (c ∷ cs) o.when)
  | [] ↦ elim o.positions [ none ↦ some (positions_not_observed o.when) | some held ↦ none ]
]

abbrev pub source_switch : WealthObservation → WealthObservation → Option Why
source_switch start end =
    if same_source start.cash_source end.cash_source
    then none
    else some (source_switches start.cash_source end.cash_source)

abbrev pub or_else : Option Why → Option Why → Option Why
or_else none why = why
or_else (some why) _ = some why

-- The early returns: what makes a period unavailable, the first reason that is found.
abbrev pub blocked : WealthObservation → WealthObservation → Option Why
blocked start end = or_else (not_seen start) (or_else (not_seen end) (source_switch start end))

abbrev pub in_window : Day → Day → AccountEvent → Bool
in_window after upto e = ltb after e.when && leb e.when upto

abbrev pub is_trade : EventKind → Bool
is_trade EventKind.buy = true
is_trade EventKind.sell = true
is_trade _ = false

abbrev pub is_income : EventKind → Bool
is_income EventKind.dividend = true
is_income EventKind.interest = true
is_income _ = false

abbrev pub is_cost : EventKind → Bool
is_cost EventKind.fee = true
is_cost EventKind.financing = true
is_cost _ = false

abbrev pub is_buy : EventKind → Bool
is_buy EventKind.buy = true
is_buy _ = false

abbrev pub is_sell : EventKind → Bool
is_sell EventKind.sell = true
is_sell _ = false

abbrev pub is_transfer_in : EventKind → Bool
is_transfer_in EventKind.transfer_in = true
is_transfer_in _ = false

abbrev pub is_transfer_out : EventKind → Bool
is_transfer_out EventKind.transfer_out = true
is_transfer_out _ = false

abbrev pub is_corporate : EventKind → Bool
is_corporate EventKind.corporate_action_cash = true
is_corporate _ = false

abbrev pub is_fx : EventKind → Bool
is_fx EventKind.fx_translation = true
is_fx _ = false

-- `total(*kinds)`
abbrev pub total : (EventKind → Bool) → List AccountEvent → ℤ
total p evs = sum (map (λ e. e.amount) (keep (λ e. p e.kind) evs))

abbrev pub commissions : List AccountEvent → ℤ
commissions evs = sum (map (λ e. e.fees) (keep (λ e. is_trade e.kind) evs))

abbrev pub external_of : List AccountEvent → ℤ
external_of evs = sum (map account_external_flow evs)

abbrev pub positions_of : WealthObservation → Dict ℤ
positions_of o = elim o.positions [ none ↦ [] | some held ↦ held ]

abbrev pub price_pnl_of : WealthObservation → WealthObservation → List AccountEvent → ℤ
price_pnl_of start end evs =
    end.holdings_mv
    -ℤ start.holdings_mv
    -ℤ total is_buy evs
    +ℤ total is_sell evs
    -ℤ total is_transfer_in evs
    +ℤ total is_transfer_out evs
    -ℤ total is_fx evs

abbrev pub income_of : WealthObservation → WealthObservation → List AccountEvent → ℤ
income_of start end evs =
    total is_income evs +ℤ observed end.accrued_income -ℤ observed start.accrued_income

abbrev pub costs_of : WealthObservation → WealthObservation → List AccountEvent → ℤ
costs_of start end evs =
    commissions evs
    +ℤ total is_cost evs
    +ℤ observed end.financing_debit
    -ℤ observed start.financing_debit

-- The part of the change of wealth that neither external capital nor the classified P&L explains,
-- before it is rounded.
abbrev pub raw_residual : WealthObservation → WealthObservation → List AccountEvent → ℤ
raw_residual start end evs =
    observed (wealth end)
    -ℤ observed (wealth start)
    -ℤ external_of evs
    -ℤ (price_pnl_of start end evs
        +ℤ income_of start end evs
        +ℤ total is_corporate evs
        -ℤ costs_of start end evs
        +ℤ total is_fx evs)

abbrev pub is_empty : Dict ℤ → Bool
is_empty [] = true
is_empty (e ∷ d) = false

abbrev pub why_not : ℤ → ℤ → Dict ℤ → Bool → Option Why
why_not residual tolerance (e ∷ jumps) ok = some (position_change (e ∷ jumps))
why_not residual tolerance [] true = none
why_not residual tolerance [] false = some (residual_exceeds residual tolerance)

unfoldable pub decompose_period :
    ⦃f : Float⦄ → WealthObservation → WealthObservation → List AccountEvent → ℤ → ℤ → PeriodPnL
decompose_period ⦃f⦄ start end events tolerance quantity_tolerance =
    let evs = keep (in_window start.when end.when) events in
    elim (blocked start end) [
      | some why ↦ unavailable_period start end (external_of evs) why
      | none ↦
          let residual = f.round 10 (raw_residual start end evs) in
          let jumps =
            unexplained_position_changes (positions_of start) (positions_of end) evs
              quantity_tolerance in
          let good = leb_ℤ (abs_ℤ residual) tolerance && is_empty jumps in
          record {
            start = start.when;
            end = end.when;
            wealth_start = wealth start;
            wealth_end = wealth end;
            external = external_of evs;
            price_pnl = some (price_pnl_of start end evs);
            income = some (income_of start end evs);
            corporate_action_cash = total is_corporate evs;
            explicit_costs = some (costs_of start end evs);
            fx_translation = total is_fx evs;
            residual = some residual;
            status = if good then Status.reconciled else Status.unreconciled;
            unavailable_reason = why_not residual tolerance jumps good;
          }
    ]
