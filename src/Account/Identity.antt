-- ===== src/Account/Identity.antt =====
-- What the residual of `decompose_period` measures
-- (portfolio_analytics/domain/account_performance.py).
use metron.Prelude.{
  ◌≡◌, refl, ap₂, ◌∙◌, Option, none, some, Bool, List, [], ◌∷◌, map, keep, if◌then◌else◌, inl, inr,
  Bool-cases, arith,
}
use metron.Prelude.Int.{ℤ, pos, ◌+ℤ◌, ◌-ℤ◌, neg_ℤ, sum, int_laws}
use metron.Prelude.Float.{Float}
use metron.Account.Events.{EventKind, AccountEvent, account_external_flow}
use metron.Account.Wealth.{WealthObservation, observed, wealth}
use metron.Account.Period.{
  Why, or_else, source_switch, blocked, not_seen, in_window, total, commissions, external_of,
  is_buy, is_sell, is_trade, is_transfer_in, is_transfer_out, is_corporate, is_fx, is_income,
  is_cost, raw_residual, decompose_period,
}

-- The cash that an event moves into the account.
abbrev pub cash_in : AccountEvent → ℤ
cash_in e = elim e.kind [
  | EventKind.deposit ↦ e.amount
  | EventKind.withdrawal ↦ neg_ℤ e.amount
  | EventKind.buy ↦ neg_ℤ (e.amount +ℤ e.fees)
  | EventKind.sell ↦ e.amount -ℤ e.fees
  | EventKind.dividend ↦ e.amount
  | EventKind.interest ↦ e.amount
  | EventKind.fee ↦ neg_ℤ e.amount
  | EventKind.financing ↦ neg_ℤ e.amount
  | EventKind.corporate_action_cash ↦ e.amount
  | _ ↦ pos 0
]

abbrev amount_if : (EventKind → Bool) → AccountEvent → ℤ
amount_if p e = if p e.kind then e.amount else pos 0

abbrev fees_if_trade : AccountEvent → ℤ
fees_if_trade e = if is_trade e.kind then e.fees else pos 0

total-cons :
    (p : EventKind → Bool) (e : AccountEvent) (es : List AccountEvent)
    → total p (e ∷ es) ≡ amount_if p e +ℤ total p es
total-cons p e es = elim (Bool-cases (p e.kind)) [
  | inl h ↦ rw (amount_if, h)
  | inr h ↦ rw (amount_if, h) (omega int_laws)
]

commissions-cons :
    (e : AccountEvent) (es : List AccountEvent)
    → commissions (e ∷ es) ≡ fees_if_trade e +ℤ commissions es
commissions-cons e es = elim (Bool-cases (is_trade e.kind)) [
  | inl h ↦ rw h
  | inr h ↦ rw h (omega int_laws)
]

-- Trades at cost, transfers in kind out of the holdings, income and costs, over external capital.
abbrev balance : ℤ → ℤ → ℤ → ℤ → ℤ → ℤ → ℤ → ℤ → ℤ → ℤ
balance ext buys sells tin tout income corporate fees costs =
    ext -ℤ buys +ℤ sells -ℤ tin +ℤ tout +ℤ income +ℤ corporate -ℤ fees -ℤ costs

balance_add :
    (a a' b b' c c' d d' e e' g g' h h' i i' j j' : ℤ)
    → balance
        (a +ℤ a')
        (b +ℤ b')
        (c +ℤ c')
        (d +ℤ d')
        (e +ℤ e')
        (g +ℤ g')
        (h +ℤ h')
        (i +ℤ i')
        (j +ℤ j')
      ≡ balance a b c d e g h i j +ℤ balance a' b' c' d' e' g' h' i' j'
balance_add a a' b b' c c' d d' e e' g g' h h' i i' j j' = omega int_laws

abbrev event_balance : AccountEvent → ℤ
event_balance e =
    balance (account_external_flow e) (amount_if is_buy e) (amount_if is_sell e)
      (amount_if is_transfer_in e) (amount_if is_transfer_out e) (amount_if is_income e)
      (amount_if is_corporate e) (fees_if_trade e) (amount_if is_cost e)

abbrev events_balance : List AccountEvent → ℤ
events_balance es =
    balance (external_of es) (total is_buy es) (total is_sell es) (total is_transfer_in es)
      (total is_transfer_out es) (total is_income es) (total is_corporate es) (commissions es)
      (total is_cost es)

event_balance-cash_in :
    (e : AccountEvent) (k : EventKind) → e.kind ≡ k → event_balance e ≡ cash_in e
event_balance-cash_in e EventKind.deposit h =
    rw (h, account_external_flow, amount_if, cash_in) (omega int_laws)
event_balance-cash_in e _ h = rw (h, account_external_flow, amount_if, cash_in) (omega int_laws)

events_balance-cash_in : (es : List AccountEvent) → events_balance es ≡ sum (map cash_in es)
events_balance-cash_in [] = omega int_laws
events_balance-cash_in (e ∷ es) =
    rw
      (
        total-cons is_buy e es,
        total-cons is_sell e es,
        total-cons is_transfer_in e es,
        total-cons is_transfer_out e es,
        total-cons is_income e es,
        total-cons is_corporate e es,
        commissions-cons e es,
        total-cons is_cost e es,
      )
      (balance_add (account_external_flow e) _ _ _ _ _ _ _ _ _ _ _ _ _ _ _ _ _
        ∙ ap₂ (λ (a b : ℤ). a +ℤ b) (event_balance-cash_in e e.kind refl)
            (events_balance-cash_in es))

residual_algebra :
    (v v' c c' a a' d d' ext b s ti to inc ca comm cost fx : ℤ)
    → v'
        +ℤ c'
        +ℤ a'
        -ℤ d'
        -ℤ (v +ℤ c +ℤ a -ℤ d)
        -ℤ ext
        -ℤ (v'
            -ℤ v
            -ℤ b
            +ℤ s
            -ℤ ti
            +ℤ to
            -ℤ fx
            +ℤ (inc +ℤ a' -ℤ a)
            +ℤ ca
            -ℤ (comm +ℤ cost +ℤ d' -ℤ d)
            +ℤ fx)
      ≡ c' -ℤ c -ℤ balance ext b s ti to inc ca comm cost
residual_algebra v v' c c' a a' d d' ext b s ti to inc ca comm cost fx = omega int_laws

wealth_seen :
    (o : WealthObservation)
    → not_seen o ≡ none
    → observed (wealth o)
      ≡ o.holdings_mv +ℤ observed o.cash +ℤ observed o.accrued_income -ℤ observed o.financing_debit
unfolding wealth
wealth_seen o h = ground arith

or_else-none : (a b : Option Why) → or_else a b ≡ none → (a ≡ none) × (b ≡ none)
or_else-none none b h = (refl, h)
or_else-none (some w) b h = absurd (cc)

not_blocked :
    (start end : WealthObservation)
    → blocked start end ≡ none
    → (not_seen start ≡ none) × (not_seen end ≡ none)
not_blocked start end h =
    let (s, rest) = or_else-none (not_seen start) _ h in
    (s, (or_else-none (not_seen end) (source_switch start end) rest).0)

raw_residual-cash_in :
    (start end : WealthObservation) (evs : List AccountEvent)
    → blocked start end ≡ none
    → raw_residual start end evs ≡ observed end.cash -ℤ observed start.cash -ℤ sum (map cash_in evs)
raw_residual-cash_in start end evs h =
    let (s, e) = not_blocked start end h in
    rw (wealth_seen start s, wealth_seen end e, ← events_balance-cash_in evs)
      (residual_algebra start.holdings_mv end.holdings_mv (observed start.cash) (observed end.cash)
        (observed start.accrued_income) (observed end.accrued_income)
        (observed start.financing_debit) (observed end.financing_debit) (external_of evs)
        (total is_buy evs) (total is_sell evs) (total is_transfer_in evs)
        (total is_transfer_out evs) (total is_income evs) (total is_corporate evs) (commissions evs)
        (total is_cost evs) (total is_fx evs))

abbrev pub events_in : WealthObservation → WealthObservation → List AccountEvent → List AccountEvent
events_in start end events = keep (in_window start.when end.when) events

-- Where nothing makes the period unavailable, its residual is, up to the rounding, the change of
-- the cash that the events after the start and up to the end do not account for: holdings, accrued
-- income, financing debit, transfers in kind and currency translation cancel out of it.
pub residual-cash_in :
    ⦃f : Float⦄ (start end : WealthObservation) (events : List AccountEvent) (tol qtol : ℤ)
    → blocked start end ≡ none
    → (decompose_period start end events tol qtol).residual
      ≡ some (
          f.round 10 (
            observed end.cash
            -ℤ observed start.cash
            -ℤ sum (map cash_in (events_in start end events))))
unfolding decompose_period
residual-cash_in ⦃f⦄ start end events tol qtol h =
    rw (decompose_period, h, raw_residual-cash_in start end (events_in start end events) h)
