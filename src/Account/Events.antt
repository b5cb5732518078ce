-- ===== src/Account/Events.antt =====
-- The events of an account and the flow classifier of
-- portfolio_analytics/domain/account_performance.py.
use metron.Prelude.{String, Option, none, some, Bool, true, false, if◌then◌else◌}
use metron.Prelude.Int.{ℤ, pos, ltb_ℤ, neg_ℤ}
use metron.Prelude.Float.{Float, ◌⊛◌}
use metron.Prelude.Day.{Day}
use metron.Ledger.Records.{TxnType, Transaction}

pub data EventKind : Type 0 where
  deposit withdrawal transfer_in transfer_out buy sell dividend interest fee : EventKind
  financing corporate_action_cash fx_translation split : EventKind

-- `kind in EXTERNAL_KINDS`
abbrev pub is_external : EventKind → Bool
is_external EventKind.deposit = true
is_external EventKind.withdrawal = true
is_external EventKind.transfer_in = true
is_external EventKind.transfer_out = true
is_external _ = false

pub record AccountEvent : Type 0 where
  pub when : Day
  pub kind : EventKind
  pub amount : ℤ
  pub fees : ℤ
  pub symbol : String
  pub quantity : ℤ

-- `_TXN_KIND`
abbrev pub kind_of : TxnType → EventKind
kind_of TxnType.buy = EventKind.buy
kind_of TxnType.reinvestment = EventKind.buy
kind_of TxnType.sell = EventKind.sell
kind_of TxnType.dividend = EventKind.dividend
kind_of TxnType.interest = EventKind.interest
kind_of TxnType.deposit = EventKind.deposit
kind_of TxnType.withdrawal = EventKind.withdrawal
kind_of TxnType.fee = EventKind.fee
kind_of TxnType.split = EventKind.split
kind_of TxnType.transfer_in = EventKind.transfer_in
kind_of TxnType.transfer_out = EventKind.transfer_out

abbrev event : Transaction → ℤ → ℤ → ℤ → AccountEvent
event t amount fees quantity = record {
  when = t.when;
  kind = kind_of t.type;
  amount = amount;
  fees = fees;
  symbol = t.ticker;
  quantity = quantity;
}

-- A transfer that its source did not value carries no amount and no quantity.
abbrev transfer_event : Transaction → AccountEvent
transfer_event t =
    if ltb_ℤ (pos 0) t.amount
    then event t t.amount t.fees t.quantity
    else event t (pos 0) t.fees (pos 0)

unfoldable pub from_transaction : ⦃f : Float⦄ → Transaction → AccountEvent
from_transaction t = elim (kind_of t.type) [
  | EventKind.buy ↦ event t (t.quantity ⊛ t.price) t.fees t.quantity
  | EventKind.sell ↦ event t (t.quantity ⊛ t.price) t.fees t.quantity
  | EventKind.split ↦ event t (pos 0) (pos 0) t.quantity
  | EventKind.transfer_in ↦ transfer_event t
  | EventKind.transfer_out ↦ transfer_event t
  | _ ↦ event t t.amount t.fees (pos 0)
]

-- Positive for capital that comes in.
abbrev pub account_external_flow : AccountEvent → ℤ
account_external_flow e = elim e.kind [
  | EventKind.deposit ↦ e.amount
  | EventKind.transfer_in ↦ e.amount
  | EventKind.withdrawal ↦ neg_ℤ e.amount
  | EventKind.transfer_out ↦ neg_ℤ e.amount
  | _ ↦ pos 0
]

-- `_POSITION_SIGN`
abbrev pub position_sign : ⦃f : Float⦄ → EventKind → Option ℤ
position_sign ⦃f⦄ EventKind.buy = some f.one
position_sign ⦃f⦄ EventKind.transfer_in = some f.one
position_sign ⦃f⦄ EventKind.sell = some (neg_ℤ f.one)
position_sign ⦃f⦄ EventKind.transfer_out = some (neg_ℤ f.one)
position_sign ⦃f⦄ _ = none
