-- ===== src/Tranches/Activity.antt =====
-- An activity row of portfolio_analytics/broker_io/transactions.py and the transaction it maps to
-- (`_to_transaction` and what it calls). A row is the object of a broker's answer; its fields hold what
-- the mapping tells apart. `str.upper` with `str.strip`, `datetime.fromisoformat` and `float` on a text are
-- the interpreter's: a `Reader`.
use metron.Prelude.{
  String, Bool, true, false, Option, none, some, List, [], ◌∷◌, map, if◌then◌else◌,
}
use metron.Prelude.Int.{ℤ, pos, abs_ℤ}
use metron.Prelude.Day.{Day}
use metron.Prelude.Dict.{Dict, lookup}
use metron.Ledger.Records.{TxnType, Transaction}

pub record Reader : Type 0 where
  -- `text.upper().strip()`
  pub upper_strip : String → String
  -- `datetime.fromisoformat(text.replace("Z", "+00:00")).date()`, none where it raises
  pub from_iso : String → Option Day
  -- `float(text)`, none where it raises
  pub to_float : String → Option ℤ

-- A value where a number is expected; `unusable` is one that `float` raises `TypeError` for.
pub data RawNumber : Type 0 where
  missing unusable : RawNumber
  number : ℤ → RawNumber
  words : String → RawNumber

-- A value where a date is expected: `None`, a text, or a `date`.
pub data RawDate : Type 0 where
  no_date : RawDate
  words : String → RawDate
  day : Day → RawDate

-- `symbol.symbol`: a text, an object that may have a text under `symbol`, or neither.
pub data Inner : Type 0 where
  no_inner : Inner
  ticker : String → Inner
  nested : Option String → Inner

-- A `symbol` object, with the code of its `currency` object.
pub record Symbol : Type 0 where
  pub symbol : Inner
  pub currency_code : Option String

pub record Activity : Type 0 where
  pub type : String
  pub symbol : Option Symbol
  pub currency_code : Option String
  pub trade_date : RawDate
  pub settlement_date : RawDate
  pub units : RawNumber
  pub price : RawNumber
  pub amount : RawNumber
  pub fee : RawNumber
  pub account_number : Option String

abbrev pub type_map : Dict TxnType
type_map =
    ("BUY", TxnType.buy)
    ∷ ("REINVESTMENT", TxnType.reinvestment)
    ∷ ("SELL", TxnType.sell)
    ∷ ("DIVIDEND", TxnType.dividend)
    ∷ ("CONTRIBUTION", TxnType.deposit)
    ∷ ("DEPOSIT", TxnType.deposit)
    ∷ ("WITHDRAWAL", TxnType.withdrawal)
    ∷ ("FEE", TxnType.fee)
    ∷ []

abbrev pub or_else {ℓ} : {A : Type ℓ} → A → Option A → A
or_else x none = x
or_else x (some y) = y

-- `not text`
abbrev pub is_empty : String → Bool
is_empty String.[] = true
is_empty (String.◌∷◌ c s) = false

abbrev pub extract_ticker : Activity → String
extract_ticker a = elim (a.symbol) [
  | none ↦ ""
  | some s ↦ elim (s.symbol) [ no_inner ↦ "" | ticker t ↦ t | nested t ↦ or_else "" t ]
]

-- `code`, where it is there and not empty
abbrev code_or : String → Option String → String
code_or x none = x
code_or x (some code) = if is_empty code then x else code

abbrev pub extract_currency : Activity → String
extract_currency a =
    let own = code_or "USD" a.currency_code in
    elim (a.symbol) [ none ↦ own | some s ↦ code_or own s.currency_code ]

-- The items that are not `None`.
abbrev pub present {ℓ} : {A : Type ℓ} → List (Option A) → List A
present [] = []
present (none ∷ os) = present os
present (some x ∷ os) = x ∷ present os

module _ (r : Reader) where
  -- `_f`
  abbrev pub as_float : RawNumber → ℤ
  as_float RawNumber.missing = pos 0
  as_float RawNumber.unusable = pos 0
  as_float (RawNumber.number x) = x
  as_float (RawNumber.words s) = if is_empty s then pos 0 else or_else (pos 0) (r.to_float s)

  abbrev pub parse_date : RawDate → Option Day
  parse_date RawDate.no_date = none
  parse_date (RawDate.words s) = r.from_iso s
  parse_date (RawDate.day d) = some d

  -- `a or b`
  abbrev pub first_date : RawDate → RawDate → RawDate
  first_date RawDate.no_date b = b
  first_date (RawDate.words s) b = if is_empty s then b else RawDate.words s
  first_date (RawDate.day d) b = RawDate.day d

  abbrev transaction_of : Activity → TxnType → Day → Transaction
  transaction_of a type when = record {
    when = when;
    type = type;
    ticker = extract_ticker a;
    quantity = abs_ℤ (as_float a.units);
    price = as_float a.price;
    amount = abs_ℤ (as_float a.amount);
    fees = abs_ℤ (as_float a.fee);
    currency = extract_currency a;
  }

  -- `_to_transaction`
  unfoldable pub to_transaction : Activity → Option Transaction
  to_transaction a = elim (lookup (r.upper_strip a.type) type_map) [
    | none ↦ none
    | some type ↦ elim (parse_date (first_date a.trade_date a.settlement_date)) [
      | none ↦ none
      | some when ↦ some (transaction_of a type when)
    ]
  ]

  abbrev pub activities_to_transactions_aligned : List Activity → List (Option Transaction)
  activities_to_transactions_aligned rows = map to_transaction rows

  abbrev pub activities_to_transactions : List Activity → List Transaction
  activities_to_transactions rows = present (map to_transaction rows)
