-- ===== src/Store/Events.antt =====
-- The rows of activities and closed lots, as in `Rows` (portfolio_analytics/ingestion/store.py,
-- `_activity_row` to `_lot_obj`). A row's date, where the record needs one, is not null or blank.
use metron.Prelude.{ℕ, ◌≡◌, refl, Option, none, some, String, List, [], ◌∷◌, if◌then◌else◌}
use metron.Prelude.Int.{ℤ, pos}
use metron.Prelude.Day.{Day}
use metron.Ledger.Records.{TxnType, RealizedGain}
use metron.Store.Records.{CanonicalActivity, type_text}
use metron.Store.Rows.{Field, given, need, field_or, text_or, ◌>>=◌}
use text.Mathlib.Text.{◌==◌}

pub record ActivityRow : Type 0 where
  pub account_number : Option String
  pub when : Field Day
  pub type : Option String
  pub security_id : Option String
  pub quantity : Field ℤ
  pub price : Field ℤ
  pub amount : Field ℤ
  pub fees : Field ℤ
  pub currency : Option String
  pub as_of : Field (Option ℕ)
  pub source : Option String

unfoldable pub activity_row : CanonicalActivity → ActivityRow
activity_row a = record {
  account_number = some a.account_number;
  when = given a.when;
  type = some (type_text a.type);
  security_id = some a.security_id;
  quantity = given a.quantity;
  price = given a.price;
  amount = given a.amount;
  fees = given a.fees;
  currency = some a.currency;
  as_of = given a.as_of;
  source = some a.source;
}

abbrev all_types : List TxnType
all_types =
    TxnType.buy ∷ TxnType.reinvestment ∷ TxnType.sell ∷ TxnType.dividend ∷ TxnType.interest
    ∷ TxnType.deposit ∷ TxnType.withdrawal ∷ TxnType.fee ∷ TxnType.split ∷ TxnType.transfer_in
    ∷ TxnType.transfer_out ∷ []

abbrev with_text : String → List TxnType → Option TxnType
with_text s [] = none
with_text s (t ∷ ts) = if type_text t == s then some t else with_text s ts

-- `TxnType(s)`, the member with this value
unfoldable pub type_of : String → Option TxnType
type_of s = with_text s all_types

pub type_of-type_text : (t : TxnType) → type_of (type_text t) ≡ some t
unfolding type_of
type_of-type_text TxnType.buy = refl
type_of-type_text TxnType.reinvestment = refl
type_of-type_text TxnType.sell = refl
type_of-type_text TxnType.dividend = refl
type_of-type_text TxnType.interest = refl
type_of-type_text TxnType.deposit = refl
type_of-type_text TxnType.withdrawal = refl
type_of-type_text TxnType.fee = refl
type_of-type_text TxnType.split = refl
type_of-type_text TxnType.transfer_in = refl
type_of-type_text TxnType.transfer_out = refl

unfoldable pub activity_obj : ActivityRow → Option CanonicalActivity
activity_obj r = do
  account_number ← r.account_number
  when ← need r.when
  type_name ← r.type
  type ← type_of type_name
  quantity ← field_or (pos 0) r.quantity
  price ← field_or (pos 0) r.price
  amount ← field_or (pos 0) r.amount
  fees ← field_or (pos 0) r.fees
  as_of ← field_or none r.as_of
  some (record {
    account_number = account_number;
    when = when;
    type = type;
    security_id = text_or "" r.security_id;
    quantity = quantity;
    price = price;
    amount = amount;
    fees = fees;
    currency = text_or "USD" r.currency;
    as_of = as_of;
    source = text_or "" r.source;
  })

pub record LotRow : Type 0 where
  pub account_number : Option String
  pub ticker : Option String
  pub open_date : Field Day
  pub close_date : Field Day
  pub quantity : Field ℤ
  pub proceeds : Field ℤ
  pub cost_basis : Field ℤ

unfoldable pub lot_row : String × RealizedGain → LotRow
lot_row (account_number, rg) = record {
  account_number = some account_number;
  ticker = some rg.ticker;
  open_date = given rg.open_date;
  close_date = given rg.close_date;
  quantity = given rg.quantity;
  proceeds = given rg.proceeds;
  cost_basis = given rg.cost_basis;
}

unfoldable pub lot_obj : LotRow → Option (String × RealizedGain)
lot_obj r = do
  ticker ← r.ticker
  open_date ← need r.open_date
  close_date ← need r.close_date
  quantity ← need r.quantity
  proceeds ← need r.proceeds
  cost_basis ← need r.cost_basis
  some (
    text_or "" r.account_number,
    record {
      ticker = ticker;
      open_date = open_date;
      close_date = close_date;
      quantity = quantity;
      proceeds = proceeds;
      cost_basis = cost_basis;
    },
  )
