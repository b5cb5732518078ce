-- ===== src/Store/Rows.antt =====
-- The rows of the silver file and the records they stand for
-- (portfolio_analytics/ingestion/store.py, `_account_row` to `_lot_obj`). A row is a JSON object of
-- which a text field, if it is there, holds a text; a number or a date may also hold what does not
-- convert. Dates are read as what their ISO text says.
use metron.Prelude.{ℕ, Option, none, some, String}
use metron.Prelude.Int.{ℤ, pos}
use metron.Store.Records.{CanonicalAccount, CanonicalSecurity, CanonicalHolding}

-- A field of a row: missing, read by `float` or `fromisoformat` as a value, or refused by them.
pub data Field (A : Type 0) : Type 0 where
  missing : Field A
  given : A → Field A
  malformed : Field A

-- Which of `KeyError`, `ValueError` and `TypeError` a bad row raises does not show: each is caught
-- and the row is skipped. `none` is any of them.
infixl 5 ◌>>=◌
abbrev pub ◌>>=◌ : {A B : Type 0} → Option A → (A → Option B) → Option B
none >>= k = none
some a >>= k = k a

-- `r["key"]`, converted
abbrev pub need : {A : Type 0} → Field A → Option A
need missing = none
need (given a) = some a
need malformed = none

-- `r.get("key", default)`, converted
abbrev pub field_or : {A : Type 0} → A → Field A → Option A
field_or x missing = some x
field_or x (given a) = some a
field_or x malformed = none

-- `r.get("key", default)` of a text
abbrev pub text_or : String → Option String → String
text_or x none = x
text_or x (some s) = s

pub record AccountRow : Type 0 where
  pub number : Option String
  pub label : Option String
  pub institution : Option String
  pub tax_treatment : Option String
  pub nav_usd : Field ℤ
  pub cash_usd : Field ℤ
  pub currency : Option String
  pub as_of : Field (Option ℕ)
  pub source : Option String
  pub account_id : Option String
  pub name : Option String
  pub account_type : Option String

unfoldable pub account_row : CanonicalAccount → AccountRow
account_row a = record {
  number = some a.number;
  label = some a.label;
  institution = some a.institution;
  tax_treatment = some a.tax_treatment;
  nav_usd = given a.nav_usd;
  cash_usd = given a.cash_usd;
  currency = some a.currency;
  as_of = given a.as_of;
  source = some a.source;
  account_id = some a.account_id;
  name = some a.name;
  account_type = some a.account_type;
}

unfoldable pub account_obj : AccountRow → Option CanonicalAccount
account_obj r = do
  number ← r.number
  nav_usd ← field_or (pos 0) r.nav_usd
  cash_usd ← field_or (pos 0) r.cash_usd
  as_of ← field_or none r.as_of
  some (record {
    number = number;
    label = text_or "" r.label;
    institution = text_or "" r.institution;
    tax_treatment = text_or "" r.tax_treatment;
    nav_usd = nav_usd;
    cash_usd = cash_usd;
    currency = text_or "USD" r.currency;
    as_of = as_of;
    source = text_or "" r.source;
    account_id = text_or "" r.account_id;
    name = text_or "" r.name;
    account_type = text_or "" r.account_type;
  })

pub record SecurityRow : Type 0 where
  pub security_id : Option String
  pub ticker : Option String
  pub name : Option String
  pub currency : Option String
  pub asset_type : Option String
  pub security_id_type : Option String

unfoldable pub security_row : CanonicalSecurity → SecurityRow
security_row s = record {
  security_id = some s.security_id;
  ticker = some s.ticker;
  name = some s.name;
  currency = some s.currency;
  asset_type = some s.asset_type;
  security_id_type = some s.security_id_type;
}

unfoldable pub security_obj : SecurityRow → Option CanonicalSecurity
security_obj r = do
  security_id ← r.security_id
  some (record {
    security_id = security_id;
    ticker = text_or "" r.ticker;
    name = text_or "" r.name;
    currency = text_or "USD" r.currency;
    asset_type = text_or "EQUITY" r.asset_type;
    security_id_type = text_or "TICKER" r.security_id_type;
    exchange = "";
  })

pub record HoldingRow : Type 0 where
  pub account_number : Option String
  pub security_id : Option String
  pub quantity : Field ℤ
  pub cost_basis : Field ℤ
  pub avg_cost : Field ℤ
  pub market_value_local : Field ℤ
  pub currency : Option String
  pub as_of : Field (Option ℕ)
  pub source : Option String

unfoldable pub holding_row : CanonicalHolding → HoldingRow
holding_row h = record {
  account_number = some h.account_number;
  security_id = some h.security_id;
  quantity = given h.quantity;
  cost_basis = given h.cost_basis;
  avg_cost = given h.avg_cost;
  market_value_local = given h.market_value_local;
  currency = some h.currency;
  as_of = given h.as_of;
  source = some h.source;
}

unfoldable pub holding_obj : HoldingRow → Option CanonicalHolding
holding_obj r = do
  account_number ← r.account_number
  security_id ← r.security_id
  quantity ← field_or (pos 0) r.quantity
  cost_basis ← field_or (pos 0) r.cost_basis
  avg_cost ← field_or (pos 0) r.avg_cost
  market_value_local ← field_or (pos 0) r.market_value_local
  as_of ← field_or none r.as_of
  some (record {
    account_number = account_number;
    security_id = security_id;
    quantity = quantity;
    cost_basis = cost_basis;
    avg_cost = avg_cost;
    market_value_local = market_value_local;
    currency = text_or "USD" r.currency;
    as_of = as_of;
    source = text_or "" r.source;
  })
