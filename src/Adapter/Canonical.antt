-- ===== src/Adapter/Canonical.antt =====
-- `CanonicalReader` of portfolio_analytics/ingestion/reader_adapter.py. A dictionary that it hands out is a record, a
-- data frame the list of its rows. `get_aggregated_holdings` is a call of another module.
use metron.Prelude.{ℕ, Bool, String, Option, none, some, List, map, if◌then◌else◌, ◌&&◌}
use metron.Prelude.Int.{ℤ, pos, leb_ℤ, sum}
use metron.Prelude.Float.{Float, ◌⊘◌}
use metron.Prelude.Dict.{lookup}
use metron.Store.Records.{
  Printed, CanonicalSecurity, CanonicalAccount, CanonicalHolding, CanonicalActivity, CanonicalStore,
  type_text,
}
use metron.Store.Merge.{all_accounts, all_holdings, all_activities}
use metron.Tranches.Activity.{Activity, RawNumber, RawDate, Inner, is_empty}

pub record AccountView : Type 0 where
  pub id : String
  pub name : String
  pub number : String
  pub type : String
  pub balance_total : ℤ
  pub last_holdings_sync : Option ℕ
  pub institution : String

pub record HoldingView : Type 0 where
  pub account_id : String
  pub ticker : String
  pub currency : String
  pub shares : ℤ
  pub avg_cost : ℤ
  pub current_price : ℤ
  pub market_value : ℤ
  pub account_name : String
  pub account_number : String
  pub account_type : String

-- `a.account_id or a.number`
abbrev pub id_of : CanonicalAccount → String
id_of a = if is_empty a.account_id then a.number else a.account_id

abbrev pub account_view : CanonicalAccount → AccountView
account_view a = record {
  id = id_of a;
  name = a.name;
  number = a.number;
  type = a.account_type;
  balance_total = a.nav_usd;
  last_holdings_sync = a.as_of;
  institution = a.institution;
}

abbrev pub get_accounts : CanonicalStore → List AccountView
get_accounts s = map account_view (all_accounts s)

-- `sec.ticker if sec else ""`
abbrev pub ticker_or_blank : Option CanonicalSecurity → String
ticker_or_blank none = ""
ticker_or_blank (some sec) = sec.ticker

abbrev is_zero : ℤ → Bool
is_zero x = leb_ℤ x (pos 0) && leb_ℤ (pos 0) x

module _ ⦃f : Float⦄ where
  abbrev pub holding_view : Option CanonicalAccount → String → CanonicalHolding → HoldingView
  holding_view acct ticker h = record {
    account_id = elim acct [ none ↦ h.account_number | some a ↦ id_of a ];
    ticker = ticker;
    currency = h.currency;
    shares = h.quantity;
    avg_cost = h.avg_cost;
    current_price = if is_zero h.quantity then pos 0 else h.market_value_local ⊘ h.quantity;
    market_value = h.market_value_local;
    account_name = elim acct [ none ↦ "" | some a ↦ a.name ];
    account_number = h.account_number;
    account_type = elim acct [ none ↦ "" | some a ↦ a.account_type ];
  }

  abbrev pub get_all_holdings : CanonicalStore → List HoldingView
  get_all_holdings s =
      map
        (λ (h : CanonicalHolding).
          holding_view (lookup h.account_number s.accounts)
            (ticker_or_blank (lookup h.security_id s.securities)) h)
        (all_holdings s)

module _ ⦃p : Printed⦄ where
  -- The dictionary of one activity.
  unfoldable pub activity_view : CanonicalStore → CanonicalActivity → Activity
  activity_view s act = record {
    type = type_text act.type;
    symbol = some (record {
      symbol = Inner.ticker (ticker_or_blank (lookup act.security_id s.securities));
      currency_code = some act.currency;
    });
    currency_code = some act.currency;
    trade_date = RawDate.words (p.day act.when);
    settlement_date = RawDate.no_date;
    units = RawNumber.number act.quantity;
    price = RawNumber.number act.price;
    amount = RawNumber.number act.amount;
    fee = RawNumber.number act.fees;
    account_number = some act.account_number;
  }

  abbrev pub get_all_activities : CanonicalStore → List Activity
  get_all_activities s = map (activity_view s) (all_activities s)

abbrev pub get_total_nav : CanonicalStore → ℤ
get_total_nav s = sum (map (λ (a : CanonicalAccount). a.nav_usd) (all_accounts s))
