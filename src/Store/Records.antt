-- ===== src/Store/Records.antt =====
-- The records of portfolio_analytics/ingestion/schema.py and the keys they are stored under. A
-- `datetime` is a count of its ticks. The texts of a date and of a float, which Python prints, are
-- the functions of `Printed`.
use metron.Prelude.{ℕ, Option, none, some, String, List, []}
use metron.Prelude.Int.{ℤ}
use metron.Prelude.Day.{Day}
use metron.Prelude.Dict.{Dict}
use metron.Ledger.Records.{TxnType, RealizedGain}
use Prim.Native.String.{◌++◌}

pub record Printed : Type 0 where
  -- `date.isoformat`
  pub day : Day → String
  -- `str` of a float
  pub float : ℤ → String

pub record CanonicalSecurity : Type 0 where
  pub security_id : String
  pub ticker : String
  pub name : String
  pub currency : String
  pub asset_type : String
  pub security_id_type : String
  pub exchange : String

pub record CanonicalAccount : Type 0 where
  pub number : String
  pub label : String
  pub institution : String
  pub tax_treatment : String
  pub nav_usd : ℤ
  pub cash_usd : ℤ
  pub currency : String
  pub as_of : Option ℕ
  pub source : String
  pub account_id : String
  pub name : String
  pub account_type : String

pub record CanonicalHolding : Type 0 where
  pub account_number : String
  pub security_id : String
  pub quantity : ℤ
  pub cost_basis : ℤ
  pub avg_cost : ℤ
  pub market_value_local : ℤ
  pub currency : String
  pub as_of : Option ℕ
  pub source : String

pub record CanonicalActivity : Type 0 where
  pub account_number : String
  pub when : Day
  pub type : TxnType
  pub security_id : String
  pub quantity : ℤ
  pub price : ℤ
  pub amount : ℤ
  pub fees : ℤ
  pub currency : String
  pub as_of : Option ℕ
  pub source : String

-- The value of a `TxnType`, which is its `str`.
abbrev pub type_text : TxnType → String
type_text TxnType.buy = "BUY"
type_text TxnType.reinvestment = "REINVESTMENT"
type_text TxnType.sell = "SELL"
type_text TxnType.dividend = "DIVIDEND"
type_text TxnType.interest = "INTEREST"
type_text TxnType.deposit = "DEPOSIT"
type_text TxnType.withdrawal = "WITHDRAWAL"
type_text TxnType.fee = "FEE"
type_text TxnType.split = "SPLIT"
type_text TxnType.transfer_in = "TRANSFER_IN"
type_text TxnType.transfer_out = "TRANSFER_OUT"

module _ ⦃p : Printed⦄ where
  unfoldable pub activity_key : CanonicalActivity → String
  activity_key a =
      a.account_number
      ++ "|"
      ++ p.day a.when
      ++ "|"
      ++ type_text a.type
      ++ "|"
      ++ a.security_id
      ++ "|"
      ++ p.float a.quantity
      ++ "|"
      ++ p.float a.amount

  abbrev pub as_bought : CanonicalActivity → CanonicalActivity
  as_bought a = record a { type = TxnType.buy }

  abbrev pub legacy_for : TxnType → CanonicalActivity → Option String
  legacy_for TxnType.reinvestment a = some (activity_key (as_bought a))
  legacy_for _ a = none

  abbrev pub legacy_activity_key : CanonicalActivity → Option String
  legacy_activity_key a = legacy_for a.type a

  unfoldable pub lot_key : String × RealizedGain → String
  lot_key (account_number, rg) =
      account_number
      ++ "|"
      ++ rg.ticker
      ++ "|"
      ++ p.day rg.open_date
      ++ "|"
      ++ p.day rg.close_date
      ++ "|"
      ++ p.float rg.quantity
      ++ "|"
      ++ p.float rg.proceeds

-- The times of a source's last merge: of its data, and of the merge.
pub record SyncMeta : Type 0 where
  pub as_of : Option ℕ
  pub synced_at : Option ℕ

pub record CanonicalStore : Type 0 where
  pub accounts : Dict CanonicalAccount
  pub securities : Dict CanonicalSecurity
  pub holdings : Dict (List CanonicalHolding)
  pub activities : Dict CanonicalActivity
  pub realized_lots : Dict (String × RealizedGain)
  pub meta : Dict SyncMeta

abbrev pub empty_store : CanonicalStore
empty_store = record {
  accounts = [];
  securities = [];
  holdings = [];
  activities = [];
  realized_lots = [];
  meta = [];
}
