-- ===== src/Store/Tests.antt =====
-- A sync of two accounts over a stored position and a stored buy, and the theorems at it.
use metron.Prelude.{ℕ, zero, suc, ◌≡◌, refl, none, some, String, [], ◌∷◌, map, if◌then◌else◌}
use metron.Prelude.Int.{pos, pos_part}
use metron.Prelude.Dict.{lookup}
use metron.Prelude.Texts.{contains, unique}
use metron.Ledger.Records.{TxnType}
use metron.Store.Records.{
  Printed, CanonicalAccount, CanonicalSecurity, CanonicalHolding, CanonicalActivity, CanonicalStore,
  activity_key, lot_key, empty_store,
}
use metron.Store.Merge.{Snapshot, account_key, merge, add_activity, all_activities, all_holdings}
use metron.Store.Persist.{load_store, save_store}
use metron.Store.Valid.{IsStore, merge-IsStore}
use metron.Store.RoundTrip.{kept, load_store-save_store}
use metron.Store.Replace.{of_account, lookup-merge_holdings}
use metron.Store.Union.{lookup-merge_activities}
use Prim.Native.String.{◌++◌}

abbrev ones : ℕ → String
ones zero = ""
ones (suc n) = "1" ++ ones n

-- Numbers small enough to print in unary.
instance abbrev unary : Printed
unary = record { day = ones; float = λ z. ones (pos_part z) }

abbrev account : String → CanonicalAccount
account number = record {
  number = number;
  label = "Main";
  institution = "IBKR";
  tax_treatment = "taxable";
  nav_usd = pos 100;
  cash_usd = pos 10;
  currency = "USD";
  as_of = none;
  source = "flex";
  account_id = number;
  name = "";
  account_type = "Individual";
}

abbrev holding : String → ℕ → CanonicalHolding
holding number quantity = record {
  account_number = number;
  security_id = "EQ:VTI:USD";
  quantity = pos quantity;
  cost_basis = pos 60;
  avg_cost = pos 6;
  market_value_local = pos 90;
  currency = "USD";
  as_of = some 5;
  source = "flex";
}

abbrev activity : TxnType → ℕ → CanonicalActivity
activity type quantity = record {
  account_number = "U1";
  when = 3;
  type = type;
  security_id = "EQ:VTI:USD";
  quantity = pos quantity;
  price = pos 6;
  amount = pos 0;
  fees = pos 0;
  currency = "USD";
  as_of = none;
  source = "flex";
}

abbrev vti : CanonicalSecurity
vti = record {
  security_id = "EQ:VTI:USD";
  ticker = "VTI";
  name = "";
  currency = "USD";
  asset_type = "ETF";
  security_id_type = "TICKER";
  exchange = "ARCA";
}

abbrev first_sync : Snapshot
first_sync = record {
  source = "flex";
  accounts = account "U1" ∷ account "U2" ∷ [];
  securities = vti ∷ [];
  holdings = holding "U1" 3 ∷ holding "U2" 1 ∷ [];
  activities = activity TxnType.buy 2 ∷ activity TxnType.buy 1 ∷ [];
  realized_lots = [];
  as_of = some 5;
}

-- The second sync reports no holding of U1, and one buy as the reinvestment that it was.
abbrev second_sync : Snapshot
second_sync = record first_sync {
  accounts = account "U1" ∷ [];
  holdings = [];
  activities = activity TxnType.reinvestment 2 ∷ [];
}

abbrev once : CanonicalStore
once = merge empty_store first_sync 6

abbrev twice : CanonicalStore
twice = merge once second_sync 7

upgraded_in_place :
    map (λ a. a.type) (all_activities twice) ≡ TxnType.buy ∷ TxnType.reinvestment ∷ []
unfolding merge add_activity activity_key unique lot_key
upgraded_in_place = refl

closed_out : map (λ h. h.account_number) (all_holdings twice) ≡ "U2" ∷ []
unfolding merge add_activity activity_key unique lot_key
closed_out = refl

empty-IsStore : IsStore empty_store
empty-IsStore = record {
  accounts = record { own_keys = tt; distinct = tt };
  securities = record { own_keys = tt; distinct = tt };
  holdings = tt;
  held_once = tt;
  activities = record { own_keys = tt; distinct = tt };
  realized_lots = record { own_keys = tt; distinct = tt };
}

merge-IsStore_example : IsStore (merge empty_store first_sync 6)
merge-IsStore_example = merge-IsStore empty_store first_sync 6 empty-IsStore

twice-IsStore : IsStore twice
twice-IsStore =
    merge-IsStore once second_sync 7 (merge-IsStore empty_store first_sync 6 empty-IsStore)

load_store-save_store_example : load_store (save_store twice) ≡ kept twice
load_store-save_store_example = load_store-save_store twice twice-IsStore

lookup-merge_holdings_example : lookup "U1" (merge once second_sync 7).holdings ≡ (
    if contains "U1" (map account_key second_sync.accounts)
    then some (of_account "U1" second_sync.holdings)
    else lookup "U1" once.holdings)
lookup-merge_holdings_example = lookup-merge_holdings once second_sync 7 "U1"

abbrev bought_key : String
bought_key = activity_key (activity TxnType.buy 1)

lookup-merge_activities_example :
    lookup bought_key (merge once second_sync 7).activities ≡ some (activity TxnType.buy 1)
unfolding merge add_activity activity_key
lookup-merge_activities_example =
    lookup-merge_activities once second_sync 7 bought_key (activity TxnType.buy 1) refl (refl, tt)
