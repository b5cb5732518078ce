-- ===== src/Store/Persist.antt =====
-- `save_store` and `load_store` of portfolio_analytics/ingestion/store.py. The file is what its text
-- reads as. Log lines are left out.
use metron.Prelude.{Option, none, some, String, List, [], ◌∷◌, map}
use metron.Prelude.Dict.{Dict, insert}
use metron.Prelude.Keys.{values}
use metron.Store.Records.{
  Printed, CanonicalHolding, CanonicalStore, SyncMeta, activity_key, lot_key, empty_store,
}
use metron.Store.Merge.{
  account_key, security_key, add_holding, all_accounts, all_holdings, all_activities,
  all_realized_lots,
}
use metron.Store.Rows.{
  AccountRow, SecurityRow, HoldingRow, account_row, account_obj, security_row, security_obj,
  holding_row, holding_obj,
}
use metron.Store.Events.{ActivityRow, LotRow, activity_row, activity_obj, lot_row, lot_obj}

-- The JSON object of the file. `data.get("accounts", [])` and the like give no rows for a missing
-- key; `meta` is `none` if it is missing or no object.
pub record Payload : Type 0 where
  pub accounts : List AccountRow
  pub securities : List SecurityRow
  pub holdings : List HoldingRow
  pub activities : List ActivityRow
  pub realized_lots : List LotRow
  pub meta : Option (Dict SyncMeta)

-- No file; one that cannot be read or is no JSON; and its payload.
pub data SilverFile : Type 0 where
  absent unreadable : SilverFile
  silver : Payload → SilverFile

-- A loop of `load_store`: rows that make no record are skipped.
abbrev pub load_rows {ℓ κ} :
    {R : Type ℓ} {V : Type κ} → (R → Option V) → (V → String) → Dict V → List R → Dict V
load_rows obj key d [] = d
load_rows obj key d (r ∷ rs) =
    load_rows obj key (elim (obj r) [ none ↦ d | some v ↦ insert (key v) v d ]) rs

abbrev pub load_holdings :
    Dict (List CanonicalHolding) → List HoldingRow → Dict (List CanonicalHolding)
load_holdings d [] = d
load_holdings d (r ∷ rs) =
    load_holdings (elim (holding_obj r) [ none ↦ d | some h ↦ add_holding d h ]) rs

abbrev pub or_empty : Option (Dict SyncMeta) → Dict SyncMeta
or_empty none = []
or_empty (some d) = d

module _ ⦃p : Printed⦄ where
  unfoldable pub load_payload : Payload → CanonicalStore
  load_payload payload = record {
    accounts = load_rows account_obj account_key [] payload.accounts;
    securities = load_rows security_obj security_key [] payload.securities;
    holdings = load_holdings [] payload.holdings;
    activities = load_rows activity_obj activity_key [] payload.activities;
    realized_lots = load_rows lot_obj lot_key [] payload.realized_lots;
    meta = or_empty payload.meta;
  }

  unfoldable pub load_store : SilverFile → CanonicalStore
  unfolding load_payload
  load_store absent = empty_store
  load_store unreadable = empty_store
  load_store (silver payload) = load_payload payload

unfoldable pub save_store : CanonicalStore → SilverFile
save_store s = silver (record {
  accounts = map account_row (all_accounts s);
  securities = map security_row (values s.securities);
  holdings = map holding_row (all_holdings s);
  activities = map activity_row (all_activities s);
  realized_lots = map lot_row (all_realized_lots s);
  meta = some s.meta;
})
