-- ===== src/Persisted/Insert.antt =====
-- `_insert_activities` of api/services/persistence.py, with `_retype_legacy_reinvestment`. A row of
-- the table names its account by number and carries the symbol of its security, which queries join
-- to it. The database is a list of rows in the order of insertion.
use metron.Prelude.{String, ◌&&◌, Option, none, some, List, [], ◌∷◌, ◌++◌, not, keep}
use metron.Prelude.{if◌then◌else◌}
use metron.Prelude.Int.{ℤ}
use metron.Prelude.Day.{Day}
use metron.Prelude.Dict.{Dict, lookup, get_or, insert}
use metron.Prelude.Texts.{contains}
use metron.Ledger.Records.{TxnType}
use metron.Store.Records.{
  Printed, CanonicalAccount, CanonicalSecurity, CanonicalActivity, activity_key,
  legacy_activity_key,
}
use metron.Store.Merge.{Snapshot}
use metron.Tranches.Activity.{is_empty}
use text.Mathlib.Text.{◌==◌}

-- `models.Transaction`. A `txn_type` is the text of a `TxnType`.
pub record StoredTransaction : Type 0 where
  pub account : String
  pub symbol : Option String
  pub txn_type : TxnType
  pub quantity : ℤ
  pub price : ℤ
  pub fees : ℤ
  pub amount : ℤ
  pub currency : String
  pub trade_date : Day
  pub source_key : String

-- `{s.security_id: s for s in snapshot.securities}`, of the symbols alone
abbrev pub symbols : Dict String → List CanonicalSecurity → Dict String
symbols d [] = d
symbols d (s ∷ ss) = symbols (insert s.security_id s.ticker d) ss

abbrev pub numbers : List CanonicalAccount → List String
numbers [] = []
numbers (a ∷ rest) = a.number ∷ numbers rest

-- The loop that fills `by_account`.
abbrev pub by_account :
    List String
    → Dict (List CanonicalActivity)
    → List CanonicalActivity
    → Dict (List CanonicalActivity)
by_account accounts d [] = d
by_account accounts d (act ∷ acts) =
    by_account accounts
      (if contains act.account_number accounts
        then insert act.account_number (get_or act.account_number [] d ++ act ∷ []) d
        else d)
      acts

-- The `source_key`s of one account.
abbrev pub keys_of : String → List StoredTransaction → List String
keys_of account [] = []
keys_of account (row ∷ rows) =
    let rest = keys_of account rows in
    if row.account == account then row.source_key ∷ rest else rest

-- `_retype_legacy_reinvestment`
abbrev pub retype :
    String → String → String → TxnType → List StoredTransaction → List StoredTransaction
retype account legacy key type [] = []
retype account legacy key type (row ∷ rows) =
    let rest = retype account legacy key type rows in
    if row.account == account && row.source_key == legacy
    then record row { txn_type = type; source_key = key } ∷ rows
    else row ∷ rest

-- `key in seen`, for a key that may be `None`
abbrev pub seen_legacy : Option String → List String → Option String
seen_legacy none seen = none
seen_legacy (some key) seen = if contains key seen then some key else none

module _ ⦃p : Printed⦄ (securities : Dict String) where
  abbrev pub row_of : String → CanonicalActivity → StoredTransaction
  row_of account act = record {
    account = account;
    symbol = if is_empty act.security_id then none else lookup act.security_id securities;
    txn_type = act.type;
    quantity = act.quantity;
    price = act.price;
    fees = act.fees;
    amount = act.amount;
    currency = act.currency;
    trade_date = act.when;
    source_key = activity_key act;
  }

  -- The loop over the activities of one account, from the keys seen and the rows.
  unfoldable pub insert_account :
      String
      → List String
      → List StoredTransaction
      → List CanonicalActivity
      → List StoredTransaction
  insert_account account seen rows [] = rows
  insert_account account seen rows (act ∷ acts) =
      let key = activity_key act in
      let skipped = insert_account account seen rows acts in
      let added = insert_account account (key ∷ seen) (rows ++ row_of account act ∷ []) acts in
      if contains key seen then skipped else elim (seen_legacy (legacy_activity_key act) seen) [
        | some legacy ↦
            insert_account account (key ∷ keep (λ k. not (k == legacy)) seen)
              (retype account legacy key act.type rows) acts
        | none ↦ added
      ]

  abbrev pub insert_groups :
      List StoredTransaction → Dict (List CanonicalActivity) → List StoredTransaction
  insert_groups rows [] = rows
  insert_groups rows ((account, acts) ∷ groups) =
      insert_groups (insert_account account (keys_of account rows) rows acts) groups

-- `_insert_activities`, with the accounts and the securities that the snapshot states.
unfoldable pub insert_activities :
    ⦃p : Printed⦄ → List StoredTransaction → Snapshot → List StoredTransaction
unfolding insert_account
insert_activities rows x =
    insert_groups (symbols [] x.securities) rows (by_account (numbers x.accounts) [] x.activities)
