-- ===== src/Persisted/Engine.antt =====
-- A stored transaction as a row of the ledger: `_to_engine_txn` and `_normalize_bond_quantity` of
-- api/services/analytics.py. What a number column gives back for a number is the database's, and
-- `str.upper` is the interpreter's: a `Columns`.
use metron.Prelude.{String, Bool, true, ◌&&◌, List, map}
use metron.Prelude.{if◌then◌else◌, ◌≡◌, refl, inl, inr, Bool-cases}
use metron.Prelude.Int.{ℤ, pos, ltb_ℤ, leb_ℤ}
use metron.Prelude.Float.{Float, ◌⊛◌, ◌⊘◌}
use metron.Ledger.Records.{TxnType, Transaction, is_purchase}
use metron.Persisted.Insert.{StoredTransaction}
use metron.Tranches.Activity.{or_else}

pub record Columns : Type 0 where
  pub numeric : ℤ → ℤ
  pub upper : String → String
  -- 0.8 and 1.25, the band of a ratio that shows a bond
  pub low : ℤ
  pub high : ℤ

-- Membership in `_TRADE_TYPE_VALUES`.
abbrev pub in_trade_types : TxnType → Bool
in_trade_types TxnType.sell = true
in_trade_types type = is_purchase type

module _ ⦃f : Float⦄ (c : Columns) where
  abbrev hundred : ℤ
  hundred = f.float (pos 100)

  unfoldable pub normalize_bond_quantity : TxnType → ℤ → ℤ → ℤ → ℤ
  normalize_bond_quantity type quantity price amount =
      let ratio = (quantity ⊛ price) ⊘ (hundred ⊛ amount) in
      if in_trade_types type
        && (ltb_ℤ (pos 0) quantity && (ltb_ℤ (pos 0) price && ltb_ℤ (pos 0) amount))
      then (if leb_ℤ c.low ratio && leb_ℤ ratio c.high then quantity ⊘ hundred else quantity)
      else quantity

  -- A row without a price is left as it is.
  pub normalize_unpriced :
      (type : TxnType) (quantity amount : ℤ)
      → normalize_bond_quantity type quantity (pos 0) amount ≡ quantity
  unfolding normalize_bond_quantity
  normalize_unpriced type quantity amount = elim (Bool-cases (in_trade_types type)) [
    | inr other ↦ rw other refl
    | inl trade ↦ elim (Bool-cases (ltb_ℤ (pos 0) quantity)) [
      | inl some_shares ↦ rw (trade, some_shares) refl
      | inr none_shares ↦ rw (trade, none_shares) refl
    ]
  ]

  unfoldable pub to_engine_txn : StoredTransaction → Transaction
  to_engine_txn row =
      let quantity = c.numeric row.quantity in
      let price = c.numeric row.price in
      let amount = c.numeric row.amount in
      record {
        when = row.trade_date;
        type = row.txn_type;
        ticker = c.upper (or_else "" row.symbol);
        quantity = normalize_bond_quantity row.txn_type quantity price amount;
        price = price;
        amount = amount;
        fees = c.numeric row.fees;
        currency = row.currency;
      }

  -- `engine_transactions`, of the rows in the order of its query
  abbrev pub engine_transactions : List StoredTransaction → List Transaction
  engine_transactions rows = map to_engine_txn rows
