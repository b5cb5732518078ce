-- ===== src/Lib.antt =====
-- The portfolio accounting core of metron, which turns broker rows into lots, gains and returns.
--
-- The program stores broker transactions, holdings and prices, computes accounting from them in
-- pure functions, and serves the result through an HTTP API. This library models the pure
-- functions.
--   Ledger        portfolio_analytics/domain/ledger.py: transactions become open tax lots, realized
--                 gains and cash. `build_ledger` sorts the rows by date and applies each; `_sell` and
--                 `_transfer_out` close lots through `relieve_lots`. The `Ledger` object, which the
--                 source mutates, is a record that each function returns, and the list of lots that
--                 `relieve_lots` mutates is a field of its result.
--   Account       portfolio_analytics/domain/account_performance.py: events and observed wealth
--                 become the profit of each period, the gate that withholds a return, and the metrics
--                 of an account. It reads the transactions of the ledger through `from_transaction`.
--   Tax           portfolio_analytics/domain/tax.py: the terms of holdings and the sale that a user
--                 asks about, which runs the ledger's `relieve_lots` on copies of the lots.
--   Income        portfolio_analytics/domain/realized.py: the gains of the ledger and cash income by
--                 calendar year.
--   Targets       api/services/cash_to_targets.py: new cash spent in whole shares on the user's own
--                 target weights.
--   Entitlements  api/entitlements.py: the catalog of features and which of them a request may see.
--   Store         portfolio_analytics/ingestion/store.py: snapshots merged into the canonical store,
--                 and the store saved to rows and loaded again. The records and keys are those of
--                 portfolio_analytics/ingestion/schema.py; a dictionary that the source mutates is a
--                 field of the store that each function returns.
--   Tranches      portfolio_analytics/broker_io/transactions.py: a broker's activity rows become
--                 transactions, which the ledger replays by account and ticker into the open lots
--                 behind each holding.
--   Adapter       portfolio_analytics/ingestion/reader_adapter.py: the store handed out in the shapes
--                 of a broker's reader, whose activities `Tranches` maps to transactions.
--   Manual        portfolio_analytics/broker_io/manual_entry.py: one position that a user types in, as
--                 a snapshot.
--   Persisted     api/services/persistence.py and api/services/analytics.py: the activities of a
--                 snapshot kept as rows of the transactions table (`_insert_activities`), and the rows
--                 read back for the ledger (`_to_engine_txn`). The table is a list of rows; a row has
--                 the number of its account and the symbol of its security, which a query joins to it.
--   Quality       portfolio_analytics/ingestion/quality.py: the findings of the schema contract and
--                 of a series of closes.
--   Ranking       api/insights/ranker.py: the observations that take a surface's few slots.
--   Cache         api/services/compute_cache.py: `cached`, call by call, for any number of workers
--                 that run it side by side for one key, as a step relation.
--   Prelude       what these share.
--
-- A Python float is a whole number of one tiny unit, so sums, differences and comparisons are exact
-- integer ones. Products, quotients, `round` and `math.floor` are fields of the record
-- `Prelude.Float.Float`, a parameter everywhere. A theorem that needs a law of them names that law:
-- that the tolerance is not negative, that a product with 1.0 or -1.0 is the number or its negative
-- (`HasUnit`), that a product with zero is zero, and that no split of the history takes the shares
-- of a lot to zero by rounding (`KeepsAllShares`). Doubles meet the first three, and so
-- do thousandths, whose products are cut off (`Prelude.Units`). The rounding of a sum is outside the
-- model, and so are NaN and infinities but in `Quality` and `Manual`, where one value stands for them.
-- A date is its ordinal. `ValueError` is a value, with a constructor for each place that raises. A
-- text that explains an unavailable figure is a constructor.
--
-- The one loop that is not a recursion over a list is that of `relieve_lots`. It runs on fuel, one
-- round for each lot and one more: a round closes a lot whole and drops it, or closes the rest of
-- the quantity, after which one round sees that nothing remains.
--
-- A worker in `cached` has seven calls left at most; their sum over the workers is the fuel of the
-- run that answers them.
--
-- Parameters: the `xirr` of the external library, the price reader, the rows of valued holdings, the
-- request's pin and the setting `retired_v1_surfaces`; how a date and a float print and are read
-- back (`Printed`), and how the interpreter reads a text as a type, a date or a number (`Reader`);
-- the store and the lock of diskcache, with what diskcache documents of them (`IsCache`); the
-- thresholds of the price gates; what a number column of the database gives back (`Columns`). A row
-- of a saved store has the fields of the saved types, and its date, where the record needs one, is
-- there. The order of the accounts in a `replace_set` is that of a list.
--
-- Not modelled: the parsing of ISO dates (`holding_period_days`), display texts and labels, the
-- fingerprint of the compute cache and the expiry of its entries and locks, the landing of raw
-- payloads, the HTTP routers, the queries, the other tables and the migrations of the database, the
-- broker, price and currency connectors, the web frontend, and the services that only assemble what
-- the above compute.
pub mod Account
pub mod Adapter
pub mod Cache
pub mod Entitlements
pub mod Income
pub mod Ledger
pub mod Manual
pub mod Persisted
pub mod Prelude
pub mod Quality
pub mod Ranking
pub mod Store
pub mod Targets
pub mod Tax
pub mod Tranches
