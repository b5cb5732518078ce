-- ===== src/Tranches/Grouping.antt =====
-- `group_transactions_by_account_ticker` of portfolio_analytics/broker_io/transactions.py: rows of one account and
-- one ticker stay together, in their order.
use metron.Prelude.{String, Bool, ◌&&◌, Option, none, some, List, [], ◌∷◌, ◌++◌}
use metron.Prelude.{if◌then◌else◌}
use metron.Ledger.Records.{Transaction}
use metron.Tranches.Activity.{
  Reader, Activity, or_else, is_empty, to_transaction, activities_to_transactions_aligned,
}
use text.Mathlib.Text.{◌==◌}

-- An account's number and a ticker.
abbrev pub Key : Type 0
Key = String × String

abbrev pub same_key : Key → Key → Bool
same_key j k = j.0 == k.0 && j.1 == k.1

abbrev pub Groups : Type 0
Groups = List (Key × List Transaction)

-- `groups.setdefault(k, []).append(t)`
abbrev pub append_to : Key → Transaction → Groups → Groups
append_to k t [] = (k, t ∷ []) ∷ []
append_to k t ((j, ts) ∷ gs) =
    if same_key j k then (j, ts ++ t ∷ []) ∷ gs else (j, ts) ∷ append_to k t gs

abbrev pub account_of : Activity → String
account_of a = or_else "" a.account_number

abbrev pub add_row : Activity → Option Transaction → Groups → Groups
add_row a none gs = gs
add_row a (some t) gs = if is_empty t.ticker then gs else append_to (account_of a, t.ticker) t gs

-- The loop over `zip(activities, aligned, strict=True)`; the lists are of one length.
abbrev pub group_rows : Groups → List Activity → List (Option Transaction) → Groups
group_rows gs [] os = gs
group_rows gs (a ∷ rows) [] = gs
group_rows gs (a ∷ rows) (o ∷ os) = group_rows (add_row a o gs) rows os

unfoldable pub group_transactions_by_account_ticker : Reader → List Activity → Groups
unfolding to_transaction
group_transactions_by_account_ticker r rows =
    group_rows [] rows (activities_to_transactions_aligned r rows)

-- `groups.get(k, [])`
abbrev pub group_at : Key → Groups → List Transaction
group_at k [] = []
group_at k ((j, ts) ∷ gs) = if same_key j k then ts else group_at k gs
