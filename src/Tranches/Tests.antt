-- ===== src/Tranches/Tests.antt =====
-- Two accounts' rows of one ticker, one of which does not replay, and the theorems at them.
use metron.Prelude.{String, ◌≡◌, refl, Option, none, some, List, [], ◌∷◌, map, arith, true}
use metron.Prelude.Int.{ℤ, pos, negsuc, ◌+ℤ◌, ◌-ℤ◌, ◌*ℤ◌}
use metron.Prelude.Units.{whole_units, thousandths}
use metron.Prelude.Dict.{Entries, lookup}
use metron.Prelude.Sort.{sorted}
use metron.Prelude.Day.{Day}
use metron.Ledger.Records.{Lot}
use metron.Ledger.Relief.{relieve_lots, relieve_loop}
use metron.Ledger.Apply.{apply, apply_all, build_ledger, do_buy, do_sell}
use metron.Ledger.Reports.{realized_totals}
use metron.Tranches.Activity.{Reader, Activity, RawNumber, RawDate, Inner, Symbol, to_transaction}
use metron.Tranches.Grouping.{group_transactions_by_account_ticker, group_at}
use metron.Tranches.Groups.{rows_for, group_at-rows}
use metron.Tranches.Rebuild.{Holding, TrancheSet, Note, reconstruct_tranches}
use metron.Tranches.Sound.{IsTranche, reconstruct_tranches-IsTranche}

abbrev day_of : String → Option Day
day_of s = lookup s (("2024-01-02", 738887) ∷ ("2024-03-04", 738949) ∷ [])

abbrev reader : Reader
reader = record {
  upper_strip = λ s. s;
  from_iso = day_of;
  to_float = λ s. lookup s (("4", pos 4) ∷ []);
}

abbrev vti : Option Symbol
vti = some (record { symbol = Inner.nested (some "VTI"); currency_code = some "USD" })

abbrev row : String → String → RawNumber → String → Activity
row type when units account = record {
  type = type;
  symbol = vti;
  currency_code = none;
  trade_date = RawDate.words when;
  settlement_date = RawDate.no_date;
  units = units;
  price = RawNumber.number (pos 7);
  amount = RawNumber.missing;
  fee = RawNumber.unusable;
  account_number = some account;
}

-- Account A buys ten and sells four; account B sells what it never bought.
abbrev rows : List Activity
rows =
    row "BUY" "2024-01-02" (RawNumber.number (pos 10)) "A"
    ∷ row "SELL" "2024-03-04" (RawNumber.number (negsuc 1)) "B"
    ∷ row "SELL" "2024-03-04" (RawNumber.words "4") "A"
    ∷ row "TRANSFER" "2024-03-04" (RawNumber.words "4") "A"
    ∷ []

abbrev holdings : List Holding
holdings =
    record {
      ticker = some "VTI";
      shares = RawNumber.number (pos 9);
      avg_cost = RawNumber.number (pos 7);
      currency = none;
    }
    ∷ record {
      ticker = some "BND";
      shares = RawNumber.number (pos 2);
      avg_cost = RawNumber.missing;
      currency = some "";
    }
    ∷ []

abbrev shown : Option TrancheSet → Option (List ℤ × (ℤ × Note))
shown none = none
shown (some ts) = some (map (λ (l : Lot). l.quantity) ts.lots, (ts.residual_shares, ts.note))

-- Six of the nine shares are account A's; the rest is shown as held before the history.
one_account_fails :
    shown (lookup "VTI" (reconstruct_tranches reader rows holdings))
    ≡ some (pos 6 ∷ [], (pos 3, Note.shares_predate (pos 3) (pos 9) true))
unfolding reconstruct_tranches group_transactions_by_account_ticker to_transaction build_ledger
    apply_all apply do_buy do_sell relieve_lots relieve_loop sorted realized_totals ◌+ℤ◌ ◌-ℤ◌ ◌*ℤ◌
one_account_fails = refl

no_rows :
    shown (lookup "BND" (reconstruct_tranches reader rows holdings))
    ≡ some ([], (pos 2, Note.no_history))
unfolding reconstruct_tranches group_transactions_by_account_ticker to_transaction build_ledger
    apply_all apply do_buy do_sell relieve_lots relieve_loop sorted realized_totals ◌+ℤ◌ ◌-ℤ◌ ◌*ℤ◌
no_rows = refl

group_at-rows_example :
    group_at ("A", "VTI") (group_transactions_by_account_ticker reader rows)
    ≡ rows_for reader ("A", "VTI") rows
group_at-rows_example = group_at-rows reader ("A", "VTI") rows

reconstruct_tranches-IsTranche_example :
    Entries
      (IsTranche 738949 ⦃f = thousandths⦄)
      (reconstruct_tranches ⦃f = thousandths⦄ reader rows holdings)
unfolding to_transaction
reconstruct_tranches-IsTranche_example =
    reconstruct_tranches-IsTranche 738949 ⦃f = thousandths⦄ (omega arith) reader rows holdings
      (omega arith, (omega arith, (omega arith, tt)))
