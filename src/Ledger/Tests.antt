-- ===== src/Ledger/Tests.antt =====
-- Runs of the ledger on a small history, and the theorems at that history.
use metron.Prelude.Dict.{ne_of_test}
use metron.Prelude.{ℕ, Option, none, some, ◌≡◌, refl, List, [], ◌∷◌, map, arith}
use metron.Prelude.Int.{ℤ, pos, ◌+ℤ◌, ◌-ℤ◌, ◌*ℤ◌, sum}
use metron.Prelude.Result.{Result, ok, raised, Ensures}
use metron.Prelude.Units.{whole_units, thousandths, thousandths-HasUnit}
use metron.Prelude.Sort.{sorted}
use metron.Prelude.Day.{Day}
use metron.Prelude.{String}
use metron.Ledger.Records.{
  TxnType, Transaction, Lot, Ledger, Error, empty, lots_of, sell_exceeds_held,
}
use metron.Ledger.Relief.{relieve_lots}
use metron.Ledger.Relief.Fifo.{fifo}
use metron.Ledger.Relief.Conserve.{Accounts, relieve_lots-fifo, relieve_lots-Accounts}
use metron.Ledger.Relief.Basis.{SharesBasis, relieve_lots-SharesBasis}
use metron.Ledger.Holdings.{Within, change, slack, build_ledger-change}
use metron.Ledger.Apply.{apply, apply_all, build_ledger}
use metron.Ledger.Valid.{IsValid}
use metron.Ledger.Invariant.{KeepsAllShares, build_ledger-IsValid}
use metron.Ledger.Cash.{cash_moved, build_ledger-cash}
use metron.Ledger.Shares.{held, apply-shares, shares_moved, Moves}
use metron.Ledger.Frame.{apply-others}
use metron.Ledger.Transfer.{lots_after, SameBooks, transfer_out_like_sell}
use metron.Ledger.Reinvestment.{as_buy, build_ledger-as_buy}

abbrev row : Day → TxnType → String → ℕ → ℕ → ℕ → ℕ → Transaction
row when type ticker quantity price amount fees = record {
  when = when;
  type = type;
  ticker = ticker;
  quantity = pos quantity;
  price = pos price;
  amount = pos amount;
  fees = pos fees;
  currency = "USD";
}

-- The rows stand out of order.
abbrev history : List Transaction
history =
    row 738500 TxnType.sell "VTI" 12 8 0 12
    ∷ row 738000 TxnType.deposit "" 0 0 100 0
    ∷ row 738001 TxnType.buy "VTI" 10 5 0 10
    ∷ row 738200 TxnType.reinvestment "VTI" 5 0 30 0
    ∷ row 738600 TxnType.withdrawal "" 0 0 20 0
    ∷ []

abbrev first_lot : Lot
first_lot = record { ticker = "VTI"; open_date = 738001; quantity = pos 10; cost_per_share = pos 6 }

abbrev second_lot : Lot
second_lot = record { ticker = "VTI"; open_date = 738200; quantity = pos 5; cost_per_share = pos 6 }

abbrev two_lots : List Lot
two_lots = first_lot ∷ second_lot ∷ []

abbrev opened : Ledger
opened = record { open_lots = ("VTI", two_lots) ∷ []; realized = []; cash = pos 10 }

abbrev after_sale : Ledger
after_sale = record {
  open_lots = ("VTI", record second_lot { quantity = pos 3 } ∷ []) ∷ [];
  realized =
      record {
        ticker = "VTI";
        open_date = 738001;
        close_date = 738500;
        quantity = pos 10;
        proceeds = pos 70;
        cost_basis = pos 60;
      }
      ∷ record {
        ticker = "VTI";
        open_date = 738200;
        close_date = 738500;
        quantity = pos 2;
        proceeds = pos 14;
        cost_basis = pos 12;
      }
      ∷ [];
  cash = pos 74;
}

build-history : build_ledger history ≡ ok after_sale
unfolding build_ledger apply_all apply relieve_lots sorted ◌+ℤ◌ ◌-ℤ◌ ◌*ℤ◌
build-history = refl

oversold : apply opened (row 738500 TxnType.sell "VTI" 16 8 0 0) ≡ raised sell_exceeds_held
unfolding apply ◌+ℤ◌
oversold = refl

relieve_lots-fifo_example :
    relieve_lots ⦃f = thousandths⦄ two_lots (pos 12) 738500 (pos 7)
    ≡ fifo ⦃f = thousandths⦄ 738500 (pos 7) (pos 12) two_lots
relieve_lots-fifo_example =
    relieve_lots-fifo ⦃f = thousandths⦄ two_lots (pos 12) 738500 (pos 7) (omega arith)

relieve_lots-Accounts_example :
    Accounts ⦃f = thousandths⦄
      (pos 12)
      two_lots
      (relieve_lots ⦃f = thousandths⦄ two_lots (pos 12) 738500 (pos 7))
relieve_lots-Accounts_example =
    relieve_lots-Accounts ⦃f = thousandths⦄ two_lots (pos 12) 738500 (pos 7) (omega arith)

relieve_lots-SharesBasis_example :
    SharesBasis ⦃f = thousandths⦄ two_lots
      (relieve_lots ⦃f = thousandths⦄ two_lots (pos 12) 738500 (pos 7))
relieve_lots-SharesBasis_example =
    relieve_lots-SharesBasis ⦃f = thousandths⦄ two_lots (pos 12) 738500 (pos 7) (omega arith)

-- In thousandths: two and a half shares, split two for one, of which three and a quarter are sold.
abbrev fractional : List Transaction
fractional =
    row 738500 TxnType.sell "VTI" 3250 60125 0 12
    ∷ row 738001 TxnType.buy "VTI" 2500 100500 0 10
    ∷ row 738200 TxnType.split "VTI" 2000 0 0 0
    ∷ []

abbrev shares_left : Result Error Ledger → Option ℤ
shares_left (ok l) = some (held l "VTI")
shares_left (raised e) = none

-- One and three quarters are left.
build-fractional : shares_left (build_ledger ⦃f = thousandths⦄ fractional) ≡ some (pos 1750)
unfolding build_ledger apply_all apply relieve_lots sorted ◌+ℤ◌ ◌-ℤ◌ ◌*ℤ◌
build-fractional = refl

kept_shares :
    KeepsAllShares ⦃f = thousandths⦄ empty (sorted (λ (t : Transaction). t.when) fractional)
unfolding KeepsAllShares apply relieve_lots sorted ◌+ℤ◌ ◌-ℤ◌ ◌*ℤ◌
kept_shares = (tt, ((omega arith, tt), (tt, tt)))

build_ledger-IsValid_example : Ensures (IsValid 738600) (build_ledger ⦃f = thousandths⦄ fractional)
build_ledger-IsValid_example =
    build_ledger-IsValid ⦃f = thousandths⦄ (omega arith) 738600 fractional (omega arith) kept_shares

build_ledger-cash_example :
    Ensures (λ (l : Ledger). l.cash ≡ sum (map cash_moved history)) (build_ledger history)
build_ledger-cash_example = build_ledger-cash history

abbrev sale : Transaction
sale = row 738500 TxnType.sell "VTI" 12 8 0 12

-- In thousandths: ten and a half shares.
abbrev fractional_sale : Transaction
fractional_sale = row 738500 TxnType.sell "VTI" 10500 8000 0 12

abbrev held_lots : Ledger
held_lots = record {
  open_lots =
      (
        "VTI",
        record first_lot { quantity = pos 10250 } ∷ record second_lot { quantity = pos 5 } ∷ [],
      )
      ∷ [];
  realized = [];
  cash = pos 10;
}

apply-shares_example :
    Ensures
      (λ (l : Ledger).
        Moves ⦃f = thousandths⦄ held_lots fractional_sale
          (shares_moved ⦃f = thousandths⦄ fractional_sale)
          l.open_lots)
      (apply ⦃f = thousandths⦄ held_lots fractional_sale)
apply-shares_example =
    apply-shares ⦃f = thousandths⦄ thousandths-HasUnit (omega arith) held_lots fractional_sale
      (omega arith) (λ e. cc)

-- In thousandths, and out of order.
abbrev no_splits : List Transaction
no_splits =
    row 738500 TxnType.transfer_out "VTI" 3250 0 0 0
    ∷ row 738001 TxnType.buy "VTI" 2500 100500 0 10
    ∷ row 738200 TxnType.split "QQQ" 2000 0 0 0
    ∷ row 738200 TxnType.reinvestment "VTI" 1125 99000 0 0
    ∷ []

build_ledger-change_example :
    Ensures
      (λ l.
        Within
          (slack ⦃f = thousandths⦄ no_splits)
          (held l "VTI")
          (sum (map (change ⦃f = thousandths⦄ "VTI") no_splits)))
      (build_ledger ⦃f = thousandths⦄ no_splits)
build_ledger-change_example =
    build_ledger-change ⦃f = thousandths⦄ thousandths-HasUnit (omega arith) "VTI" no_splits
      (refl, (refl, (refl, (refl, tt))))

apply-others_example :
    Ensures (λ (l : Ledger). lots_of l "QQQ" ≡ lots_of opened "QQQ") (apply opened sale)
apply-others_example = apply-others opened sale "QQQ" (ne_of_test "QQQ" "VTI" refl)

transfer_out_like_sell_example :
    (lots_after (apply opened (record sale { type = TxnType.transfer_out }))
      ≡ lots_after (apply opened (record sale { type = TxnType.sell })))
    × Ensures (SameBooks opened) (apply opened (record sale { type = TxnType.transfer_out }))
transfer_out_like_sell_example = transfer_out_like_sell opened sale

build_ledger-as_buy_example : build_ledger (map as_buy history) ≡ build_ledger history
build_ledger-as_buy_example = build_ledger-as_buy history
