-- ===== src/Ledger/Apply.antt =====
-- `build_ledger` and `_apply` of portfolio_analytics/domain/ledger.py, with one function for each
-- kind of row. A function that mutates the ledger returns the new one. `build_ledger` drops its
-- ledger when a row raises, and every row raises before it writes, so no state goes with an error.
use metron.Prelude.{List, [], ◌∷◌, ◌++◌, map, none, some, if◌then◌else◌}
use metron.Prelude.Int.{ℤ, pos, ◌+ℤ◌, ◌-ℤ◌, ltb_ℤ, leb_ℤ}
use metron.Prelude.Result.{Result, ok, raised, ◌>>=◌}
use metron.Prelude.Float.{Float, ◌⊛◌, ◌⊘◌}
use metron.Prelude.Dict.{lookup, insert}
use metron.Prelude.Sort.{sorted}
use metron.Prelude.{String}
use metron.Ledger.Records.{
  TxnType, Transaction, Lot, Ledger, Error, sell_exceeds_held, transfer_exceeds_held, empty,
  lots_of, shares_of,
}
use metron.Ledger.Relief.{relieve_lots}

module _ ⦃f : Float⦄ where
  -- The cost of one share and the cash paid, by what the row reports.
  abbrev pub buy_cost : Transaction → ℤ × ℤ
  buy_cost t =
      if ltb_ℤ (pos 0) t.price
      then (t.price +ℤ t.fees ⊘ t.quantity, t.quantity ⊛ t.price +ℤ t.fees)
      else if ltb_ℤ (pos 0) t.amount
      then (t.amount ⊘ t.quantity, t.amount)
      else (t.fees ⊘ t.quantity, t.fees)

  -- `ledger.open_lots.setdefault(txn.ticker, []).append(Lot(...))`
  abbrev pub open_lot : Transaction → ℤ → Ledger → Ledger
  open_lot t cost l = record l {
    open_lots =
        insert t.ticker
          (lots_of l t.ticker
            ++ record {
              ticker = t.ticker;
              open_date = t.when;
              quantity = t.quantity;
              cost_per_share = cost;
            }
              ∷ [])
          l.open_lots;
  }

  -- `lots` is the list object that the dictionary holds, so its mutation shows there. A ticker with
  -- no lots has a fresh list, which the dictionary does not get.
  abbrev pub put_lots : String → List Lot → Ledger → Ledger
  put_lots t lots l = elim (lookup t l.open_lots) [
    | none ↦ l
    | some _ ↦ record l { open_lots = insert t lots l.open_lots }
  ]

  -- `_buy`
  unfoldable pub do_buy : Ledger → Transaction → Ledger
  do_buy l t =
      if leb_ℤ t.quantity (pos 0)
      then l
      else let (cost, cash_out) = buy_cost t in
        let l' = open_lot t cost l in record l' { cash = l'.cash -ℤ cash_out }

  -- `_sell`
  unfoldable pub do_sell : Ledger → Transaction → Result Error Ledger
  do_sell l t =
      if leb_ℤ t.quantity (pos 0)
      then ok l
      else let lots = lots_of l t.ticker in
        if ltb_ℤ (shares_of lots +ℤ f.dust) t.quantity
        then raised sell_exceeds_held
        else let r = relieve_lots lots t.quantity t.when (t.price -ℤ t.fees ⊘ t.quantity) in
          let l' = put_lots t.ticker r.lots l in
          ok (record l' {
            realized = l'.realized ++ r.realized;
            cash = l'.cash +ℤ (t.quantity ⊛ t.price -ℤ t.fees);
          })

  -- `_transfer_in`
  unfoldable pub do_transfer_in : Ledger → Transaction → Ledger
  do_transfer_in l t =
      if leb_ℤ t.quantity (pos 0)
      then l
      else open_lot t
          (if ltb_ℤ (pos 0) t.price
            then t.price
            else if ltb_ℤ (pos 0) t.amount
            then t.amount ⊘ t.quantity
            else pos 0)
          l

  -- `_transfer_out`
  unfoldable pub do_transfer_out : Ledger → Transaction → Result Error Ledger
  do_transfer_out l t =
      if leb_ℤ t.quantity (pos 0)
      then ok l
      else let lots = lots_of l t.ticker in
        if ltb_ℤ (shares_of lots +ℤ f.dust) t.quantity
        then raised transfer_exceeds_held
        else let r = relieve_lots lots t.quantity t.when (pos 0) in ok (put_lots t.ticker r.lots l)

  abbrev pub rescale : ℤ → Lot → Lot
  rescale ratio lot = record lot {
    quantity = lot.quantity ⊛ ratio;
    cost_per_share = lot.cost_per_share ⊘ ratio;
  }

  -- `_split`
  unfoldable pub do_split : Ledger → Transaction → Ledger
  do_split l t =
      if leb_ℤ t.quantity (pos 0)
      then l
      else put_lots t.ticker (map (rescale t.quantity) (lots_of l t.ticker)) l

  -- `_apply`
  unfoldable pub apply : Ledger → Transaction → Result Error Ledger
  unfolding do_buy do_sell do_transfer_in do_transfer_out do_split
  apply l t = elim t.type [
    | TxnType.deposit ↦ ok (record l { cash = l.cash +ℤ t.amount })
    | TxnType.withdrawal ↦ ok (record l { cash = l.cash -ℤ t.amount })
    | TxnType.dividend ↦ ok (record l { cash = l.cash +ℤ t.amount })
    | TxnType.interest ↦ ok (record l { cash = l.cash +ℤ t.amount })
    | TxnType.fee ↦ ok (record l { cash = l.cash -ℤ t.amount })
    | TxnType.buy ↦ ok (do_buy l t)
    | TxnType.reinvestment ↦ ok (do_buy l t)
    | TxnType.sell ↦ do_sell l t
    | TxnType.split ↦ ok (do_split l t)
    | TxnType.transfer_in ↦ ok (do_transfer_in l t)
    | TxnType.transfer_out ↦ do_transfer_out l t
  ]

  unfoldable pub apply_all : Ledger → List Transaction → Result Error Ledger
  apply_all l [] = ok l
  apply_all l (t ∷ ts) = apply l t >>= λ l'. apply_all l' ts

  unfoldable pub build_ledger : List Transaction → Result Error Ledger
  build_ledger ts = apply_all empty (sorted (λ (t : Transaction). t.when) ts)
