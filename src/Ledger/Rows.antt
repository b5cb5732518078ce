-- ===== src/Ledger/Rows.antt =====
-- Each kind of row keeps a ledger valid (portfolio_analytics/domain/ledger.py, `_buy` to `_split`).
use metron.Prelude.{
  ◌≤◌, ◌≡◌, refl, String, List, [], ◌∷◌, ◌++◌, map, All, All-append, inl, inr, Bool, true, false,
  Bool-cases, Option-cases, arith,
}
use metron.Prelude.Int.{ℤ, pos, ◌+ℤ◌, ◌-ℤ◌, ◌≤ℤ◌, ◌<ℤ◌, leb_ℤ, ltb_ℤ}
use metron.Prelude.Result.{Ensures}
use metron.Prelude.Float.{Float, ◌⊛◌, ◌⊘◌}
use metron.Prelude.Dict.{lookup, Entries-insert}
use metron.Prelude.Sort.{IsSorted, append-IsSorted}
use metron.Prelude.Day.{Day}
use metron.Ledger.Records.{TxnType, Transaction, Lot, Ledger, lots_of, shares_of}
use metron.Ledger.Relief.{relieve_lots}
use metron.Ledger.Relief.Items.{opened, relieve_lots-All, relieve_lots-IsSorted}
use metron.Ledger.Apply.{
  buy_cost, open_lot, put_lots, rescale, do_buy, do_sell, do_transfer_in, do_transfer_out, do_split,
  apply,
}
use metron.Ledger.Valid.{IsOpenLot, IsClosedLot, AreLots, IsValid, lots_of-AreLots, All-later}

module _ ⦃f : Float⦄ where
  -- A ratio that is not positive is ignored; by any other, every lot keeps some shares.
  abbrev pub KeepsLots : Bool → ℤ → List Lot → Type 0
  KeepsLots true ratio lots = Unit
  KeepsLots false ratio lots = All (λ lot. pos 0 <ℤ lot.quantity ⊛ ratio) lots

  abbrev pub KeepsSharesAs : TxnType → Ledger → Transaction → Type 0
  KeepsSharesAs TxnType.split l t =
      KeepsLots (leb_ℤ t.quantity (pos 0)) t.quantity (lots_of l t.ticker)
  KeepsSharesAs _ l t = Unit

  -- Where the row is a split, its product with the shares of a lot does not round to zero; of any
  -- other row nothing is asked.
  abbrev pub KeepsShares : Ledger → Transaction → Type 0
  KeepsShares l t = KeepsSharesAs t.type l t

module _ ⦃f : Float⦄ (z : pos 0 ≤ℤ f.dust) (now : Day) where
  snoc-AreLots :
      (t : String) (lots : List Lot) (lot : Lot)
      → AreLots now t lots
      → IsOpenLot t now lot
      → lot.open_date ≡ now
      → AreLots now t (lots ++ lot ∷ [])
  snoc-AreLots t lots lot a o today = record {
    each = All-append (IsOpenLot t now) lots (lot ∷ []) a.each (o, tt);
    oldest_first =
        append-IsSorted opened lots lot a.oldest_first
          (All-later (λ l p. let b = p.opened_before in rw today b) lots a.each);
  }

  open_lot-IsValid :
      (t : Transaction) (cost : ℤ) (l : Ledger)
      → t.when ≡ now
      → pos 0 <ℤ t.quantity
      → IsValid now l
      → IsValid now (open_lot t cost l)
  open_lot-IsValid t cost l today q v = record {
    open_lots = Entries-insert (AreLots now) t.ticker _ l.open_lots v.open_lots (
        snoc-AreLots t.ticker (lots_of l t.ticker) _ (lots_of-AreLots now l t.ticker v)
          (record { has_shares = q; named = refl; opened_before = omega arith }) today);
    realized = v.realized;
  }

  put_lots-IsValid :
      (t : String) (lots : List Lot) (l : Ledger)
      → AreLots now t lots
      → IsValid now l
      → IsValid now (put_lots t lots l)
  put_lots-IsValid t lots l a v = elim (Option-cases (lookup t l.open_lots)) [
    | inl e ↦ rw (e, put_lots) v
    | inr (w, e) ↦
        rw (e, put_lots)
          (record {
            open_lots = Entries-insert (AreLots now) t lots l.open_lots v.open_lots a;
            realized = v.realized;
          })
  ]

  relieve-valid :
      (t : String) (lots : List Lot) (quantity p : ℤ)
      → AreLots now t lots
      → let r = relieve_lots lots quantity now p in
        All (IsClosedLot now) r.realized × AreLots now t r.lots
  relieve-valid t lots quantity p a =
      let (gains, left) =
        relieve_lots-All now p (IsOpenLot t now) (IsClosedLot now) (λ l o. o.has_shares)
          (λ l q o h. record { has_shares = h; named = o.named; opened_before = o.opened_before })
          (λ l q o h. record {
            has_shares = h;
            bought_first = o.opened_before;
            closed_before = omega arith;
          })
          quantity lots z a.each in
      (
        gains,
        record {
          each = left;
          oldest_first = relieve_lots-IsSorted lots quantity now p z a.oldest_first;
        },
      )

  with_cash : (l : Ledger) (c : ℤ) → IsValid now l → IsValid now (record l { cash = c })
  with_cash l c v = record { open_lots = v.open_lots; realized = v.realized }

  do_buy-IsValid :
      (l : Ledger) (t : Transaction) → t.when ≡ now → IsValid now l → IsValid now (do_buy l t)
  unfolding do_buy
  do_buy-IsValid l t today v = elim (Bool-cases (leb_ℤ t.quantity (pos 0))) [
    | inl e ↦ rw e v
    | inr e ↦ rw e (
        with_cash (open_lot t (buy_cost t).0 l) _
          (open_lot-IsValid t (buy_cost t).0 l today (ground arith) v))
  ]

  do_transfer_in-IsValid :
      (l : Ledger) (t : Transaction)
      → t.when ≡ now
      → IsValid now l
      → IsValid now (do_transfer_in l t)
  unfolding do_transfer_in
  do_transfer_in-IsValid l t today v = elim (Bool-cases (leb_ℤ t.quantity (pos 0))) [
    | inl e ↦ rw e v
    | inr e ↦ rw e (open_lot-IsValid t _ l today (ground arith) v)
  ]

  do_sell-IsValid :
      (l : Ledger) (t : Transaction)
      → t.when ≡ now
      → IsValid now l
      → Ensures (IsValid now) (do_sell l t)
  unfolding do_sell
  do_sell-IsValid l t today v = elim (Bool-cases (leb_ℤ t.quantity (pos 0))) [
    | inl e ↦ rw e v
    | inr e ↦ elim (Bool-cases (ltb_ℤ (shares_of (lots_of l t.ticker) +ℤ f.dust) t.quantity)) [
      | inl short ↦ rw (e, short) tt
      | inr enough ↦
          let (gains, left) =
            relieve-valid t.ticker (lots_of l t.ticker) t.quantity (t.price -ℤ t.fees ⊘ t.quantity)
              (lots_of-AreLots now l t.ticker v) in
          let w = put_lots-IsValid t.ticker _ l left v in
          rw (e, enough, today)
            (record {
              open_lots = w.open_lots;
              realized = All-append (IsClosedLot now) _ _ w.realized gains;
            })
    ]
  ]

  do_transfer_out-IsValid :
      (l : Ledger) (t : Transaction)
      → t.when ≡ now
      → IsValid now l
      → Ensures (IsValid now) (do_transfer_out l t)
  unfolding do_transfer_out
  do_transfer_out-IsValid l t today v = elim (Bool-cases (leb_ℤ t.quantity (pos 0))) [
    | inl e ↦ rw e v
    | inr e ↦ elim (Bool-cases (ltb_ℤ (shares_of (lots_of l t.ticker) +ℤ f.dust) t.quantity)) [
      | inl short ↦ rw (e, short) tt
      | inr enough ↦
          rw (e, enough, today)
            (put_lots-IsValid t.ticker _ l
              (relieve-valid t.ticker (lots_of l t.ticker) t.quantity (pos 0)
                (lots_of-AreLots now l t.ticker v)).1
              v)
    ]
  ]

  map-IsOpenLot :
      (ratio : ℤ) (t : String) (lots : List Lot)
      → All (λ (lot : Lot). pos 0 <ℤ lot.quantity ⊛ ratio) lots
      → pos 0 <ℤ ratio
      → All (IsOpenLot t now) lots
      → All (IsOpenLot t now) (map (rescale ratio) lots)
  map-IsOpenLot ratio t [] x h k = tt
  map-IsOpenLot ratio t (l ∷ ls) x h k = (
    record { has_shares = x.0; named = k.0.named; opened_before = k.0.opened_before },
    map-IsOpenLot ratio t ls x.1 h k.1,
  )

  map-opened :
      (ratio : ℤ) (d : Day) (lots : List Lot)
      → All (λ l. d ≤ opened l) lots
      → All (λ l. d ≤ opened l) (map (rescale ratio) lots)
  map-opened ratio d [] k = tt
  map-opened ratio d (l ∷ ls) k = (k.0, map-opened ratio d ls k.1)

  map-IsSorted :
      (ratio : ℤ) (lots : List Lot)
      → IsSorted opened lots
      → IsSorted opened (map (rescale ratio) lots)
  map-IsSorted ratio [] k = tt
  map-IsSorted ratio (l ∷ ls) k = (map-opened ratio l.open_date ls k.0, map-IsSorted ratio ls k.1)

  do_split-IsValid :
      (l : Ledger) (t : Transaction)
      → KeepsSharesAs TxnType.split l t
      → IsValid now l
      → IsValid now (do_split l t)
  unfolding do_split
  do_split-IsValid l t x v = elim (Bool-cases (leb_ℤ t.quantity (pos 0))) [
    | inl e ↦ rw e v
    | inr e ↦
        let a = lots_of-AreLots now l t.ticker v in
        rw e (
          put_lots-IsValid t.ticker _ l
            (record {
              each =
                  map-IsOpenLot t.quantity t.ticker (lots_of l t.ticker) (rw e at x) (ground arith)
                    a.each;
              oldest_first = map-IsSorted t.quantity (lots_of l t.ticker) a.oldest_first;
            })
            v)
  ]

  apply_typed-IsValid :
      (l : Ledger) (t : Transaction) (k : TxnType)
      → t.type ≡ k
      → KeepsSharesAs k l t
      → t.when ≡ now
      → IsValid now l
      → Ensures (IsValid now) (apply l t)
  unfolding apply
  apply_typed-IsValid l t TxnType.buy e x today v = rw e (do_buy-IsValid l t today v)
  apply_typed-IsValid l t TxnType.reinvestment e x today v = rw e (do_buy-IsValid l t today v)
  apply_typed-IsValid l t TxnType.sell e x today v = rw e (do_sell-IsValid l t today v)
  apply_typed-IsValid l t TxnType.split e x today v = rw e (do_split-IsValid l t x v)
  apply_typed-IsValid l t TxnType.transfer_in e x today v =
      rw e (do_transfer_in-IsValid l t today v)
  apply_typed-IsValid l t TxnType.transfer_out e x today v =
      rw e (do_transfer_out-IsValid l t today v)
  apply_typed-IsValid l t TxnType.deposit e x today v = rw e (with_cash l _ v)
  apply_typed-IsValid l t TxnType.withdrawal e x today v = rw e (with_cash l _ v)
  apply_typed-IsValid l t TxnType.dividend e x today v = rw e (with_cash l _ v)
  apply_typed-IsValid l t TxnType.interest e x today v = rw e (with_cash l _ v)
  apply_typed-IsValid l t TxnType.fee e x today v = rw e (with_cash l _ v)

  pub apply-IsValid :
      (l : Ledger) (t : Transaction)
      → KeepsShares l t
      → t.when ≡ now
      → IsValid now l
      → Ensures (IsValid now) (apply l t)
  apply-IsValid l t = apply_typed-IsValid l t t.type refl
