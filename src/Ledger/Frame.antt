-- ===== src/Ledger/Frame.antt =====
-- What a row leaves alone, and how a transfer in kind compares with a sale
-- (portfolio_analytics/domain/ledger.py).
use metron.Prelude.{◌≡◌, ◌≢◌, refl, String, List, [], inl, inr, Bool-cases}
use metron.Prelude.Int.{ℤ, pos, ◌+ℤ◌, leb_ℤ, ltb_ℤ}
use metron.Prelude.Result.{Ensures}
use metron.Prelude.Float.{Float}
use metron.Prelude.Dict.{get_or-insert_ne}
use metron.Ledger.Records.{TxnType, Transaction, Lot, Ledger, lots_of, shares_of}
use metron.Ledger.Shares.{lots_of-put_lots_ne}
use metron.Ledger.Apply.{buy_cost, open_lot, put_lots, apply}

module _ ⦃f : Float⦄ (l : Ledger) (t : Transaction) (j : String) (other : j ≢ t.ticker) where
  abbrev pub Same : Ledger → Type 0
  Same l' = lots_of l' j ≡ lots_of l j

  Same-open_lot : (cost : ℤ) → Same (open_lot t cost l)
  Same-open_lot cost = get_or-insert_ne t.ticker j [] _ l.open_lots other

  Same-put_lots : (lots : List Lot) → Same (put_lots t.ticker lots l)
  Same-put_lots lots = lots_of-put_lots_ne t.ticker j lots l other

  apply_typed-others : (k : TxnType) → t.type ≡ k → Ensures Same (apply l t)
  unfolding apply
  apply_typed-others TxnType.buy e = elim (Bool-cases (leb_ℤ t.quantity (pos 0))) [
    | inl q ↦ rw (e, q)
    | inr q ↦ rw (e, q) (Same-open_lot (buy_cost t).0)
  ]
  apply_typed-others TxnType.reinvestment e = elim (Bool-cases (leb_ℤ t.quantity (pos 0))) [
    | inl q ↦ rw (e, q)
    | inr q ↦ rw (e, q) (Same-open_lot (buy_cost t).0)
  ]
  apply_typed-others TxnType.transfer_in e = elim (Bool-cases (leb_ℤ t.quantity (pos 0))) [
    | inl q ↦ rw (e, q)
    | inr q ↦ rw (e, q) (Same-open_lot _)
  ]
  apply_typed-others TxnType.split e = elim (Bool-cases (leb_ℤ t.quantity (pos 0))) [
    | inl q ↦ rw (e, q)
    | inr q ↦ rw (e, q) (Same-put_lots _)
  ]
  apply_typed-others TxnType.sell e = elim (Bool-cases (leb_ℤ t.quantity (pos 0))) [
    | inl q ↦ rw (e, q)
    | inr q ↦ elim (Bool-cases (ltb_ℤ (shares_of (lots_of l t.ticker) +ℤ f.dust) t.quantity)) [
      | inl short ↦ rw (e, q, short) tt
      | inr enough ↦ rw (e, q, enough) (Same-put_lots _)
    ]
  ]
  apply_typed-others TxnType.transfer_out e = elim (Bool-cases (leb_ℤ t.quantity (pos 0))) [
    | inl q ↦ rw (e, q)
    | inr q ↦ elim (Bool-cases (ltb_ℤ (shares_of (lots_of l t.ticker) +ℤ f.dust) t.quantity)) [
      | inl short ↦ rw (e, q, short) tt
      | inr enough ↦ rw (e, q, enough) (Same-put_lots _)
    ]
  ]
  apply_typed-others _ e = rw e

  -- A row that does not raise leaves the lots of every other ticker alone.
  pub apply-others : Ensures Same (apply l t)
  apply-others = apply_typed-others t.type refl
