-- ===== src/Ledger/Transfer.antt =====
-- A transfer out in kind against a sale of the same shares
-- (portfolio_analytics/domain/ledger.py).
use metron.Prelude.{
  ℕ, zero, suc, ◌≡◌, refl, Option, none, some, List, [], ◌∷◌, inl, inr, length, Bool-cases,
  Option-cases,
}
use metron.Prelude.Int.{ℤ, pos, ◌+ℤ◌, ◌-ℤ◌, leb_ℤ, ltb_ℤ, min_ℤ}
use metron.Prelude.Result.{Result, ok, raised, Ensures}
use metron.Prelude.Float.{Float, ◌⊘◌}
use metron.Prelude.Dict.{Dict, lookup}
use metron.Prelude.Day.{Day}
use metron.Ledger.Records.{TxnType, Transaction, Lot, Ledger, Error, lots_of, shares_of}
use metron.Ledger.Relief.{relieve_loop, relieve_lots}
use metron.Ledger.Apply.{put_lots, do_sell, do_transfer_out, apply}

module _ ⦃f : Float⦄ where
  relieve_loop-lots :
      (fuel : ℕ) (d : Day) (p p' remaining : ℤ) (lots : List Lot)
      → (relieve_loop fuel d p remaining lots).lots ≡ (relieve_loop fuel d p' remaining lots).lots
  unfolding relieve_loop
  relieve_loop-lots zero d p p' remaining lots = refl
  relieve_loop-lots (suc fuel) d p p' remaining [] = refl
  relieve_loop-lots (suc fuel) d p p' remaining (lot ∷ lots) =
      elim (Bool-cases (ltb_ℤ f.dust remaining)) [
        | inl e ↦ rw e (relieve_loop-lots fuel d p p' (remaining -ℤ min_ℤ lot.quantity remaining) _)
        | inr e ↦ rw e
      ]

  relieve_lots-lots :
      (lots : List Lot) (q : ℤ) (d : Day) (p p' : ℤ)
      → (relieve_lots lots q d p).lots ≡ (relieve_lots lots q d p').lots
  unfolding relieve_lots
  relieve_lots-lots lots q d p p' = relieve_loop-lots (suc (length lots)) d p p' q lots

  -- The open lots after a row, if it does not raise.
  abbrev pub lots_after : Result Error Ledger → Option (Dict (List Lot))
  lots_after (ok l) = some l.open_lots
  lots_after (raised e) = none

  do_transfer_out-lots :
      (l : Ledger) (t : Transaction) → lots_after (do_transfer_out l t) ≡ lots_after (do_sell l t)
  unfolding do_transfer_out do_sell
  do_transfer_out-lots l t = elim (Bool-cases (leb_ℤ t.quantity (pos 0))) [
    | inl q ↦ rw q
    | inr q ↦ elim (Bool-cases (ltb_ℤ (shares_of (lots_of l t.ticker) +ℤ f.dust) t.quantity)) [
      | inl short ↦ rw (q, short)
      | inr enough ↦ rw (
        q,
        enough,
        relieve_lots-lots (lots_of l t.ticker) t.quantity t.when (pos 0)
            (t.price -ℤ t.fees ⊘ t.quantity),
      )
    ]
  ]

  -- No gain is realized and no cash moves.
  abbrev pub SameBooks : Ledger → Ledger → Type 0
  SameBooks l l' = (l'.realized ≡ l.realized) × (l'.cash ≡ l.cash)

  put_lots-SameBooks : (k : _) (lots : List Lot) (l : Ledger) → SameBooks l (put_lots k lots l)
  put_lots-SameBooks k lots l = elim (Option-cases (lookup k l.open_lots)) [
    | inl e ↦ rw (put_lots, e) (refl, refl)
    | inr (w, e) ↦ rw (put_lots, e) (refl, refl)
  ]

  do_transfer_out-SameBooks :
      (l : Ledger) (t : Transaction) → Ensures (SameBooks l) (do_transfer_out l t)
  unfolding do_transfer_out
  do_transfer_out-SameBooks l t = elim (Bool-cases (leb_ℤ t.quantity (pos 0))) [
    | inl q ↦ rw q (refl, refl)
    | inr q ↦ elim (Bool-cases (ltb_ℤ (shares_of (lots_of l t.ticker) +ℤ f.dust) t.quantity)) [
      | inl short ↦ rw (q, short) tt
      | inr enough ↦ rw (q, enough) (put_lots-SameBooks t.ticker _ l)
    ]
  ]

  -- A transfer out of shares raises when the sale of the same shares would, else leaves the open
  -- lots that the sale would, and it realizes no gain and moves no cash.
  pub transfer_out_like_sell :
      (l : Ledger) (t : Transaction)
      → (lots_after (apply l (record t { type = TxnType.transfer_out }))
          ≡ lots_after (apply l (record t { type = TxnType.sell })))
        × Ensures (SameBooks l) (apply l (record t { type = TxnType.transfer_out }))
  unfolding apply
  transfer_out_like_sell l t = (do_transfer_out-lots l t, do_transfer_out-SameBooks l t)
