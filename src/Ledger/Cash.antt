-- ===== src/Ledger/Cash.antt =====
-- The cash of a ledger that `build_ledger` (portfolio_analytics/domain/ledger.py) returns.
use metron.Prelude.{
  ◌≡◌, refl, sym, ap, ◌∙◌, List, [], ◌∷◌, map, inl, inr, if◌then◌else◌, Bool-cases, Option-cases,
}
use metron.Prelude.Int.{
  ℤ, pos, ◌+ℤ◌, ◌-ℤ◌, ltb_ℤ, leb_ℤ, neg_ℤ, sum, int_laws, +ℤ_assoc, zero_+ℤ, +ℤ_zero,
}
use metron.Prelude.Result.{Ensures, Ensures-bind, Ensures-weaken}
use metron.Prelude.Float.{Float, ◌⊛◌}
use metron.Prelude.Dict.{lookup}
use metron.Prelude.Sort.{sorted, sum-sorted}
use metron.Ledger.Records.{TxnType, Transaction, Lot, Ledger, empty, lots_of, shares_of}
use metron.Ledger.Apply.{
  buy_cost, put_lots, do_buy, do_sell, do_transfer_in, do_transfer_out, do_split, apply, apply_all,
  build_ledger,
}

module _ ⦃f : Float⦄ where
  abbrev traded : Transaction → ℤ → ℤ
  traded t x = if leb_ℤ t.quantity (pos 0) then pos 0 else x

  -- The cash that one row moves, read off the row alone.
  abbrev pub cash_moved : Transaction → ℤ
  cash_moved t = elim t.type [
    | TxnType.deposit ↦ t.amount
    | TxnType.withdrawal ↦ neg_ℤ t.amount
    | TxnType.dividend ↦ t.amount
    | TxnType.interest ↦ t.amount
    | TxnType.fee ↦ neg_ℤ t.amount
    | TxnType.buy ↦ traded t (neg_ℤ (buy_cost t).1)
    | TxnType.reinvestment ↦ traded t (neg_ℤ (buy_cost t).1)
    | TxnType.sell ↦ traded t (t.quantity ⊛ t.price -ℤ t.fees)
    | _ ↦ pos 0
  ]

  abbrev MovesCash : Ledger → ℤ → Ledger → Type 0
  MovesCash l x l' = l'.cash ≡ l.cash +ℤ x

  minus : (a b : ℤ) → a -ℤ b ≡ a +ℤ neg_ℤ b
  minus a b = omega int_laws

  put_lots-cash : (k : _) (lots : List Lot) (l : Ledger) → (put_lots k lots l).cash ≡ l.cash
  put_lots-cash k lots l = elim (Option-cases (lookup k l.open_lots)) [
    | inl e ↦ rw (e, put_lots)
    | inr (w, e) ↦ rw (e, put_lots)
  ]

  do_buy-cash :
      (l : Ledger) (t : Transaction) → MovesCash l (traded t (neg_ℤ (buy_cost t).1)) (do_buy l t)
  unfolding do_buy
  do_buy-cash l t = elim (Bool-cases (leb_ℤ t.quantity (pos 0))) [
    | inl e ↦ rw e (sym (+ℤ_zero l.cash))
    | inr e ↦ rw e (minus l.cash (buy_cost t).1)
  ]

  do_sell-cash :
      (l : Ledger) (t : Transaction)
      → Ensures (MovesCash l (traded t (t.quantity ⊛ t.price -ℤ t.fees))) (do_sell l t)
  unfolding do_sell
  do_sell-cash l t = elim (Bool-cases (leb_ℤ t.quantity (pos 0))) [
    | inl e ↦ rw e (sym (+ℤ_zero l.cash))
    | inr e ↦ elim (Bool-cases (ltb_ℤ (shares_of (lots_of l t.ticker) +ℤ f.dust) t.quantity)) [
      | inl short ↦ rw (e, short) tt
      | inr enough ↦
          rw (e, enough)
            (ap (λ (c : ℤ). c +ℤ (t.quantity ⊛ t.price -ℤ t.fees)) (put_lots-cash t.ticker _ l))
    ]
  ]

  do_transfer_out-cash :
      (l : Ledger) (t : Transaction) → Ensures (MovesCash l (pos 0)) (do_transfer_out l t)
  unfolding do_transfer_out
  do_transfer_out-cash l t = elim (Bool-cases (leb_ℤ t.quantity (pos 0))) [
    | inl e ↦ rw e (sym (+ℤ_zero l.cash))
    | inr e ↦ elim (Bool-cases (ltb_ℤ (shares_of (lots_of l t.ticker) +ℤ f.dust) t.quantity)) [
      | inl short ↦ rw (e, short) tt
      | inr enough ↦ rw (e, enough) (put_lots-cash t.ticker _ l ∙ sym (+ℤ_zero l.cash))
    ]
  ]

  do_transfer_in-cash : (l : Ledger) (t : Transaction) → MovesCash l (pos 0) (do_transfer_in l t)
  unfolding do_transfer_in
  do_transfer_in-cash l t = elim (Bool-cases (leb_ℤ t.quantity (pos 0))) [
    | inl e ↦ rw e (sym (+ℤ_zero l.cash))
    | inr e ↦ rw e (sym (+ℤ_zero l.cash))
  ]

  do_split-cash : (l : Ledger) (t : Transaction) → MovesCash l (pos 0) (do_split l t)
  unfolding do_split
  do_split-cash l t = elim (Bool-cases (leb_ℤ t.quantity (pos 0))) [
    | inl e ↦ rw e (sym (+ℤ_zero l.cash))
    | inr e ↦ rw e (put_lots-cash t.ticker _ l ∙ sym (+ℤ_zero l.cash))
  ]

  apply_typed-cash :
      (l : Ledger) (t : Transaction) (k : TxnType)
      → t.type ≡ k
      → Ensures (MovesCash l (cash_moved t)) (apply l t)
  unfolding apply
  apply_typed-cash l t TxnType.buy e = rw (e, cash_moved) (do_buy-cash l t)
  apply_typed-cash l t TxnType.reinvestment e = rw (e, cash_moved) (do_buy-cash l t)
  apply_typed-cash l t TxnType.sell e = rw (e, cash_moved) (do_sell-cash l t)
  apply_typed-cash l t TxnType.split e = rw (e, cash_moved) (do_split-cash l t)
  apply_typed-cash l t TxnType.transfer_in e = rw (e, cash_moved) (do_transfer_in-cash l t)
  apply_typed-cash l t TxnType.transfer_out e = rw (e, cash_moved) (do_transfer_out-cash l t)
  apply_typed-cash l t TxnType.deposit e = rw (e, cash_moved) refl
  apply_typed-cash l t TxnType.withdrawal e = rw (e, cash_moved) (minus l.cash t.amount)
  apply_typed-cash l t TxnType.dividend e = rw (e, cash_moved) refl
  apply_typed-cash l t TxnType.interest e = rw (e, cash_moved) refl
  apply_typed-cash l t TxnType.fee e = rw (e, cash_moved) (minus l.cash t.amount)

  apply_all-cash :
      (l : Ledger) (ts : List Transaction)
      → Ensures (MovesCash l (sum (map cash_moved ts))) (apply_all l ts)
  unfolding apply_all
  apply_all-cash l [] = sym (+ℤ_zero l.cash)
  apply_all-cash l (t ∷ ts) =
      Ensures-bind (MovesCash l (cash_moved t)) (MovesCash l (sum (map cash_moved (t ∷ ts))))
        (apply l t) (λ l'. apply_all l' ts) (apply_typed-cash l t t.type refl)
        (λ l' e.
          Ensures-weaken (MovesCash l' (sum (map cash_moved ts)))
            (MovesCash l (sum (map cash_moved (t ∷ ts)))) (apply_all l' ts)
            (λ l'' e'.
              e'
              ∙ ap (λ (c : ℤ). c +ℤ sum (map cash_moved ts)) e
              ∙ +ℤ_assoc l.cash (cash_moved t) (sum (map cash_moved ts)))
            (apply_all-cash l' ts))

  -- The cash of a replayed history is the sum of what its rows move, in whatever order they are
  -- given: a trade of no shares moves none, and neither does a split or a transfer in kind.
  pub build_ledger-cash :
      (ts : List Transaction)
      → Ensures (λ (l : Ledger). l.cash ≡ sum (map cash_moved ts)) (build_ledger ts)
  unfolding build_ledger
  build_ledger-cash ts =
      rw
        (
          ← sum-sorted (λ (t : Transaction). t.when) cash_moved ts,
          ← zero_+ℤ (sum (map cash_moved (sorted (λ (t : Transaction). t.when) ts))),
        )
        (apply_all-cash empty (sorted (λ (t : Transaction). t.when) ts))
