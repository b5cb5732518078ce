-- ===== src/Ledger/Shares.antt =====
-- How each row moves the shares of its ticker (portfolio_analytics/domain/ledger.py).
use metron.Prelude.{
  ◌≡◌, ◌≢◌, refl, sym, ap, ◌∙◌, String, List, [], ◌++◌, map, none, some, false, inl, inr,
  Bool-cases, Option-cases, arith,
}
use metron.Prelude.Int.{
  ℤ, pos, ◌+ℤ◌, ◌≤ℤ◌, ◌<ℤ◌, ltb_ℤ, leb_ℤ, neg_ℤ, sum, int_laws, sum-append, +ℤ_zero,
}
use mathlib.Core.List.{map-append}
use metron.Prelude.Result.{Ensures}
use metron.Prelude.Float.{Float, HasUnit, ◌⊛◌}
use metron.Prelude.Dict.{Dict, lookup, get_or, get_or_missing, get_or-insert_self, get_or-insert_ne}
use metron.Ledger.Records.{TxnType, Transaction, Lot, Ledger, lots_of, shares_of, position_sign}
use metron.Ledger.Relief.{relieve_lots, relieve_loop}
use metron.Ledger.Relief.Conserve.{relieve_lots-shares}
use metron.Ledger.Apply.{buy_cost, open_lot, put_lots, apply}

abbrev pub held : Ledger → String → ℤ
held l t = shares_of (lots_of l t)

shares_of-append : (xs ys : List Lot) → shares_of (xs ++ ys) ≡ shares_of xs +ℤ shares_of ys
shares_of-append xs ys =
    ap sum (map-append (λ (l : Lot). l.quantity) xs ys) ∙ sum-append (map (λ l. l.quantity) xs) _

module _ ⦃f : Float⦄ where
  relieve_lots-nil : (q : ℤ) (d : _) (p : ℤ) → (relieve_lots [] q d p).lots ≡ []
  unfolding relieve_lots relieve_loop
  relieve_lots-nil q d p = refl

  lots_of-put_lots :
      (k : String) (lots : List Lot) (l : Ledger)
      → (lots_of l k ≡ [] → lots ≡ [])
      → lots_of (put_lots k lots l) k ≡ lots
  lots_of-put_lots k lots l h = elim (Option-cases (lookup k l.open_lots)) [
    | inl e ↦
        let nothing = get_or_missing k [] l.open_lots e in
        rw (put_lots, e) (nothing ∙ sym (h nothing))
    | inr (w, e) ↦ rw (put_lots, e) (get_or-insert_self k [] lots l.open_lots)
  ]

  pub lots_of-put_lots_ne :
      (k j : String) (lots : List Lot) (l : Ledger)
      → j ≢ k
      → lots_of (put_lots k lots l) j ≡ lots_of l j
  lots_of-put_lots_ne k j lots l h = elim (Option-cases (lookup k l.open_lots)) [
    | inl e ↦ rw (put_lots, e)
    | inr (w, e) ↦ rw (put_lots, e) (get_or-insert_ne k j [] lots l.open_lots h)
  ]

  -- The shares that a row moves, by the sign of its type.
  abbrev pub shares_moved : Transaction → ℤ
  shares_moved t = elim (position_sign t.type) [ none ↦ pos 0 | some s ↦ s ⊛ t.quantity ]

  abbrev pub Near : ℤ → ℤ → Type 0
  Near a b = (a ≤ℤ b +ℤ f.dust) × (b ≤ℤ a +ℤ f.dust)

  abbrev pub Moves : Ledger → Transaction → ℤ → Dict (List Lot) → Type 0
  Moves l t m lots = Near (shares_of (get_or t.ticker [] lots)) (held l t.ticker +ℤ m)

  held-open_lot :
      (t : Transaction) (cost : ℤ) (l : Ledger)
      → held (open_lot t cost l) t.ticker ≡ held l t.ticker +ℤ t.quantity
  held-open_lot t cost l =
      ap shares_of (get_or-insert_self t.ticker [] _ l.open_lots)
      ∙ shares_of-append (lots_of l t.ticker) _
      ∙ ap (λ (n : ℤ). held l t.ticker +ℤ n) (+ℤ_zero t.quantity)

  Near-self : pos 0 ≤ℤ f.dust → (a b : ℤ) → a ≡ b → Near a b
  Near-self z a b e = rw e (omega int_laws, omega int_laws)

  module _ (u : HasUnit) (z : pos 0 ≤ℤ f.dust) (l : Ledger) (t : Transaction)
      (q : pos 0 <ℤ t.quantity) where
    traded : leb_ℤ t.quantity (pos 0) ≡ false
    traded = ground arith

    adds : (cost : ℤ) → Moves l t (f.one ⊛ t.quantity) (open_lot t cost l).open_lots
    adds cost = Near-self z _ _ (rw (u.one_times t.quantity) (held-open_lot t cost l))

    removes :
        (p : ℤ)
        → ltb_ℤ (held l t.ticker +ℤ f.dust) t.quantity ≡ false
        → Moves l t
            (neg_ℤ f.one ⊛ t.quantity)
            (put_lots t.ticker
              (relieve_lots (lots_of l t.ticker) t.quantity t.when p).lots
              l).open_lots
    removes p enough =
        rw
          (
            u.neg_one_times t.quantity,
            lots_of-put_lots t.ticker (relieve_lots (lots_of l t.ticker) t.quantity t.when p).lots l
                (λ e. rw e (relieve_lots-nil t.quantity t.when p)),
          )
          (let s =
              relieve_lots-shares (lots_of l t.ticker) t.quantity t.when p z (omega int_laws)
                (ground arith) in
            (omega int_laws, omega int_laws))

    stays : Moves l t (pos 0) l.open_lots
    stays = Near-self z _ _ (sym (+ℤ_zero _))

    apply_typed-shares :
        (k : TxnType)
        → t.type ≡ k
        → k ≢ TxnType.split
        → Ensures (λ l'. Moves l t (shares_moved t) l'.open_lots) (apply l t)
    unfolding apply
    apply_typed-shares TxnType.buy e h = rw (e, shares_moved, traded) (adds (buy_cost t).0)
    apply_typed-shares TxnType.reinvestment e h = rw (e, shares_moved, traded) (adds (buy_cost t).0)
    apply_typed-shares TxnType.transfer_in e h = rw (e, shares_moved, traded) (adds _)
    apply_typed-shares TxnType.sell e h =
        elim (Bool-cases (ltb_ℤ (held l t.ticker +ℤ f.dust) t.quantity)) [
          | inl short ↦ rw (e, traded, short) tt
          | inr enough ↦ rw (e, shares_moved, traded, enough) (removes _ enough)
        ]
    apply_typed-shares TxnType.transfer_out e h =
        elim (Bool-cases (ltb_ℤ (held l t.ticker +ℤ f.dust) t.quantity)) [
          | inl short ↦ rw (e, traded, short) tt
          | inr enough ↦ rw (e, shares_moved, traded, enough) (removes _ enough)
        ]
    apply_typed-shares TxnType.split e h = absurd (h refl)
    apply_typed-shares TxnType.deposit e h = rw (e, shares_moved) stays
    apply_typed-shares TxnType.withdrawal e h = rw (e, shares_moved) stays
    apply_typed-shares TxnType.dividend e h = rw (e, shares_moved) stays
    apply_typed-shares TxnType.interest e h = rw (e, shares_moved) stays
    apply_typed-shares TxnType.fee e h = rw (e, shares_moved) stays

    -- A row of a positive quantity, not a split, that does not raise moves the shares of its
    -- ticker by its quantity under the sign of `POSITION_SIGN`, up to the tolerance. The tolerance is
    -- not negative, and a product with 1.0 or with -1.0 is the number or its negative.
    pub apply-shares :
        t.type ≢ TxnType.split → Ensures (λ l'. Moves l t (shares_moved t) l'.open_lots) (apply l t)
    apply-shares h = apply_typed-shares t.type refl h
