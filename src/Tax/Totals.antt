-- ===== src/Tax/Totals.antt =====
-- The figures of a hypothetical sale (portfolio_analytics/domain/tax.py, `hypothetical_sale`).
use metron.Prelude.{
  ◌≡◌, subst, sym, ap, ◌∙◌, inl, inr, List, [], ◌∷◌, map, keep, Bool, not, arith, Bool-cases,
}
use metron.Prelude.Int.{
  ℤ, pos, ◌+ℤ◌, ◌-ℤ◌, ◌≤ℤ◌, sum, max_ℤ, leb_ℤ, ltb_ℤ, int_laws, zero_+ℤ, eq_of_parts,
}
use metron.Prelude.Result.{ok, Ensures, Ensures-unless, Ensures-any}
use metron.Prelude.Float.{Float, ◌⊛◌}
use metron.Prelude.Day.{Day}
use metron.Ledger.Records.{Lot, shares_of, RealizedGain}
use metron.Tax.Terms.{TaxRates, Term, is_long, tax_on_gain, net_capital_gains}
use metron.Tax.Sale.{
  LotMethod, SoldLot, HypotheticalSale, Chosen, sold_lots, lot_gain, price_sale, choose,
  hypothetical_sale,
}
use metron.Tax.Netting.{net_capital_gains-Netted}

sum_partition {ℓ} :
    {A : Type ℓ} (p : A → Bool) (g : A → ℤ) (xs : List A)
    → sum (map g (keep (λ x. not (p x)) xs)) +ℤ sum (map g (keep p xs)) ≡ sum (map g xs)
sum_partition p g [] = omega int_laws
sum_partition p g (x ∷ xs) = elim (Bool-cases (p x)) [
  | inl e ↦ rw (e, sym (sum_partition p g xs)) (omega int_laws)
  | inr e ↦ rw (e, sym (sum_partition p g xs)) (omega int_laws)
]

loss_taxed : (a : ℤ) → a ≤ℤ pos 0 → max_ℤ a (pos 0) ≡ pos 0
loss_taxed a h = ground (arith, eq_of_parts a (pos 0))

left_zero : (a b : ℤ) → pos 0 ≤ℤ a → pos 0 ≤ℤ b → a +ℤ b ≡ pos 0 → a ≡ pos 0
left_zero a b h k e = grind int_laws

right_zero : (a b : ℤ) → pos 0 ≤ℤ a → pos 0 ≤ℤ b → a +ℤ b ≡ pos 0 → b ≡ pos 0
right_zero a b h k e = grind int_laws

module _ ⦃f : Float⦄ where
  sold_lots-gain :
      (cs : List Chosen) (gs : List RealizedGain)
      → sum (map lot_gain (sold_lots cs gs))
        ≡ sum (map (λ s. s.proceeds) (sold_lots cs gs))
          -ℤ sum (map (λ s. s.cost_basis) (sold_lots cs gs))
  sold_lots-gain [] gs = omega int_laws
  sold_lots-gain (c ∷ cs) [] = omega int_laws
  sold_lots-gain (c ∷ cs) (g ∷ gs) = rw (sold_lots-gain cs gs) (omega int_laws)

  pub record IsBalanced (s : HypotheticalSale) : Type 0 where
    pub gain : s.gain_total ≡ s.proceeds -ℤ s.cost_basis
    pub taxable : s.taxable_st +ℤ s.taxable_lt ≡ max_ℤ (s.proceeds -ℤ s.cost_basis) (pos 0)

  abbrev AreGains : List SoldLot → Type 0
  AreGains sold =
      sum (map lot_gain sold)
      ≡ sum (map (λ s. s.proceeds) sold) -ℤ sum (map (λ s. s.cost_basis) sold)

  price_sale-IsBalanced :
      (m : LotMethod) (q p : ℤ) (r : TaxRates) (sold : List SoldLot)
      → AreGains sold
      → IsBalanced (price_sale m q p r sold)
  price_sale-IsBalanced m q p r sold h =
      let total = sum_partition (λ s. is_long s.term) lot_gain sold ∙ h in
      record {
        gain = total;
        taxable = (net_capital_gains-Netted _ _).total ∙ ap (λ (t : ℤ). max_ℤ t (pos 0)) total;
      }

  no_tax_of_loss :
      (zero_times : (a : ℤ) → pos 0 ⊛ a ≡ pos 0) (st lt : ℤ) (r : TaxRates)
      → st +ℤ lt ≤ℤ pos 0
      → let (a, b) = net_capital_gains st lt in
        tax_on_gain a Term.short_term r.short_term r.long_term
          +ℤ tax_on_gain b Term.long_term r.short_term r.long_term
          +ℤ (a +ℤ b) ⊛ r.state
        ≡ pos 0
  unfolding tax_on_gain
  no_tax_of_loss zero_times st lt r h =
      let n = net_capital_gains-Netted st lt in
      let none_left = n.total ∙ loss_taxed (st +ℤ lt) h in
      rw
        (
          left_zero _ _ n.st_nonneg n.lt_nonneg none_left,
          right_zero _ _ n.st_nonneg n.lt_nonneg none_left,
          zero_+ℤ (pos 0),
          zero_times r.state,
        )
        (omega int_laws)

  module _ (lots : List Lot) (q p : ℤ) (d : Day) (r : TaxRates) (m : LotMethod) where
    -- What holds of any lots at a price holds of a sale.
    hypothetical_sale-Ensures :
        (P : HypotheticalSale → Type 0)
        → ((sold : List SoldLot) → AreGains sold → P (price_sale m q p r sold))
        → Ensures P (hypothetical_sale lots q p d r m)
    unfolding hypothetical_sale
    hypothetical_sale-Ensures P h = Ensures-unless P (leb_ℤ q (pos 0)) _ _ (
        Ensures-unless P (ltb_ℤ p (pos 0)) _ _ (
          Ensures-unless P (ltb_ℤ (shares_of lots +ℤ f.dust) q) _ _
            (Ensures-any P (choose m lots q) _ (λ cs. h (sold_lots cs _) (sold_lots-gain cs _)))))

    -- The gain of a sale is its proceeds less its cost basis, and what is taxable of it is that
    -- gain, or nothing if it is a loss.
    pub hypothetical_sale-IsBalanced : Ensures IsBalanced (hypothetical_sale lots q p d r m)
    hypothetical_sale-IsBalanced =
        hypothetical_sale-Ensures IsBalanced (price_sale-IsBalanced m q p r)

    -- Where a product with zero is zero, a sale that gains nothing or loses is estimated to cost no
    -- tax, at any rates.
    pub hypothetical_sale-untaxed :
        (s : HypotheticalSale)
        → ((a : ℤ) → pos 0 ⊛ a ≡ pos 0)
        → hypothetical_sale lots q p d r m ≡ ok s
        → s.gain_total ≤ℤ pos 0
        → s.est_tax_total ≡ pos 0
    hypothetical_sale-untaxed s zero_times sold =
        subst (Ensures (λ s. s.gain_total ≤ℤ pos 0 → s.est_tax_total ≡ pos 0)) sold (
          hypothetical_sale-Ensures (λ s. s.gain_total ≤ℤ pos 0 → s.est_tax_total ≡ pos 0)
            (λ sold h loss. no_tax_of_loss zero_times _ _ r loss))
