-- ===== src/Tax/Tests.antt =====
-- Runs of the hypothetical sale, and the theorems at them.
use metron.Prelude.{◌≡◌, refl, List, [], ◌∷◌, arith}
use metron.Prelude.Int.{ℤ, pos, negsuc, ◌+ℤ◌, ◌-ℤ◌, ◌*ℤ◌, ◌≤ℤ◌}
use metron.Prelude.Result.{Result, ok, raised, Ensures}
use metron.Prelude.Units.{whole_units, thousandths, zero_times}
use metron.Prelude.Sort.{sorted}
use metron.Ledger.Records.{Lot}
use metron.Ledger.Relief.{relieve_lots}
use metron.Tax.Terms.{TaxRates, check_rates, net_capital_gains, classify_term, tax_on_gain}
use metron.Tax.Sale.{
  LotPick, LotMethod, HypotheticalSale, SaleError, sell_chosen, fifo_order, validated_picks,
  hypothetical_sale, selected_twice,
}
use metron.Tax.Netting.{Netted, net_capital_gains-Netted}
use metron.Tax.Picks.{IsSelection, validated_picks-IsSelection}
use metron.Tax.Totals.{IsBalanced, hypothetical_sale-IsBalanced, hypothetical_sale-untaxed}

abbrev newer : Lot
newer = record { ticker = "VTI"; open_date = 738200; quantity = pos 5; cost_per_share = pos 9 }

abbrev older : Lot
older = record { ticker = "VTI"; open_date = 738001; quantity = pos 10; cost_per_share = pos 6 }

abbrev lots : List Lot
lots = newer ∷ older ∷ []

abbrev rates : TaxRates
rates = record { short_term = pos 3; long_term = pos 2; state = pos 1 }

abbrev picks : List LotPick
picks =
    record { lot_index = pos 1; quantity = pos 4 }
    ∷ record { lot_index = pos 0; quantity = pos 5 }
    ∷ []

abbrev gains_of : Result SaleError HypotheticalSale → Result SaleError (ℤ × ℤ)
gains_of (ok s) = ok (s.gain_total, s.est_tax_total)
gains_of (raised e) = raised e

-- Twelve shares by date: ten at 6 held for 499 days, two at 9 held for 300.
fifo_gains :
    gains_of (hypothetical_sale lots (pos 12) (pos 8) 738500 rates LotMethod.fifo)
    ≡ ok (pos 18, pos 54)
unfolding hypothetical_sale ◌+ℤ◌ fifo_order sorted relieve_lots classify_term ◌-ℤ◌ ◌*ℤ◌ tax_on_gain
    net_capital_gains
fifo_gains = refl

picked_twice :
    gains_of (
      hypothetical_sale lots (pos 2) (pos 8) 738500 rates (
        LotMethod.specific (
          record { lot_index = pos 1; quantity = pos 1 }
          ∷ record { lot_index = pos 1; quantity = pos 1 }
          ∷ [])))
    ≡ raised (selected_twice (pos 1))
unfolding hypothetical_sale validated_picks ◌+ℤ◌
picked_twice = refl

net_capital_gains-Netted_example :
    Netted (negsuc 4) (pos 20) (net_capital_gains (negsuc 4) (pos 20))
net_capital_gains-Netted_example = net_capital_gains-Netted (negsuc 4) (pos 20)

validated_picks-IsSelection_example :
    Ensures (IsSelection lots (pos 9)) (validated_picks lots (pos 9) picks)
validated_picks-IsSelection_example = validated_picks-IsSelection lots (pos 9) picks

hypothetical_sale-IsBalanced_example :
    Ensures IsBalanced (hypothetical_sale lots (pos 12) (pos 8) 738500 rates LotMethod.fifo)
hypothetical_sale-IsBalanced_example =
    hypothetical_sale-IsBalanced lots (pos 12) (pos 8) 738500 rates LotMethod.fifo

-- In thousandths: ten and a half shares, and five, at rates of 30%, 20% and 10%.
abbrev fractional_lots : List Lot
fractional_lots =
    record newer { quantity = pos 5000; cost_per_share = pos 9000 }
    ∷ record older { quantity = pos 10500; cost_per_share = pos 6125 }
    ∷ []

abbrev percent_rates : TaxRates
percent_rates = record { short_term = pos 300; long_term = pos 200; state = pos 100 }

allowed_rates : check_rates ⦃f = thousandths⦄ percent_rates ≡ ok percent_rates
unfolding check_rates
allowed_rates = refl

abbrev losing_sale : HypotheticalSale
losing_sale =
    sell_chosen ⦃f = thousandths⦄ LotMethod.fifo (pos 12000) (pos 5500) 738500 percent_rates
      (fifo_order ⦃f = thousandths⦄ fractional_lots)

sold_at_a_loss :
    hypothetical_sale ⦃f = thousandths⦄ fractional_lots
      (pos 12000)
      (pos 5500)
      738500
      percent_rates
      LotMethod.fifo
    ≡ ok losing_sale
unfolding hypothetical_sale ◌+ℤ◌
sold_at_a_loss = refl

loss_of_sale : losing_sale.gain_total ≤ℤ pos 0
unfolding ◌+ℤ◌ fifo_order sorted relieve_lots classify_term ◌-ℤ◌ ◌*ℤ◌ tax_on_gain net_capital_gains
loss_of_sale = omega arith

hypothetical_sale-untaxed_example : losing_sale.est_tax_total ≡ pos 0
hypothetical_sale-untaxed_example =
    hypothetical_sale-untaxed ⦃f = thousandths⦄ fractional_lots (pos 12000) (pos 5500) 738500
      percent_rates LotMethod.fifo losing_sale zero_times sold_at_a_loss loss_of_sale
