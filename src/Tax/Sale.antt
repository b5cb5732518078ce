-- ===== src/Tax/Sale.antt =====
-- The hypothetical sale of one holding (portfolio_analytics/domain/tax.py). A lot chosen for it is
-- carried with its index.
use metron.Prelude.{
  ℕ, suc, List, [], ◌∷◌, map, keep, Option, none, some, Bool, false, not, get_elem?, ◌==◌, ◌||◌,
  if◌then◌else◌,
}
use metron.Prelude.Int.{ℤ, pos, negsuc, ◌+ℤ◌, ◌-ℤ◌, ltb_ℤ, leb_ℤ, abs_ℤ, sum}
use metron.Prelude.Result.{Result, ok, raised, ◌>>=◌, ◌>>◌, raise_if}
use metron.Prelude.Float.{Float, ◌⊛◌}
use metron.Prelude.Day.{Day}
use metron.Prelude.Sort.{sorted}
use metron.Ledger.Records.{Lot, RealizedGain, gain, holding_days, long_term_days, shares_of}
use metron.Ledger.Relief.{relieve_lots}
use metron.Tax.Terms.{Term, TaxRates, is_long, classify_term, tax_on_gain, net_capital_gains}

-- The index is any integer that the user sends.
pub record LotPick : Type 0 where
  pub lot_index : ℤ
  pub quantity : ℤ

pub data LotMethod : Type 0 where
  fifo : LotMethod
  specific : List LotPick → LotMethod

pub record SoldLot : Type 0 where
  pub lot_index : ℕ
  pub open_date : Day
  pub quantity : ℤ
  pub cost_per_share : ℤ
  pub proceeds : ℤ
  pub cost_basis : ℤ
  pub gain : ℤ
  pub holding_days : ℤ
  pub term : Term

pub record HypotheticalSale : Type 0 where
  pub method : LotMethod
  pub quantity : ℤ
  pub price : ℤ
  pub proceeds : ℤ
  pub cost_basis : ℤ
  pub gain_st : ℤ
  pub gain_lt : ℤ
  pub gain_total : ℤ
  pub taxable_st : ℤ
  pub taxable_lt : ℤ
  pub est_tax_st : ℤ
  pub est_tax_lt : ℤ
  pub est_tax_state : ℤ
  pub est_tax_total : ℤ
  pub lots : List SoldLot

pub data SaleError : Type 0 where
  quantity_not_positive price_negative exceeds_held no_picks total_mismatch : SaleError
  no_such_lot selected_twice pick_not_positive pick_exceeds_lot : ℤ → SaleError

-- `(index, quantity)` of `chosen`, with `lots[index]`
pub record Chosen : Type 0 where
  pub index : ℕ
  pub lot : Lot
  pub quantity : ℤ

-- `lots[i]`, for an `i` that Python's `0 <= i < len(lots)` lets through
abbrev pub lot_at : List Lot → ℤ → Option (ℕ × Lot)
lot_at lots (negsuc n) = none
lot_at lots (pos i) = elim (get_elem? lots i) [ none ↦ none | some lot ↦ some (i, lot) ]

abbrev pub contains : ℕ → List ℕ → Bool
contains i [] = false
contains i (j ∷ js) = j == i || contains i js

module _ ⦃f : Float⦄ where
  -- The loop of `_validated_picks`, over the indices seen.
  unfoldable pub check_picks : List Lot → List ℕ → List LotPick → Result SaleError (List Chosen)
  check_picks lots seen [] = ok []
  check_picks lots seen (pick ∷ picks) = elim (lot_at lots pick.lot_index) [
    | none ↦ raised (no_such_lot pick.lot_index)
    | some (i, lot) ↦
        if contains i seen
        then raised (selected_twice pick.lot_index)
        else if leb_ℤ pick.quantity (pos 0)
        then raised (pick_not_positive pick.lot_index)
        else if ltb_ℤ (lot.quantity +ℤ f.dust) pick.quantity
        then raised (pick_exceeds_lot pick.lot_index)
        else check_picks lots (i ∷ seen) picks >>= λ rest.
            ok (record { index = i; lot = lot; quantity = pick.quantity } ∷ rest)
  ]

  abbrev pub picked : List Chosen → ℤ
  picked chosen = sum (map (λ c. c.quantity) chosen)

  -- `_validated_picks`
  unfoldable pub validated_picks : List Lot → ℤ → List LotPick → Result SaleError (List Chosen)
  unfolding check_picks
  validated_picks lots quantity [] = raised no_picks
  validated_picks lots quantity (p ∷ ps) = check_picks lots [] (p ∷ ps) >>= λ chosen.
      if ltb_ℤ f.micro (abs_ℤ (picked chosen -ℤ quantity)) then raised total_mismatch else ok chosen

  abbrev pub numbered : ℕ → List Lot → List (ℕ × Lot)
  numbered i [] = []
  numbered i (l ∷ ls) = (i, l) ∷ numbered (suc i) ls

  abbrev pub date_of : ℕ × Lot → Day
  date_of (i, l) = l.open_date

  abbrev pub whole : ℕ × Lot → Chosen
  whole (i, l) = record { index = i; lot = l; quantity = l.quantity }

  abbrev pub worth_selling : ℕ × Lot → Bool
  worth_selling (i, l) = ltb_ℤ f.dust l.quantity

  -- The lots of a sale by date, ties in their order, without those of no more than dust.
  unfoldable pub fifo_order : List Lot → List Chosen
  fifo_order lots = map whole (keep worth_selling (sorted date_of (numbered 0 lots)))

  abbrev pub copy_of : Chosen → Lot
  copy_of c = record {
    ticker = c.lot.ticker;
    open_date = c.lot.open_date;
    quantity = c.quantity;
    cost_per_share = c.lot.cost_per_share;
  }

  abbrev pub sold_lot : Chosen → RealizedGain → SoldLot
  sold_lot c g = record {
    lot_index = c.index;
    open_date = g.open_date;
    quantity = g.quantity;
    cost_per_share = c.lot.cost_per_share;
    proceeds = g.proceeds;
    cost_basis = g.cost_basis;
    gain = gain g;
    holding_days = holding_days g;
    term = classify_term (some (holding_days g)) long_term_days;
  }

  -- `zip(chosen, realized, strict=False)`
  abbrev pub sold_lots : List Chosen → List RealizedGain → List SoldLot
  sold_lots [] gs = []
  sold_lots (c ∷ cs) [] = []
  sold_lots (c ∷ cs) (g ∷ gs) = sold_lot c g ∷ sold_lots cs gs

  abbrev pub lot_gain : SoldLot → ℤ
  lot_gain s = s.gain

  abbrev pub price_sale : LotMethod → ℤ → ℤ → TaxRates → List SoldLot → HypotheticalSale
  price_sale method quantity price rates sold =
      let gain_st = sum (map lot_gain (keep (λ s. not (is_long s.term)) sold)) in
      let gain_lt = sum (map lot_gain (keep (λ s. is_long s.term) sold)) in
      let (taxable_st, taxable_lt) = net_capital_gains gain_st gain_lt in
      let tax_st = tax_on_gain taxable_st Term.short_term rates.short_term rates.long_term in
      let tax_lt = tax_on_gain taxable_lt Term.long_term rates.short_term rates.long_term in
      let tax_state = (taxable_st +ℤ taxable_lt) ⊛ rates.state in
      record {
        method = method;
        quantity = quantity;
        price = price;
        proceeds = sum (map (λ s. s.proceeds) sold);
        cost_basis = sum (map (λ s. s.cost_basis) sold);
        gain_st = gain_st;
        gain_lt = gain_lt;
        gain_total = gain_st +ℤ gain_lt;
        taxable_st = taxable_st;
        taxable_lt = taxable_lt;
        est_tax_st = tax_st;
        est_tax_lt = tax_lt;
        est_tax_state = tax_state;
        est_tax_total = tax_st +ℤ tax_lt +ℤ tax_state;
        lots = sold;
      }

  abbrev pub choose : LotMethod → List Lot → ℤ → Result SaleError (List Chosen)
  choose LotMethod.fifo lots quantity = ok (fifo_order lots)
  choose (LotMethod.specific picks) lots quantity = validated_picks lots quantity picks

  -- `relieve_lots` on copies, so the lots given stay as they are.
  abbrev pub sell_chosen : LotMethod → ℤ → ℤ → Day → TaxRates → List Chosen → HypotheticalSale
  sell_chosen method quantity price asof rates chosen =
      price_sale method quantity price rates
        (sold_lots chosen (relieve_lots (map (λ c. copy_of c) chosen) quantity asof price).realized)

  unfoldable pub hypothetical_sale :
      List Lot → ℤ → ℤ → Day → TaxRates → LotMethod → Result SaleError HypotheticalSale
  hypothetical_sale lots quantity price asof rates method = do
    raise_if (leb_ℤ quantity (pos 0)) quantity_not_positive
    raise_if (ltb_ℤ price (pos 0)) price_negative
    raise_if (ltb_ℤ (shares_of lots +ℤ f.dust) quantity) exceeds_held
    chosen ← choose method lots quantity
    ok (sell_chosen method quantity price asof rates chosen)

pub record SaleDelta : Type 0 where
  pub cost_basis : ℤ
  pub gain_st : ℤ
  pub gain_lt : ℤ
  pub gain_total : ℤ
  pub est_tax_total : ℤ

unfoldable pub sale_delta : HypotheticalSale → HypotheticalSale → SaleDelta
sale_delta selected baseline = record {
  cost_basis = selected.cost_basis -ℤ baseline.cost_basis;
  gain_st = selected.gain_st -ℤ baseline.gain_st;
  gain_lt = selected.gain_lt -ℤ baseline.gain_lt;
  gain_total = selected.gain_total -ℤ baseline.gain_total;
  est_tax_total = selected.est_tax_total -ℤ baseline.est_tax_total;
}
