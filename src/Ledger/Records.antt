-- ===== src/Ledger/Records.antt =====
-- The types of portfolio_analytics/domain/ledger.py. Dates are ordinals; amounts and share counts
-- are `Float` values; `ValueError` is a value of `Error`, one for each place that raises it.
use metron.Prelude.{Option, none, some, String, List, [], map, Bool, true, false}
use metron.Prelude.Int.{ℤ, pos, ◌-ℤ◌, ltb_ℤ, sum, neg_ℤ}
use metron.Prelude.Float.{Float, ◌⊛◌}
use metron.Prelude.Day.{Day, days_between}
use metron.Prelude.Dict.{Dict, get_or}

abbrev pub long_term_days : ℤ
long_term_days = pos 365

pub data TxnType : Type 0 where
  buy reinvestment sell dividend interest deposit withdrawal fee split : TxnType
  transfer_in transfer_out : TxnType

-- `TxnType.is_purchase`, membership in `PURCHASE_TYPES`
abbrev pub is_purchase : TxnType → Bool
is_purchase TxnType.buy = true
is_purchase TxnType.reinvestment = true
is_purchase _ = false

pub record Transaction : Type 0 where
  pub when : Day
  pub type : TxnType
  pub ticker : String
  pub quantity : ℤ
  pub price : ℤ
  pub amount : ℤ
  pub fees : ℤ
  pub currency : String

pub record Lot : Type 0 where
  pub ticker : String
  pub open_date : Day
  pub quantity : ℤ
  pub cost_per_share : ℤ

pub record RealizedGain : Type 0 where
  pub ticker : String
  pub open_date : Day
  pub close_date : Day
  pub quantity : ℤ
  pub proceeds : ℤ
  pub cost_basis : ℤ

abbrev pub gain : RealizedGain → ℤ
gain r = r.proceeds -ℤ r.cost_basis

abbrev pub holding_days : RealizedGain → ℤ
holding_days r = days_between r.open_date r.close_date

abbrev pub long_term : RealizedGain → Bool
long_term r = ltb_ℤ long_term_days (holding_days r)

pub record Ledger : Type 0 where
  pub open_lots : Dict (List Lot)
  pub realized : List RealizedGain
  pub cash : ℤ

pub data Error : Type 0 where
  sell_exceeds_held transfer_exceeds_held : Error

abbrev pub empty : Ledger
empty = record { open_lots = []; realized = []; cash = pos 0 }

-- `sum(lot.quantity for lot in lots)`
abbrev pub shares_of : List Lot → ℤ
shares_of lots = sum (map (λ l. l.quantity) lots)

-- `ledger.open_lots.get(ticker, [])`
abbrev pub lots_of : Ledger → String → List Lot
lots_of l t = get_or t [] l.open_lots

module _ ⦃f : Float⦄ where
  abbrev pub cost_basis : Lot → ℤ
  cost_basis l = l.quantity ⊛ l.cost_per_share

  abbrev pub basis_of : List Lot → ℤ
  basis_of lots = sum (map (λ l. cost_basis l) lots)

-- `POSITION_SIGN`; a type that the map lacks moves no shares.
abbrev pub position_sign : ⦃f : Float⦄ → TxnType → Option ℤ
position_sign ⦃f⦄ TxnType.buy = some f.one
position_sign ⦃f⦄ TxnType.reinvestment = some f.one
position_sign ⦃f⦄ TxnType.transfer_in = some f.one
position_sign ⦃f⦄ TxnType.sell = some (neg_ℤ f.one)
position_sign ⦃f⦄ TxnType.transfer_out = some (neg_ℤ f.one)
position_sign ⦃f⦄ _ = none
