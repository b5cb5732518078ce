-- ===== src/Tax/Terms.antt =====
-- Terms, the tax on one gain and the netting of gains (portfolio_analytics/domain/tax.py).
use metron.Prelude.{Option, none, some, Bool, true, false, ◌&&◌, not, if◌then◌else◌}
use metron.Prelude.Int.{ℤ, pos, ◌+ℤ◌, ltb_ℤ, leb_ℤ, max_ℤ, neg_ℤ}
use metron.Prelude.Result.{Result, ok, raised}
use metron.Prelude.Float.{Float, ◌⊛◌}

pub data Term : Type 0 where
  short_term long_term unknown : Term

abbrev pub is_long : Term → Bool
is_long Term.long_term = true
is_long _ = false

unfoldable pub classify_term : Option ℤ → ℤ → Term
classify_term none long_term_days = Term.unknown
classify_term (some days) long_term_days =
    if ltb_ℤ long_term_days days then Term.long_term else Term.short_term

unfoldable pub tax_on_gain : ⦃f : Float⦄ → ℤ → Term → ℤ → ℤ → ℤ
tax_on_gain gain term short_term_rate long_term_rate =
    if leb_ℤ gain (pos 0)
    then pos 0
    else gain ⊛ (if is_long term then long_term_rate else short_term_rate)

unfoldable pub harvestable_loss : ℤ → ℤ
harvestable_loss gain = if ltb_ℤ gain (pos 0) then neg_ℤ gain else pos 0

unfoldable pub net_capital_gains : ℤ → ℤ → ℤ × ℤ
net_capital_gains st lt =
    if leb_ℤ (pos 0) st && leb_ℤ (pos 0) lt
    then (st, lt)
    else if ltb_ℤ st (pos 0) && ltb_ℤ lt (pos 0)
    then (pos 0, pos 0)
    else if ltb_ℤ st (pos 0)
    then (pos 0, max_ℤ (lt +ℤ st) (pos 0))
    else (max_ℤ (st +ℤ lt) (pos 0), pos 0)

pub record TaxRates : Type 0 where
  pub short_term : ℤ
  pub long_term : ℤ
  pub state : ℤ

pub data RateError : Type 0 where
  short_term_rate long_term_rate state_rate : RateError

abbrev is_rate : ⦃f : Float⦄ → ℤ → Bool
is_rate ⦃f⦄ r = leb_ℤ (pos 0) r && leb_ℤ r f.one

-- `TaxRates.__post_init__`
unfoldable pub check_rates : ⦃f : Float⦄ → TaxRates → Result RateError TaxRates
check_rates r =
    if not (is_rate r.short_term)
    then raised short_term_rate
    else if not (is_rate r.long_term)
    then raised long_term_rate
    else if not (is_rate r.state)
    then raised state_rate
    else ok r
