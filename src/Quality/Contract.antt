-- ===== src/Quality/Contract.antt =====
-- `check_snapshot_contract` of portfolio_analytics/ingestion/quality.py: every record of a snapshot, list by list.
use metron.Prelude.{
  ℕ, zero, suc, String, Bool, true, false, not, ◌&&◌, Option, none, some, List, [], ◌∷◌,
}
use metron.Prelude.{◌++◌, map, ltb}
use metron.Prelude.Int.{pos}
use metron.Prelude.Day.{Day}
use metron.Prelude.Texts.{contains, keys}
use metron.Prelude.Dict.{Dict, lookup}
use metron.Prelude.Keys.{setdefault}
use metron.Quality.Finding.{
  Reading, Subject, Detail, Finding, flag, mark, is_negative, is_not_positive, value_of,
  check_finite, check_currency, check_not_future,
}
use metron.Quality.Activities.{Activity, is_empty, check_activity}
use text.Mathlib.Text.{◌==◌}

pub record Account : Type 0 where
  pub number : String
  pub nav_usd : Reading
  pub cash_usd : Reading
  pub currency : Option String
  pub tax_treatment : String
  pub as_of : Option Day

pub record Security : Type 0 where
  pub security_id : String
  pub ticker : String
  pub currency : Option String
  pub asset_type : String

pub record Holding : Type 0 where
  pub account_number : String
  pub security_id : String
  pub quantity : Reading
  pub cost_basis : Reading
  pub avg_cost : Reading
  pub market_value_local : Reading
  pub currency : Option String
  pub as_of : Option Day

pub record OpenLot : Type 0 where
  pub account_number : String
  pub quantity : Reading
  pub cost_basis : Reading
  pub currency : Option String
  pub open_date : Option Day

pub record RealizedLot : Type 0 where
  pub account_number : String
  pub quantity : Reading
  pub proceeds : Reading
  pub cost_basis : Reading
  pub open_date : Option Day
  pub close_date : Option Day

pub record Snapshot : Type 0 where
  pub accounts : List Account
  pub securities : List Security
  pub holdings : List Holding
  pub open_lots : List OpenLot
  pub activities : List Activity
  pub realized_lots : List RealizedLot

abbrev tax_treatments : List String
tax_treatments = "" ∷ "taxable" ∷ "tax_deferred" ∷ "tax_exempt" ∷ []

abbrev asset_types : List String
asset_types = "EQUITY" ∷ "ETF" ∷ "FUND" ∷ "OPTION" ∷ "CASH" ∷ "OTHER" ∷ []

-- `for i, x in enumerate(xs)`, from `i` on
abbrev pub check_each {ℓ} : {A : Type ℓ} → (ℕ → A → List Finding) → ℕ → List A → List Finding
check_each check i [] = []
check_each check i (x ∷ xs) = check i x ++ check_each check (suc i) xs

module _ (today : Day) where
  abbrev pub check_account : ℕ → Account → List Finding
  check_account i a =
      let s = Subject.account i in
      mark s (is_empty a.number) Detail.empty_account_number
      ++ check_finite s "nav_usd" a.nav_usd
      ++ check_finite s "cash_usd" a.cash_usd
      ++ check_currency s a.currency
      ++ mark s (not (contains a.tax_treatment tax_treatments)) Detail.unknown_tax_treatment
      ++ check_not_future today s "as_of" a.as_of

  -- The identity that a security was first declared with: its ticker and its currency.
  abbrev pub Identity : Type 0
  Identity = String × Option String

  abbrev same_code : Option String → Option String → Bool
  same_code none none = true
  same_code (some a) (some b) = a == b
  same_code _ _ = false

  abbrev differs : Identity → Option Identity → Bool
  differs i none = false
  differs i (some j) = not (i.0 == j.0 && same_code (i.1) (j.1))

  abbrev identity_of : Security → Identity
  identity_of sec = (sec.ticker, sec.currency)

  abbrev pub check_security : ℕ → Dict Identity → Security → List Finding
  check_security i seen sec =
      let s = Subject.security i in
      mark s (is_empty sec.security_id) Detail.empty_security_id
      ++ mark s (is_empty sec.ticker) Detail.no_ticker
      ++ check_currency s sec.currency
      ++ mark s (not (contains sec.asset_type asset_types)) Detail.unknown_asset_type
      ++ mark s (differs (identity_of sec) (lookup sec.security_id seen)) Detail.declared_twice

  -- The findings, and the securities that are declared.
  abbrev pub check_securities : ℕ → Dict Identity → List Security → List Finding × Dict Identity
  check_securities i seen [] = ([], seen)
  check_securities i seen (sec ∷ secs) =
      let rest =
        check_securities (suc i) (setdefault sec.security_id (identity_of sec) seen) secs in
      (check_security i seen sec ++ rest.0, rest.1)

  module _ (accounts securities : List String) where
    abbrev pub check_holding : ℕ → Holding → List Finding
    check_holding i h =
        let s = Subject.holding i in
        mark s (not (contains h.account_number accounts)) Detail.unknown_account
        ++ mark s (not (contains h.security_id securities)) Detail.unknown_security
        ++ check_finite s "quantity" h.quantity
        ++ check_finite s "cost_basis" h.cost_basis
        ++ check_finite s "avg_cost" h.avg_cost
        ++ check_finite s "market_value_local" h.market_value_local
        ++ flag s (is_negative h.avg_cost) Detail.negative_avg_cost (value_of h.avg_cost) none
        ++ check_currency s h.currency
        ++ check_not_future today s "as_of" h.as_of

    abbrev is_zero : Reading → Bool
    is_zero (Reading.finite (pos zero)) = true
    is_zero _ = false

    abbrev pub check_open_lot : ℕ → OpenLot → List Finding
    check_open_lot i lot =
        let s = Subject.open_lot i in
        mark s (not (contains lot.account_number accounts)) Detail.unknown_account
        ++ check_finite s "quantity" lot.quantity
        ++ flag s (is_zero lot.quantity) Detail.zero_quantity (some (pos 0)) none
        ++ check_finite s "cost_basis" lot.cost_basis
        ++ check_currency s lot.currency
        ++ check_not_future today s "open_date" lot.open_date

    abbrev closed_first : Option Day → Option Day → Bool
    closed_first (some opened) (some closed) = ltb closed opened
    closed_first _ _ = false

    abbrev pub check_realized_lot : ℕ → RealizedLot → List Finding
    check_realized_lot i g =
        let s = Subject.realized_lot i in
        mark s (not (contains g.account_number accounts)) Detail.unknown_account
        ++ check_finite s "quantity" g.quantity
        ++ check_finite s "proceeds" g.proceeds
        ++ check_finite s "cost_basis" g.cost_basis
        ++ flag s (is_not_positive g.quantity) Detail.closed_lot_not_positive (value_of g.quantity)
            none
        ++ flag s (closed_first g.open_date g.close_date) Detail.closed_before_opened none
            g.close_date
        ++ check_not_future today s "close_date" g.close_date

  -- `_check_activity` at the place `i` of the list.
  abbrev pub check_activity_at : List String → List String → ℕ → Activity → List Finding
  check_activity_at accounts securities i a =
      check_activity today (Subject.activity i) accounts securities a

  unfoldable pub check_snapshot_contract : Snapshot → List Finding
  unfolding check_activity
  check_snapshot_contract x =
      let accounts = map (λ (a : Account). a.number) x.accounts in
      let declared = check_securities 0 [] x.securities in
      let securities = keys (declared.1) in
      check_each check_account 0 x.accounts
      ++ declared.0
      ++ check_each (check_holding accounts securities) 0 x.holdings
      ++ check_each (check_open_lot accounts securities) 0 x.open_lots
      ++ check_each (check_activity_at accounts securities) 0 x.activities
      ++ check_each (check_realized_lot accounts securities) 0 x.realized_lots
