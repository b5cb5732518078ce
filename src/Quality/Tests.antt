-- ===== src/Quality/Tests.antt =====
-- Runs of the gates, and the theorems at them.
use metron.Prelude.{◌≡◌, refl, none, some, List, [], ◌∷◌, map, All, true, false}
use metron.Prelude.Int.{pos, negsuc, ◌+ℤ◌, ◌-ℤ◌, ◌*ℤ◌}
use metron.Prelude.Units.{whole_units, thousandths}
use metron.Prelude.Result.{ok}
use metron.Prelude.Sort.{sorted}
use metron.Ledger.Records.{TxnType, Transaction, empty}
use metron.Ledger.Apply.{apply}
use metron.Quality.Finding.{Reading, Detail, Finding, is_iso_code}
use metron.Quality.Activities.{Activity, check_activity}
use metron.Quality.Contract.{Snapshot, Account, Security, check_snapshot_contract}
use metron.Quality.Visible.{Has, points_at, check_snapshot_contract-Has}
use metron.Quality.Prices.{
  Thresholds, ClosePoint, check_price_point, classify_move, series_of, chain_of, check_price_series,
}
use metron.Quality.Calm.{IsUsable, AreQuiet, check_price_series-clean}

abbrev details : List Finding → List Detail
details fs = map (λ (x : Finding). x.detail) fs

-- A currency is three capitals; the pattern lets a newline follow.
currencies :
    is_iso_code "USD" ∷ is_iso_code "usd" ∷ is_iso_code "USDT" ∷ is_iso_code "USD\n" ∷ []
    ≡ true ∷ false ∷ false ∷ true ∷ []
currencies = refl

abbrev broker : Account
broker = record {
  number = "U1";
  nav_usd = Reading.finite (pos 100);
  cash_usd = Reading.finite (pos 5);
  currency = some "USD";
  tax_treatment = "taxable";
  as_of = some 739000;
}

abbrev vti : Security
vti = record { security_id = "VTI"; ticker = "VTI"; currency = some "USD"; asset_type = "ETF" }

abbrev no_shares : Activity
no_shares = record {
  account_number = "U1";
  security_id = "VTI";
  type = TxnType.buy;
  quantity = Reading.finite (pos 0);
  price = Reading.finite (pos 7);
  amount = Reading.not_finite;
  fees = Reading.finite (negsuc 0);
  currency = some "USD";
  when = some 739002;
}

abbrev snapshot : Snapshot
snapshot = record {
  accounts = broker ∷ [];
  securities = vti ∷ record vti { currency = some "EUR" } ∷ [];
  holdings = [];
  open_lots = [];
  activities = no_shares ∷ [];
  realized_lots = [];
}

snapshot_findings :
    details (check_snapshot_contract 739000 snapshot)
    ≡ Detail.declared_twice
      ∷ Detail.not_a_number "amount"
      ∷ Detail.in_future "when"
      ∷ Detail.negative_fees
      ∷ Detail.quantity_not_positive
      ∷ []
unfolding check_snapshot_contract check_activity
snapshot_findings = refl

abbrev bought_nothing : Transaction
bought_nothing = record {
  when = 739002;
  type = TxnType.buy;
  ticker = "VTI";
  quantity = pos 0;
  price = pos 7;
  amount = pos 0;
  fees = pos 0;
  currency = "USD";
}

check_snapshot_contract-Has_example :
    (apply empty bought_nothing ≡ ok empty)
    × Has (points_at 0) (check_snapshot_contract 739000 snapshot)
check_snapshot_contract-Has_example =
    check_snapshot_contract-Has 739000 snapshot 0 no_shares empty bought_nothing refl refl refl refl

-- In thousandths.
abbrev limits : Thresholds
limits = record { price_outlier_max_move = pos 300; split_ratio_match_tolerance = pos 100 }

abbrev closes : List ClosePoint
closes =
    record { bar_date = 12; close = Reading.finite (pos 50500) }
    ∷ record { bar_date = 11; close = Reading.finite (pos 100000) }
    ∷ record { bar_date = 13; close = Reading.finite (pos 52000) }
    ∷ []

-- Halved on the day of a two for one split; without the split it is an outlier.
halved :
    details (
      check_price_series ⦃f = thousandths⦄ limits 13 "VTI" closes
        ((12, Reading.finite (pos 2000)) ∷ [])
        none)
    ≡ Detail.moved_by_split (negsuc 494) ∷ []
unfolding check_price_series series_of sorted check_price_point classify_move ◌+ℤ◌ ◌-ℤ◌ ◌*ℤ◌
halved = refl

outlier :
    details (check_price_series ⦃f = thousandths⦄ limits 13 "VTI" closes [] none)
    ≡ Detail.moved (negsuc 494) ∷ []
unfolding check_price_series series_of sorted check_price_point classify_move ◌+ℤ◌ ◌-ℤ◌ ◌*ℤ◌
outlier = refl

abbrev calm : List ClosePoint
calm =
    record { bar_date = 13; close = Reading.finite (pos 52000) }
    ∷ record { bar_date = 12; close = Reading.finite (pos 50500) }
    ∷ []

check_price_series-clean_example :
    All (IsUsable 13) (series_of calm)
    × AreQuiet ⦃f = thousandths⦄ limits 13 "VTI" [] (chain_of none (series_of calm))
unfolding check_price_series series_of sorted check_price_point classify_move ◌+ℤ◌ ◌-ℤ◌ ◌*ℤ◌
check_price_series-clean_example =
    check_price_series-clean ⦃f = thousandths⦄ limits 13 "VTI" [] calm none refl
