-- ===== src/Manual/Tests.antt =====
-- Positions that a user types in, and the theorem at one of them.
use metron.Prelude.{String, ◌≡◌, refl, Option, none, some, [], ◌∷◌, map, true, false}
use metron.Prelude.Int.{pos, ◌*ℤ◌}
use metron.Prelude.Units.{whole_units, div_ℤ}
use metron.Prelude.Result.{Result, ok, raised, Ensures}
use metron.Store.Records.{Printed, activity_key}
use metron.Store.Merge.{Snapshot}
use metron.Quality.Finding.{Reading}
use metron.Manual.Entry.{
  Cases, ManualPosition, Error, is_ticker, validate_ticker, validate_number, build_manual_snapshot,
  manual_snapshot, not_a_number, not_positive, too_large, no_ticker,
}
use metron.Manual.Owned.{ledger_of, owned, build_manual_snapshot-IsOwned}
use metron.Persisted.Insert.{insert_activities, insert_account}
use metron.Persisted.Engine.{Columns}

abbrev plain : Cases
plain = record { strip = λ s. s; upper = λ s. s }

instance abbrev printed : Printed
printed = record { day = λ d. ""; float = λ x. "" }

tickers :
    is_ticker "VTI"
      ∷ is_ticker "BRK.B"
      ∷ is_ticker "BF-B"
      ∷ is_ticker "12345"
      ∷ is_ticker "BRK."
      ∷ is_ticker "ABCDEFGHIJK"
      ∷ []
    ≡ true ∷ true ∷ true ∷ false ∷ false ∷ false ∷ []
tickers = refl

abbrev typed : String → Reading → ManualPosition
typed ticker quantity = record {
  ticker = ticker;
  quantity = quantity;
  cost_basis = Reading.finite (pos 70);
  trade_date = none;
  currency = "";
  account = "";
}

abbrev error_of : Result Error Snapshot → Option Error
error_of (ok x) = none
error_of (raised e) = some e

outcomes :
    error_of (build_manual_snapshot plain 739000 (typed "VTI" (Reading.finite (pos 10))) (pos 1000))
      ∷ error_of
          (build_manual_snapshot plain 739000 (typed "VTI" (Reading.finite (pos 0))) (pos 1000))
      ∷ error_of (build_manual_snapshot plain 739000 (typed "VTI" Reading.not_finite) (pos 1000))
      ∷ error_of
          (build_manual_snapshot plain 739000 (typed "VTI" (Reading.finite (pos 1001))) (pos 1000))
      ∷ error_of
          (build_manual_snapshot plain 739000 (typed "V1" (Reading.finite (pos 10))) (pos 1000))
      ∷ []
    ≡ none
      ∷ some (not_positive "quantity")
      ∷ some (not_a_number "quantity")
      ∷ some (too_large "quantity")
      ∷ some (no_ticker "V1")
      ∷ []
unfolding build_manual_snapshot validate_ticker validate_number
outcomes = refl

abbrev ten_shares : Snapshot
ten_shares =
    manual_snapshot plain 739000 (typed "VTI" (Reading.finite (pos 10))) "VTI" (pos 10) (pos 70)

-- Typed in twice, stored once.
stored_once :
    map (λ row. row.symbol) (insert_activities (insert_activities [] ten_shares) ten_shares)
    ≡ some "VTI" ∷ []
unfolding insert_activities insert_account activity_key
stored_once = refl

-- Number columns that keep whole tens.
abbrev columns : Columns
columns = record {
  numeric = λ x. div_ℤ x (pos 10) *ℤ pos 10;
  upper = λ s. s;
  low = pos 0;
  high = pos 1;
}

build_manual_snapshot-IsOwned_example :
    Ensures
      (λ x. ledger_of columns x ≡ ok (owned columns "VTI" 739000 (pos 10) (pos 70)))
      (build_manual_snapshot plain 739000 (typed "VTI" (Reading.finite (pos 10))) (pos 1000))
unfolding ◌*ℤ◌
build_manual_snapshot-IsOwned_example =
    build_manual_snapshot-IsOwned columns plain 739000 (typed "VTI" (Reading.finite (pos 10)))
      (pos 1000) (pos 10) (pos 70) refl refl refl refl refl
