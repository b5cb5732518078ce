-- ===== src/Adapter/Tests.antt =====
-- A stored purchase and a stored split that go through the reader, and the theorem at them.
use metron.Prelude.{ℕ, zero, suc, String, ◌≡◌, refl, Option, none, some, [], ◌∷◌, map, ap}
use metron.Prelude.Int.{pos, ◌-ℤ◌}
use metron.Prelude.Day.{Day}
use metron.Ledger.Records.{TxnType, Transaction}
use metron.Store.Records.{
  Printed, CanonicalSecurity, CanonicalActivity, CanonicalStore, empty_store,
}
use metron.Store.Merge.{all_activities}
use metron.Tranches.Activity.{Reader, to_transaction, activities_to_transactions}
use metron.Adapter.Canonical.{activity_view, get_all_activities}
use metron.Adapter.Readback.{ReadsPrinted, read_back, get_all_activities-read_back}

-- A date is printed as so many marks and one more.
abbrev marks : ℕ → String
marks zero = ""
marks (suc n) = String.◌∷◌ "1" (marks n)

abbrev count_marks : String → ℕ
count_marks String.[] = 0
count_marks (String.◌∷◌ c s) = suc (count_marks s)

count_marks-marks : (n : ℕ) → count_marks (marks n) ≡ n
count_marks-marks zero = refl
count_marks-marks (suc n) = ap suc (count_marks-marks n)

abbrev read_marks : String → Option Day
read_marks String.[] = none
read_marks (String.◌∷◌ c s) = some (count_marks s)

instance abbrev printed : Printed
printed = record { day = λ d. marks (suc d); float = λ x. "" }

abbrev reader : Reader
reader = record { upper_strip = λ s. s; from_iso = read_marks; to_float = λ s. none }

printed-ReadsPrinted : ReadsPrinted printed reader
printed-ReadsPrinted = record {
  date = λ d. ap some (count_marks-marks d);
  date_text = λ d. refl;
  type_name = λ t. refl;
}

abbrev vti : CanonicalSecurity
vti = record {
  security_id = "US9229087690";
  ticker = "VTI";
  name = "";
  currency = "USD";
  asset_type = "ETF";
  security_id_type = "ISIN";
  exchange = "";
}

abbrev activity : TxnType → ℕ → Day → CanonicalActivity
activity type quantity when = record {
  account_number = "U1";
  when = when;
  type = type;
  security_id = "US9229087690";
  quantity = pos quantity;
  price = pos 7;
  amount = pos 0;
  fees = pos 0;
  currency = "";
  as_of = none;
  source = "ibkr";
}

abbrev store : CanonicalStore
store = record empty_store {
  securities = ("US9229087690", vti) ∷ [];
  activities = ("a", activity TxnType.buy 10 3) ∷ ("b", activity TxnType.split 2 5) ∷ [];
}

abbrev shown : Transaction → (ℕ × String) × String
shown t = ((t.when, t.ticker), t.currency)

-- The purchase comes back; the split does not.
split_is_lost :
    map shown (activities_to_transactions reader (get_all_activities store))
    ≡ ((3, "VTI"), "USD") ∷ []
unfolding activity_view to_transaction ◌-ℤ◌
split_is_lost = refl

get_all_activities-read_back_example :
    activities_to_transactions reader (get_all_activities store)
    ≡ read_back store (all_activities store)
get_all_activities-read_back_example =
    get_all_activities-read_back reader printed-ReadsPrinted store
