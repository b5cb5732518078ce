-- ===== src/Quality/Finding.antt =====
-- What a gate of portfolio_analytics/ingestion/quality.py says, and the checks that the gates share. A text is a
-- value with what it prints; a number that is not finite, and what is no number, is one value.
use metron.Prelude.{ℕ, String, Bool, true, false, not, ◌&&◌, Option, none, some, List, [], ◌∷◌}
use metron.Prelude.{leb, ltb, ◌+◌, ◌==◌}
use metron.Prelude.Int.{ℤ, pos, ltb_ℤ, leb_ℤ}
use metron.Prelude.Day.{Day}
use Prim.Native.Char.{Char, code}

pub data Reading : Type 0 where
  finite : ℤ → Reading
  not_finite : Reading

-- `_finite`
abbrev pub is_finite : Reading → Bool
is_finite (Reading.finite x) = true
is_finite Reading.not_finite = false

-- `_finite(x) and x < 0`
abbrev pub is_negative : Reading → Bool
is_negative (Reading.finite x) = ltb_ℤ x (pos 0)
is_negative Reading.not_finite = false

-- `_finite(x) and x <= 0`
abbrev pub is_not_positive : Reading → Bool
is_not_positive (Reading.finite x) = leb_ℤ x (pos 0)
is_not_positive Reading.not_finite = false

abbrev pub value_of : Reading → Option ℤ
value_of (Reading.finite x) = some x
value_of Reading.not_finite = none

pub data Gate : Type 0 where
  schema_contract price_outlier split_discontinuity : Gate

-- The record of a snapshot that a finding is about, by its place in its list, or a priced symbol.
pub data Subject : Type 0 where
  account security holding open_lot activity realized_lot : ℕ → Subject
  symbol : String → Subject

pub data Detail : Type 0 where
  empty_account_number unknown_tax_treatment empty_security_id no_ticker : Detail
  unknown_asset_type declared_twice unknown_account unknown_security : Detail
  not_iso_currency negative_avg_cost zero_quantity negative_fees no_security : Detail
  quantity_not_positive negative_price no_market_value ratio_not_positive : Detail
  negative_cash closed_lot_not_positive closed_before_opened : Detail
  close_not_positive : Detail
  moved moved_by_split : ℤ → Detail
  not_a_number : String → Detail
  in_future : String → Detail

pub record Finding : Type 0 where
  pub gate : Gate
  pub subject : Subject
  pub detail : Detail
  pub observed : Option ℤ
  pub threshold : Option ℤ
  pub as_of : Option Day

-- `if test: c.flag(subject, detail, observed=..., as_of=...)`
abbrev pub flag : Subject → Bool → Detail → Option ℤ → Option Day → List Finding
flag s false d observed as_of = []
flag s true d observed as_of =
    record {
      gate = Gate.schema_contract;
      subject = s;
      detail = d;
      observed = observed;
      threshold = none;
      as_of = as_of;
    }
    ∷ []

-- A flag without a number or a date.
abbrev pub mark : Subject → Bool → Detail → List Finding
mark s test d = flag s test d none none

-- `c.finite(subject, name, value)`
abbrev pub check_finite : Subject → String → Reading → List Finding
check_finite s name x = mark s (not (is_finite x)) (not_a_number name)

abbrev is_upper : Char → Bool
is_upper c = let n = code c in leb 65 n && leb n 90

-- What `$` of a regular expression lets stand at the end: nothing, or one newline.
abbrev ends_line : String → Bool
ends_line String.[] = true
ends_line (String.◌∷◌ c String.[]) = code c == 10
ends_line (String.◌∷◌ c (String.◌∷◌ d s)) = false

-- `_ISO_CCY.match`, the pattern `^[A-Z]{3}$`
abbrev pub is_iso_code : String → Bool
is_iso_code (String.◌∷◌ a (String.◌∷◌ b (String.◌∷◌ c s))) =
    is_upper a && is_upper b && is_upper c && ends_line s
is_iso_code _ = false

-- `c.currency(subject, value)` of a text or `None`
abbrev pub check_currency : Subject → Option String → List Finding
check_currency s none = mark s true not_iso_currency
check_currency s (some code) = mark s (not (is_iso_code code)) not_iso_currency

-- `_Collector.latest_ok`
abbrev pub latest_ok : Day → Day
latest_ok today = today + 1

-- `c.not_future(subject, name, value)`
abbrev pub check_not_future : Day → Subject → String → Option Day → List Finding
check_not_future today s name none = []
check_not_future today s name (some d) =
    flag s (ltb (latest_ok today) d) (in_future name) none (some d)
