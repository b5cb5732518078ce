-- ===== src/Manual/Entry.antt =====
-- `build_manual_snapshot` of portfolio_analytics/broker_io/manual_entry.py, with the checks of its fields, and
-- `synth_security_id` of portfolio_analytics/ingestion/schema.py. `str.strip` and `str.upper` are the interpreter's: a
-- `Cases`. `ManualEntryError` is a value of `Error`.
use metron.Prelude.{ℕ, zero, suc, String, Bool, true, false, not, ◌&&◌, ◌||◌, Option, none, some}
use metron.Prelude.{[], ◌∷◌, if◌then◌else◌, leb, ◌==◌}
use metron.Prelude.Int.{ℤ, pos, ltb_ℤ, leb_ℤ, abs_ℤ}
use metron.Prelude.Day.{Day}
use metron.Prelude.Result.{Result, ok, raised, raise_if, ◌>>=◌, ◌>>◌}
use metron.Ledger.Records.{TxnType}
use metron.Store.Records.{CanonicalActivity}
use metron.Store.Merge.{Snapshot}
use metron.Tranches.Activity.{is_empty}
use metron.Quality.Finding.{Reading}
use Prim.Native.Char.{Char, code}
use Prim.Native.String.{◌++◌}

pub record Cases : Type 0 where
  pub strip : String → String
  pub upper : String → String

pub record ManualPosition : Type 0 where
  pub ticker : String
  pub quantity : Reading
  pub cost_basis : Reading
  pub trade_date : Option Day
  pub currency : String
  pub account : String

pub data Error : Type 0 where
  ticker_required : Error
  no_ticker : String → Error
  not_a_number too_large negative not_positive : String → Error

abbrev is_upper : Char → Bool
is_upper c = let n = code c in leb 65 n && leb n 90

-- `$`: the end, or a newline before it.
abbrev ends_line : String → Bool
ends_line String.[] = true
ends_line (String.◌∷◌ c String.[]) = code c == 10
ends_line (String.◌∷◌ c (String.◌∷◌ d s)) = false

-- Up to `n` letters of the class suffix, and the end.
abbrev class_letters : ℕ → String → Bool
class_letters zero s = ends_line s
class_letters (suc n) String.[] = true
class_letters (suc n) (String.◌∷◌ c s) =
    let rest = class_letters n s in if is_upper c then rest else ends_line (String.◌∷◌ c s)

-- After the `.` or the `-`: one letter and up to three more.
abbrev class_suffix : String → Bool
class_suffix String.[] = false
class_suffix (String.◌∷◌ c s) = is_upper c && class_letters 3 s

abbrev after_stem : String → Bool
after_stem String.[] = true
after_stem (String.◌∷◌ c s) =
    if code c == 46 || code c == 45 then class_suffix s else ends_line (String.◌∷◌ c s)

abbrev stem : ℕ → String → Bool
stem zero s = after_stem s
stem (suc n) String.[] = true
stem (suc n) (String.◌∷◌ c s) =
    let rest = stem n s in if is_upper c then rest else after_stem (String.◌∷◌ c s)

-- `_TICKER_RE.match`, the pattern `^[A-Z]{1,10}([.\-][A-Z]{1,4})?$`
abbrev pub is_ticker : String → Bool
is_ticker String.[] = false
is_ticker (String.◌∷◌ c s) = is_upper c && stem 9 s

-- `text or default`
abbrev pub or_default : String → String → String
or_default default text = if is_empty text then default else text

module _ (cases : Cases) where
  unfoldable pub validate_ticker : String → Result Error String
  validate_ticker raw =
      let symbol = cases.upper (cases.strip raw) in
      do
        raise_if (is_empty symbol) ticker_required
        raise_if (not (is_ticker symbol)) (no_ticker raw)
        ok symbol

  abbrev pub synth_security_id : String → String → String
  synth_security_id ticker currency = "EQ:" ++ cases.upper ticker ++ ":" ++ cases.upper currency

  abbrev pub currency_of : ManualPosition → String
  currency_of e = or_default "USD" (cases.upper (cases.strip (or_default "USD" e.currency)))

  abbrev pub account_of : ManualPosition → String
  account_of e = or_default "MANUAL" (cases.strip (or_default "MANUAL" e.account))

-- `entry.trade_date or date.today()`
abbrev pub date_of : ManualPosition → Day → Day
date_of e today = elim (e.trade_date) [ none ↦ today | some d ↦ d ]

-- `_validate_number`, with the number that passed.
unfoldable pub validate_number : ℤ → Reading → String → Bool → Result Error ℤ
validate_number max_magnitude Reading.not_finite field allow_zero = raised (not_a_number field)
validate_number max_magnitude (Reading.finite x) field allow_zero = do
  raise_if (ltb_ℤ max_magnitude (abs_ℤ x)) (too_large field)
  raise_if (allow_zero && ltb_ℤ x (pos 0)) (negative field)
  raise_if (not allow_zero && leb_ℤ x (pos 0)) (not_positive field)
  ok x

module _ (cases : Cases) (today : Day) (e : ManualPosition) where
  abbrev pub manual_activity : String → ℤ → ℤ → CanonicalActivity
  manual_activity symbol quantity cost_basis = record {
    account_number = account_of cases e;
    when = date_of e today;
    type = TxnType.buy;
    security_id = synth_security_id cases symbol (currency_of cases e);
    quantity = quantity;
    price = pos 0;
    amount = cost_basis;
    fees = pos 0;
    currency = currency_of cases e;
    as_of = none;
    source = "manual";
  }

  abbrev pub manual_snapshot : String → ℤ → ℤ → Snapshot
  manual_snapshot symbol quantity cost_basis = record {
    source = "manual";
    accounts =
        record {
          number = account_of cases e;
          label = "Manual entry";
          institution = "";
          tax_treatment = "";
          nav_usd = pos 0;
          cash_usd = pos 0;
          currency = currency_of cases e;
          as_of = none;
          source = "manual";
          account_id = "";
          name = "";
          account_type = "";
        }
        ∷ [];
    securities =
        record {
          security_id = synth_security_id cases symbol (currency_of cases e);
          ticker = symbol;
          name = symbol;
          currency = currency_of cases e;
          asset_type = "EQUITY";
          security_id_type = "TICKER";
          exchange = "";
        }
        ∷ [];
    holdings = [];
    activities = manual_activity symbol quantity cost_basis ∷ [];
    realized_lots = [];
    as_of = none;
  }

  unfoldable pub build_manual_snapshot : ℤ → Result Error Snapshot
  unfolding validate_ticker validate_number
  build_manual_snapshot max_magnitude = do
    symbol ← validate_ticker cases e.ticker
    quantity ← validate_number max_magnitude e.quantity "quantity" false
    cost_basis ← validate_number max_magnitude e.cost_basis "cost basis" true
    ok (manual_snapshot symbol quantity cost_basis)
