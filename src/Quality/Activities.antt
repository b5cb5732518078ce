-- ===== src/Quality/Activities.antt =====
-- `_check_activity` of portfolio_analytics/ingestion/quality.py.
use metron.Prelude.{String, Bool, true, false, not, ◌&&◌, Option, none, List, ◌++◌}
use metron.Prelude.Day.{Day}
use metron.Prelude.Texts.{contains}
use metron.Ledger.Records.{TxnType}
use metron.Quality.Finding.{
  Reading, Subject, Detail, Finding, flag, mark, is_negative, is_not_positive, value_of,
  check_finite, check_currency, check_not_future,
}

pub record Activity : Type 0 where
  pub account_number : String
  pub security_id : String
  pub type : TxnType
  pub quantity : Reading
  pub price : Reading
  pub amount : Reading
  pub fees : Reading
  pub currency : Option String
  pub when : Option Day

-- `not text`
abbrev pub is_empty : String → Bool
is_empty String.[] = true
is_empty (String.◌∷◌ c s) = false

abbrev check_security : Subject → Activity → List Finding
check_security s a = mark s (is_empty a.security_id) Detail.no_security

abbrev check_price : Subject → Activity → List Finding
check_price s a = flag s (is_negative a.price) Detail.negative_price (value_of a.price) none

abbrev check_trade : Subject → Activity → List Finding
check_trade s a =
    check_security s a
    ++ flag s (is_not_positive a.quantity) Detail.quantity_not_positive (value_of a.quantity) none
    ++ check_price s a

abbrev check_transfer : Subject → Activity → List Finding
check_transfer s a =
    check_security s a
    ++ flag s (is_not_positive a.quantity) Detail.quantity_not_positive (value_of a.quantity) none
    ++ flag s (is_not_positive a.amount) Detail.no_market_value (value_of a.amount) none
    ++ check_price s a

abbrev check_split : Subject → Activity → List Finding
check_split s a =
    check_security s a
    ++ flag s (is_not_positive a.quantity) Detail.ratio_not_positive (value_of a.quantity) none

abbrev check_cash : Subject → Activity → List Finding
check_cash s a = flag s (is_negative a.amount) Detail.negative_cash (value_of a.amount) none

-- The branches on the type.
abbrev pub check_typed : Subject → Activity → TxnType → List Finding
check_typed s a TxnType.buy = check_trade s a
check_typed s a TxnType.reinvestment = check_trade s a
check_typed s a TxnType.sell = check_trade s a
check_typed s a TxnType.transfer_in = check_transfer s a
check_typed s a TxnType.transfer_out = check_transfer s a
check_typed s a TxnType.split = check_split s a
check_typed s a TxnType.dividend = check_cash s a
check_typed s a TxnType.interest = check_cash s a
check_typed s a TxnType.deposit = check_cash s a
check_typed s a TxnType.withdrawal = check_cash s a
check_typed s a TxnType.fee = check_cash s a

unfoldable pub check_activity : Day → Subject → List String → List String → Activity → List Finding
check_activity today s accounts securities a =
    mark s (not (contains a.account_number accounts)) Detail.unknown_account
    ++ mark s (not (is_empty a.security_id) && not (contains a.security_id securities))
        Detail.unknown_security
    ++ check_finite s "quantity" a.quantity
    ++ check_finite s "price" a.price
    ++ check_finite s "amount" a.amount
    ++ check_finite s "fees" a.fees
    ++ check_currency s a.currency
    ++ check_not_future today s "when" a.when
    ++ flag s (is_negative a.fees) Detail.negative_fees (value_of a.fees) none
    ++ check_typed s a a.type
