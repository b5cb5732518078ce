-- ===== src/Adapter/Readback.antt =====
-- Canonical activities that go through `CanonicalReader` (portfolio_analytics/ingestion/reader_adapter.py) and come back
-- as transactions (portfolio_analytics/broker_io/transactions.py).
use metron.Prelude.{Bool, true, false, Option, none, some, List, [], ◌∷◌, ◌++◌, map}
use metron.Prelude.{◌≡◌, refl, ap, if◌then◌else◌, inl, inr, Bool-cases}
use metron.Prelude.Int.{abs_ℤ}
use metron.Prelude.Day.{Day}
use metron.Prelude.Dict.{lookup}
use metron.Ledger.Records.{TxnType, Transaction}
use metron.Store.Records.{Printed, CanonicalActivity, CanonicalStore, type_text}
use metron.Store.Merge.{all_activities}
use metron.Tranches.Activity.{Reader, is_empty, to_transaction, activities_to_transactions}
use metron.Tranches.Activity.{type_map}
use metron.Adapter.Canonical.{ticker_or_blank, activity_view, get_all_activities}

-- What the interpreter does with the texts that it printed itself: a date reads back and is not the
-- empty text, and the name of a type is in capitals without spaces.
pub record ReadsPrinted (p : Printed) (r : Reader) : Type 0 where
  pub date : (d : Day) → r.from_iso (p.day d) ≡ some d
  pub date_text : (d : Day) → is_empty (p.day d) ≡ false
  pub type_name : (t : TxnType) → r.upper_strip (type_text t) ≡ type_text t

-- The types that the map of a broker's types has.
abbrev pub is_mapped : TxnType → Bool
is_mapped TxnType.buy = true
is_mapped TxnType.reinvestment = true
is_mapped TxnType.sell = true
is_mapped TxnType.dividend = true
is_mapped TxnType.deposit = true
is_mapped TxnType.withdrawal = true
is_mapped TxnType.fee = true
is_mapped _ = false

-- The transaction that a canonical activity is, with the magnitudes that the mapping takes.
abbrev pub read_transaction : CanonicalStore → CanonicalActivity → Transaction
read_transaction s act = record {
  when = act.when;
  type = act.type;
  ticker = ticker_or_blank (lookup act.security_id s.securities);
  quantity = abs_ℤ act.quantity;
  price = act.price;
  amount = abs_ℤ act.amount;
  fees = abs_ℤ act.fees;
  currency = if is_empty act.currency then "USD" else act.currency;
}

abbrev pub read_back : CanonicalStore → List CanonicalActivity → List Transaction
read_back s [] = []
read_back s (act ∷ acts) =
    (if is_mapped act.type then read_transaction s act ∷ [] else []) ++ read_back s acts

abbrev pub mapped_type : TxnType → Option TxnType
mapped_type t = if is_mapped t then some t else none

lookup-type_map : (t : TxnType) → lookup (type_text t) type_map ≡ mapped_type t
lookup-type_map TxnType.buy = refl
lookup-type_map TxnType.reinvestment = refl
lookup-type_map TxnType.sell = refl
lookup-type_map TxnType.dividend = refl
lookup-type_map TxnType.interest = refl
lookup-type_map TxnType.deposit = refl
lookup-type_map TxnType.withdrawal = refl
lookup-type_map TxnType.fee = refl
lookup-type_map TxnType.split = refl
lookup-type_map TxnType.transfer_in = refl
lookup-type_map TxnType.transfer_out = refl

module _ ⦃p : Printed⦄ (r : Reader) (reads : ReadsPrinted p r) (s : CanonicalStore) where
  to_transaction-activity_view :
      (act : CanonicalActivity)
      → to_transaction r (activity_view s act)
        ≡ (if is_mapped act.type then some (read_transaction s act) else none)
  unfolding to_transaction activity_view
  to_transaction-activity_view act = elim (Bool-cases (is_mapped act.type)) [
    | inl e ↦ elim (Bool-cases (is_empty act.currency)) [
      | inl blank ↦ rw (
        to_transaction,
        reads.type_name act.type,
        lookup-type_map act.type,
        e,
        reads.date_text act.when,
        reads.date act.when,
        blank,
      )
      | inr blank ↦ rw (
        to_transaction,
        reads.type_name act.type,
        lookup-type_map act.type,
        e,
        reads.date_text act.when,
        reads.date act.when,
        blank,
      )
    ]
    | inr e ↦ rw (to_transaction, reads.type_name act.type, lookup-type_map act.type, e) refl
  ]

  activities-read_back :
      (acts : List CanonicalActivity)
      → activities_to_transactions r (map (activity_view s) acts) ≡ read_back s acts
  activities-read_back [] = refl
  activities-read_back (act ∷ acts) = elim (Bool-cases (is_mapped act.type)) [
    | inl e ↦
        rw (to_transaction-activity_view act, e)
          (ap (read_transaction s act ∷◌) (activities-read_back acts))
    | inr e ↦ rw (to_transaction-activity_view act, e) (activities-read_back acts)
  ]

  -- The stored activities that go out through the reader come back as transactions with their date,
  -- type, ticker, price and currency and the magnitudes of their numbers, in their order; but those
  -- of interest, splits and transfers in and out are left out. A printed date reads back.
  pub get_all_activities-read_back :
      activities_to_transactions r (get_all_activities s) ≡ read_back s (all_activities s)
  get_all_activities-read_back = activities-read_back (all_activities s)
