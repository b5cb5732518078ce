-- ===== src/Tranches/Kept.antt =====
-- No row that `_to_transaction` (portfolio_analytics/broker_io/transactions.py) maps is a split.
use metron.Prelude.{
  ◌≡◌, refl, false, Option, none, some, List, [], ◌∷◌, map, All, inl, inr, Option-cases,
}
use metron.Prelude.Float.{Float}
use metron.Prelude.Dict.{lookup, Entries, Entries-lookup}
use metron.Ledger.Records.{TxnType, Transaction, Ledger}
use metron.Ledger.Rows.{KeepsSharesAs}
use metron.Ledger.Invariant.{KeepsAllShares}
use metron.Ledger.Apply.{apply}
use metron.Prelude.Result.{Result, ok, raised, Ensures}
use metron.Ledger.Holdings.{is_split}
use metron.Tranches.Activity.{
  Reader, Activity, type_map, parse_date, first_date, present, to_transaction,
  activities_to_transactions,
}

Ensures-all {ℓ κ} :
    {E : Type ℓ} {A : Type κ} (P : A → Type 0) (m : Result E A) → ((a : A) → P a) → Ensures P m
Ensures-all P (ok a) h = h a
Ensures-all P (raised e) h = tt

abbrev pub IsKept : Transaction → Type 0
IsKept t = is_split t.type ≡ false

type_map-IsKept : Entries (λ name type. is_split type ≡ false) type_map
type_map-IsKept = (refl, (refl, (refl, (refl, (refl, (refl, (refl, (refl, tt))))))))

abbrev IsKeptRow : Option Transaction → Type 0
IsKeptRow none = Unit
IsKeptRow (some t) = IsKept t

All-present :
    (o : Option Transaction) (os : List (Option Transaction))
    → IsKeptRow o
    → All IsKept (present os)
    → All IsKept (present (o ∷ os))
All-present none os k h = h
All-present (some t) os k h = (k, h)

module _ (r : Reader) where
  to_transaction-IsKept : (a : Activity) → IsKeptRow (to_transaction r a)
  unfolding to_transaction
  to_transaction-IsKept a = elim (Option-cases (lookup (r.upper_strip a.type) type_map)) [
    | inl e ↦ rw (IsKeptRow, e) tt
    | inr (type, e) ↦
        rw (IsKeptRow, e)
          (elim (Option-cases (parse_date r (first_date r a.trade_date a.settlement_date))) [
            | inl e' ↦ rw (IsKeptRow, e') tt
            | inr (when, e') ↦
                rw (IsKeptRow, e')
                  (Entries-lookup (λ name type. is_split type ≡ false) (r.upper_strip a.type) type
                    type_map type_map-IsKept e)
          ])
  ]

  pub activities_to_transactions-IsKept :
      (rows : List Activity) → All IsKept (activities_to_transactions r rows)
  activities_to_transactions-IsKept [] = tt
  activities_to_transactions-IsKept (a ∷ rows) =
      All-present (to_transaction r a) (map (to_transaction r) rows) (to_transaction-IsKept a)
        (activities_to_transactions-IsKept rows)

module _ ⦃f : Float⦄ where
  keeps :
      (l : Ledger) (t : Transaction) (type : TxnType)
      → is_split type ≡ false
      → KeepsSharesAs type l t
  keeps l t TxnType.split h = absurd (cc)
  keeps l t TxnType.buy h = tt
  keeps l t TxnType.reinvestment h = tt
  keeps l t TxnType.sell h = tt
  keeps l t TxnType.dividend h = tt
  keeps l t TxnType.interest h = tt
  keeps l t TxnType.deposit h = tt
  keeps l t TxnType.withdrawal h = tt
  keeps l t TxnType.fee h = tt
  keeps l t TxnType.transfer_in h = tt
  keeps l t TxnType.transfer_out h = tt

  -- A history without splits takes no shares to zero.
  pub KeepsAllShares-IsKept :
      (l : Ledger) (ts : List Transaction) → All IsKept ts → KeepsAllShares l ts
  unfolding KeepsAllShares
  KeepsAllShares-IsKept l [] h = tt
  KeepsAllShares-IsKept l (t ∷ ts) h = (
    keeps l t t.type h.0,
    Ensures-all (λ l'. KeepsAllShares l' ts) (apply l t) (λ l'. KeepsAllShares-IsKept l' ts h.1),
  )
