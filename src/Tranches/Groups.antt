-- ===== src/Tranches/Groups.antt =====
-- What `group_transactions_by_account_ticker` (portfolio_analytics/broker_io/transactions.py) puts together.
use metron.Prelude.{not, ◌&&◌, Option, none, some, List, [], ◌∷◌, ◌++◌}
use metron.Prelude.{◌≡◌, refl, sym, ap, ◌∙◌, inl, inr, Bool-cases}
use metron.Prelude.{if◌then◌else◌, arith}
use metron.Ledger.Records.{Transaction}
use metron.Tranches.Activity.{Reader, Activity, is_empty, to_transaction}
use metron.Tranches.Activity.{activities_to_transactions_aligned}
use metron.Tranches.Grouping.{Key, same_key, Groups, append_to, account_of, add_row, group_rows}
use metron.Tranches.Grouping.{group_transactions_by_account_ticker, group_at}
use text.Mathlib.TextEquality.{eq_iff}

group_at-append_to :
    (k j : Key) (t : Transaction) (gs : Groups)
    → group_at k (append_to j t gs)
      ≡ (if same_key j k then group_at k gs ++ t ∷ [] else group_at k gs)
group_at-append_to k j t [] = refl
group_at-append_to k j t ((i, ts) ∷ gs) = ground (
  arith,
  eq_iff j.0 k.0,
  eq_iff j.1 k.1,
  eq_iff i.0 j.0,
  eq_iff i.1 j.1,
  eq_iff i.0 k.0,
  eq_iff i.1 k.1,
  group_at-append_to k j t gs,
)

-- The transaction of a row of the account and ticker `k`.
abbrev pub row_for : Key → Activity → Option Transaction → List Transaction
row_for k a none = []
row_for k a (some t) =
    if not (is_empty t.ticker) && same_key (account_of a, t.ticker) k then t ∷ [] else []

abbrev pub rows_for : Reader → Key → List Activity → List Transaction
rows_for r k [] = []
rows_for r k (a ∷ rows) = row_for k a (to_transaction r a) ++ rows_for r k rows

append_nil : {A : Type 0} (xs : List A) → xs ++ [] ≡ xs
append_nil [] = refl
append_nil (x ∷ xs) = ap (x ∷◌) (append_nil xs)

append_assoc : {A : Type 0} (xs ys zs : List A) → (xs ++ ys) ++ zs ≡ xs ++ (ys ++ zs)
append_assoc [] ys zs = refl
append_assoc (x ∷ xs) ys zs = ap (x ∷◌) (append_assoc xs ys zs)

group_at-add_row :
    (k : Key) (a : Activity) (o : Option Transaction) (gs : Groups)
    → group_at k (add_row a o gs) ≡ group_at k gs ++ row_for k a o
group_at-add_row k a none gs = sym (append_nil (group_at k gs))
group_at-add_row k a (some t) gs = elim (Bool-cases (is_empty t.ticker)) [
  | inl e ↦ rw e (sym (append_nil (group_at k gs)))
  | inr e ↦ elim (Bool-cases (same_key (account_of a, t.ticker) k)) [
    | inl s ↦ rw e (group_at-append_to k (account_of a, t.ticker) t gs ∙ rw s refl)
    | inr s ↦ rw e (
        group_at-append_to k (account_of a, t.ticker) t gs
        ∙ rw s (sym (append_nil (group_at k gs))))
  ]
]

group_at-group_rows :
    (r : Reader) (k : Key) (gs : Groups) (rows : List Activity)
    → group_at k (group_rows gs rows (activities_to_transactions_aligned r rows))
      ≡ group_at k gs ++ rows_for r k rows
group_at-group_rows r k gs [] = sym (append_nil (group_at k gs))
group_at-group_rows r k gs (a ∷ rows) =
    group_at-group_rows r k (add_row a (to_transaction r a) gs) rows
    ∙ rw (group_at-add_row k a (to_transaction r a) gs)
        (append_assoc (group_at k gs) (row_for k a (to_transaction r a)) (rows_for r k rows))

-- The group of an account and a ticker has the transactions of just its own rows, in their order:
-- those of other accounts and tickers, and the rows that map to none, are left out.
pub group_at-rows :
    (r : Reader) (k : Key) (rows : List Activity)
    → group_at k (group_transactions_by_account_ticker r rows) ≡ rows_for r k rows
unfolding group_transactions_by_account_ticker
group_at-rows r k rows = group_at-group_rows r k [] rows
