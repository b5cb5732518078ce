-- ===== src/Store/RoundTrip.antt =====
-- What a saved store (portfolio_analytics/ingestion/store.py) reads back as.
use metron.Prelude.{
  ◌≡◌, refl, sym, ap, ◌∙◌, Option, none, some, String, List, [], ◌∷◌, ◌++◌, map, All, Bool, false,
  ◌||◌, arith,
}
use metron.Prelude.Dict.{Dict, lookup, get_or, insert, Entries, get_or_missing}
use metron.Prelude.Keys.{AreDistinct, holds, values, insert_fresh, holds-append}
use metron.Ledger.Records.{RealizedGain}
use metron.Store.Records.{
  Printed, CanonicalHolding, CanonicalSecurity, CanonicalActivity, CanonicalAccount, CanonicalStore,
  activity_key, lot_key,
}
use metron.Store.Merge.{account_key, security_key, add_holding, add_holdings, concat}
use metron.Store.Rows.{
  account_row, account_obj, security_row, security_obj, holding_row, holding_obj,
}
use metron.Store.Events.{activity_row, activity_obj, lot_row, lot_obj, type_of-type_text}
use metron.Store.Persist.{load_rows, load_holdings, load_payload, load_store, save_store}
use metron.Store.Valid.{AreOf, IsStore}
use mathlib.Core.List.{append_assoc, append-nil}
use text.Mathlib.Text.{◌==◌}
use text.Mathlib.TextEquality.{eq_iff}
use text.Mathlib.TextPositions.{eq_refl}

abbrev pub map_values {ℓ} : {V : Type ℓ} → (V → V) → Dict V → Dict V
map_values f [] = []
map_values f ((k, v) ∷ d) = (k, f v) ∷ map_values f d

-- A row does not hold the exchange.
abbrev pub unlisted : CanonicalSecurity → CanonicalSecurity
unlisted s = record s { exchange = "" }

abbrev pub with_holdings : Dict (List CanonicalHolding) → Dict (List CanonicalHolding)
with_holdings [] = []
with_holdings ((k, []) ∷ d) = with_holdings d
with_holdings ((k, h ∷ hs) ∷ d) = (k, h ∷ hs) ∷ with_holdings d

-- What the file keeps of a store.
abbrev pub kept : CanonicalStore → CanonicalStore
kept s = record s {
  securities = map_values unlisted s.securities;
  holdings = with_holdings s.holdings;
}

abbrev Absent {ℓ κ} : {V : Type ℓ} {W : Type κ} → Dict W → Dict V → Type 0
Absent d e = All (λ x. holds x.0 d ≡ false) e

left_false : (a b : Bool) → (a || b) ≡ false → a ≡ false
left_false a b h = ground arith

right_false : (a b : Bool) → (a || b) ≡ false → b ≡ false
right_false a b h = ground arith

module _ {ℓ κ} {V : Type ℓ} {W : Type κ} where
  other_keys :
      (k : String) (d : Dict W) (w : W) (e : Dict V)
      → Absent d e
      → holds k e ≡ false
      → Absent (d ++ (k, w) ∷ []) e
  other_keys k d w [] h fresh = tt
  other_keys k d w ((j, v) ∷ e) h fresh = (
    holds-append j d ((k, w) ∷ []) ∙ ground (arith, h.0, eq_iff j k, eq_iff k j),
    other_keys k d w e h.1 (ground arith),
  )

module _ {ℓ κ} {R : Type ℓ} {V : Type κ} (obj : R → Option V) (row : V → R) (key : V → String)
    (clean : V → V) (read : (v : V) → obj (row v) ≡ some (clean v))
    (same : (v : V) → key (clean v) ≡ key v) where
  load_rows-values :
      (d e : Dict V)
      → Entries (λ k v. k ≡ key v) e
      → AreDistinct e
      → Absent d e
      → load_rows obj key d (map row (values e)) ≡ d ++ map_values clean e
  load_rows-values d [] own once fresh = sym (append-nil d)
  load_rows-values d ((k, v) ∷ e) own once fresh =
      let own_key : key (clean v) ≡ k = same v ∙ sym own.0 in
      rw (load_rows, read v, own_key, insert_fresh k (clean v) d fresh.0)
        (load_rows-values (d ++ (k, clean v) ∷ []) e own.1 once.1
            (other_keys k d (clean v) e fresh.1 once.0)
          ∙ append_assoc d ((k, clean v) ∷ []) (map_values clean e))

security-read : (s : CanonicalSecurity) → security_obj (security_row s) ≡ some (unlisted s)
unfolding security_obj security_row
security-read s = refl

account-read : (a : CanonicalAccount) → account_obj (account_row a) ≡ some a
unfolding account_obj account_row
account-read a = refl

holding-read : (h : CanonicalHolding) → holding_obj (holding_row h) ≡ some h
unfolding holding_obj holding_row
holding-read h = refl

activity-read : (a : CanonicalActivity) → activity_obj (activity_row a) ≡ some a
unfolding activity_obj activity_row
activity-read a = rw (type_of-type_text a.type) refl

lot-read : (l : String × RealizedGain) → lot_obj (lot_row l) ≡ some l
unfolding lot_obj lot_row
lot-read (n, l) = refl

map_values-id {ℓ} : {V : Type ℓ} (d : Dict V) → map_values (λ v. v) d ≡ d
map_values-id [] = refl
map_values-id ((k, v) ∷ d) = ap (λ t. (k, v) ∷ t) (map_values-id d)

load_holdings-rows :
    (d : Dict (List CanonicalHolding)) (hs : List CanonicalHolding)
    → load_holdings d (map holding_row hs) ≡ add_holdings d hs
load_holdings-rows d [] = refl
load_holdings-rows d (h ∷ hs) =
    rw (load_holdings, holding-read h) (load_holdings-rows (add_holding d h) hs)

add_holdings-append :
    (d : Dict (List CanonicalHolding)) (xs ys : List CanonicalHolding)
    → add_holdings d (xs ++ ys) ≡ add_holdings (add_holdings d xs) ys
add_holdings-append d [] ys = refl
add_holdings-append d (x ∷ xs) ys = add_holdings-append (add_holding d x) xs ys

module _ {ℓ} {V : Type ℓ} where
  lookup_absent : (k : String) (d : Dict V) → holds k d ≡ false → lookup k d ≡ none
  lookup_absent k [] h = refl
  lookup_absent k ((j, v) ∷ d) h =
      rw (left_false (j == k) (holds k d) h)
        (lookup_absent k d (right_false (j == k) (holds k d) h))

  insert_last :
      (k : String) (v w : V) (d : Dict V)
      → holds k d ≡ false
      → insert k v (d ++ (k, w) ∷ []) ≡ d ++ (k, v) ∷ []
  insert_last k v w [] h = rw (eq_refl k) refl
  insert_last k v w ((j, u) ∷ d) h =
      rw (left_false (j == k) (holds k d) h)
        (ap (λ (t : Dict V). (j, u) ∷ t) (insert_last k v w d (right_false (j == k) (holds k d) h)))

  lookup_last :
      (k : String) (w : V) (d : Dict V) → holds k d ≡ false → lookup k (d ++ (k, w) ∷ []) ≡ some w
  lookup_last k w [] h = rw (eq_refl k) refl
  lookup_last k w ((j, u) ∷ d) h =
      rw (left_false (j == k) (holds k d) h)
        (lookup_last k w d (right_false (j == k) (holds k d) h))

add_holding_at :
    (k : String) (h : CanonicalHolding) (d : Dict (List CanonicalHolding))
    → h.account_number ≡ k
    → add_holding d h ≡ insert k (get_or k [] d ++ h ∷ []) d
add_holding_at k h d own = ap (λ n. insert n (get_or n [] d ++ h ∷ []) d) own

get_or_last :
    (k : String) (xs : List CanonicalHolding) (d : Dict (List CanonicalHolding))
    → holds k d ≡ false
    → get_or k [] (d ++ (k, xs) ∷ []) ≡ xs
get_or_last k xs d h = rw (get_or, lookup_last k xs d h) refl

-- The group that is being built stands last.
add_holdings_last :
    (k : String) (d : Dict (List CanonicalHolding)) (xs hs : List CanonicalHolding)
    → holds k d ≡ false
    → AreOf k hs
    → add_holdings (d ++ (k, xs) ∷ []) hs ≡ d ++ (k, xs ++ hs) ∷ []
add_holdings_last k d xs [] h own = ap (λ t. d ++ (k, t) ∷ []) (sym (append-nil xs))
add_holdings_last k d xs (x ∷ hs) h own =
    ap (λ t. add_holdings t hs)
      (add_holding_at k x (d ++ (k, xs) ∷ []) own.0
        ∙ rw (get_or_last k xs d h) (insert_last k (xs ++ x ∷ []) xs d h))
    ∙ add_holdings_last k d (xs ++ x ∷ []) hs h own.1
    ∙ ap (λ t. d ++ (k, t) ∷ []) (append_assoc xs (x ∷ []) hs)

add_holdings_group :
    (k : String) (d : Dict (List CanonicalHolding)) (h : CanonicalHolding)
    (hs : List CanonicalHolding)
    → holds k d ≡ false
    → AreOf k (h ∷ hs)
    → add_holdings d (h ∷ hs) ≡ d ++ (k, h ∷ hs) ∷ []
add_holdings_group k d h hs fresh own =
    ap (λ t. add_holdings t hs)
      (add_holding_at k h d own.0
        ∙ rw (get_or_missing k [] d (lookup_absent k d fresh)) (insert_fresh k (h ∷ []) d fresh))
    ∙ add_holdings_last k d (h ∷ []) hs fresh own.1

add_holdings-concat :
    (d e : Dict (List CanonicalHolding))
    → Entries AreOf e
    → AreDistinct e
    → Absent d e
    → add_holdings d (concat (values e)) ≡ d ++ with_holdings e
add_holdings-concat d [] own once fresh = sym (append-nil d)
add_holdings-concat d ((k, []) ∷ e) own once fresh = add_holdings-concat d e own.1 once.1 fresh.1
add_holdings-concat d ((k, h ∷ hs) ∷ e) own once fresh =
    add_holdings-append d (h ∷ hs) (concat (values e))
    ∙ rw (add_holdings_group k d h hs fresh.0 own.0) (
        add_holdings-concat (d ++ (k, h ∷ hs) ∷ []) e own.1 once.1
          (other_keys k d (h ∷ hs) e fresh.1 once.0)
        ∙ append_assoc d ((k, h ∷ hs) ∷ []) (with_holdings e))

Absent-nil {ℓ} : {V : Type ℓ} (e : Dict V) → Absent {V = V} {W = V} [] e
Absent-nil [] = tt
Absent-nil (x ∷ e) = (refl, Absent-nil e)

module _ ⦃p : Printed⦄ where
  -- A saved store reads back as it was, but for the exchanges of its securities, which are lost, and
  -- the accounts with no holdings, which have no entry.
  pub load_store-save_store : (s : CanonicalStore) → IsStore s → load_store (save_store s) ≡ kept s
  unfolding load_store save_store load_payload
  load_store-save_store s v = λ i. record {
    accounts =
        (load_rows-values account_obj account_row account_key (λ a. a) account-read (λ a. refl) []
              s.accounts v.accounts.own_keys v.accounts.distinct (Absent-nil s.accounts)
            ∙ map_values-id s.accounts)
          i;
    securities =
        load_rows-values security_obj security_row security_key unlisted security-read (λ a. refl)
          [] s.securities v.securities.own_keys v.securities.distinct (Absent-nil s.securities) i;
    holdings =
        (load_holdings-rows [] (concat (values s.holdings))
            ∙ add_holdings-concat [] s.holdings v.holdings v.held_once (Absent-nil s.holdings))
          i;
    activities =
        (load_rows-values activity_obj activity_row activity_key (λ a. a) activity-read (λ a. refl)
              [] s.activities v.activities.own_keys v.activities.distinct (Absent-nil s.activities)
            ∙ map_values-id s.activities)
          i;
    realized_lots =
        (load_rows-values lot_obj lot_row lot_key (λ a. a) lot-read (λ a. refl) [] s.realized_lots
              v.realized_lots.own_keys v.realized_lots.distinct (Absent-nil s.realized_lots)
            ∙ map_values-id s.realized_lots)
          i;
    meta = s.meta;
  }
