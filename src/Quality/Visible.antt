-- ===== src/Quality/Visible.antt =====
-- The rows that the ledger (portfolio_analytics/domain/ledger.py) drops without a word, and the gate
-- of portfolio_analytics/ingestion/quality.py that makes them visible.
use metron.Prelude.{ℕ, zero, suc, ◌+◌, String, Bool, true, false, ◌&&◌, none, some}
use metron.Prelude.{List, [], ◌∷◌, ◌++◌, ◌≡◌, refl, sym, get_elem?, arith, map}
use metron.Prelude.{subst, ◌==◌}
use metron.Prelude.Int.{ℤ, pos, leb_ℤ}
use metron.Prelude.Float.{Float}
use metron.Prelude.Day.{Day}
use metron.Prelude.Texts.{keys}
use metron.Prelude.Result.{ok}
use metron.Ledger.Records.{TxnType, Transaction, Ledger}
use metron.Ledger.Apply.{apply, do_buy, do_sell, do_transfer_in, do_transfer_out, do_split}
use metron.Quality.Finding.{Reading, Subject, Detail, Finding, flag, is_not_positive, value_of}
use metron.Quality.Activities.{Activity, check_typed, check_activity}
use metron.Quality.Contract.{Snapshot, check_each, check_activity_at, check_snapshot_contract}
use metron.Quality.Contract.{Account, check_securities}

-- The types whose quantity is shares or a ratio of shares.
abbrev pub moves_shares : TxnType → Bool
moves_shares TxnType.buy = true
moves_shares TxnType.reinvestment = true
moves_shares TxnType.sell = true
moves_shares TxnType.transfer_in = true
moves_shares TxnType.transfer_out = true
moves_shares TxnType.split = true
moves_shares _ = false

abbrev pub is_skipped : Transaction → Bool
is_skipped t = moves_shares t.type && leb_ℤ t.quantity (pos 0)

-- A finding that says the quantity, or the ratio, of a row is not positive.
abbrev about_quantity : Detail → Bool
about_quantity Detail.quantity_not_positive = true
about_quantity Detail.ratio_not_positive = true
about_quantity _ = false

abbrev is_at : ℕ → Subject → Bool
is_at i (Subject.activity j) = i == j
is_at i _ = false

abbrev pub points_at : ℕ → Finding → Bool
points_at i x = is_at i x.subject && about_quantity x.detail

-- One of the findings passes a test.
pub data Has (p : Finding → Bool) : List Finding → Type 0 where
  here : (x : Finding) (xs : List Finding) → p x ≡ true → Has p (x ∷ xs)
  there : (x : Finding) (xs : List Finding) → Has p xs → Has p (x ∷ xs)

Has-left :
    {p : Finding → Bool} {xs : List Finding} (ys : List Finding) → Has p xs → Has p (xs ++ ys)
Has-left ys (Has.here x xs h) = Has.here x _ h
Has-left ys (Has.there x xs h) = Has.there x _ (Has-left ys h)

Has-right :
    {p : Finding → Bool} (xs : List Finding) {ys : List Finding} → Has p ys → Has p (xs ++ ys)
Has-right [] h = h
Has-right (x ∷ xs) h = Has.there x _ (Has-right xs h)

check_each-Has :
    {A : Type 0} (p : Finding → Bool) (check : ℕ → A → List Finding) (start i : ℕ) (x : A)
    (xs : List A)
    → get_elem? xs i ≡ some x
    → Has p (check (start + i) x)
    → Has p (check_each check start xs)
check_each-Has p check start i x [] e h = cc
check_each-Has {A = A} p check start zero x (y ∷ xs) e h =
    let same : x ≡ y = cc in
    let first : start + 0 ≡ start = omega arith in
    Has-left _ (
      subst (λ (n : ℕ). Has p (check n y)) first
        (subst (λ (z : A). Has p (check (start + 0) z)) same h))
check_each-Has p check start (suc i) x (y ∷ xs) e h =
    let next : start + suc i ≡ suc start + i = omega arith in
    Has-right (check start y)
      (check_each-Has p check (suc start) i x xs e (subst (λ (n : ℕ). Has p (check n x)) next h))

module _ ⦃f : Float⦄ where
  apply_skips :
      (l : Ledger) (t : Transaction) (k : TxnType)
      → t.type ≡ k
      → moves_shares k ≡ true
      → leb_ℤ t.quantity (pos 0) ≡ true
      → apply l t ≡ ok l
  unfolding apply do_buy do_sell do_transfer_in do_transfer_out do_split
  apply_skips l t TxnType.buy e m q = rw (e, q)
  apply_skips l t TxnType.reinvestment e m q = rw (e, q)
  apply_skips l t TxnType.sell e m q = rw (e, q)
  apply_skips l t TxnType.transfer_in e m q = rw (e, q)
  apply_skips l t TxnType.transfer_out e m q = rw (e, q)
  apply_skips l t TxnType.split e m q = rw (e, q)
  apply_skips l t _ e m q = absurd (ground arith)

flag-Has :
    (i : ℕ) (a : Activity) (d : Detail) (q : ℤ)
    → about_quantity d ≡ true
    → a.quantity ≡ Reading.finite q
    → leb_ℤ q (pos 0) ≡ true
    → Has
        (points_at i)
        (flag (Subject.activity i) (is_not_positive a.quantity) d (value_of a.quantity) none)
flag-Has i a d q about e h = rw (e, h) (Has.here _ [] (rw about (ground arith)))

check_typed-Has :
    (i : ℕ) (a : Activity) (k : TxnType) (q : ℤ)
    → a.quantity ≡ Reading.finite q
    → moves_shares k ≡ true
    → leb_ℤ q (pos 0) ≡ true
    → Has (points_at i) (check_typed (Subject.activity i) a k)
check_typed-Has i a TxnType.buy q e m h =
    Has-left _ (Has-right _ (flag-Has i a Detail.quantity_not_positive q refl e h))
check_typed-Has i a TxnType.reinvestment q e m h =
    Has-left _ (Has-right _ (flag-Has i a Detail.quantity_not_positive q refl e h))
check_typed-Has i a TxnType.sell q e m h =
    Has-left _ (Has-right _ (flag-Has i a Detail.quantity_not_positive q refl e h))
check_typed-Has i a TxnType.transfer_in q e m h =
    Has-left _ (Has-left _ (Has-right _ (flag-Has i a Detail.quantity_not_positive q refl e h)))
check_typed-Has i a TxnType.transfer_out q e m h =
    Has-left _ (Has-left _ (Has-right _ (flag-Has i a Detail.quantity_not_positive q refl e h)))
check_typed-Has i a TxnType.split q e m h =
    Has-right _ (flag-Has i a Detail.ratio_not_positive q refl e h)
check_typed-Has i a _ q e m h = absurd (ground arith)

check_activity-Has :
    (today : Day) (i : ℕ) (accounts securities : List String) (a : Activity) (q : ℤ)
    → a.quantity ≡ Reading.finite q
    → (moves_shares a.type && leb_ℤ q (pos 0)) ≡ true
    → Has (points_at i) (check_activity today (Subject.activity i) accounts securities a)
unfolding check_activity
check_activity-Has today i accounts securities a q e h =
    let m : moves_shares a.type ≡ true = ground arith in
    let n : leb_ℤ q (pos 0) ≡ true = ground arith in
    Has-right _ (check_typed-Has i a a.type q e m n)

-- A row that the ledger passes over, since its type moves shares and its quantity or its ratio is
-- not positive, is flagged: where it is the activity at the place `i` of a snapshot, one of the
-- findings points at that place and says so. The quantity is finite.
pub check_snapshot_contract-Has :
    ⦃f : Float⦄ (today : Day) (x : Snapshot) (i : ℕ) (a : Activity) (l : Ledger) (t : Transaction)
    → get_elem? x.activities i ≡ some a
    → a.type ≡ t.type
    → a.quantity ≡ Reading.finite t.quantity
    → is_skipped t ≡ true
    → (apply l t ≡ ok l) × (Has (points_at i) (check_snapshot_contract today x))
unfolding check_snapshot_contract
check_snapshot_contract-Has today x i a l t e k q h =
    let m : moves_shares t.type ≡ true = ground arith in
    let n : leb_ℤ t.quantity (pos 0) ≡ true = ground arith in
    let p = points_at i in
    let accounts = map (λ (b : Account). b.number) x.accounts in
    let securities = keys ((check_securities today 0 [] x.securities).1) in
    let flagged = check_activity-Has today i accounts securities a t.quantity q (rw k h) in
    let at : 0 + i ≡ i = omega arith in
    let there =
      check_each-Has p (check_activity_at today accounts securities) 0 i a x.activities e (
        subst (λ (j : ℕ). Has p (check_activity_at today accounts securities j a)) (sym at)
          flagged) in
    (apply_skips l t t.type refl m n, Has-left _ (Has-right _ there))
