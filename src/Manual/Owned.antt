-- ===== src/Manual/Owned.antt =====
-- A position that was typed in (portfolio_analytics/broker_io/manual_entry.py), from its checks
-- through the transactions table to the ledger.
use metron.Prelude.{String, true, false, not, [], ◌∷◌, ◌≡◌, refl, subst, arith}
use metron.Prelude.{Bool-cases, inl, inr, ap, ◌∙◌, sym}
use metron.Prelude.Int.{ℤ, pos, ◌-ℤ◌, ◌≤ℤ◌, ◌<ℤ◌, ltb_ℤ, leb_ℤ, abs_ℤ, eq_of_parts}
use metron.Prelude.Float.{Float, ◌⊘◌}
use metron.Prelude.Day.{Day}
use metron.Prelude.Result.{Result, ok, Ensures, Ensures-bind, Ensures-unless}
use metron.Prelude.Sort.{sorted}
use metron.Ledger.Records.{TxnType, Transaction, Ledger, Lot}
use metron.Ledger.Records
use metron.Ledger.Apply.{apply, apply_all, build_ledger, do_buy}
use metron.Store.Records.{Printed}
use metron.Store.Merge.{Snapshot}
use metron.Persisted.Insert.{insert_activities, insert_account}
use metron.Persisted.Engine.{Columns, engine_transactions, to_engine_txn, normalize_unpriced}
use metron.Manual.Entry.{
  Cases, ManualPosition, build_manual_snapshot, manual_snapshot, validate_number, validate_ticker,
  is_ticker, date_of, account_of, synth_security_id, currency_of,
}
use metron.Tranches.Activity.{is_empty}
use metron.Quality.Finding.{Reading}
use Prim.Native.String.{◌++◌}
use text.Mathlib.TextLemmas.{cons-append}
use text.Mathlib.TextPositions.{eq_refl}

is_empty-append : (s t : String) → is_empty s ≡ false → is_empty (s ++ t) ≡ false
is_empty-append String.[] t h = absurd (cc)
is_empty-append (String.◌∷◌ c s) t h = rw (cons-append c s t) refl

is_empty-synth_security_id :
    (cases : Cases) (t u : String) → is_empty (synth_security_id cases t u) ≡ false
is_empty-synth_security_id cases t u =
    is_empty-append "EQ:" (cases.upper t ++ ":" ++ cases.upper u) refl

module _ ⦃p : Printed⦄ ⦃f : Float⦄ (c : Columns) where
  -- What the ledger replays of a snapshot that was put into an empty table.
  abbrev pub ledger_of : Snapshot → Result Records.Error Ledger
  ledger_of x = build_ledger (engine_transactions c (insert_activities [] x))

  -- One lot: all the shares, bought on the day, at the stated total over the shares; and the stated
  -- total was paid.
  abbrev pub owned : String → Day → ℤ → ℤ → Ledger
  owned ticker when quantity cost = record {
    open_lots =
        (
          ticker,
          record {
            ticker = ticker;
            open_date = when;
            quantity = quantity;
            cost_per_share = cost ⊘ quantity;
          }
              ∷ [],
        )
        ∷ [];
    realized = [];
    cash = pos 0 -ℤ cost;
  }

  module _ (cases : Cases) (today : Day) (e : ManualPosition) (symbol : String) (q cost : ℤ) where
    abbrev manual : Snapshot
    manual = manual_snapshot cases today e symbol q cost

    abbrev row : ℤ → ℤ → Transaction
    row price fees = record {
      when = date_of e today;
      type = TxnType.buy;
      ticker = c.upper symbol;
      quantity = q;
      price = price;
      amount = cost;
      fees = fees;
      currency = currency_of cases e;
    }

    engine_transactions-manual :
        c.numeric (pos 0) ≡ pos 0
        → c.numeric q ≡ q
        → c.numeric cost ≡ cost
        → engine_transactions c (insert_activities [] manual) ≡ row (pos 0) (pos 0) ∷ []
    unfolding insert_activities insert_account to_engine_txn
    engine_transactions-manual z kq kc =
        rw
          (
            eq_refl (account_of cases e),
            eq_refl (synth_security_id cases symbol (currency_of cases e)),
            z,
            kq,
            kc,
            is_empty-synth_security_id cases symbol (currency_of cases e),
            normalize_unpriced c TxnType.buy q cost,
          )
          refl

    build_ledger-row :
        pos 0 <ℤ q
        → pos 0 ≤ℤ cost
        → build_ledger (row (pos 0) (pos 0) ∷ [])
          ≡ ok (owned (c.upper symbol) (date_of e today) q cost)
    unfolding build_ledger apply_all apply do_buy sorted
    build_ledger-row hq hc =
        let some_shares : leb_ℤ q (pos 0) ≡ false = ground arith in
        elim (Bool-cases (ltb_ℤ (pos 0) cost)) [
          | inl some_cost ↦ rw (some_shares, some_cost) refl
          | inr none_cost ↦
              let zero_cost : cost ≡ pos 0 = ground (arith, eq_of_parts cost (pos 0)) in
              rw (some_shares, none_cost, zero_cost) refl
        ]

    ledger_of-manual :
        pos 0 <ℤ q
        → pos 0 ≤ℤ cost
        → c.numeric (pos 0) ≡ pos 0
        → c.numeric q ≡ q
        → c.numeric cost ≡ cost
        → ledger_of manual ≡ ok (owned (c.upper symbol) (date_of e today) q cost)
    ledger_of-manual hq hc z kq kc =
        ap build_ledger (engine_transactions-manual z kq kc) ∙ build_ledger-row hq hc

  ticker_read :
      (cases : Cases) (raw : String)
      → Ensures (λ s. s ≡ cases.upper (cases.strip raw)) (validate_ticker cases raw)
  unfolding validate_ticker
  ticker_read cases raw =
      Ensures-unless _ (is_empty (cases.upper (cases.strip raw))) _ _
        (Ensures-unless _ (not (is_ticker (cases.upper (cases.strip raw)))) _ _ refl)

  -- A number that passed, as it was given.
  record Passed (r : Reading) (P : ℤ → Type 0) (x : ℤ) : Type 0 where
    given : r ≡ Reading.finite x
    within : P x

  quantity_read :
      (limit : ℤ) (r : Reading) (field : String)
      → Ensures (Passed r (λ x. pos 0 <ℤ x)) (validate_number limit r field false)
  unfolding validate_number
  quantity_read limit Reading.not_finite field = tt
  quantity_read limit (Reading.finite x) field =
      Ensures-unless _ (ltb_ℤ limit (abs_ℤ x)) _ _ (elim (Bool-cases (leb_ℤ x (pos 0))) [
        | inl e ↦ rw e tt
        | inr e ↦ rw e (record { given = refl; within = ground arith })
      ])

  cost_read :
      (limit : ℤ) (r : Reading) (field : String)
      → Ensures (Passed r (λ x. pos 0 ≤ℤ x)) (validate_number limit r field true)
  unfolding validate_number
  cost_read limit Reading.not_finite field = tt
  cost_read limit (Reading.finite x) field =
      Ensures-unless _ (ltb_ℤ limit (abs_ℤ x)) _ _ (elim (Bool-cases (ltb_ℤ x (pos 0))) [
        | inl e ↦ rw e tt
        | inr e ↦ rw e (record { given = refl; within = ground arith })
      ])

  same_number : (x y : ℤ) → Reading.finite x ≡ Reading.finite y → x ≡ y
  same_number x y h = cc

  -- A position that passes the checks, put into an empty table whose number columns keep zero and
  -- the two numbers given, and read back, replays to a ledger with one lot: under its ticker in
  -- upper case, with all its shares, opened on its date, at its total cost over its shares; and
  -- cash is down by just that total.
  pub build_manual_snapshot-IsOwned :
      (cases : Cases) (today : Day) (e : ManualPosition) (max_magnitude q cost : ℤ)
      → e.quantity ≡ Reading.finite q
      → e.cost_basis ≡ Reading.finite cost
      → c.numeric (pos 0) ≡ pos 0
      → c.numeric q ≡ q
      → c.numeric cost ≡ cost
      → Ensures
          (λ x.
            ledger_of x
            ≡ ok (owned (c.upper (cases.upper (cases.strip e.ticker))) (date_of e today) q cost))
          (build_manual_snapshot cases today e max_magnitude)
  unfolding build_manual_snapshot
  build_manual_snapshot-IsOwned cases today e limit q cost gq gc z kq kc =
      Ensures-bind (λ s. s ≡ cases.upper (cases.strip e.ticker)) _ (validate_ticker cases e.ticker)
        _ (ticker_read cases e.ticker)
        (λ s named.
          Ensures-bind (Passed e.quantity (λ x. pos 0 <ℤ x)) _
            (validate_number limit e.quantity "quantity" false) _
            (quantity_read limit e.quantity "quantity")
            (λ q' a.
              Ensures-bind (Passed e.cost_basis (λ x. pos 0 ≤ℤ x)) _
                (validate_number limit e.cost_basis "cost basis" true) _
                (cost_read limit e.cost_basis "cost basis")
                (λ cost' b.
                  let eq : q' ≡ q = same_number q' q (sym a.given ∙ gq) in
                  let eq_cost : cost' ≡ cost = same_number cost' cost (sym b.given ∙ gc) in
                  rw (eq, eq_cost, ← named)
                    (ledger_of-manual cases today e s q cost (subst (λ x. pos 0 <ℤ x) eq a.within)
                      (subst (λ x. pos 0 ≤ℤ x) eq_cost b.within) z kq kc))))
