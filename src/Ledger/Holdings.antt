-- ===== src/Ledger/Holdings.antt =====
-- The shares of a ticker that `build_ledger` (portfolio_analytics/domain/ledger.py) leaves open.
use metron.Prelude.{
  ◌≡◌, ◌≢◌, refl, sym, ap, String, Bool, true, false, List, [], ◌∷◌, map, All, inl, inr,
  if◌then◌else◌, Bool-cases, arith,
}
use metron.Prelude.Int.{ℤ, pos, ◌+ℤ◌, ◌≤ℤ◌, leb_ℤ, sum, int_laws, zero_+ℤ}
use metron.Prelude.Result.{Ensures, Ensures-bind, Ensures-weaken}
use metron.Prelude.Float.{Float, HasUnit}
use metron.Prelude.Dict.{ne_of_test}
use metron.Prelude.Day.{Day}
use metron.Prelude.Sort.{sorted, sum-sorted, All-sorted}
use metron.Ledger.Records.{TxnType, Transaction, Ledger, empty, shares_of}
use metron.Ledger.Apply.{apply, apply_all, build_ledger}
use metron.Ledger.Shares.{held, shares_moved, apply-shares}
use metron.Ledger.Frame.{apply-others}
use text.Mathlib.Text.{◌==◌}
use text.Mathlib.TextEquality.{eq_iff}

abbrev pub is_split : TxnType → Bool
is_split TxnType.split = true
is_split _ = false

abbrev when_of : Transaction → Day
when_of t = t.when

-- The row is a split of ticker `k`.
abbrev pub splits : String → Transaction → Bool
splits k t = if t.ticker == k then is_split t.type else false

no_split : (type : TxnType) → is_split type ≡ false → type ≢ TxnType.split
no_split type h e = absurd (ground (arith, ap is_split e))

-- Two numbers are at most `slack` apart.
abbrev pub Within : ℤ → ℤ → ℤ → Type 0
Within slack a b = (a ≤ℤ b +ℤ slack) × (b ≤ℤ a +ℤ slack)

Within-step :
    (a b c x s d e : ℤ)
    → Within d b (a +ℤ x)
    → Within e c (b +ℤ s)
    → Within (d +ℤ e) c (a +ℤ (x +ℤ s))
Within-step a b c x s d e h k = (omega int_laws, omega int_laws)

module _ ⦃f : Float⦄ where
  -- The shares of ticker `k` that a row moves, read off the row alone: its quantity under the sign
  -- of its type, and none for a quantity that is not positive.
  abbrev pub change : String → Transaction → ℤ
  change k t =
      if t.ticker == k then if leb_ℤ t.quantity (pos 0) then pos 0 else shares_moved t else pos 0

  -- One tolerance for each row.
  abbrev pub slack : List Transaction → ℤ
  slack ts = sum (map (λ t. f.dust) ts)

  untraded_typed :
      (l : Ledger) (t : Transaction) (k : TxnType)
      → t.type ≡ k
      → leb_ℤ t.quantity (pos 0) ≡ true
      → Ensures (λ l'. l'.open_lots ≡ l.open_lots) (apply l t)
  unfolding apply
  untraded_typed l t TxnType.buy e q = rw (e, q)
  untraded_typed l t TxnType.reinvestment e q = rw (e, q)
  untraded_typed l t TxnType.sell e q = rw (e, q)
  untraded_typed l t TxnType.split e q = rw (e, q)
  untraded_typed l t TxnType.transfer_in e q = rw (e, q)
  untraded_typed l t TxnType.transfer_out e q = rw (e, q)
  untraded_typed l t _ e q = rw e

  module _ (u : HasUnit) (z : pos 0 ≤ℤ f.dust) (k : String) where
    Within-same : (a b : ℤ) → a ≡ b → Within f.dust a (b +ℤ pos 0)
    Within-same a b e = rw e (omega int_laws, omega int_laws)

    abbrev Changes : Ledger → Transaction → Ledger → Type 0
    Changes l t l' = Within f.dust (held l' k) (held l k +ℤ change k t)

    own_row :
        (l : Ledger) (t : Transaction)
        → t.ticker ≡ k
        → (t.ticker == k) ≡ true
        → is_split t.type ≡ false
        → Ensures (Changes l t) (apply l t)
    own_row l t own same kept = elim (Bool-cases (leb_ℤ t.quantity (pos 0))) [
      | inl none_moved ↦
          Ensures-weaken _ (Changes l t) (apply l t)
            (λ l' e.
              rw (Changes, change, same, none_moved) (Within-same (held l' k) (held l k) (rw e)))
            (untraded_typed l t t.type refl none_moved)
      | inr moved ↦
          Ensures-weaken _ (Changes l t) (apply l t)
            (λ l' h. rw (Changes, change, same, moved, ← own) h)
            (apply-shares u z l t (ground arith) (no_split t.type kept))
    ]

    apply-Changes :
        (l : Ledger) (t : Transaction) → splits k t ≡ false → Ensures (Changes l t) (apply l t)
    apply-Changes l t kept = elim (Bool-cases (t.ticker == k)) [
      | inl same ↦ own_row l t ((eq_iff t.ticker k).0 same) same (rw (splits, same) at kept)
      | inr other ↦
          Ensures-weaken _ (Changes l t) (apply l t)
            (λ l' e.
              rw (Changes, change, other) (Within-same (held l' k) (held l k) (ap shares_of e)))
            (apply-others l t k (λ e. ne_of_test t.ticker k other (sym e)))
    ]

    apply_all-change :
        (l : Ledger) (ts : List Transaction)
        → All (λ t. splits k t ≡ false) ts
        → Ensures
            (λ l'. Within (slack ts) (held l' k) (held l k +ℤ sum (map (change k) ts)))
            (apply_all l ts)
    unfolding apply_all
    apply_all-change l [] h = (omega int_laws, omega int_laws)
    apply_all-change l (t ∷ ts) h =
        Ensures-bind (Changes l t) _ (apply l t) (λ l'. apply_all l' ts) (apply-Changes l t h.0)
          (λ l' e.
            Ensures-weaken _ _ (apply_all l' ts)
              (λ l'' e'.
                Within-step (held l k) (held l' k) (held l'' k) (change k t) _ f.dust _ e e')
              (apply_all-change l' ts h.1))

    -- After any history that replays and has no split of a ticker, in whatever order its rows are
    -- given: the shares held of that ticker are the sum of what its rows move, the quantity of each
    -- under the sign of `POSITION_SIGN`, up to one tolerance for each row. The tolerance is not
    -- negative, and a product with 1.0 or with -1.0 is the number or its negative.
    pub build_ledger-change :
        (ts : List Transaction)
        → All (λ t. splits k t ≡ false) ts
        → Ensures (λ l. Within (slack ts) (held l k) (sum (map (change k) ts))) (build_ledger ts)
    unfolding build_ledger
    build_ledger-change ts h =
        rw
          (
            ← sum-sorted when_of (change k) ts,
            ← sum-sorted when_of (λ t. f.dust) ts,
            ← zero_+ℤ (sum (map (change k) (sorted when_of ts))),
          )
          (apply_all-change empty (sorted when_of ts)
            (All-sorted when_of (λ t. splits k t ≡ false) ts h))
