-- ===== src/Ledger/Reinvestment.antt =====
-- A dividend reinvestment is a purchase: `TxnType.REINVESTMENT` and `PURCHASE_TYPES` of
-- portfolio_analytics/domain/ledger.py.
use metron.Prelude.{◌≡◌, refl, ap, fun_ext, List, [], ◌∷◌, map}
use metron.Prelude.Result.{◌>>=◌}
use metron.Prelude.Float.{Float}
use metron.Prelude.Sort.{sorted, sorted-map}
use metron.Ledger.Records.{TxnType, Transaction, Ledger, empty}
use metron.Ledger.Apply.{do_buy, apply, apply_all, build_ledger}

abbrev pub plain_type : TxnType → TxnType
plain_type TxnType.reinvestment = TxnType.buy
plain_type k = k

abbrev pub as_buy : Transaction → Transaction
as_buy t = record t { type = plain_type t.type }

module _ ⦃f : Float⦄ where
  do_buy-as_buy : (l : Ledger) (t : Transaction) → do_buy l (as_buy t) ≡ do_buy l t
  unfolding do_buy
  do_buy-as_buy l t = refl

  apply_typed-as_buy :
      (l : Ledger) (t : Transaction) (k : TxnType) → t.type ≡ k → apply l (as_buy t) ≡ apply l t
  unfolding apply
  apply_typed-as_buy l t TxnType.buy e = rw e
  apply_typed-as_buy l t _ e = rw e

  apply_all-as_buy :
      (l : Ledger) (ts : List Transaction) → apply_all l (map as_buy ts) ≡ apply_all l ts
  unfolding apply_all
  apply_all-as_buy l [] = refl
  apply_all-as_buy l (t ∷ ts) =
      rw (apply_typed-as_buy l t t.type refl)
        (ap (λ k. apply l t >>= k) (fun_ext (λ l'. apply_all-as_buy l' ts)))

  -- A history with its reinvestments recorded as plain buys replays to the same ledger, or raises
  -- the same error.
  pub build_ledger-as_buy : (ts : List Transaction) → build_ledger (map as_buy ts) ≡ build_ledger ts
  unfolding build_ledger
  build_ledger-as_buy ts =
      rw (sorted-map (λ (t : Transaction). t.when) as_buy (λ t. refl) ts)
        (apply_all-as_buy empty (sorted (λ (t : Transaction). t.when) ts))
