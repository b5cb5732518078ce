-- ===== src/Ledger/Invariant.antt =====
-- What `build_ledger` (portfolio_analytics/domain/ledger.py) keeps true of the ledger after each row.
use metron.Prelude.{◌≤◌, refl, List, [], ◌∷◌, All, arith}
use metron.Prelude.Int.{pos, ◌≤ℤ◌}
use metron.Prelude.Result.{Result, ok, raised, Ensures, Ensures-bind}
use metron.Prelude.Float.{Float}
use metron.Prelude.Sort.{IsSorted, sorted, sorted-IsSorted, All-sorted}
use metron.Prelude.Day.{Day}
use metron.Ledger.Records.{Transaction, Ledger, empty}
use metron.Ledger.Apply.{apply, apply_all, build_ledger}
use metron.Ledger.Valid.{IsValid, IsValid-later}
use metron.Ledger.Rows.{KeepsShares, apply-IsValid}

abbrev when_of : Transaction → Day
when_of t = t.when

All-days : (ts : List Transaction) → All (λ t. 0 ≤ when_of t) ts
All-days [] = tt
All-days (t ∷ ts) = (omega arith, All-days ts)

Ensures-both {ℓ κ} :
    {E : Type ℓ} {A : Type κ} (P Q : A → Type 0) (m : Result E A)
    → Ensures P m
    → Ensures Q m
    → Ensures (λ a. P a × Q a) m
Ensures-both P Q (ok a) h k = (h, k)
Ensures-both P Q (raised e) h k = tt

-- No split on the way takes the shares of a lot to zero.
unfoldable pub KeepsAllShares : ⦃f : Float⦄ → Ledger → List Transaction → Type 0
KeepsAllShares l [] = Unit
KeepsAllShares l (t ∷ ts) = KeepsShares l t × Ensures (λ l'. KeepsAllShares l' ts) (apply l t)

module _ ⦃f : Float⦄ (z : pos 0 ≤ℤ f.dust) where
  apply_all-IsValid :
      (end now : Day) (l : Ledger) (ts : List Transaction)
      → IsValid now l
      → now ≤ end
      → All (λ t. now ≤ when_of t) ts
      → IsSorted when_of ts
      → All (λ t. when_of t ≤ end) ts
      → KeepsAllShares l ts
      → Ensures (IsValid end) (apply_all l ts)
  unfolding apply_all KeepsAllShares
  apply_all-IsValid end now l [] v le later order before keeps = IsValid-later now end l le v
  apply_all-IsValid end now l (t ∷ ts) v le later order before keeps =
      Ensures-bind (λ l'. IsValid t.when l' × KeepsAllShares l' ts) (IsValid end) (apply l t)
        (λ l'. apply_all l' ts)
        (Ensures-both (IsValid t.when) (λ l'. KeepsAllShares l' ts) (apply l t)
          (apply-IsValid z t.when l t keeps.0 refl (IsValid-later now t.when l later.0 v)) keeps.1)
        (λ l' w. apply_all-IsValid end t.when l' ts w.0 before.0 order.0 order.1 before.1 w.1)

  -- After any history that replays, whose rows are dated no later than `end`: the lots of every
  -- ticker have shares, stand oldest first and were opened by `end`, and every realized gain closes
  -- some shares on a day not before they were bought. The tolerance is not negative, and no
  -- product of a lot's shares with a positive split ratio rounds to zero on the way.
  pub build_ledger-IsValid :
      (end : Day) (ts : List Transaction)
      → All (λ t. when_of t ≤ end) ts
      → KeepsAllShares empty (sorted when_of ts)
      → Ensures (IsValid end) (build_ledger ts)
  unfolding build_ledger
  build_ledger-IsValid end ts before keeps =
      apply_all-IsValid end 0 empty (sorted when_of ts) (record { open_lots = tt; realized = tt })
        (omega arith) (All-days (sorted when_of ts)) (sorted-IsSorted when_of ts)
        (All-sorted when_of (λ t. when_of t ≤ end) ts before) keeps
