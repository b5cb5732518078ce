-- ===== src/Tranches/Sound.antt =====
-- What `reconstruct_tranches` (portfolio_analytics/broker_io/transactions.py) says of a holding.
use metron.Prelude.{String, Bool, true, false, ◌&&◌, ◌||◌, Option, none, some, List, [], ◌∷◌, ◌++◌}
use metron.Prelude.{◌≡◌, refl, ◌≤◌, inl, inr, Bool-cases, arith, All, All-append}
use metron.Prelude.Int.{ℤ, pos, ◌≤ℤ◌, ◌+ℤ◌, ltb_ℤ, neg_ℤ, int_laws}
use metron.Prelude.Float.{Float}
use metron.Prelude.Day.{Day}
use metron.Prelude.Result.{Result, ok, raised, Ensures}
use metron.Prelude.Dict.{Dict, Entries, Entries-insert, Entries-get_or, get_or}
use metron.Prelude.Sort.{sorted, sorted-IsSorted, All-sorted}
use metron.Ledger.Records.{Transaction, Ledger, Error, empty, shares_of}
use metron.Ledger.Relief.Items.{opened}
use metron.Ledger.Apply.{build_ledger}
use metron.Ledger.Valid.{IsValid, IsOpenLot, AreLots, AreLots-nil, lots_of-AreLots, All-later}
use metron.Ledger.Invariant.{build_ledger-IsValid}
use metron.Tranches.Activity.{Reader, Activity, is_empty, present, as_float}
use metron.Tranches.Activity.{activities_to_transactions}
use metron.Tranches.Kept.{IsKept, activities_to_transactions-IsKept, KeepsAllShares-IsKept}
use metron.Tranches.Grouping.{Key, same_key, Groups, append_to, add_row, group_rows, account_of}
use metron.Tranches.Grouping.{group_transactions_by_account_ticker}
use metron.Tranches.Rebuild.{
  has_synthetic_residual, Holding, TrancheSet, Replay, by_ticker, replay, replay_group, flagged,
  judged,
}
use metron.Tranches.Rebuild.{tranche_set, tranches, reconstruct_tranches, share_tol}
use metron.Tranches.Rebuild.{add_group, add_set, nothing_replayed, ticker_of}

All-both {ℓ κ μ} :
    {A : Type ℓ} (P : A → Type κ) (Q : A → Type μ) (xs : List A)
    → All P xs
    → All Q xs
    → All (λ x. P x × Q x) xs
All-both P Q [] h k = tt
All-both P Q (x ∷ xs) h k = ((h.0, k.0), All-both P Q xs h.1 k.1)

module _ (end : Day) where
  abbrev pub IsDated : Transaction → Type 0
  IsDated t = t.when ≤ end

  -- A dated row that is no split.
  abbrev IsRow : Transaction → Type 0
  IsRow t = IsDated t × IsKept t

  abbrev AreRows : List Transaction → Type 0
  AreRows ts = All IsRow ts

  append_to-AreRows :
      (k : Key) (t : Transaction) (gs : Groups)
      → IsRow t
      → All (λ (g : Key × List Transaction). AreRows g.1) gs
      → All (λ (g : Key × List Transaction). AreRows g.1) (append_to k t gs)
  append_to-AreRows k t [] d h = ((d, tt), tt)
  append_to-AreRows k t ((j, ts) ∷ gs) d h = elim (Bool-cases (same_key j k)) [
    | inl e ↦ rw e (All-append IsRow ts (t ∷ []) h.0 (d, tt), h.1)
    | inr e ↦ rw e (h.0, append_to-AreRows k t gs d h.1)
  ]

  group_rows-AreRows :
      (gs : Groups) (rows : List Activity) (os : List (Option Transaction))
      → All IsRow (present os)
      → All (λ (g : Key × List Transaction). AreRows g.1) gs
      → All (λ (g : Key × List Transaction). AreRows g.1) (group_rows gs rows os)
  group_rows-AreRows gs [] os d h = h
  group_rows-AreRows gs (a ∷ rows) [] d h = h
  group_rows-AreRows gs (a ∷ rows) (none ∷ os) d h = group_rows-AreRows gs rows os d h
  group_rows-AreRows gs (a ∷ rows) (some t ∷ os) d h =
      group_rows-AreRows (add_row a (some t) gs) rows os d.1
        (elim (Bool-cases (is_empty t.ticker)) [
          | inl e ↦ rw e h
          | inr e ↦ rw e (append_to-AreRows (account_of a, t.ticker) t gs d.0 h)
        ])

  by_ticker-AreRows :
      (d : Dict (List (List Transaction))) (gs : Groups)
      → All (λ (g : Key × List Transaction). AreRows g.1) gs
      → Entries (λ t ts. All AreRows ts) d
      → Entries (λ t ts. All AreRows ts) (by_ticker d gs)
  by_ticker-AreRows d [] g h = h
  by_ticker-AreRows d ((k, ts) ∷ gs) g h = by_ticker-AreRows (add_group (k.1) ts d) gs g.1 (
      Entries-insert (λ t ts. All AreRows ts) (k.1) (get_or (k.1) [] d ++ ts ∷ []) d h
        (All-append AreRows (get_or (k.1) [] d) (ts ∷ [])
          (Entries-get_or (λ t ts. All AreRows ts) (k.1) [] d h tt) (g.0, tt)))

  module _ ⦃f : Float⦄ where
    -- What a set of tranches of ticker `t` says: its lots are open lots of that ticker with shares,
    -- oldest first; their shares and the residual make up what the broker holds; it is called
    -- complete only where the residual is within the tolerance.
    pub record IsTranche (t : String) (ts : TrancheSet) : Type 0 where
      pub lots : AreLots end t ts.lots
      pub reconstructed : ts.reconstructed_shares ≡ shares_of ts.lots
      pub residual : ts.reconstructed_shares +ℤ ts.residual_shares ≡ ts.held_shares
      pub honest :
          (ts.complete && (has_synthetic_residual ts || ltb_ℤ ts.residual_shares (neg_ℤ share_tol)))
          ≡ false

    module _ (t : String) (ts : TrancheSet) where
      abbrev SaysLots : TrancheSet → Type 0
      SaysLots s =
          AreLots end t s.lots
          × ((s.reconstructed_shares ≡ shares_of s.lots)
              × ((s.reconstructed_shares +ℤ s.residual_shares ≡ s.held_shares)
                  × (s.residual_shares ≡ ts.residual_shares)))

      flagged-SaysLots :
          (errored missing too_many : Bool)
          → SaysLots ts
          → SaysLots (flagged errored missing too_many ts)
      flagged-SaysLots true true b h = h
      flagged-SaysLots false true b h = h
      flagged-SaysLots true false true h = h
      flagged-SaysLots true false false h = h
      flagged-SaysLots false false true h = h
      flagged-SaysLots false false false h = h

      flagged_complete :
          (errored missing too_many : Bool)
          → ((flagged errored missing too_many ts).complete && (missing || too_many)) ≡ false
      flagged_complete true true b = refl
      flagged_complete false true b = refl
      flagged_complete true false true = refl
      flagged_complete true false false = refl
      flagged_complete false false true = refl
      flagged_complete false false false = ground arith

      judged-IsTranche : (errored : Bool) → SaysLots ts → IsTranche t (judged errored ts)
      judged-IsTranche errored h =
          let missing = ltb_ℤ share_tol ts.residual_shares in
          let too_many = ltb_ℤ ts.residual_shares (neg_ℤ share_tol) in
          let (lots, (shares, (total, same))) = flagged-SaysLots errored missing too_many h in
          record {
            lots = lots;
            reconstructed = shares;
            residual = total;
            honest = rw same (flagged_complete errored missing too_many);
          }

    module _ (z : pos 0 ≤ℤ f.dust) where
      replay_group-lots :
          (t : String) (m : Result Error Ledger) (done : Replay)
          → Ensures (IsValid end) m
          → All (IsOpenLot t end) done.lots
          → All (IsOpenLot t end) (replay_group t m done).lots
      replay_group-lots t (raised e) done v h = h
      replay_group-lots t (ok l) done v h =
          All-append (IsOpenLot t end) done.lots _ h (lots_of-AreLots end l t v).each

      replay-lots :
          (t : String) (done : Replay) (gs : List (List Transaction))
          → All AreRows gs
          → All (IsOpenLot t end) done.lots
          → All (IsOpenLot t end) (replay t done gs).lots
      replay-lots t done [] d h = h
      replay-lots t done (g ∷ gs) d h =
          replay-lots t (replay_group t (build_ledger g) done) gs d.1 (
            replay_group-lots t (build_ledger g) done
              (build_ledger-IsValid z end g (All-later (λ t h. h.0) g d.0) (
                KeepsAllShares-IsKept empty (sorted _ g)
                  (All-sorted _ IsKept g (All-later (λ t h. h.1) g d.0))))
              h)

      tranche_set-IsTranche :
          (t : String) (h : Holding) (held cost : ℤ) (gs : List (List Transaction))
          → All AreRows gs
          → IsTranche t (tranche_set t h held cost gs)
      tranche_set-IsTranche t h held cost [] d = record {
        lots = AreLots-nil end t;
        reconstructed = refl;
        residual = omega int_laws;
        honest = refl;
      }
      tranche_set-IsTranche t h held cost (g ∷ gs) d =
          let done = replay t nothing_replayed (g ∷ gs) in
          judged-IsTranche t _ done.errored (
            (record {
              each =
                  All-sorted opened (IsOpenLot t end) done.lots
                    (replay-lots t nothing_replayed (g ∷ gs) d tt);
              oldest_first = sorted-IsSorted opened done.lots;
            }),
            (refl, (omega int_laws, refl)),
          )

      tranches-IsTranche :
          (r : Reader) (groups : Dict (List (List Transaction))) (out : Dict TrancheSet)
          (hs : List Holding)
          → Entries (λ t ts. All AreRows ts) groups
          → Entries IsTranche out
          → Entries IsTranche (tranches r groups out hs)
      tranches-IsTranche r groups out [] d h = h
      tranches-IsTranche r groups out (q ∷ hs) d h =
          let t = ticker_of q in
          tranches-IsTranche r groups (add_set r groups q out) hs d
            (elim (Bool-cases (is_empty t)) [
              | inl e ↦ rw e h
              | inr e ↦ rw e (
                  Entries-insert IsTranche t _ out h (
                    tranche_set-IsTranche t q (as_float r q.shares) (as_float r q.avg_cost)
                      (get_or t [] groups)
                      (Entries-get_or (λ t ts. All AreRows ts) t [] groups d tt)))
            ])

      -- For any rows that are dated no later than `end`, those that do not replay included, every
      -- set of the answer has open lots with shares, oldest first, whose shares make up, with the
      -- residual, what the broker holds, and none is called complete with a residual beyond the
      -- tolerance. The tolerance of the replay is not negative.
      pub reconstruct_tranches-IsTranche :
          (r : Reader) (rows : List Activity) (hs : List Holding)
          → All IsDated (activities_to_transactions r rows)
          → Entries IsTranche (reconstruct_tranches r rows hs)
      unfolding reconstruct_tranches group_transactions_by_account_ticker
      reconstruct_tranches-IsTranche r rows hs d =
          tranches-IsTranche r _ [] hs
            (by_ticker-AreRows [] _
              (group_rows-AreRows [] rows _
                (All-both IsDated IsKept _ d (activities_to_transactions-IsKept r rows)) tt)
              tt)
            tt
