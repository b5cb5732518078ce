-- ===== src/Ledger/Relief/Items.antt =====
-- What holds of each lot that `relieve_lots` (portfolio_analytics/domain/ledger.py) leaves and of
-- each gain that it returns, from what holds of the lots given, and their order.
use metron.Prelude.{List, [], ◌∷◌, All}
use metron.Prelude.Int.{ℤ, pos, ◌-ℤ◌, ◌≤ℤ◌, ◌<ℤ◌, int_laws}
use metron.Prelude.Float.{Float}
use metron.Prelude.Sort.{IsSorted}
use metron.Prelude.Day.{Day}
use metron.Ledger.Records.{Lot, RealizedGain}
use metron.Ledger.Relief.{close_part, relieve_lots}
use metron.Ledger.Relief.Fifo.{fifo, fifo_cases}
use metron.Ledger.Relief.Conserve.{relieve_lots-fifo}

abbrev pub HasShares : Lot → Type 0
HasShares l = pos 0 <ℤ l.quantity

abbrev pub opened : Lot → Day
opened l = l.open_date

module _ {ℓ κ} ⦃f : Float⦄ (d : Day) (p : ℤ) (P : Lot → Type ℓ) (Q : RealizedGain → Type κ)
    (some_left : (l : Lot) → P l → HasShares l)
    (reduced : (l : Lot) (q : ℤ) → P l → pos 0 <ℤ q → P (record l { quantity = q }))
    (closes : (l : Lot) (q : ℤ) → P l → pos 0 <ℤ q → Q (close_part l q d p)) where
  fifo-All :
      (remaining : ℤ) (lots : List Lot)
      → pos 0 ≤ℤ f.dust
      → All P lots
      → All Q (fifo d p remaining lots).realized × All P (fifo d p remaining lots).lots
  unfolding fifo
  fifo-All remaining [] z h = (tt, tt)
  fifo-All remaining (lot ∷ lots) z h =
      fifo_cases (λ r. All Q r.realized × All P r.lots) d p remaining lot lots z (λ s. (tt, h))
        (λ more all.
          let ih = fifo-All (remaining -ℤ lot.quantity) lots z h.1 in
          ((closes lot lot.quantity h.0 (some_left lot h.0), ih.0), ih.1))
        (λ more part gone. ((closes lot remaining h.0 (omega int_laws), tt), h.1))
        (λ more part. (
          (closes lot remaining h.0 (omega int_laws), tt),
          (reduced lot (lot.quantity -ℤ remaining) h.0 (omega int_laws), h.1),
        ))

  pub relieve_lots-All :
      (quantity : ℤ) (lots : List Lot)
      → pos 0 ≤ℤ f.dust
      → All P lots
      → let r = relieve_lots lots quantity d p in All Q r.realized × All P r.lots
  relieve_lots-All quantity lots z h =
      rw (relieve_lots-fifo lots quantity d p z) (fifo-All quantity lots z h)

module _ ⦃f : Float⦄ where
  fifo-IsSorted :
      (d : Day) (p remaining : ℤ) (lots : List Lot)
      → pos 0 ≤ℤ f.dust
      → IsSorted opened lots
      → IsSorted opened (fifo d p remaining lots).lots
  unfolding fifo
  fifo-IsSorted d p remaining [] z h = tt
  fifo-IsSorted d p remaining (lot ∷ lots) z h =
      fifo_cases (λ r. IsSorted opened r.lots) d p remaining lot lots z (λ s. h)
        (λ more all. fifo-IsSorted d p (remaining -ℤ lot.quantity) lots z h.1)
        (λ more part gone. h.1) (λ more part. h)

  -- Lots in order of purchase stay so.
  pub relieve_lots-IsSorted :
      (lots : List Lot) (quantity : ℤ) (d : Day) (p : ℤ)
      → pos 0 ≤ℤ f.dust
      → IsSorted opened lots
      → IsSorted opened (relieve_lots lots quantity d p).lots
  relieve_lots-IsSorted lots quantity d p z h =
      rw (relieve_lots-fifo lots quantity d p z) (fifo-IsSorted d p quantity lots z h)
