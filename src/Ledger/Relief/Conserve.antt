-- ===== src/Ledger/Relief/Conserve.antt =====
-- What `relieve_lots` (portfolio_analytics/domain/ledger.py) does with the shares of the
-- lots: nothing is lost but a remainder of at most the tolerance.
use metron.Prelude.{suc, ◌≡◌, List, [], ◌∷◌, map, length, arith}
use metron.Prelude.Int.{ℤ, pos, ◌+ℤ◌, ◌-ℤ◌, ◌≤ℤ◌, sum, int_laws}
use metron.Prelude.Float.{Float}
use metron.Prelude.Day.{Day}
use metron.Ledger.Records.{Lot, RealizedGain, shares_of}
use metron.Ledger.Relief.{Relief, relieve_lots}
use metron.Ledger.Relief.Fifo.{fifo, fifo_cases, relieve_loop-fifo}

shares_between :
    (left closed remaining quantity held dust : ℤ)
    → closed +ℤ remaining ≡ quantity
    → left +ℤ closed ≤ℤ held
    → held ≤ℤ left +ℤ closed +ℤ dust
    → remaining ≤ℤ dust
    → pos 0 ≤ℤ remaining
    → (left ≤ℤ held -ℤ quantity +ℤ dust) × (held -ℤ quantity -ℤ dust ≤ℤ left)
shares_between left closed remaining quantity held dust e a b c d =
    rw (← e) (omega int_laws, omega int_laws)

abbrev pub closed_shares : List RealizedGain → ℤ
closed_shares gains = sum (map (λ g. g.quantity) gains)

module _ ⦃f : Float⦄ where
  -- With a tolerance that is not negative, the loop of `relieve_lots` ends on its own, by its test or
  -- with the lots used up: it does what the recursion over the lots does.
  pub relieve_lots-fifo :
      (lots : List Lot) (quantity : ℤ) (d : Day) (p : ℤ)
      → pos 0 ≤ℤ f.dust
      → relieve_lots lots quantity d p ≡ fifo d p quantity lots
  unfolding relieve_lots
  relieve_lots-fifo lots quantity d p z =
      relieve_loop-fifo (suc (length lots)) d p quantity lots z (omega arith)

  -- How the shares of `lots` are shared out by a relief of `quantity`.
  pub record Accounts (quantity : ℤ) (lots : List Lot) (r : Relief) : Type 0 where
    -- what is closed and what is still asked for make up the quantity
    pub split_up : closed_shares r.realized +ℤ r.remaining ≡ quantity
    pub no_gain : shares_of r.lots +ℤ closed_shares r.realized ≤ℤ shares_of lots
    pub no_loss : shares_of lots ≤ℤ shares_of r.lots +ℤ closed_shares r.realized +ℤ f.dust

  fifo-Accounts :
      (d : Day) (p remaining : ℤ) (lots : List Lot)
      → pos 0 ≤ℤ f.dust
      → Accounts remaining lots (fifo d p remaining lots)
  unfolding fifo
  fifo-Accounts d p remaining [] z = record {
    split_up = omega int_laws;
    no_gain = omega int_laws;
    no_loss = omega int_laws;
  }
  fifo-Accounts d p remaining (lot ∷ lots) z =
      fifo_cases (Accounts remaining (lot ∷ lots)) d p remaining lot lots z
        (λ h. record {
          split_up = omega int_laws;
          no_gain = omega int_laws;
          no_loss = omega int_laws;
        })
        (λ more all.
          let ih = fifo-Accounts d p (remaining -ℤ lot.quantity) lots z in
          record {
            split_up = grind (int_laws, ih.split_up);
            no_gain = omega (int_laws, ih.no_gain);
            no_loss = omega (int_laws, ih.no_loss);
          })
        (λ more part gone. record {
          split_up = omega int_laws;
          no_gain = omega int_laws;
          no_loss = omega int_laws;
        })
        (λ more part. record {
          split_up = omega int_laws;
          no_gain = omega int_laws;
          no_loss = omega int_laws;
        })

  fifo-remaining :
      (d : Day) (p remaining : ℤ) (lots : List Lot)
      → pos 0 ≤ℤ f.dust
      → remaining ≤ℤ shares_of lots +ℤ f.dust
      → (fifo d p remaining lots).remaining ≤ℤ f.dust
  unfolding fifo
  fifo-remaining d p remaining [] z h = omega int_laws
  fifo-remaining d p remaining (lot ∷ lots) z h =
      fifo_cases (λ r. r.remaining ≤ℤ f.dust) d p remaining lot lots z (λ s. s)
        (λ more all. fifo-remaining d p (remaining -ℤ lot.quantity) lots z (omega int_laws))
        (λ more part gone. z) (λ more part. z)

  -- Closing `quantity` shares loses none but a remainder of at most the tolerance, and makes none.
  pub relieve_lots-Accounts :
      (lots : List Lot) (quantity : ℤ) (d : Day) (p : ℤ)
      → pos 0 ≤ℤ f.dust
      → Accounts quantity lots (relieve_lots lots quantity d p)
  relieve_lots-Accounts lots quantity d p z =
      rw (relieve_lots-fifo lots quantity d p z) (fifo-Accounts d p quantity lots z)

  -- A quantity that the lots cover, up to the tolerance, is closed up to the tolerance.
  pub relieve_lots-remaining :
      (lots : List Lot) (quantity : ℤ) (d : Day) (p : ℤ)
      → pos 0 ≤ℤ f.dust
      → quantity ≤ℤ shares_of lots +ℤ f.dust
      → (relieve_lots lots quantity d p).remaining ≤ℤ f.dust
  relieve_lots-remaining lots quantity d p z h =
      rw (relieve_lots-fifo lots quantity d p z) (fifo-remaining d p quantity lots z h)

  fifo-remaining_nonneg :
      (d : Day) (p remaining : ℤ) (lots : List Lot)
      → pos 0 ≤ℤ f.dust
      → pos 0 ≤ℤ remaining
      → pos 0 ≤ℤ (fifo d p remaining lots).remaining
  unfolding fifo
  fifo-remaining_nonneg d p remaining [] z h = h
  fifo-remaining_nonneg d p remaining (lot ∷ lots) z h =
      fifo_cases (λ r. pos 0 ≤ℤ r.remaining) d p remaining lot lots z (λ s. h)
        (λ more all. fifo-remaining_nonneg d p (remaining -ℤ lot.quantity) lots z (omega int_laws))
        (λ more part gone. omega arith) (λ more part. omega arith)

  -- After a relief of `quantity` shares that the lots cover up to the tolerance, the lots hold
  -- `quantity` shares fewer, up to the tolerance either way.
  pub relieve_lots-shares :
      (lots : List Lot) (quantity : ℤ) (d : Day) (p : ℤ)
      → pos 0 ≤ℤ f.dust
      → pos 0 ≤ℤ quantity
      → quantity ≤ℤ shares_of lots +ℤ f.dust
      → let left = shares_of (relieve_lots lots quantity d p).lots in
        (left ≤ℤ shares_of lots -ℤ quantity +ℤ f.dust)
        × (shares_of lots -ℤ quantity -ℤ f.dust ≤ℤ left)
  relieve_lots-shares lots quantity d p z q h = rw (relieve_lots-fifo lots quantity d p z) (
      let a = fifo-Accounts d p quantity lots z in
      let below = fifo-remaining d p quantity lots z h in
      let above = fifo-remaining_nonneg d p quantity lots z q in
      let r = fifo d p quantity lots in
      shares_between (shares_of r.lots) (closed_shares r.realized) r.remaining quantity
        (shares_of lots) f.dust a.split_up a.no_gain a.no_loss below above)
