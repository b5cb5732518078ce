-- ===== src/Ledger/Relief/Basis.antt =====
-- What `relieve_lots` (portfolio_analytics/domain/ledger.py) does with the cost basis of the lots.
use metron.Prelude.{◌≡◌, refl, List, [], ◌∷◌, map}
use metron.Prelude.Int.{ℤ, pos, ◌+ℤ◌, ◌-ℤ◌, ◌≤ℤ◌, ◌<ℤ◌, sum, int_laws}
use metron.Prelude.Float.{Float, ◌⊛◌}
use metron.Prelude.Day.{Day}
use metron.Ledger.Records.{Lot, RealizedGain, basis_of, cost_basis}
use metron.Ledger.Relief.{Relief, relieve_lots, close_part, add_gain}
use metron.Ledger.Relief.Fifo.{fifo, fifo_cases}
use metron.Ledger.Relief.Conserve.{relieve_lots-fifo}
use mathlib.Core.List.{Memᴰ}

abbrev pub closed_basis : List RealizedGain → ℤ
closed_basis gains = sum (map (λ g. g.cost_basis) gains)

module _ ⦃f : Float⦄ where
  -- Where the cost basis of `lots` goes in a relief. It goes to the gains and to the lots left, to the
  -- last unit, but for at most one lot: `cut` in two, whose basis gives way to the products of the two
  -- parts, or `dropped` with a remainder of at most the tolerance, whose basis gives way to that of
  -- the part closed.
  pub data SharesBasis (lots : List Lot) (r : Relief) : Type 0 where
    uncut : basis_of r.lots +ℤ closed_basis r.realized ≡ basis_of lots → SharesBasis lots r
    cut :
        (lot : Lot) (part left : ℤ)
        → Memᴰ lot lots
        → part +ℤ left ≡ lot.quantity
        → f.dust <ℤ part
        → f.dust <ℤ left
        → basis_of r.lots +ℤ closed_basis r.realized +ℤ cost_basis lot
          ≡ basis_of lots +ℤ (part ⊛ lot.cost_per_share +ℤ left ⊛ lot.cost_per_share)
        → SharesBasis lots r
    dropped :
        (lot : Lot) (part left : ℤ)
        → Memᴰ lot lots
        → part +ℤ left ≡ lot.quantity
        → pos 0 <ℤ left
        → left ≤ℤ f.dust
        → basis_of r.lots +ℤ closed_basis r.realized +ℤ cost_basis lot
          ≡ basis_of lots +ℤ part ⊛ lot.cost_per_share
        → SharesBasis lots r

  SharesBasis-whole :
      (d : Day) (p : ℤ) (lot : Lot) (lots : List Lot) (r : Relief)
      → SharesBasis lots r
      → SharesBasis (lot ∷ lots) (add_gain (close_part lot lot.quantity d p) r)
  SharesBasis-whole d p lot lots r (uncut e) = uncut (grind (int_laws, e))
  SharesBasis-whole d p lot lots r (cut l part left m s a b e) =
      cut l part left (Memᴰ.tail m) s a b (grind (int_laws, e))
  SharesBasis-whole d p lot lots r (dropped l part left m s a b e) =
      dropped l part left (Memᴰ.tail m) s a b (grind (int_laws, e))

  fifo-SharesBasis :
      (d : Day) (p remaining : ℤ) (lots : List Lot)
      → pos 0 ≤ℤ f.dust
      → SharesBasis lots (fifo d p remaining lots)
  unfolding fifo
  fifo-SharesBasis d p remaining [] z = uncut (omega int_laws)
  fifo-SharesBasis d p remaining (lot ∷ lots) z =
      fifo_cases (SharesBasis (lot ∷ lots)) d p remaining lot lots z (λ s. uncut (omega int_laws))
        (λ more all.
          SharesBasis-whole d p lot lots _
            (fifo-SharesBasis d p (remaining -ℤ lot.quantity) lots z))
        (λ more part small.
          dropped lot remaining (lot.quantity -ℤ remaining) (Memᴰ.head refl) (omega int_laws)
            (omega int_laws) small (omega int_laws))
        (λ more part.
          cut lot remaining (lot.quantity -ℤ remaining) (Memᴰ.head refl) (omega int_laws) more part
            (omega int_laws))

  -- With a tolerance that is not negative, and products rounded in any way: the cost basis of the
  -- lots goes to the gains and to the lots left, but for at most one lot, which is cut in two or
  -- closed with a remainder of at most the tolerance dropped.
  pub relieve_lots-SharesBasis :
      (lots : List Lot) (quantity : ℤ) (d : Day) (p : ℤ)
      → pos 0 ≤ℤ f.dust
      → SharesBasis lots (relieve_lots lots quantity d p)
  relieve_lots-SharesBasis lots quantity d p z =
      rw (relieve_lots-fifo lots quantity d p z) (fifo-SharesBasis d p quantity lots z)
