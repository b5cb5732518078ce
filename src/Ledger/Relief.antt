-- ===== src/Ledger/Relief.antt =====
-- `relieve_lots` of portfolio_analytics/domain/ledger.py: closing shares against lots in list order.
-- It mutates the list that it is given, so the model returns the list too.
pub mod Fifo
pub mod Conserve
pub mod Basis
pub mod Items
use metron.Prelude.{ℕ, zero, suc, List, [], ◌∷◌, length, if◌then◌else◌}
use metron.Prelude.Int.{ℤ, ◌-ℤ◌, ltb_ℤ, leb_ℤ, min_ℤ}
use metron.Prelude.Float.{Float, ◌⊛◌}
use metron.Prelude.Day.{Day}
use metron.Ledger.Records.{Lot, RealizedGain}

-- What `relieve_lots` leaves behind: the gains it returns, the list it mutated, and how much of
-- the quantity it did not close.
pub record Relief : Type 0 where
  pub realized : List RealizedGain
  pub lots : List Lot
  pub remaining : ℤ

module _ ⦃f : Float⦄ where
  abbrev pub close_part : Lot → ℤ → Day → ℤ → RealizedGain
  close_part lot closed close_date proceeds_per_share = record {
    ticker = lot.ticker;
    open_date = lot.open_date;
    close_date = close_date;
    quantity = closed;
    proceeds = closed ⊛ proceeds_per_share;
    cost_basis = closed ⊛ lot.cost_per_share;
  }

  abbrev pub add_gain : RealizedGain → Relief → Relief
  add_gain g r = record r { realized = g ∷ r.realized }

  -- The `while remaining > 1e-9 and lots` of `relieve_lots`, on fuel.
  unfoldable pub relieve_loop : ℕ → Day → ℤ → ℤ → List Lot → Relief
  relieve_loop zero close_date per_share remaining lots = record {
    realized = [];
    lots = lots;
    remaining = remaining;
  }
  relieve_loop (suc fuel) close_date per_share remaining [] = record {
    realized = [];
    lots = [];
    remaining = remaining;
  }
  relieve_loop (suc fuel) close_date per_share remaining (lot ∷ lots) =
      let closed = min_ℤ lot.quantity remaining in
      let left = lot.quantity -ℤ closed in
      let lots' = (if leb_ℤ left f.dust then lots else record lot { quantity = left } ∷ lots) in
      let rest = relieve_loop fuel close_date per_share (remaining -ℤ closed) lots' in
      if ltb_ℤ f.dust remaining
      then add_gain (close_part lot closed close_date per_share) rest
      else record { realized = []; lots = lot ∷ lots; remaining = remaining }

  -- The fuel is one round for each lot and one more.
  unfoldable pub relieve_lots : List Lot → ℤ → Day → ℤ → Relief
  unfolding relieve_loop
  relieve_lots lots quantity close_date per_share =
      relieve_loop (suc (length lots)) close_date per_share quantity lots
