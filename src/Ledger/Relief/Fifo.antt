-- ===== src/Ledger/Relief/Fifo.antt =====
-- Closing shares lot by lot, as a recursion on the list: the reference that the loop of
-- `relieve_lots` (portfolio_analytics/domain/ledger.py) is compared with.
use metron.Prelude.{
  ℕ, zero, suc, ◌<◌, ◌≡◌, refl, inl, inr, List, [], ◌∷◌, length, true, false, if◌then◌else◌,
  Bool-cases, arith,
}
use metron.Prelude.Int.{ℤ, pos, ◌-ℤ◌, ◌≤ℤ◌, ◌<ℤ◌, ltb_ℤ, leb_ℤ, min_ℤ, int_laws}
use metron.Prelude.Float.{Float}
use metron.Prelude.Day.{Day}
use metron.Ledger.Records.{Lot}
use metron.Ledger.Relief.{Relief, close_part, add_gain, relieve_loop}

self_sub : (q : ℤ) → q -ℤ q ≡ pos 0
self_sub q = omega int_laws

leb_self : (q dust : ℤ) → pos 0 ≤ℤ dust → leb_ℤ (q -ℤ q) dust ≡ true
leb_self q dust z = rw (self_sub q) (ground arith)

-- Where a lot keeps more than dust, the quantity asked for is closed.
pub partial_close :
    (q remaining dust : ℤ)
    → pos 0 ≤ℤ dust
    → leb_ℤ (q -ℤ min_ℤ q remaining) dust ≡ false
    → remaining -ℤ min_ℤ q remaining ≡ pos 0
partial_close q remaining dust z h = elim (Bool-cases (ltb_ℤ remaining q)) [
  | inl e ↦ rw e (omega int_laws)
  | inr e ↦ absurd (grind (int_laws, self_sub q))
]

module _ ⦃f : Float⦄ where
  -- A lot that keeps more than dust ends the relief.
  unfoldable pub fifo : Day → ℤ → ℤ → List Lot → Relief
  fifo d p remaining [] = record { realized = []; lots = []; remaining = remaining }
  fifo d p remaining (lot ∷ lots) =
      let closed = min_ℤ lot.quantity remaining in
      let left = lot.quantity -ℤ closed in
      let next = fifo d p (remaining -ℤ closed) lots in
      if ltb_ℤ f.dust remaining
      then add_gain (close_part lot closed d p) (
          if leb_ℤ left f.dust then next else record {
            realized = [];
            lots = record lot { quantity = left } ∷ lots;
            remaining = remaining -ℤ closed;
          })
      else record { realized = []; lots = lot ∷ lots; remaining = remaining }

  pub relieve_loop_done :
      (fuel : ℕ) (d : Day) (p remaining : ℤ) (lots : List Lot)
      → remaining ≤ℤ f.dust
      → relieve_loop fuel d p remaining lots
        ≡ record { realized = []; lots = lots; remaining = remaining }
  unfolding relieve_loop
  relieve_loop_done zero d p remaining lots h = refl
  relieve_loop_done (suc fuel) d p remaining [] h = refl
  relieve_loop_done (suc fuel) d p remaining (lot ∷ lots) h = ground arith

  -- With fuel for one round more than there are lots the loop does what the recursion does.
  pub relieve_loop-fifo :
      (fuel : ℕ) (d : Day) (p remaining : ℤ) (lots : List Lot)
      → pos 0 ≤ℤ f.dust
      → length lots < fuel
      → relieve_loop fuel d p remaining lots ≡ fifo d p remaining lots
  unfolding relieve_loop fifo
  relieve_loop-fifo zero d p remaining lots z h = elim h [ ]
  relieve_loop-fifo (suc fuel) d p remaining [] z h = refl
  relieve_loop-fifo (suc fuel) d p remaining (lot ∷ lots) z h =
      let closed = min_ℤ lot.quantity remaining in
      let left = lot.quantity -ℤ closed in
      elim (Bool-cases (ltb_ℤ f.dust remaining)) [
        | inl more ↦ elim (Bool-cases (leb_ℤ left f.dust)) [
          | inl gone ↦
              rw (more, gone, relieve_loop-fifo fuel d p (remaining -ℤ closed) lots z (omega arith))
          | inr kept ↦ rw (
            more,
            kept,
            relieve_loop_done fuel d p (remaining -ℤ closed) (record lot { quantity = left } ∷ lots)
                (rw (partial_close lot.quantity remaining f.dust z kept) z),
          )
        ]
        | inr done ↦ rw done
      ]

  pub fifo_done :
      (d : Day) (p remaining : ℤ) (lots : List Lot)
      → remaining ≤ℤ f.dust
      → fifo d p remaining lots ≡ record { realized = []; lots = lots; remaining = remaining }
  unfolding fifo
  fifo_done d p remaining [] h = refl
  fifo_done d p remaining (lot ∷ lots) h = ground arith

  -- One lot meets a quantity in four ways: it is not touched, it is closed whole, it is closed but
  -- for a remainder that is dropped, or it keeps the rest of its shares.
  pub fifo_cases {ℓ} :
      (P : Relief → Type ℓ) (d : Day) (p remaining : ℤ) (lot : Lot) (lots : List Lot)
      → pos 0 ≤ℤ f.dust
      → (remaining ≤ℤ f.dust
          → P (record { realized = []; lots = lot ∷ lots; remaining = remaining }))
      → (f.dust <ℤ remaining
          → lot.quantity ≤ℤ remaining
          → P (
              add_gain
                (close_part lot lot.quantity d p)
                (fifo d p (remaining -ℤ lot.quantity) lots)))
      → (f.dust <ℤ remaining
          → remaining <ℤ lot.quantity
          → lot.quantity -ℤ remaining ≤ℤ f.dust
          → P (record {
            realized = close_part lot remaining d p ∷ [];
            lots = lots;
            remaining = pos 0;
          }))
      → (f.dust <ℤ remaining
          → f.dust <ℤ lot.quantity -ℤ remaining
          → P (record {
            realized = close_part lot remaining d p ∷ [];
            lots = record lot { quantity = lot.quantity -ℤ remaining } ∷ lots;
            remaining = pos 0;
          }))
      → P (fifo d p remaining (lot ∷ lots))
  unfolding fifo
  fifo_cases P d p remaining lot lots z stop whole dropped kept =
      elim (Bool-cases (ltb_ℤ f.dust remaining)) [
        | inr e ↦ rw e (stop (ground arith))
        | inl e ↦ elim (Bool-cases (ltb_ℤ remaining lot.quantity)) [
          | inr w ↦ rw (e, w, leb_self lot.quantity f.dust z) (whole (ground arith) (ground arith))
          | inl part ↦ elim (Bool-cases (leb_ℤ (lot.quantity -ℤ remaining) f.dust)) [
            | inl g ↦
                rw (e, part, g, self_sub remaining, fifo_done d p (pos 0) lots z)
                  (dropped (ground arith) (ground arith) (ground arith))
            | inr k ↦ rw (e, part, k, self_sub remaining) (kept (ground arith) (ground arith))
          ]
        ]
      ]
