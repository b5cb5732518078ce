-- ===== src/Ledger/Valid.antt =====
-- A valid ledger (portfolio_analytics/domain/ledger.py): its lots have shares and stand oldest first,
-- and what is closed was bought first.
use metron.Prelude.{◌≤◌, ◌≡◌, String, List, [], ◌∷◌, All, arith}
use metron.Prelude.Int.{pos, ◌<ℤ◌}
use metron.Prelude.Dict.{Entries, Entries-get_or}
use metron.Prelude.Sort.{IsSorted}
use metron.Prelude.Day.{Day}
use metron.Ledger.Records.{Lot, RealizedGain, Ledger, lots_of}
use metron.Ledger.Relief.Items.{HasShares, opened}

-- An open lot of ticker `t` on day `now`: it has shares and was not opened later.
pub record IsOpenLot (t : String) (now : Day) (l : Lot) : Type 0 where
  pub has_shares : HasShares l
  pub named : l.ticker ≡ t
  pub opened_before : l.open_date ≤ now

-- A realized gain on day `now`: some shares, closed no sooner than they were bought.
pub record IsClosedLot (now : Day) (g : RealizedGain) : Type 0 where
  pub has_shares : pos 0 <ℤ g.quantity
  pub bought_first : g.open_date ≤ g.close_date
  pub closed_before : g.close_date ≤ now

-- The lots of one ticker, oldest first.
pub record AreLots (now : Day) (t : String) (lots : List Lot) : Type 0 where
  pub each : All (IsOpenLot t now) lots
  pub oldest_first : IsSorted opened lots

pub record IsValid (now : Day) (l : Ledger) : Type 0 where
  pub open_lots : Entries (AreLots now) l.open_lots
  pub realized : All (IsClosedLot now) l.realized

pub AreLots-nil : (now : Day) (t : String) → AreLots now t []
AreLots-nil now t = record { each = tt; oldest_first = tt }

pub lots_of-AreLots :
    (now : Day) (l : Ledger) (t : String) → IsValid now l → AreLots now t (lots_of l t)
lots_of-AreLots now l t v =
    Entries-get_or (AreLots now) t [] l.open_lots v.open_lots (AreLots-nil now t)

-- Time passes.
IsOpenLot-later : (a b : Day) (t : String) (l : Lot) → a ≤ b → IsOpenLot t a l → IsOpenLot t b l
IsOpenLot-later a b t l h o = record {
  has_shares = o.has_shares;
  named = o.named;
  opened_before = omega arith;
}

pub All-later {ℓ κ μ} :
    {A : Type ℓ} {P : A → Type κ} {Q : A → Type μ} (h : (x : A) → P x → Q x) (xs : List A)
    → All P xs
    → All Q xs
All-later h [] k = tt
All-later h (x ∷ xs) k = (h x k.0, All-later h xs k.1)

pub IsValid-later : (a b : Day) (l : Ledger) → a ≤ b → IsValid a l → IsValid b l
IsValid-later a b l h v = record {
  open_lots =
      All-later
        (λ e p. record {
          each = All-later (λ x. IsOpenLot-later a b e.0 x h) e.1 p.each;
          oldest_first = p.oldest_first;
        })
        l.open_lots v.open_lots;
  realized =
      All-later
        (λ g p. record {
          has_shares = p.has_shares;
          bought_first = p.bought_first;
          closed_before = omega arith;
        })
        l.realized v.realized;
}
