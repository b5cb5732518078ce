-- ===== src/Tax/Picks.antt =====
-- The lots that a user names for a sale (portfolio_analytics/domain/tax.py, `_validated_picks`).
use metron.Prelude.{
  ℕ, ◌≡◌, inl, inr, List, [], ◌∷◌, Option, none, some, false, get_elem?, All, subst, arith,
  Bool-cases, Option-cases,
}
use metron.Prelude.Int.{ℤ, pos, negsuc, ◌+ℤ◌, ◌-ℤ◌, ◌≤ℤ◌, ◌<ℤ◌, leb_ℤ, ltb_ℤ, abs_ℤ}
use metron.Prelude.Result.{Ensures, Ensures-bind}
use metron.Prelude.Float.{Float}
use metron.Ledger.Records.{Lot}
use metron.Tax.Sale.{LotPick, Chosen, lot_at, contains, check_picks, validated_picks, picked}

module _ ⦃f : Float⦄ where
  pub record IsPick (lots : List Lot) (c : Chosen) : Type 0 where
    pub at_index : get_elem? lots c.index ≡ some c.lot
    pub positive : pos 0 <ℤ c.quantity
    pub within : c.quantity ≤ℤ c.lot.quantity +ℤ f.dust

  abbrev pub IsUnseen : List ℕ → Chosen → Type 0
  IsUnseen seen c = contains c.index seen ≡ false

  -- No index is taken twice, nor one of `seen`.
  abbrev pub AreDistinct : List ℕ → List Chosen → Type 0
  AreDistinct seen [] = Unit
  AreDistinct seen (c ∷ cs) = IsUnseen seen c × AreDistinct (c.index ∷ seen) cs

  pub record ArePicks (lots : List Lot) (seen : List ℕ) (chosen : List Chosen) : Type 0 where
    pub each : All (IsPick lots) chosen
    pub distinct : AreDistinct seen chosen

  abbrev pub choice : ℕ × Lot → LotPick → Chosen
  choice (i, lot) pick = record { index = i; lot = lot; quantity = pick.quantity }

  abbrev Fits : List Lot → Option (ℕ × Lot) → Type 0
  Fits lots none = Unit
  Fits lots (some (i, lot)) = get_elem? lots i ≡ some lot

  lot_at-Fits : (lots : List Lot) (i : ℤ) → Fits lots (lot_at lots i)
  lot_at-Fits lots (negsuc k) = tt
  lot_at-Fits lots (pos k) = elim (Option-cases (get_elem? lots k)) [
    | inl e ↦ rw (Fits, e) tt
    | inr (l, e) ↦ rw (Fits, e) e
  ]

  ArePicks-cons :
      (lots : List Lot) (seen : List ℕ) (c : Chosen) (rest : List Chosen)
      → IsPick lots c
      → IsUnseen seen c
      → ArePicks lots (c.index ∷ seen) rest
      → ArePicks lots seen (c ∷ rest)
  ArePicks-cons lots seen c rest h fresh k = record {
    each = (h, k.each);
    distinct = (fresh, k.distinct);
  }

  check_picks-ArePicks :
      (lots : List Lot) (seen : List ℕ) (picks : List LotPick)
      → Ensures (ArePicks lots seen) (check_picks lots seen picks)
  unfolding check_picks
  check_picks-ArePicks lots seen [] = record { each = tt; distinct = tt }
  check_picks-ArePicks lots seen (pick ∷ picks) = elim (Option-cases (lot_at lots pick.lot_index)) [
    | inl missing ↦ rw (Ensures, missing) tt
    | inr ((i, lot), found) ↦
        rw (Ensures, found)
          (elim (Bool-cases (contains i seen)) [
            | inl twice ↦ rw (Ensures, twice) tt
            | inr fresh ↦
                rw (Ensures, fresh)
                  (elim (Bool-cases (leb_ℤ pick.quantity (pos 0))) [
                    | inl none_sold ↦ rw (Ensures, none_sold) tt
                    | inr some_sold ↦
                        rw (Ensures, some_sold)
                          (elim (Bool-cases (ltb_ℤ (lot.quantity +ℤ f.dust) pick.quantity)) [
                            | inl too_many ↦ rw (Ensures, too_many) tt
                            | inr covered ↦
                                rw (Ensures, covered)
                                  (Ensures-bind (ArePicks lots (i ∷ seen)) (ArePicks lots seen)
                                    (check_picks lots (i ∷ seen) picks) _
                                    (check_picks-ArePicks lots (i ∷ seen) picks)
                                    (λ rest h.
                                      ArePicks-cons lots seen (choice (i, lot) pick) rest
                                        (record {
                                          at_index =
                                              subst (Fits lots) found
                                                (lot_at-Fits lots pick.lot_index);
                                          positive = ground arith;
                                          within = ground arith;
                                        })
                                        fresh h))
                          ])
                  ])
          ])
  ]

  pub record IsSelection (lots : List Lot) (quantity : ℤ) (chosen : List Chosen) : Type 0 where
    pub picks : ArePicks lots [] chosen
    pub total : abs_ℤ (picked chosen -ℤ quantity) ≤ℤ f.micro

  -- Picks that pass name lots that exist, each at most once, with a positive quantity that the lot
  -- covers up to the tolerance, and the quantities make up that of the sale within 1e-6.
  pub validated_picks-IsSelection :
      (lots : List Lot) (quantity : ℤ) (picks : List LotPick)
      → Ensures (IsSelection lots quantity) (validated_picks lots quantity picks)
  unfolding validated_picks
  validated_picks-IsSelection lots quantity [] = tt
  validated_picks-IsSelection lots quantity (p ∷ ps) =
      Ensures-bind (ArePicks lots []) (IsSelection lots quantity) (check_picks lots [] (p ∷ ps)) _
        (check_picks-ArePicks lots [] (p ∷ ps))
        (λ chosen h. elim (Bool-cases (ltb_ℤ f.micro (abs_ℤ (picked chosen -ℤ quantity)))) [
          | inl off ↦ rw (Ensures, off) tt
          | inr near ↦ rw (Ensures, near) (record { picks = h; total = ground arith })
        ])
