-- ===== src/Account/Rollup.antt =====
-- The wealth of a rollup (portfolio_analytics/domain/account_performance.py).
use metron.Prelude.{
  ◌≡◌, refl, ap, ◌∙◌, Option, none, some, List, [], ◌∷◌, map, inl, inr, Bool-cases, arith,
}
use metron.Prelude.Int.{ℤ, ◌+ℤ◌, ◌-ℤ◌, sum, int_laws}
use metron.Prelude.Result.{Ensures}
use metron.Account.Wealth.{WealthObservation, wealth, summed, rollup, all_on, combine_observations}

-- Wealth by its four components.
abbrev total : ℤ → Option ℤ → Option ℤ → Option ℤ → Option ℤ
total mv (some c) (some a) (some d) = some (mv +ℤ c +ℤ a -ℤ d)
total mv none a d = none
total mv (some c) none d = none
total mv (some c) (some a) none = none

wealth-total :
    (o : WealthObservation)
    → wealth o ≡ total o.holdings_mv o.cash o.accrued_income o.financing_debit
unfolding wealth
wealth-total o = ground arith

abbrev add : Option ℤ → Option ℤ → Option ℤ
add none w = none
add (some v) none = none
add (some v) (some w) = some (v +ℤ w)

summed-cons : (v : Option ℤ) (vs : List (Option ℤ)) → summed (v ∷ vs) ≡ add v (summed vs)
summed-cons none vs = refl
summed-cons (some v) vs = ground arith

total-add :
    (m m' : ℤ) (c c' a a' d d' : Option ℤ)
    → total (m +ℤ m') (add c c') (add a a') (add d d') ≡ add (total m c a d) (total m' c' a' d')
total-add m m' none c' a a' d d' = refl
total-add m m' (some c) none none a' d d' = refl
total-add m m' (some c) none (some a) a' none d' = refl
total-add m m' (some c) none (some a) a' (some d) d' = refl
total-add m m' (some c) (some c') none a' d d' = refl
total-add m m' (some c) (some c') (some a) none none d' = refl
total-add m m' (some c) (some c') (some a) none (some d) d' = refl
total-add m m' (some c) (some c') (some a) (some a') none d' = refl
total-add m m' (some c) (some c') (some a) (some a') (some d) none = refl
total-add m m' (some c) (some c') (some a) (some a') (some d) (some d') = ap some (omega int_laws)

rollup_total :
    (os : List WealthObservation)
    → total
        (sum (map (λ o. o.holdings_mv) os))
        (summed (map (λ o. o.cash) os))
        (summed (map (λ o. o.accrued_income) os))
        (summed (map (λ o. o.financing_debit) os))
      ≡ summed (map wealth os)
rollup_total [] = ap some (omega int_laws)
rollup_total (o ∷ os) =
    rw
      (
        summed-cons o.cash _,
        summed-cons o.accrued_income _,
        summed-cons o.financing_debit _,
        summed-cons (wealth o) (map wealth os),
        ← rollup_total os,
        wealth-total o,
      )
      (total-add o.holdings_mv _ o.cash _ o.accrued_income _ o.financing_debit _)

-- The wealth of a rollup is the sum of the accounts' wealths, and it is missing when any account's
-- is: a component that one account did not observe is never read as zero.
pub combine_observations-wealth :
    (os : List WealthObservation)
    → Ensures (λ o. wealth o ≡ summed (map wealth os)) (combine_observations os)
unfolding combine_observations
combine_observations-wealth [] = tt
combine_observations-wealth (o ∷ os) = elim (Bool-cases (all_on o.when os)) [
  | inl e ↦ rw e (wealth-total (rollup o.when (o ∷ os)) ∙ rollup_total (o ∷ os))
  | inr e ↦ rw e tt
]
