-- ===== src/Account/Wealth.antt =====
-- Observations of an account and their rollup over several accounts
-- (portfolio_analytics/domain/account_performance.py). `None`, for a component that was not
-- observed, is `none`.
use metron.Prelude.{
  String, Option, none, some, Bool, true, ◌&&◌, List, [], ◌∷◌, map, if◌then◌else◌, ◌==◌,
}
use metron.Prelude.Int.{ℤ, pos, ◌+ℤ◌, ◌-ℤ◌, sum}
use metron.Prelude.Result.{Result, ok, raised}
use metron.Prelude.Dict.{Dict, insert, get_or}
use metron.Prelude.Day.{Day}
use text.Mathlib.Text.{◌==◌ as str_eq}
use Prim.Native.String.{◌++◌ as text_append}

pub data Component : Type 0 where
  cash accrued_income financing_debit : Component

pub record WealthObservation : Type 0 where
  pub when : Day
  pub holdings_mv : ℤ
  pub cash : Option ℤ
  pub cash_source : Option String
  pub accrued_income : Option ℤ
  pub financing_debit : Option ℤ
  pub positions : Option (Dict ℤ)

abbrev missing_if : Component → Option ℤ → List Component → List Component
missing_if c none rest = c ∷ rest
missing_if c (some v) rest = rest

-- The components that were not observed; `unavailable_reason` names them and the day.
abbrev pub missing : WealthObservation → List Component
missing o = missing_if Component.cash o.cash (
    missing_if Component.accrued_income o.accrued_income
      (missing_if Component.financing_debit o.financing_debit []))

-- A value that an `assert` shows to be there.
abbrev pub observed : Option ℤ → ℤ
observed none = pos 0
observed (some v) = v

unfoldable pub wealth : WealthObservation → Option ℤ
wealth o = elim (missing o) [
  | [] ↦
      some (
        o.holdings_mv +ℤ observed o.cash +ℤ observed o.accrued_income -ℤ observed o.financing_debit)
  | c ∷ cs ↦ none
]

pub data RollupError : Type 0 where
  no_observations several_dates : RollupError

-- `summed`: one missing value leaves the sum missing.
abbrev pub summed : List (Option ℤ) → Option ℤ
summed [] = some (pos 0)
summed (none ∷ vs) = none
summed (some v ∷ vs) = elim (summed vs) [ none ↦ none | some w ↦ some (v +ℤ w) ]

abbrev pub add_positions : Dict ℤ → Dict ℤ → Dict ℤ
add_positions acc [] = acc
add_positions acc ((s, q) ∷ rest) = add_positions (insert s (get_or s (pos 0) acc +ℤ q) acc) rest

abbrev pub rollup_positions : Dict ℤ → List WealthObservation → Option (Dict ℤ)
rollup_positions acc [] = some acc
rollup_positions acc (o ∷ os) = elim o.positions [
  | none ↦ none
  | some held ↦ rollup_positions (add_positions acc held) os
]

abbrev pub all_on : Day → List WealthObservation → Bool
all_on d [] = true
all_on d (o ∷ os) = o.when == d && all_on d os

-- `o.cash_source or ""`
abbrev source_of : WealthObservation → String
source_of o = elim o.cash_source [ none ↦ "" | some s ↦ s ]

abbrev all_same : String → List String → Bool
all_same s [] = true
all_same s (t ∷ ts) = str_eq t s && all_same s ts

-- `",".join(sources)`
abbrev join : List String → String
join [] = ""
join (s ∷ []) = s
join (s ∷ t ∷ ts) = text_append s (text_append "," (join (t ∷ ts)))

abbrev shared_source : List String → String
shared_source [] = ""
shared_source (s ∷ ss) = if all_same s ss then s else text_append "mixed:" (join (s ∷ ss))

abbrev sourced : Option ℤ → String → Option String
sourced none s = none
sourced (some v) s = some s

abbrev pub rollup : Day → List WealthObservation → WealthObservation
rollup d os =
    let cash = summed (map (λ o. o.cash) os) in
    record {
      when = d;
      holdings_mv = sum (map (λ o. o.holdings_mv) os);
      cash = cash;
      cash_source = sourced cash (shared_source (map source_of os));
      accrued_income = summed (map (λ o. o.accrued_income) os);
      financing_debit = summed (map (λ o. o.financing_debit) os);
      positions = rollup_positions [] os;
    }

unfoldable pub combine_observations : List WealthObservation → Result RollupError WealthObservation
combine_observations [] = raised no_observations
combine_observations (o ∷ os) =
    if all_on o.when os then ok (rollup o.when (o ∷ os)) else raised several_dates
