-- ===== src/Income/Tests.antt =====
-- Two lots closed in 2024 and 2025 with a dividend.
use metron.Prelude.{◌≡◌, refl, List, [], ◌∷◌, map}
use metron.Prelude.Int.{pos, ◌+ℤ◌, ◌-ℤ◌}
use metron.Prelude.Day.{Day, year_of}
use metron.Ledger.Records.{RealizedGain}
use metron.Income.Years.{ByYear, amount, add, newest_first}
use metron.Income.Summary.{
  AreRows, gains_by_year, taxable_income, summarize_income_by_year,
  summarize_income_by_year-AreRows,
}

abbrev closed : Day → Day → RealizedGain
closed open_date close_date = record {
  ticker = "VTI";
  open_date = open_date;
  close_date = close_date;
  quantity = pos 2;
  proceeds = pos 30;
  cost_basis = pos 20;
}

abbrev realized : List RealizedGain
realized = closed 738000 739251 ∷ closed 739000 739252 ∷ []

abbrev dividends : ByYear
dividends = (2025, pos 7) ∷ []

two_years :
    map (λ r. taxable_income r) (summarize_income_by_year realized dividends [] [])
    ≡ pos 17 ∷ pos 10 ∷ []
unfolding summarize_income_by_year amount newest_first gains_by_year ◌-ℤ◌ add year_of ◌+ℤ◌
two_years = refl

summarize_income_by_year-AreRows_example :
    AreRows realized dividends [] [] (summarize_income_by_year realized dividends [] [])
summarize_income_by_year-AreRows_example = summarize_income_by_year-AreRows realized dividends [] []
