-- ===== src/Income/Summary.antt =====
-- `summarize_income_by_year` of portfolio_analytics/domain/realized.py.
use metron.Prelude.{
  ℕ, ◌≡◌, refl, ◌∙◌, ap, ap₂, ◌||◌, List, [], ◌∷◌, ◌++◌, map, keep, All, Bool, not, ◌&&◌, ◌==◌,
  if◌then◌else◌, Bool-cases, inl, inr, arith,
}
use metron.Prelude.Int.{ℤ, ◌+ℤ◌, sum, int_laws, zero_+ℤ}
use metron.Prelude.Day.{year_of}
use metron.Ledger.Records.{RealizedGain, gain, long_term}
use metron.Income.Years.{
  ByYear, amount, add, years_in, newest_first, IsFalling, amount-add, among, among-add,
  among-append, among-newest_first, newest_first-IsFalling,
}

pub record YearlyIncome : Type 0 where
  pub year : ℕ
  pub realized_st : ℤ
  pub realized_lt : ℤ
  pub dividends : ℤ
  pub interest : ℤ
  pub distributions : ℤ

-- `YearlyIncome.net_capital_gains` and `YearlyIncome.taxable_income`
abbrev pub net_gains : YearlyIncome → ℤ
net_gains r = r.realized_st +ℤ r.realized_lt

abbrev pub taxable_income : YearlyIncome → ℤ
taxable_income r = net_gains r +ℤ r.dividends +ℤ r.interest +ℤ r.distributions

abbrev pub closed_in : RealizedGain → ℕ
closed_in r = year_of r.close_date

-- The loop over `realized`, for one of its two dictionaries: `wanted` says which gains it takes.
unfoldable pub gains_by_year : (RealizedGain → Bool) → ByYear → List RealizedGain → ByYear
gains_by_year wanted d [] = d
gains_by_year wanted d (r ∷ rs) =
    gains_by_year wanted (if wanted r then add (closed_in r) (gain r) d else d) rs

abbrev pub short_term : RealizedGain → Bool
short_term r = not (long_term r)

abbrev pub income_years : List RealizedGain → ByYear → ByYear → ByYear → List ℕ
income_years realized dividends interest distributions = newest_first (
    years_in (gains_by_year short_term [] realized)
    ++ years_in (gains_by_year long_term [] realized)
    ++ years_in dividends
    ++ years_in interest
    ++ years_in distributions)

abbrev pub income_row : List RealizedGain → ByYear → ByYear → ByYear → ℕ → YearlyIncome
income_row realized dividends interest distributions y = record {
  year = y;
  realized_st = amount (gains_by_year short_term [] realized) y;
  realized_lt = amount (gains_by_year long_term [] realized) y;
  dividends = amount dividends y;
  interest = amount interest y;
  distributions = amount distributions y;
}

-- The rows of a set of years, sorted by year in falling order: a set's own order does not show.
unfoldable pub summarize_income_by_year :
    List RealizedGain → ByYear → ByYear → ByYear → List YearlyIncome
summarize_income_by_year realized dividends interest distributions =
    map (income_row realized dividends interest distributions)
      (income_years realized dividends interest distributions)

abbrev pub gains_in : (RealizedGain → Bool) → ℕ → List RealizedGain → ℤ
gains_in wanted y rs = sum (map gain (keep (λ r. wanted r && closed_in r == y) rs))

amount-gains_by_year :
    (wanted : RealizedGain → Bool) (d : ByYear) (rs : List RealizedGain) (y : ℕ)
    → amount (gains_by_year wanted d rs) y ≡ amount d y +ℤ gains_in wanted y rs
unfolding gains_by_year
amount-gains_by_year wanted d [] y = omega int_laws
amount-gains_by_year wanted d (r ∷ rs) y = elim (Bool-cases (wanted r)) [
  | inr e ↦ rw e (amount-gains_by_year wanted d rs y)
  | inl e ↦ elim (Bool-cases (closed_in r == y)) [
    | inl q ↦
        rw
          (
            e,
            amount-gains_by_year wanted (add (closed_in r) (gain r) d) rs y,
            amount-add d (closed_in r) y (gain r),
            q,
          )
          (omega int_laws)
    | inr q ↦
        rw
          (
            e,
            amount-gains_by_year wanted (add (closed_in r) (gain r) d) rs y,
            amount-add d (closed_in r) y (gain r),
            q,
          )
          refl
  ]
]

or_last : (a b c : Bool) → ((b || a) || c) ≡ (a || (b || c))
or_last a b c = ground arith

or_assoc : (a b c : Bool) → (a || (b || c)) ≡ ((a || b) || c)
or_assoc a b c = ground arith

or_right : (a b c d : Bool) → (((a || b) || c) || d) ≡ (a || (b || (c || d)))
or_right a b c d = ground arith

or_swap : (a b c : Bool) → (b || (a || c)) ≡ (a || (b || c))
or_swap a b c = ground arith

among-gains_by_year :
    (wanted : RealizedGain → Bool) (d : ByYear) (rs : List RealizedGain) (y : ℕ)
    → among y (years_in (gains_by_year wanted d rs))
      ≡ (among y (years_in d) || among y (map closed_in (keep wanted rs)))
unfolding gains_by_year
among-gains_by_year wanted d [] y = ground arith
among-gains_by_year wanted d (r ∷ rs) y = elim (Bool-cases (wanted r)) [
  | inr e ↦ rw e (among-gains_by_year wanted d rs y)
  | inl e ↦
      rw
        (
          e,
          among-gains_by_year wanted (add (closed_in r) (gain r) d) rs y,
          among-add d (closed_in r) y (gain r),
        )
        (or_last (among y (years_in d)) (closed_in r == y) _)
]

among-closed :
    (y : ℕ) (rs : List RealizedGain)
    → among y (map closed_in rs) ≡ (
        among y (map closed_in (keep short_term rs)) || among y (map closed_in (keep long_term rs)))
among-closed y [] = refl
among-closed y (r ∷ rs) = elim (Bool-cases (long_term r)) [
  | inl e ↦
      rw (e, among-closed y rs)
        (or_swap (among y (map closed_in (keep short_term rs))) (closed_in r == y) _)
  | inr e ↦ rw (e, among-closed y rs) (or_assoc (closed_in r == y) _ _)
]

pub record IsIncomeOf (realized : List RealizedGain) (dividends interest distributions : ByYear)
    (r : YearlyIncome) : Type 0 where
  pub short : r.realized_st ≡ gains_in short_term r.year realized
  pub long : r.realized_lt ≡ gains_in long_term r.year realized
  pub cash :
      taxable_income r
      ≡ gains_in short_term r.year realized
        +ℤ gains_in long_term r.year realized
        +ℤ amount dividends r.year
        +ℤ amount interest r.year
        +ℤ amount distributions r.year

module _ (realized : List RealizedGain) (dividends interest distributions : ByYear) where
  income_row-IsIncomeOf :
      (ys : List ℕ)
      → All
          (IsIncomeOf realized dividends interest distributions)
          (map (income_row realized dividends interest distributions) ys)
  unfolding amount
  income_row-IsIncomeOf [] = tt
  income_row-IsIncomeOf (y ∷ ys) =
      let short = amount-gains_by_year short_term [] realized y ∙ zero_+ℤ _ in
      let long = amount-gains_by_year long_term [] realized y ∙ zero_+ℤ _ in
      (
        record {
          short = short;
          long = long;
          cash =
              ap₂
                (λ (a b : ℤ).
                  a +ℤ b +ℤ amount dividends y +ℤ amount interest y +ℤ amount distributions y)
                short long;
        },
        income_row-IsIncomeOf ys,
      )

  row_years :
      (ys : List ℕ)
      → map (λ r. r.year) (map (income_row realized dividends interest distributions) ys) ≡ ys
  row_years [] = refl
  row_years (y ∷ ys) = ap (λ (t : List ℕ). y ∷ t) (row_years ys)

  among-income_years :
      (y : ℕ)
      → among y (income_years realized dividends interest distributions) ≡ (
          among y (map closed_in realized)
          || (among y (years_in dividends)
              || (among y (years_in interest) || among y (years_in distributions))))
  among-income_years y =
      rw
        (
          among-newest_first y (
              years_in (gains_by_year short_term [] realized)
              ++ years_in (gains_by_year long_term [] realized)
              ++ years_in dividends
              ++ years_in interest
              ++ years_in distributions),
          among-append y _ (years_in distributions),
          among-append y _ (years_in interest),
          among-append y _ (years_in dividends),
          among-append y _ (years_in (gains_by_year long_term [] realized)),
          among-gains_by_year short_term [] realized y,
          among-gains_by_year long_term [] realized y,
          among-closed y realized,
        )
        (or_right
          (among y (map closed_in (keep short_term realized))
            || among y (map closed_in (keep long_term realized)))
          (among y (years_in dividends)) (among y (years_in interest))
          (among y (years_in distributions)))

  pub record AreRows (rows : List YearlyIncome) : Type 0 where
    pub each : All (IsIncomeOf realized dividends interest distributions) rows
    pub newest_on_top : IsFalling (map (λ r. r.year) rows)
    pub complete :
        (y : ℕ)
        → among y (map (λ r. r.year) rows) ≡ (
            among y (map closed_in realized)
            || (among y (years_in dividends)
                || (among y (years_in interest) || among y (years_in distributions))))

  -- There is one row for each year with a closed lot or with income, newest first, and it has the
  -- gains of the lots closed in that year, short term and long term, and the income of the year.
  pub summarize_income_by_year-AreRows :
      AreRows (summarize_income_by_year realized dividends interest distributions)
  unfolding summarize_income_by_year
  summarize_income_by_year-AreRows =
      let ys = income_years realized dividends interest distributions in
      record {
        each = income_row-IsIncomeOf ys;
        newest_on_top = rw (row_years ys) (newest_first-IsFalling _);
        complete = λ y. rw (row_years ys) (among-income_years y);
      }
