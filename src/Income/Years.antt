-- ===== src/Income/Years.antt =====
-- Dictionaries from years to amounts, and the years in falling order, for
-- portfolio_analytics/domain/realized.py.
use metron.Prelude.{
  ℕ, ◌<◌, ◌≡◌, refl, List, [], ◌∷◌, ◌++◌, All, Bool, false, ◌==◌, ◌||◌, if◌then◌else◌, Bool-cases,
  inl, inr, arith,
}
use metron.Prelude.{ltb}
use metron.Prelude.Int.{ℤ, pos, ◌+ℤ◌, int_laws}

abbrev pub ByYear : Type 0
ByYear = List (ℕ × ℤ)

-- `d.get(year, 0.0)`
unfoldable pub amount : ByYear → ℕ → ℤ
amount [] y = pos 0
amount ((x, a) ∷ d) y = if x == y then a else amount d y

-- `d[year] += a` on a `defaultdict(float)`
unfoldable pub add : ℕ → ℤ → ByYear → ByYear
add y a [] = (y, a) ∷ []
add y a ((x, b) ∷ d) = let rest = add y a d in if x == y then (x, b +ℤ a) ∷ d else (x, b) ∷ rest

abbrev pub years_in : ByYear → List ℕ
years_in [] = []
years_in ((x, a) ∷ d) = x ∷ years_in d

-- A year among years that fall: kept once.
unfoldable pub insert_year : ℕ → List ℕ → List ℕ
insert_year y [] = y ∷ []
insert_year y (x ∷ xs) =
    let rest = insert_year y xs in
    if ltb x y then y ∷ x ∷ xs else if x == y then x ∷ xs else x ∷ rest

-- A set of years, newest first.
unfoldable pub newest_first : List ℕ → List ℕ
unfolding insert_year
newest_first [] = []
newest_first (y ∷ ys) = insert_year y (newest_first ys)

abbrev pub IsFalling : List ℕ → Type 0
IsFalling [] = Unit
IsFalling (x ∷ xs) = All (λ y. y < x) xs × IsFalling xs

pub amount-add :
    (d : ByYear) (y x : ℕ) (a : ℤ)
    → amount (add y a d) x ≡ (if y == x then amount d x +ℤ a else amount d x)
unfolding amount add
amount-add [] y x a = elim (Bool-cases (y == x)) [
  | inl e ↦ rw e (omega int_laws)
  | inr e ↦ rw e refl
]
amount-add ((z, b) ∷ d) y x a = elim (Bool-cases (z == y)) [
  | inl e ↦
      let same : z ≡ y = ground arith in
      rw (e, same) (elim (Bool-cases (y == x)) [ inl q ↦ rw q refl | inr q ↦ rw q refl ])
  | inr e ↦
      rw (e, amount-add d y x a)
        (elim (Bool-cases (z == x)) [
          | inl q ↦ let apart : (y == x) ≡ false = ground arith in rw (q, apart) refl
          | inr q ↦ rw q refl
        ])
]

All-below : (x y : ℕ) (xs : List ℕ) → x < y → All (λ z. z < x) xs → All (λ z. z < y) xs
All-below x y [] h k = tt
All-below x y (z ∷ zs) h k = (omega arith, All-below x y zs h k.1)

All-insert_year :
    (x y : ℕ) (xs : List ℕ) → y < x → All (λ z. z < x) xs → All (λ z. z < x) (insert_year y xs)
unfolding insert_year
All-insert_year x y [] h k = (h, tt)
All-insert_year x y (z ∷ zs) h k = elim (Bool-cases (ltb z y)) [
  | inl e ↦ rw e (h, k)
  | inr e ↦ elim (Bool-cases (z == y)) [
    | inl q ↦ rw (e, q) k
    | inr q ↦ rw (e, q) (k.0, All-insert_year x y zs h k.1)
  ]
]

insert_year-IsFalling : (y : ℕ) (xs : List ℕ) → IsFalling xs → IsFalling (insert_year y xs)
unfolding insert_year
insert_year-IsFalling y [] h = (tt, tt)
insert_year-IsFalling y (x ∷ xs) h = elim (Bool-cases (ltb x y)) [
  | inl e ↦ let later : x < y = ground arith in rw e ((later, All-below x y xs later h.0), h)
  | inr e ↦ elim (Bool-cases (x == y)) [
    | inl q ↦ rw (e, q) h
    | inr q ↦
        let earlier : y < x = ground arith in
        rw (e, q) (All-insert_year x y xs earlier h.0, insert_year-IsFalling y xs h.1)
  ]
]

pub newest_first-IsFalling : (ys : List ℕ) → IsFalling (newest_first ys)
unfolding newest_first
newest_first-IsFalling [] = tt
newest_first-IsFalling (y ∷ ys) =
    insert_year-IsFalling y (newest_first ys) (newest_first-IsFalling ys)

abbrev pub among : ℕ → List ℕ → Bool
among y [] = false
among y (x ∷ xs) = x == y || among y xs

pub among-append : (y : ℕ) (xs ys : List ℕ) → among y (xs ++ ys) ≡ (among y xs || among y ys)
among-append y [] ys = refl
among-append y (x ∷ xs) ys = rw (among-append y xs ys) (ground arith)

pub among-add :
    (d : ByYear) (y x : ℕ) (a : ℤ)
    → among x (years_in (add y a d)) ≡ (y == x || among x (years_in d))
unfolding add
among-add [] y x a = refl
among-add ((z, b) ∷ d) y x a = elim (Bool-cases (z == y)) [
  | inl e ↦ rw e (ground arith)
  | inr e ↦ rw (e, among-add d y x a) (ground arith)
]

among-insert_year : (x y : ℕ) (xs : List ℕ) → among x (insert_year y xs) ≡ (y == x || among x xs)
unfolding insert_year
among-insert_year x y [] = refl
among-insert_year x y (z ∷ zs) = elim (Bool-cases (ltb z y)) [
  | inl e ↦ rw e refl
  | inr e ↦ elim (Bool-cases (z == y)) [
    | inl q ↦ rw (e, q) (ground arith)
    | inr q ↦ rw (e, q, among-insert_year x y zs) (ground arith)
  ]
]

pub among-newest_first : (x : ℕ) (ys : List ℕ) → among x (newest_first ys) ≡ among x ys
unfolding newest_first
among-newest_first x [] = refl
among-newest_first x (y ∷ ys) =
    rw (among-insert_year x y (newest_first ys), among-newest_first x ys) refl
