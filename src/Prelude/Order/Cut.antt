-- ===== src/Prelude/Order/Cut.antt =====
-- Keeping some of the items of a list, before and after it is sorted and cut to a length.
use metron.Prelude.Tests.{if◌then◌else◌, Bool-cases}
use metron.Prelude.Lists.{All, keep, take, any}
use metron.Prelude.Order.{IsTotal, IsSortedBy, insert_by, sorted_by}
use metron.Prelude.Order.{All-le, sorted_by-IsSortedBy}
use Prim.Native.Nat.{ℕ, zero, suc, ◌<◌}
use mathlib.Core.Path.{◌≡◌, refl, sym, ap, ◌∙◌}
use mathlib.Core.Logic.{inl, inr}
use mathlib.Core.Bool.{Bool, true, false}
use mathlib.Core.List.{List, [], ◌∷◌}
use native.Mathlib.Omega.{arith}

module _ {ℓ} {A : Type ℓ} where
  All-keep {κ} : (P : A → Type κ) (p : A → Bool) (xs : List A) → All P xs → All P (keep p xs)
  All-keep P p [] h = tt
  All-keep P p (x ∷ xs) h = elim (Bool-cases (p x)) [
    | inl e ↦ rw e (h.0, All-keep P p xs h.1)
    | inr e ↦ rw e (All-keep P p xs h.1)
  ]

  All-take {κ} : (P : A → Type κ) (n : ℕ) (xs : List A) → All P xs → All P (take n xs)
  All-take P zero xs h = tt
  All-take P (suc n) [] h = tt
  All-take P (suc n) (x ∷ xs) h = (h.0, All-take P n xs h.1)

  keep_none : (p : A → Bool) (xs : List A) → All (λ x. p x ≡ false) xs → keep p xs ≡ []
  keep_none p [] h = refl
  keep_none p (x ∷ xs) h = rw (h.0) (keep_none p xs h.1)

  abbrev pub has_some : List A → Bool
  has_some [] = false
  has_some (x ∷ xs) = true

  pub has_some-keep : (p : A → Bool) (xs : List A) → has_some (keep p xs) ≡ any p xs
  has_some-keep p [] = refl
  has_some-keep p (x ∷ xs) = elim (Bool-cases (p x)) [
    | inl e ↦ rw e
    | inr e ↦ rw (e, has_some-keep p xs)
  ]

  pub has_some-take : (n : ℕ) (xs : List A) → 0 < n → has_some (take n xs) ≡ has_some xs
  has_some-take zero xs h = ground arith
  has_some-take (suc n) [] h = refl
  has_some-take (suc n) (x ∷ xs) h = refl

module _ {ℓ} {A : Type ℓ} (le : A → A → Bool) where
  has_some-insert_by : (x : A) (xs : List A) → has_some (insert_by le x xs) ≡ true
  unfolding insert_by
  has_some-insert_by x [] = refl
  has_some-insert_by x (y ∷ ys) = elim (Bool-cases (le x y)) [ inl e ↦ rw e | inr e ↦ rw e ]

  pub has_some-sorted_by : (xs : List A) → has_some (sorted_by le xs) ≡ has_some xs
  unfolding sorted_by
  has_some-sorted_by [] = refl
  has_some-sorted_by (x ∷ xs) = has_some-insert_by x (sorted_by le xs)

  insert_by_first : (x : A) (ys : List A) → All (λ y. le x y ≡ true) ys → insert_by le x ys ≡ x ∷ ys
  unfolding insert_by
  insert_by_first x [] h = refl
  insert_by_first x (y ∷ ys) h = rw (h.0)

  module _ (t : IsTotal le) (p : A → Bool) where
    keep-insert_by :
        (x : A) (xs : List A)
        → IsSortedBy le xs
        → keep p (insert_by le x xs) ≡ (if p x then insert_by le x (keep p xs) else keep p xs)
    unfolding insert_by
    keep-insert_by x [] h = elim (Bool-cases (p x)) [ inl e ↦ rw e | inr e ↦ rw e ]
    keep-insert_by x (y ∷ ys) h = elim (Bool-cases (le x y)) [
      | inl e ↦
          let all : All (λ z. le x z ≡ true) (y ∷ ys) = (e, All-le le t x y ys e h.0) in
          let first =
            insert_by_first x (keep p (y ∷ ys)) (All-keep (λ z. le x z ≡ true) p (y ∷ ys) all) in
          elim (Bool-cases (p x)) [ inl px ↦ rw (e, px) (sym first) | inr px ↦ rw (e, px) refl ]
      | inr e ↦
          let rest = keep-insert_by x ys h.1 in
          elim (Bool-cases (p x)) [
            | inl px ↦ elim (Bool-cases (p y)) [
              | inl py ↦ rw (e, py, rest, px, e) refl
              | inr py ↦ rw (e, py, rest, px) refl
            ]
            | inr px ↦ elim (Bool-cases (p y)) [
              | inl py ↦ rw (e, py, rest, px) refl
              | inr py ↦ rw (e, py, rest, px) refl
            ]
          ]
    ]

    -- Sorting does not mind which items are dropped before it.
    pub keep-sorted_by : (xs : List A) → keep p (sorted_by le xs) ≡ sorted_by le (keep p xs)
    unfolding sorted_by
    keep-sorted_by [] = refl
    keep-sorted_by (x ∷ xs) = elim (Bool-cases (p x)) [
      | inl e ↦
          keep-insert_by x (sorted_by le xs) (sorted_by-IsSortedBy le t xs)
          ∙ rw (e, keep-sorted_by xs) refl
      | inr e ↦
          keep-insert_by x (sorted_by le xs) (sorted_by-IsSortedBy le t xs)
          ∙ rw e (keep-sorted_by xs)
    ]

  -- Where the kept items are the first ones, the cut may come before or after.
  module _ (p : A → Bool) (first : (a b : A) → le a b ≡ true → p a ≡ false → p b ≡ false) where
    All-dropped :
        (x : A) (ys : List A)
        → p x ≡ false
        → All (λ y. le x y ≡ true) ys
        → All (λ y. p y ≡ false) ys
    All-dropped x [] e h = tt
    All-dropped x (y ∷ ys) e h = (first x y h.0 e, All-dropped x ys e h.1)

    pub keep-take :
        (n : ℕ) (xs : List A) → IsSortedBy le xs → keep p (take n xs) ≡ take n (keep p xs)
    keep-take zero xs h = refl
    keep-take (suc n) [] h = refl
    keep-take (suc n) (x ∷ xs) h = elim (Bool-cases (p x)) [
      | inl e ↦ rw e (ap (x ∷◌) (keep-take n xs h.1))
      | inr e ↦
          let none = All-dropped x xs e h.0 in
          rw (e, keep_none p xs none)
            (keep_none p (take n xs) (All-take (λ y. p y ≡ false) n xs none))
    ]
