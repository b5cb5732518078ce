-- ===== src/Prelude/Order.antt =====
-- Sorting by a test `le`, as Python's `sorted` does with a tuple for key: stable.
pub mod Cut
use metron.Prelude.Tests.{if◌then◌else◌, Bool-cases}
use metron.Prelude.Lists.{All}
use mathlib.Core.Path.{◌≡◌, refl, ap, ◌∙◌}
use mathlib.Core.Logic.{inl, inr}
use mathlib.Core.Bool.{Bool, true, false, ◌&&◌}
use mathlib.Core.List.{List, [], ◌∷◌}
use native.Mathlib.Omega.{arith}

module _ {ℓ} {A : Type ℓ} where
  -- One list is the other in another order.
  pub data Reordered : List A → List A → Type ℓ where
    nil : Reordered [] []
    cons : {xs ys : List A} (x : A) → Reordered xs ys → Reordered (x ∷ xs) (x ∷ ys)
    swap : (x y : A) (xs : List A) → Reordered (x ∷ y ∷ xs) (y ∷ x ∷ xs)
    trans : {xs ys zs : List A} → Reordered xs ys → Reordered ys zs → Reordered xs zs

  pub Reordered-self : (xs : List A) → Reordered xs xs
  Reordered-self [] = nil
  Reordered-self (x ∷ xs) = cons x (Reordered-self xs)

  pub All-Reordered {κ} : (P : A → Type κ) {xs ys : List A} → Reordered xs ys → All P xs → All P ys
  All-Reordered P nil h = tt
  All-Reordered P (cons x r) h = (h.0, All-Reordered P r h.1)
  All-Reordered P (swap x y xs) h = (h.1.0, (h.0, h.1.1))
  All-Reordered P (trans r s) h = All-Reordered P s (All-Reordered P r h)

pub record IsTotal {ℓ} {A : Type ℓ} (le : A → A → Bool) : Type ℓ where
  pub total : (a b : A) → le a b ≡ false → le b a ≡ true
  pub trans : (a b c : A) → le a b ≡ true → le b c ≡ true → le a c ≡ true

module _ {ℓ} {A : Type ℓ} (le : A → A → Bool) where
  unfoldable pub insert_by : A → List A → List A
  insert_by x [] = x ∷ []
  insert_by x (y ∷ ys) = if le x y then x ∷ y ∷ ys else y ∷ insert_by x ys

  unfoldable pub sorted_by : List A → List A
  unfolding insert_by
  sorted_by [] = []
  sorted_by (x ∷ xs) = insert_by x (sorted_by xs)

  abbrev pub IsSortedBy : List A → Type 0
  IsSortedBy [] = Unit
  IsSortedBy (x ∷ xs) = All (λ y. le x y ≡ true) xs × IsSortedBy xs

  abbrev pub Unties : A → A → Type 0
  Unties x y = (le x y && le y x) ≡ false

  abbrev pub AreUntied : List A → Type 0
  AreUntied [] = Unit
  AreUntied (x ∷ xs) = All (Unties x) xs × AreUntied xs

  insert_by-Reordered : (x : A) (xs : List A) → Reordered (x ∷ xs) (insert_by x xs)
  unfolding insert_by
  insert_by-Reordered x [] = cons x nil
  insert_by-Reordered x (y ∷ ys) = elim (Bool-cases (le x y)) [
    | inl e ↦ rw e (Reordered-self (x ∷ y ∷ ys))
    | inr e ↦ rw e (trans (swap x y ys) (cons y (insert_by-Reordered x ys)))
  ]

  pub sorted_by-Reordered : (xs : List A) → Reordered xs (sorted_by xs)
  unfolding sorted_by
  sorted_by-Reordered [] = nil
  sorted_by-Reordered (x ∷ xs) =
      trans (cons x (sorted_by-Reordered xs)) (insert_by-Reordered x (sorted_by xs))

  module _ (t : IsTotal le) where
    All-le :
        (x y : A) (ys : List A)
        → le x y ≡ true
        → All (λ z. le y z ≡ true) ys
        → All (λ z. le x z ≡ true) ys
    All-le x y [] h k = tt
    All-le x y (z ∷ zs) h k = (t.trans x y z h k.0, All-le x y zs h k.1)

    insert_by-IsSortedBy : (x : A) (xs : List A) → IsSortedBy xs → IsSortedBy (insert_by x xs)
    unfolding insert_by
    insert_by-IsSortedBy x [] h = (tt, tt)
    insert_by-IsSortedBy x (y ∷ ys) h = elim (Bool-cases (le x y)) [
      | inl e ↦ rw e ((e, All-le x y ys e h.0), h)
      | inr e ↦ rw e (
        All-Reordered (λ z. le y z ≡ true) (insert_by-Reordered x ys) (t.total x y e, h.0),
        insert_by-IsSortedBy x ys h.1,
      )
    ]

    pub sorted_by-IsSortedBy : (xs : List A) → IsSortedBy (sorted_by xs)
    unfolding sorted_by
    sorted_by-IsSortedBy [] = tt
    sorted_by-IsSortedBy (x ∷ xs) = insert_by-IsSortedBy x (sorted_by xs) (sorted_by-IsSortedBy xs)

    insert_by_comm :
        (x y : A) (xs : List A)
        → Unties x y
        → insert_by x (insert_by y xs) ≡ insert_by y (insert_by x xs)
    unfolding insert_by
    insert_by_comm x y [] u = elim (Bool-cases (le x y)) [
      | inl e ↦ let f : le y x ≡ false = ground arith in rw (e, f) refl
      | inr e ↦ rw (e, t.total x y e) refl
    ]
    insert_by_comm x y (z ∷ zs) u = elim (Bool-cases (le y z)) [
      | inl yz ↦ elim (Bool-cases (le x z)) [
        | inl xz ↦ elim (Bool-cases (le x y)) [
          | inl xy ↦ let yx : le y x ≡ false = ground arith in rw (yz, xz, xy, yx, yz) refl
          | inr xy ↦ rw (yz, xz, xy, t.total x y xy) refl
        ]
        | inr xz ↦
            let zx = t.total x z xz in
            let yx = t.trans y z x yz zx in
            let xy : le x y ≡ false = ground arith in rw (yz, xz, xy, yz) refl
      ]
      | inr yz ↦ elim (Bool-cases (le x z)) [
        | inl xz ↦
            let zy = t.total y z yz in
            let xy = t.trans x z y xz zy in
            let yx : le y x ≡ false = ground arith in rw (yz, xz, yx, yz) refl
        | inr xz ↦ rw (yz, xz, yz) (ap (z ∷◌) (insert_by_comm x y zs u))
      ]
    ]

    AreUntied-Reordered : {xs ys : List A} → Reordered xs ys → AreUntied xs → AreUntied ys
    AreUntied-Reordered nil h = tt
    AreUntied-Reordered (cons x r) h = (All-Reordered (Unties x) r h.0, AreUntied-Reordered r h.1)
    AreUntied-Reordered (swap x y xs) h =
        let u = h.0.0 in let v : Unties y x = ground arith in ((v, h.1.0), (h.0.1, h.1.1))
    AreUntied-Reordered (trans r s) h = AreUntied-Reordered s (AreUntied-Reordered r h)

    -- Where no two items tie, their order does not show.
    pub sorted_by_unordered :
        {xs ys : List A} → Reordered xs ys → AreUntied xs → sorted_by xs ≡ sorted_by ys
    unfolding sorted_by
    sorted_by_unordered nil h = refl
    sorted_by_unordered (cons x r) h = ap (insert_by x) (sorted_by_unordered r h.1)
    sorted_by_unordered (swap x y xs) h = insert_by_comm x y (sorted_by xs) h.0.0
    sorted_by_unordered (trans r s) h =
        sorted_by_unordered r h ∙ sorted_by_unordered s (AreUntied-Reordered r h)
