-- ===== src/Prelude/Sort.antt =====
-- Python's `sorted(xs, key=...)` on a number: stable, in rising order of the key.
use metron.Prelude.Tests.{leb, if◌then◌else◌, leb→le, leb-false→lt, Bool-cases}
use metron.Prelude.Int.{ℤ, ◌+ℤ◌, sum, int_laws}
use mathlib.Core.Logic.{inl, inr}
use metron.Prelude.Lists.{All, All-append}
use Prim.Native.Nat.{ℕ, ◌≤◌}
use mathlib.Core.Path.{◌≡◌, refl}
use mathlib.Core.List.{List, [], ◌∷◌, ◌++◌, map}
use native.Mathlib.Omega.{arith}

module _ {ℓ} {A : Type ℓ} (key : A → ℕ) where
  unfoldable pub insert_sorted : A → List A → List A
  insert_sorted x [] = x ∷ []
  insert_sorted x (y ∷ ys) = if leb (key x) (key y) then x ∷ y ∷ ys else y ∷ insert_sorted x ys

  unfoldable pub sorted : List A → List A
  unfolding insert_sorted
  sorted [] = []
  sorted (x ∷ xs) = insert_sorted x (sorted xs)

  abbrev pub IsSorted : List A → Type 0
  IsSorted [] = Unit
  IsSorted (x ∷ xs) = All (λ y. key x ≤ key y) xs × IsSorted xs

  All-insert_sorted {κ} :
      (P : A → Type κ) (x : A) (xs : List A) → P x → All P xs → All P (insert_sorted x xs)
  unfolding insert_sorted
  All-insert_sorted P x [] h k = (h, tt)
  All-insert_sorted P x (y ∷ ys) h k = elim (Bool-cases (leb (key x) (key y))) [
    | inl e ↦ rw e (h, k)
    | inr e ↦ rw e (k.0, All-insert_sorted P x ys h k.1)
  ]

  All-weaken :
      (a b : A) (xs : List A)
      → key a ≤ key b
      → All (λ y. key b ≤ key y) xs
      → All (λ y. key a ≤ key y) xs
  All-weaken a b [] h k = tt
  All-weaken a b (x ∷ xs) h k = (omega arith, All-weaken a b xs h k.1)

  insert_sorted-IsSorted : (x : A) (xs : List A) → IsSorted xs → IsSorted (insert_sorted x xs)
  unfolding insert_sorted
  insert_sorted-IsSorted x [] h = (tt, tt)
  insert_sorted-IsSorted x (y ∷ ys) h = elim (Bool-cases (leb (key x) (key y))) [
    | inl e ↦
        let first : key x ≤ key y = leb→le _ _ e in rw e ((first, All-weaken x y ys first h.0), h)
    | inr e ↦
        let later : key y ≤ key x = omega (arith, leb-false→lt _ _ e) in
        rw e
          (All-insert_sorted (λ z. key y ≤ key z) x ys later h.0, insert_sorted-IsSorted x ys h.1)
  ]

  pub sorted-IsSorted : (xs : List A) → IsSorted (sorted xs)
  unfolding sorted
  sorted-IsSorted [] = tt
  sorted-IsSorted (x ∷ xs) = insert_sorted-IsSorted x (sorted xs) (sorted-IsSorted xs)

  -- A sorted list keeps what holds of all items.
  pub All-sorted {κ} : (P : A → Type κ) (xs : List A) → All P xs → All P (sorted xs)
  unfolding sorted
  All-sorted P [] h = tt
  All-sorted P (x ∷ xs) h = All-insert_sorted P x (sorted xs) h.0 (All-sorted P xs h.1)

  -- Any sum over the items is that over the sorted items.
  sum-insert_sorted :
      (g : A → ℤ) (x : A) (xs : List A) → sum (map g (insert_sorted x xs)) ≡ g x +ℤ sum (map g xs)
  unfolding insert_sorted
  sum-insert_sorted g x [] = refl
  sum-insert_sorted g x (y ∷ ys) = elim (Bool-cases (leb (key x) (key y))) [
    | inl e ↦ rw e
    | inr e ↦ rw (e, sum-insert_sorted g x ys) (omega int_laws)
  ]

  pub sum-sorted : (g : A → ℤ) (xs : List A) → sum (map g (sorted xs)) ≡ sum (map g xs)
  unfolding sorted
  sum-sorted g [] = refl
  sum-sorted g (x ∷ xs) = rw (sum-insert_sorted g x (sorted xs), sum-sorted g xs)

  -- An item that comes after all others goes to the end.
  pub append-IsSorted :
      (xs : List A) (x : A) → IsSorted xs → All (λ y. key y ≤ key x) xs → IsSorted (xs ++ x ∷ [])
  append-IsSorted [] x h k = (tt, tt)
  append-IsSorted (y ∷ ys) x h k =
      (All-append (λ z. key y ≤ key z) ys (x ∷ []) h.0 (k.0, tt), append-IsSorted ys x h.1 k.1)

module _ {ℓ} {A : Type ℓ} (key : A → ℕ) (g : A → A) (same : (x : A) → key (g x) ≡ key x) where
  insert_sorted-map :
      (x : A) (xs : List A) → insert_sorted key (g x) (map g xs) ≡ map g (insert_sorted key x xs)
  unfolding insert_sorted
  insert_sorted-map x [] = refl
  insert_sorted-map x (y ∷ ys) = elim (Bool-cases (leb (key x) (key y))) [
    | inl e ↦ rw (same x, same y, e)
    | inr e ↦ rw (same x, same y, e, insert_sorted-map x ys)
  ]

  -- A change of the items that leaves their keys alone may come before or after the sort.
  pub sorted-map : (xs : List A) → sorted key (map g xs) ≡ map g (sorted key xs)
  unfolding sorted
  sorted-map [] = refl
  sorted-map (x ∷ xs) = rw (sorted-map xs) (insert_sorted-map x (sorted key xs))
