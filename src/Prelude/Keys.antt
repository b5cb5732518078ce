-- ===== src/Prelude/Keys.antt =====
-- Dictionaries whose entries are stored under a key of theirs, each key once: what `setdefault`,
-- `del` and the loading of a list do with them.
use metron.Prelude.Tests.{if◌then◌else◌, Bool-cases, Option-cases}
use metron.Prelude.Dict.{Dict, lookup, insert, Entries, Entries-insert}
use Prim.Native.String.{String}
use mathlib.Core.Path.{◌≡◌, refl, ap, ◌∙◌}
use mathlib.Core.Logic.{inl, inr}
use mathlib.Core.Option.{none, some}
use mathlib.Core.Bool.{Bool, false, ◌||◌}
use mathlib.Core.List.{List, [], ◌∷◌, ◌++◌}
use native.Mathlib.Omega.{arith}
use text.Mathlib.Text.{◌==◌}
use text.Mathlib.TextEquality.{eq_iff}

left_false : (a b : Bool) → (a || b) ≡ false → a ≡ false
left_false a b h = ground arith

right_false : (a b : Bool) → (a || b) ≡ false → b ≡ false
right_false a b h = ground arith

module _ {ℓ} {V : Type ℓ} where
  -- `d.setdefault(k, v)`
  abbrev pub setdefault : String → V → Dict V → Dict V
  setdefault k v d = elim (lookup k d) [ none ↦ insert k v d | some _ ↦ d ]

  -- `del d[k]`, for a key that is there
  abbrev pub remove : String → Dict V → Dict V
  remove k [] = []
  remove k ((j, v) ∷ d) = if j == k then d else (j, v) ∷ remove k d

  abbrev pub values : Dict V → List V
  values [] = []
  values ((k, v) ∷ d) = v ∷ values d

  -- `k in d`
  abbrev pub holds : String → Dict V → Bool
  holds k [] = false
  holds k ((j, v) ∷ d) = j == k || holds k d

  -- Each key stands once.
  abbrev pub AreDistinct : Dict V → Type 0
  AreDistinct [] = Unit
  AreDistinct ((k, v) ∷ d) = (holds k d ≡ false) × AreDistinct d

  pub holds-lookup : (k : String) (d : Dict V) → lookup k d ≡ none → holds k d ≡ false
  holds-lookup k [] h = refl
  holds-lookup k ((j, v) ∷ d) h = elim (Bool-cases (j == k)) [
    | inl e ↦ absurd (cc (rw e at h))
    | inr e ↦ rw e (holds-lookup k d (rw e at h))
  ]

  pub holds-append : (k : String) (d e : Dict V) → holds k (d ++ e) ≡ (holds k d || holds k e)
  holds-append k [] e = refl
  holds-append k ((j, v) ∷ d) e = rw (holds-append k d e) (ground arith)

  pub insert_fresh :
      (k : String) (v : V) (d : Dict V) → holds k d ≡ false → insert k v d ≡ d ++ (k, v) ∷ []
  insert_fresh k v [] h = refl
  insert_fresh k v ((j, w) ∷ d) h =
      rw (left_false (j == k) (holds k d) h)
        (ap (λ (t : Dict V). (j, w) ∷ t) (insert_fresh k v d (right_false (j == k) (holds k d) h)))

  pub holds-insert :
      (k j : String) (v : V) (d : Dict V) → holds j (insert k v d) ≡ (k == j || holds j d)
  holds-insert k j v [] = refl
  holds-insert k j v ((i, w) ∷ d) = elim (Bool-cases (i == k)) [
    | inl e ↦ rw e (ground (arith, eq_iff i k, eq_iff i j, eq_iff k j))
    | inr e ↦ rw (e, holds-insert k j v d) (ground arith)
  ]

  pub insert-AreDistinct :
      (k : String) (v : V) (d : Dict V) → AreDistinct d → AreDistinct (insert k v d)
  insert-AreDistinct k v [] h = (refl, tt)
  insert-AreDistinct k v ((j, w) ∷ d) h = elim (Bool-cases (j == k)) [
    | inl e ↦ rw e h
    | inr e ↦ rw e (
      holds-insert k j v d ∙ ground (arith, h.0, eq_iff j k, eq_iff k j),
      insert-AreDistinct k v d h.1,
    )
  ]

  pub setdefault-AreDistinct :
      (k : String) (v : V) (d : Dict V) → AreDistinct d → AreDistinct (setdefault k v d)
  setdefault-AreDistinct k v d h = elim (Option-cases (lookup k d)) [
    | inl e ↦ rw (setdefault, e) (insert-AreDistinct k v d h)
    | inr (w, e) ↦ rw (setdefault, e) h
  ]

  holds-remove : (k j : String) (d : Dict V) → holds j d ≡ false → holds j (remove k d) ≡ false
  holds-remove k j [] h = refl
  holds-remove k j ((i, w) ∷ d) h = elim (Bool-cases (i == k)) [
    | inl e ↦ rw e (right_false (i == j) (holds j d) h)
    | inr e ↦ rw (e, holds-remove k j d (right_false (i == j) (holds j d) h)) (ground arith)
  ]

  pub remove-AreDistinct : (k : String) (d : Dict V) → AreDistinct d → AreDistinct (remove k d)
  remove-AreDistinct k [] h = tt
  remove-AreDistinct k ((j, w) ∷ d) h = elim (Bool-cases (j == k)) [
    | inl e ↦ rw e h.1
    | inr e ↦ rw e (holds-remove k j d h.0, remove-AreDistinct k d h.1)
  ]

module _ {ℓ κ} {V : Type ℓ} (P : String → V → Type κ) where
  pub setdefault-Entries :
      (k : String) (v : V) (d : Dict V) → Entries P d → P k v → Entries P (setdefault k v d)
  setdefault-Entries k v d h hv = elim (Option-cases (lookup k d)) [
    | inl e ↦ rw (setdefault, e) (Entries-insert P k v d h hv)
    | inr (w, e) ↦ rw (setdefault, e) h
  ]

  pub remove-Entries : (k : String) (d : Dict V) → Entries P d → Entries P (remove k d)
  remove-Entries k [] h = tt
  remove-Entries k ((j, w) ∷ d) h = elim (Bool-cases (j == k)) [
    | inl e ↦ rw e h.1
    | inr e ↦ rw e (h.0, remove-Entries k d h.1)
  ]

-- Every value stands under its own key, and each key once.
pub record IsKeyed {ℓ} {V : Type ℓ} (key : V → String) (d : Dict V) : Type 0 where
  pub own_keys : Entries (λ k v. k ≡ key v) d
  pub distinct : AreDistinct d

module _ {ℓ} {V : Type ℓ} (key : V → String) where
  pub insert-IsKeyed : (v : V) (d : Dict V) → IsKeyed key d → IsKeyed key (insert (key v) v d)
  insert-IsKeyed v d h = record {
    own_keys = Entries-insert (λ k w. k ≡ key w) (key v) v d h.own_keys refl;
    distinct = insert-AreDistinct (key v) v d h.distinct;
  }

  pub setdefault-IsKeyed :
      (v : V) (d : Dict V) → IsKeyed key d → IsKeyed key (setdefault (key v) v d)
  setdefault-IsKeyed v d h = record {
    own_keys = setdefault-Entries (λ k w. k ≡ key w) (key v) v d h.own_keys refl;
    distinct = setdefault-AreDistinct (key v) v d h.distinct;
  }

  pub remove-IsKeyed : (k : String) (d : Dict V) → IsKeyed key d → IsKeyed key (remove k d)
  remove-IsKeyed k d h = record {
    own_keys = remove-Entries (λ i w. i ≡ key w) k d h.own_keys;
    distinct = remove-AreDistinct k d h.distinct;
  }
