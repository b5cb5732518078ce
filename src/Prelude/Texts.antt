-- ===== src/Prelude/Texts.antt =====
-- Sets of text: Python's `sorted(set(a) | set(b))` on the keys of two dictionaries.
use metron.Prelude.Tests.{if◌then◌else◌, Bool-cases}
use metron.Prelude.Dict.{Dict, lookup}
use Prim.Native.Nat.{Ordering}
use Prim.Native.String.{String, compare}
use mathlib.Core.Path.{◌≡◌, refl, ◌∙◌}
use mathlib.Core.Logic.{inl, inr}
use mathlib.Core.Bool.{Bool, true, false, ◌||◌}
use mathlib.Core.Option.{none, some}
use mathlib.Core.List.{List, [], ◌∷◌, ◌++◌}
use native.Mathlib.Omega.{arith}
use text.Mathlib.Text.{◌==◌}
use text.Mathlib.TextEquality.{eq_iff}

abbrev pub contains : String → List String → Bool
contains s [] = false
contains s (t ∷ ts) = t == s || contains s ts

-- `s <= t` by code points
abbrev text_leb : String → String → Bool
text_leb s t = elim (compare s t) [ Ordering.gt ↦ false | _ ↦ true ]

abbrev insert_text : String → List String → List String
insert_text s [] = s ∷ []
insert_text s (t ∷ ts) = if text_leb s t then s ∷ t ∷ ts else t ∷ insert_text s ts

unfoldable pub sort_texts : List String → List String
sort_texts [] = []
sort_texts (s ∷ ss) = insert_text s (sort_texts ss)

-- The first occurrence of each is kept.
unfoldable pub unique : List String → List String
unique [] = []
unique (s ∷ ss) = let rest = unique ss in if contains s ss then rest else s ∷ rest

or_left_comm : (a b c : Bool) → (a || (b || c)) ≡ (b || (a || c))
or_left_comm a b c = ground arith

contains-insert_text :
    (s t : String) (ts : List String) → contains s (insert_text t ts) ≡ (t == s || contains s ts)
contains-insert_text s t [] = refl
contains-insert_text s t (u ∷ ts) = elim (Bool-cases (text_leb t u)) [
  | inl e ↦ rw e
  | inr e ↦ rw (e, contains-insert_text s t ts) (or_left_comm (u == s) (t == s) (contains s ts))
]

contains-sort_texts : (s : String) (ts : List String) → contains s (sort_texts ts) ≡ contains s ts
unfolding sort_texts
contains-sort_texts s [] = refl
contains-sort_texts s (t ∷ ts) =
    rw (contains-insert_text s t (sort_texts ts), contains-sort_texts s ts)

pub contains-unique : (s : String) (ts : List String) → contains s (unique ts) ≡ contains s ts
unfolding unique
contains-unique s [] = refl
contains-unique s (t ∷ ts) = elim (Bool-cases (contains t ts)) [
  | inl e ↦ rw (e, contains-unique s ts) (ground (arith, eq_iff t s))
  | inr e ↦ rw (e, contains-unique s ts)
]

contains-append :
    (s : String) (ts us : List String) → contains s (ts ++ us) ≡ (contains s ts || contains s us)
contains-append s [] us = refl
contains-append s (t ∷ ts) us = rw (contains-append s ts us) (ground arith)

module _ {ℓ} {V : Type ℓ} where
  abbrev pub keys : Dict V → List String
  keys [] = []
  keys ((k, v) ∷ d) = k ∷ keys d

  abbrev pub has_key : String → Dict V → Bool
  has_key k d = elim (lookup k d) [ none ↦ false | some v ↦ true ]

  contains-keys : (s : String) (d : Dict V) → contains s (keys d) ≡ has_key s d
  contains-keys s [] = refl
  contains-keys s ((k, v) ∷ d) = elim (Bool-cases (k == s)) [
    | inl e ↦ rw (has_key, e)
    | inr e ↦ rw (has_key, e) (contains-keys s d)
  ]

  -- `sorted(set(a) | set(b))`
  unfoldable pub union_keys : Dict V → Dict V → List String
  unfolding sort_texts unique
  union_keys a b = sort_texts (unique (keys a ++ keys b))

  pub contains-union_keys :
      (s : String) (a b : Dict V) → contains s (union_keys a b) ≡ (has_key s a || has_key s b)
  unfolding union_keys
  contains-union_keys s a b =
      contains-sort_texts s _
      ∙ contains-unique s _
      ∙ contains-append s (keys a) (keys b)
      ∙ rw (contains-keys s a, contains-keys s b) refl
