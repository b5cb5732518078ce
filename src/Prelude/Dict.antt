-- ===== src/Prelude/Dict.antt =====
-- A Python `dict` with text keys, in insertion order.
use metron.Prelude.Tests.{if◌then◌else◌, Bool-cases, Option-cases}
use metron.Prelude.Lists.{All}
use Prim.Native.String.{String}
use mathlib.Core.Path.{◌≡◌, refl, sym, subst}
use mathlib.Core.Logic.{inl, inr, ◌≢◌}
use text.Mathlib.TextPositions.{eq_refl}
use mathlib.Core.Option.{Option, none, some}
use mathlib.Core.Bool.{false}
use mathlib.Core.List.{List, [], ◌∷◌}
use native.Mathlib.Omega.{arith}
use text.Mathlib.Text.{◌==◌}
use text.Mathlib.TextEquality.{eq_iff}

abbrev pub Dict {ℓ} : Type ℓ → Type ℓ
Dict V = List (String × V)

module _ {ℓ} {V : Type ℓ} where
  -- `d.get(k)`
  abbrev pub lookup : String → Dict V → Option V
  lookup k [] = none
  lookup k ((j, v) ∷ d) = if j == k then some v else lookup k d

  -- `d.get(k, default)`
  abbrev pub get_or : String → V → Dict V → V
  get_or k x d = elim (lookup k d) [ none ↦ x | some v ↦ v ]

  -- `d[k] = v`
  abbrev pub insert : String → V → Dict V → Dict V
  insert k v [] = (k, v) ∷ []
  insert k v ((j, w) ∷ d) = if j == k then (j, v) ∷ d else (j, w) ∷ insert k v d

  pub lookup-insert :
      (k j : String) (v : V) (d : Dict V)
      → lookup j (insert k v d) ≡ (if k == j then some v else lookup j d)
  lookup-insert k j v [] = refl
  lookup-insert k j v ((i, w) ∷ d) =
      ground (arith, eq_iff k j, eq_iff i k, eq_iff i j, lookup-insert k j v d)

  -- A property of every entry, and what `lookup` and `insert` do with it.
  abbrev pub Entries {κ} : (String → V → Type κ) → Dict V → Type κ
  Entries P d = All (λ (e : String × V). P e.0 e.1) d

module _ {ℓ κ} {V : Type ℓ} (P : String → V → Type κ) where
  pub Entries-lookup : (k : String) (v : V) (d : Dict V) → Entries P d → lookup k d ≡ some v → P k v
  Entries-lookup k v [] h e = cc
  Entries-lookup k v ((j, w) ∷ d) h e = elim (Bool-cases (j == k)) [
    | inl same ↦
        let q : w ≡ v = ground arith in
        subst (P k) q (subst (λ (i : String). P i w) ((eq_iff j k).0 same) h.0)
    | inr other ↦ Entries-lookup k v d h.1 (rw other at e)
  ]

  pub Entries-get_or : (k : String) (x : V) (d : Dict V) → Entries P d → P k x → P k (get_or k x d)
  Entries-get_or k x d h hx = elim (Option-cases (lookup k d)) [
    | inl e ↦ rw (e, get_or) hx
    | inr (v, e) ↦ rw (e, get_or) (Entries-lookup k v d h e)
  ]

  pub Entries-insert :
      (k : String) (v : V) (d : Dict V) → Entries P d → P k v → Entries P (insert k v d)
  Entries-insert k v [] h hv = (hv, tt)
  Entries-insert k v ((j, w) ∷ d) h hv = elim (Bool-cases (j == k)) [
    | inl same ↦ rw same (subst (λ (i : String). P i v) (sym ((eq_iff j k).0 same)) hv, h.1)
    | inr other ↦ rw other (h.0, Entries-insert k v d h.1 hv)
  ]

module _ {ℓ} {V : Type ℓ} where
  pub get_or-insert :
      (k j : String) (x v : V) (d : Dict V)
      → get_or j x (insert k v d) ≡ (if k == j then v else get_or j x d)
  get_or-insert k j x v d = elim (Bool-cases (k == j)) [
    | inl e ↦ rw (get_or, lookup-insert k j v d, e)
    | inr e ↦ rw (get_or, lookup-insert k j v d, e)
  ]

  pub get_or-insert_self : (k : String) (x v : V) (d : Dict V) → get_or k x (insert k v d) ≡ v
  get_or-insert_self k x v d = rw (get_or-insert k k x v d, eq_refl k)

  pub get_or-insert_ne :
      (k j : String) (x v : V) (d : Dict V) → j ≢ k → get_or j x (insert k v d) ≡ get_or j x d
  get_or-insert_ne k j x v d h = elim (Bool-cases (k == j)) [
    | inl e ↦ absurd (h (sym ((eq_iff k j).0 e)))
    | inr e ↦ rw (get_or-insert k j x v d, e)
  ]

  pub get_or_missing : (k : String) (x : V) (d : Dict V) → lookup k d ≡ none → get_or k x d ≡ x
  get_or_missing k x d e = rw (get_or, e)

pub ne_of_test : (s t : String) → (s == t) ≡ false → s ≢ t
ne_of_test s t h e = ground (arith, eq_iff s t)
