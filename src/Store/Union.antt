-- ===== src/Store/Union.antt =====
-- The activities after a merge (portfolio_analytics/ingestion/store.py): a union in which the first
-- copy wins, but for the upgrade of a reinvestment that was stored as a buy.
use metron.Prelude.{
  ℕ, ◌≡◌, ap, ◌∙◌, Option, none, some, String, List, [], ◌∷◌, All, true, false, Bool-cases,
  Option-cases, inl, inr, arith,
}
use metron.Prelude.Dict.{Dict, lookup, lookup-insert}
use metron.Prelude.Keys.{setdefault, remove, holds}
use metron.Store.Records.{
  Printed, CanonicalActivity, CanonicalStore, activity_key, legacy_activity_key,
}
use metron.Store.Merge.{Snapshot, upgraded, add_activity, add_activities, merge}
use text.Mathlib.Text.{◌==◌}
use text.Mathlib.TextEquality.{eq_iff}

-- `legacy` is not the key `k`.
abbrev Differs : String → Option String → Type 0
Differs k none = Unit
Differs k (some j) = (j == k) ≡ false

module _ ⦃p : Printed⦄ where
  -- None of `as'` is a reinvestment whose buy would be stored under `k`.
  abbrev pub NoneUpgrades : String → List CanonicalActivity → Type 0
  NoneUpgrades k as' = All (λ a. Differs k (legacy_activity_key a)) as'

  missing_stored :
      (k j : String) (w : CanonicalActivity) (d : Dict CanonicalActivity)
      → (j == k) ≡ true
      → lookup j d ≡ none
      → lookup k d ≡ some w
      → ⊥
  missing_stored k j w d q e h =
      let same : lookup j d ≡ lookup k d = ap (λ (t : String). lookup t d) ((eq_iff j k).0 q) in cc

  lookup-setdefault :
      (k j : String) (v w : CanonicalActivity) (d : Dict CanonicalActivity)
      → lookup k d ≡ some w
      → lookup k (setdefault j v d) ≡ some w
  lookup-setdefault k j v w d h = elim (Option-cases (lookup j d)) [
    | inr (u, e) ↦ rw (setdefault, e) h
    | inl e ↦
        rw (setdefault, e)
          (lookup-insert j k v d ∙ elim (Bool-cases (j == k)) [
            | inl q ↦ absurd (missing_stored k j w d q e h)
            | inr q ↦ rw q h
          ])
  ]

  lookup-remove :
      (k j : String) (w : CanonicalActivity) (d : Dict CanonicalActivity)
      → (j == k) ≡ false
      → lookup k d ≡ some w
      → lookup k (remove j d) ≡ some w
  lookup-remove k j w [] h e = e
  lookup-remove k j w ((i, u) ∷ d) h e = elim (Bool-cases (i == j)) [
    | inl q ↦
        let other : (i == k) ≡ false = ground (arith, eq_iff i j, eq_iff i k, eq_iff j k) in
        rw q (rw other at e)
    | inr q ↦ elim (Bool-cases (i == k)) [
      | inl r ↦ rw (q, r) (rw r at e)
      | inr r ↦ rw (q, r) (lookup-remove k j w d h (rw r at e))
    ]
  ]

  lookup-upgraded :
      (k key : String) (legacy : Option String) (w : CanonicalActivity) (d : Dict CanonicalActivity)
      → Differs k legacy
      → lookup k d ≡ some w
      → lookup k (upgraded key legacy d) ≡ some w
  lookup-upgraded k key none w d h e = e
  lookup-upgraded k key (some old) w d h e = elim (Bool-cases (holds key d)) [
    | inl q ↦ rw q e
    | inr q ↦ elim (Bool-cases (holds old d)) [
      | inl r ↦ rw (q, r) (lookup-remove k old w d h e)
      | inr r ↦ rw (q, r) e
    ]
  ]

  lookup-add_activities :
      (k : String) (w : CanonicalActivity) (d : Dict CanonicalActivity)
      (as' : List CanonicalActivity)
      → NoneUpgrades k as'
      → lookup k d ≡ some w
      → lookup k (add_activities d as') ≡ some w
  unfolding add_activity
  lookup-add_activities k w d [] h e = e
  lookup-add_activities k w d (a ∷ as') h e = lookup-add_activities k w (add_activity d a) as' h.1 (
      lookup-setdefault k (activity_key a) a w _
        (lookup-upgraded k (activity_key a) (legacy_activity_key a) w d h.0 e))

  -- An activity that is stored stays as it was stored, whatever is merged, unless the merge brings
  -- the reinvestment that it is the old form of.
  pub lookup-merge_activities :
      (store : CanonicalStore) (s : Snapshot) (now : ℕ) (k : String) (w : CanonicalActivity)
      → lookup k store.activities ≡ some w
      → NoneUpgrades k s.activities
      → lookup k (merge store s now).activities ≡ some w
  unfolding merge
  lookup-merge_activities store s now k w e h =
      lookup-add_activities k w store.activities s.activities h e
