-- ===== src/Entitlements/Nesting.antt =====
-- The tiers of api/entitlements.py, cheapest first, each offer what the one before offers.
use metron.Prelude.{
  ◌≡◌, refl, String, none, List, [], ◌∷◌, map, Bool, true, false, not, ◌&&◌, ◌||◌, if◌then◌else◌,
}
use metron.Prelude.Texts.{contains}
use metron.Prelude.Result.{Result, ok, raised}
use metron.Entitlements.Catalog.{Feature, features, beta_features, personal_features}
use metron.Entitlements.Resolve.{
  FeatureState, Resolved, Error, state_of, resolve, provisioned_sources, find_state,
}
use text.Mathlib.Text.{◌==◌}

abbrev pub is_available : Result Error FeatureState → Bool
is_available (ok s) = s.available
is_available (raised e) = false

abbrev pub offers : Result Error Resolved → String → Bool
offers (ok r) key = is_available (find_state key r.features)
offers (raised e) key = false

-- Each of `fs` that `a` has, `b` has.
abbrev nested : List String → List String → List Feature → Bool
nested a b [] = true
nested a b (f ∷ fs) = (not (contains f.key a) || contains f.key b) && nested a b fs

still_true :
    (a b c d : Bool) → (not a || b) ≡ true → ((a && c) && d) ≡ true → ((b && c) && d) ≡ true
still_true false b c d h k = absurd cc
still_true true false c d h k = absurd cc
still_true true true c d h k = k

left_true : (a b : Bool) → (a && b) ≡ true → a ≡ true
left_true true b h = refl
left_true false b h = absurd cc

right_true : (a b : Bool) → (a && b) ≡ true → b ≡ true
right_true true b h = h
right_true false b h = absurd cc

if_available :
    (t : Bool) (x x' y y' : Result Error FeatureState)
    → (is_available x ≡ true → is_available x' ≡ true)
    → (is_available y ≡ true → is_available y' ≡ true)
    → is_available (if t then x else y) ≡ true
    → is_available (if t then x' else y') ≡ true
if_available true x x' y y' h k = h
if_available false x x' y y' h k = k

find_state-nested :
    (retired_v1 : Bool) (a b prov : List String) (key : String) (fs : List Feature)
    → nested a b fs ≡ true
    → is_available (find_state key (map (state_of retired_v1 a prov) fs)) ≡ true
    → is_available (find_state key (map (state_of retired_v1 b prov) fs)) ≡ true
unfolding state_of
find_state-nested retired_v1 a b prov key [] h k = k
find_state-nested retired_v1 a b prov key (f ∷ fs) h k =
    if_available (f.key == key) _ _ _ _
      (still_true (contains f.key a) (contains f.key b) _ _ (left_true _ (nested a b fs) h))
      (find_state-nested retired_v1 a b prov key fs
        (right_true (not (contains f.key a) || contains f.key b) _ h))
      k

-- What the beta tier offers, the personal tier offers under the same settings.
pub resolve-nested :
    (retired_v1 feed : Bool) (key : String)
    → offers (resolve retired_v1 none "beta" feed) key ≡ true
    → offers (resolve retired_v1 none "personal" feed) key ≡ true
unfolding resolve
resolve-nested retired_v1 feed key h =
    find_state-nested retired_v1 beta_features personal_features (provisioned_sources none feed) key
      features refl h
