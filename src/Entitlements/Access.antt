-- ===== src/Entitlements/Access.antt =====
-- Who may see a feature (api/entitlements.py).
use metron.Prelude.{
  ◌≡◌, refl, ap, String, Option, none, some, List, [], ◌∷◌, map, All, keep, Bool, true, false, not,
  ◌&&◌, ◌||◌, Bool-cases, inl, inr, arith,
}
use metron.Prelude.Texts.{contains}
use metron.Prelude.Result.{ok, raised, Ensures}
use metron.Entitlements.Catalog.{Feature, features, tiers, advice_features}
use metron.Entitlements.Resolve.{
  Pin, Reason, FeatureState, Error, is_retired, state_of, resolve, resolve_with,
  provisioned_sources, tier_features, external_demo_features, missing_of, is_empty, reason_for,
}

-- What the pin, or else the tier, has in its plan.
abbrev pub has_tier : Option (List String) → String → Bool
has_tier none key = false
has_tier (some fs) key = contains key fs

abbrev pub in_plan : Option Pin → String → String → Bool
in_plan none tier key = has_tier (tier_features tier tiers) key
in_plan (some pin) tier key = contains key pin.features

abbrev pub every : List String → List String → Bool
every [] ss = true
every (r ∷ rs) ss = contains r ss && every rs ss

abbrev pub no_reason : Option Reason → Bool
no_reason none = true
no_reason (some r) = false

-- A feature is available exactly when it is planned, not retired, and has all its sources; and
-- exactly then no reason is given.
pub record IsHonest (retired_v1 : Bool) (plan : String → Bool) (sources : List String)
    (s : FeatureState) : Type 0 where
  pub available :
      s.available ≡ (plan s.key && not (is_retired retired_v1 s.key) && every s.requires sources)
  pub reasoned : no_reason s.reason ≡ s.available

is_empty-every : (rs ss : List String) → is_empty (keep (λ r. not (contains r ss)) rs) ≡ every rs ss
is_empty-every [] ss = refl
is_empty-every (r ∷ rs) ss = elim (Bool-cases (contains r ss)) [
  | inl e ↦ rw e (is_empty-every rs ss)
  | inr e ↦ rw e refl
]

no_reason-reason_for :
    (planned gone : Bool) (missing : List String)
    → no_reason (reason_for gone (planned && not gone) missing)
      ≡ (planned && not gone && is_empty missing)
no_reason-reason_for planned true missing = ground arith
no_reason-reason_for false false missing = refl
no_reason-reason_for true false [] = refl
no_reason-reason_for true false (m ∷ ms) = refl

state_of-IsHonest :
    (retired_v1 : Bool) (active prov : List String) (f : Feature)
    → IsHonest retired_v1 (λ key. contains key active) prov (state_of retired_v1 active prov f)
unfolding state_of
state_of-IsHonest retired_v1 active prov f = record {
  available =
      ap (λ (b : Bool). contains f.key active && not (is_retired retired_v1 f.key) && b)
        (is_empty-every f.requires prov);
  reasoned =
      no_reason-reason_for (contains f.key active) (is_retired retired_v1 f.key)
        (missing_of prov f);
}

states-AreHonest :
    (retired_v1 : Bool) (active prov : List String) (fs : List Feature)
    → All
        (IsHonest retired_v1 (λ key. contains key active) prov)
        (map (state_of retired_v1 active prov) fs)
states-AreHonest retired_v1 active prov [] = tt
states-AreHonest retired_v1 active prov (f ∷ fs) =
    (state_of-IsHonest retired_v1 active prov f, states-AreHonest retired_v1 active prov fs)

tier_states-AreHonest :
    (retired_v1 : Bool) (tier : String) (feed : Bool) (o : Option (List String))
    → Ensures
        (λ r. All (IsHonest retired_v1 (has_tier o) (provisioned_sources none feed)) r.features)
        (elim o [
          | none ↦ raised Error.unknown_tier
          | some active ↦ ok (resolve_with retired_v1 none tier feed active)
        ])
tier_states-AreHonest retired_v1 tier feed none = tt
tier_states-AreHonest retired_v1 tier feed (some active) =
    states-AreHonest retired_v1 active (provisioned_sources none feed) features

-- Every feature that `resolve` reports is available exactly when the plan has it, it is not
-- retired, and its sources are provisioned, and has a reason exactly when it is not available.
pub resolve-IsHonest :
    (retired_v1 : Bool) (pin : Option Pin) (tier : String) (feed : Bool)
    → Ensures
        (λ r.
          All (IsHonest retired_v1 (in_plan pin tier) (provisioned_sources pin feed)) r.features)
        (resolve retired_v1 pin tier feed)
unfolding resolve provisioned_sources
resolve-IsHonest retired_v1 (some pin) tier feed =
    states-AreHonest retired_v1 pin.features (provisioned_sources (some pin) feed) features
resolve-IsHonest retired_v1 none tier feed =
    tier_states-AreHonest retired_v1 tier feed (tier_features tier tiers)

-- What an external demo is pinned to.
abbrev pub demo_pin : Bool → Bool → Pin
demo_pin feed_features_locked feed = record {
  features = external_demo_features feed_features_locked;
  feed_enabled = feed;
}

abbrev pub shown_advice : FeatureState → Bool
shown_advice s = contains s.key advice_features && s.available

abbrev any_advice : List String → List Feature → Bool
any_advice active [] = false
any_advice active (f ∷ fs) =
    (contains f.key advice_features && contains f.key active) || any_advice active fs

left_false : (a b : Bool) → (a || b) ≡ false → a ≡ false
left_false false b h = refl
left_false true b h = h

right_false : (a b : Bool) → (a || b) ≡ false → b ≡ false
right_false false b h = h
right_false true b h = absurd cc

still_false : (a b c d : Bool) → (a && b) ≡ false → (a && ((b && c) && d)) ≡ false
still_false false b c d h = refl
still_false true false c d h = refl
still_false true true c d h = absurd cc

no_advice_states :
    (retired_v1 : Bool) (active prov : List String) (fs : List Feature)
    → any_advice active fs ≡ false
    → All (λ s. shown_advice s ≡ false) (map (state_of retired_v1 active prov) fs)
unfolding state_of
no_advice_states retired_v1 active prov [] h = tt
no_advice_states retired_v1 active prov (f ∷ fs) h = (
  still_false (contains f.key advice_features) (contains f.key active) _ _
      (left_false _ (any_advice active fs) h),
  no_advice_states retired_v1 active prov fs
      (right_false (contains f.key advice_features && contains f.key active) _ h),
)

demo_without_advice : (locked : Bool) → any_advice (external_demo_features locked) features ≡ false
unfolding external_demo_features
demo_without_advice true = refl
demo_without_advice false = refl

-- Whatever tier and feed it asks for, a session pinned to the external demo is shown no advice
-- feature as available.
pub resolve-no_advice :
    (retired_v1 feed_features_locked pin_feed : Bool) (tier : String) (feed : Bool)
    → Ensures
        (λ r. All (λ s. shown_advice s ≡ false) r.features)
        (resolve retired_v1 (some (demo_pin feed_features_locked pin_feed)) tier feed)
unfolding resolve
resolve-no_advice retired_v1 locked pin_feed tier feed =
    no_advice_states retired_v1 (external_demo_features locked) _ features
      (demo_without_advice locked)
