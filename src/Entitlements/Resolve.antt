-- ===== src/Entitlements/Resolve.antt =====
-- The functions of api/entitlements.py.
use metron.Prelude.{
  String, Option, none, some, List, [], ◌∷◌, ◌++◌, map, keep, Bool, true, false, not, ◌&&◌, ◌||◌,
  if◌then◌else◌,
}
use metron.Prelude.Texts.{contains, sort_texts}
use metron.Prelude.Result.{Result, ok, raised, ◌>>=◌}
use metron.Entitlements.Catalog.{
  Feature, Tier, free_sources, feed_sources, features, pro_features, tiers, advice_features,
  feed_derived_features, v1_retired_features, producer_gone_features,
}
use text.Mathlib.Text.{◌==◌}

pub record Pin : Type 0 where
  pub features : List String
  pub feed_enabled : Bool

pub data Reason : Type 0 where
  retired outside_tier : Reason
  missing_source : String → Reason

pub record FeatureState : Type 0 where
  pub key : String
  pub requires : List String
  pub available : Bool
  pub in_tier : Bool
  pub computable : Bool
  pub reason : Option Reason
  pub required_tier : Option String

pub record Resolved : Type 0 where
  pub tier : String
  pub feed_enabled : Bool
  pub provisioned_sources : List String
  pub features : List FeatureState

-- The `ValueError` of `resolve`, and the `StopIteration` of `feature_state`.
pub data Error : Type 0 where
  unknown_tier : Error
  unknown_feature : Error

-- `a - b`
abbrev pub minus : List String → List String → List String
minus a b = keep (λ s. not (contains s b)) a

unfoldable pub is_retired : Bool → String → Bool
is_retired retired_v1 key =
    contains key producer_gone_features || (retired_v1 && contains key v1_retired_features)

unfoldable pub external_demo_features : Bool → List String
external_demo_features feed_features_locked =
    let shown = minus pro_features advice_features in
    if feed_features_locked then minus shown feed_derived_features else shown

abbrev pub feed_of : Option Pin → Bool → Bool
feed_of none feed_enabled = feed_enabled
feed_of (some pin) feed_enabled = pin.feed_enabled

unfoldable pub provisioned_sources : Option Pin → Bool → List String
provisioned_sources pin feed_enabled =
    free_sources ++ (if feed_of pin feed_enabled then feed_sources else [])

abbrev pub first_tier : String → List Tier → Option String
first_tier key [] = none
first_tier key (t ∷ ts) = if contains key t.features then some t.key else first_tier key ts

abbrev pub required_tier : String → Option String
required_tier key = first_tier key tiers

abbrev pub or_else : {A : Type 0} → Option A → A → A
or_else none a = a
or_else (some b) a = b

-- The preview is what an owner's headers ask for.
unfoldable pub effective_axes :
    Option Pin → String → Bool → Bool → Option String → Option Bool → String × Bool
effective_axes (some pin) default_tier feed simulator preview_tier preview_feed =
    (default_tier, pin.feed_enabled)
effective_axes none default_tier feed simulator preview_tier preview_feed =
    if simulator
    then (or_else preview_tier default_tier, or_else preview_feed feed)
    else (default_tier, feed)

abbrev pub missing_of : List String → Feature → List String
missing_of prov f = keep (λ r. not (contains r prov)) f.requires

abbrev pub is_empty : List String → Bool
is_empty [] = true
is_empty (s ∷ ss) = false

-- `missing[0]` where there is one
abbrev pub first_missing : List String → Option Reason
first_missing [] = none
first_missing (s ∷ ss) = some (missing_source s)

abbrev pub reason_for : Bool → Bool → List String → Option Reason
reason_for is_retired in_tier missing =
    if is_retired
    then some Reason.retired
    else if in_tier && is_empty missing
    then none
    else if not in_tier
    then some Reason.outside_tier
    else first_missing missing

-- The body of the loop of `resolve`.
unfoldable pub state_of : Bool → List String → List String → Feature → FeatureState
unfolding is_retired
state_of retired_v1 active prov f =
    let gone = is_retired retired_v1 f.key in
    let in_tier = contains f.key active && not gone in
    let missing = missing_of prov f in
    record {
      key = f.key;
      requires = f.requires;
      available = in_tier && is_empty missing;
      in_tier = in_tier;
      computable = is_empty missing;
      reason = reason_for gone in_tier missing;
      required_tier = if gone then none else required_tier f.key;
    }

abbrev pub tier_features : String → List Tier → Option (List String)
tier_features key [] = none
tier_features key (t ∷ ts) = if t.key == key then some t.features else tier_features key ts

abbrev pub resolve_with : Bool → Option Pin → String → Bool → List String → Resolved
resolve_with retired_v1 pin tier feed_enabled active =
    let prov = provisioned_sources pin feed_enabled in
    record {
      tier = tier;
      feed_enabled = feed_enabled;
      provisioned_sources = sort_texts prov;
      features = map (state_of retired_v1 active prov) features;
    }

unfoldable pub resolve : Bool → Option Pin → String → Bool → Result Error Resolved
resolve retired_v1 (some pin) tier feed_enabled =
    ok (resolve_with retired_v1 (some pin) "external_demo" pin.feed_enabled pin.features)
resolve retired_v1 none tier feed_enabled = elim (tier_features tier tiers) [
  | none ↦ raised unknown_tier
  | some active ↦ ok (resolve_with retired_v1 none tier feed_enabled active)
]

abbrev pub find_state : String → List FeatureState → Result Error FeatureState
find_state key [] = raised unknown_feature
find_state key (s ∷ ss) = if s.key == key then ok s else find_state key ss

-- `try: a except ValueError: b`
abbrev pub or_try : Result Error Resolved → Result Error Resolved → Result Error Resolved
or_try (ok r) b = ok r
or_try (raised e) b = b

unfoldable pub feature_state :
    Bool
    → Option Pin
    → String
    → String
    → Bool
    → Bool
    → Option String
    → Option Bool
    → Result Error FeatureState
feature_state retired_v1 pin key default_tier feed simulator preview_tier preview_feed =
    let (tier, on) = effective_axes pin default_tier feed simulator preview_tier preview_feed in
    or_try (resolve retired_v1 pin tier on) (resolve retired_v1 pin default_tier feed) >>= λ r.
    find_state key r.features
