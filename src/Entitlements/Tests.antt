-- ===== src/Entitlements/Tests.antt =====
-- Entitlements of a beta tenant and of an external demo.
use metron.Prelude.{◌≡◌, refl, String, Option, none, some, All, true, false}
use metron.Prelude.Result.{Result, ok, raised, Ensures}
use metron.Entitlements.Resolve.{
  FeatureState, resolve, feature_state, is_retired, state_of, provisioned_sources, effective_axes,
  Error,
}
use metron.Entitlements.Access.{
  IsHonest, in_plan, demo_pin, shown_advice, resolve-IsHonest, resolve-no_advice,
}
use metron.Entitlements.Nesting.{offers, resolve-nested}

abbrev upsell : Result Error FeatureState → Option String
upsell (ok s) = s.required_tier
upsell (raised e) = none

-- An unknown preview tier falls back to the tier of the deployment.
preview_of_risk :
    upsell (feature_state false none "risk" "beta" false true (some "gold") (some true))
    ≡ some "personal"
unfolding feature_state resolve effective_axes state_of is_retired provisioned_sources
preview_of_risk = refl

resolve-IsHonest_example :
    Ensures
      (λ r. All (IsHonest true (in_plan none "beta") (provisioned_sources none false)) r.features)
      (resolve true none "beta" false)
resolve-IsHonest_example = resolve-IsHonest true none "beta" false

resolve-no_advice_example :
    Ensures
      (λ r. All (λ s. shown_advice s ≡ false) r.features)
      (resolve false (some (demo_pin false true)) "personal" true)
resolve-no_advice_example = resolve-no_advice false false true "personal" true

beta_income : offers (resolve false none "beta" false) "income" ≡ true
unfolding resolve state_of is_retired provisioned_sources
beta_income = refl

resolve-nested_example : offers (resolve false none "personal" false) "income" ≡ true
resolve-nested_example = resolve-nested false false "income" beta_income
