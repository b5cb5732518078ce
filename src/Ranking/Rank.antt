-- ===== src/Ranking/Rank.antt =====
-- The types and functions of api/insights/ranker.py. Inputs, weights and scores are finite `Float`
-- values; a list stands for a tuple; `ValueError` is a value of `Error`, one for each place.
use metron.Prelude.{String, Bool, true, false, not, ◌&&◌, ◌||◌}
use metron.Prelude.{List, [], ◌∷◌, if◌then◌else◌, keep, take}
use metron.Prelude.Int.{ℤ, pos, pos_part, ◌+ℤ◌, ◌-ℤ◌, leb_ℤ, ltb_ℤ}
use metron.Prelude.Float.{Float, ◌⊛◌}
use metron.Prelude.Order.{sorted_by}
use metron.Prelude.Texts.{contains}
use metron.Prelude.Words.{le_text, is_blank}
use metron.Prelude.Result.{Result, ok, raise_if, ◌>>=◌, ◌>>◌}

pub record Observation : Type 0 where
  pub facet_key : String
  pub text : String
  pub as_of : String
  pub materiality : ℤ
  pub deviation : ℤ
  pub urgency : ℤ
  pub rule_breach : Bool

pub record RankWeights : Type 0 where
  pub materiality : ℤ
  pub deviation : ℤ
  pub urgency : ℤ
  pub rule_breach : ℤ
  pub novelty_penalty : ℤ

pub record Selection : Type 0 where
  pub observations : List Observation
  pub is_floor : Bool

pub data Error : Type 0 where
  not_within : String → ℤ → String → Error
  empty_text no_as_of : String → Error
  negative_limit : ℤ → Error
  floor_without_provenance : Error

abbrev pub floor_text : String
floor_text = "Nothing unusual today — your portfolio moved with its factors."

module _ ⦃f : Float⦄ where
  abbrev out_of_range : ℤ → Bool
  out_of_range x = not (leb_ℤ (pos 0) x && leb_ℤ x f.one)

  -- `Observation.__post_init__`, which every construction and every `replace` runs.
  unfoldable pub checked : Observation → Result Error Observation
  checked o = do
    raise_if (out_of_range o.materiality) (not_within "materiality" o.materiality o.facet_key)
    raise_if (out_of_range o.deviation) (not_within "deviation" o.deviation o.facet_key)
    raise_if (out_of_range o.urgency) (not_within "urgency" o.urgency o.facet_key)
    raise_if (is_blank o.text) (empty_text o.facet_key)
    raise_if (is_blank o.as_of) (no_as_of o.facet_key)
    ok o

  unfoldable pub score : RankWeights → List String → Observation → ℤ
  score w shown o =
      let total =
        w.materiality ⊛ o.materiality
        +ℤ w.deviation ⊛ o.deviation
        +ℤ w.urgency ⊛ o.urgency
        +ℤ (if o.rule_breach then w.rule_breach else pos 0) in
      if contains o.facet_key shown then total -ℤ w.novelty_penalty else total

  -- The order of the sort keys `(-score(o), o.facet_key)`.
  unfoldable pub before : RankWeights → List String → Observation → Observation → Bool
  unfolding score
  before w shown a b =
      let x = score w shown a in
      let y = score w shown b in ltb_ℤ y x || (leb_ℤ y x && le_text a.facet_key b.facet_key)

  unfoldable pub rank :
      RankWeights → List String → ℤ → List Observation → Result Error (List Observation)
  unfolding before
  rank w shown limit observations = do
    raise_if (ltb_ℤ limit (pos 0)) (negative_limit limit)
    ok (take (pos_part limit) (sorted_by (before w shown) observations))

  abbrev pub first_as_of : List Observation → String
  first_as_of [] = ""
  first_as_of (o ∷ os) = o.as_of

  abbrev is_empty : String → Bool
  is_empty String.[] = true
  is_empty (String.◌∷◌ c s) = false

  -- The floor statement, where no observation is worth a slot.
  unfoldable pub floor_for : String → List Observation → Result Error Selection
  unfolding checked
  floor_for as_of ranked =
      let moment = (if is_empty as_of then first_as_of ranked else as_of) in
      do
        raise_if (is_blank moment) floor_without_provenance
        o ← checked (record {
          facet_key = "floor";
          text = floor_text;
          as_of = moment;
          materiality = pos 0;
          deviation = pos 0;
          urgency = pos 0;
          rule_breach = false;
        })
        ok (record { observations = o ∷ []; is_floor = true })

  unfoldable pub clears : RankWeights → List String → ℤ → Observation → Bool
  unfolding score
  clears w shown threshold o = leb_ℤ threshold (score w shown o)

  abbrev pub slate_or_floor : String → List Observation → List Observation → Result Error Selection
  slate_or_floor as_of ranked [] = floor_for as_of ranked
  slate_or_floor as_of ranked (o ∷ os) = ok (record { observations = o ∷ os; is_floor = false })

  unfoldable pub select :
      RankWeights → List String → ℤ → ℤ → String → List Observation → Result Error Selection
  unfolding rank floor_for clears
  select w shown limit threshold as_of observations = do
    ranked ← rank w shown limit observations
    slate_or_floor as_of ranked (keep (clears w shown threshold) ranked)

  -- `replace(observation, text=text)`
  unfoldable pub with_text : Observation → String → Result Error Observation
  unfolding checked
  with_text o text = checked (record o { text = text })
