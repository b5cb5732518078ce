-- ===== src/Ranking/Slate.antt =====
-- What `select` of api/insights/ranker.py picks.
use metron.Prelude.{ℕ, String, ◌≡◌, refl, ◌∙◌, true, false, arith, ◌<◌}
use metron.Prelude.{List, [], ◌∷◌, keep, take, any, if◌then◌else◌}
use metron.Prelude.Int.{ℤ, pos, pos_part, ◌<ℤ◌, ltb_ℤ}
use metron.Prelude.Float.{Float}
use metron.Prelude.Order.{sorted_by, sorted_by-IsSortedBy}
use metron.Prelude.Order.Cut.{has_some, has_some-keep, has_some-take, has_some-sorted_by}
use metron.Prelude.Order.Cut.{keep-sorted_by, keep-take}
use metron.Prelude.Result.{ok}
use metron.Ranking.Rank.{Observation, RankWeights, before, rank, clears}
use metron.Ranking.Rank.{select, slate_or_floor, floor_for}
use metron.Ranking.Ties.{before-IsTotal}

module _ ⦃f : Float⦄ (w : RankWeights) (shown : List String) where
  clears_first :
      (threshold : ℤ) (a b : Observation)
      → before w shown a b ≡ true
      → clears w shown threshold a ≡ false
      → clears w shown threshold b ≡ false
  unfolding before clears
  clears_first threshold a b h k = ground arith

  -- The best of those that are worth a slot.
  abbrev pub best : ℕ → ℤ → List Observation → List Observation
  best n threshold os = take n (sorted_by (before w shown) (keep (clears w shown threshold) os))

  kept-best :
      (n : ℕ) (threshold : ℤ) (os : List Observation)
      → keep (clears w shown threshold) (take n (sorted_by (before w shown) os))
        ≡ best n threshold os
  kept-best n threshold os =
      keep-take (before w shown) (clears w shown threshold) (clears_first threshold) n
        (sorted_by (before w shown) os)
        (sorted_by-IsSortedBy (before w shown) (before-IsTotal w shown) os)
      ∙ rw (keep-sorted_by (before w shown) (before-IsTotal w shown) (clears w shown threshold) os)
          refl

  has_some-best :
      (n : ℕ) (threshold : ℤ) (os : List Observation)
      → 0 < n
      → has_some (best n threshold os) ≡ any (clears w shown threshold) os
  has_some-best n threshold os h =
      has_some-take n _ h
      ∙ has_some-sorted_by (before w shown) _
      ∙ has_some-keep (clears w shown threshold) os

  slate_or_floor-if :
      (as_of : String) (ranked kept : List Observation)
      → slate_or_floor as_of ranked kept ≡ (
          if has_some kept
          then ok (record { observations = kept; is_floor = false })
          else floor_for as_of ranked)
  slate_or_floor-if as_of ranked [] = refl
  slate_or_floor-if as_of ranked (o ∷ os) = refl

  -- With a slot to fill, `select` is: sort and cut the candidates that clear the threshold, where
  -- there is one; the floor statement, where there is none.
  pub select-best :
      (limit threshold : ℤ) (as_of : String) (os : List Observation)
      → pos 0 <ℤ limit
      → select w shown limit threshold as_of os ≡ (
          if any (clears w shown threshold) os
          then ok (record { observations = best (pos_part limit) threshold os; is_floor = false })
          else floor_for as_of (take (pos_part limit) (sorted_by (before w shown) os)))
  unfolding select rank
  select-best limit threshold as_of os h =
      let asked : ltb_ℤ limit (pos 0) ≡ false = ground arith in
      let some_slot : 0 < pos_part limit = ground arith in
      let ranked = take (pos_part limit) (sorted_by (before w shown) os) in
      rw (
        asked,
        kept-best (pos_part limit) threshold os,
        slate_or_floor-if as_of ranked (best (pos_part limit) threshold os),
        has_some-best (pos_part limit) threshold os some_slot,
      )
