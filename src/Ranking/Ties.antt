-- ===== src/Ranking/Ties.antt =====
-- The order that `rank` of api/insights/ranker.py sorts by, and candidates that come in another order.
use metron.Prelude.{String, ◌≡◌, ◌≢◌, true, false, arith}
use metron.Prelude.{List, [], ◌∷◌, All, inl, inr, Bool-cases}
use metron.Prelude.Int.{ℤ}
use metron.Prelude.Float.{Float}
use metron.Prelude.Order.{IsTotal, Reordered, Unties, AreUntied, sorted_by_unordered}
use metron.Prelude.Words.{le_text, le_text-IsTotal, le_text_antisym}
use metron.Ranking.Rank.{Observation, RankWeights, before, rank}

module _ ⦃f : Float⦄ (w : RankWeights) (shown : List String) where
  before_total : (a b : Observation) → before w shown a b ≡ false → before w shown b a ≡ true
  unfolding before
  before_total a b h = ground (arith, le_text-IsTotal.total a.facet_key b.facet_key)

  before_trans :
      (a b c : Observation)
      → before w shown a b ≡ true
      → before w shown b c ≡ true
      → before w shown a c ≡ true
  unfolding before
  before_trans a b c h k = ground (arith, le_text-IsTotal.trans a.facet_key b.facet_key c.facet_key)

  pub before-IsTotal : IsTotal (before w shown)
  before-IsTotal = record { total = before_total; trans = before_trans }

  tied_keys :
      (a b : Observation)
      → before w shown a b ≡ true
      → before w shown b a ≡ true
      → a.facet_key ≡ b.facet_key
  unfolding before
  tied_keys a b h k =
      let up : le_text a.facet_key b.facet_key ≡ true = ground arith in
      let down : le_text b.facet_key a.facet_key ≡ true = ground arith in
      le_text_antisym a.facet_key b.facet_key up down

  Unties-ne : (a b : Observation) → a.facet_key ≢ b.facet_key → Unties (before w shown) a b
  Unties-ne a b ne = elim (Bool-cases (before w shown a b)) [
    | inl up ↦ elim (Bool-cases (before w shown b a)) [
      | inl down ↦ absurd (ne (tied_keys a b up down))
      | inr down ↦ rw (Unties, up, down)
    ]
    | inr up ↦ rw (Unties, up)
  ]

  -- No two candidates are of one facet.
  abbrev pub AreDistinctFacets : List Observation → Type 0
  AreDistinctFacets [] = Unit
  AreDistinctFacets (o ∷ os) = All (λ p. o.facet_key ≢ p.facet_key) os × AreDistinctFacets os

  All-Unties :
      (o : Observation) (os : List Observation)
      → All (λ p. o.facet_key ≢ p.facet_key) os
      → All (Unties (before w shown) o) os
  All-Unties o [] h = tt
  All-Unties o (p ∷ os) h = (Unties-ne o p h.0, All-Unties o os h.1)

  AreUntied-facets : (os : List Observation) → AreDistinctFacets os → AreUntied (before w shown) os
  AreUntied-facets [] h = tt
  AreUntied-facets (o ∷ os) h = (All-Unties o os h.0, AreUntied-facets os h.1)

  -- The slate does not depend on the order in which the candidates were generated, where no two of
  -- them are of one facet.
  pub rank_unordered :
      (limit : ℤ) {xs ys : List Observation}
      → Reordered xs ys
      → AreDistinctFacets xs
      → rank w shown limit xs ≡ rank w shown limit ys
  unfolding rank
  rank_unordered limit r h =
      rw (sorted_by_unordered (before w shown) before-IsTotal r (AreUntied-facets _ h))
