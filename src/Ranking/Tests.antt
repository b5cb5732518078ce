-- ===== src/Ranking/Tests.antt =====
-- Runs of the ranker in whole units, and the theorems at them.
use metron.Prelude.{
  String, ◌≡◌, refl, true, false, List, [], ◌∷◌, map, if◌then◌else◌, any, take, arith,
}
use metron.Prelude.Int.{pos, negsuc, ◌+ℤ◌, ◌-ℤ◌, ◌*ℤ◌}
use metron.Prelude.Units.{whole_units}
use metron.Prelude.Order.{Reordered, sorted_by}
use metron.Prelude.Dict.{ne_of_test}
use metron.Prelude.Result.{Result, ok, raised}
use metron.Ranking.Rank.{Observation, RankWeights, Selection, Error, before, clears, score, rank}
use metron.Ranking.Rank.{select, floor_for, checked, with_text, negative_limit, empty_text}
use metron.Ranking.Rank.{not_within, floor_without_provenance}
use metron.Ranking.Ties.{rank_unordered}
use metron.Ranking.Slate.{best, select-best}

abbrev weights : RankWeights
weights = record {
  materiality = pos 10;
  deviation = pos 8;
  urgency = pos 6;
  rule_breach = pos 12;
  novelty_penalty = pos 5;
}

abbrev concentration : Observation
concentration = record {
  facet_key = "concentration";
  text = "One position is a third of the portfolio.";
  as_of = "2026-11-20";
  materiality = pos 1;
  deviation = pos 0;
  urgency = pos 0;
  rule_breach = true;
}

abbrev ex_dividend : Observation
ex_dividend = record {
  facet_key = "ex_dividend";
  text = "VTI goes ex-dividend tomorrow.";
  as_of = "2026-11-20";
  materiality = pos 0;
  deviation = pos 0;
  urgency = pos 1;
  rule_breach = false;
}

abbrev drift : Observation
drift = record {
  facet_key = "drift";
  text = "Bonds are above their usual weight.";
  as_of = "2026-11-20";
  materiality = pos 0;
  deviation = pos 0;
  urgency = pos 1;
  rule_breach = false;
}

abbrev candidates : List Observation
candidates = ex_dividend ∷ drift ∷ concentration ∷ []

abbrev facets : Result Error (List Observation) → List String
facets (ok os) = map (λ o. o.facet_key) os
facets (raised e) = []

abbrev chosen : Result Error Selection → Result Error (List String)
chosen (ok s) = ok (map (λ o. o.facet_key) s.observations)
chosen (raised e) = raised e

-- Equal scores go by the facet's name.
ranked_by_name : facets (rank weights [] (pos 2) candidates) ≡ "concentration" ∷ "drift" ∷ []
unfolding rank before score sorted_by ◌+ℤ◌ ◌-ℤ◌ ◌*ℤ◌
ranked_by_name = refl

below_no_slot : rank weights [] (negsuc 0) candidates ≡ raised (negative_limit (negsuc 0))
unfolding rank before score sorted_by ◌+ℤ◌ ◌-ℤ◌ ◌*ℤ◌
below_no_slot = refl

-- What was shown lately scores one, below the threshold of two.
shown_lately :
    chosen (select weights ("drift" ∷ []) (pos 5) (pos 2) "" (drift ∷ [])) ≡ ok ("floor" ∷ [])
unfolding select rank before score clears floor_for checked sorted_by ◌+ℤ◌ ◌-ℤ◌ ◌*ℤ◌
shown_lately = refl

no_moment : select weights [] (pos 5) (pos 2) " " [] ≡ raised floor_without_provenance
unfolding select rank before score clears floor_for checked sorted_by ◌+ℤ◌ ◌-ℤ◌ ◌*ℤ◌
no_moment = refl

blank_words : with_text drift "  " ≡ raised (empty_text "drift")
unfolding with_text checked
blank_words = refl

too_much :
    checked (record drift { urgency = pos 2 }) ≡ raised (not_within "urgency" (pos 2) "drift")
unfolding checked
too_much = refl

rank_unordered_example :
    rank weights [] (pos 2) (ex_dividend ∷ drift ∷ [])
    ≡ rank weights [] (pos 2) (drift ∷ ex_dividend ∷ [])
rank_unordered_example =
    rank_unordered weights [] (pos 2) (Reordered.swap ex_dividend drift [])
      ((ne_of_test "ex_dividend" "drift" refl, tt), (tt, tt))

select-best_example : select weights [] (pos 2) (pos 7) "" candidates ≡ (
    if any (clears weights [] (pos 7)) candidates
    then ok (record { observations = best weights [] 2 (pos 7) candidates; is_floor = false })
    else floor_for "" (take 2 (sorted_by (before weights []) candidates)))
select-best_example = select-best weights [] (pos 2) (pos 7) "" candidates (omega arith)
