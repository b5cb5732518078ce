-- ===== src/Quality/Prices.antt =====
-- `check_price_series` of portfolio_analytics/ingestion/quality.py and what it calls: the gates over a series of closes.
use metron.Prelude.{ℕ, ◌+◌, ◌==◌, String, Bool, true, false, not, ◌&&◌, ◌||◌, Option, none, some}
use metron.Prelude.{List, [], ◌∷◌, ◌++◌, ltb, leb, if◌then◌else◌}
use metron.Prelude.Int.{ℤ, pos, ◌-ℤ◌, abs_ℤ, ltb_ℤ, leb_ℤ}
use metron.Prelude.Float.{Float, ◌⊛◌, ◌⊘◌}
use metron.Prelude.Day.{Day}
use metron.Prelude.Sort.{sorted}
use metron.Quality.Finding.{Reading, Gate, Subject, Detail, Finding, flag, latest_ok}

-- `PRICE_OUTLIER_MAX_MOVE` and `SPLIT_RATIO_MATCH_TOLERANCE`, 0.30 and 0.10.
pub record Thresholds : Type 0 where
  pub price_outlier_max_move : ℤ
  pub split_ratio_match_tolerance : ℤ

abbrev pub split_date_slack_days : ℕ
split_date_slack_days = 3

pub record ClosePoint : Type 0 where
  pub bar_date : Day
  pub close : Reading

abbrev pub date_of : ClosePoint → Day
date_of p = p.bar_date

-- A recorded split: its date and its ratio.
abbrev pub Split : Type 0
Split = Day × Reading

-- `_finite(x) and x > 0`
abbrev pub is_positive : Reading → Bool
is_positive (Reading.finite x) = ltb_ℤ (pos 0) x
is_positive Reading.not_finite = false

unfoldable pub check_price_point : Day → String → ClosePoint → List Finding
check_price_point today name p =
    let s = Subject.symbol name in
    flag s (not (is_positive p.close)) Detail.close_not_positive none (some p.bar_date)
    ++ flag s (ltb (latest_ok today) p.bar_date) (Detail.in_future "bar_date") none
        (some p.bar_date)

-- `by_date[p.bar_date] = p`
abbrev pub put_point : ClosePoint → List ClosePoint → List ClosePoint
put_point p [] = p ∷ []
put_point p (q ∷ qs) = if q.bar_date == p.bar_date then p ∷ qs else q ∷ put_point p qs

abbrev pub by_date : List ClosePoint → List ClosePoint → List ClosePoint
by_date seen [] = seen
by_date seen (p ∷ ps) = by_date (put_point p seen) ps

-- The last point of each date, in the order of the dates.
unfoldable pub series_of : List ClosePoint → List ClosePoint
series_of ps = sorted date_of (by_date [] ps)

-- Whether the last known close comes before the series.
abbrev comes_before : ClosePoint → List ClosePoint → Bool
comes_before p [] = true
comes_before p (q ∷ qs) = ltb p.bar_date q.bar_date

abbrev pub chain_of : Option ClosePoint → List ClosePoint → List ClosePoint
chain_of none ps = ps
chain_of (some p) ps = if comes_before p ps then p ∷ ps else ps

module _ ⦃f : Float⦄ where
  abbrev is_zero : ℤ → Bool
  is_zero x = leb_ℤ x (pos 0) && leb_ℤ (pos 0) x

  -- `(ratio or 1.0) * r`
  abbrev times_ratio : Option ℤ → ℤ → ℤ
  times_ratio none r = f.one ⊛ r
  times_ratio (some ratio) r = (if is_zero ratio then f.one else ratio) ⊛ r

  abbrev in_window : Day → Day → Day → Bool
  in_window lo hi when =
      ltb lo (when + split_date_slack_days) && leb when (hi + split_date_slack_days)

  abbrev add_split : Day → Day → Option ℤ → Split → Option ℤ
  add_split lo hi ratio (when, Reading.not_finite) = ratio
  add_split lo hi ratio (when, Reading.finite r) =
      if ltb_ℤ (pos 0) r && in_window lo hi when then some (times_ratio ratio r) else ratio

  -- The loop of `_split_ratio_for`, with the ratio so far.
  abbrev pub split_ratio_for : Day → Day → Option ℤ → List Split → Option ℤ
  split_ratio_for lo hi ratio [] = ratio
  split_ratio_for lo hi ratio (x ∷ xs) = split_ratio_for lo hi (add_split lo hi ratio x) xs

  -- `cur.close / prev.close - 1.0`
  abbrev pub move_of : ℤ → ℤ → ℤ
  move_of before now = now ⊘ before -ℤ f.one

  module _ (limits : Thresholds) where
    abbrev is_explained : ℤ → Option ℤ → Bool
    is_explained moved_to none = false
    is_explained moved_to (some ratio) =
        leb_ℤ (abs_ℤ (moved_to ⊛ ratio -ℤ f.one)) limits.split_ratio_match_tolerance

    abbrev pub is_quiet : ℤ → ℤ → Bool
    is_quiet before now = leb_ℤ (abs_ℤ (move_of before now)) limits.price_outlier_max_move

    abbrev move_finding : String → Gate → Detail → ℤ → Day → Finding
    move_finding name gate d move as_of = record {
      gate = gate;
      subject = Subject.symbol name;
      detail = d;
      observed = some move;
      threshold = some limits.price_outlier_max_move;
      as_of = some as_of;
    }

    abbrev classify_closes : String → List Split → Day → ℤ → Day → ℤ → List Finding
    classify_closes name splits from before to now =
        if leb_ℤ before (pos 0) || leb_ℤ now (pos 0)
        then []
        else if is_quiet before now
        then []
        else let move = move_of before now in
          if is_explained (now ⊘ before) (split_ratio_for from to none splits)
          then move_finding name Gate.split_discontinuity (Detail.moved_by_split move) move to ∷ []
          else move_finding name Gate.price_outlier (Detail.moved move) move to ∷ []

    -- `classify_move`, with no finding or one.
    abbrev pub classify_readings :
        String → List Split → Day → Reading → Day → Reading → List Finding
    classify_readings name splits from (Reading.finite before) to (Reading.finite now) =
        classify_closes name splits from before to now
    classify_readings name splits from Reading.not_finite to _ = []
    classify_readings name splits from (Reading.finite before) to Reading.not_finite = []

    unfoldable pub classify_move : String → List Split → ClosePoint → ClosePoint → List Finding
    classify_move name splits p q =
        classify_readings name splits p.bar_date p.close q.bar_date q.close

    abbrev pub check_points : Day → String → List ClosePoint → List Finding
    check_points today name [] = []
    check_points today name (p ∷ ps) = check_price_point today name p ++ check_points today name ps

    -- `for prev, cur in zip(chain, chain[1:])`
    abbrev pub classify_moves : String → List Split → List ClosePoint → List Finding
    classify_moves name splits [] = []
    classify_moves name splits (p ∷ []) = []
    classify_moves name splits (p ∷ q ∷ ps) =
        let rest = classify_moves name splits (q ∷ ps) in classify_move name splits p q ++ rest

    unfoldable pub check_price_series :
        Day → String → List ClosePoint → List Split → Option ClosePoint → List Finding
    unfolding check_price_point classify_move series_of
    check_price_series today name points splits prior =
        let series = series_of points in
        check_points today name series ++ classify_moves name splits (chain_of prior series)
