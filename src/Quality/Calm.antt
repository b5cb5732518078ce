-- ===== src/Quality/Calm.antt =====
-- A series of closes in which the gates of portfolio_analytics/ingestion/quality.py find nothing.
use metron.Prelude.{◌≤◌, String, Bool, true, false, not, ◌||◌, Option, none, some}
use metron.Prelude.{
  List, [], ◌∷◌, ◌++◌, ◌≡◌, refl, ltb, if◌then◌else◌, arith, All, Bool-cases, inl, inr,
}
use metron.Prelude.Int.{pos, leb_ℤ}
use metron.Prelude.Float.{Float}
use metron.Prelude.Day.{Day}
use metron.Quality.Finding.{Reading, Subject, Detail, Finding, flag, latest_ok}
use metron.Quality.Prices.{
  Thresholds, ClosePoint, Split, is_positive, check_price_point, series_of, chain_of, is_quiet,
  classify_readings, classify_move, check_points, classify_moves, check_price_series,
}

none_left : {A : Type 0} (xs ys : List A) → xs ++ ys ≡ [] → xs ≡ []
none_left [] ys h = refl
none_left (x ∷ xs) ys h = cc

none_right : {A : Type 0} (xs ys : List A) → xs ++ ys ≡ [] → ys ≡ []
none_right [] ys h = h
none_right (x ∷ xs) ys h = cc

flags_none :
    (s : Subject) (a b : Bool) (d e : Detail) (w v : Option Day)
    → flag s a d none w ++ flag s b e none v ≡ []
    → (a ≡ false) × (b ≡ false)
flags_none s false false d e w v h = (refl, refl)
flags_none s true b d e w v h = cc
flags_none s false true d e w v h = cc

either_none : (b : Bool) (x y : Finding) → (if b then x ∷ [] else y ∷ []) ≡ [] → false ≡ true
either_none true x y h = cc
either_none false x y h = cc

-- A close that is a positive finite number and not from the future.
pub record IsUsable (today : Day) (p : ClosePoint) : Type 0 where
  pub positive : is_positive p.close ≡ true
  pub dated : p.bar_date ≤ latest_ok today

module _ ⦃f : Float⦄ (limits : Thresholds) (today : Day) (name : String) (splits : List Split) where
  check_price_point-IsUsable :
      (p : ClosePoint) → check_price_point today name p ≡ [] → IsUsable today p
  unfolding check_price_point
  check_price_point-IsUsable p h =
      let tests =
        flags_none (Subject.symbol name) (not (is_positive p.close))
          (ltb (latest_ok today) p.bar_date) Detail.close_not_positive (Detail.in_future "bar_date")
          (some p.bar_date) (some p.bar_date) h in
      let positive = tests.0 in
      let dated = tests.1 in record { positive = ground arith; dated = ground arith }

  check_points-IsUsable :
      (ps : List ClosePoint) → check_points limits today name ps ≡ [] → All (IsUsable today) ps
  check_points-IsUsable [] h = tt
  check_points-IsUsable (p ∷ ps) h = (
    check_price_point-IsUsable p (none_left _ _ h),
    check_points-IsUsable ps (none_right (check_price_point today name p) _ h),
  )

  -- From one positive close to another, no more than the threshold.
  abbrev pub quiet_readings : Reading → Reading → Bool
  quiet_readings (Reading.finite before) (Reading.finite now) =
      leb_ℤ before (pos 0) || leb_ℤ now (pos 0) || is_quiet limits before now
  quiet_readings _ _ = true

  abbrev pub AreQuiet : List ClosePoint → Type 0
  AreQuiet [] = Unit
  AreQuiet (p ∷ []) = Unit
  AreQuiet (p ∷ q ∷ ps) = (quiet_readings p.close q.close ≡ true) × AreQuiet (q ∷ ps)

  classify_readings-quiet :
      (from to : Day) (a b : Reading)
      → classify_readings limits name splits from a to b ≡ []
      → quiet_readings a b ≡ true
  classify_readings-quiet from to (Reading.finite before) (Reading.finite now) h =
      elim (Bool-cases (leb_ℤ before (pos 0) || leb_ℤ now (pos 0))) [
        | inl e ↦ rw e refl
        | inr e ↦ elim (Bool-cases (is_quiet limits before now)) [
          | inl q ↦ rw (e, q) refl
          | inr q ↦ rw (e, q) (either_none _ _ _ (rw (e, q) at h))
        ]
      ]
  classify_readings-quiet from to Reading.not_finite b h = refl
  classify_readings-quiet from to (Reading.finite before) Reading.not_finite h = refl

  classify_moves-AreQuiet :
      (ps : List ClosePoint) → classify_moves limits name splits ps ≡ [] → AreQuiet ps
  unfolding classify_move
  classify_moves-AreQuiet [] h = tt
  classify_moves-AreQuiet (p ∷ []) h = tt
  classify_moves-AreQuiet (p ∷ q ∷ ps) h = (
    classify_readings-quiet p.bar_date q.bar_date p.close q.close (none_left _ _ h),
    classify_moves-AreQuiet (q ∷ ps) (none_right (classify_move limits name splits p q) _ h),
  )

  -- Where the gates find nothing in a series, every close of it, the last of its date, is a positive
  -- finite number and not from the future, and every move from one positive close to the next, the
  -- one from the last known close included, is within the threshold.
  pub check_price_series-clean :
      (points : List ClosePoint) (prior : Option ClosePoint)
      → check_price_series limits today name points splits prior ≡ []
      → All (IsUsable today) (series_of points) × AreQuiet (chain_of prior (series_of points))
  unfolding check_price_series
  check_price_series-clean points prior h = (
    check_points-IsUsable (series_of points) (none_left _ _ h),
    classify_moves-AreQuiet (chain_of prior (series_of points))
        (none_right (check_points limits today name (series_of points)) _ h),
  )
