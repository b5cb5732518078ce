-- ===== src/Targets/Tests.antt =====
-- A plan over two targets, and the theorems at it.
use metron.Prelude.{◌≡◌, refl, Option, none, some, String, List, [], ◌∷◌, map}
use metron.Prelude.Int.{pos, ◌+ℤ◌, ◌-ℤ◌, ◌*ℤ◌}
use metron.Prelude.Dict.{lookup}
use metron.Prelude.Units.{whole_units}
use metron.Targets.Line.{PlanTargetsConfig, PricePoint, Reason, outcome}
use metron.Targets.Plan.{Holding, CashToTargetsPlan, usd_of, build_plan, spend}
use metron.Targets.Cover.{Covers, build_plan-Covers}

abbrev config : PlanTargetsConfig
config = record {
  targets =
      record { symbol = "VTI"; weight = pos 1 }
      ∷ record { symbol = "BND"; weight = pos 1 }
      ∷ record { symbol = "GLD"; weight = pos 1 }
      ∷ [];
  max_single_position = none;
  min_line_usd = pos 5;
}

abbrev held : List Holding
held = record { ticker = some "VTI"; market_value = some (pos 70) } ∷ []

-- GLD has no price.
abbrev prices : String → Option PricePoint
prices symbol = lookup symbol (
    ("VTI", record { close = some (pos 30); bar_date = some 738499 })
    ∷ ("BND", record { close = some (pos 4); bar_date = none })
    ∷ [])

abbrev plan : CashToTargetsPlan
plan = build_plan prices held (pos 100) config 738500

two_lines : map usd_of plan.lines ≡ pos 90 ∷ pos 8 ∷ []
unfolding build_plan spend outcome ◌+ℤ◌ ◌-ℤ◌ ◌*ℤ◌
two_lines = refl

left_uninvested : plan.unallocated_reasons ≡ Reason.unpriced ∷ []
unfolding build_plan spend outcome ◌+ℤ◌ ◌-ℤ◌ ◌*ℤ◌
left_uninvested = refl

build_plan-Covers_example : Covers prices (pos 5) config.targets plan.lines plan.skipped
build_plan-Covers_example = build_plan-Covers prices config held (pos 100) 738500
