-- ===== src/Prelude/Units.antt =====
-- Two instances of `Float`: whole units, and thousandths, whose products and quotients are cut off
-- to thousandths and whose tolerance is one of them. They meet the laws that theorems name.
use metron.Prelude.Int.{ℤ, pos, negsuc, neg_ℤ, ◌-ℤ◌, ◌*ℤ◌}
use metron.Prelude.Float.{Float, HasUnit}
use Prim.Native.Nat.{zero, suc, ◌/◌}
use mathlib.Core.Path.{◌≡◌, refl}
use native.Mathlib.Omega.{arith}

-- Division that drops the remainder, for a positive divisor.
abbrev pub div_ℤ : ℤ → ℤ → ℤ
div_ℤ (pos a) (pos b) = pos (a / b)
div_ℤ (negsuc a) (pos b) = negsuc (a / b)
div_ℤ a (negsuc b) = pos 0

instance abbrev pub whole_units : Float
whole_units = record {
  times = ◌*ℤ◌;
  over = div_ℤ;
  one = pos 1;
  dust = pos 0;
  micro = pos 0;
  tenth_milli = pos 0;
  round = λ digits a. a;
  floor = λ a. a;
  float = λ n. n;
}

abbrev pub thousandths : Float
thousandths = record {
  times = λ a b. div_ℤ (a *ℤ b) (pos 1000);
  over = λ a b. div_ℤ (a *ℤ pos 1000) b;
  one = pos 1000;
  dust = pos 1;
  micro = pos 1;
  tenth_milli = pos 1;
  round = λ digits a. a;
  floor = λ a. div_ℤ a (pos 1000);
  float = λ n. n *ℤ pos 1000;
}

thousand_times : (a : ℤ) → div_ℤ (pos 1000 *ℤ a) (pos 1000) ≡ a
unfolding ◌*ℤ◌
thousand_times (pos a) = ground arith
thousand_times (negsuc a) = ground arith

minus_thousand_times : (a : ℤ) → div_ℤ (neg_ℤ (pos 1000) *ℤ a) (pos 1000) ≡ neg_ℤ a
unfolding ◌*ℤ◌ ◌-ℤ◌
minus_thousand_times (pos zero) = refl
minus_thousand_times (pos (suc a)) = ground arith
minus_thousand_times (negsuc a) = ground arith

pub thousandths-HasUnit : HasUnit ⦃f = thousandths⦄
thousandths-HasUnit = record { one_times = thousand_times; neg_one_times = minus_thousand_times }

-- A product of thousandths with zero is zero.
pub zero_times : (a : ℤ) → div_ℤ (pos 0 *ℤ a) (pos 1000) ≡ pos 0
unfolding ◌*ℤ◌
zero_times (pos a) = ground arith
zero_times (negsuc a) = ground arith
