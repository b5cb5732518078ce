-- ===== src/Prelude/Float.antt =====
-- What the code does with a Python `float`. A value is a whole number of one tiny unit (every finite
-- double is one), so sums, differences and comparisons are those of ℤ. A product, a quotient and
-- the rounding of them are the interpreter's: the operations of this record, whose laws a theorem
-- names when it needs them.
use metron.Prelude.Int.{ℤ, neg_ℤ}
use Prim.Native.Nat.{ℕ}
use mathlib.Core.Path.{◌≡◌}

pub record Float : Type 0 where
  pub times : ℤ → ℤ → ℤ
  pub over : ℤ → ℤ → ℤ
  -- 1.0
  pub one : ℤ
  -- 1e-9, the tolerance under which a share count is nothing
  pub dust : ℤ
  -- 1e-6
  pub micro : ℤ
  -- 1e-4
  pub tenth_milli : ℤ
  -- `round(x, digits)`
  pub round : ℕ → ℤ → ℤ
  -- `math.floor(x)`, a count
  pub floor : ℤ → ℤ
  -- the float of a count
  pub float : ℤ → ℤ

infixl 70 ◌⊛◌ ◌⊘◌
abbrev pub ◌⊛◌ : ⦃f : Float⦄ → ℤ → ℤ → ℤ
◌⊛◌ ⦃f⦄ a b = f.times a b

abbrev pub ◌⊘◌ : ⦃f : Float⦄ → ℤ → ℤ → ℤ
◌⊘◌ ⦃f⦄ a b = f.over a b

-- 1.0 is a unit of the product.
pub record HasUnit ⦃f : Float⦄ : Type 0 where
  pub one_times : (a : ℤ) → f.one ⊛ a ≡ a
  pub neg_one_times : (a : ℤ) → neg_ℤ f.one ⊛ a ≡ neg_ℤ a
