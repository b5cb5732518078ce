-- ===== src/Prelude/Day.antt =====
-- A `datetime.date` is its proleptic Gregorian ordinal (`date.toordinal`): day 1 is 0001-01-01.
use metron.Prelude.Tests.{◌==◌, if◌then◌else◌}
use metron.Prelude.Int.{ℤ, pos, ◌-ℤ◌}
use Prim.Native.Nat.{ℕ, ◌+◌, ◌-◌, ◌*◌, ◌/◌, ◌%◌}
use mathlib.Core.Path.{◌≡◌, refl}
use mathlib.Core.Bool.{◌||◌}

abbrev pub Day : Type 0
Day = ℕ

-- `(later - earlier).days`
abbrev pub days_between : Day → Day → ℤ
days_between earlier later = pos later -ℤ pos earlier

-- `date.year`, as the standard library's `_ord2ymd` computes it.
unfoldable pub year_of : Day → ℕ
year_of d =
    let n = d - 1 in
    let n400 = n / 146097 in
    let a = n % 146097 in
    let n100 = a / 36524 in
    let b = a % 36524 in
    let n4 = b / 1461 in
    let c = b % 1461 in
    let n1 = c / 365 in
    let year = n400 * 400 + n100 * 100 + n4 * 4 + n1 + 1 in
    if n1 == 4 || n100 == 4 then year - 1 else year

year_of_2024_12_31 : year_of 739251 ≡ 2024
unfolding year_of
year_of_2024_12_31 = refl

year_of_2025_01_01 : year_of 739252 ≡ 2025
unfolding year_of
year_of_2025_01_01 = refl
