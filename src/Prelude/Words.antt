-- ===== src/Prelude/Words.antt =====
-- Texts in the order of Python's `<` on `str`, by code points, and `str.strip` as a test for a blank.
use metron.Prelude.Tests.{ltb, leb, ◌==◌}
use metron.Prelude.Order.{IsTotal}
use Prim.Native.Char.{Char, code}
use Prim.Native.String.{String}
use Prim.Native.Nat.{compare, Ordering}
use mathlib.Core.Path.{◌≡◌, refl, ap₂}
use mathlib.Core.Bool.{Bool, true, false, ◌||◌, ◌&&◌}
use native.Mathlib.Omega.{arith}
use text.Mathlib.TextEquality.{codes_equal}

-- `s <= t`
abbrev pub le_text : String → String → Bool
le_text String.[] t = true
le_text (String.◌∷◌ c s) String.[] = false
le_text (String.◌∷◌ c s) (String.◌∷◌ d t) =
    let rest = le_text s t in ltb (code c) (code d) || (code c == code d && rest)

le_text_total : (s t : String) → le_text s t ≡ false → le_text t s ≡ true
le_text_total String.[] t h = ground arith
le_text_total (String.◌∷◌ c s) String.[] h = refl
le_text_total (String.◌∷◌ c s) (String.◌∷◌ d t) h = ground (arith, le_text_total s t)

le_text_trans : (s t u : String) → le_text s t ≡ true → le_text t u ≡ true → le_text s u ≡ true
le_text_trans String.[] t u h k = refl
le_text_trans (String.◌∷◌ c s) String.[] u h k = ground arith
le_text_trans (String.◌∷◌ c s) (String.◌∷◌ d t) String.[] h k = ground arith
le_text_trans (String.◌∷◌ c s) (String.◌∷◌ d t) (String.◌∷◌ e u) h k =
    ground (arith, le_text_trans s t u)

pub le_text-IsTotal : IsTotal le_text
le_text-IsTotal = record { total = le_text_total; trans = le_text_trans }

pub le_text_antisym : (s t : String) → le_text s t ≡ true → le_text t s ≡ true → s ≡ t
le_text_antisym String.[] String.[] h k = refl
le_text_antisym String.[] (String.◌∷◌ d t) h k = ground arith
le_text_antisym (String.◌∷◌ c s) String.[] h k = ground arith
le_text_antisym (String.◌∷◌ c s) (String.◌∷◌ d t) h k =
    let same : compare (code c) (code d) ≡ Ordering.eq = ground arith in
    let up : le_text s t ≡ true = ground arith in
    let down : le_text t s ≡ true = ground arith in
    ap₂ (λ (a : Char) (r : String). String.◌∷◌ a r) (codes_equal c d same)
      (le_text_antisym s t up down)

-- `str.isspace` of one character
abbrev is_space : Char → Bool
is_space c =
    let n = code c in
    (leb 9 n && leb n 13)
    || (leb 28 n && leb n 32)
    || n == 133
    || n == 160
    || n == 5760
    || (leb 8192 n && leb n 8202)
    || n == 8232
    || n == 8233
    || n == 8239
    || n == 8287
    || n == 12288

-- `not s.strip()`
abbrev pub is_blank : String → Bool
is_blank String.[] = true
is_blank (String.◌∷◌ c s) = let rest = is_blank s in is_space c && rest
