-- ===== src/Account/Positions.antt =====
-- `unexplained_position_changes` of portfolio_analytics/domain/account_performance.py: the changes
-- of quantity between two observations that the events do not explain.
use metron.Prelude.{
  ◌≡◌, refl, ap, subst, ◌∙◌, String, Option, none, some, Bool, true, false, ◌&&◌, ◌||◌, List, [],
  ◌∷◌, inl, inr, if◌then◌else◌, Bool-cases, Option-cases, arith,
}
use metron.Prelude.Int.{ℤ, pos, ◌+ℤ◌, ◌-ℤ◌, ◌≤ℤ◌, ltb_ℤ, abs_ℤ, int_laws}
use metron.Prelude.Float.{Float, ◌⊛◌}
use metron.Prelude.Dict.{Dict, lookup, insert, get_or, lookup-insert}
use metron.Prelude.Texts.{contains, has_key, union_keys, contains-union_keys}
use metron.Account.Events.{EventKind, AccountEvent, position_sign}
use text.Mathlib.Text.{◌==◌}
use text.Mathlib.TextEquality.{eq_iff}

module _ ⦃f : Float⦄ where
  -- One event, on the running quantities.
  abbrev pub explain : Dict ℤ → AccountEvent → Dict ℤ
  explain expected e = elim e.kind [
    | EventKind.split ↦ elim (lookup e.symbol expected) [
      | none ↦ expected
      | some q ↦ insert e.symbol (q ⊛ e.quantity) expected
    ]
    | _ ↦ elim (position_sign e.kind) [
      | none ↦ expected
      | some sign ↦ insert e.symbol (get_or e.symbol (pos 0) expected +ℤ sign ⊛ e.quantity) expected
    ]
  ]

  abbrev pub explained : Dict ℤ → List AccountEvent → Dict ℤ
  explained expected [] = expected
  explained expected (e ∷ es) = explained (explain expected e) es

-- What is observed less what is expected; a symbol that a mapping lacks holds zero.
abbrev pub gap_of : Dict ℤ → Dict ℤ → String → ℤ
gap_of expected end s = get_or s (pos 0) end -ℤ get_or s (pos 0) expected

insert_step :
    (same c big : Bool) (g h : ℤ) (out : Option ℤ)
    → (same ≡ true → (g ≡ h) × (big ≡ true))
    → (if c && big then some h else if same then some g else out)
      ≡ (if (same || c) && big then some h else out)
insert_step true true big g h out k = rw ((k refl).1)
insert_step true false big g h out k = rw ((k refl).1, (k refl).0)
insert_step false c big g h out k = refl

keep_step :
    (same c big : Bool) (h : ℤ) (out : Option ℤ)
    → (same ≡ true → big ≡ false)
    → (if c && big then some h else out) ≡ (if (same || c) && big then some h else out)
keep_step true c big h out k = ground (arith, k refl)
keep_step false c big h out k = refl

module _ (tolerance : ℤ) (expected end : Dict ℤ) where
  abbrev is_big : String → Bool
  is_big s = ltb_ℤ tolerance (abs_ℤ (gap_of expected end s))

  abbrev pub gaps_into : Dict ℤ → List String → Dict ℤ
  gaps_into out [] = out
  gaps_into out (s ∷ ss) =
      gaps_into (if is_big s then insert s (gap_of expected end s) out else out) ss

  lookup-gaps_into :
      (j : String) (out : Dict ℤ) (ss : List String)
      → lookup j (gaps_into out ss)
        ≡ (if contains j ss && is_big j then some (gap_of expected end j) else lookup j out)
  lookup-gaps_into j out [] = refl
  lookup-gaps_into j out (s ∷ ss) = elim (Bool-cases (is_big s)) [
    | inl big ↦
        rw
          (
            big,
            lookup-gaps_into j (insert s (gap_of expected end s) out) ss,
            lookup-insert s j (gap_of expected end s) out,
          )
          (insert_step (s == j) (contains j ss) (is_big j) _ _ (lookup j out) (λ e.
            let same = (eq_iff s j).0 e in
            (ap (gap_of expected end) same, subst (λ (i : String). is_big i ≡ true) same big)))
    | inr small ↦
        rw (small, lookup-gaps_into j out ss)
          (keep_step (s == j) (contains j ss) (is_big j) _ (lookup j out)
            (λ e. subst (λ (i : String). is_big i ≡ false) ((eq_iff s j).0 e) small))
  ]

unfoldable pub unexplained_position_changes :
    ⦃f : Float⦄ → Dict ℤ → Dict ℤ → List AccountEvent → ℤ → Dict ℤ
unexplained_position_changes start end events tolerance =
    let expected = explained start events in
    gaps_into tolerance expected end [] (union_keys expected end)

-- A symbol that neither mapping has shows no gap.
gap_of-missing :
    (expected end : Dict ℤ) (s : String)
    → (has_key s expected || has_key s end) ≡ false
    → gap_of expected end s ≡ pos 0
gap_of-missing expected end s h = elim (Option-cases (lookup s expected)) [
  | inr (q, e) ↦ ground arith
  | inl e ↦ elim (Option-cases (lookup s end)) [
    | inr (q, e') ↦ ground arith
    | inl e' ↦ rw (get_or, e, e') (omega int_laws)
  ]
]

abbrev pub gap : ⦃f : Float⦄ → Dict ℤ → Dict ℤ → List AccountEvent → String → ℤ
gap start end events = gap_of (explained start events) end

module _ ⦃f : Float⦄ (start end : Dict ℤ) (events : List AccountEvent) (tolerance : ℤ) where
  -- For a tolerance that is not negative, exactly the symbols whose observed quantity differs by
  -- more than it from the quantity that the events explain are returned, each with the difference.
  pub lookup-unexplained_position_changes :
      (s : String)
      → pos 0 ≤ℤ tolerance
      → lookup s (unexplained_position_changes start end events tolerance) ≡ (
          if ltb_ℤ tolerance (abs_ℤ (gap start end events s))
          then some (gap start end events s)
          else none)
  unfolding unexplained_position_changes
  lookup-unexplained_position_changes s z =
      let expected = explained start events in
      lookup-gaps_into tolerance expected end s [] (union_keys expected end)
      ∙ rw (contains-union_keys s expected end)
          (elim (Bool-cases (has_key s expected || has_key s end)) [
            | inl e ↦ rw e
            | inr e ↦ rw (e, gap_of-missing expected end s e) (ground arith)
          ])
