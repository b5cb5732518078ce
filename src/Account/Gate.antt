-- ===== src/Account/Gate.antt =====
-- When `decompose_period` calls a period reconciled, and what it then reports
-- (portfolio_analytics/domain/account_performance.py).
use metron.Prelude.{
  ◌≡◌, ◌↔◌, refl, sym, ◌∙◌, none, some, Bool, true, false, ◌&&◌, String, List, [], ◌∷◌, map,
  if◌then◌else◌, inl, inr, Bool-cases, Option-cases, arith,
}
use metron.Prelude.Int.{ℤ, pos, ◌-ℤ◌, ◌≤ℤ◌, leb_ℤ, ltb_ℤ, abs_ℤ, sum}
use metron.Prelude.Float.{Float}
use metron.Prelude.Dict.{Dict, lookup}
use metron.Account.Events.{AccountEvent, account_external_flow}
use metron.Account.Positions.{
  unexplained_position_changes, gap, lookup-unexplained_position_changes,
}
use metron.Account.Wealth.{WealthObservation, wealth, observed}
use metron.Account.Period.{
  PeriodPnL, Status, Why, blocked, is_empty, is_reconciled, positions_of, raw_residual,
  decompose_period, net_pnl,
}
use metron.Account.Identity.{events_in}
use text.Mathlib.TextPositions.{eq_refl}

unavailable_ne : Status.unavailable ≡ Status.reconciled → ⊥
unavailable_ne h = cc

unreconciled_ne : Status.unreconciled ≡ Status.reconciled → ⊥
unreconciled_ne h = cc

and_parts : (a b : Bool) → (a && b) ≡ true → (a ≡ true) × (b ≡ true)
and_parts a b h = ground arith

leb_to_le : (a t : ℤ) → leb_ℤ a t ≡ true → a ≤ℤ t
leb_to_le a t e = ground arith

le_to_leb : (a t : ℤ) → a ≤ℤ t → leb_ℤ a t ≡ true
le_to_leb a t h = ground arith

at_most : (a t : ℤ) → ltb_ℤ t a ≡ false → a ≤ℤ t
at_most a t e = ground arith

not_below : (a t : ℤ) → a ≤ℤ t → ltb_ℤ t a ≡ false
not_below a t h = ground arith

some_ne_none : (v : ℤ) → some v ≡ none → ⊥
some_ne_none v h = cc

lookup-of-is_empty : (d : Dict ℤ) (s : String) → is_empty d ≡ true → lookup s d ≡ none
lookup-of-is_empty [] s h = refl
lookup-of-is_empty (e ∷ d) s h = cc

is_empty-of-lookup : (d : Dict ℤ) → ((s : String) → lookup s d ≡ none) → is_empty d ≡ true
is_empty-of-lookup [] h = refl
is_empty-of-lookup ((k, v) ∷ d) h = absurd (some_ne_none v (rw (eq_refl k) at (h k)))

small_of_none : (g t : ℤ) → (if ltb_ℤ t (abs_ℤ g) then some g else none) ≡ none → abs_ℤ g ≤ℤ t
small_of_none g t h = elim (Bool-cases (ltb_ℤ t (abs_ℤ g))) [
  | inl e ↦ absurd (some_ne_none g (rw e at h))
  | inr e ↦ at_most (abs_ℤ g) t e
]

none_of_small : (g t : ℤ) → abs_ℤ g ≤ℤ t → (if ltb_ℤ t (abs_ℤ g) then some g else none) ≡ none
none_of_small g t h = rw (not_below (abs_ℤ g) t h)

module _ ⦃f : Float⦄ (start end : WealthObservation) (events : List AccountEvent)
    (tol qtol : ℤ) where
  abbrev pub period : PeriodPnL
  period = decompose_period start end events tol qtol

  abbrev pub jumps : Dict ℤ
  jumps =
      unexplained_position_changes (positions_of start) (positions_of end)
        (events_in start end events) qtol

  abbrev pub residual : ℤ
  residual = f.round 10 (raw_residual start end (events_in start end events))

  -- The positions that the events do not explain, within the tolerance for every symbol.
  abbrev pub PositionsExplained : Type 0
  PositionsExplained =
      (s : String)
      → abs_ℤ (gap (positions_of start) (positions_of end) (events_in start end events) s) ≤ℤ qtol

  jumps-empty : pos 0 ≤ℤ qtol → (is_empty jumps ≡ true) ↔ PositionsExplained
  jumps-empty z = (
    (λ e s. small s (
        sym (
          lookup-unexplained_position_changes (positions_of start) (positions_of end)
            (events_in start end events) qtol s z)
        ∙ lookup-of-is_empty jumps s e)),
    (λ ok. is_empty-of-lookup jumps (λ s.
        lookup-unexplained_position_changes (positions_of start) (positions_of end)
          (events_in start end events) qtol s z
        ∙ none_if_small s (ok s))),
  )
    where
      g : String → ℤ
      g s = gap (positions_of start) (positions_of end) (events_in start end events) s

      small :
          (s : String)
          → (if ltb_ℤ qtol (abs_ℤ (g s)) then some (g s) else none) ≡ none
          → abs_ℤ (g s) ≤ℤ qtol
      small s h = small_of_none (g s) qtol h

      none_if_small :
          (s : String)
          → abs_ℤ (g s) ≤ℤ qtol
          → (if ltb_ℤ qtol (abs_ℤ (g s)) then some (g s) else none) ≡ none
      none_if_small s h = none_of_small (g s) qtol h

  good : Bool
  good = leb_ℤ (abs_ℤ residual) tol && is_empty jumps

  status_free :
      blocked start end ≡ none
      → period.status ≡ (if good then Status.reconciled else Status.unreconciled)
  unfolding decompose_period good
  status_free h = rw (decompose_period, h)

  status_blocked : (w : Why) → blocked start end ≡ some w → period.status ≡ Status.unavailable
  unfolding decompose_period
  status_blocked w h = rw (decompose_period, h)

  free_of_reconciled : period.status ≡ Status.reconciled → blocked start end ≡ none
  free_of_reconciled h = elim (Option-cases (blocked start end)) [
    | inl e ↦ e
    | inr (w, e) ↦ absurd (unavailable_ne (sym (status_blocked w e) ∙ h))
  ]

  good_of_reconciled : period.status ≡ Status.reconciled → good ≡ true
  good_of_reconciled h = elim (Bool-cases good) [
    | inl e ↦ e
    | inr e ↦ absurd (unreconciled_ne (rw e at (sym (status_free (free_of_reconciled h)) ∙ h)))
  ]

  -- With a share tolerance that is not negative, a period is reconciled exactly when nothing makes
  -- it unavailable, its rounded residual is within the tolerance, and for every symbol the observed
  -- change of quantity is within the share tolerance of what the events explain.
  pub reconciled_iff :
      pos 0 ≤ℤ qtol
      → (period.status ≡ Status.reconciled)
        ↔ ((blocked start end ≡ none) × (abs_ℤ residual ≤ℤ tol) × PositionsExplained)
  unfolding good
  reconciled_iff z = (
    (λ h.
        let both = and_parts (leb_ℤ (abs_ℤ residual) tol) (is_empty jumps) (good_of_reconciled h) in
        (free_of_reconciled h, leb_to_le (abs_ℤ residual) tol both.0, (jumps-empty z).0 both.1)),
    (λ (free, small, ok).
        status_free free ∙ rw (le_to_leb (abs_ℤ residual) tol small, (jumps-empty z).1 ok) refl),
  )

  -- A period has a net P&L exactly when it is reconciled, and it is then the change of wealth less
  -- the external capital.
  pub net_pnl_lem : net_pnl period ≡ (
      if is_reconciled period.status
      then some (
          observed (wealth end)
          -ℤ observed (wealth start)
          -ℤ sum (map account_external_flow (events_in start end events)))
      else none)
  unfolding net_pnl decompose_period
  net_pnl_lem = elim (Option-cases (blocked start end)) [
    | inl e ↦ rw (decompose_period, e)
    | inr (w, e) ↦ rw (decompose_period, e)
  ]
