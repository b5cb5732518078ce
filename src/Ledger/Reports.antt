-- ===== src/Ledger/Reports.antt =====
-- What is read off a ledger or a history: `position`, `unrealized`, `realized_totals` and
-- `external_cash_flows` (portfolio_analytics/domain/ledger.py). A cash flow of the quant library is
-- its date and its amount.
use metron.Prelude.{
  ◌≡◌, refl, ◌∙◌, ap, ap₂, List, [], ◌∷◌, ◌++◌, map, none, some, not, keep, if◌then◌else◌, inl, inr,
  Bool-cases, String, All, All-append, ◌≤◌,
}
use metron.Prelude.Int.{
  ℤ, pos, ◌+ℤ◌, ◌-ℤ◌, leb_ℤ, neg_ℤ, sum, int_laws, sum-append, +ℤ_left_comm, +ℤ_assoc, +ℤ_zero,
}
use mathlib.Core.List.{map-append}
use metron.Prelude.Float.{Float, ◌⊛◌, ◌⊘◌}
use metron.Prelude.Dict.{Dict, lookup, insert}
use metron.Prelude.Day.{Day}
use metron.Prelude.Sort.{sorted, sum-sorted, IsSorted, sorted-IsSorted}
use metron.Ledger.Records.{
  TxnType, Transaction, Lot, RealizedGain, Ledger, lots_of, shares_of, basis_of, gain, long_term,
}

module _ ⦃f : Float⦄ where
  -- `Ledger.position`
  unfoldable pub position : Ledger → String → ℤ × ℤ
  position l t =
      let shares = shares_of (lots_of l t) in
      if leb_ℤ shares (pos 0) then (pos 0, pos 0) else (shares, basis_of (lots_of l t) ⊘ shares)

  abbrev value_lots : Dict ℤ → Dict (List Lot) → Dict ℤ → Dict ℤ
  value_lots prices [] out = out
  value_lots prices ((t, lots) ∷ rest) out = value_lots prices rest (elim (lookup t prices) [
    | none ↦ out
    | some price ↦ insert t (shares_of lots ⊛ price -ℤ basis_of lots) out
  ])

  -- `Ledger.unrealized`
  unfoldable pub unrealized : Ledger → Dict ℤ → Dict ℤ
  unrealized l prices = value_lots prices l.open_lots []

-- `Ledger.realized_totals`
unfoldable pub realized_totals : Ledger → ℤ × ℤ
realized_totals l = (
  sum (map gain (keep (λ r. not (long_term r)) l.realized)),
  sum (map gain (keep long_term l.realized)),
)

pub record CashFlow : Type 0 where
  pub when : Day
  pub amount : ℤ

abbrev pub flows_of : Transaction → List CashFlow
flows_of t = elim t.type [
  | TxnType.deposit ↦ record { when = t.when; amount = neg_ℤ t.amount } ∷ []
  | TxnType.transfer_in ↦ record { when = t.when; amount = neg_ℤ t.amount } ∷ []
  | TxnType.withdrawal ↦ record { when = t.when; amount = t.amount } ∷ []
  | TxnType.transfer_out ↦ record { when = t.when; amount = t.amount } ∷ []
  | _ ↦ []
]

abbrev pub flows_in_order : List Transaction → List CashFlow
flows_in_order [] = []
flows_in_order (t ∷ ts) = flows_of t ++ flows_in_order ts

unfoldable pub external_cash_flows : List Transaction → List CashFlow
external_cash_flows ts = flows_in_order (sorted (λ (t : Transaction). t.when) ts)

split_sum :
    (rs : List RealizedGain)
    → sum (map gain (keep (λ r. not (long_term r)) rs)) +ℤ sum (map gain (keep long_term rs))
      ≡ sum (map gain rs)
split_sum [] = omega int_laws
split_sum (r ∷ rs) = elim (Bool-cases (long_term r)) [
  | inl e ↦ rw e (+ℤ_left_comm _ (gain r) _ ∙ ap (λ (t : ℤ). gain r +ℤ t) (split_sum rs))
  | inr e ↦ rw e (+ℤ_assoc (gain r) _ _ ∙ ap (λ (t : ℤ). gain r +ℤ t) (split_sum rs))
]

-- The short-term and the long-term total make up the gains of all closed lots.
pub realized_totals-sum :
    (l : Ledger) → (realized_totals l).0 +ℤ (realized_totals l).1 ≡ sum (map gain l.realized)
unfolding realized_totals
realized_totals-sum l = split_sum l.realized

-- The capital that a row takes out of the portfolio: negative for what it puts in.
abbrev pub capital_out : Transaction → ℤ
capital_out t = elim t.type [
  | TxnType.deposit ↦ neg_ℤ t.amount
  | TxnType.transfer_in ↦ neg_ℤ t.amount
  | TxnType.withdrawal ↦ t.amount
  | TxnType.transfer_out ↦ t.amount
  | _ ↦ pos 0
]

abbrev pub flow_amount : CashFlow → ℤ
flow_amount c = c.amount

abbrev pub flow_day : CashFlow → Day
flow_day c = c.when

flows_of_one :
    (t : Transaction) (k : TxnType)
    → t.type ≡ k
    → sum (map flow_amount (flows_of t)) ≡ capital_out t
flows_of_one t TxnType.deposit e = rw (e, flows_of, capital_out) (+ℤ_zero _)
flows_of_one t TxnType.transfer_in e = rw (e, flows_of, capital_out) (+ℤ_zero _)
flows_of_one t TxnType.withdrawal e = rw (e, flows_of, capital_out) (+ℤ_zero _)
flows_of_one t TxnType.transfer_out e = rw (e, flows_of, capital_out) (+ℤ_zero _)
flows_of_one t _ e = rw (e, flows_of, capital_out)

flows_sum :
    (ts : List Transaction) → sum (map flow_amount (flows_in_order ts)) ≡ sum (map capital_out ts)
flows_sum [] = refl
flows_sum (t ∷ ts) =
    ap sum (map-append flow_amount (flows_of t) (flows_in_order ts))
    ∙ sum-append (map flow_amount (flows_of t)) _
    ∙ ap₂ (λ (a b : ℤ). a +ℤ b) (flows_of_one t t.type refl) (flows_sum ts)

flows_of-days :
    (t : Transaction) (k : TxnType) (d : Day)
    → t.type ≡ k
    → d ≤ t.when
    → All (λ c. d ≤ flow_day c) (flows_of t)
flows_of-days t TxnType.deposit d e h = rw (e, flows_of) (h, tt)
flows_of-days t TxnType.transfer_in d e h = rw (e, flows_of) (h, tt)
flows_of-days t TxnType.withdrawal d e h = rw (e, flows_of) (h, tt)
flows_of-days t TxnType.transfer_out d e h = rw (e, flows_of) (h, tt)
flows_of-days t _ d e h = rw (e, flows_of) tt

flows_after :
    (d : Day) (ts : List Transaction)
    → All (λ (t : Transaction). d ≤ t.when) ts
    → All (λ c. d ≤ flow_day c) (flows_in_order ts)
flows_after d [] h = tt
flows_after d (t ∷ ts) h =
    All-append (λ c. d ≤ flow_day c) (flows_of t) (flows_in_order ts)
      (flows_of-days t t.type d refl h.0) (flows_after d ts h.1)

join-IsSorted :
    (t : Transaction) (k : TxnType) (rest : List CashFlow)
    → t.type ≡ k
    → All (λ c. t.when ≤ flow_day c) rest
    → IsSorted flow_day rest
    → IsSorted flow_day (flows_of t ++ rest)
join-IsSorted t TxnType.deposit rest e h s = rw (e, flows_of) (h, s)
join-IsSorted t TxnType.transfer_in rest e h s = rw (e, flows_of) (h, s)
join-IsSorted t TxnType.withdrawal rest e h s = rw (e, flows_of) (h, s)
join-IsSorted t TxnType.transfer_out rest e h s = rw (e, flows_of) (h, s)
join-IsSorted t _ rest e h s = rw (e, flows_of) s

flows-IsSorted :
    (ts : List Transaction)
    → IsSorted (λ (t : Transaction). t.when) ts
    → IsSorted flow_day (flows_in_order ts)
flows-IsSorted [] h = tt
flows-IsSorted (t ∷ ts) h =
    join-IsSorted t t.type (flows_in_order ts) refl (flows_after t.when ts h.0)
      (flows-IsSorted ts h.1)

-- The external flows stand in order of date, and their amounts add up to the capital that the
-- history took out less what it put in, deposits and withdrawals and transfers in kind.
pub external_cash_flows-sum :
    (ts : List Transaction)
    → IsSorted flow_day (external_cash_flows ts)
      × (sum (map flow_amount (external_cash_flows ts)) ≡ sum (map capital_out ts))
unfolding external_cash_flows
external_cash_flows-sum ts =
    let when = λ (t : Transaction). t.when in
    (
      flows-IsSorted (sorted when ts) (sorted-IsSorted when ts),
      flows_sum (sorted when ts) ∙ sum-sorted when capital_out ts,
    )
