-- ===== src/Tax/Netting.antt =====
-- The netting of gains against losses (portfolio_analytics/domain/tax.py).
use metron.Prelude.Int.{
  ℤ, pos, ◌+ℤ◌, ◌≤ℤ◌, ◌<ℤ◌, max_ℤ, int_laws, leb_ℤ, ltb_ℤ, +ℤ_comm, +ℤ_zero, zero_+ℤ, eq_of_parts,
}
use metron.Prelude.{◌≡◌, ◌∙◌, ◌⊎◌, arith, true, false, inl, inr, Bool-cases}
use metron.Tax.Terms.{net_capital_gains}

pub record Netted (st lt : ℤ) (r : ℤ × ℤ) : Type 0 where
  pub st_nonneg : pos 0 ≤ℤ r.0
  pub lt_nonneg : pos 0 ≤ℤ r.1
  pub st_within : r.0 ≤ℤ max_ℤ st (pos 0)
  pub lt_within : r.1 ≤ℤ max_ℤ lt (pos 0)
  pub total : r.0 +ℤ r.1 ≡ max_ℤ (st +ℤ lt) (pos 0)

sign_cases :
    (a : ℤ)
    → ((leb_ℤ (pos 0) a ≡ true) × (ltb_ℤ a (pos 0) ≡ false))
      ⊎ ((leb_ℤ (pos 0) a ≡ false) × (ltb_ℤ a (pos 0) ≡ true))
sign_cases a = elim (Bool-cases (leb_ℤ (pos 0) a)) [
  | inl e ↦ inl (e, ground arith)
  | inr e ↦ inr (e, ground arith)
]

both_nonneg : (a b : ℤ) → leb_ℤ (pos 0) a ≡ true → leb_ℤ (pos 0) b ≡ true → pos 0 ≤ℤ a +ℤ b
both_nonneg a b h k =
    let p : pos 0 ≤ℤ a = ground arith in let q : pos 0 ≤ℤ b = ground arith in omega int_laws

sum_below : (a b : ℤ) → ltb_ℤ b (pos 0) ≡ true → a +ℤ b ≤ℤ a
sum_below a b h = let p : b <ℤ pos 0 = ground arith in omega int_laws

both_neg : (a b : ℤ) → ltb_ℤ a (pos 0) ≡ true → ltb_ℤ b (pos 0) ≡ true → a +ℤ b ≤ℤ pos 0
both_neg a b h k =
    let p : a <ℤ pos 0 = ground arith in let q : b <ℤ pos 0 = ground arith in omega int_laws

max_nonneg : (a : ℤ) → pos 0 ≤ℤ max_ℤ a (pos 0)
max_nonneg a = ground arith

le_max : (a : ℤ) → a ≤ℤ max_ℤ a (pos 0)
le_max a = ground arith

max_mono : (a b : ℤ) → a ≤ℤ b → max_ℤ a (pos 0) ≤ℤ max_ℤ b (pos 0)
max_mono a b h = ground arith

max_of_nonneg : (a : ℤ) → pos 0 ≤ℤ a → a ≡ max_ℤ a (pos 0)
max_of_nonneg a h = ground arith

max_of_neg : (a : ℤ) → a ≤ℤ pos 0 → pos 0 +ℤ pos 0 ≡ max_ℤ a (pos 0)
max_of_neg a h = zero_+ℤ (pos 0) ∙ ground (arith, eq_of_parts a (pos 0))

-- The two taxable amounts are not negative, neither is more than the gain of its own term, and
-- together they are the net gain, or nothing where the net is a loss.
pub net_capital_gains-Netted : (st lt : ℤ) → Netted st lt (net_capital_gains st lt)
unfolding net_capital_gains
net_capital_gains-Netted st lt = elim (sign_cases st) [
  | inl (p, q) ↦ elim (sign_cases lt) [
    | inl (p', q') ↦
        rw (p, p')
          (record {
            st_nonneg = ground arith;
            lt_nonneg = ground arith;
            st_within = le_max st;
            lt_within = le_max lt;
            total = max_of_nonneg (st +ℤ lt) (both_nonneg st lt p p');
          })
    | inr (p', q') ↦
        rw (p, q, p')
          (record {
            st_nonneg = max_nonneg (st +ℤ lt);
            lt_nonneg = omega arith;
            st_within = max_mono (st +ℤ lt) st (sum_below st lt q');
            lt_within = max_nonneg lt;
            total = +ℤ_zero _;
          })
  ]
  | inr (p, q) ↦ elim (sign_cases lt) [
    | inl (p', q') ↦
        rw (p, q, q', +ℤ_comm lt st)
          (record {
            st_nonneg = omega arith;
            lt_nonneg = max_nonneg (st +ℤ lt);
            st_within = max_nonneg st;
            lt_within = max_mono (st +ℤ lt) lt (rw (+ℤ_comm st lt) (sum_below lt st q));
            total = zero_+ℤ _;
          })
    | inr (p', q') ↦
        rw (p, q, q')
          (record {
            st_nonneg = omega arith;
            lt_nonneg = omega arith;
            st_within = max_nonneg st;
            lt_within = max_nonneg lt;
            total = max_of_neg (st +ℤ lt) (both_neg st lt q q');
          })
  ]
]
