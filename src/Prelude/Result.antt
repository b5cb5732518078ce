-- ===== src/Prelude/Result.antt =====
-- A Python function that may raise an exception of type `E`.
use mathlib.Core.Bool.{Bool, true, false}

pub data Result {ℓ κ} (E : Type ℓ) (A : Type κ) : Type (ℓ ⊔ κ) where
  ok : A → Result E A
  raised : E → Result E A

module _ {ℓ κ} {E : Type ℓ} {A : Type κ} where
  infixl 5 ◌>>=◌ ◌>>◌
  abbrev pub ◌>>=◌ {μ} : {B : Type μ} → Result E A → (A → Result E B) → Result E B
  ok a >>= f = f a
  raised e >>= f = raised e

  abbrev pub ◌>>◌ {μ} : {B : Type μ} → Result E A → Result E B → Result E B
  m >> k = m >>= λ _. k

-- `if test: raise e`
abbrev pub raise_if {ℓ} : {E : Type ℓ} → Bool → E → Result E (Unit {0})
raise_if true e = raised e
raise_if false e = ok tt

-- What holds of the value that a function returns, if it does not raise.
abbrev pub Ensures {ℓ κ μ} : {E : Type ℓ} {A : Type κ} → (A → Type μ) → Result E A → Type μ
Ensures P (ok a) = P a
Ensures P (raised e) = Unit

pub Ensures-bind {ℓ κ μ ν ξ} :
    {E : Type ℓ} {A : Type κ} {B : Type μ} (P : A → Type ν) (Q : B → Type ξ) (m : Result E A)
    (k : A → Result E B)
    → Ensures P m
    → ((a : A) → P a → Ensures Q (k a))
    → Ensures Q (m >>= k)
Ensures-bind P Q (ok a) k h step = step a h
Ensures-bind P Q (raised e) k h step = tt

pub Ensures-weaken {ℓ κ μ ν} :
    {E : Type ℓ} {A : Type κ} (P : A → Type μ) (Q : A → Type ν) (m : Result E A)
    → ((a : A) → P a → Q a)
    → Ensures P m
    → Ensures Q m
Ensures-weaken P Q (ok a) h p = h a p
Ensures-weaken P Q (raised e) h p = tt

-- A check that may raise leaves to be shown what holds after it.
pub Ensures-unless {ℓ κ μ} :
    {E : Type ℓ} {A : Type κ} (P : A → Type μ) (test : Bool) (e : E) (m : Result E A)
    → Ensures P m
    → Ensures P (raise_if test e >> m)
Ensures-unless P true e m h = tt
Ensures-unless P false e m h = h

pub Ensures-any {ℓ κ μ ν} :
    {E : Type ℓ} {A : Type κ} {B : Type μ} (P : B → Type ν) (m : Result E A) (k : A → B)
    → ((a : A) → P (k a))
    → Ensures P (m >>= λ a. ok (k a))
Ensures-any P (ok a) k h = h a
Ensures-any P (raised e) k h = tt
