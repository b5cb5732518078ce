-- ===== src/Cache/Effect.antt =====
-- What each call of a caller of `cached` (api/services/compute_cache.py) does to the entry and to the lock,
-- by what diskcache documents.
use metron.Prelude.{ℕ, ◌+◌, ◌≤◌, String, Bool, true, false, Option, none, some}
use metron.Prelude.{◌≡◌, refl, sym, ap, subst, ◌∙◌, ◌⊎◌, inl, inr, arith, Option-cases}
use metron.Prelude.{List, [], ◌∷◌, All, sum_of, if◌then◌else◌}
use metron.Prelude.Int.{ℤ}
use metron.Prelude.Result.{Result, ok, raised}
use metron.Cache.Flight.{DiskCache, Phase, bound_unexpiring_lock, advance}

abbrev pub is_some : {A : Type 0} → Option A → Bool
is_some none = false
is_some (some a) = true

-- What diskcache documents of the calls, for one key and its lock: an entry is read back, a lock is a
-- key that only one attempt can add, and neither call touches the other key.
pub record IsCache {S V : Type 0} (c : DiskCache S V) (key lock_key : String) : Type 0 where
  pub get-set : (v : V) (t : ℤ) (s : S) → c.get key (c.set key v t s) ≡ some v
  pub get-touch : (t : ℤ) (s : S) → c.get key (c.touch lock_key t s) ≡ c.get key s
  pub get-release : (s : S) → c.get key (c.release lock_key s) ≡ c.get key s
  pub get-acquire :
      (t : ℤ) (s s' : S) → c.acquire lock_key t s ≡ some s' → c.get key s' ≡ c.get key s
  pub set_lock :
      (v : V) (t : ℤ) (s : S)
      → is_some (c.expire_time lock_key (c.set key v t s)) ≡ is_some (c.expire_time lock_key s)
  pub touch_lock :
      (t : ℤ) (s : S)
      → is_some (c.expire_time lock_key (c.touch lock_key t s)) ≡ is_some (c.expire_time lock_key s)
  pub release_lock : (s : S) → is_some (c.expire_time lock_key (c.release lock_key s)) ≡ false
  pub acquire_taken :
      (t : ℤ) (s s' : S)
      → c.acquire lock_key t s ≡ some s'
      → is_some (c.expire_time lock_key s') ≡ true
  pub acquire_free :
      (t : ℤ) (s : S)
      → is_some (c.acquire lock_key t s) ≡ true
      → is_some (c.expire_time lock_key s) ≡ false
  pub free_acquire :
      (t : ℤ) (s : S)
      → is_some (c.expire_time lock_key s) ≡ false
      → is_some (c.acquire lock_key t s) ≡ true

module _ {E V : Type 0} where
  -- Between taking the lock and releasing it.
  abbrev pub is_inside : Phase E V → ℕ
  is_inside Phase.locked = 1
  is_inside Phase.computing = 1
  is_inside (Phase.computed v) = 1
  is_inside (Phase.leaving r) = 1
  is_inside p = 0

  abbrev pub AgreesResult : Option V → Result E V → Type 0
  AgreesResult entry (ok v) = entry ≡ some v
  AgreesResult entry (raised e) = Unit

  -- A caller computes only where there is no entry, and what it answers is the entry.
  abbrev pub Agrees : Option V → Phase E V → Type 0
  Agrees entry Phase.computing = entry ≡ none
  Agrees entry (Phase.computed v) = entry ≡ none
  Agrees entry (Phase.leaving r) = AgreesResult entry r
  Agrees entry (Phase.answered r) = AgreesResult entry r
  Agrees entry p = Unit

  AgreesResult-new : (v : V) (r : Result E V) → AgreesResult none r → AgreesResult (some v) r
  AgreesResult-new v (ok w) h = absurd (ground arith)
  AgreesResult-new v (raised e) h = tt

  -- An entry that comes is no surprise to a caller outside.
  Agrees-new : (v : V) (p : Phase E V) → is_inside p ≡ 0 → Agrees none p → Agrees (some v) p
  Agrees-new v Phase.asked i h = tt
  Agrees-new v Phase.missed i h = tt
  Agrees-new v Phase.waiting i h = tt
  Agrees-new v Phase.locked i h = tt
  Agrees-new v Phase.computing i h = absurd (ground arith)
  Agrees-new v (Phase.computed w) i h = absurd (ground arith)
  Agrees-new v (Phase.leaving r) i h = AgreesResult-new v r h
  Agrees-new v (Phase.answered r) i h = AgreesResult-new v r h

  pub All-Agrees-new :
      (v : V) (ps : List (Phase E V))
      → sum_of is_inside ps ≡ 0
      → All (Agrees none) ps
      → All (Agrees (some v)) ps
  All-Agrees-new v [] i h = tt
  All-Agrees-new v (p ∷ ps) i h =
      (Agrees-new v p (omega arith) h.0, All-Agrees-new v ps (omega arith) h.1)

abbrev pub count : Bool → ℕ
count b = if b then 1 else 0

count_full : (b : Bool) → 1 ≤ count b → count b ≡ 1
count_full true h = refl
count_full false h = absurd (ground arith)

pub count_bound : (b : Bool) → count b ≤ 1
count_bound true = omega arith
count_bound false = omega arith

abbrev pub Fits {ℓ} : {A : Type 0} → (A → Type ℓ) → Option A → Type ℓ
Fits P none = Unit
Fits P (some a) = P a

module _ {S V : Type 0} (c : DiskCache S V) (lock_key : String) where
  abbrev pub taken : S → ℕ
  taken s = count (is_some (c.expire_time lock_key s))

  module _ (lock_expire : ℤ) (key : String) (laws : IsCache c key lock_key) where
    bound_entry : (s : S) → c.get key (bound_unexpiring_lock c lock_expire lock_key s) ≡ c.get key s
    unfolding bound_unexpiring_lock
    bound_entry s = elim (Option-cases (c.expire_time lock_key s)) [
      | inl e ↦ rw (bound_unexpiring_lock, e)
      | inr (x, e) ↦ elim (Option-cases x) [
        | inl d ↦ rw (bound_unexpiring_lock, e, d) (laws.get-touch lock_expire s)
        | inr (t, d) ↦ rw (bound_unexpiring_lock, e, d) refl
      ]
    ]

    bound_lock : (s : S) → taken (bound_unexpiring_lock c lock_expire lock_key s) ≡ taken s
    unfolding bound_unexpiring_lock
    bound_lock s = elim (Option-cases (c.expire_time lock_key s)) [
      | inl e ↦ rw (bound_unexpiring_lock, e) (ap count (ap is_some e))
      | inr (x, e) ↦ elim (Option-cases x) [
        | inl d ↦
            rw (bound_unexpiring_lock, e, d)
              (ap count (laws.touch_lock lock_expire s ∙ ap is_some e))
        | inr (t, d) ↦ rw (bound_unexpiring_lock, e, d) (ap count (ap is_some e))
      ]
    ]

module _ {S E V : Type 0} (c : DiskCache S V) (ttl lock_expire : ℤ) (key lock_key : String)
    (laws : IsCache c key lock_key) where
  -- What one call does to the entry and to the lock.
  pub record Effect (s : S) (p : Phase E V) (next : S × Phase E V) : Type 0 where
    pub agrees : Agrees (c.get key next.0) next.1
    pub lock : taken c lock_key next.0 + is_inside p ≡ taken c lock_key s + is_inside next.1
    pub entry :
        (c.get key next.0 ≡ c.get key s)
        ⊎ ((v : V) × ((c.get key next.0 ≡ some v) × ((c.get key s ≡ none) × (is_inside p ≡ 1))))

  pub advance-Effect :
      (r : Result E V) (s : S) (p : Phase E V)
      → Agrees (c.get key s) p
      → is_inside p ≤ taken c lock_key s
      → Fits (Effect s p) (advance c ttl lock_expire key lock_key r s p)
  unfolding advance
  advance-Effect r s Phase.asked h i = elim (Option-cases (c.get key s)) [
    | inl e ↦ rw (Fits, e) (record { agrees = tt; lock = refl; entry = inl refl })
    | inr (v, e) ↦ rw (Fits, e) (record { agrees = e; lock = refl; entry = inl refl })
  ]
  advance-Effect r s Phase.missed h i = record {
    agrees = tt;
    lock = ap (λ (n : ℕ). n + 0) (bound_lock c lock_key lock_expire key laws s);
    entry = inl (bound_entry c lock_key lock_expire key laws s);
  }
  advance-Effect r s Phase.waiting h i = elim (Option-cases (c.acquire lock_key lock_expire s)) [
    | inl e ↦ rw (Fits, e) tt
    | inr (s', e) ↦
        let free = laws.acquire_free lock_expire s (rw e refl) in
        rw (Fits, e)
          (record {
            agrees = tt;
            lock = rw (laws.acquire_taken lock_expire s s' e, free) refl;
            entry = inl (laws.get-acquire lock_expire s s' e);
          })
  ]
  advance-Effect r s Phase.locked h i = elim (Option-cases (c.get key s)) [
    | inl e ↦ rw (Fits, e) (record { agrees = e; lock = refl; entry = inl refl })
    | inr (v, e) ↦ rw (Fits, e) (record { agrees = e; lock = refl; entry = inl refl })
  ]
  advance-Effect (ok v) s Phase.computing h i = record { agrees = h; lock = refl; entry = inl refl }
  advance-Effect (raised e) s Phase.computing h i = record {
    agrees = tt;
    lock = refl;
    entry = inl refl;
  }
  advance-Effect r s (Phase.computed v) h i = record {
    agrees = laws.get-set v ttl s;
    lock = ap (λ (b : Bool). count b + 1) (laws.set_lock v ttl s);
    entry = inr (v, (laws.get-set v ttl s, (h, refl)));
  }
  advance-Effect r s (Phase.leaving r') h i = record {
    agrees = subst (λ (o : Option V). AgreesResult o r') (sym (laws.get-release s)) h;
    lock = rw (laws.release_lock s, count_full _ i) refl;
    entry = inl (laws.get-release s);
  }
  advance-Effect r s (Phase.answered r') h i = tt
