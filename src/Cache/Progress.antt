-- ===== src/Cache/Progress.antt =====
-- Workers that run `cached` of api/services/compute_cache.py side by side: the calls
-- that each has left.
use metron.Prelude.{ℕ, zero, suc, ◌<◌, ◌≤◌, String, Bool, true, false, some, ◌≡◌, refl}
use metron.Prelude.{sym, subst, ap, ◌∙◌, ◌⊎◌, inl, inr, arith, Option-cases, Bool-cases}
use metron.Prelude.{List, [], ◌∷◌, ◌++◌, All, ltb, sum_of, sum_of-append}
use metron.Prelude.Int.{ℤ}
use metron.Prelude.Result.{Result, ok, raised}
use metron.Cache.Flight.{DiskCache, Phase, advance, World, Step, Reaches, fresh}
use metron.Cache.Effect.{IsCache, is_inside, is_some, taken, count}
use metron.Cache.Coherent.{IsCoherent, Step-IsCoherent, Reaches-IsCoherent}

module _ {E V : Type 0} where
  -- The calls of the store and of `compute` that are left at most.
  abbrev pub calls_left : Phase E V → ℕ
  calls_left Phase.asked = 7
  calls_left Phase.missed = 6
  calls_left Phase.waiting = 5
  calls_left Phase.locked = 4
  calls_left Phase.computing = 3
  calls_left (Phase.computed v) = 2
  calls_left (Phase.leaving r) = 1
  calls_left (Phase.answered r) = 0

  abbrev pub IsAnswered : Phase E V → Type 0
  IsAnswered p = calls_left p ≡ 0

  inside-calls_left : (p : Phase E V) → is_inside p ≤ calls_left p
  inside-calls_left Phase.asked = omega arith
  inside-calls_left Phase.missed = omega arith
  inside-calls_left Phase.waiting = omega arith
  inside-calls_left Phase.locked = omega arith
  inside-calls_left Phase.computing = omega arith
  inside-calls_left (Phase.computed v) = omega arith
  inside-calls_left (Phase.leaving r) = omega arith
  inside-calls_left (Phase.answered r) = omega arith

-- An item that counts, where the sum does.
record Found {A : Type 0} (f : A → ℕ) (xs : List A) : Type 0 where
  before : List A
  item : A
  after : List A
  split : xs ≡ before ++ item ∷ after
  counts : 0 < f item

find : {A : Type 0} (f : A → ℕ) (xs : List A) → 0 < sum_of f xs → Found f xs
find f [] h = absurd (ground arith)
find f (x ∷ xs) h = elim (Bool-cases (ltb 0 (f x))) [
  | inl e ↦ record { before = []; item = x; after = xs; split = refl; counts = ground arith }
  | inr e ↦
      let rest = find f xs (ground arith) in
      record {
        before = x ∷ rest.before;
        item = rest.item;
        after = rest.after;
        split = ap (x ∷◌) rest.split;
        counts = rest.counts;
      }
]

count_none : (b : Bool) → count b ≡ 0 → b ≡ false
count_none true h = absurd (ground arith)
count_none false h = refl

module _ {S E V : Type 0} (c : DiskCache S V) (ttl lock_expire : ℤ) (key lock_key : String) where
  compute_can :
      (outcome : Result E V) (s : S)
      → (next : S × Phase E V) × ((advance c ttl lock_expire key lock_key outcome s Phase.computing
            ≡ some next)
          × (calls_left next.1 < 3))
  unfolding advance
  compute_can (ok v) s = ((s, Phase.computed v), (refl, omega arith))
  compute_can (raised e) s = ((s, Phase.leaving (raised e)), (refl, omega arith))

module _ {S E V : Type 0} (c : DiskCache S V) (ttl lock_expire : ℤ) (key lock_key : String)
    (laws : IsCache c key lock_key) (outcome : Result E V) where
  -- A call that leaves fewer.
  abbrev Advances : S → Phase E V → Type 0
  Advances s p =
      (next : S × Phase E V) × ((advance c ttl lock_expire key lock_key outcome s p ≡ some next)
        × (calls_left next.1 < calls_left p))

  advance_can :
      (s : S) (p : Phase E V)
      → 0 < calls_left p
      → (taken c lock_key s ≡ 0) ⊎ (0 < is_inside p)
      → Advances s p
  unfolding advance
  advance_can s Phase.asked h free = elim (Option-cases (c.get key s)) [
    | inl e ↦ ((s, Phase.missed), (rw (advance, e) refl, omega arith))
    | inr (v, e) ↦ ((s, Phase.answered (ok v)), (rw (advance, e) refl, omega arith))
  ]
  advance_can s Phase.missed h free = (_, (refl, omega arith))
  advance_can s Phase.waiting h (inr i) = absurd (ground arith)
  advance_can s Phase.waiting h (inl free) =
      elim (Option-cases (c.acquire lock_key lock_expire s)) [
        | inl e ↦
            let gets = laws.free_acquire lock_expire s (count_none _ free) in
            let never = (rw e at gets) in absurd (ground arith)
        | inr (s', e) ↦ ((s', Phase.locked), (rw (advance, e) refl, omega arith))
      ]
  advance_can s Phase.locked h free = elim (Option-cases (c.get key s)) [
    | inl e ↦ ((s, Phase.computing), (rw (advance, e) refl, omega arith))
    | inr (v, e) ↦ ((s, Phase.leaving (ok v)), (rw (advance, e) refl, omega arith))
  ]
  advance_can s Phase.computing h free = compute_can c ttl lock_expire key lock_key outcome s
  advance_can s (Phase.computed v) h free = (_, (refl, omega arith))
  advance_can s (Phase.leaving r) h free = (_, (refl, omega arith))
  advance_can s (Phase.answered r) h free = absurd (ground arith)

  abbrev pub Runs : World S E V → World S E V → Type 0
  Runs x y = Reaches c ttl lock_expire key lock_key x y

  -- There is a step that leaves fewer calls.
  abbrev Continues : World S E V → Type 0
  Continues w =
      (y : World S E V) × (Step c ttl lock_expire key lock_key w y
        × (sum_of calls_left y.1 < sum_of calls_left w.1))

  Found-Continues :
      (s : S) (ps : List (Phase E V)) (f : Phase E V → ℕ) (found : Found f ps)
      → Advances s found.item
      → Continues (s, ps)
  Found-Continues s ps f found next =
      let old = sum_of-append calls_left found.before (found.item ∷ found.after) in
      let new = sum_of-append calls_left found.before (next.0.1 ∷ found.after) in
      let less = next.1.1 in
      subst (λ (qs : List (Phase E V)). Continues (s, qs)) (sym found.split)
        (_, (Step.moves outcome s found.before found.after found.item next.0 next.1.0, omega arith))

  IsCoherent-Continues :
      (w : World S E V)
      → IsCoherent c ttl lock_expire key lock_key laws w
      → 0 < sum_of calls_left w.1
      → Continues w
  IsCoherent-Continues (s, ps) h some_left =
      elim (Bool-cases (is_some (c.expire_time lock_key s))) [
        | inl e ↦
            let lock = h.lock in
            let full : sum_of is_inside ps ≡ 1 = lock ∙ ap count e in
            let found = find is_inside ps (omega arith) in
            let more = inside-calls_left found.item in
            let counts = found.counts in
            let unanswered : 0 < calls_left found.item = omega arith in
            Found-Continues s ps is_inside found (advance_can s found.item unanswered (inr counts))
        | inr e ↦
            let found = find calls_left ps some_left in
            Found-Continues s ps calls_left found
              (advance_can s found.item found.counts (inl (ap count e)))
      ]

  Runs-trans : {x y z : World S E V} → Runs x y → Runs y z → Runs x z
  Runs-trans r Reaches.here = r
  Runs-trans r (Reaches.then q step) = Reaches.then (Runs-trans r q) step

  all-IsAnswered : (ps : List (Phase E V)) → sum_of calls_left ps ≡ 0 → All IsAnswered ps
  all-IsAnswered [] h = tt
  all-IsAnswered (p ∷ ps) h = (omega arith, all-IsAnswered ps (omega arith))

  -- On fuel, one for each call that is left.
  IsCoherent-ends :
      (fuel : ℕ) (w : World S E V)
      → IsCoherent c ttl lock_expire key lock_key laws w
      → sum_of calls_left w.1 ≤ fuel
      → (y : World S E V) × (Runs w y × All IsAnswered y.1)
  IsCoherent-ends zero w h bound = (w, (Reaches.here, all-IsAnswered w.1 (omega arith)))
  IsCoherent-ends (suc fuel) w h bound = elim (Bool-cases (ltb 0 (sum_of calls_left w.1))) [
    | inl e ↦
        let (y, (step, less)) = IsCoherent-Continues w h (ground arith) in
        let coherent = Step-IsCoherent c ttl lock_expire key lock_key laws step h in
        let (z, (run, done)) = IsCoherent-ends fuel y coherent (omega arith) in
        (z, (Runs-trans (Reaches.then Reaches.here step) run, done))
    | inr e ↦ (w, (Reaches.here, all-IsAnswered w.1 (ground arith)))
  ]

  -- Any number of callers of one key, where the lock is free at first: wherever their turns have
  -- brought them, there is a run from there on after which every caller has its answer, be it that
  -- each `compute` that still runs returns a value or that it raises.
  pub Reaches-IsAnswered :
      (s : S) (n : ℕ) (w : World S E V)
      → taken c lock_key s ≡ 0
      → Runs (s, fresh n) w
      → (y : World S E V) × (Runs w y × All IsAnswered y.1)
  Reaches-IsAnswered s n w h r =
      IsCoherent-ends (sum_of calls_left w.1) w
        (Reaches-IsCoherent c ttl lock_expire key lock_key laws s n h r) (omega arith)
