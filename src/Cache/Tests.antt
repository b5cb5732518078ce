-- ===== src/Cache/Tests.antt =====
-- Two workers at one key of a small store, and the theorems at them.
use metron.Prelude.{ℕ, String, ◌≡◌, refl, sym, Option, none, some, [], ◌∷◌, All, true, false}
use metron.Prelude.Int.{ℤ, pos}
use metron.Prelude.Result.{Result, ok}
use metron.Cache.Flight.{
  DiskCache, Phase, World, Step, Reaches, advance, bound_unexpiring_lock, fresh,
}
use metron.Cache.Effect.{IsCache, is_some}
use metron.Cache.Coherent.{IsCoherent, Reaches-IsCoherent}
use metron.Cache.Progress.{IsAnswered, Reaches-IsAnswered}

-- The one entry, and the expiry of the one lock if it is there.
abbrev Shelf : Type 0
Shelf = Option ℕ × Option (Option ℤ)

abbrev take_lock : ℤ → Shelf → Option Shelf
take_lock t (e, none) = some (e, some (some t))
take_lock t (e, some x) = none

abbrev with_expiry : ℤ → Option (Option ℤ) → Option (Option ℤ)
with_expiry t none = none
with_expiry t (some x) = some (some t)

abbrev shelf : DiskCache Shelf ℕ
shelf = record {
  get = λ k s. s.0;
  set = λ k v t s. (some v, s.1);
  expire_time = λ k s. s.1;
  touch = λ k t s. (s.0, with_expiry t (s.1));
  acquire = λ k t s. take_lock t s;
  release = λ k s. (s.0, none);
}

touch_kept : (t : ℤ) (x : Option (Option ℤ)) → is_some (with_expiry t x) ≡ is_some x
touch_kept t none = refl
touch_kept t (some x) = refl

take_lock_entry : (t : ℤ) (s s' : Shelf) → take_lock t s ≡ some s' → s'.0 ≡ s.0
take_lock_entry t (e, none) s' h = cc
take_lock_entry t (e, some x) s' h = cc

take_lock_taken : (t : ℤ) (s s' : Shelf) → take_lock t s ≡ some s' → is_some (s'.1) ≡ true
take_lock_taken t (e, none) s' h = let taken : s'.1 ≡ some (some t) = cc in rw taken
take_lock_taken t (e, some x) s' h = cc

take_lock_free : (t : ℤ) (s : Shelf) → is_some (take_lock t s) ≡ true → is_some (s.1) ≡ false
take_lock_free t (e, none) h = refl
take_lock_free t (e, some x) h = sym h

free_take_lock : (t : ℤ) (s : Shelf) → is_some (s.1) ≡ false → is_some (take_lock t s) ≡ true
free_take_lock t (e, none) h = refl
free_take_lock t (e, some x) h = sym h

shelf-IsCache : IsCache shelf "nav" "lck:nav"
shelf-IsCache = record {
  get-set = λ v t s. refl;
  get-touch = λ t s. refl;
  get-release = λ s. refl;
  get-acquire = take_lock_entry;
  set_lock = λ v t s. refl;
  touch_lock = λ t s. touch_kept t (s.1);
  release_lock = λ s. refl;
  acquire_taken = take_lock_taken;
  acquire_free = take_lock_free;
  free_acquire = free_take_lock;
}

abbrev Run : World Shelf String ℕ → World Shelf String ℕ → Type 0
Run x y = Reaches shelf (pos 300) (pos 120) "nav" "lck:nav" x y

-- Both miss; the first takes the lock and computes seven.
abbrev seven : Result String ℕ
seven = ok 7

abbrev start : World Shelf String ℕ
start = ((none, none), fresh 2)

abbrev later : World Shelf String ℕ
later = ((none, some (some (pos 120))), Phase.computed 7 ∷ Phase.missed ∷ [])

turns : Run start later
unfolding advance bound_unexpiring_lock
turns =
    Reaches.then
      (Reaches.then
        (Reaches.then
          (Reaches.then
            (Reaches.then
              (Reaches.then Reaches.here
                (Step.moves seven (none, none) [] (Phase.asked ∷ []) Phase.asked _ refl))
              (Step.moves seven (none, none) (Phase.missed ∷ []) [] Phase.asked _ refl))
            (Step.moves seven (none, none) [] (Phase.missed ∷ []) Phase.missed _ refl))
          (Step.moves seven (none, none) [] (Phase.missed ∷ []) Phase.waiting _ refl))
        (Step.moves seven (none, some (some (pos 120))) [] (Phase.missed ∷ []) Phase.locked _ refl))
      (Step.moves seven (none, some (some (pos 120))) [] (Phase.missed ∷ []) Phase.computing _ refl)

-- Meanwhile the second waits.
blocked :
    advance shelf
      (pos 300)
      (pos 120)
      "nav"
      "lck:nav"
      seven
      (none, some (some (pos 120)))
      Phase.waiting
    ≡ none
unfolding advance
blocked = refl

Reaches-IsCoherent_example :
    IsCoherent {E = String} shelf (pos 300) (pos 120) "nav" "lck:nav" shelf-IsCache later
Reaches-IsCoherent_example =
    Reaches-IsCoherent shelf (pos 300) (pos 120) "nav" "lck:nav" shelf-IsCache (none, none) 2 refl
      turns

Reaches-IsAnswered_example : (y : World Shelf String ℕ) × (Run later y × All IsAnswered y.1)
Reaches-IsAnswered_example =
    Reaches-IsAnswered shelf (pos 300) (pos 120) "nav" "lck:nav" shelf-IsCache seven (none, none) 2
      later refl turns
