-- ===== src/Cache/Flight.antt =====
-- `cached` of api/services/compute_cache.py, one call of the store at a time, and the workers that run
-- it side by side for one key. The store is diskcache's, a parameter. A run is one in which
-- neither the entry nor the lock expires: each has its expiry so that an entry or a lock that was
-- left behind goes away.
use metron.Prelude.{ℕ, zero, suc, String, Option, none, some, ◌≡◌}
use metron.Prelude.{List, [], ◌∷◌, ◌++◌}
use metron.Prelude.Int.{ℤ}
use metron.Prelude.Result.{Result, ok, raised}

-- The calls of `diskcache.Cache` and `diskcache.Lock` that the code makes: `get`, `set` with an
-- expiry, the expiry of a key that is there, `touch`, one attempt of a lock to be taken, and its
-- release.
pub record DiskCache (S V : Type 0) : Type 0 where
  pub get : String → S → Option V
  pub set : String → V → ℤ → S → S
  pub expire_time : String → S → Option (Option ℤ)
  pub touch : String → ℤ → S → S
  pub acquire : String → ℤ → S → Option S
  pub release : String → S → S

-- Where a caller stands in `cached`.
pub data Phase (E V : Type 0) : Type 0 where
  asked missed waiting locked computing : Phase E V
  computed : V → Phase E V
  leaving answered : Result E V → Phase E V

-- The store, and the callers.
abbrev pub World : Type 0 → Type 0 → Type 0 → Type 0
World S E V = S × List (Phase E V)

module _ {S V : Type 0} (c : DiskCache S V) (lock_expire : ℤ) (lock_key : String) where
  -- `_bound_unexpiring_lock`. Its calls are one step: what others do between them changes nothing,
  -- since a key that is gone is not touched, and one that this code added has its expiry.
  unfoldable pub bound_unexpiring_lock : S → S
  bound_unexpiring_lock s = elim (c.expire_time lock_key s) [
    | none ↦ s
    | some expiry ↦ elim expiry [ none ↦ c.touch lock_key lock_expire s | some t ↦ s ]
  ]

module _ {S E V : Type 0} (c : DiskCache S V) (ttl lock_expire : ℤ) (key lock_key : String) where
  -- The next call of a caller; `outcome` is what `compute()` does, if it is that call. There is
  -- none for a caller that has its answer, or that waits for a lock which is taken.
  unfoldable pub advance : Result E V → S → Phase E V → Option (S × Phase E V)
  unfolding bound_unexpiring_lock
  advance outcome s Phase.asked = elim (c.get key s) [
    | none ↦ some (s, Phase.missed)
    | some v ↦ some (s, Phase.answered (ok v))
  ]
  advance outcome s Phase.missed =
      some (bound_unexpiring_lock c lock_expire lock_key s, Phase.waiting)
  advance outcome s Phase.waiting = elim (c.acquire lock_key lock_expire s) [
    | none ↦ none
    | some s' ↦ some (s', Phase.locked)
  ]
  advance outcome s Phase.locked = elim (c.get key s) [
    | none ↦ some (s, Phase.computing)
    | some v ↦ some (s, Phase.leaving (ok v))
  ]
  advance outcome s Phase.computing = elim outcome [
    | ok v ↦ some (s, Phase.computed v)
    | raised e ↦ some (s, Phase.leaving (raised e))
  ]
  advance outcome s (Phase.computed v) = some (c.set key v ttl s, Phase.leaving (ok v))
  advance outcome s (Phase.leaving r) = some (c.release lock_key s, Phase.answered r)
  advance outcome s (Phase.answered r) = none

  pub data Step : World S E V → World S E V → Type 0 where
    moves :
        (outcome : Result E V) (s : S) (before after : List (Phase E V)) (p : Phase E V)
        (next : S × Phase E V)
        → advance outcome s p ≡ some next
        → Step (s, before ++ p ∷ after) (next.0, before ++ next.1 ∷ after)

  pub data Reaches (w : World S E V) : World S E V → Type 0 where
    here : Reaches w w
    then : {x y : World S E V} → Reaches w x → Step x y → Reaches w y

-- Callers that have only asked.
abbrev pub fresh : {E V : Type 0} → ℕ → List (Phase E V)
fresh zero = []
fresh (suc n) = Phase.asked ∷ fresh n
