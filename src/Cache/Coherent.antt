-- ===== src/Cache/Coherent.antt =====
-- Workers that run `cached` of api/services/compute_cache.py side by side: what holds at every moment.
use metron.Prelude.{ℕ, zero, suc, ◌+◌, ◌≤◌, String, Option, ◌≡◌, sym, subst, inl, inr, arith}
use metron.Prelude.{List, ◌∷◌, ◌++◌, All, All-append, All-left, All-right, sum_of, sum_of-append}
use metron.Prelude.Int.{ℤ}
use metron.Cache.Flight.{DiskCache, Phase, World, Step, Reaches, fresh}
use metron.Cache.Effect.{
  IsCache, Agrees, is_inside, is_some, taken, count_bound, Fits, Effect, advance-Effect,
  All-Agrees-new,
}

module _ {S E V : Type 0} (c : DiskCache S V) (ttl lock_expire : ℤ) (key lock_key : String)
    (laws : IsCache c key lock_key) where
  -- One caller at most is between taking the lock and releasing it, and it is there while the lock
  -- is taken; who computes, finds no entry; who has an answer, has the entry or what `compute` raised.
  pub record IsCoherent (w : World S E V) : Type 0 where
    pub lock : sum_of is_inside w.1 ≡ taken c lock_key w.0
    pub agrees : All (Agrees (c.get key w.0)) w.1

  Agrees-others :
      (s : S) (p : Phase E V) (next : S × Phase E V) (others : List (Phase E V))
      → Effect c ttl lock_expire key lock_key laws s p next
      → is_inside p + sum_of is_inside others ≤ 1
      → All (Agrees (c.get key s)) others
      → All (Agrees (c.get key next.0)) others
  Agrees-others s p next others effect alone h = elim (effect.entry) [
    | inl same ↦ subst (λ (o : Option V). All (Agrees o) others) (sym same) h
    | inr (v, (new, (old, inside))) ↦
        subst (λ (o : Option V). All (Agrees o) others) (sym new)
          (All-Agrees-new v others (omega arith)
            (subst (λ (o : Option V). All (Agrees o) others) old h))
  ]

  moves-IsCoherent :
      (s : S) (before after : List (Phase E V)) (p : Phase E V) (next : S × Phase E V)
      → (is_inside p ≤ taken c lock_key s → Effect c ttl lock_expire key lock_key laws s p next)
      → IsCoherent (s, before ++ p ∷ after)
      → IsCoherent (next.0, before ++ next.1 ∷ after)
  moves-IsCoherent s before after p next step h =
      let old = sum_of-append is_inside before (p ∷ after) in
      let new = sum_of-append is_inside before (next.1 ∷ after) in
      let bound = count_bound (is_some (c.expire_time lock_key s)) in
      let total = h.lock in
      let effect = step (omega arith) in
      let lock = effect.lock in
      let left = All-left (Agrees (c.get key s)) before (p ∷ after) h.agrees in
      let right = All-right (Agrees (c.get key s)) before (p ∷ after) h.agrees in
      record {
        lock = omega arith;
        agrees =
            All-append (Agrees (c.get key next.0)) before (next.1 ∷ after)
              (Agrees-others s p next before effect (omega arith) left)
              (effect.agrees, Agrees-others s p next after effect (omega arith) right.1);
      }

  pub Step-IsCoherent :
      {x y : World S E V} → Step c ttl lock_expire key lock_key x y → IsCoherent x → IsCoherent y
  Step-IsCoherent (Step.moves outcome s before after p next e) h =
      let here = (All-right (Agrees (c.get key s)) before (p ∷ after) h.agrees).0 in
      moves-IsCoherent s before after p next
        (λ i.
          subst (Fits (Effect c ttl lock_expire key lock_key laws s p)) e
            (advance-Effect c ttl lock_expire key lock_key laws outcome s p here i))
        h

  pub fresh-IsCoherent : (s : S) (n : ℕ) → taken c lock_key s ≡ 0 → IsCoherent (s, fresh n)
  fresh-IsCoherent s zero h = record { lock = sym h; agrees = tt }
  fresh-IsCoherent s (suc n) h =
      let rest = fresh-IsCoherent s n h in
      record { lock = omega (arith, rest.lock); agrees = (tt, rest.agrees) }

  -- Any number of callers of one key, whatever their turns, where the lock is free at first: one at
  -- most computes or stores at a time and only while there is no entry, and every caller that gets a
  -- value gets the one that is stored under the key, so all get the same.
  pub Reaches-IsCoherent :
      (s : S) (n : ℕ) {w : World S E V}
      → taken c lock_key s ≡ 0
      → Reaches c ttl lock_expire key lock_key (s, fresh n) w
      → IsCoherent w
  Reaches-IsCoherent s n h Reaches.here = fresh-IsCoherent s n h
  Reaches-IsCoherent s n h (Reaches.then r step) = Step-IsCoherent step (Reaches-IsCoherent s n h r)
