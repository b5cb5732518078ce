-- ===== src/Store/Valid.antt =====
-- What `merge` (portfolio_analytics/ingestion/store.py) keeps true of the store.
use metron.Prelude.{
  ℕ, ◌≡◌, refl, Option, none, some, String, List, [], ◌∷◌, All, All-append, Bool-cases, inl, inr,
}
use metron.Prelude.Dict.{Dict, get_or, insert, Entries, Entries-insert, Entries-get_or}
use metron.Prelude.Keys.{
  AreDistinct, IsKeyed, insert-IsKeyed, setdefault-IsKeyed, remove-IsKeyed, insert-AreDistinct,
  holds, setdefault,
}
use metron.Store.Records.{
  Printed, CanonicalHolding, CanonicalActivity, CanonicalStore, activity_key, legacy_activity_key,
  lot_key,
}
use metron.Store.Merge.{
  Snapshot, upsert_all, union_all, account_key, security_key, add_holding, add_holdings,
  empty_groups, replace_holdings, replace_set, upgraded, add_activity, add_activities, merge,
}

abbrev pub AreOf : String → List CanonicalHolding → Type 0
AreOf n hs = All (λ h. h.account_number ≡ n) hs

-- Each record stands under its own key and each key once; the holdings under a number are those of
-- that account.
pub record IsStore ⦃p : Printed⦄ (s : CanonicalStore) : Type 0 where
  pub accounts : IsKeyed account_key s.accounts
  pub securities : IsKeyed security_key s.securities
  pub holdings : Entries AreOf s.holdings
  pub held_once : AreDistinct s.holdings
  pub activities : IsKeyed activity_key s.activities
  pub realized_lots : IsKeyed lot_key s.realized_lots

module _ {ℓ} {V : Type ℓ} (key : V → String) where
  upsert_all-IsKeyed :
      (d : Dict V) (vs : List V) → IsKeyed key d → IsKeyed key (upsert_all key d vs)
  upsert_all-IsKeyed d [] h = h
  upsert_all-IsKeyed d (v ∷ vs) h =
      upsert_all-IsKeyed (insert (key v) v d) vs (insert-IsKeyed key v d h)

  union_all-IsKeyed : (d : Dict V) (vs : List V) → IsKeyed key d → IsKeyed key (union_all key d vs)
  union_all-IsKeyed d [] h = h
  union_all-IsKeyed d (v ∷ vs) h =
      union_all-IsKeyed (setdefault (key v) v d) vs (setdefault-IsKeyed key v d h)

add_holdings-AreOf :
    (d : Dict (List CanonicalHolding)) (hs : List CanonicalHolding)
    → Entries AreOf d
    → Entries AreOf (add_holdings d hs)
add_holdings-AreOf d [] e = e
add_holdings-AreOf d (h ∷ hs) e =
    let n = h.account_number in
    add_holdings-AreOf (add_holding d h) hs (
      Entries-insert AreOf n _ d e (
        All-append (λ x. x.account_number ≡ n) (get_or n [] d) (h ∷ [])
          (Entries-get_or AreOf n [] d e tt) (refl, tt)))

empty_groups-AreOf : (ns : List String) → Entries AreOf (empty_groups ns)
empty_groups-AreOf [] = tt
empty_groups-AreOf (n ∷ ns) = (tt, empty_groups-AreOf ns)

module _ (grouped : Dict (List CanonicalHolding)) (g : Entries AreOf grouped) where
  replace_holdings-AreOf :
      (ns : List String) (d : Dict (List CanonicalHolding))
      → Entries AreOf d
      → Entries AreOf (replace_holdings grouped ns d)
  replace_holdings-AreOf [] d h = h
  replace_holdings-AreOf (n ∷ ns) d h =
      replace_holdings-AreOf ns (insert n (get_or n [] grouped) d)
        (Entries-insert AreOf n _ d h (Entries-get_or AreOf n [] grouped g tt))

replace_holdings-AreDistinct :
    (grouped : Dict (List CanonicalHolding)) (ns : List String) (d : Dict (List CanonicalHolding))
    → AreDistinct d
    → AreDistinct (replace_holdings grouped ns d)
replace_holdings-AreDistinct grouped [] d h = h
replace_holdings-AreDistinct grouped (n ∷ ns) d h =
    replace_holdings-AreDistinct grouped ns (insert n (get_or n [] grouped) d)
      (insert-AreDistinct n (get_or n [] grouped) d h)

module _ ⦃p : Printed⦄ where
  upgraded-IsKeyed :
      (key : String) (legacy : Option String) (d : Dict CanonicalActivity)
      → IsKeyed activity_key d
      → IsKeyed activity_key (upgraded key legacy d)
  upgraded-IsKeyed key none d h = h
  upgraded-IsKeyed key (some old) d h = elim (Bool-cases (holds key d)) [
    | inl e ↦ rw e h
    | inr e ↦ elim (Bool-cases (holds old d)) [
      | inl q ↦ rw (e, q) (remove-IsKeyed activity_key old d h)
      | inr q ↦ rw (e, q) h
    ]
  ]

  add_activities-IsKeyed :
      (d : Dict CanonicalActivity) (as' : List CanonicalActivity)
      → IsKeyed activity_key d
      → IsKeyed activity_key (add_activities d as')
  unfolding add_activity
  add_activities-IsKeyed d [] h = h
  add_activities-IsKeyed d (a ∷ as') h = add_activities-IsKeyed (add_activity d a) as' (
      setdefault-IsKeyed activity_key a _
        (upgraded-IsKeyed (activity_key a) (legacy_activity_key a) d h))

  -- A merge keeps every record under its own key, each key once, and the holdings under a number
  -- those of that account.
  pub merge-IsStore :
      (store : CanonicalStore) (s : Snapshot) (now : ℕ)
      → IsStore store
      → IsStore (merge store s now)
  unfolding merge
  merge-IsStore store s now h =
      let numbers = replace_set s.accounts in
      let grouped =
        add_holdings-AreOf (empty_groups numbers) s.holdings (empty_groups-AreOf numbers) in
      record {
        accounts = upsert_all-IsKeyed account_key store.accounts s.accounts h.accounts;
        securities = upsert_all-IsKeyed security_key store.securities s.securities h.securities;
        holdings = replace_holdings-AreOf _ grouped numbers store.holdings h.holdings;
        held_once = replace_holdings-AreDistinct _ numbers store.holdings h.held_once;
        activities = add_activities-IsKeyed store.activities s.activities h.activities;
        realized_lots =
            union_all-IsKeyed lot_key store.realized_lots s.realized_lots h.realized_lots;
      }
