-- ===== src/Store/Replace.antt =====
-- The holdings after a merge (portfolio_analytics/ingestion/store.py).
use metron.Prelude.{
  ℕ, ◌≡◌, refl, ap, sym, ◌∙◌, some, String, List, [], ◌∷◌, ◌++◌, map, keep, Bool, true, false,
  if◌then◌else◌, Bool-cases, inl, inr,
}
use metron.Prelude.Dict.{Dict, lookup, get_or, insert, lookup-insert, get_or-insert}
use metron.Prelude.Texts.{contains, contains-unique}
use metron.Store.Records.{Printed, CanonicalHolding, CanonicalStore}
use metron.Store.Merge.{
  Snapshot, account_key, add_holding, add_holdings, empty_groups, replace_holdings, replace_set,
  merge,
}
use mathlib.Core.List.{append_assoc, append-nil}
use text.Mathlib.Text.{◌==◌}
use text.Mathlib.TextEquality.{eq_iff}
use text.Mathlib.TextPositions.{eq_refl}

-- The holdings of one account.
abbrev pub of_account : String → List CanonicalHolding → List CanonicalHolding
of_account n hs = keep (λ h. h.account_number == n) hs

get_or-add_holdings :
    (n : String) (d : Dict (List CanonicalHolding)) (hs : List CanonicalHolding)
    → get_or n [] (add_holdings d hs) ≡ get_or n [] d ++ of_account n hs
get_or-add_holdings n d [] = sym (append-nil _)
get_or-add_holdings n d (h ∷ hs) =
    get_or-add_holdings n (add_holding d h) hs
    ∙ ap (λ t. t ++ of_account n hs)
        (get_or-insert h.account_number n [] (get_or h.account_number [] d ++ h ∷ []) d)
    ∙ elim (Bool-cases (h.account_number == n)) [
      | inl e ↦
          ap (λ t. (if t == n then get_or t [] d ++ h ∷ [] else get_or n [] d) ++ of_account n hs)
            ((eq_iff h.account_number n).0 e)
          ∙ rw (eq_refl n, e) (append_assoc (get_or n [] d) (h ∷ []) (of_account n hs))
      | inr e ↦ rw e refl
    ]

get_or-empty_groups : (n : String) (ns : List String) → get_or n [] (empty_groups ns) ≡ []
get_or-empty_groups n [] = refl
get_or-empty_groups n (m ∷ ns) = elim (Bool-cases (m == n)) [
  | inl e ↦ rw (get_or, e) refl
  | inr e ↦ rw (get_or, e) (get_or-empty_groups n ns)
]

if_same {ℓ} : {A : Type ℓ} (b : Bool) (x : A) → (if b then x else x) ≡ x
if_same true x = refl
if_same false x = refl

lookup-replace_holdings :
    (n : String) (grouped : Dict (List CanonicalHolding)) (ns : List String)
    (d : Dict (List CanonicalHolding))
    → lookup n (replace_holdings grouped ns d)
      ≡ (if contains n ns then some (get_or n [] grouped) else lookup n d)
lookup-replace_holdings n grouped [] d = refl
lookup-replace_holdings n grouped (m ∷ ns) d =
    lookup-replace_holdings n grouped ns (insert m (get_or m [] grouped) d)
    ∙ rw (lookup-insert m n (get_or m [] grouped) d) (elim (Bool-cases (m == n)) [
      | inl e ↦ rw (e, (eq_iff m n).0 e) (if_same (contains n ns) (some (get_or n [] grouped)))
      | inr e ↦ rw e refl
    ])

-- After a merge the holdings of each account that the source reports are exactly those of that
-- account in the snapshot, in their order, and those of any other number are as before.
pub lookup-merge_holdings :
    ⦃p : Printed⦄ (store : CanonicalStore) (s : Snapshot) (now : ℕ) (n : String)
    → lookup n (merge store s now).holdings ≡ (
        if contains n (map account_key s.accounts)
        then some (of_account n s.holdings)
        else lookup n store.holdings)
unfolding merge
lookup-merge_holdings store s now n =
    lookup-replace_holdings n _ (replace_set s.accounts) store.holdings
    ∙ rw
        (
          contains-unique n (map account_key s.accounts),
          get_or-add_holdings n (empty_groups (replace_set s.accounts)) s.holdings,
          get_or-empty_groups n (replace_set s.accounts),
        )
        refl
