-- ===== src/Store/Merge.antt =====
-- `CanonicalStore.merge` and the accessors of portfolio_analytics/ingestion/store.py. The method
-- mutates the store: the model returns it.
use metron.Prelude.{ℕ, Option, none, some, String, List, [], ◌∷◌, ◌++◌, map, if◌then◌else◌}
use metron.Prelude.Dict.{Dict, lookup, get_or, insert}
use metron.Prelude.Keys.{setdefault, remove, values, holds}
use metron.Prelude.Texts.{unique}
use metron.Ledger.Records.{RealizedGain}
use metron.Store.Records.{
  Printed, CanonicalAccount, CanonicalSecurity, CanonicalHolding, CanonicalActivity, CanonicalStore,
  activity_key, legacy_activity_key, lot_key,
}

-- One source's records.
pub record Snapshot : Type 0 where
  pub source : String
  pub accounts : List CanonicalAccount
  pub securities : List CanonicalSecurity
  pub holdings : List CanonicalHolding
  pub activities : List CanonicalActivity
  pub realized_lots : List (String × RealizedGain)
  pub as_of : Option ℕ

-- `for v in vs: d[key(v)] = v`
abbrev pub upsert_all {ℓ} : {V : Type ℓ} → (V → String) → Dict V → List V → Dict V
upsert_all key d [] = d
upsert_all key d (v ∷ vs) = upsert_all key (insert (key v) v d) vs

-- `for v in vs: d.setdefault(key(v), v)`
abbrev pub union_all {ℓ} : {V : Type ℓ} → (V → String) → Dict V → List V → Dict V
union_all key d [] = d
union_all key d (v ∷ vs) = union_all key (setdefault (key v) v d) vs

abbrev pub account_key : CanonicalAccount → String
account_key a = a.number

abbrev pub security_key : CanonicalSecurity → String
security_key s = s.security_id

-- `grouped.setdefault(h.account_number, []).append(h)`
abbrev pub add_holding :
    Dict (List CanonicalHolding) → CanonicalHolding → Dict (List CanonicalHolding)
add_holding d h = insert h.account_number (get_or h.account_number [] d ++ h ∷ []) d

abbrev pub add_holdings :
    Dict (List CanonicalHolding) → List CanonicalHolding → Dict (List CanonicalHolding)
add_holdings d [] = d
add_holdings d (h ∷ hs) = add_holdings (add_holding d h) hs

-- `{n: [] for n in replace_set}`
abbrev pub empty_groups : List String → Dict (List CanonicalHolding)
empty_groups [] = []
empty_groups (n ∷ ns) = (n, []) ∷ empty_groups ns

-- `for n in replace_set: self.holdings[n] = grouped.get(n, [])`
abbrev pub replace_holdings :
    Dict (List CanonicalHolding)
    → List String
    → Dict (List CanonicalHolding)
    → Dict (List CanonicalHolding)
replace_holdings grouped [] d = d
replace_holdings grouped (n ∷ ns) d = replace_holdings grouped ns (insert n (get_or n [] grouped) d)

-- The numbers of the accounts, each once. A set has no order that the code relies on: it shows in
-- the order of new keys alone.
abbrev pub replace_set : List CanonicalAccount → List String
replace_set accounts = unique (map account_key accounts)

module _ ⦃p : Printed⦄ where
  -- `if key not in self.activities and legacy is not None and legacy in self.activities`
  abbrev pub upgraded : String → Option String → Dict CanonicalActivity → Dict CanonicalActivity
  upgraded key none d = d
  upgraded key (some legacy) d =
      if holds key d then d else if holds legacy d then remove legacy d else d

  unfoldable pub add_activity : Dict CanonicalActivity → CanonicalActivity → Dict CanonicalActivity
  add_activity d act =
      setdefault (activity_key act) act (upgraded (activity_key act) (legacy_activity_key act) d)

  abbrev pub add_activities :
      Dict CanonicalActivity → List CanonicalActivity → Dict CanonicalActivity
  add_activities d [] = d
  add_activities d (a ∷ as') = add_activities (add_activity d a) as'

  -- `now` is the clock's.
  unfoldable pub merge : CanonicalStore → Snapshot → ℕ → CanonicalStore
  merge store s now =
      let numbers = replace_set s.accounts in
      let grouped = add_holdings (empty_groups numbers) s.holdings in
      record {
        accounts = upsert_all account_key store.accounts s.accounts;
        securities = upsert_all security_key store.securities s.securities;
        holdings = replace_holdings grouped numbers store.holdings;
        activities = add_activities store.activities s.activities;
        realized_lots = union_all lot_key store.realized_lots s.realized_lots;
        meta = insert s.source (record { as_of = s.as_of; synced_at = some now }) store.meta;
      }

abbrev pub concat {ℓ} : {A : Type ℓ} → List (List A) → List A
concat [] = []
concat (xs ∷ xss) = xs ++ concat xss

-- The accessors.
abbrev pub all_accounts : CanonicalStore → List CanonicalAccount
all_accounts s = values s.accounts

abbrev pub all_holdings : CanonicalStore → List CanonicalHolding
all_holdings s = concat (values s.holdings)

abbrev pub all_activities : CanonicalStore → List CanonicalActivity
all_activities s = values s.activities

abbrev pub all_realized_lots : CanonicalStore → List (String × RealizedGain)
all_realized_lots s = values s.realized_lots

abbrev pub security : CanonicalStore → String → Option CanonicalSecurity
security s security_id = lookup security_id s.securities
