-- ===== src/Entitlements/Catalog.antt =====
-- The catalog of api/entitlements.py: data sources, features and tiers. A `frozenset` is a list that
-- is only asked what it contains. A feature's label is display text and is left out.
use metron.Prelude.{String, List, [], ◌∷◌, ◌++◌}

abbrev pub free_sources : List String
free_sources = "broker" ∷ "ledger" ∷ "snapshots" ∷ "fred_pubdomain" ∷ "edgar" ∷ []

abbrev pub feed_sources : List String
feed_sources = "feed" ∷ "benchmark" ∷ "etf_vendor" ∷ []

pub record Feature : Type 0 where
  pub key : String
  pub requires : List String

pub record Tier : Type 0 where
  pub key : String
  pub features : List String

abbrev pub features : List Feature
features =
    record { key = "overview"; requires = "broker" ∷ [] }
    ∷ record { key = "glance"; requires = "broker" ∷ [] }
    ∷ record { key = "income"; requires = "ledger" ∷ [] }
    ∷ record { key = "transactions"; requires = "ledger" ∷ [] }
    ∷ record { key = "tax"; requires = "ledger" ∷ "broker" ∷ [] }
    ∷ record { key = "concentration"; requires = "broker" ∷ [] }
    ∷ record { key = "performance"; requires = "broker" ∷ "snapshots" ∷ [] }
    ∷ record { key = "macro"; requires = "fred_pubdomain" ∷ [] }
    ∷ record { key = "fundamentals"; requires = "edgar" ∷ [] }
    ∷ record { key = "auto_sync"; requires = "broker" ∷ [] }
    ∷ record { key = "benchmark"; requires = "benchmark" ∷ [] }
    ∷ record { key = "risk"; requires = "feed" ∷ [] }
    ∷ record { key = "attribution"; requires = "feed" ∷ [] }
    ∷ record { key = "scenarios"; requires = "feed" ∷ [] }
    ∷ record { key = "calendar"; requires = "feed" ∷ [] }
    ∷ record { key = "indices"; requires = "feed" ∷ [] }
    ∷ record { key = "benchmark_gap"; requires = "feed" ∷ [] }
    ∷ record { key = "market_board"; requires = "feed" ∷ [] }
    ∷ record { key = "etf_lookthrough"; requires = "etf_vendor" ∷ [] }
    ∷ record { key = "agentic_research"; requires = "feed" ∷ [] }
    ∷ record { key = "ai_advisor"; requires = [] }
    ∷ record { key = "alpha_engine"; requires = [] }
    ∷ record { key = "research_intel"; requires = [] }
    ∷ record { key = "cash_to_targets"; requires = [] }
    ∷ record { key = "whatif_purchase"; requires = [] }
    ∷ record { key = "goal"; requires = [] }
    ∷ []

abbrev pub beta_features : List String
beta_features =
    "overview" ∷ "glance" ∷ "income" ∷ "transactions" ∷ "tax" ∷ "concentration" ∷ "performance"
    ∷ "macro" ∷ "fundamentals" ∷ "cash_to_targets" ∷ "whatif_purchase" ∷ "goal" ∷ []

abbrev pub pro_features : List String
pro_features =
    beta_features
    ++ "auto_sync" ∷ "benchmark" ∷ "risk" ∷ "attribution" ∷ "scenarios" ∷ "calendar"
      ∷ "etf_lookthrough" ∷ "indices" ∷ "market_board" ∷ "benchmark_gap" ∷ []

abbrev pub agentic_features : List String
agentic_features = pro_features ++ "agentic_research" ∷ []

abbrev pub personal_features : List String
personal_features = agentic_features ++ "ai_advisor" ∷ "alpha_engine" ∷ "research_intel" ∷ []

abbrev pub beta : Tier
beta = record { key = "beta"; features = beta_features }

abbrev pub personal : Tier
personal = record { key = "personal"; features = personal_features }

-- Cheapest first.
abbrev pub tiers : List Tier
tiers = beta ∷ personal ∷ []

abbrev pub advice_features : List String
advice_features =
    "market_board" ∷ "research_intel" ∷ "alpha_engine" ∷ "ai_advisor" ∷ "agentic_research" ∷ []

abbrev pub feed_derived_features : List String
feed_derived_features =
    "benchmark" ∷ "risk" ∷ "attribution" ∷ "scenarios" ∷ "calendar" ∷ "indices" ∷ "etf_lookthrough"
    ∷ "benchmark_gap" ∷ []

abbrev pub v1_retired_features : List String
v1_retired_features = "research_intel" ∷ "alpha_engine" ∷ []

abbrev pub producer_gone_features : List String
producer_gone_features = "research_intel" ∷ []
