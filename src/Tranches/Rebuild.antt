-- ===== src/Tranches/Rebuild.antt =====
-- `reconstruct_tranches` of portfolio_analytics/broker_io/transactions.py: the open lots behind each holding of the
-- broker, and how many of its shares they account for. A note is a value with the numbers it prints.
use metron.Prelude.{String, Bool, true, false, not, ◌&&◌, Option, List, [], ◌∷◌, ◌++◌}
use metron.Prelude.{if◌then◌else◌}
use metron.Prelude.Int.{ℤ, pos, ◌+ℤ◌, ◌-ℤ◌, ltb_ℤ, neg_ℤ}
use metron.Prelude.Float.{Float}
use metron.Prelude.Result.{Result, ok, raised}
use metron.Prelude.Dict.{Dict, insert, get_or}
use metron.Prelude.Sort.{sorted}
use metron.Ledger.Records.{Transaction, Lot, Ledger, Error, lots_of, shares_of}
use metron.Ledger.Relief.Items.{opened}
use metron.Ledger.Apply.{build_ledger}
use metron.Ledger.Reports.{realized_totals}
use metron.Tranches.Activity.{Reader, Activity, RawNumber, as_float, or_else, is_empty}
use metron.Tranches.Grouping.{Groups, group_transactions_by_account_ticker}

pub record Holding : Type 0 where
  pub ticker : Option String
  pub shares : RawNumber
  pub avg_cost : RawNumber
  pub currency : Option String

pub data Note : Type 0 where
  no_note no_history partial_history : Note
  -- the residual, the holding, and whether some history could not be replayed
  shares_predate : ℤ → ℤ → Bool → Note
  -- the reconstructed shares and the holding
  missing_disposal : ℤ → ℤ → Note

pub record TrancheSet : Type 0 where
  pub ticker : String
  pub currency : String
  pub lots : List Lot
  pub held_shares : ℤ
  pub reconstructed_shares : ℤ
  pub residual_shares : ℤ
  pub residual_cost_per_share : ℤ
  pub realized_st : ℤ
  pub realized_lt : ℤ
  pub complete : Bool
  pub note : Note

-- What the replay of a ticker's groups adds up.
pub record Replay : Type 0 where
  pub lots : List Lot
  pub realized_st : ℤ
  pub realized_lt : ℤ
  pub errored : Bool

abbrev pub nothing_replayed : Replay
nothing_replayed = record { lots = []; realized_st = pos 0; realized_lt = pos 0; errored = false }

-- `groups_by_ticker.setdefault(ticker, []).append(group)`
abbrev pub add_group :
    String → List Transaction → Dict (List (List Transaction)) → Dict (List (List Transaction))
add_group t ts d = insert t (get_or t [] d ++ ts ∷ []) d

-- `groups_by_ticker`, the groups of each ticker in their order.
abbrev pub by_ticker : Dict (List (List Transaction)) → Groups → Dict (List (List Transaction))
by_ticker d [] = d
by_ticker d ((k, ts) ∷ gs) = by_ticker (add_group (k.1) ts d) gs

-- `h.get("ticker", "")`, `h.get("currency", "USD") or "USD"`
abbrev pub ticker_of : Holding → String
ticker_of h = or_else "" h.ticker

abbrev pub currency_of : Holding → String
currency_of h = let code = or_else "USD" h.currency in if is_empty code then "USD" else code

module _ ⦃f : Float⦄ where
  -- `_SHARE_TOL`
  abbrev pub share_tol : ℤ
  share_tol = f.tenth_milli

  -- `TrancheSet.has_synthetic_residual`
  abbrev pub has_synthetic_residual : TrancheSet → Bool
  has_synthetic_residual ts = ltb_ℤ share_tol ts.residual_shares

  -- One turn of `for group in groups`: a group that does not replay is left out and marked.
  abbrev pub replay_group : String → Result Error Ledger → Replay → Replay
  replay_group t (raised e) done = record done { errored = true }
  replay_group t (ok l) done = record {
    lots = done.lots ++ lots_of l t;
    realized_st = done.realized_st +ℤ (realized_totals l).0;
    realized_lt = done.realized_lt +ℤ (realized_totals l).1;
    errored = done.errored;
  }

  abbrev pub replay : String → Replay → List (List Transaction) → Replay
  replay t done [] = done
  replay t done (g ∷ gs) = replay t (replay_group t (build_ledger g) done) gs

  -- The flags after the replay, by whether some group did not replay, whether shares are missing
  -- and whether there are too many.
  abbrev pub flagged : Bool → Bool → Bool → TrancheSet → TrancheSet
  flagged errored missing too_many ts =
      let first =
        (if errored then record ts { complete = false; note = partial_history } else ts) in
      if missing
      then record first {
        complete = false;
        note = shares_predate ts.residual_shares ts.held_shares errored;
      }
      else if too_many && not errored
      then record first {
        complete = false;
        note = missing_disposal ts.reconstructed_shares ts.held_shares;
      }
      else first

  abbrev pub judged : Bool → TrancheSet → TrancheSet
  judged errored ts =
      flagged errored (ltb_ℤ share_tol ts.residual_shares)
        (ltb_ℤ ts.residual_shares (neg_ℤ share_tol)) ts

  abbrev pub replayed_set : String → Holding → ℤ → ℤ → Replay → TrancheSet
  replayed_set t h held cost done =
      let lots = sorted opened done.lots in
      let shares = shares_of lots in
      judged done.errored (record {
        ticker = t;
        currency = currency_of h;
        lots = lots;
        held_shares = held;
        reconstructed_shares = shares;
        residual_shares = held -ℤ shares;
        residual_cost_per_share = cost;
        realized_st = done.realized_st;
        realized_lt = done.realized_lt;
        complete = true;
        note = no_note;
      })

  abbrev pub tranche_set : String → Holding → ℤ → ℤ → List (List Transaction) → TrancheSet
  tranche_set t h held cost [] = record {
    ticker = t;
    currency = currency_of h;
    lots = [];
    held_shares = held;
    reconstructed_shares = pos 0;
    residual_shares = held;
    residual_cost_per_share = cost;
    realized_st = pos 0;
    realized_lt = pos 0;
    complete = false;
    note = no_history;
  }
  tranche_set t h held cost (g ∷ gs) =
      replayed_set t h held cost (replay t nothing_replayed (g ∷ gs))

  module _ (r : Reader) where
    abbrev pub add_set :
        Dict (List (List Transaction)) → Holding → Dict TrancheSet → Dict TrancheSet
    add_set groups h out =
        let t = ticker_of h in
        let ts =
          tranche_set t h (as_float r h.shares) (as_float r h.avg_cost) (get_or t [] groups) in
        if is_empty t then out else insert t ts out

    -- The loop over the holdings, whose sets go to `out`.
    abbrev pub tranches :
        Dict (List (List Transaction)) → Dict TrancheSet → List Holding → Dict TrancheSet
    tranches groups out [] = out
    tranches groups out (h ∷ hs) = tranches groups (add_set groups h out) hs

    unfoldable pub reconstruct_tranches : List Activity → List Holding → Dict TrancheSet
    reconstruct_tranches rows hs =
        tranches (by_ticker [] (group_transactions_by_account_ticker r rows)) [] hs
