-- ===== src/Counterfactual.antt =====
-- bindings/python/counterfactual.py: the difference of two sets of trends.
pub mod Diff
use x_dsi_cet.Base.{ℕ, Bool, true, false, not, Option, none, some, List, [], ◌∷◌, keep, length}
use x_dsi_cet.Base.Text.{Text, text_le}
use x_dsi_cet.Base.Dict.{Dict, text_key, lookup, insert, keys, has}
use x_dsi_cet.Base.Sort.{sort}
use x_dsi_cet.Base.Result.{Result, ok, ◌>>=◌}
use x_dsi_cet.Value.{Event, Fields}

-- A trend, whose `trend_id` is a text, beside the other keys of its dictionary.
pub record TrendRow : Type 0 where
  pub trend_id : Text
  pub fields : Fields

pub record TrendDiff : Type 0 where
  pub added : List TrendRow
  pub removed : List TrendRow
  pub common : List TrendRow

-- `{t["trend_id"]: t for t in trends}`, on top of a dictionary.
unfoldable pub by_id : List TrendRow → Dict Text TrendRow → Dict Text TrendRow
unfolding insert
by_id [] rows = rows
by_id (t ∷ ts) rows = by_id ts (insert t.trend_id t rows)

abbrev pub cons_row : Option TrendRow → List TrendRow → List TrendRow
cons_row none rest = rest
cons_row (some t) rest = t ∷ rest

-- `[d[k] for k in ids]`, for ids that are keys.
unfoldable pub rows_at : List Text → Dict Text TrendRow → List TrendRow
unfolding lookup
rows_at [] d = []
rows_at (i ∷ ids) d = cons_row (lookup i d) (rows_at ids d)

-- `sorted(a - b)` and `sorted(a & b)`.
unfoldable pub only_in : List Text → List Text → List Text
unfolding keep has sort text_le
only_in a b = sort text_le (keep (λ i. not (has i b)) a)

unfoldable pub in_both : List Text → List Text → List Text
unfolding keep has sort text_le
in_both a b = sort text_le (keep (λ i. has i b) a)

unfoldable pub diff_trend_sets : List TrendRow → List TrendRow → TrendDiff
unfolding by_id rows_at only_in in_both keys
diff_trend_sets base candidate =
    let b = by_id base [] in
    let c = by_id candidate [] in
    record {
      added = rows_at (only_in (keys c) (keys b)) c;
      removed = rows_at (only_in (keys b) (keys c)) b;
      common = rows_at (in_both (keys c) (keys b)) c;
    }

pub record Counterfactual : Type 0 where
  pub base_count : ℕ
  pub candidate_count : ℕ
  pub diff : TrendDiff

-- A runtime is what its `run` does with the events.
unfoldable pub run_counterfactual :
    (List Event → Result (List TrendRow))
    → (List Event → Result (List TrendRow))
    → List Event
    → Result Counterfactual
unfolding diff_trend_sets
run_counterfactual run_base run_candidate events = do
  base ← run_base events
  candidate ← run_candidate events
  ok (record {
    base_count = length base;
    candidate_count = length candidate;
    diff = diff_trend_sets base candidate;
  })
