-- ===== src/Metrics.antt =====
-- bindings/python/metrics.py: metrics, the buffer that collects them, and the metrics of a list of
-- trends. `json.dumps` is an argument; the clock of `timer` is left out.
pub mod Breakdown
use x_dsi_cet.Base.{ℕ, suc, Bool, List, [], ◌∷◌, ◌++◌, map, if◌then◌else◌, length}
use x_dsi_cet.Base.Int.{ℤ, pos}
use x_dsi_cet.Base.Text.{Text, codes}
use x_dsi_cet.Base.Result.{Result, ok, raise, type_error, ◌>>=◌}
use x_dsi_cet.Value.{Value, Fields, null, str, obj, end, truthy, value_eq}
use x_dsi_cet.Platform.{Platform, Float}
use x_dsi_cet.Document.{get_value, first_true, with_get}
use x_dsi_cet.SecurityGraph.Build.{is_hashable}

-- A count is left an `int`; the buffer stores a `float`.
pub data MetricValue : Type 0 where
  count : ℕ → MetricValue
  real : Float → MetricValue

pub record Metric : Type 0 where
  pub metric_name : Text
  pub metric_value : MetricValue
  pub query_id : Value
  pub dimensions : Fields

abbrev pub MetricsBuffer : Type 0
MetricsBuffer = List Metric

abbrev pub all_queries : Value
all_queries = str (codes "_all")

-- The row of a metric: batch, query, name, value, dimensions.
pub record MetricRow : Type 0 where
  pub batch_id : ℤ
  pub query_id : Value
  pub metric_name : Text
  pub metric_value : Float
  pub dimensions : Text

module _ (p : Platform) (dumps : Fields → Text) where
  unfoldable pub float_value : MetricValue → Float
  float_value (count n) = p.float_of_int (pos n)
  float_value (real x) = x

  unfoldable pub as_row : ℤ → Metric → MetricRow
  unfolding float_value
  as_row batch_id m = record {
    batch_id = batch_id;
    query_id = m.query_id;
    metric_name = m.metric_name;
    metric_value = float_value m.metric_value;
    dimensions = dumps m.dimensions;
  }

  -- `MetricsBuffer.add` and `MetricsBuffer.rows`.
  unfoldable pub add_metric : Text → MetricValue → Value → Fields → MetricsBuffer → MetricsBuffer
  unfolding float_value
  add_metric name value query_id dimensions buffer =
      buffer
      ++ record {
        metric_name = name;
        metric_value = real (float_value value);
        query_id = query_id;
        dimensions = dimensions;
      }
        ∷ []

  unfoldable pub metric_rows : ℤ → MetricsBuffer → List MetricRow
  unfolding as_row
  metric_rows batch_id buffer = map (as_row batch_id) buffer

-- `Metric(name, n, query_id=q)`.
abbrev pub counted : Text → Value → ℕ → Metric
counted name query_id n = record {
  metric_name = name;
  metric_value = count n;
  query_id = query_id;
  dimensions = end;
}

-- `t.get("query_id", "unknown")`.
unfoldable pub query_of_trend : Fields → Value
unfolding get_value
query_of_trend t = get_value (codes "query_id") (str (codes "unknown")) t

-- `by_query[v] = by_query.get(v, 0) + 1`.
unfoldable pub tally : Value → List (Value × ℕ) → List (Value × ℕ)
unfolding value_eq
tally v [] = (v, 1) ∷ []
tally v ((w, n) ∷ table) = if value_eq w v then (w, suc n) ∷ table else (w, n) ∷ tally v table

unfoldable pub by_query : List (Value × ℕ) → List Fields → Result (List (Value × ℕ))
unfolding query_of_trend is_hashable tally
by_query table [] = ok table
by_query table (t ∷ ts) =
    if is_hashable (query_of_trend t)
    then by_query (tally (query_of_trend t) table) ts
    else raise type_error

-- `(t.get("native_stats") or {}).get("overflow")`, summed.
unfoldable pub overflow_of : Fields → Result Value
unfolding first_true with_get get_value
overflow_of t = with_get (first_true (codes "native_stats" ∷ []) (obj end) t) >>= λ stats.
    ok (get_value (codes "overflow") null stats)

unfoldable pub count_overflow : List Fields → Result ℕ
unfolding overflow_of truthy
count_overflow [] = ok 0
count_overflow (t ∷ ts) =
    overflow_of t >>= λ v. count_overflow ts >>= λ n. ok (if truthy v then suc n else n)

unfoldable pub metrics_from_trends : List Fields → Result (List Metric)
unfolding by_query count_overflow
metrics_from_trends trends = by_query [] trends >>= λ table. count_overflow trends >>= λ overflow.
    ok (
      counted (codes "trends_emitted") all_queries (length trends)
      ∷ (map (λ row. counted (codes "trends_emitted") row.0 row.1) table
          ++ counted (codes "native_overflow_trends") all_queries overflow ∷ []))
