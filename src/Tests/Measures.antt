-- ===== src/Tests/Measures.antt =====
-- Tests of the metrics: three trends, two of one query.
use x_dsi_cet.Base.{◌≡◌, refl, true, List, [], ◌∷◌}
use x_dsi_cet.Base.Text.{Text, codes, text_eq}
use x_dsi_cet.Base.Result.{ok}
use x_dsi_cet.Value.{Fields, bool, str, obj, end, field}
use x_dsi_cet.Metrics.{Metric, counted, all_queries, metrics_from_trends}
use x_dsi_cet.Metrics.Breakdown.{IsBreakdown, metrics_from_trends-IsBreakdown}

abbrev trend_of : Text → Fields → Fields
trend_of q rest = field (codes "query_id") (str q) rest

abbrev trends : List Fields
trends =
    trend_of (codes "a") end
    ∷ trend_of (codes "b")
        (field (codes "native_stats") (obj (field (codes "overflow") (bool true) end)) end)
    ∷ trend_of (codes "a") end
    ∷ []

abbrev metrics : List Metric
metrics =
    counted (codes "trends_emitted") all_queries 3
    ∷ counted (codes "trends_emitted") (str (codes "a")) 2
    ∷ counted (codes "trends_emitted") (str (codes "b")) 1
    ∷ counted (codes "native_overflow_trends") all_queries 1
    ∷ []

metrics_from_trends-trends : metrics_from_trends trends ≡ ok metrics
unfolding metrics_from_trends text_eq
metrics_from_trends-trends = refl

metrics_from_trends-IsBreakdown_example : IsBreakdown trends metrics
metrics_from_trends-IsBreakdown_example =
    metrics_from_trends-IsBreakdown trends metrics metrics_from_trends-trends
