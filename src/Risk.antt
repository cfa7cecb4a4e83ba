-- ===== src/Risk.antt =====
-- bindings/python/risk.py: the risk score of a trend. Floats are those of the platform, and Python's
-- `min` and `max` keep their first argument unless the second is strictly beyond it.
pub mod Bounds
use x_dsi_cet.Base.{
  ℕ, ◌-◌, Bool, true, false, Option, none, some, List, [], ◌∷◌, if◌then◌else◌, length,
}
use x_dsi_cet.Base.Int.{ℤ, pos, negsuc}
use x_dsi_cet.Base.Text.{Text, codes, lower}
use x_dsi_cet.Base.Dict.{Dict, text_key, lookup, get_or}
use x_dsi_cet.Base.Result.{Result, ok, raise, value_error, ◌>>=◌}
use x_dsi_cet.Value.{Value, Fields, Event, get_item}
use x_dsi_cet.Platform.{Platform, Float, float_of}
use x_dsi_cet.Dsl.Query.{QuerySpec}
use x_dsi_cet.Features.{attribute}

unfoldable pub severity_base : Dict Text ℕ
severity_base =
    (codes "info", 10)
    ∷ (codes "low", 25)
    ∷ (codes "medium", 50)
    ∷ (codes "high", 75)
    ∷ (codes "critical", 90)
    ∷ []

pub record RiskScore : Type 0 where
  pub risk_score : Float
  pub severity : Text
  pub base : Float
  pub path_bonus : Float
  pub asset_criticality_bonus : Float
  pub manual_boost : Float
  pub overflow_penalty : Float

module _ (p : Platform) where
  abbrev number : ℕ → Float
  number n = p.float_of_int (pos n)

  abbrev min_float : Float → Float → Float
  min_float a b = if p.lt b a then b else a

  abbrev max_float : Float → Float → Float
  max_float a b = if p.lt a b then b else a

  unfoldable pub clamp_score : Float → Float
  clamp_score x = max_float (number 0) (min_float (number 100) x)

  -- A value that is no number is passed over.
  abbrev raise_to : Float → Option Float → Float
  raise_to best none = best
  raise_to best (some x) = max_float best x

  abbrev criticality_value : Option Value → Option Float
  criticality_value none = some (number 0)
  criticality_value (some v) = float_of p v

  unfoldable pub criticality_from : Float → List Event → Result Float
  unfolding attribute float_of
  criticality_from best [] = ok best
  criticality_from best (e ∷ es) = do
    v ← attribute (codes "asset_criticality") e
    criticality_from (raise_to best (criticality_value v)) es

  abbrev pub boost_value : Option Value → Result Float
  boost_value none = ok (number 0)
  boost_value (some v) = elim (float_of p v) [ none ↦ raise value_error | some x ↦ ok x ]

  unfoldable pub severity_of : Float → Text
  severity_of score =
      if p.le (number 90) score
      then codes "critical"
      else if p.le (number 75) score
      then codes "high"
      else if p.le (number 50) score
      then codes "medium"
      else if p.le (number 25) score
      then codes "low"
      else codes "info"

  -- `overflow` is `stats.get("overflow")`.
  unfoldable pub score_trend : QuerySpec → List Event → Bool → Result RiskScore
  unfolding clamp_score criticality_from severity_of severity_base get_or lower get_item
  score_trend q path overflow = do
    let base = number (get_or (lower q.severity) 50 severity_base)
    let path_bonus = min_float (number 10) (p.mul (number (length path - 2)) (number 2))
    criticality ← criticality_from (number 0) path
    let penalty = if overflow then p.float_of_int (negsuc 9) else number 0
    boost ← boost_value (get_item (codes "boost") q.score)
    let score =
        clamp_score (p.add (p.add (p.add (p.add base path_bonus) criticality) boost) penalty)
    ok (record {
      risk_score = score;
      severity = severity_of score;
      base = base;
      path_bonus = path_bonus;
      asset_criticality_bonus = criticality;
      manual_boost = boost;
      overflow_penalty = penalty;
    })
