-- ===== src/Risk/Bounds.antt =====
-- The range of a risk score.
use x_dsi_cet.Base.{◌≡◌, refl, inl, inr, Bool, true, false, List, Bool-cases}
use x_dsi_cet.Base.Int.{pos}
use x_dsi_cet.Base.Text.{codes}
use x_dsi_cet.Base.Result.{ok, >>=-eq-ok, ok-injective}
use x_dsi_cet.Value.{Event, get_item}
use x_dsi_cet.Platform.{Platform, Float}
use x_dsi_cet.Dsl.Query.{QuerySpec}
use x_dsi_cet.Risk.{boost_value, RiskScore, clamp_score, criticality_from, score_trend, severity_of}

-- What IEEE 754 says of `<` on doubles, not-a-number included: it is asymmetric, hence irreflexive,
-- and 0.0 < 100.0.
pub record FloatOrder (p : Platform) : Type 0 where
  pub asym : (a b : Float) → p.lt a b ≡ true → p.lt b a ≡ false
  pub zero_lt_hundred : p.lt (p.float_of_int (pos 0)) (p.float_of_int (pos 100)) ≡ true

module _ (p : Platform) (o : FloatOrder p) where
  irrefl : (a : Float) → p.lt a a ≡ false
  irrefl a = elim (Bool-cases (p.lt a a)) [ inl t ↦ o.asym a a t | inr f ↦ f ]

  pub clamp_score_bounds :
      (x : Float)
      → (p.lt (clamp_score p x) (p.float_of_int (pos 0)) ≡ false)
        × (p.lt (p.float_of_int (pos 100)) (clamp_score p x) ≡ false)
  unfolding clamp_score
  clamp_score_bounds x = elim (Bool-cases (p.lt x (p.float_of_int (pos 100)))) [
    | inl below ↦ elim (Bool-cases (p.lt (p.float_of_int (pos 0)) x)) [
      | inl above ↦ rw (below, above) (o.asym _ _ above, o.asym _ _ below)
      | inr f ↦ rw (below, f) (irrefl _, o.asym _ _ o.zero_lt_hundred)
    ]
    | inr f ↦ rw (f, o.zero_lt_hundred) (o.asym _ _ o.zero_lt_hundred, irrefl _)
  ]

  -- With an asymmetric order of doubles in which 0 is below 100, the score of a trend is neither
  -- below 0 nor above 100, whatever numbers the events and the query give, also not-a-number, and
  -- its severity is that of the score.
  pub score_trend_bounds :
      (q : QuerySpec) (path : List Event) (overflow : Bool) (r : RiskScore)
      → score_trend p q path overflow ≡ ok r
      → (p.lt r.risk_score (p.float_of_int (pos 0)) ≡ false)
        × (p.lt (p.float_of_int (pos 100)) r.risk_score ≡ false)
        × (r.severity ≡ severity_of p r.risk_score)
  unfolding score_trend
  score_trend_bounds q path overflow r h =
      let (criticality, _, h') = >>=-eq-ok (criticality_from p (p.float_of_int (pos 0)) path) _ h in
      let (boost, _, h'') = >>=-eq-ok (boost_value p (get_item (codes "boost") q.score)) _ h' in
      let (low, high) = clamp_score_bounds _ in rw (← ok-injective _ r h'') (low, high, refl)
