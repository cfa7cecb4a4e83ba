-- ===== src/Tests/Scores.antt =====
-- A test of the risk score.
use x_dsi_cet.Base.{◌≡◌, refl, false, [], ◌∷◌, ltb}
use x_dsi_cet.Base.Text.{codes, text_eq}
use x_dsi_cet.Risk.{score_trend, severity_of}
use x_dsi_cet.Risk.Bounds.{score_trend_bounds}
use x_dsi_cet.Tests.Samples.{platform, platform_order, login, command, query, high_risk}

score_trend_bounds_example :
    (ltb 75 0 ≡ false) × (ltb 100 75 ≡ false) × (codes "high" ≡ severity_of platform 75)
unfolding score_trend text_eq
score_trend_bounds_example =
    score_trend_bounds platform platform_order query (login ∷ command ∷ []) false high_risk refl
