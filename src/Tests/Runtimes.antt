-- ===== src/Tests/Runtimes.antt =====
-- Tests of `StandingTrendRuntime`.
use x_dsi_cet.Base.{◌≡◌, refl, List, [], ◌∷◌}
use x_dsi_cet.Base.Int.{pos, ◌-ℤ◌}
use x_dsi_cet.Base.Text.{text_eq}
use x_dsi_cet.Base.Dict.{text_key, has, keys}
use x_dsi_cet.Dsl.Syntax.{parse_pattern}
use x_dsi_cet.Standing.Graph.{maybe_add_temporal_edge}
use x_dsi_cet.Standing.Graph.Operations.{empty_state}
use x_dsi_cet.Standing.Runtime.{Runtime}
use x_dsi_cet.Standing.Runtime.Stream.{follow}
use x_dsi_cet.Standing.Runtime.History.{Call, process, forget, run, run-follow}
use x_dsi_cet.Tests.Samples.{platform, login, command, runtime, trend_id, reported}

abbrev calls : List Call
calls = process (pos 0) login ∷ process (pos 0) command ∷ []

abbrev calls_and_removal : List Call
calls_and_removal = process (pos 0) login ∷ process (pos 0) command ∷ forget (pos 0) (pos 1) ∷ []

abbrev after_calls : Runtime
after_calls = (run platform runtime calls).0

reports_pair : (run platform runtime calls).1 ≡ reported ∷ []
unfolding run text_eq ◌-ℤ◌ parse_pattern empty_state maybe_add_temporal_edge
reports_pair = refl

cancels_pair : (run platform runtime calls_and_removal).0.active ≡ []
unfolding run text_eq ◌-ℤ◌ parse_pattern empty_state maybe_add_temporal_edge
cancels_pair = refl

run-follow_example :
    has trend_id (follow [] (run platform runtime calls_and_removal).1)
    ≡ has trend_id (keys (run platform runtime calls_and_removal).0.active)
run-follow_example = run-follow platform calls_and_removal runtime trend_id refl refl
