-- ===== src/Tests/Queries.antt =====
-- Tests of the runtime over many queries, with the library of the tests of the bridge.
use x_dsi_cet.Base.{◌≡◌, refl, true, false, none, List, [], ◌∷◌, All, map}
use x_dsi_cet.Base.Int.{pos}
use x_dsi_cet.Base.Text.{codes, text_eq, is_empty}
use x_dsi_cet.Base.Sort.{IsSorted}
use x_dsi_cet.Base.Result.{Result, ok, raise, ◌>>=◌}
use x_dsi_cet.Value.{Event}
use x_dsi_cet.Dsl.Syntax.{parse_pattern}
use x_dsi_cet.Registry.{enabled}
use x_dsi_cet.SecurityGraph.{SecurityGraphBuilder}
use x_dsi_cet.MultiQuery.{QueryRunOptions, QueryTrend, trend_le, typed, raw_of, run}
use x_dsi_cet.MultiQuery.Sound.{IsTrendOf, run-IsTrendOf}
use x_dsi_cet.Tests.Samples.{query, event}
use x_dsi_cet.Tests.Bridges.{host, library}

abbrev builder : SecurityGraphBuilder
builder = record { entity_keys = []; max_gap_ms = none }

abbrev options : QueryRunOptions
options = record {
  switch_depth = pos 2;
  native_threads = pos 1;
  enable_mmap_arena = false;
  mmap_workspace_bytes = pos 0;
  raise_on_overflow = true;
}

abbrev events : List Event
events =
    event 7 100 (codes "alice") (codes "login") ∷ event 8 200 (codes "alice") (codes "exec") ∷ []

typed-raw_of :
    typed (raw_of (event 7 100 (codes "alice") (codes "login")))
    ≡ ok (event 7 100 (codes "alice") (codes "login"))
unfolding typed raw_of text_eq
typed-raw_of = refl

run_paths :
    (run host library builder options (query ∷ []) events >>= λ ts.
    ok (map (λ (t : QueryTrend). t.path) ts))
    ≡ ok ((pos 7 ∷ pos 8 ∷ []) ∷ [])
unfolding run text_eq is_empty parse_pattern
run_paths = refl

abbrev trends_of : Result (List QueryTrend) → List QueryTrend
trends_of (ok trends) = trends
trends_of (raise e) = []

abbrev found : List QueryTrend
found = trends_of (run host library builder options (query ∷ []) events)

run-found : run host library builder options (query ∷ []) events ≡ ok found
unfolding run text_eq is_empty parse_pattern
run-found = refl

run-IsTrendOf_example :
    All (IsTrendOf host library builder options (enabled (query ∷ [])) events) found
    × IsSorted trend_le found
run-IsTrendOf_example =
    run-IsTrendOf host library builder options (query ∷ []) events found run-found
