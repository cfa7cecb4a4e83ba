-- ===== src/Tests/Samples.antt =====
-- The concrete inputs of the tests: a login and a command in a partition, and a query for them.
use x_dsi_cet.Base.{ℕ, ◌+◌, ◌*◌, refl, true, none, some, List, [], ◌∷◌, arith, ltb, leb}
use x_dsi_cet.Base.Int.{ℤ, pos, negsuc}
use x_dsi_cet.Base.Text.{Text, codes}
use x_dsi_cet.Value.{Event, str, end, field}
use x_dsi_cet.Platform.{Platform, Float}
use x_dsi_cet.Dsl.Syntax.{EventStep}
use x_dsi_cet.Dsl.Query.{QuerySpec}
use x_dsi_cet.Risk.{RiskScore}
use x_dsi_cet.Risk.Bounds.{FloatOrder}
use x_dsi_cet.Standing.Runtime.{Options, Runtime, TrendEvent, positive_match}
use x_dsi_cet.Standing.Graph.{GraphEdge}
use x_dsi_cet.Standing.Graph.Operations.{empty_state}

-- The hash of a text is the text, and numbers below 0 count as 0.
abbrev float_of_integer : ℤ → Float
float_of_integer (pos n) = n
float_of_integer (negsuc n) = 0

abbrev pub platform : Platform
platform = record {
  sha256_hex = λ t. t;
  int_of_text = λ _. none;
  repr = λ _. [];
  regex_search = λ _ _. none;
  float_of_int = float_of_integer;
  float_of_text = λ _. none;
  add = λ a b. a + b;
  mul = λ a b. a * b;
  lt = ltb;
  le = leb;
}

abbrev pub platform_order : FloatOrder platform
platform_order = record { asym = λ a b h. ground arith; zero_lt_hundred = refl }

abbrev pub event : ℕ → ℕ → Text → Text → Event
event id time partition type = record {
  event_id = pos id;
  event_time_ms = some (pos time);
  partition_key = some partition;
  event_type = some type;
  fields = end;
}

abbrev pub login : Event
login = event 1 100 (codes "alice") (codes "login")

abbrev pub command : Event
command = event 2 200 (codes "alice") (codes "exec")

-- The login moved to another partition.
abbrev pub moved_login : Event
moved_login = event 1 100 (codes "bob") (codes "login")

abbrev pub step : Text → EventStep
step type = record { raw = type; aliases = type ∷ []; min_repeats = 1; max_repeats = some 1 }

abbrev pub steps : List EventStep
steps = step (codes "login") ∷ step (codes "exec") ∷ []

abbrev pub query : QuerySpec
query = record {
  query_id = codes "q";
  version = codes "1";
  pattern = codes "login,exec";
  within_ms = pos 1000;
  slide_ms = pos 1000;
  name = none;
  severity = codes "high";
  enabled = true;
  where_ = [];
  absence = [];
  relations = [];
  score = end;
  tags = [];
}

abbrev pub options : Options
options = record {
  max_window_events_per_partition = 100;
  max_matches_per_query_partition = 10;
  emit_cancellations = true;
  relation_aware = true;
  include_evidence_graph = true;
  default_max_gap_ms = none;
}

abbrev pub runtime : Runtime
runtime = record {
  registry = query ∷ [];
  options = options;
  state = empty_state [] none;
  sinks = [] ∷ [];
  active = [];
}

abbrev pub next_edge : GraphEdge
next_edge = record {
  src = pos 1;
  dst = pos 2;
  relation = codes "temporal_next";
  event_time_ms = pos 200;
  evidence = field (codes "partition_key") (str (codes "alice")) end;
}

abbrev pub high_risk : RiskScore
high_risk = record {
  risk_score = 75;
  severity = codes "high";
  base = 75;
  path_bonus = 0;
  asset_criticality_bonus = 0;
  manual_boost = 0;
  overflow_penalty = 0;
}

abbrev pub trend_id : Text
trend_id = codes "q:1:alice:1,2"

-- The trend event of the login and the command.
abbrev pub reported : TrendEvent
reported = record {
  event_type = positive_match;
  trend_id = trend_id;
  query_id = codes "q";
  query_version = codes "1";
  partition_key = codes "alice";
  path = pos 1 ∷ pos 2 ∷ [];
  revision = 2;
  trend = record {
    trend_id = trend_id;
    query_id = codes "q";
    query_version = codes "1";
    partition_key = codes "alice";
    path = pos 1 ∷ pos 2 ∷ [];
    features = record {
      event_count = 2;
      trend_start_time_ms = pos 100;
      trend_end_time_ms = pos 200;
      duration_ms = pos 100;
      event_types = codes "login" ∷ codes "exec" ∷ [];
      distinct_event_types = codes "exec" ∷ codes "login" ∷ [];
      entities = [];
    };
    risk = high_risk;
    edge_evidence = next_edge ∷ [];
    native_stats = record { revision = 2; candidate_events = 2 };
  };
  reason = [];
}
