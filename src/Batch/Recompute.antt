-- ===== src/Batch/Recompute.antt =====
-- `process_partition` of jobs/recompute_trends_prod.py: the trends of the events of impacted
-- windows. The columns of a row have the types that the query casts them to, and only the three
-- with a default may be null. The bridge is made, and `json.dumps` is an argument.
use x_dsi_cet.Base.{ℕ, false, Option, none, List, [], ◌∷◌, ◌++◌, map, if◌then◌else◌, length}
use x_dsi_cet.Base.Int.{ℤ, pos, negsuc}
use x_dsi_cet.Base.Text.{Text, codes, text_eq}
use x_dsi_cet.Base.Dict.{Dict}
use x_dsi_cet.Base.Result.{Result, ok, raise, runtime_error, ◌>>=◌}
use x_dsi_cet.Value.{Fields}
use x_dsi_cet.Platform.{Float}
use x_dsi_cet.SecurityGraph.{NativeVertex}
use x_dsi_cet.Bridge.{NativeLibrary}
use x_dsi_cet.Bridge.Calls.{Host, CetMatch, parse_query, RuntimeOptions, run_hcet}
use x_dsi_cet.Batch.{
  trend_id, build_temporal_edges, prepared, times_by_id, known_times, least, greatest,
  int_or_default, text_or_default, float_or_one, GroupKey, same_group,
}

pub record RecomputeRow : Type 0 where
  pub query_id : Text
  pub query_version : Text
  pub partition_key : Text
  pub event_id : ℤ
  pub event_type : Text
  pub event_time_ms : ℤ
  pub pattern_csv : Text
  pub within_ms : ℤ
  pub slide_ms : ℤ
  pub switch_depth : Option ℤ
  pub severity : Option Text
  pub score : Option Float

pub record RecomputeGroup : Type 0 where
  pub query_id : Text
  pub query_version : Text
  pub partition_key : Text
  pub pattern_csv : Text
  pub within_ms : ℤ
  pub slide_ms : ℤ
  pub switch_depth : ℤ
  pub severity : Text
  pub score : Float
  pub events : List NativeVertex

pub record RecomputedTrend : Type 0 where
  pub trend_id : Text
  pub query_id : Text
  pub query_version : Text
  pub batch_id : ℤ
  pub partition_key : Text
  pub path : List ℤ
  pub trend_start_ms : Option ℤ
  pub trend_end_ms : Option ℤ
  pub event_count : ℕ
  pub score : Float
  pub severity : Text
  pub status : Text
  pub replay_id : Text
  pub engine_stats : Text

abbrev pub no_options : RuntimeOptions
no_options = record {
  native_threads = none;
  enable_mmap_arena = none;
  mmap_workspace_bytes = none;
  madvise_hugepage = none;
}

abbrev pub row_event : RecomputeRow → NativeVertex
row_event r = (r.event_id, r.partition_key, r.event_type, r.event_time_ms)

abbrev pub row_key : RecomputeRow → GroupKey
row_key r = (r.query_id, r.query_version, r.partition_key)

abbrev pub group_key : RecomputeGroup → GroupKey
group_key g = (g.query_id, g.query_version, g.partition_key)

module _ (host : Host) (lib : NativeLibrary) (dumps : Fields → Text) (replay_id : Text) where
  unfoldable pub new_group : RecomputeRow → RecomputeGroup
  new_group r = record {
    query_id = r.query_id;
    query_version = r.query_version;
    partition_key = r.partition_key;
    pattern_csv = r.pattern_csv;
    within_ms = r.within_ms;
    slide_ms = r.slide_ms;
    switch_depth = int_or_default (pos 2) r.switch_depth;
    severity = text_or_default (codes "medium") r.severity;
    score = float_or_one host.platform r.score;
    events = row_event r ∷ [];
  }

  unfoldable pub add_row : RecomputeRow → List RecomputeGroup → List RecomputeGroup
  unfolding new_group text_eq
  add_row r [] = new_group r ∷ []
  add_row r (g ∷ groups) =
      if same_group (group_key g) (row_key r)
      then record g { events = g.events ++ row_event r ∷ [] } ∷ groups
      else g ∷ add_row r groups

  unfoldable pub group_rows : List RecomputeGroup → List RecomputeRow → List RecomputeGroup
  unfolding add_row
  group_rows groups [] = groups
  group_rows groups (r ∷ rows) = group_rows (add_row r groups) rows

  unfoldable pub recomputed_trend : RecomputeGroup → Dict ℤ ℤ → Text → List ℤ → RecomputedTrend
  unfolding trend_id known_times least greatest
  recomputed_trend g time_by_id stats_json path =
      let times = known_times time_by_id path in
      record {
        trend_id = trend_id host.platform g.query_id g.query_version g.partition_key path;
        query_id = g.query_id;
        query_version = g.query_version;
        batch_id = negsuc 0;
        partition_key = g.partition_key;
        path = path;
        trend_start_ms = least times;
        trend_end_ms = greatest times;
        event_count = length path;
        score = g.score;
        severity = g.severity;
        status = codes "active";
        replay_id = replay_id;
        engine_stats = stats_json;
      }

  unfoldable pub recompute_match : RecomputeGroup → List NativeVertex → Result CetMatch
  unfolding parse_query run_hcet build_temporal_edges
  recompute_match g events =
      parse_query host lib g.query_id g.pattern_csv g.within_ms g.slide_ms >>= λ query.
      run_hcet host lib query events (build_temporal_edges events) g.switch_depth false no_options
        none none

  abbrev pub failing : {A : Type 0} → Result A → Result A
  failing (ok a) = ok a
  failing (raise e) = raise runtime_error

  unfoldable pub recompute_group : RecomputeGroup → Result (List RecomputedTrend)
  unfolding prepared recompute_match times_by_id recomputed_trend
  recompute_group g =
      let events = prepared g.events in
      failing (recompute_match g events) >>= λ m.
      ok (map (recomputed_trend g (times_by_id [] events) (dumps m.stats)) m.paths)

  unfoldable pub concat_ok :
      (RecomputeGroup → Result (List RecomputedTrend))
      → List RecomputeGroup
      → Result (List RecomputedTrend)
  concat_ok f [] = ok []
  concat_ok f (g ∷ groups) = f g >>= λ trends. concat_ok f groups >>= λ rest. ok (trends ++ rest)

  unfoldable pub recompute_partition : List RecomputeRow → Result (List RecomputedTrend)
  unfolding group_rows concat_ok recompute_group
  recompute_partition rows = concat_ok recompute_group (group_rows [] rows)
