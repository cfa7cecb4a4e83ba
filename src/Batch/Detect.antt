-- ===== src/Batch/Detect.antt =====
-- `make_process_partition` of notebooks/0xDSI_CET_Databricks_prod.py: one row for each trend of a
-- group of events, or one row for the failure of the group. Messages are the class of the
-- exception. The cost coefficients are given to the library before.
use x_dsi_cet.Base.{
  ℕ, Bool, false, Option, none, some, List, [], ◌∷◌, ◌++◌, map, if◌then◌else◌, length, ◌&&◌,
}
use x_dsi_cet.Base.Int.{ℤ, pos}
use x_dsi_cet.Base.Text.{Text, codes, text_eq}
use x_dsi_cet.Base.Dict.{Dict}
use x_dsi_cet.Base.Result.{Result, Error, ok, raise, type_error, ◌>>=◌}
use x_dsi_cet.Value.{Value, Fields, int, null, end, field}
use x_dsi_cet.Platform.{Float, float_of}
use x_dsi_cet.Document.{get_value}
use x_dsi_cet.SecurityGraph.{NativeVertex}
use x_dsi_cet.Bridge.{NativeLibrary}
use x_dsi_cet.Bridge.Calls.{Host, CetMatch, parse_query, RuntimeOptions, run_hcet_parallel}
use x_dsi_cet.Batch.{
  trend_id, build_temporal_edges, prepared, times_by_id, known_times, least, greatest, time_of,
  int_or_default, text_or_default, float_or_one, GroupKey, same_group,
}

pub record QueryConfig : Type 0 where
  pub query_id : Text
  pub query_version : Text
  pub pattern_csv : Text
  pub within_ms : ℤ
  pub slide_ms : ℤ
  pub switch_depth : Option ℤ
  pub severity : Option Text
  pub score : Option Float

pub record EventRow : Type 0 where
  pub query_id : Text
  pub query_version : Text
  pub partition_key : Text
  pub event_id : ℤ
  pub event_type : Text
  pub event_time_ms : ℤ

pub record NativeRuntime : Type 0 where
  pub native_threads : ℤ
  pub enable_mmap_arena : Bool
  pub mmap_workspace_bytes : ℤ
  pub madvise_hugepage : Bool

pub record TrendRow : Type 0 where
  pub group : GroupKey
  pub trend_id : Text
  pub path : List ℤ
  pub trend_start_ms : Option ℤ
  pub trend_end_ms : Option ℤ
  pub event_count : ℕ
  pub score : Float
  pub severity : Text
  pub path_count : Float
  pub paths_truncated : Float
  pub states_truncated : Float
  pub temporal_rejects : Float
  pub stats_json : Text

-- The rows that begin with "ok" and with "err".
pub data OutputRow : Type 0 where
  trend : TrendRow → OutputRow
  failed : GroupKey → Text → Text → Option Error → OutputRow

abbrev pub row_event : EventRow → NativeVertex
row_event r = (r.event_id, r.partition_key, r.event_type, r.event_time_ms)

abbrev pub row_key : EventRow → GroupKey
row_key r = (r.query_id, r.query_version, r.partition_key)

abbrev pub EventGroup : Type 0
EventGroup = GroupKey × List NativeVertex

-- `bucket.setdefault(key, []).append(event)`.
unfoldable pub add_to_bucket : GroupKey → NativeVertex → List EventGroup → List EventGroup
unfolding text_eq
add_to_bucket key e [] = (key, e ∷ []) ∷ []
add_to_bucket key e ((k, es) ∷ groups) =
    if same_group k key then (k, es ++ e ∷ []) ∷ groups else (k, es) ∷ add_to_bucket key e groups

unfoldable pub bucket_from : List EventGroup → List EventRow → List EventGroup
unfolding add_to_bucket
bucket_from groups [] = groups
bucket_from groups (r ∷ rows) = bucket_from (add_to_bucket (row_key r) (row_event r) groups) rows

-- `config_by_key.get((query_id, query_version))`: the last of several configurations counts.
unfoldable pub config_for : GroupKey → List QueryConfig → Option QueryConfig
unfolding text_eq
config_for key [] = none
config_for (q, v, p) (c ∷ configs) = elim (config_for (q, v, p) configs) [
  | some d ↦ some d
  | none ↦ if text_eq c.query_id q && text_eq c.query_version v then some c else none
]

abbrev asked : NativeRuntime → RuntimeOptions
asked r = record {
  native_threads = some r.native_threads;
  enable_mmap_arena = some r.enable_mmap_arena;
  mmap_workspace_bytes = some r.mmap_workspace_bytes;
  madvise_hugepage = some r.madvise_hugepage;
}

abbrev float_found : Option Float → Result Float
float_found none = raise type_error
float_found (some x) = ok x

abbrev optional_value : Option ℤ → Value
optional_value none = null
optional_value (some n) = int n

module _ (host : Host) (lib : NativeLibrary) (dumps : Fields → Text)
    (native_runtime : NativeRuntime) where
  -- `float(match.stats.get(name, 0))`.
  unfoldable pub stat : Text → Fields → Result Float
  unfolding get_value float_of
  stat name stats = float_found (float_of host.platform (get_value name (int (pos 0)) stats))

  unfoldable pub trend_row :
      GroupKey → QueryConfig → Dict ℤ ℤ → CetMatch → List ℤ → Result OutputRow
  unfolding stat known_times least greatest trend_id
  trend_row (query_id, query_version, partition_key) cfg time_by_id m path = do
    let p = host.platform
    let times = known_times time_by_id path
    paths_truncated ← stat (codes "paths_truncated") m.stats
    states_truncated ← stat (codes "states_truncated") m.stats
    temporal_rejects ← stat (codes "temporal_rejects") m.stats
    ok (
        trend (record {
          group = (query_id, query_version, partition_key);
          trend_id = trend_id p query_id query_version partition_key path;
          path = path;
          trend_start_ms = least times;
          trend_end_ms = greatest times;
          event_count = length path;
          score = float_or_one p cfg.score;
          severity = text_or_default (codes "medium") cfg.severity;
          path_count = p.float_of_int (pos (length m.paths));
          paths_truncated = paths_truncated;
          states_truncated = states_truncated;
          temporal_rejects = temporal_rejects;
          stats_json = dumps m.stats;
        }))

  -- The row for an exception, behind the rows that were already given.
  unfoldable pub failure : GroupKey → QueryConfig → List NativeVertex → Error → OutputRow
  unfolding least greatest
  failure key cfg events e =
      failed key (text_or_default (codes "unknown") cfg.severity)
        (dumps (
          field (codes "event_count") (int (pos (length events))) (
            field (codes "first_event_time_ms") (optional_value (least (map time_of events))) (
              field (codes "last_event_time_ms") (optional_value (greatest (map time_of events)))
                end))))
        (some e)

  unfoldable pub trend_rows :
      GroupKey → QueryConfig → List NativeVertex → CetMatch → List (List ℤ) → List OutputRow
  unfolding trend_row failure times_by_id
  trend_rows key cfg events m [] = []
  trend_rows key cfg events m (path ∷ paths) =
      let rest = trend_rows key cfg events m paths in
      elim (trend_row key cfg (times_by_id [] events) m path) [
        | ok row ↦ row ∷ rest
        | raise e ↦ failure key cfg events e ∷ []
      ]

  unfoldable pub detect_match : GroupKey → QueryConfig → List NativeVertex → Result CetMatch
  unfolding parse_query run_hcet_parallel build_temporal_edges
  detect_match (query_id, query_version, partition_key) cfg events =
      parse_query host lib query_id cfg.pattern_csv cfg.within_ms cfg.slide_ms >>= λ q.
      run_hcet_parallel host lib q events (build_temporal_edges events)
        (int_or_default (pos 2) cfg.switch_depth) (asked native_runtime) false

  unfoldable pub detect_group : List QueryConfig → EventGroup → List OutputRow
  unfolding config_for prepared detect_match trend_rows failure
  detect_group configs (key, given) = elim (config_for key configs) [
    | none ↦ failed key (codes "unknown") (codes "{}") none ∷ []
    | some cfg ↦
        let events = prepared given in
        elim (detect_match key cfg events) [
          | ok m ↦ trend_rows key cfg events m m.paths
          | raise e ↦ failure key cfg events e ∷ []
        ]
  ]

  unfoldable pub detect_groups : List QueryConfig → List EventGroup → List OutputRow
  unfolding detect_group
  detect_groups configs [] = []
  detect_groups configs (g ∷ groups) = detect_group configs g ++ detect_groups configs groups

  -- `process_partition`.
  unfoldable pub detect_partition : List QueryConfig → List EventRow → List OutputRow
  unfolding bucket_from detect_groups
  detect_partition configs rows = detect_groups configs (bucket_from [] rows)
