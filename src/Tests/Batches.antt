-- ===== src/Tests/Batches.antt =====
-- Tests of the batch programs, with the library of the tests of the bridge.
use x_dsi_cet.Base.{◌≡◌, refl, inl, false, none, some, List, [], ◌∷◌, All, In}
use x_dsi_cet.Base.Int.{ℤ, pos, negsuc}
use x_dsi_cet.Base.Text.{Text, codes, text_eq}
use x_dsi_cet.Base.Dict.{int_key, has}
use x_dsi_cet.Base.Sort.{IsSorted}
use x_dsi_cet.Base.Result.{ok}
use x_dsi_cet.Value.{Fields}
use x_dsi_cet.SecurityGraph.{NativeVertex}
use x_dsi_cet.Batch.{build_temporal_edges, vertex_le, prepared}
use x_dsi_cet.Batch.Order.{ids, DistinctIds, prepared-IsSorted}
use x_dsi_cet.Batch.Recompute.{RecomputeRow, RecomputedTrend, recompute_partition}
use x_dsi_cet.Batch.Rows.{IsRecomputed, recompute_partition-IsRecomputed}
use x_dsi_cet.Batch.Detect.{
  QueryConfig, EventRow, NativeRuntime, failed, detect_partition, config_for,
}
use x_dsi_cet.Batch.Buckets.{row_keys}
use x_dsi_cet.Batch.Groups.{IsRowOfSome, detect_partition-IsRowOf, detect_partition_missing}
use x_dsi_cet.Tests.Samples.{platform}
use x_dsi_cet.Tests.Bridges.{host, library}

abbrev given : List NativeVertex
given =
    (pos 8, codes "a", codes "exec", pos 20)
    ∷ (pos 7, codes "a", codes "login", pos 10)
    ∷ (pos 8, codes "a", codes "exec", pos 30)
    ∷ []

prepared-given :
    prepared given
    ≡ (pos 7, codes "a", codes "login", pos 10) ∷ (pos 8, codes "a", codes "exec", pos 20) ∷ []
unfolding prepared
prepared-given = refl

build_temporal_edges-given :
    build_temporal_edges (prepared given) ≡ (pos 7, pos 8, pos 10, pos 20) ∷ []
unfolding prepared build_temporal_edges
build_temporal_edges-given = refl

prepared-IsSorted_example :
    IsSorted vertex_le (prepared given)
    × DistinctIds (prepared given)
    × ((i : ℤ) → has i (ids (prepared given)) ≡ has i (ids given))
prepared-IsSorted_example = prepared-IsSorted given

abbrev dumps : Fields → Text
dumps stats = codes "{}"

abbrev recompute_row : ℤ → Text → ℤ → RecomputeRow
recompute_row id type time = record {
  query_id = codes "q";
  query_version = codes "1";
  partition_key = codes "a";
  event_id = id;
  event_type = type;
  event_time_ms = time;
  pattern_csv = codes "login,exec";
  within_ms = pos 100;
  slide_ms = pos 10;
  switch_depth = none;
  severity = none;
  score = none;
}

abbrev rows : List RecomputeRow
rows =
    recompute_row (pos 7) (codes "login") (pos 10)
    ∷ recompute_row (pos 8) (codes "exec") (pos 20)
    ∷ []

abbrev recomputed : RecomputedTrend
recomputed = record {
  trend_id = codes "q:1:a:7,8";
  query_id = codes "q";
  query_version = codes "1";
  batch_id = negsuc 0;
  partition_key = codes "a";
  path = pos 7 ∷ pos 8 ∷ [];
  trend_start_ms = some (pos 10);
  trend_end_ms = some (pos 20);
  event_count = 2;
  score = platform.float_of_int (pos 1);
  severity = codes "medium";
  status = codes "active";
  replay_id = codes "r";
  engine_stats = codes "{}";
}

recompute_partition-rows :
    recompute_partition host library dumps (codes "r") rows ≡ ok (recomputed ∷ [])
unfolding recompute_partition text_eq
recompute_partition-rows = refl

recompute_partition-IsRecomputed_example : All (IsRecomputed rows) (recomputed ∷ [])
recompute_partition-IsRecomputed_example =
    recompute_partition-IsRecomputed host library dumps (codes "r") rows (recomputed ∷ [])
      recompute_partition-rows

abbrev config : QueryConfig
config = record {
  query_id = codes "q";
  query_version = codes "1";
  pattern_csv = codes "login,exec";
  within_ms = pos 100;
  slide_ms = pos 10;
  switch_depth = some (pos 2);
  severity = some (codes "high");
  score = none;
}

abbrev event_row : Text → ℤ → EventRow
event_row query id = record {
  query_id = query;
  query_version = codes "1";
  partition_key = codes "a";
  event_id = id;
  event_type = codes "login";
  event_time_ms = pos 10;
}

abbrev event_rows : List EventRow
event_rows = event_row (codes "other") (pos 7) ∷ event_row (codes "q") (pos 7) ∷ []

abbrev native_runtime : NativeRuntime
native_runtime = record {
  native_threads = pos 1;
  enable_mmap_arena = false;
  mmap_workspace_bytes = pos 0;
  madvise_hugepage = false;
}

detect_partition-IsRowOf_example :
    All
      (IsRowOfSome host library dumps native_runtime (row_keys event_rows))
      (detect_partition host library dumps native_runtime (config ∷ []) event_rows)
detect_partition-IsRowOf_example =
    detect_partition-IsRowOf host library dumps native_runtime (config ∷ []) event_rows

detect_partition_missing_example :
    In
      (failed (codes "other", codes "1", codes "a") (codes "unknown") (codes "{}") none)
      (detect_partition host library dumps native_runtime (config ∷ []) event_rows)
unfolding config_for text_eq
detect_partition_missing_example =
    detect_partition_missing host library dumps native_runtime (config ∷ []) event_rows
      (codes "other", codes "1", codes "a") (inl refl) refl
