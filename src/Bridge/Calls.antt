-- ===== src/Bridge/Calls.antt =====
-- The methods of `CETBridge` (bindings/python/bridge.py), over the native library and the
-- environment. The messages of the exceptions are not kept.
use x_dsi_cet.Base.{
  ℕ, zero, suc, Bool, true, false, not, ◌&&◌, ◌||◌, Option, none, some, List, [], ◌∷◌, ltb, ◌==◌,
  if◌then◌else◌, length, any, take,
}
use x_dsi_cet.Base.Int.{ℤ, pos, eqb_ℤ, max_ℤ}
use x_dsi_cet.Base.Text.{Text, codes, text_eq, lower, strip}
use x_dsi_cet.Base.Result.{
  Result, ok, overflow_error, runtime_error, index_error, ◌>>=◌, ◌>>◌, require, map_ok,
}
use x_dsi_cet.Value.{Value, Fields, bool, int, str, obj, end, field, set_default, truthy, null}
use x_dsi_cet.Platform.{Platform}
use x_dsi_cet.Contracts.{int_of}
use x_dsi_cet.Document.{get_value, put}
use x_dsi_cet.SecurityGraph.{NativeVertex}
use x_dsi_cet.Bridge.{
  Bytes, utf8, c_int, c_int64, c_size, c_bool, cet_max_events, cet_max_edges, cet_max_paths,
  cet_max_path_len, cet_runtime_config_version, CetQuery, CetGraph, CetResult, CetExecStats,
  CetRuntimeConfig, CetRuntimeStats, NativeLibrary, zero_query, zero_graph, zero_result,
  zero_exec_stats, zero_config, zero_runtime_stats,
}

abbrev pub NativeEdge : Type 0
NativeEdge = ℤ × ℤ × ℤ × ℤ

-- `os.getenv`, and `bytes.decode("utf-8", errors="replace")`.
pub record Host : Type 0 where
  pub platform : Platform
  pub getenv : Text → Option Text
  pub decode : Bytes → Text

pub record CetMatch : Type 0 where
  pub paths : List (List ℤ)
  pub stats : Fields

-- `_env_bool`.
unfoldable pub env_bool : Host → Text → Bool → Bool
unfolding any text_eq lower strip
env_bool host name default = elim (host.getenv name) [
  | none ↦ default
  | some raw ↦
      any (text_eq (lower (strip raw))) (codes "1" ∷ codes "true" ∷ codes "yes" ∷ codes "on" ∷ [])
]

-- `int(os.getenv(name, default))`.
unfoldable pub env_int : Host → Text → Text → Result ℤ
unfolding int_of
env_int host name default =
    int_of host.platform (str (elim (host.getenv name) [ none ↦ default | some raw ↦ raw ]))

-- `error.split(b"\0", 1)[0]`.
unfoldable pub until_nul : Bytes → Bytes
until_nul [] = []
until_nul (b ∷ bs) = let rest = until_nul bs in if b == 0 then [] else b ∷ rest

abbrev flag : ℤ → Value
flag n = bool (not (eqb_ℤ n (pos 0)))

abbrev count_of : ℕ → Value
count_of n = int (pos n)

-- `CETExecStats.as_dict`.
unfoldable pub exec_stats_dict : Host → CetExecStats → Fields
unfolding until_nul
exec_stats_dict host s = field (codes "paths_emitted") (count_of s.paths_emitted) (
    field (codes "paths_truncated") (count_of s.paths_truncated) (
      field (codes "states_enqueued") (count_of s.states_enqueued) (
        field (codes "states_truncated") (count_of s.states_truncated) (
          field (codes "seed_paths") (count_of s.seed_paths) (
            field (codes "max_depth_seen") (count_of s.max_depth_seen) (
              field (codes "temporal_rejects") (count_of s.temporal_rejects) (
                field (codes "edge_window_rejects") (count_of s.edge_window_rejects) (
                  field (codes "predicate_rejects") (count_of s.predicate_rejects) (
                    field (codes "overflow") (flag s.overflow)
                      (field (codes "error") (str (host.decode (until_nul s.error))) end))))))))))

-- `CETRuntimeStats.as_dict`.
unfoldable pub runtime_stats_dict : Host → CetRuntimeStats → Fields
unfolding until_nul
runtime_stats_dict host s =
    field (codes "native_threads_requested") (count_of s.native_threads_requested) (
      field (codes "native_threads_used") (count_of s.native_threads_used) (
        field (codes "workspace_bytes") (count_of s.workspace_bytes) (
          field (codes "used_mmap_arena") (flag s.used_mmap_arena) (
            field (codes "parallel_enabled") (flag s.parallel_enabled)
              (field (codes "error") (str (host.decode (until_nul s.error))) end)))))

abbrev is_zero : ℤ → Bool
is_zero rc = eqb_ℤ rc (pos 0)

unfoldable pub range_from : ℕ → ℕ → List ℕ
range_from start zero = []
range_from start (suc n) = start ∷ range_from (suc start) n

-- `out.paths[i][j]` and `[out.paths[i][j] for j in range(out.path_len[i])]`.
unfoldable pub vertex_at : CetResult → ℕ → ℕ → Result ℤ
vertex_at out i j = require (ltb j cet_max_path_len) index_error >> ok (out.paths i j)

unfoldable pub path_at : CetResult → ℕ → Result (List ℤ)
unfolding map_ok range_from vertex_at
path_at out i =
    require (ltb i cet_max_paths) index_error
    >> map_ok (vertex_at out i) (range_from 0 (out.path_len i))

-- `_paths_from_result`.
unfoldable pub paths_from_result : CetResult → Result (List (List ℤ))
unfolding map_ok range_from path_at
paths_from_result out = map_ok (path_at out) (range_from 0 out.count)

-- The keyword arguments of a parallel run that may be absent.
pub record RuntimeOptions : Type 0 where
  pub native_threads : Option ℤ
  pub enable_mmap_arena : Option Bool
  pub mmap_workspace_bytes : Option ℤ
  pub madvise_hugepage : Option Bool

abbrev or_option : {A : Type 0} → Option A → Option A → Option A
or_option none b = b
or_option (some a) b = some a

abbrev is_some : {A : Type 0} → Option A → Bool
is_some none = false
is_some (some a) = true

unfoldable pub asks_runtime : RuntimeOptions → Bool
asks_runtime o =
    is_some o.native_threads
    || is_some o.enable_mmap_arena
    || is_some o.mmap_workspace_bytes
    || is_some o.madvise_hugepage

-- The options with their other names.
abbrev pub all_options : RuntimeOptions → Option Bool → Option ℤ → RuntimeOptions
all_options o use_mmap_arena mmap_arena_bytes = record o {
  enable_mmap_arena = or_option o.enable_mmap_arena use_mmap_arena;
  mmap_workspace_bytes = or_option o.mmap_workspace_bytes mmap_arena_bytes;
}

module _ (host : Host) (lib : NativeLibrary) where
  unfoldable pub parse_query : Text → Text → ℤ → ℤ → Result CetQuery
  unfolding utf8 c_int64
  parse_query name seq_csv within_ms slide_ms =
      let (q, rc) =
        lib.cet_parse_query (utf8 name) (utf8 seq_csv) (c_int64 within_ms) (c_int64 slide_ms)
          zero_query in
      require (is_zero rc) runtime_error >> ok q

  -- The two loops of `_build_graph`.
  unfoldable pub add_vertices : List NativeVertex → CetGraph → Result CetGraph
  unfolding utf8 c_int c_int64
  add_vertices [] g = ok g
  add_vertices ((eid, pkey, etype, ts) ∷ events) g =
      let (g', rc) =
        lib.cet_graph_add_vertex g (c_int eid) (take 63 (utf8 pkey)) (take 31 (utf8 etype))
          (c_int64 ts) in
      require (is_zero rc) overflow_error >> add_vertices events g'

  unfoldable pub add_native_edges : List NativeEdge → CetGraph → Result CetGraph
  unfolding c_int c_int64
  add_native_edges [] g = ok g
  add_native_edges ((src, dst, ws, we) ∷ edges) g =
      let (g', rc) = lib.cet_graph_add_edge g (c_int src) (c_int dst) (c_int64 ws) (c_int64 we) in
      require (is_zero rc) overflow_error >> add_native_edges edges g'

  -- `_build_graph`.
  unfoldable pub build_graph : List NativeVertex → List NativeEdge → Result CetGraph
  unfolding add_vertices add_native_edges
  build_graph events edges =
      require (not (ltb cet_max_events (length events))) overflow_error
      >> (require (not (ltb cet_max_edges (length edges))) overflow_error
          >> (add_vertices events (lib.cet_graph_init zero_graph) >>= add_native_edges edges))

  -- `if raise_on_overflow and stats_dict.get("overflow"): raise`.
  unfoldable pub check_overflow : Bool → Fields → Result (Unit {0})
  unfolding truthy get_value
  check_overflow raise_on_overflow stats =
      require (not (raise_on_overflow && truthy (get_value (codes "overflow") null stats)))
        overflow_error

  -- `run_hcet` behind its dispatch.
  unfoldable pub run_classic :
      CetQuery → List NativeVertex → List NativeEdge → ℤ → Bool → Result CetMatch
  unfolding build_graph c_size exec_stats_dict check_overflow paths_from_result
  run_classic query events edges switch_depth raise_on_overflow = do
    g ← build_graph events edges
    elim lib.cet_execute_hcet_ex [
      | some execute ↦
          let (out, stats) = execute g query (c_size switch_depth) zero_result zero_exec_stats in
          let stats_dict = exec_stats_dict host stats in
          check_overflow raise_on_overflow stats_dict
          >> (paths_from_result out >>= λ paths. ok (record { paths = paths; stats = stats_dict }))
      | none ↦
          let out = lib.cet_execute_hcet g query (c_size switch_depth) zero_result in
          paths_from_result out >>= λ paths. ok (record { paths = paths; stats = end })
    ]

  -- The configuration without the arguments of the call.
  unfoldable pub base_config : Result CetRuntimeConfig
  unfolding env_int env_bool c_size
  base_config = elim lib.cet_runtime_config_default [
    | some fill ↦ ok (fill zero_config)
    | none ↦ do
      threads ← env_int host (codes "CET_NATIVE_THREADS") (codes "1")
      bytes ← env_int host (codes "CET_MMAP_WORKSPACE_BYTES") (codes "0")
      ok (record {
        version = cet_runtime_config_version;
        native_threads = c_size threads;
        enable_mmap_arena = c_bool (env_bool host (codes "CET_ENABLE_MMAP_ARENA") false);
        mmap_workspace_bytes = c_size bytes;
        madvise_hugepage = c_bool (env_bool host (codes "CET_MADVISE_HUGEPAGE") false);
        deterministic_merge = pos 1;
      })
  ]

  unfoldable pub with_options : RuntimeOptions → Bool → CetRuntimeConfig → CetRuntimeConfig
  unfolding c_size
  with_options o deterministic_merge cfg = record cfg {
    native_threads = elim o.native_threads [
      | none ↦ cfg.native_threads
      | some n ↦ c_size (max_ℤ (pos 1) n)
    ];
    enable_mmap_arena = elim o.enable_mmap_arena [
      | none ↦ cfg.enable_mmap_arena
      | some b ↦ c_bool b
    ];
    mmap_workspace_bytes = elim o.mmap_workspace_bytes [
      | none ↦ cfg.mmap_workspace_bytes
      | some n ↦ c_size (max_ℤ (pos 0) n)
    ];
    madvise_hugepage = elim o.madvise_hugepage [ none ↦ cfg.madvise_hugepage | some b ↦ c_bool b ];
    deterministic_merge = c_bool deterministic_merge;
  }

  unfoldable pub runtime_config : RuntimeOptions → Bool → Result CetRuntimeConfig
  unfolding base_config with_options
  runtime_config o deterministic_merge =
      base_config >>= λ cfg. ok (with_options o deterministic_merge cfg)

  abbrev pub unavailable : Value
  unavailable = obj (
      field (codes "parallel_enabled") (bool false)
        (field (codes "error") (str (codes "parallel symbol unavailable")) end))

  -- Without the parallel symbol, `run_hcet` is called without options, so it does not dispatch.
  unfoldable pub run_hcet_parallel :
      CetQuery → List NativeVertex → List NativeEdge → ℤ → RuntimeOptions → Bool → Result CetMatch
  unfolding run_classic set_default build_graph runtime_config c_size exec_stats_dict
      runtime_stats_dict put check_overflow paths_from_result
  run_hcet_parallel query events edges switch_depth o raise_on_overflow =
      elim lib.cet_execute_hcet_parallel_ex [
        | none ↦ run_classic query events edges switch_depth raise_on_overflow >>= λ m.
            ok (record {
              paths = m.paths;
              stats = set_default (codes "runtime") unavailable m.stats;
            })
        | some execute ↦ build_graph events edges >>= λ g. runtime_config o true >>= λ cfg.
            let (out, stats, runtime_stats, rc) =
              execute g query (c_size switch_depth) cfg zero_result zero_exec_stats
                zero_runtime_stats in
            let stats_dict =
              put (codes "runtime") (obj (runtime_stats_dict host runtime_stats))
                (exec_stats_dict host stats) in
            require (is_zero rc) runtime_error
            >> (check_overflow raise_on_overflow stats_dict
                >> (paths_from_result out >>= λ paths.
                    ok (record { paths = paths; stats = stats_dict })))
      ]

  -- `run_hcet`; the second pair of options are other names of two of the first.
  unfoldable pub run_hcet :
      CetQuery
      → List NativeVertex
      → List NativeEdge
      → ℤ
      → Bool
      → RuntimeOptions
      → Option Bool
      → Option ℤ
      → Result CetMatch
  unfolding asks_runtime run_hcet_parallel run_classic
  run_hcet query events edges switch_depth raise_on_overflow o use_mmap_arena mmap_arena_bytes =
      let asked = all_options o use_mmap_arena mmap_arena_bytes in
      if asks_runtime asked
      then run_hcet_parallel query events edges switch_depth asked raise_on_overflow
      else run_classic query events edges switch_depth raise_on_overflow
