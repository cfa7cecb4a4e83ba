-- ===== src/Bridge.antt =====
-- bindings/python/bridge.py: the C structures of the bridge, and the native library as the functions
-- that `_bind` declares. What the library does is an argument. An array of a structure is a function
-- of the index; a pointer is its address.
pub mod Calls
pub mod Dispatch
pub mod Overflow
pub mod Encoding
use x_dsi_cet.Base.{
  ℕ, suc, ◌+◌, ◌-◌, ◌*◌, ◌/◌, ◌%◌, Bool, true, false, Option, none, some, List, [], ◌∷◌, ◌++◌, ltb,
  leb, ◌==◌, if◌then◌else◌,
}
use x_dsi_cet.Base.Int.{ℤ, pos, negsuc, sub_ℕ, eqb_ℤ}
use x_dsi_cet.Base.Text.{Text, codes}
use x_dsi_cet.Value.{Value, Fields, bool, int, str, obj, end, field}
use x_dsi_cet.Platform.{Float}

abbrev pub cet_max_events : ℕ
cet_max_events = 200000

abbrev pub cet_max_edges : ℕ
cet_max_edges = 1000000

abbrev pub cet_max_paths : ℕ
cet_max_paths = 100000

abbrev pub cet_max_path_len : ℕ
cet_max_path_len = 64

abbrev pub cet_runtime_config_version : ℕ
cet_runtime_config_version = 1

abbrev pub Bytes : Type 0
Bytes = List ℕ

-- An integer given to a C parameter of a width: unsigned, and signed.
unfoldable pub unsigned_of : ℕ → ℤ → ℕ
unsigned_of size (pos n) = n % size
unsigned_of size (negsuc n) = size - 1 - n % size

abbrev signed_from : ℕ → ℕ → ℤ
signed_from size u = if ltb u (size / 2) then pos u else sub_ℕ u size

unfoldable pub c_int : ℤ → ℤ
unfolding unsigned_of
c_int n = signed_from 4294967296 (unsigned_of 4294967296 n)

unfoldable pub c_int64 : ℤ → ℤ
unfolding unsigned_of
c_int64 n = signed_from 18446744073709551616 (unsigned_of 18446744073709551616 n)

unfoldable pub c_size : ℤ → ℕ
unfolding unsigned_of
c_size n = unsigned_of 18446744073709551616 n

abbrev pub c_bool : Bool → ℤ
c_bool true = pos 1
c_bool false = pos 0

-- `s.encode("utf-8")`; a text has no surrogates.
unfoldable pub utf8_char : ℕ → Bytes
utf8_char c =
    if ltb c 128
    then c ∷ []
    else if ltb c 2048
    then (192 + c / 64) ∷ (128 + c % 64) ∷ []
    else if ltb c 65536
    then (224 + c / 4096) ∷ (128 + c / 64 % 64) ∷ (128 + c % 64) ∷ []
    else (240 + c / 262144) ∷ (128 + c / 4096 % 64) ∷ (128 + c / 64 % 64) ∷ (128 + c % 64) ∷ []

unfoldable pub utf8 : Text → Bytes
unfolding utf8_char
utf8 [] = []
utf8 (c ∷ s) = utf8_char c ++ utf8 s

pub record CetEventType : Type 0 where
  pub name : Bytes
  pub kleene_plus : ℤ
  pub predicate : ℕ
  pub predicate_ctx : ℕ

pub record CetQuery : Type 0 where
  pub name : Bytes
  pub seq : ℕ → CetEventType
  pub seq_len : ℕ
  pub within_ms : ℤ
  pub slide_ms : ℤ
  pub skip_till_any_match : ℤ

pub record CetVertex : Type 0 where
  pub id : ℤ
  pub partition_key : Bytes
  pub event_type : Bytes
  pub event_time_ms : ℤ

pub record CetEdge : Type 0 where
  pub src : ℤ
  pub dst : ℤ
  pub window_start_ms : ℤ
  pub window_end_ms : ℤ

pub record CetGraph : Type 0 where
  pub vertices : ℕ → CetVertex
  pub edges : ℕ → CetEdge
  pub vcount : ℕ
  pub ecount : ℕ

pub record CetResult : Type 0 where
  pub paths : ℕ → ℕ → ℤ
  pub path_len : ℕ → ℕ
  pub count : ℕ

pub record CetExecStats : Type 0 where
  pub paths_emitted : ℕ
  pub paths_truncated : ℕ
  pub states_enqueued : ℕ
  pub states_truncated : ℕ
  pub seed_paths : ℕ
  pub max_depth_seen : ℕ
  pub temporal_rejects : ℕ
  pub edge_window_rejects : ℕ
  pub predicate_rejects : ℕ
  pub overflow : ℤ
  pub error : Bytes

pub record CetRuntimeConfig : Type 0 where
  pub version : ℕ
  pub native_threads : ℕ
  pub enable_mmap_arena : ℤ
  pub mmap_workspace_bytes : ℕ
  pub madvise_hugepage : ℤ
  pub deterministic_merge : ℤ

pub record CetRuntimeStats : Type 0 where
  pub native_threads_requested : ℕ
  pub native_threads_used : ℕ
  pub workspace_bytes : ℕ
  pub used_mmap_arena : ℤ
  pub parallel_enabled : ℤ
  pub error : Bytes

-- The functions of the library with their argument types. A function takes the structures that it
-- is given a pointer to, and returns them as it leaves them. The last three may be missing.
pub record NativeLibrary : Type 0 where
  pub cet_parse_query : Bytes → Bytes → ℤ → ℤ → CetQuery → CetQuery × ℤ
  pub cet_graph_init : CetGraph → CetGraph
  pub cet_graph_add_vertex : CetGraph → ℤ → Bytes → Bytes → ℤ → CetGraph × ℤ
  pub cet_graph_add_edge : CetGraph → ℤ → ℤ → ℤ → ℤ → CetGraph × ℤ
  pub cet_execute_hcet : CetGraph → CetQuery → ℕ → CetResult → CetResult
  pub cet_execute_hcet_ex :
      Option (CetGraph → CetQuery → ℕ → CetResult → CetExecStats → CetResult × CetExecStats)
  pub cet_runtime_config_default : Option (CetRuntimeConfig → CetRuntimeConfig)
  pub cet_execute_hcet_parallel_ex : Option (
      CetGraph
      → CetQuery
      → ℕ
      → CetRuntimeConfig
      → CetResult
      → CetExecStats
      → CetRuntimeStats
      → CetResult × CetExecStats × CetRuntimeStats × ℤ)

-- A structure is made of zeros.
abbrev zero_event_type : CetEventType
zero_event_type = record { name = []; kleene_plus = pos 0; predicate = 0; predicate_ctx = 0 }

abbrev pub zero_query : CetQuery
zero_query = record {
  name = [];
  seq = λ _. zero_event_type;
  seq_len = 0;
  within_ms = pos 0;
  slide_ms = pos 0;
  skip_till_any_match = pos 0;
}

abbrev pub zero_graph : CetGraph
zero_graph = record {
  vertices = λ _. record { id = pos 0; partition_key = []; event_type = []; event_time_ms = pos 0 };
  edges = λ _. record { src = pos 0; dst = pos 0; window_start_ms = pos 0; window_end_ms = pos 0 };
  vcount = 0;
  ecount = 0;
}

abbrev pub zero_result : CetResult
zero_result = record { paths = λ _ _. pos 0; path_len = λ _. 0; count = 0 }

abbrev pub zero_exec_stats : CetExecStats
zero_exec_stats = record {
  paths_emitted = 0;
  paths_truncated = 0;
  states_enqueued = 0;
  states_truncated = 0;
  seed_paths = 0;
  max_depth_seen = 0;
  temporal_rejects = 0;
  edge_window_rejects = 0;
  predicate_rejects = 0;
  overflow = pos 0;
  error = [];
}

abbrev pub zero_config : CetRuntimeConfig
zero_config = record {
  version = 0;
  native_threads = 0;
  enable_mmap_arena = pos 0;
  mmap_workspace_bytes = 0;
  madvise_hugepage = pos 0;
  deterministic_merge = pos 0;
}

abbrev pub zero_runtime_stats : CetRuntimeStats
zero_runtime_stats = record {
  native_threads_requested = 0;
  native_threads_used = 0;
  workspace_bytes = 0;
  used_mmap_arena = pos 0;
  parallel_enabled = pos 0;
  error = [];
}
