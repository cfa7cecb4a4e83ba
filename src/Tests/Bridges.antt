-- ===== src/Tests/Bridges.antt =====
-- Tests of the bridge, with a library that counts what it is given and finds one path.
use x_dsi_cet.Base.{
  ℕ, zero, suc, ap, ◌+◌, ◌<◌, ◌≡◌, refl, inl, true, false, none, some, List, [], ◌∷◌, length, arith,
}
use x_dsi_cet.Base.Int.{pos, negsuc}
use x_dsi_cet.Base.Text.{codes, text_eq}
use x_dsi_cet.Base.Result.{ok, raise, overflow_error}
use x_dsi_cet.Value.{set_default}
use x_dsi_cet.SecurityGraph.{NativeVertex}
use x_dsi_cet.Bridge.{
  CetGraph, CetResult, NativeLibrary, cet_max_events, zero_query, zero_exec_stats, c_int,
}
use x_dsi_cet.Bridge.Calls.{
  NativeEdge, Host, CetMatch, RuntimeOptions, build_graph, run_classic, run_hcet, unavailable,
  exec_stats_dict,
}
use x_dsi_cet.Bridge.Dispatch.{paths_of, run_hcet_oversized, run_hcet_fallback}
use x_dsi_cet.Bridge.Overflow.{overflowed, run_hcet-overflow}
use x_dsi_cet.Bridge.Encoding.{AddsToGraph, build_graph-ok}
use x_dsi_cet.Tests.Samples.{platform}

abbrev pub host : Host
host = record { platform = platform; getenv = λ _. none; decode = λ b. b }

abbrev one_path : CetResult
one_path = record { paths = λ _ j. pos (j + 7); path_len = λ _. 2; count = 1 }

abbrev pub library : NativeLibrary
library = record {
  cet_parse_query = λ _ _ _ _ q. (q, pos 0);
  cet_graph_init = λ g. record g { vcount = 0; ecount = 0 };
  cet_graph_add_vertex = λ g _ _ _ _. (record g { vcount = suc g.vcount }, pos 0);
  cet_graph_add_edge = λ g _ _ _ _. (record g { ecount = suc g.ecount }, pos 0);
  cet_execute_hcet = λ _ _ _ _. one_path;
  cet_execute_hcet_ex = some (λ _ _ _ _ stats. (one_path, stats));
  cet_runtime_config_default = some (λ cfg. cfg);
  cet_execute_hcet_parallel_ex = none;
}

abbrev vertices : List NativeVertex
vertices = (pos 7, codes "a", codes "login", pos 10) ∷ (pos 8, codes "a", codes "exec", pos 20) ∷ []

abbrev edges : List NativeEdge
edges = (pos 7, pos 8, pos 10, pos 20) ∷ []

abbrev options : RuntimeOptions
options = record {
  native_threads = some (pos 4);
  enable_mmap_arena = none;
  mmap_workspace_bytes = none;
  madvise_hugepage = none;
}

-- An id of 2^31 or more is another id in C.
c_int_wraps : c_int (pos 2147483649) ≡ negsuc 2147483646
unfolding c_int
c_int_wraps = refl

run_classic-paths :
    paths_of (run_classic host library zero_query vertices edges (pos 2) true)
    ≡ ok ((pos 7 ∷ pos 8 ∷ []) ∷ [])
unfolding run_classic text_eq
run_classic-paths = refl

library-AddsToGraph : AddsToGraph library
library-AddsToGraph = record {
  init_vertices = λ g. refl;
  init_edges = λ g. refl;
  vertex_added = λ g id key type ts h. (refl, refl, refl);
  edge_added = λ g src dst ws we h. (refl, refl, refl);
}

build_graph-ok_example :
    (g : CetGraph) × (build_graph host library vertices edges ≡ ok g)
    × (g.vcount ≡ 2)
    × (g.ecount ≡ 1)
build_graph-ok_example =
    build_graph-ok host library library-AddsToGraph vertices edges (omega arith) (omega arith)

-- As many copies of a vertex as a number says.
unfoldable many : ℕ → List NativeVertex
many zero = []
many (suc n) = (pos 1, codes "a", codes "login", pos 10) ∷ many n

length-many : (n : ℕ) → length (many n) ≡ n
unfolding many
length-many zero = refl
length-many (suc n) = ap suc (length-many n)

too_many : cet_max_events < length (many 200001)
too_many = rw (length-many 200001) (omega arith)

run_hcet_oversized_example :
    run_hcet host library zero_query (many 200001) edges (pos 2) false options none none
    ≡ raise overflow_error
run_hcet_oversized_example =
    run_hcet_oversized host library zero_query (many 200001) edges (pos 2) false options none none
      (inl too_many)

run_hcet_fallback_example :
    paths_of (run_hcet host library zero_query vertices edges (pos 2) false options none none)
    ≡ paths_of (run_classic host library zero_query vertices edges (pos 2) false)
run_hcet_fallback_example =
    run_hcet_fallback host library zero_query vertices edges (pos 2) false options none none refl

abbrev sample_match : CetMatch
sample_match = record {
  paths = (pos 7 ∷ pos 8 ∷ []) ∷ [];
  stats =
      set_default (codes "runtime") (unavailable host library)
        (exec_stats_dict host zero_exec_stats);
}

run_hcet-overflow_example : overflowed sample_match.stats ≡ false
unfolding run_hcet text_eq
run_hcet-overflow_example =
    run_hcet-overflow host library zero_query vertices edges (pos 2) options none none sample_match
      refl
