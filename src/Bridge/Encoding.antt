-- ===== src/Bridge/Encoding.antt =====
-- bindings/python/bridge.py: `_build_graph` over a library that adds what it is given while there
-- is room.
use x_dsi_cet.Base.{
  ℕ, suc, ◌+◌, ◌<◌, ◌≤◌, ◌≡◌, refl, ◌∙◌, false, List, [], ◌∷◌, ltb, length, arith, take,
}
use x_dsi_cet.Base.Int.{ℤ, pos}
use x_dsi_cet.Base.Result.{ok}
use x_dsi_cet.SecurityGraph.{NativeVertex}
use x_dsi_cet.Bridge.{
  Bytes, CetGraph, NativeLibrary, cet_max_events, cet_max_edges, zero_graph, c_int, c_int64, utf8,
}
use x_dsi_cet.Bridge.Calls.{NativeEdge, Host, add_vertices, add_native_edges, build_graph}

-- The library's graph functions: an empty graph to begin with; where there is room, a vertex or an
-- edge is counted and the call succeeds.
pub record AddsToGraph (lib : NativeLibrary) : Type 0 where
  pub init_vertices : (g : CetGraph) → (lib.cet_graph_init g).vcount ≡ 0
  pub init_edges : (g : CetGraph) → (lib.cet_graph_init g).ecount ≡ 0
  pub vertex_added :
      (g : CetGraph) (id : ℤ) (key type : Bytes) (ts : ℤ)
      → g.vcount < cet_max_events
      → ((lib.cet_graph_add_vertex g id key type ts).1 ≡ pos 0)
        × ((lib.cet_graph_add_vertex g id key type ts).0.vcount ≡ suc g.vcount)
        × ((lib.cet_graph_add_vertex g id key type ts).0.ecount ≡ g.ecount)
  pub edge_added :
      (g : CetGraph) (src dst ws we : ℤ)
      → g.ecount < cet_max_edges
      → ((lib.cet_graph_add_edge g src dst ws we).1 ≡ pos 0)
        × ((lib.cet_graph_add_edge g src dst ws we).0.ecount ≡ suc g.ecount)
        × ((lib.cet_graph_add_edge g src dst ws we).0.vcount ≡ g.vcount)

module _ (host : Host) (lib : NativeLibrary) (adds : AddsToGraph lib) where
  add_vertices-ok :
      (events : List NativeVertex) (g : CetGraph)
      → g.vcount + length events ≤ cet_max_events
      → (r : CetGraph) × (add_vertices host lib events g ≡ ok r)
        × (r.vcount ≡ g.vcount + length events)
        × (r.ecount ≡ g.ecount)
  unfolding add_vertices
  add_vertices-ok [] g h = (g, refl, omega arith, refl)
  add_vertices-ok ((eid, pkey, etype, ts) ∷ events) g h =
      let id = c_int eid in
      let key = take 63 (utf8 pkey) in
      let type = take 31 (utf8 etype) in
      let time = c_int64 ts in
      let (rc, counted, same) = adds.vertex_added g id key type time (omega arith) in
      let (r, run, vs, es) =
        add_vertices-ok events (lib.cet_graph_add_vertex g id key type time).0 (omega arith) in
      (r, rw (add_vertices, rc) run, omega arith, es ∙ same)

  add_native_edges-ok :
      (edges : List NativeEdge) (g : CetGraph)
      → g.ecount + length edges ≤ cet_max_edges
      → (r : CetGraph) × (add_native_edges host lib edges g ≡ ok r)
        × (r.ecount ≡ g.ecount + length edges)
        × (r.vcount ≡ g.vcount)
  unfolding add_native_edges
  add_native_edges-ok [] g h = (g, refl, omega arith, refl)
  add_native_edges-ok ((src, dst, ws, we) ∷ edges) g h =
      let (rc, counted, same) =
        adds.edge_added g (c_int src) (c_int dst) (c_int64 ws) (c_int64 we) (omega arith) in
      let (r, run, es, vs) =
        add_native_edges-ok edges
          (lib.cet_graph_add_edge g (c_int src) (c_int dst) (c_int64 ws) (c_int64 we)).0
          (omega arith) in
      (r, rw (add_native_edges, rc) run, omega arith, vs ∙ same)

  -- A graph within the sizes of the C structures is built, and counts each event and each edge.
  pub build_graph-ok :
      (events : List NativeVertex) (edges : List NativeEdge)
      → length events ≤ cet_max_events
      → length edges ≤ cet_max_edges
      → (g : CetGraph) × (build_graph host lib events edges ≡ ok g)
        × (g.vcount ≡ length events)
        × (g.ecount ≡ length edges)
  unfolding build_graph
  build_graph-ok events edges h k =
      let empty = lib.cet_graph_init zero_graph in
      let no_vertices = adds.init_vertices zero_graph in
      let no_edges = adds.init_edges zero_graph in
      let (g, first, vs, es) = add_vertices-ok events empty (omega arith) in
      let (r, second, es', vs') = add_native_edges-ok edges g (omega arith) in
      (
        r,
        rw
            (
              build_graph,
              fits cet_max_events (length events) h,
              fits cet_max_edges (length edges) k,
              first,
            )
            second,
        vs' ∙ omega arith,
        es' ∙ omega arith,
      )
    where
      fits : (most n : ℕ) → n ≤ most → ltb most n ≡ false
      fits most n h = ground arith
