-- ===== src/Tests/Security.antt =====
-- Tests of the security graph: two events of a host, and what the builder makes of them.
use x_dsi_cet.Base.{◌≡◌, refl, some, [], ◌∷◌, map, All}
use x_dsi_cet.Base.Int.{pos}
use x_dsi_cet.Base.Text.{codes, text_eq, is_empty}
use x_dsi_cet.Base.Result.{ok, raise, attribute_error}
use x_dsi_cet.Value.{Value, null, int, str, obj, end, field}
use x_dsi_cet.SecurityGraph.{SecurityEvent, SecurityGraph, SecurityGraphBuilder}
use x_dsi_cet.SecurityGraph.Build.{event, document, build}
use x_dsi_cet.SecurityGraph.Edges.{IsEdge, DistinctEdgeKeys, key_of}
use x_dsi_cet.SecurityGraph.Sound.{build-IsEdge}
use x_dsi_cet.Tests.Samples.{platform}

abbrev builder : SecurityGraphBuilder
builder = record { entity_keys = codes "host_id" ∷ []; max_gap_ms = some (pos 100) }

abbrev first : SecurityEvent
first = record {
  event_id = pos 1;
  partition_key = codes "a";
  event_type = codes "login";
  event_time_ms = pos 10;
  attributes = field (codes "host_id") (str (codes "h")) end;
}

abbrev second_document : Value
second_document = obj (
    field (codes "event_id") (int (pos 2)) (
      field (codes "partition_key") (str (codes "b")) (
        field (codes "event_type") (str (codes "exec")) (
          field (codes "event_time_ms") (int (pos 20))
            (field (codes "host_id") (str (codes "h")) end)))))

abbrev second : SecurityEvent
second = record {
  event_id = pos 2;
  partition_key = codes "b";
  event_type = codes "exec";
  event_time_ms = pos 20;
  attributes = field (codes "host_id") (str (codes "h")) end;
}

abbrev graph : SecurityGraph
graph = record {
  events = first ∷ second ∷ [];
  native_events =
      (pos 1, codes "a", codes "login", pos 10) ∷ (pos 2, codes "b", codes "exec", pos 20) ∷ [];
  native_edges = (pos 1, pos 2, pos 10, pos 20) ∷ [];
  edge_metadata =
      record {
        src = pos 1;
        dst = pos 2;
        relation = codes "same_host";
        window_start_ms = pos 10;
        window_end_ms = pos 20;
        evidence =
            field (codes "field") (str (codes "host_id"))
              (field (codes "value") (str (codes "h")) end);
      }
      ∷ [];
}

build-graph : build builder platform (event first ∷ document second_document ∷ []) ≡ ok graph
unfolding build text_eq is_empty
build-graph = refl

build-null : build builder platform (document null ∷ []) ≡ raise attribute_error
unfolding build
build-null = refl

build-IsEdge_example :
    All (IsEdge (some (pos 100)) graph.events) graph.edge_metadata
    × DistinctEdgeKeys (map key_of graph.edge_metadata)
build-IsEdge_example =
    build-IsEdge builder platform (event first ∷ document second_document ∷ []) graph build-graph
