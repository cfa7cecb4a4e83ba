-- ===== src/Standing/Graph/Operations.antt =====
-- `upsert_event`, `remove_event`, `snapshot` and `load_snapshot` of `TemporalGraphState`, and the
-- empty state of its constructor.
use x_dsi_cet.Base.{if◌then◌else◌, ℕ, ◌+◌, Option, none, some, List, [], ◌∷◌, ◌++◌}
use x_dsi_cet.Base.Int.{ℤ}
use x_dsi_cet.Base.Text.{Text, codes, is_empty}
use x_dsi_cet.Base.Dict.{Dict, int_key, text_key, lookup, insert, remove, values}
use x_dsi_cet.Value.{Event, obj, end, set_default, partition_of}
use x_dsi_cet.Standing.Graph.{
  GraphEdge, GraphMutation, upsert, remove_op, EdgeIndex, GraphState, add_to_partition,
  drop_from_partition, add_edge, remove_edges_touching,
}
use x_dsi_cet.Standing.Graph.Candidates.{rebuild_edges}

unfoldable pub empty_state : List Text → Option ℤ → GraphState
empty_state entity_keys max_gap_ms = record {
  entity_keys = entity_keys;
  max_gap_ms = max_gap_ms;
  events = [];
  by_partition = [];
  edges = record { by_src = []; by_dst = [] };
  revision = 0;
  mutation_log = [];
}

-- `normalized.setdefault("attributes", {})`.
unfoldable pub normalized : Event → Event
unfolding set_default
normalized e = record e { fields = set_default (codes "attributes") (obj end) e.fields }

-- The branch for an event that replaces one with its id.
unfoldable pub partition_without : Dict ℤ Event → ℤ → Dict Text (List ℤ) → Dict Text (List ℤ)
unfolding drop_from_partition lookup partition_of
partition_without events i m = elim (lookup i events) [
  | none ↦ m
  | some old ↦ drop_from_partition (partition_of old) i m
]

unfoldable pub edges_without : Dict ℤ Event → ℤ → EdgeIndex → EdgeIndex
unfolding remove_edges_touching lookup
edges_without events i ix = elim (lookup i events) [
  | none ↦ ix
  | some _ ↦ remove_edges_touching i ix
]

unfoldable pub record_mutation : GraphState → GraphMutation → GraphState
record_mutation s m = record s { revision = m.revision; mutation_log = s.mutation_log ++ m ∷ [] }

-- The state after `_add_event_only`, before the edges of the event are rebuilt.
unfoldable pub with_event : GraphState → Event → GraphState
unfolding insert add_to_partition partition_without edges_without
with_event s e = record s {
  events = insert e.event_id e s.events;
  by_partition = add_to_partition e (partition_without s.events e.event_id s.by_partition);
  edges = edges_without s.events e.event_id s.edges;
}

unfoldable pub upsert_event : ℤ → GraphState → Event → GraphState × GraphMutation
unfolding normalized with_event rebuild_edges record_mutation partition_of
upsert_event now s event =
    let e = normalized event in
    let s' = with_event s e in
    let s'' = record s' { edges = rebuild_edges s' e s'.edges } in
    let m : GraphMutation = record {
      op = upsert;
      event_id = some e.event_id;
      edge = none;
      partition_key = some (partition_of e);
      revision = s.revision + 1;
      happened_at_ms = now;
    } in
    (record_mutation s'' m, m)

-- `partition_key or "default"`: an empty key is read as the default one.
unfoldable pub key_or_default : Text → Text
unfolding is_empty
key_or_default p = if is_empty p then codes "default" else p

unfoldable pub partition_dropped : Dict ℤ Event → ℤ → Dict Text (List ℤ) → Dict Text (List ℤ)
unfolding drop_from_partition lookup partition_of key_or_default
partition_dropped events i m = elim (lookup i events) [
  | none ↦ m
  | some old ↦ drop_from_partition (key_or_default (partition_of old)) i m
]

unfoldable pub without_event : GraphState → ℤ → GraphState
unfolding remove partition_dropped edges_without
without_event s i = record s {
  events = remove i s.events;
  by_partition = partition_dropped s.events i s.by_partition;
  edges = edges_without s.events i s.edges;
}

abbrev map_partition : Option Event → Option Text
map_partition none = none
map_partition (some e) = some (partition_of e)

-- `remove_event`: of an unknown id only the revision and the log change.
unfoldable pub remove_event : ℤ → GraphState → ℤ → GraphState × GraphMutation
unfolding without_event record_mutation lookup partition_of
remove_event now s i =
    let m : GraphMutation = record {
      op = remove_op;
      event_id = some i;
      edge = none;
      partition_key = map_partition (lookup i s.events);
      revision = s.revision + 1;
      happened_at_ms = now;
    } in
    (record_mutation (without_event s i) m, m)

pub record Snapshot : Type 0 where
  pub revision : ℕ
  pub events : List Event
  pub edges : List GraphEdge

unfoldable pub concat : List (List GraphEdge) → List GraphEdge
concat [] = []
concat (es ∷ rest) = es ++ concat rest

unfoldable pub snapshot : GraphState → Snapshot
unfolding values concat
snapshot s = record {
  revision = s.revision;
  events = values s.events;
  edges = concat (values s.edges.by_src);
}

-- `_add_event_only` and `_add_edge_only` for each entry of a snapshot.
unfoldable pub load_events :
    List Event → Dict ℤ Event → Dict Text (List ℤ) → Dict ℤ Event × Dict Text (List ℤ)
unfolding insert add_to_partition
load_events [] events by_partition = (events, by_partition)
load_events (e ∷ es) events by_partition =
    load_events es (insert e.event_id e events) (add_to_partition e by_partition)

unfoldable pub load_edges : List GraphEdge → EdgeIndex → EdgeIndex
unfolding add_edge
load_edges [] ix = ix
load_edges (e ∷ es) ix = load_edges es (add_edge e ix)

unfoldable pub load_snapshot : GraphState → Snapshot → GraphState
unfolding load_events load_edges
load_snapshot s snap =
    let (events, by_partition) = load_events snap.events [] [] in
    record s {
      events = events;
      by_partition = by_partition;
      edges = load_edges snap.edges (record { by_src = []; by_dst = [] });
      revision = snap.revision;
      mutation_log = [];
    }
