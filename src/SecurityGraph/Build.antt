-- ===== src/SecurityGraph/Build.antt =====
-- `SecurityGraphBuilder.build` of bindings/python/security_graph.py: the edges of neighbours in a
-- partition, of events that share an entity, and of a process and its child.
use x_dsi_cet.Base.{Bool, true, false, not, List, [], ◌∷◌, ◌++◌, map, if◌then◌else◌, keep}
use x_dsi_cet.Base.Int.{leb_ℤ}
use x_dsi_cet.Base.Text.{Text, codes, is_empty}
use x_dsi_cet.Base.Dict.{Dict, text_key, insert, get_or, values}
use x_dsi_cet.Base.Sort.{sort}
use x_dsi_cet.Base.Result.{Result, ok, raise, type_error, ◌>>=◌, map_ok}
use x_dsi_cet.Value.{Value, Fields, null, str, arr, obj, end, field, value_eq}
use x_dsi_cet.Platform.{Platform}
use x_dsi_cet.Standing.Graph.Candidates.{relation_of}
use x_dsi_cet.SecurityGraph.{
  SecurityEvent, event_from, as_native_vertex, as_dict, nested_get, SecurityGraph,
  SecurityGraphBuilder, EdgeSet, add_edge, time_le, place_le,
}

-- An event of the input: a record, or a dictionary.
pub data RawEvent : Type 0 where
  event : SecurityEvent → RawEvent
  document : Value → RawEvent

unfoldable pub security_event : Platform → RawEvent → Result SecurityEvent
unfolding event_from
security_event p (event e) = ok e
security_event p (document v) = event_from p v

-- `by_partition[e.partition_key].append(e)`, for each event.
unfoldable pub by_partition_from :
    Dict Text (List SecurityEvent) → List SecurityEvent → Dict Text (List SecurityEvent)
unfolding insert get_or
by_partition_from m [] = m
by_partition_from m (e ∷ es) =
    by_partition_from (insert e.partition_key (get_or e.partition_key [] m ++ e ∷ []) m) es

-- `zip(xs, xs[1:])`.
unfoldable pub neighbours : List SecurityEvent → List (SecurityEvent × SecurityEvent)
neighbours [] = []
neighbours (a ∷ []) = []
neighbours (a ∷ b ∷ es) = (a, b) ∷ neighbours (b ∷ es)

abbrev pub Group : Type 0
Group = Value × List SecurityEvent

-- Only these values can be keys of a dictionary.
unfoldable pub is_hashable : Value → Bool
is_hashable (arr vs) = false
is_hashable (obj d) = false
is_hashable _ = true

-- `grouped[value].append(e)`.
unfoldable pub add_to_group : Value → SecurityEvent → List Group → List Group
unfolding value_eq
add_to_group v e [] = (v, e ∷ []) ∷ []
add_to_group v e ((w, es) ∷ groups) =
    if value_eq w v then (w, es ++ e ∷ []) ∷ groups else (w, es) ∷ add_to_group v e groups

-- `value is not None and value != ""`, and `pid is not None`.
unfoldable pub is_entity : Value → Bool
unfolding is_empty
is_entity null = false
is_entity (str s) = not (is_empty s)
is_entity _ = true

unfoldable pub is_given : Value → Bool
is_given null = false
is_given _ = true

unfoldable pub grouped :
    (Value → Bool) → Text → List Group → List SecurityEvent → Result (List Group)
unfolding nested_get as_dict is_hashable add_to_group
grouped wanted key groups [] = ok groups
grouped wanted key groups (e ∷ es) = nested_get (as_dict e) key >>= λ v.
    if not (wanted v)
    then grouped wanted key groups es
    else if is_hashable v
    then grouped wanted key (add_to_group v e groups) es
    else raise type_error

-- `by_process.get(v, [])`.
unfoldable pub group_of : Value → List Group → List SecurityEvent
unfolding value_eq
group_of v [] = []
group_of v ((w, es) ∷ groups) = if value_eq w v then es else group_of v groups

-- `max(…, key=…)`: the first of the greatest.
unfoldable pub latest : SecurityEvent → List SecurityEvent → SecurityEvent
unfolding time_le
latest e [] = e
latest e (d ∷ ds) = latest (if time_le d e then e else d) ds

module _ (builder : SecurityGraphBuilder) where
  abbrev pub Pair : Type 0
  Pair = SecurityEvent × SecurityEvent

  -- One call of `_add_edge` for each pair, with the evidence that the first event gives.
  unfoldable pub add_pairs : Text → (SecurityEvent → Fields) → List Pair → EdgeSet → EdgeSet
  unfolding add_edge
  add_pairs relation evidence [] s = s
  add_pairs relation evidence ((a, b) ∷ pairs) s =
      add_pairs relation evidence pairs (add_edge builder a b relation (evidence a) s)

  abbrev partition_evidence : SecurityEvent → Fields
  partition_evidence e = field (codes "partition_key") (str e.partition_key) end

  unfoldable pub add_temporal : List (List SecurityEvent) → EdgeSet → EdgeSet
  unfolding add_pairs neighbours
  add_temporal [] s = s
  add_temporal (events ∷ partitions) s =
      add_temporal partitions
        (add_pairs (codes "temporal_next") partition_evidence (neighbours events) s)

  abbrev entity_evidence : Text → Value → Fields
  entity_evidence key v = field (codes "field") (str key) (field (codes "value") v end)

  unfoldable pub add_groups : Text → List Group → EdgeSet → EdgeSet
  unfolding add_pairs neighbours sort time_le relation_of
  add_groups key [] s = s
  add_groups key ((v, events) ∷ groups) s = add_groups key groups (
      add_pairs (relation_of key) (λ _. entity_evidence key v) (neighbours (sort time_le events)) s)

  unfoldable pub add_entities : List Text → List SecurityEvent → EdgeSet → Result EdgeSet
  unfolding grouped add_groups is_entity
  add_entities [] events s = ok s
  add_entities (key ∷ entity_keys) events s = grouped is_entity key [] events >>= λ groups.
      add_entities entity_keys events (add_groups key groups s)

  unfoldable pub add_parent : SecurityEvent → Value → List SecurityEvent → EdgeSet → EdgeSet
  unfolding latest add_edge
  add_parent child pid [] s = s
  add_parent child pid (c ∷ candidates) s =
      add_edge builder (latest c candidates) child (codes "parent_process")
        (field (codes "parent_process_id") pid end) s

  unfoldable pub add_parents : List Group → List SecurityEvent → EdgeSet → Result EdgeSet
  unfolding nested_get as_dict is_given is_hashable group_of keep add_parent
  add_parents by_process [] s = ok s
  add_parents by_process (child ∷ children) s =
      nested_get (as_dict child) (codes "parent_process_id") >>= λ pid.
      if not (is_given pid)
      then add_parents by_process children s
      else if is_hashable pid
      then add_parents by_process children (
          add_parent child pid
            (keep (λ e. leb_ℤ e.event_time_ms child.event_time_ms) (group_of pid by_process)) s)
      else raise type_error

  unfoldable pub build_edges : List SecurityEvent → Result EdgeSet
  unfolding by_partition_from values add_temporal add_entities grouped is_given add_parents
  build_edges events =
      let none_yet : EdgeSet = record { seen = []; meta = [] } in
      let temporal = add_temporal (values (by_partition_from [] events)) none_yet in
      add_entities builder.entity_keys events temporal >>= λ related.
      grouped is_given (codes "process_id") [] events >>= λ by_process.
      add_parents by_process events related

  unfoldable pub build : Platform → List RawEvent → Result SecurityGraph
  unfolding map_ok security_event sort place_le build_edges as_native_vertex
  build p raw_events = do
    given ← map_ok (security_event p) raw_events
    let events = sort place_le given
    edges ← build_edges events
    ok (record {
      events = events;
      native_events = map as_native_vertex events;
      native_edges = map (λ m. (m.src, m.dst, m.window_start_ms, m.window_end_ms)) edges.meta;
      edge_metadata = edges.meta;
    })
