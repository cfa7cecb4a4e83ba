-- ===== src/SecurityGraph/Sound.antt =====
-- `SecurityGraphBuilder.build` of bindings/python/security_graph.py: what its edges join.
use x_dsi_cet.Base.{
  ◌≡◌, refl, inl, inr, List, [], ◌∷◌, map, Bool-cases, In, In-keep, keep, All, All-In,
}
use x_dsi_cet.Base.Int.{leb_ℤ}
use x_dsi_cet.Base.Text.{Text, codes}
use x_dsi_cet.Base.Dict.{text_key}
use x_dsi_cet.Base.Sort.{sort, In-sort}
use x_dsi_cet.Base.Result.{ok, raise, type_error, map_ok, >>=-eq-ok, ok-injective}
use x_dsi_cet.Value.{Value, Fields}
use x_dsi_cet.Platform.{Platform}
use x_dsi_cet.SecurityGraph.{
  SecurityEvent, SecurityGraph, SecurityGraphBuilder, EdgeSet, as_dict, nested_get, time_le,
  place_le,
}
use x_dsi_cet.SecurityGraph.Build.{
  RawEvent, security_event, neighbours, Group, is_hashable, grouped, group_of, latest, add_pairs,
  add_temporal, add_groups, add_entities, add_parent, add_parents, build_edges, build, is_entity,
  is_given,
}
use x_dsi_cet.SecurityGraph.Edges.{IsEdge, IsEdgeSet, DistinctEdgeKeys, key_of, add_edge-IsEdgeSet}
use x_dsi_cet.SecurityGraph.Within.{
  Within, Within-In, events-Within, GroupsWithin, by_partition_from-PartitionsWithin, values-Within,
  grouped-GroupsWithin, group_of-Within, latest-In, PairsWithin, neighbours-PairsWithin,
}

module _ (builder : SecurityGraphBuilder) (events : List SecurityEvent) where
  abbrev Valid : EdgeSet → Type 0
  Valid s = IsEdgeSet builder.max_gap_ms events s

  add_pairs-Valid :
      (relation : Text) (evidence : SecurityEvent → Fields)
      (ps : List (SecurityEvent × SecurityEvent)) (s : EdgeSet)
      → PairsWithin events ps
      → Valid s
      → Valid (add_pairs builder relation evidence ps s)
  unfolding add_pairs
  add_pairs-Valid relation evidence [] s h v = v
  add_pairs-Valid relation evidence ((a, b) ∷ ps) s ((i, j), h) v =
      add_pairs-Valid relation evidence ps _ h
        (add_edge-IsEdgeSet builder events a b relation (evidence a) s i j v)

  add_temporal-Valid :
      (partitions : List (List SecurityEvent)) (s : EdgeSet)
      → All (Within events) partitions
      → Valid s
      → Valid (add_temporal builder partitions s)
  unfolding add_temporal
  add_temporal-Valid [] s h v = v
  add_temporal-Valid (es ∷ partitions) s (k, h) v =
      add_temporal-Valid partitions _ h
        (add_pairs-Valid _ _ (neighbours es) s (neighbours-PairsWithin events es k) v)

  add_groups-Valid :
      (key : Text) (gs : List Group) (s : EdgeSet)
      → GroupsWithin events gs
      → Valid s
      → Valid (add_groups builder key gs s)
  unfolding add_groups
  add_groups-Valid key [] s h v = v
  add_groups-Valid key ((value, es) ∷ gs) s (k, h) v = add_groups-Valid key gs _ h (
      add_pairs-Valid _ _ (neighbours (sort time_le es)) s
        (neighbours-PairsWithin events _ (
          Within-In events (sort time_le es)
            (λ e i. All-In (λ d. In d events) es k e (In-sort time_le e es i))))
        v)

  add_entities-Valid :
      (entity_keys : List Text) (s result : EdgeSet)
      → Valid s
      → add_entities builder entity_keys events s ≡ ok result
      → Valid result
  unfolding add_entities
  add_entities-Valid [] s result v e = rw (← ok-injective s result e) v
  add_entities-Valid (key ∷ entity_keys) s result v e =
      let (gs, found, rest) = >>=-eq-ok (grouped is_entity key [] events) _ e in
      add_entities-Valid entity_keys _ result
        (add_groups-Valid key gs s
          (grouped-GroupsWithin events is_entity key events [] gs tt (events-Within events) found)
          v)
        rest

  add_parent-Valid :
      (child : SecurityEvent) (pid : Value) (es : List SecurityEvent) (s : EdgeSet)
      → In child events
      → Within events es
      → Valid s
      → Valid (add_parent builder child pid es s)
  unfolding add_parent
  add_parent-Valid child pid [] s i h v = v
  add_parent-Valid child pid (c ∷ es) s i (j, h) v =
      add_edge-IsEdgeSet builder events (latest c es) child _ _ s (latest-In events c es j h) i v

  add_parents-Valid :
      (gs : List Group) (children : List SecurityEvent) (s result : EdgeSet)
      → GroupsWithin events gs
      → Within events children
      → Valid s
      → add_parents builder gs children s ≡ ok result
      → Valid result
  unfolding add_parents
  add_parents-Valid gs [] s result h k v e = rw (← ok-injective s result e) v
  add_parents-Valid gs (child ∷ children) s result h (i, k) v e =
      let (pid, _, rest) = >>=-eq-ok (nested_get (as_dict child) (codes "parent_process_id")) _ e in
      elim (Bool-cases (is_given pid)) [
        | inr skip ↦ add_parents-Valid gs children s result h k v (rw skip at rest)
        | inl given ↦ elim (Bool-cases (is_hashable pid)) [
          | inl good ↦
              add_parents-Valid gs children _ result h k
                (add_parent-Valid child pid _ s i (candidates pid) v) (rw (given, good) at rest)
          | inr bad ↦ absurd (raised (rw (given, bad) at rest))
        ]
      ]
    where
      raised : raise type_error ≡ ok result → ⊥
      raised h = cc

      candidates :
          (pid : Value)
          → Within events (keep (λ e. leb_ℤ e.event_time_ms child.event_time_ms) (group_of pid gs))
      candidates pid = Within-In events _ (λ e j.
          All-In (λ d. In d events) (group_of pid gs) (group_of-Within events pid gs h) e
            (In-keep e _ (group_of pid gs) j).1)

  build_edges-Valid : (result : EdgeSet) → build_edges builder events ≡ ok result → Valid result
  unfolding build_edges
  build_edges-Valid result e =
      let (related, found, next) =
        >>=-eq-ok (add_entities builder builder.entity_keys events _) _ e in
      let (by_process, processes, last) =
        >>=-eq-ok (grouped is_given (codes "process_id") [] events) _ next in
      add_parents-Valid by_process events related result
        (grouped-GroupsWithin events is_given (codes "process_id") events [] by_process tt
          (events-Within events) processes)
        (events-Within events)
        (add_entities-Valid builder.entity_keys _ related
          (add_temporal-Valid _ (record { seen = []; meta = [] })
            (values-Within events _
              (by_partition_from-PartitionsWithin events events [] tt (events-Within events)))
            (record { edges = tt; keys = refl; distinct = tt }))
          found)
        last

-- Every edge of a graph that the builder makes goes from one event of the graph to another one with
-- a different id that is not earlier, within the builder's gap, with the two times as its window;
-- and no two edges have the same ends and relation.
pub build-IsEdge :
    (builder : SecurityGraphBuilder) (p : Platform) (raw_events : List RawEvent) (g : SecurityGraph)
    → build builder p raw_events ≡ ok g
    → All (IsEdge builder.max_gap_ms g.events) g.edge_metadata
      × DistinctEdgeKeys (map key_of g.edge_metadata)
unfolding build
build-IsEdge builder p raw_events g e =
    let (given, _, rest) = >>=-eq-ok (map_ok (security_event p) raw_events) _ e in
    let (edges, found, last) = >>=-eq-ok (build_edges builder (sort place_le given)) _ rest in
    let valid = build_edges-Valid builder (sort place_le given) edges found in
    rw (← ok-injective _ g last) (valid.edges, rw valid.keys at valid.distinct)
