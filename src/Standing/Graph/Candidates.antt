-- ===== src/Standing/Graph/Candidates.antt =====
-- `_rebuild_edges_for_event` of bindings/python/standing/runtime.py.
use x_dsi_cet.Base.{
  Bool, true, false, not, ◌&&◌, Option, none, some, List, [], ◌∷◌, ◌++◌, if◌then◌else◌, keep,
}
use x_dsi_cet.Base.Int.{ℤ, eqb_ℤ, leb_ℤ}
use x_dsi_cet.Base.Text.{Text, codes, is_empty}
use x_dsi_cet.Base.Dict.{int_key, Dict, text_key, lookup, values}
use x_dsi_cet.Value.{
  Value, Event, null, str, end, field, value_eq, event_field, partition_of, time_of,
}
use x_dsi_cet.Standing.Match.{event_le}
use x_dsi_cet.Standing.Graph.{
  EdgeIndex, GraphState, events_for_partition, maybe_add_relation_edge, maybe_add_temporal_edge,
}

-- The events next to the first one with the id: `i - 1`, then `i + 1`.
unfoldable pub first_of_list : List Event → List Event
first_of_list [] = []
first_of_list (e ∷ es) = e ∷ []

unfoldable pub neighbours_from : ℤ → List Event → List Event → List Event
unfolding first_of_list
neighbours_from i before [] = []
neighbours_from i before (e ∷ es) =
    let later = neighbours_from i (e ∷ []) es in
    if eqb_ℤ e.event_id i then before ++ first_of_list es else later

unfoldable pub neighbours : ℤ → List Event → List Event
unfolding neighbours_from
neighbours i events = neighbours_from i [] events

unfoldable pub add_temporal_edges : Option ℤ → Event → List Event → EdgeIndex → EdgeIndex
add_temporal_edges gap e [] ix = ix
add_temporal_edges gap e (n ∷ ns) ix =
    add_temporal_edges gap e ns (maybe_add_temporal_edge gap e n ix)

-- `value in (None, "")`.
unfoldable pub is_blank : Value → Bool
unfolding is_empty
is_blank null = true
is_blank (str s) = is_empty s
is_blank _ = false

-- The loop over the other events, for one entity key with its value.
unfoldable pub add_relation_edges :
    Option ℤ → Event → Text → Value → Text → List Event → EdgeIndex → EdgeIndex
unfolding value_eq event_field
add_relation_edges gap e key value relation [] ix = ix
add_relation_edges gap e key value relation (other ∷ rest) ix =
    add_relation_edges gap e key value relation rest (
      if not (eqb_ℤ other.event_id e.event_id) && value_eq (event_field other key) value
      then maybe_add_relation_edge gap e other relation
          (field (codes "field") (str key) (field (codes "value") value end)) ix
      else ix)

abbrev relation_by_key : Dict Text Text
relation_by_key =
    (codes "user_id", codes "same_user")
    ∷ (codes "host_id", codes "same_host")
    ∷ (codes "session_id", codes "same_session")
    ∷ (codes "source_ip", codes "same_source_ip")
    ∷ (codes "cloud_account_id", codes "same_cloud_account")
    ∷ (codes "process_id", codes "same_process")
    ∷ (codes "asset_id", codes "same_asset")
    ∷ []

-- `RELATION_BY_KEY.get(key, f"same_{key}")`.
unfoldable pub relation_of : Text → Text
unfolding lookup
relation_of key = elim (lookup key relation_by_key) [ none ↦ codes "same_" ++ key | some r ↦ r ]

-- `ENTITY_KEYS`, the default of a graph state.
unfoldable pub default_entity_keys : List Text
default_entity_keys =
    codes "user_id"
    ∷ codes "host_id"
    ∷ codes "session_id"
    ∷ codes "source_ip"
    ∷ codes "cloud_account_id"
    ∷ codes "process_id"
    ∷ codes "asset_id"
    ∷ []

-- The loop over the entity keys.
unfoldable pub add_entity_edges : Option ℤ → Event → List Event → List Text → EdgeIndex → EdgeIndex
unfolding add_relation_edges relation_of is_blank
add_entity_edges gap e others [] ix = ix
add_entity_edges gap e others (key ∷ keys) ix =
    let value = event_field e key in
    add_entity_edges gap e others keys (
      if is_blank value then ix else add_relation_edges gap e key value (relation_of key) others ix)

-- `max(candidates, key=…)`: the first of the greatest.
unfoldable pub latest : Event → List Event → Event
unfolding event_le
latest best [] = best
latest best (e ∷ es) = latest (if event_le e best then best else e) es

unfoldable pub parent_candidates : Value → Event → List Event → List Event
unfolding keep
parent_candidates pid e events =
    keep (λ c. value_eq (event_field c (codes "process_id")) pid && leb_ℤ (time_of c) (time_of e))
      events

unfoldable pub add_parent_from : Option ℤ → Event → Value → List Event → EdgeIndex → EdgeIndex
unfolding latest
add_parent_from gap e pid [] ix = ix
add_parent_from gap e pid (c ∷ cs) ix =
    maybe_add_relation_edge gap (latest c cs) e (codes "parent_process")
      (field (codes "parent_process_id") pid end) ix

unfoldable pub add_parent_edge : Option ℤ → Event → List Event → EdgeIndex → EdgeIndex
unfolding add_parent_from parent_candidates is_blank
add_parent_edge gap e events ix =
    let pid = event_field e (codes "parent_process_id") in
    if is_blank pid then ix else add_parent_from gap e pid (parent_candidates pid e events) ix

-- `_rebuild_edges_for_event`, for an event that is in the state.
unfoldable pub rebuild_edges : GraphState → Event → EdgeIndex → EdgeIndex
unfolding neighbours add_temporal_edges add_entity_edges add_parent_edge events_for_partition values
rebuild_edges s e ix =
    let gap = s.max_gap_ms in
    let partition_events = events_for_partition s.events s.by_partition (partition_of e) in
    let all_events = values s.events in
    add_parent_edge gap e all_events (
      add_entity_edges gap e all_events s.entity_keys
        (add_temporal_edges gap e (neighbours e.event_id partition_events) ix))
