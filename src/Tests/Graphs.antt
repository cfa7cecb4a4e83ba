-- ===== src/Tests/Graphs.antt =====
-- Tests of `TemporalGraphState`.
use x_dsi_cet.Base.{◌≡◌, ◌≢◌, refl, inl, none, [], ◌∷◌, In}
use x_dsi_cet.Base.Int.{pos, ◌-ℤ◌}
use x_dsi_cet.Base.Text.{text_eq, is_empty}
use x_dsi_cet.Base.Dict.{int_key, text_key}
use x_dsi_cet.Value.{partition_of}
use x_dsi_cet.Standing.Graph.{GraphState, edges_at, maybe_add_temporal_edge}
use x_dsi_cet.Standing.Graph.Operations.{empty_state, upsert_event, remove_event}
use x_dsi_cet.Standing.Graph.Invariant.{IsSound, empty_state-IsSound}
use x_dsi_cet.Standing.Graph.Preserve.{upsert_event-IsSound, remove_event-IsSound}
use x_dsi_cet.Standing.Graph.Removal.{In-remove_event, remove_event-In}
use x_dsi_cet.Tests.Samples.{login, command, next_edge}

abbrev one_event : GraphState
one_event = (upsert_event (pos 0) (empty_state [] none) login).0

abbrev two_events : GraphState
two_events = (upsert_event (pos 0) one_event command).0

two_events-IsSound : IsSound two_events
unfolding is_empty partition_of
two_events-IsSound =
    upsert_event-IsSound (pos 0) one_event
      (upsert_event-IsSound (pos 0) (empty_state [] none) (empty_state-IsSound [] none) login refl)
      command refl

joins_neighbours : edges_at (pos 1) two_events.edges.by_src ≡ next_edge ∷ []
unfolding upsert_event text_eq ◌-ℤ◌ empty_state maybe_add_temporal_edge
joins_neighbours = refl

upsert_event-IsSound_example : IsSound two_events
unfolding is_empty partition_of
upsert_event-IsSound_example =
    upsert_event-IsSound (pos 0) one_event
      (upsert_event-IsSound (pos 0) (empty_state [] none) (empty_state-IsSound [] none) login refl)
      command refl

remove_event-IsSound_example : IsSound (remove_event (pos 1) two_events (pos 1)).0
remove_event-IsSound_example = remove_event-IsSound (pos 1) two_events two_events-IsSound (pos 1)

In-remove_event_example :
    In next_edge (edges_at (pos 1) two_events.edges.by_src) × (pos 1 ≢ pos 3) × (pos 2 ≢ pos 3)
unfolding remove_event upsert_event text_eq ◌-ℤ◌ empty_state maybe_add_temporal_edge
In-remove_event_example =
    In-remove_event (pos 1) two_events two_events-IsSound (pos 3) next_edge (inl refl)

remove_event-In_example :
    In next_edge (edges_at (pos 1) (remove_event (pos 1) two_events (pos 3)).0.edges.by_src)
unfolding upsert_event text_eq ◌-ℤ◌ empty_state maybe_add_temporal_edge
remove_event-In_example =
    remove_event-In (pos 1) two_events two_events-IsSound (pos 3) next_edge (inl refl)
      (λ h. differ h) (λ h. differ' h)
  where
    differ : pos 1 ≡ pos 3 → ⊥
    differ h = cc

    differ' : pos 2 ≡ pos 3 → ⊥
    differ' h = cc
