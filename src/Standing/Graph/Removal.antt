-- ===== src/Standing/Graph/Removal.antt =====
-- What `remove_event` leaves of the edges of `TemporalGraphState`.
use x_dsi_cet.Base.{◌≡◌, ◌≢◌, refl, sym, ap, ◌∙◌, Option, none, some, In}
use x_dsi_cet.Base.Int.{ℤ}
use x_dsi_cet.Base.Dict.{int_key, lookup}
use x_dsi_cet.Value.{Event}
use x_dsi_cet.Standing.Graph.{GraphEdge, GraphState, EdgeIndex, edges_at, remove_edges_touching}
use x_dsi_cet.Standing.Graph.Purge.{In-purged_src, purged_src-In}
use x_dsi_cet.Standing.Graph.Operations.{edges_without, without_event, remove_event}
use x_dsi_cet.Standing.Graph.Invariant.{IsSound}

module _ (now : ℤ) (s : GraphState) (v : IsSound s) (i : ℤ) (e : GraphEdge) where
  abbrev purged_if : Option Event → EdgeIndex
  purged_if none = s.edges
  purged_if (some _) = remove_edges_touching i s.edges

  -- No edge touches an id that is not in the state.
  apart : (k : ℤ) → (a : Event) → lookup k s.events ≡ some a → lookup i s.events ≡ none → k ≢ i
  apart k a found gone same = never (sym found ∙ ap (λ j. lookup j s.events) same ∙ gone)
    where
      never : some a ≡ none → ⊥
      never h = cc

  In-by_cases :
      (o : Option Event)
      → lookup i s.events ≡ o
      → In e (edges_at e.src (purged_if o).by_src)
      → In e (edges_at e.src s.edges.by_src) × (e.src ≢ i) × (e.dst ≢ i)
  In-by_cases none gone old =
      let b = v.indexed.holds e old in (old, apart e.src b.0 b.2 gone, apart e.dst b.1 b.3 gone)
  In-by_cases (some a) found h = In-purged_src _ i s.edges v.indexed e.src e h

  by_cases-In :
      (o : Option Event)
      → In e (edges_at e.src s.edges.by_src)
      → e.src ≢ i
      → e.dst ≢ i
      → In e (edges_at e.src (purged_if o).by_src)
  by_cases-In none h from to = h
  by_cases-In (some a) h from to = purged_src-In _ i s.edges v.indexed e.src e h from to

  -- In a state with the invariant, an edge that is left after `remove_event i` was there before,
  -- and neither of its ends is `i`.
  pub In-remove_event :
      In e (edges_at e.src (remove_event now s i).0.edges.by_src)
      → In e (edges_at e.src s.edges.by_src) × (e.src ≢ i) × (e.dst ≢ i)
  unfolding remove_event without_event edges_without
  In-remove_event h = In-by_cases (lookup i s.events) refl h

  -- In a state with the invariant, `remove_event i` keeps every edge that does not touch `i`.
  pub remove_event-In :
      In e (edges_at e.src s.edges.by_src)
      → e.src ≢ i
      → e.dst ≢ i
      → In e (edges_at e.src (remove_event now s i).0.edges.by_src)
  unfolding remove_event without_event edges_without
  remove_event-In h from to = by_cases-In (lookup i s.events) h from to
