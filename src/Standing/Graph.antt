-- ===== src/Standing/Graph.antt =====
-- `GraphEdge`, `GraphMutation` and `TemporalGraphState` of bindings/python/standing/runtime.py. The
-- two edge dictionaries stand in a record of their own. Python's sets are lists in which only
-- membership counts; `now` is the clock that a mutation reads.
pub mod Edges
pub mod Candidates
pub mod Purge
pub mod Invariant
pub mod Rebuild
pub mod Preserve
pub mod Removal
pub mod Operations
use x_dsi_cet.Base.{
  ℕ, zero, suc, ◌+◌, Bool, true, false, not, ◌&&◌, ◌||◌, Option, none, some, List, [], ◌∷◌, ◌++◌,
  map, ltb, leb, ◌==◌, if◌then◌else◌, any, keep,
}
use x_dsi_cet.Base.Int.{ℤ, pos, ◌-ℤ◌, abs, leb_ℤ, ltb_ℤ, eqb_ℤ}
use x_dsi_cet.Base.Text.{Text, codes, text_eq, is_empty}
use x_dsi_cet.Base.Dict.{
  Dict, int_key, text_key, lookup, insert, remove, get_or, values, add, discard, has,
}
use x_dsi_cet.Base.Sort.{sort}
use x_dsi_cet.Value.{
  Value, Fields, Event, null, str, obj, end, field, set_default, value_eq, event_field,
  partition_of, time_of,
}
use x_dsi_cet.Standing.Match.{event_le}

pub record GraphEdge : Type 0 where
  pub src : ℤ
  pub dst : ℤ
  pub relation : Text
  pub event_time_ms : ℤ
  pub evidence : Fields

pub data MutationOp : Type 0 where
  upsert remove_op : MutationOp

pub record GraphMutation : Type 0 where
  pub op : MutationOp
  pub event_id : Option ℤ
  pub edge : Option GraphEdge
  pub partition_key : Option Text
  pub revision : ℕ
  pub happened_at_ms : ℤ

pub record EdgeIndex : Type 0 where
  pub by_src : Dict ℤ (List GraphEdge)
  pub by_dst : Dict ℤ (List GraphEdge)

pub record GraphState : Type 0 where
  pub entity_keys : List Text
  pub max_gap_ms : Option ℤ
  pub events : Dict ℤ Event
  pub by_partition : Dict Text (List ℤ)
  pub edges : EdgeIndex
  pub revision : ℕ
  pub mutation_log : List GraphMutation

-- `edges_by_src.get(id, [])`.
abbrev pub edges_at : ℤ → Dict ℤ (List GraphEdge) → List GraphEdge
edges_at i m = get_or i [] m

unfoldable pub events_in : Dict ℤ Event → List ℤ → List Event
unfolding lookup
events_in events [] = []
events_in events (i ∷ is) =
    let rest = events_in events is in elim (lookup i events) [ none ↦ rest | some e ↦ e ∷ rest ]

unfoldable pub events_for_partition : Dict ℤ Event → Dict Text (List ℤ) → Text → List Event
unfolding events_in sort event_le get_or
events_for_partition events by_partition p =
    sort event_le (events_in events (get_or p [] by_partition))

-- `_add_event_only`, on the two dictionaries.
unfoldable pub add_to_partition : Event → Dict Text (List ℤ) → Dict Text (List ℤ)
unfolding insert get_or add partition_of
add_to_partition e m = insert (partition_of e) (add e.event_id (get_or (partition_of e) [] m)) m

-- `self.by_partition[p].discard(i)`.
unfoldable pub drop_from_partition : Text → ℤ → Dict Text (List ℤ) → Dict Text (List ℤ)
unfolding insert get_or discard
drop_from_partition p i m = insert p (discard i (get_or p [] m)) m

abbrev pub same_link : GraphEdge → GraphEdge → Bool
same_link new e = eqb_ℤ e.dst new.dst && text_eq e.relation new.relation

-- `_add_edge_only`.
unfoldable pub add_edge : GraphEdge → EdgeIndex → EdgeIndex
unfolding insert get_or any
add_edge edge ix =
    if eqb_ℤ edge.src edge.dst
    then ix
    else if any (same_link edge) (edges_at edge.src ix.by_src)
    then ix
    else record {
      by_src = insert edge.src (edges_at edge.src ix.by_src ++ edge ∷ []) ix.by_src;
      by_dst = insert edge.dst (edges_at edge.dst ix.by_dst ++ edge ∷ []) ix.by_dst;
    }

-- The two loops of `_remove_edges_touching`.
unfoldable pub drop_incoming : List GraphEdge → Dict ℤ (List GraphEdge) → Dict ℤ (List GraphEdge)
unfolding insert get_or keep
drop_incoming [] m = m
drop_incoming (edge ∷ rest) m = drop_incoming rest (
    insert edge.dst
      (keep (λ e. not (eqb_ℤ e.src edge.src && text_eq e.relation edge.relation))
        (edges_at edge.dst m))
      m)

unfoldable pub drop_outgoing : List GraphEdge → Dict ℤ (List GraphEdge) → Dict ℤ (List GraphEdge)
unfolding insert get_or keep
drop_outgoing [] m = m
drop_outgoing (edge ∷ rest) m = drop_outgoing rest (
    insert edge.src
      (keep (λ e. not (eqb_ℤ e.dst edge.dst && text_eq e.relation edge.relation))
        (edges_at edge.src m))
      m)

unfoldable pub remove_edges_touching : ℤ → EdgeIndex → EdgeIndex
unfolding drop_incoming drop_outgoing remove
remove_edges_touching i ix =
    let by_dst = drop_incoming (edges_at i ix.by_src) ix.by_dst in
    let by_src = drop_outgoing (edges_at i by_dst) ix.by_src in
    record { by_src = remove i by_src; by_dst = remove i by_dst }

unfoldable pub within_gap : Option ℤ → Event → Event → Bool
unfolding time_of abs ◌-ℤ◌
within_gap max_gap a b = elim max_gap [
  | none ↦ true
  | some g ↦ leb_ℤ (abs (time_of a -ℤ time_of b)) g
]

-- `_ordered_pair`: the earlier event first.
unfoldable pub earlier : Event → Event → Event
unfolding event_le
earlier a b = if event_le a b then a else b

unfoldable pub later : Event → Event → Event
unfolding event_le
later a b = if event_le a b then b else a

unfoldable pub edge_between : Event → Event → Text → Fields → GraphEdge
unfolding time_of
edge_between src dst relation evidence = record {
  src = src.event_id;
  dst = dst.event_id;
  relation = relation;
  event_time_ms = time_of dst;
  evidence = evidence;
}

-- `_maybe_add_relation_edge`.
unfoldable pub maybe_add_relation_edge :
    Option ℤ → Event → Event → Text → Fields → EdgeIndex → EdgeIndex
unfolding within_gap earlier later edge_between add_edge
maybe_add_relation_edge gap a b relation evidence ix =
    if not (within_gap gap a b)
    then ix
    else add_edge (edge_between (earlier a b) (later a b) relation evidence) ix

-- `_maybe_add_temporal_edge`.
unfoldable pub maybe_add_temporal_edge : Option ℤ → Event → Event → EdgeIndex → EdgeIndex
unfolding within_gap earlier later edge_between add_edge partition_of
maybe_add_temporal_edge gap a b ix =
    if not (text_eq (partition_of a) (partition_of b)) || not (within_gap gap a b)
    then ix
    else add_edge
        (edge_between (earlier a b) (later a b) (codes "temporal_next")
          (field (codes "partition_key") (str (partition_of (earlier a b))) end))
        ix
