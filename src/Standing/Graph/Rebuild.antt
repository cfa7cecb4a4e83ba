-- ===== src/Standing/Graph/Rebuild.antt =====
-- Every edge that `_rebuild_edges_for_event` adds joins two events of the state, from the earlier to
-- the later one, within the largest gap.
use x_dsi_cet.Base.{
  ◌≡◌, refl, sym, ap, ◌∙◌, ◌⊎◌, inl, inr, Bool, true, false, not, ◌&&◌, ◌||◌, Option, none, some,
  List, [], ◌∷◌, arith, if◌then◌else◌, Bool-cases, In, In-append_cases, In-keep,
}
use x_dsi_cet.Base.Int.{ℤ, ◌-ℤ◌, abs, eqb_ℤ}
use x_dsi_cet.Base.Text.{Text, codes, text_eq}
use x_dsi_cet.Base.Sort.{sort, In-sort}
use x_dsi_cet.Base.Dict.{Dict, int_key, text_key, lookup, get_or, values, DistinctKeys, In-values}
use x_dsi_cet.Value.{
  field, str, end, Value, Fields, Event, time_of, partition_of, value_eq, event_field,
}
use x_dsi_cet.Standing.Match.{event_le}
use x_dsi_cet.Standing.Graph.{
  GraphEdge, EdgeIndex, GraphState, events_in, events_for_partition, within_gap, earlier, later,
  edge_between, maybe_add_relation_edge, maybe_add_temporal_edge,
}
use x_dsi_cet.Standing.Graph.Edges.{IsIndex, add_edge-IsIndex}
use x_dsi_cet.Standing.Graph.Candidates.{
  is_blank, relation_of, first_of_list, neighbours_from, neighbours, add_temporal_edges,
  add_relation_edges, add_entity_edges, latest, parent_candidates, add_parent_from, add_parent_edge,
  rebuild_edges,
}

pub event_le_total : (a b : Event) → (event_le a b ≡ true) ⊎ (event_le b a ≡ true)
unfolding event_le
event_le_total a b = ground arith

within_gap-sym : (gap : Option ℤ) (a b : Event) → within_gap gap a b ≡ within_gap gap b a
unfolding within_gap
within_gap-sym none a b = refl
within_gap-sym (some g) a b = rw (abs-sub_comm (time_of a) (time_of b))
  where
    abs-sub_comm : (s t : ℤ) → abs (s -ℤ t) ≡ abs (t -ℤ s)
    abs-sub_comm s t = ground arith

module _ (gap : Option ℤ) (events : Dict ℤ Event) where
  -- The edge goes from the earlier to the later one of two events of the state.
  abbrev pub Backed : GraphEdge → Type 0
  Backed e =
      (a : Event) × (b : Event) × (lookup e.src events ≡ some a)
      × (lookup e.dst events ≡ some b)
      × (event_le a b ≡ true)
      × (within_gap gap a b ≡ true)
      × (e.event_time_ms ≡ time_of b)

  abbrev pub Present : Event → Type 0
  Present e = lookup e.event_id events ≡ some e

  Backed-between :
      (a b : Event) (relation : Text) (evidence : Fields)
      → Present a
      → Present b
      → within_gap gap a b ≡ true
      → Backed (edge_between (earlier a b) (later a b) relation evidence)
  unfolding edge_between earlier later
  Backed-between a b relation evidence ha hb g = elim (Bool-cases (event_le a b)) [
    | inl t ↦ rw t (a, b, ha, hb, t, g, refl)
    | inr f ↦ rw f (b, a, hb, ha, turned f (event_le_total a b), within_gap-sym gap b a ∙ g, refl)
  ]
    where
      turned :
          event_le a b ≡ false → (event_le a b ≡ true) ⊎ (event_le b a ≡ true) → event_le b a ≡ true
      turned f (inl t) = cc
      turned f (inr t) = t

  abbrev Kept : (EdgeIndex → EdgeIndex) → Type 0
  Kept f = (ix : EdgeIndex) → IsIndex Backed ix → IsIndex Backed (f ix)

  relation_edge-Kept :
      (a b : Event) (relation : Text) (evidence : Fields)
      → Present a
      → Present b
      → Kept (maybe_add_relation_edge gap a b relation evidence)
  unfolding maybe_add_relation_edge
  relation_edge-Kept a b relation evidence ha hb ix v = elim (Bool-cases (within_gap gap a b)) [
    | inl t ↦ rw t (add_edge-IsIndex Backed _ ix (Backed-between a b relation evidence ha hb t) v)
    | inr f ↦ rw f v
  ]

  temporal_edge-Kept :
      (a b : Event) → Present a → Present b → Kept (maybe_add_temporal_edge gap a b)
  unfolding maybe_add_temporal_edge
  temporal_edge-Kept a b ha hb ix v =
      elim (Bool-cases
        (not (text_eq (partition_of a) (partition_of b)) || not (within_gap gap a b))) [
          | inl t ↦ rw t v
          | inr f ↦ rw f (
              add_edge-IsIndex Backed _ ix
                (Backed-between a b (codes "temporal_next")
                  (field (codes "partition_key") (str (partition_of (earlier a b))) end) ha hb
                  (ground arith))
                v)
        ]

  add_temporal_edges-Kept :
      (e : Event) (ns : List Event)
      → Present e
      → ((n : Event) → In n ns → Present n)
      → Kept (add_temporal_edges gap e ns)
  unfolding add_temporal_edges
  add_temporal_edges-Kept e [] h hs ix v = v
  add_temporal_edges-Kept e (n ∷ ns) h hs ix v =
      add_temporal_edges-Kept e ns h (λ m k. hs m (inr k)) _
        (temporal_edge-Kept e n h (hs n (inl refl)) ix v)

  add_relation_edges-Kept :
      (e : Event) (key : Text) (value : Value) (relation : Text) (others : List Event)
      → Present e
      → ((n : Event) → In n others → Present n)
      → Kept (add_relation_edges gap e key value relation others)
  unfolding add_relation_edges
  add_relation_edges-Kept e key value relation [] h hs ix v = v
  add_relation_edges-Kept e key value relation (o ∷ others) h hs ix v =
      add_relation_edges-Kept e key value relation others h (λ m k. hs m (inr k)) _
        (if_kept (not (eqb_ℤ o.event_id e.event_id) && value_eq (event_field o key) value)
          (relation_edge-Kept e o relation _ h (hs o (inl refl)) ix v))
    where
      if_kept :
          {iy : EdgeIndex} (b : Bool) → IsIndex Backed iy → IsIndex Backed (if b then iy else ix)
      if_kept true w = w
      if_kept false w = v

  add_entity_edges-Kept :
      (e : Event) (others : List Event) (keys : List Text)
      → Present e
      → ((n : Event) → In n others → Present n)
      → Kept (add_entity_edges gap e others keys)
  unfolding add_entity_edges
  add_entity_edges-Kept e others [] h hs ix v = v
  add_entity_edges-Kept e others (key ∷ keys) h hs ix v =
      add_entity_edges-Kept e others keys h hs _ (
        if_blank (is_blank (event_field e key))
          (add_relation_edges-Kept e key (event_field e key) (relation_of key) others h hs ix v))
    where
      if_blank :
          {iy : EdgeIndex} (b : Bool) → IsIndex Backed iy → IsIndex Backed (if b then ix else iy)
      if_blank true w = v
      if_blank false w = w

  latest-In : (best : Event) (es : List Event) → In (latest best es) (best ∷ es)
  unfolding latest
  latest-In best [] = inl refl
  latest-In best (e ∷ es) = chosen (event_le e best) (latest-In best es) (latest-In e es)
    where
      chosen :
          (b : Bool)
          → In (latest best es) (best ∷ es)
          → In (latest e es) (e ∷ es)
          → In (latest (if b then best else e) es) (best ∷ e ∷ es)
      chosen true (inl same) kept = inl same
      chosen true (inr k) kept = inr (inr k)
      chosen false old kept = inr kept

  add_parent_from-Kept :
      (e : Event) (pid : Value) (cs : List Event)
      → Present e
      → ((n : Event) → In n cs → Present n)
      → Kept (add_parent_from gap e pid cs)
  unfolding add_parent_from
  add_parent_from-Kept e pid [] h hs ix v = v
  add_parent_from-Kept e pid (c ∷ cs) h hs ix v =
      relation_edge-Kept (latest c cs) e _ _ (hs (latest c cs) (latest-In c cs)) h ix v

  add_parent_edge-Kept :
      (e : Event) (others : List Event)
      → Present e
      → ((n : Event) → In n others → Present n)
      → Kept (add_parent_edge gap e others)
  unfolding add_parent_edge parent_candidates
  add_parent_edge-Kept e others h hs ix v =
      elim (Bool-cases (is_blank (event_field e (codes "parent_process_id")))) [
        | inl t ↦ rw t v
        | inr f ↦ rw f (add_parent_from-Kept e _ _ h (λ n k. hs n (In-keep n _ others k).1) ix v)
      ]

first_of_list-In : (n : Event) (es : List Event) → In n (first_of_list es) → In n es
unfolding first_of_list
first_of_list-In n [] h = h
first_of_list-In n (e ∷ es) (inl same) = inl same
first_of_list-In n (e ∷ es) (inr h) = elim h [ ]

neighbours_from-In :
    (i : ℤ) (n : Event) (before es : List Event)
    → In n (neighbours_from i before es)
    → In n before ⊎ In n es
unfolding neighbours_from
neighbours_from-In i n before [] h = elim h [ ]
neighbours_from-In i n before (e ∷ es) h = elim (Bool-cases (eqb_ℤ e.event_id i)) [
  | inl t ↦ here (In-append_cases n before (first_of_list es) (rw t at h))
  | inr f ↦ deeper (neighbours_from-In i n (e ∷ []) es (rw f at h))
]
  where
    here : In n before ⊎ In n (first_of_list es) → In n before ⊎ In n (e ∷ es)
    here (inl a) = inl a
    here (inr b) = inr (inr (first_of_list-In n es b))

    deeper : In n (e ∷ []) ⊎ In n es → In n before ⊎ In n (e ∷ es)
    deeper (inl (inl same)) = inr (inl same)
    deeper (inl (inr never)) = elim never [ ]
    deeper (inr k) = inr (inr k)

events_in-lookup :
    (events : Dict ℤ Event) (n : Event) (is : List ℤ)
    → In n (events_in events is)
    → (i : ℤ) × (lookup i events ≡ some n)
unfolding events_in
events_in-lookup events n [] h = elim h [ ]
events_in-lookup events n (i ∷ is) h = found (lookup i events) refl (events_in-lookup events n is) h
  where
    found :
        (o : Option Event)
        → lookup i events ≡ o
        → (In n (events_in events is) → (j : ℤ) × (lookup j events ≡ some n))
        → In n (elim o [ none ↦ events_in events is | some e ↦ e ∷ events_in events is ])
        → (j : ℤ) × (lookup j events ≡ some n)
    found none q ih h = ih h
    found (some e) q ih (inl same) = (i, q ∙ ap some (sym same))
    found (some e) q ih (inr k) = ih k

-- In a state whose events stand under their ids, the rebuilt edges are backed by its events.
pub rebuild_edges-IsIndex :
    (s : GraphState) (e : Event)
    → DistinctKeys s.events
    → ((k : ℤ) (x : Event) → lookup k s.events ≡ some x → x.event_id ≡ k)
    → lookup e.event_id s.events ≡ some e
    → (ix : EdgeIndex) → IsIndex (Backed s.max_gap_ms s.events) ix
    → IsIndex (Backed s.max_gap_ms s.events) (rebuild_edges s e ix)
unfolding rebuild_edges neighbours events_for_partition
rebuild_edges-IsIndex s e d keyed here ix v =
    add_parent_edge-Kept s.max_gap_ms s.events e (values s.events) here all_present _ (
      add_entity_edges-Kept s.max_gap_ms s.events e (values s.events) s.entity_keys here all_present
        _ (add_temporal_edges-Kept s.max_gap_ms s.events e _ here near_present ix v))
  where
    near : List Event
    near = events_in s.events (get_or (partition_of e) [] s.by_partition)

    present : (k : ℤ) (n : Event) → lookup k s.events ≡ some n → lookup n.event_id s.events ≡ some n
    present k n q = ap (λ i. lookup i s.events) (keyed k n q) ∙ q

    all_present : (n : Event) → In n (values s.events) → lookup n.event_id s.events ≡ some n
    all_present n h = let (k, q) = In-values n s.events d h in present k n q

    near_present :
        (n : Event)
        → In n (neighbours_from e.event_id [] (sort event_le near))
        → lookup n.event_id s.events ≡ some n
    near_present n h = elim (neighbours_from-In e.event_id n [] (sort event_le near) h) [
      | inl never ↦ absurd never
      | inr k ↦
          let (i, q) =
            events_in-lookup s.events n (get_or (partition_of e) [] s.by_partition)
              (In-sort event_le n near k) in
          present i n q
    ]
