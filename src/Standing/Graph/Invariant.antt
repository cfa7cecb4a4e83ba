-- ===== src/Standing/Graph/Invariant.antt =====
-- The invariant of `TemporalGraphState`, kept by `upsert_event` and `remove_event`.
use x_dsi_cet.Base.{
  ◌≡◌, ◌≢◌, refl, sym, ap, ◌∙◌, inl, inr, Bool, true, false, not, ◌&&◌, ◌||◌, Option, none, some,
  List, [], arith, Bool-cases,
}
use x_dsi_cet.Base.Int.{ℤ, eqb_ℤ, eqb_ℤ→eq}
use x_dsi_cet.Base.Text.{Text, text_eq, text_eq→eq, is_empty}
use x_dsi_cet.Base.Dict.{
  Dict, int_key, text_key, lookup, get_or, has, add, discard, get_or-insert, has-add, has-discard,
  DistinctKeys,
}
use x_dsi_cet.Value.{Event, partition_of}
use x_dsi_cet.Standing.Graph.{
  GraphEdge, GraphState, add_to_partition, drop_from_partition, remove_edges_touching,
}
use x_dsi_cet.Standing.Graph.Edges.{IsIndex, IsIndex-weaken}
use x_dsi_cet.Standing.Graph.Purge.{purge-IsIndex}
use x_dsi_cet.Standing.Graph.Rebuild.{Backed}
use x_dsi_cet.Standing.Graph.Operations.{
  empty_state, partition_without, edges_without, key_or_default, partition_dropped,
}

-- Does the event found belong to the partition?
abbrev pub is_member : Text → Option Event → Bool
is_member p none = false
is_member p (some e) = text_eq (partition_of e) p

pub record IsSound (s : GraphState) : Type 0 where
  -- Events stand under their ids, each id once, in partitions with a name.
  pub distinct : DistinctKeys s.events
  pub keyed : (i : ℤ) (e : Event) → lookup i s.events ≡ some e → e.event_id ≡ i
  pub named : (i : ℤ) (e : Event) → lookup i s.events ≡ some e → is_empty (partition_of e) ≡ false
  -- The partition sets hold exactly the ids of the events of the partition.
  pub partitioned :
      (p : Text) (i : ℤ) → has i (get_or p [] s.by_partition) ≡ is_member p (lookup i s.events)
  -- The edge dictionaries mirror one another, and every edge joins two present events, from the
  -- earlier to the later one, within the largest gap.
  pub indexed : IsIndex (Backed s.max_gap_ms s.events) s.edges

pub empty_state-IsSound : (keys : List Text) (gap : Option ℤ) → IsSound (empty_state keys gap)
unfolding empty_state lookup get_or has
empty_state-IsSound keys gap = record {
  distinct = tt;
  keyed = λ i e h. absurd (never h);
  named = λ i e h. absurd (never h);
  partitioned = λ p i. refl;
  indexed = record {
    src_of = λ s e h. absurd h;
    dst_of = λ d e h. absurd h;
    mirrored = λ e h. h;
    mirrored_back = λ e h. h;
    no_loop = λ e h. absurd h;
    unique = λ s. tt;
    holds = λ e h. absurd h;
  };
}
  where
    never : {e : Event} → none ≡ some e → ⊥
    never h = cc

-- Taking an id out of the set of a partition.
pub has-drop_from_partition :
    (p r : Text) (i j : ℤ) (m : Dict Text (List ℤ))
    → has j (get_or r [] (drop_from_partition p i m))
      ≡ (not (text_eq p r && eqb_ℤ i j) && has j (get_or r [] m))
unfolding drop_from_partition
has-drop_from_partition p r i j m = elim (Bool-cases (text_eq p r)) [
  | inl t ↦
      rw (get_or-insert p r (discard i (get_or p [] m)) [] m, t)
        (rw (← text_eq→eq p r t) (has-discard j i (get_or p [] m)))
  | inr f ↦ rw (get_or-insert p r (discard i (get_or p [] m)) [] m, f)
]

pub has-add_to_partition :
    (e : Event) (r : Text) (j : ℤ) (m : Dict Text (List ℤ))
    → has j (get_or r [] (add_to_partition e m))
      ≡ ((text_eq (partition_of e) r && eqb_ℤ e.event_id j) || has j (get_or r [] m))
unfolding add_to_partition
has-add_to_partition e r j m = elim (Bool-cases (text_eq (partition_of e) r)) [
  | inl t ↦
      rw (get_or-insert (partition_of e) r (add e.event_id (get_or (partition_of e) [] m)) [] m, t)
        (rw (← text_eq→eq (partition_of e) r t)
          (has-add j e.event_id (get_or (partition_of e) [] m)))
  | inr f ↦
      rw (get_or-insert (partition_of e) r (add e.event_id (get_or (partition_of e) [] m)) [] m, f)
]

module _ (s : GraphState) (v : IsSound s) (i : ℤ) where
  -- Once the id is out of the set of its event, it is in no set.
  pub has-partition_without :
      (r : Text) (j : ℤ)
      → has j (get_or r [] (partition_without s.events i s.by_partition))
        ≡ (not (eqb_ℤ i j) && is_member r (lookup j s.events))
  unfolding partition_without
  has-partition_without r j = by_event (lookup i s.events) refl
    where
      moved : eqb_ℤ i j ≡ true → lookup j s.events ≡ lookup i s.events
      moved t = ap (λ k. lookup k s.events) (sym (eqb_ℤ→eq i j t))

      by_event :
          (o : Option Event)
          → lookup i s.events ≡ o
          → has j (
              get_or r [] (elim o [
                | none ↦ s.by_partition
                | some old ↦ drop_from_partition (partition_of old) i s.by_partition
              ]))
            ≡ (not (eqb_ℤ i j) && is_member r (lookup j s.events))
      by_event none q = elim (Bool-cases (eqb_ℤ i j)) [
        | inl t ↦ rw t (v.partitioned r j ∙ ap (is_member r) (moved t ∙ q))
        | inr f ↦ rw f (v.partitioned r j)
      ]
      by_event (some old) q = elim (Bool-cases (eqb_ℤ i j)) [
        | inl t ↦
            has-drop_from_partition (partition_of old) r i j s.by_partition
            ∙ rw (t, v.partitioned r j, moved t, q) (ground arith)
        | inr f ↦
            has-drop_from_partition (partition_of old) r i j s.by_partition
            ∙ rw (f, v.partitioned r j) (ground arith)
      ]

  pub partition_dropped-eq :
      partition_dropped s.events i s.by_partition ≡ partition_without s.events i s.by_partition
  unfolding partition_dropped partition_without key_or_default
  partition_dropped-eq = by_event (lookup i s.events) refl
    where
      by_event :
          (o : Option Event)
          → lookup i s.events ≡ o
          → elim o [
            | none ↦ s.by_partition
            | some old ↦ drop_from_partition (key_or_default (partition_of old)) i s.by_partition
          ]
            ≡ elim o [
              | none ↦ s.by_partition
              | some old ↦ drop_from_partition (partition_of old) i s.by_partition
            ]
      by_event none q = refl
      by_event (some old) q = rw (v.named i old q)

  pub edges_without-IsIndex :
      IsIndex
        (λ e. Backed s.max_gap_ms s.events e × (e.src ≢ i) × (e.dst ≢ i))
        (edges_without s.events i s.edges)
  unfolding edges_without
  edges_without-IsIndex = by_event (lookup i s.events) refl
    where
      by_event :
          (o : Option Event)
          → lookup i s.events ≡ o
          → IsIndex
              (λ e. Backed s.max_gap_ms s.events e × (e.src ≢ i) × (e.dst ≢ i))
              (elim o [ none ↦ s.edges | some _ ↦ remove_edges_touching i s.edges ])
      by_event none q =
          IsIndex-weaken (Backed s.max_gap_ms s.events) _ s.edges
            (λ e b. (b, (λ at. missing e b.0 at b.2 q), λ at. missing_dst e b.1 at b.3 q)) v.indexed
        where
          missing :
              (e : GraphEdge) (a : Event)
              → e.src ≡ i
              → lookup e.src s.events ≡ some a
              → lookup i s.events ≡ none
              → ⊥
          missing e a at h n = cc

          missing_dst :
              (e : GraphEdge) (b : Event)
              → e.dst ≡ i
              → lookup e.dst s.events ≡ some b
              → lookup i s.events ≡ none
              → ⊥
          missing_dst e b at h n = cc
      by_event (some old) q = purge-IsIndex (Backed s.max_gap_ms s.events) i s.edges v.indexed
