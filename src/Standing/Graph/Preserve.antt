-- ===== src/Standing/Graph/Preserve.antt =====
-- `upsert_event` and `remove_event` keep the invariant of `TemporalGraphState`.
use x_dsi_cet.Base.{
  ◌≡◌, ◌≢◌, sym, ◌∙◌, ◌⊎◌, inl, inr, true, false, not, ◌&&◌, ◌||◌, Option, none, some, arith,
  if◌then◌else◌, Bool-cases,
}
use x_dsi_cet.Base.Int.{ℤ, eqb_ℤ, eqb_ℤ→eq, eqb_ℤ-refl}
use x_dsi_cet.Base.Text.{Text, text_eq, is_empty}
use x_dsi_cet.Base.Dict.{
  Dict, int_key, text_key, lookup, insert, remove, lookup-insert, lookup-remove,
  insert-DistinctKeys, remove-DistinctKeys,
}
use x_dsi_cet.Value.{Event, partition_of}
use x_dsi_cet.Standing.Graph.{GraphEdge, GraphState}
use x_dsi_cet.Standing.Graph.Edges.{IsIndex-weaken, eqb_of_ne}
use x_dsi_cet.Standing.Graph.Rebuild.{Backed, rebuild_edges-IsIndex}
use x_dsi_cet.Standing.Graph.Operations.{
  normalized, partition_without, with_event, upsert_event, without_event, remove_event,
  record_mutation,
}
use x_dsi_cet.Standing.Graph.Invariant.{
  IsSound, is_member, has-add_to_partition, has-partition_without, partition_dropped-eq,
  edges_without-IsIndex,
}

-- An edge away from `i` is backed by events that differ at `i` only.
Backed-move :
    (gap : Option ℤ) (events events' : Dict ℤ Event) (i : ℤ)
    → ((k : ℤ) → k ≢ i → lookup k events' ≡ lookup k events)
    → (e : GraphEdge) → Backed gap events e × (e.src ≢ i) × (e.dst ≢ i)
    → Backed gap events' e
Backed-move gap events events' i agree e (b, from, to) =
    (b.0, b.1, agree e.src from ∙ b.2, agree e.dst to ∙ b.3, b.4, b.5, b.6)

lookup-insert_other :
    (i k : ℤ) (e : Event) (events : Dict ℤ Event)
    → k ≢ i
    → lookup k (insert i e events) ≡ lookup k events
lookup-insert_other i k e events n =
    rw (lookup-insert i k e events, eqb_of_ne i k (λ same. n (sym same)))

lookup-remove_other :
    (i k : ℤ) (events : Dict ℤ Event) → k ≢ i → lookup k (remove i events) ≡ lookup k events
lookup-remove_other i k events n =
    rw (lookup-remove i k events, eqb_of_ne i k (λ same. n (sym same)))

pub lookup-insert_self :
    (e : Event) (events : Dict ℤ Event) → lookup e.event_id (insert e.event_id e events) ≡ some e
lookup-insert_self e events =
    rw (lookup-insert e.event_id e.event_id e events, eqb_ℤ-refl e.event_id)

module _ (s : GraphState) (v : IsSound s) (e : Event)
    (named : is_empty (partition_of e) ≡ false) where
  new_keyed :
      (i : ℤ) (x : Event) → lookup i (insert e.event_id e s.events) ≡ some x → x.event_id ≡ i
  new_keyed i x h = elim (Bool-cases (eqb_ℤ e.event_id i)) [
    | inl t ↦ same (eqb_ℤ→eq e.event_id i t) (rw (lookup-insert e.event_id i e s.events, t) at h)
    | inr f ↦ v.keyed i x (rw (lookup-insert e.event_id i e s.events, f) at h)
  ]
    where
      same : e.event_id ≡ i → some e ≡ some x → x.event_id ≡ i
      same at h = cc

  new_named :
      (i : ℤ) (x : Event)
      → lookup i (insert e.event_id e s.events) ≡ some x
      → is_empty (partition_of x) ≡ false
  new_named i x h = elim (Bool-cases (eqb_ℤ e.event_id i)) [
    | inl t ↦ same (rw (lookup-insert e.event_id i e s.events, t) at h)
    | inr f ↦ v.named i x (rw (lookup-insert e.event_id i e s.events, f) at h)
  ]
    where
      same : some e ≡ some x → is_empty (partition_of x) ≡ false
      same h = cc

  pub with_event-IsSound : IsSound (with_event s e)
  unfolding with_event
  with_event-IsSound = record {
    distinct = insert-DistinctKeys e.event_id e s.events v.distinct;
    keyed = new_keyed;
    named = new_named;
    partitioned = λ p i.
        has-add_to_partition e p i (partition_without s.events e.event_id s.by_partition)
        ∙ rw (has-partition_without s v e.event_id p i, lookup-insert e.event_id i e s.events)
            (member p i (Bool-cases (eqb_ℤ e.event_id i)));
    indexed =
        IsIndex-weaken _ (Backed s.max_gap_ms (insert e.event_id e s.events)) _
          (Backed-move s.max_gap_ms s.events (insert e.event_id e s.events) e.event_id
            (λ k n. lookup-insert_other e.event_id k e s.events n))
          (edges_without-IsIndex s v e.event_id);
  }
    where
      member :
          (p : Text) (i : ℤ)
          → (eqb_ℤ e.event_id i ≡ true) ⊎ (eqb_ℤ e.event_id i ≡ false)
          → ((text_eq (partition_of e) p && eqb_ℤ e.event_id i)
              || (not (eqb_ℤ e.event_id i) && is_member p (lookup i s.events)))
            ≡ is_member p (if eqb_ℤ e.event_id i then some e else lookup i s.events)
      member p i (inl t) = rw t (ground arith)
      member p i (inr f) = rw f (ground arith)

module _ (now : ℤ) (s : GraphState) (v : IsSound s) where
  -- `upsert_event` keeps the invariant, for an event whose partition key is not empty.
  pub upsert_event-IsSound :
      (event : Event) → is_empty (partition_of event) ≡ false → IsSound (upsert_event now s event).0
  unfolding upsert_event with_event record_mutation normalized partition_of
  upsert_event-IsSound event named =
      let e = normalized event in
      let w = with_event-IsSound s v e named in
      record {
        distinct = w.distinct;
        keyed = w.keyed;
        named = w.named;
        partitioned = w.partitioned;
        indexed =
            rebuild_edges-IsIndex (with_event s e) e w.distinct w.keyed
              (lookup-insert_self e s.events) (with_event s e).edges w.indexed;
      }

  -- `remove_event` keeps the invariant, whether the id is known or not.
  pub remove_event-IsSound : (i : ℤ) → IsSound (remove_event now s i).0
  unfolding remove_event without_event record_mutation
  remove_event-IsSound i = record {
    distinct = remove-DistinctKeys i s.events v.distinct;
    keyed = λ k x h. v.keyed k x (still k x h);
    named = λ k x h. v.named k x (still k x h);
    partitioned = λ p k.
        rw (partition_dropped-eq s v i, has-partition_without s v i p k, lookup-remove i k s.events)
          (member p k (Bool-cases (eqb_ℤ i k)));
    indexed =
        IsIndex-weaken _ (Backed s.max_gap_ms (remove i s.events)) _
          (Backed-move s.max_gap_ms s.events (remove i s.events) i
            (λ k n. lookup-remove_other i k s.events n))
          (edges_without-IsIndex s v i);
  }
    where
      still :
          (k : ℤ) (x : Event) → lookup k (remove i s.events) ≡ some x → lookup k s.events ≡ some x
      still k x h = elim (Bool-cases (eqb_ℤ i k)) [
        | inl t ↦ absurd (gone (rw (lookup-remove i k s.events, t) at h))
        | inr f ↦ rw (lookup-remove i k s.events, f) at h
      ]
        where
          gone : none ≡ some x → ⊥
          gone h = cc

      member :
          (p : Text) (k : ℤ)
          → (eqb_ℤ i k ≡ true) ⊎ (eqb_ℤ i k ≡ false)
          → (not (eqb_ℤ i k) && is_member p (lookup k s.events))
            ≡ is_member p (if eqb_ℤ i k then none else lookup k s.events)
      member p k (inl t) = rw t
      member p k (inr f) = rw f
