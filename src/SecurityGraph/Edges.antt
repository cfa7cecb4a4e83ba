-- ===== src/SecurityGraph/Edges.antt =====
-- What `_add_edge` of bindings/python/security_graph.py keeps: the edges join two events of the
-- graph in the order of their times, within the gap, and no key comes twice.
use x_dsi_cet.Base.{
  ◌≡◌, ◌≢◌, refl, ap, sym, ◌∙◌, inl, inr, true, false, Option, none, some, List, [], ◌∷◌, ◌++◌, map,
  arith, Bool-cases, any, In, All,
}
use x_dsi_cet.Base.Int.{ℤ, abs, ◌-ℤ◌, eqb_ℤ, leb_ℤ, ltb_ℤ, min_ℤ, max_ℤ, int_laws}
use x_dsi_cet.Base.Text.{Text}
use x_dsi_cet.Base.Dict.{int_key, text_key, same-sym}
use x_dsi_cet.Value.{Fields}
use x_dsi_cet.Standing.Graph.Edges.{ne_of_eqb}
use x_dsi_cet.SecurityGraph.{
  SecurityEvent, EdgeMetadata, SecurityGraphBuilder, EdgeKey, same_key, EdgeSet, edge_window,
  too_far, add_ordered, add_edge,
}

abbrev pub key_of : EdgeMetadata → EdgeKey
key_of m = (m.src, m.dst, m.relation)

-- An edge from one event of a list to another, that is not earlier and not too far.
pub record IsEdge (gap : Option ℤ) (events : List SecurityEvent) (m : EdgeMetadata) : Type 0 where
  pub source : SecurityEvent
  pub target : SecurityEvent
  pub source_In : In source events
  pub target_In : In target events
  pub source_id : m.src ≡ source.event_id
  pub target_id : m.dst ≡ target.event_id
  pub no_loop : m.src ≢ m.dst
  pub in_order : leb_ℤ source.event_time_ms target.event_time_ms ≡ true
  pub near : too_far gap source target ≡ false
  pub starts : m.window_start_ms ≡ source.event_time_ms
  pub ends : m.window_end_ms ≡ target.event_time_ms

-- No key is the same as a later one.
abbrev pub DistinctEdgeKeys : List EdgeKey → Type 0
DistinctEdgeKeys [] = Unit
DistinctEdgeKeys (k ∷ ks) = (any (same_key k) ks ≡ false) × DistinctEdgeKeys ks

pub record IsEdgeSet (gap : Option ℤ) (events : List SecurityEvent) (s : EdgeSet) : Type 0 where
  pub edges : All (IsEdge gap events) s.meta
  pub keys : s.seen ≡ map key_of s.meta
  pub distinct : DistinctEdgeKeys s.seen

pub All-append :
    {A : Type 0} (P : A → Type 0) (xs ys : List A) → All P xs → All P ys → All P (xs ++ ys)
All-append P [] ys h k = k
All-append P (x ∷ xs) ys (p, h) k = (p, All-append P xs ys h k)

same_key-sym : (a b : EdgeKey) → same_key a b ≡ same_key b a
same_key-sym (a, b, r) (c, d, s) = rw (same-sym a c, same-sym b d, same-sym r s) refl

any-snoc :
    (k x : EdgeKey) (ks : List EdgeKey)
    → any (same_key k) ks ≡ false
    → same_key k x ≡ false
    → any (same_key k) (ks ++ x ∷ []) ≡ false
unfolding any
any-snoc k x [] h e = rw e refl
any-snoc k x (j ∷ ks) h e = let rest = any-snoc k x ks in ground arith

snoc-DistinctEdgeKeys :
    (x : EdgeKey) (ks : List EdgeKey)
    → DistinctEdgeKeys ks
    → any (same_key x) ks ≡ false
    → DistinctEdgeKeys (ks ++ x ∷ [])
unfolding any
snoc-DistinctEdgeKeys x [] d h = (refl, tt)
snoc-DistinctEdgeKeys x (k ∷ ks) (n, d) h =
    let e = same_key-sym k x in
    (any-snoc k x ks n (e ∙ ground arith), snoc-DistinctEdgeKeys x ks d (ground arith))

map-snoc :
    {A B : Type 0} (f : A → B) (xs : List A) (x : A) → map f (xs ++ x ∷ []) ≡ map f xs ++ f x ∷ []
map-snoc f [] x = refl
map-snoc f (y ∷ xs) x = ap (◌∷◌ (f y)) (map-snoc f xs x)

abs-sub_comm : (a b : ℤ) → abs (a -ℤ b) ≡ abs (b -ℤ a)
unfolding abs
abs-sub_comm a b = grind int_laws

too_far-sym : (gap : Option ℤ) (a b : SecurityEvent) → too_far gap a b ≡ too_far gap b a
unfolding too_far abs
too_far-sym none a b = refl
too_far-sym (some g) a b = ap (λ d. ltb_ℤ g d) (abs-sub_comm b.event_time_ms a.event_time_ms)

min_of_le : (a b : ℤ) → leb_ℤ a b ≡ true → min_ℤ a b ≡ a
min_of_le a b h = ground arith

max_of_le : (a b : ℤ) → leb_ℤ a b ≡ true → max_ℤ a b ≡ b
max_of_le a b h = grind int_laws

module _ (gap : Option ℤ) (events : List SecurityEvent) where
  add_ordered-IsEdgeSet :
      (src dst : SecurityEvent) (relation : Text) (evidence : Fields) (s : EdgeSet)
      → In src events
      → In dst events
      → src.event_id ≢ dst.event_id
      → leb_ℤ src.event_time_ms dst.event_time_ms ≡ true
      → too_far gap src dst ≡ false
      → IsEdgeSet gap events s
      → IsEdgeSet gap events (add_ordered src dst relation evidence s)
  unfolding add_ordered edge_window
  add_ordered-IsEdgeSet src dst relation evidence s i j n le near valid =
      elim (Bool-cases (any (same_key (src.event_id, dst.event_id, relation)) s.seen)) [
        | inl old ↦ rw (add_ordered, old) valid
        | inr new ↦
            rw (add_ordered, new)
              (record {
                edges = All-append (IsEdge gap events) s.meta _ valid.edges (
                  record {
                    source = src;
                    target = dst;
                    source_In = i;
                    target_In = j;
                    source_id = refl;
                    target_id = refl;
                    no_loop = n;
                    in_order = le;
                    near = near;
                    starts = min_of_le src.event_time_ms dst.event_time_ms le;
                    ends = max_of_le src.event_time_ms dst.event_time_ms le;
                  },
                  tt,
                );
                keys =
                    ap (λ ks. ks ++ (src.event_id, dst.event_id, relation) ∷ []) valid.keys
                    ∙ sym (map-snoc key_of s.meta _);
                distinct = snoc-DistinctEdgeKeys _ s.seen valid.distinct new;
              })
      ]

leb_ℤ-total : (a b : ℤ) → leb_ℤ a b ≡ false → leb_ℤ b a ≡ true
leb_ℤ-total a b h = ground arith

module _ (builder : SecurityGraphBuilder) (events : List SecurityEvent) where
  pub add_edge-IsEdgeSet :
      (a b : SecurityEvent) (relation : Text) (evidence : Fields) (s : EdgeSet)
      → In a events
      → In b events
      → IsEdgeSet builder.max_gap_ms events s
      → IsEdgeSet builder.max_gap_ms events (add_edge builder a b relation evidence s)
  unfolding add_edge
  add_edge-IsEdgeSet a b relation evidence s i j valid =
      elim (Bool-cases (eqb_ℤ a.event_id b.event_id)) [
        | inl same ↦ rw (add_edge, same) valid
        | inr other ↦ elim (Bool-cases (too_far builder.max_gap_ms a b)) [
          | inl far ↦ rw (add_edge, other, far) valid
          | inr near ↦ elim (Bool-cases (leb_ℤ a.event_time_ms b.event_time_ms)) [
            | inl le ↦
                rw (add_edge, other, near, le)
                  (add_ordered-IsEdgeSet builder.max_gap_ms events a b relation evidence s i j
                    (ne_of_eqb a.event_id b.event_id other) le near valid)
            | inr gt ↦
                rw (add_edge, other, near, gt)
                  (add_ordered-IsEdgeSet builder.max_gap_ms events b a relation evidence s j i
                    (λ e. ne_of_eqb a.event_id b.event_id other (sym e))
                    (leb_ℤ-total a.event_time_ms b.event_time_ms gt)
                    (too_far-sym builder.max_gap_ms b a ∙ near) valid)
          ]
        ]
      ]
