-- ===== src/Standing/Graph/Purge.antt =====
-- `_remove_edges_touching` removes exactly the edges with the event at an end.
use x_dsi_cet.Base.{
  ◌≡◌, ◌≢◌, refl, sym, ◌∙◌, inl, inr, Bool, true, false, not, ◌&&◌, List, [], ◌∷◌, arith,
  Bool-cases, any, keep, In, In-keep, keep-In, any-In, any_none,
}
use x_dsi_cet.Base.Int.{ℤ, eqb_ℤ, eqb_ℤ→eq, eq→eqb_ℤ, eqb_ℤ-refl}
use x_dsi_cet.Base.Text.{text_eq, text_eq_refl}
use x_dsi_cet.Base.Dict.{int_key, text_key, insert, remove, get_or-insert, get_or-remove}
use x_dsi_cet.Standing.Graph.{
  GraphEdge, EdgeIndex, edges_at, same_link, drop_incoming, drop_outgoing, remove_edges_touching,
}
use x_dsi_cet.Standing.Graph.Edges.{EdgeDict, UniqueLinks, IsIndex, eqb_of_ne, ne_of_eqb}

moved : (m : EdgeDict) (e : GraphEdge) (s t : ℤ) → s ≡ t → In e (edges_at s m) → In e (edges_at t m)
moved m e s t q h = rw q at h

-- Filtering the edges under one key.
module _ (k : ℤ) (p : GraphEdge → Bool) (m : EdgeDict) where
  In-filtered :
      (s : ℤ) (e : GraphEdge)
      → In e (edges_at s (insert k (keep p (edges_at k m)) m))
      → In e (edges_at s m) × ((eqb_ℤ k s && not (p e)) ≡ false)
  In-filtered s e h = elim (Bool-cases (eqb_ℤ k s)) [
    | inl t ↦
        let (passes, old) =
          In-keep e p (edges_at k m)
            (rw (get_or-insert k s (keep p (edges_at k m)) [] m, t) at h) in
        (rw (← eqb_ℤ→eq k s t) old, rw (t, passes))
    | inr f ↦ (rw (get_or-insert k s (keep p (edges_at k m)) [] m, f) at h, rw f)
  ]

  filtered-In :
      (s : ℤ) (e : GraphEdge)
      → In e (edges_at s m)
      → (eqb_ℤ k s && not (p e)) ≡ false
      → In e (edges_at s (insert k (keep p (edges_at k m)) m))
  filtered-In s e h f = elim (Bool-cases (eqb_ℤ k s)) [
    | inl t ↦
        rw (get_or-insert k s (keep p (edges_at k m)) [] m, t)
          (keep-In e p (edges_at k m) (passes (rw t at f)) (rw (eqb_ℤ→eq k s t) h))
    | inr g ↦ rw (get_or-insert k s (keep p (edges_at k m)) [] m, g) h
  ]
    where
      passes : not (p e) ≡ false → p e ≡ true
      passes h = ground arith

-- The edges that the loops of `_remove_edges_touching` strike out under an end.
abbrev struck_in : ℤ → GraphEdge → GraphEdge → Bool
struck_in d e edge = eqb_ℤ edge.dst d && (eqb_ℤ e.src edge.src && text_eq e.relation edge.relation)

abbrev struck_out : ℤ → GraphEdge → GraphEdge → Bool
struck_out s e edge = eqb_ℤ edge.src s && (eqb_ℤ e.dst edge.dst && text_eq e.relation edge.relation)

In-drop_incoming :
    (d : ℤ) (e : GraphEdge) (gone : List GraphEdge) (m : EdgeDict)
    → In e (edges_at d (drop_incoming gone m))
    → In e (edges_at d m) × (any (struck_in d e) gone ≡ false)
unfolding drop_incoming any
In-drop_incoming d e [] m h = (h, refl)
In-drop_incoming d e (edge ∷ gone) m h =
    let (mid, rest) = In-drop_incoming d e gone _ h in
    let (old, here) = In-filtered edge.dst _ m d e mid in (old, ground arith)

drop_incoming-In :
    (d : ℤ) (e : GraphEdge) (gone : List GraphEdge) (m : EdgeDict)
    → In e (edges_at d m)
    → any (struck_in d e) gone ≡ false
    → In e (edges_at d (drop_incoming gone m))
unfolding drop_incoming any
drop_incoming-In d e [] m h f = h
drop_incoming-In d e (edge ∷ gone) m h f =
    drop_incoming-In d e gone _ (filtered-In edge.dst _ m d e h (ground arith)) (ground arith)

In-drop_outgoing :
    (s : ℤ) (e : GraphEdge) (gone : List GraphEdge) (m : EdgeDict)
    → In e (edges_at s (drop_outgoing gone m))
    → In e (edges_at s m) × (any (struck_out s e) gone ≡ false)
unfolding drop_outgoing any
In-drop_outgoing s e [] m h = (h, refl)
In-drop_outgoing s e (edge ∷ gone) m h =
    let (mid, rest) = In-drop_outgoing s e gone _ h in
    let (old, here) = In-filtered edge.src _ m s e mid in (old, ground arith)

drop_outgoing-In :
    (s : ℤ) (e : GraphEdge) (gone : List GraphEdge) (m : EdgeDict)
    → In e (edges_at s m)
    → any (struck_out s e) gone ≡ false
    → In e (edges_at s (drop_outgoing gone m))
unfolding drop_outgoing any
drop_outgoing-In s e [] m h f = h
drop_outgoing-In s e (edge ∷ gone) m h f =
    drop_outgoing-In s e gone _ (filtered-In edge.src _ m s e h (ground arith)) (ground arith)

any-keep :
    (q p : GraphEdge → Bool) (es : List GraphEdge) → any q es ≡ false → any q (keep p es) ≡ false
unfolding any keep
any-keep q p [] h = refl
any-keep q p (e ∷ es) h = ground (arith, any-keep q p es)

UniqueLinks-keep :
    (p : GraphEdge → Bool) (es : List GraphEdge) → UniqueLinks es → UniqueLinks (keep p es)
unfolding keep
UniqueLinks-keep p [] u = tt
UniqueLinks-keep p (e ∷ es) u = elim (Bool-cases (p e)) [
  | inl t ↦ rw t (any-keep (same_link e) p es u.0, UniqueLinks-keep p es u.1)
  | inr f ↦ rw f (UniqueLinks-keep p es u.1)
]

UniqueLinks-drop_outgoing :
    (gone : List GraphEdge) (m : EdgeDict)
    → ((s : ℤ) → UniqueLinks (edges_at s m))
    → (s : ℤ) → UniqueLinks (edges_at s (drop_outgoing gone m))
unfolding drop_outgoing
UniqueLinks-drop_outgoing [] m u s = u s
UniqueLinks-drop_outgoing (edge ∷ gone) m u s =
    UniqueLinks-drop_outgoing gone _
      (λ t. elim (Bool-cases (eqb_ℤ edge.src t)) [
        | inl y ↦
            rw (get_or-insert edge.src t _ [] m, y)
              (UniqueLinks-keep _ (edges_at edge.src m) (u edge.src))
        | inr n ↦ rw (get_or-insert edge.src t _ [] m, n) (u t)
      ])
      s

module _ (P : GraphEdge → Type 0) (i : ℤ) (ix : EdgeIndex) (v : IsIndex P ix) where
  abbrev by_dst' : EdgeDict
  by_dst' = drop_incoming (edges_at i ix.by_src) ix.by_dst

  abbrev by_src' : EdgeDict
  by_src' = drop_outgoing (edges_at i by_dst') ix.by_src

  -- The edges into the event are untouched by the first loop.
  incoming_kept : (e : GraphEdge) → In e (edges_at i ix.by_dst) → In e (edges_at i by_dst')
  incoming_kept e h = drop_incoming-In i e (edges_at i ix.by_src) ix.by_dst h (
      any_none (struck_in i e) (edges_at i ix.by_src) (λ edge k.
        let from : edge.src ≡ i = v.src_of i edge k in
        let other = v.no_loop edge (moved ix.by_src edge i edge.src (sym from) k) in
        rw (eqb_of_ne edge.dst i (λ to. other (from ∙ sym to)))))

  not_source : (s : ℤ) (e : GraphEdge) → In e (edges_at s (remove i by_src')) → i ≢ s
  not_source s e h = elim (Bool-cases (eqb_ℤ i s)) [
    | inl t ↦ absurd (rw (get_or-remove i s [] by_src', t) at h)
    | inr f ↦ ne_of_eqb i s f
  ]

  pub In-purged_src :
      (s : ℤ) (e : GraphEdge)
      → In e (edges_at s (remove_edges_touching i ix).by_src)
      → In e (edges_at s ix.by_src) × (e.src ≢ i) × (e.dst ≢ i)
  unfolding remove_edges_touching
  In-purged_src s e h =
      let n = not_source s e h in
      let (old, kept) =
        In-drop_outgoing s e (edges_at i by_dst') ix.by_src
          (rw (get_or-remove i s [] by_src', eqb_of_ne i s n) at h) in
      let from = v.src_of s e old in
      (
        old,
        (λ to. n (sym to ∙ from)),
        λ to. absurd (
            struck from kept (
              any-In (struck_out s e) e (edges_at i by_dst')
                (incoming_kept e (
                  moved ix.by_dst e e.dst i to
                    (v.mirrored e (moved ix.by_src e s e.src (sym from) old))))
                (rw (eq→eqb_ℤ e.src s from, eqb_ℤ-refl e.dst) (text_eq_refl e.relation)))),
      )
    where
      struck :
          e.src ≡ s
          → any (struck_out s e) (edges_at i by_dst') ≡ false
          → any (struck_out s e) (edges_at i by_dst') ≡ true
          → ⊥
      struck from f t = cc

  pub purged_src-In :
      (s : ℤ) (e : GraphEdge)
      → In e (edges_at s ix.by_src)
      → e.src ≢ i
      → e.dst ≢ i
      → In e (edges_at s (remove_edges_touching i ix).by_src)
  unfolding remove_edges_touching
  purged_src-In s e h from to =
      rw (get_or-remove i s [] by_src', eqb_of_ne i s (λ same. from (v.src_of s e h ∙ sym same)))
        (drop_outgoing-In s e (edges_at i by_dst') ix.by_src h (
          any_none (struck_out s e) (edges_at i by_dst') (λ edge k.
            let into = In-drop_incoming i edge (edges_at i ix.by_src) ix.by_dst k in
            let at_i : edge.dst ≡ i = v.dst_of i edge into.0 in
            let apart : eqb_ℤ e.dst edge.dst ≡ false =
              eqb_of_ne e.dst edge.dst (λ same. to (same ∙ at_i)) in
            ground arith)))

  not_target : (d : ℤ) (e : GraphEdge) → In e (edges_at d (remove i by_dst')) → i ≢ d
  not_target d e h = elim (Bool-cases (eqb_ℤ i d)) [
    | inl t ↦ absurd (rw (get_or-remove i d [] by_dst', t) at h)
    | inr f ↦ ne_of_eqb i d f
  ]

  unique_left : (s : ℤ) → UniqueLinks (edges_at s (remove_edges_touching i ix).by_src)
  unfolding remove_edges_touching
  unique_left s = elim (Bool-cases (eqb_ℤ i s)) [
    | inl t ↦ rw (get_or-remove i s [] by_src', t) tt
    | inr f ↦
        rw (get_or-remove i s [] by_src', f)
          (UniqueLinks-drop_outgoing (edges_at i by_dst') ix.by_src v.unique s)
  ]

  pub In-purged_dst :
      (d : ℤ) (e : GraphEdge)
      → In e (edges_at d (remove_edges_touching i ix).by_dst)
      → In e (edges_at d ix.by_dst) × (e.src ≢ i) × (e.dst ≢ i)
  unfolding remove_edges_touching
  In-purged_dst d e h =
      let n = not_target d e h in
      let (old, kept) =
        In-drop_incoming d e (edges_at i ix.by_src) ix.by_dst
          (rw (get_or-remove i d [] by_dst', eqb_of_ne i d n) at h) in
      let into = v.dst_of d e old in
      (
        old,
        (λ from. absurd (
            struck into kept (
              any-In (struck_in d e) e (edges_at i ix.by_src)
                (moved ix.by_src e e.src i from
                  (v.mirrored_back e (moved ix.by_dst e d e.dst (sym into) old)))
                (rw (eq→eqb_ℤ e.dst d into, eqb_ℤ-refl e.src) (text_eq_refl e.relation))))),
        λ to. n (sym to ∙ into),
      )
    where
      struck :
          e.dst ≡ d
          → any (struck_in d e) (edges_at i ix.by_src) ≡ false
          → any (struck_in d e) (edges_at i ix.by_src) ≡ true
          → ⊥
      struck into f t = cc

  pub purged_dst-In :
      (d : ℤ) (e : GraphEdge)
      → In e (edges_at d ix.by_dst)
      → e.src ≢ i
      → e.dst ≢ i
      → In e (edges_at d (remove_edges_touching i ix).by_dst)
  unfolding remove_edges_touching
  purged_dst-In d e h from to =
      rw (get_or-remove i d [] by_dst', eqb_of_ne i d (λ same. to (v.dst_of d e h ∙ sym same)))
        (drop_incoming-In d e (edges_at i ix.by_src) ix.by_dst h (
          any_none (struck_in d e) (edges_at i ix.by_src) (λ edge k.
            let at_i : edge.src ≡ i = v.src_of i edge k in
            let apart : eqb_ℤ e.src edge.src ≡ false =
              eqb_of_ne e.src edge.src (λ same. from (same ∙ at_i)) in
            ground arith)))

  -- What is left is an index of the edges that do not touch the event.
  pub purge-IsIndex : IsIndex (λ e. P e × (e.src ≢ i) × (e.dst ≢ i)) (remove_edges_touching i ix)
  purge-IsIndex = record {
    src_of = λ s e h. v.src_of s e (In-purged_src s e h).0;
    dst_of = λ d e h. v.dst_of d e (In-purged_dst d e h).0;
    mirrored = λ e h.
        let (old, from, to) = In-purged_src e.src e h in
        purged_dst-In e.dst e (v.mirrored e old) from to;
    mirrored_back = λ e h.
        let (old, from, to) = In-purged_dst e.dst e h in
        purged_src-In e.src e (v.mirrored_back e old) from to;
    no_loop = λ e h. v.no_loop e (In-purged_src e.src e h).0;
    unique = unique_left;
    holds = λ e h. let (old, from, to) = In-purged_src e.src e h in (v.holds e old, from, to);
  }
