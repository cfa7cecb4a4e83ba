-- ===== src/Standing/Graph/Edges.antt =====
-- The edge dictionaries of `TemporalGraphState` as one set of edges: what `_add_edge_only` and
-- `_remove_edges_touching` do to it.
use x_dsi_cet.Base.{
  ◌≡◌, ◌≢◌, refl, ap, ◌∙◌, ◌⊎◌, inl, inr, Bool, true, false, List, [], ◌∷◌, ◌++◌, arith, Bool-cases,
  any, In, In-append_cases, In-append_left, In-append_right, any-eq-false,
}
use x_dsi_cet.Base.Int.{ℤ, eqb_ℤ, eqb_ℤ→eq, eq→eqb_ℤ, eqb_ℤ-refl}
use x_dsi_cet.Base.Dict.{Dict, int_key, text_key, insert, get_or-insert, same-sym}
use x_dsi_cet.Standing.Graph.{GraphEdge, EdgeIndex, edges_at, same_link, add_edge}

abbrev pub EdgeDict : Type 0
EdgeDict = Dict ℤ (List GraphEdge)

-- Two edges of a source differ in their target or in their relation.
abbrev pub UniqueLinks : List GraphEdge → Type 0
UniqueLinks [] = Unit
UniqueLinks (e ∷ es) = (any (same_link e) es ≡ false) × UniqueLinks es

-- Both dictionaries hold the same edges, each under its own end; every edge satisfies `P`.
pub record IsIndex (P : GraphEdge → Type 0) (ix : EdgeIndex) : Type 0 where
  pub src_of : (s : ℤ) (e : GraphEdge) → In e (edges_at s ix.by_src) → e.src ≡ s
  pub dst_of : (d : ℤ) (e : GraphEdge) → In e (edges_at d ix.by_dst) → e.dst ≡ d
  pub mirrored : (e : GraphEdge) → In e (edges_at e.src ix.by_src) → In e (edges_at e.dst ix.by_dst)
  pub mirrored_back :
      (e : GraphEdge) → In e (edges_at e.dst ix.by_dst) → In e (edges_at e.src ix.by_src)
  pub no_loop : (e : GraphEdge) → In e (edges_at e.src ix.by_src) → e.src ≢ e.dst
  pub unique : (s : ℤ) → UniqueLinks (edges_at s ix.by_src)
  pub holds : (e : GraphEdge) → In e (edges_at e.src ix.by_src) → P e

pub eqb_of_ne : (a b : ℤ) → a ≢ b → eqb_ℤ a b ≡ false
eqb_of_ne a b n = elim (Bool-cases (eqb_ℤ a b)) [ inl t ↦ absurd (n (eqb_ℤ→eq a b t)) | inr f ↦ f ]

pub ne_of_eqb : (a b : ℤ) → eqb_ℤ a b ≡ false → a ≢ b
ne_of_eqb a b f e = let t = eq→eqb_ℤ a b e in cc

-- Appending an edge under a key.
module _ (k : ℤ) (x : GraphEdge) (m : EdgeDict) where
  In-inserted :
      (s : ℤ) (e : GraphEdge)
      → In e (edges_at s (insert k (edges_at k m ++ x ∷ []) m))
      → In e (edges_at s m) ⊎ ((e ≡ x) × (k ≡ s))
  In-inserted s e h = elim (Bool-cases (eqb_ℤ k s)) [
    | inl t ↦
        at_key t (In-append_cases e (edges_at k m) (x ∷ []) (rw (get_or-insert k s _ [] m, t) at h))
    | inr f ↦ inl (rw (get_or-insert k s _ [] m, f) at h)
  ]
    where
      at_key :
          eqb_ℤ k s ≡ true
          → In e (edges_at k m) ⊎ In e (x ∷ [])
          → In e (edges_at s m) ⊎ ((e ≡ x) × (k ≡ s))
      at_key t (inl old) = inl (rw (← eqb_ℤ→eq k s t) old)
      at_key t (inr (inl new)) = inr (new, eqb_ℤ→eq k s t)
      at_key t (inr (inr never)) = elim never [ ]

  inserted-In :
      (s : ℤ) (e : GraphEdge)
      → In e (edges_at s m)
      → In e (edges_at s (insert k (edges_at k m ++ x ∷ []) m))
  inserted-In s e h = elim (Bool-cases (eqb_ℤ k s)) [
    | inl t ↦
        rw (get_or-insert k s (edges_at k m ++ x ∷ []) [] m, t)
          (In-append_left e (edges_at k m) (x ∷ []) (rw (eqb_ℤ→eq k s t) h))
    | inr f ↦ rw (get_or-insert k s (edges_at k m ++ x ∷ []) [] m, f) h
  ]

  inserted-new : In x (edges_at k (insert k (edges_at k m ++ x ∷ []) m))
  inserted-new =
      rw (get_or-insert k k (edges_at k m ++ x ∷ []) [] m, eqb_ℤ-refl k)
        (In-append_right x (edges_at k m) (x ∷ []) (inl refl))

same_link-sym : (a b : GraphEdge) → same_link a b ≡ same_link b a
same_link-sym a b = rw (same-sym b.dst a.dst, same-sym b.relation a.relation)

any-append_one :
    (p : GraphEdge → Bool) (es : List GraphEdge) (x : GraphEdge)
    → any p es ≡ false
    → p x ≡ false
    → any p (es ++ x ∷ []) ≡ false
unfolding any
any-append_one p [] x h k = rw k
any-append_one p (e ∷ es) x h k = ground (arith, any-append_one p es x)

UniqueLinks-append :
    (es : List GraphEdge) (x : GraphEdge)
    → any (same_link x) es ≡ false
    → UniqueLinks es
    → UniqueLinks (es ++ x ∷ [])
unfolding any
UniqueLinks-append [] x h u = (refl, tt)
UniqueLinks-append (e ∷ es) x h u = (
  any-append_one (same_link e) es x u.0
      (same_link-sym e x ∙ any-eq-false (same_link x) e (e ∷ es) h (inl refl)),
  UniqueLinks-append es x (ground arith) u.1,
)

module _ (P : GraphEdge → Type 0) where
  -- An edge that satisfies `P` can be offered to `_add_edge_only`.
  pub add_edge-IsIndex :
      (edge : GraphEdge) (ix : EdgeIndex) → P edge → IsIndex P ix → IsIndex P (add_edge edge ix)
  unfolding add_edge
  add_edge-IsIndex edge ix p v = elim (Bool-cases (eqb_ℤ edge.src edge.dst)) [
    | inl loop ↦ rw loop v
    | inr straight ↦ elim (Bool-cases (any (same_link edge) (edges_at edge.src ix.by_src))) [
      | inl old ↦ rw (straight, old) v
      | inr new ↦ rw (straight, new) (added straight new)
    ]
  ]
    where
      added :
          eqb_ℤ edge.src edge.dst ≡ false
          → any (same_link edge) (edges_at edge.src ix.by_src) ≡ false
          → IsIndex P (record {
            by_src = insert edge.src (edges_at edge.src ix.by_src ++ edge ∷ []) ix.by_src;
            by_dst = insert edge.dst (edges_at edge.dst ix.by_dst ++ edge ∷ []) ix.by_dst;
          })
      added straight new = record {
        src_of = λ s e h. elim (In-inserted edge.src edge ix.by_src s e h) [
          | inl old ↦ v.src_of s e old
          | inr (same, at) ↦ ap (λ (x : GraphEdge). x.src) same ∙ at
        ];
        dst_of = λ d e h. elim (In-inserted edge.dst edge ix.by_dst d e h) [
          | inl old ↦ v.dst_of d e old
          | inr (same, at) ↦ ap (λ (x : GraphEdge). x.dst) same ∙ at
        ];
        mirrored = λ e h. elim (In-inserted edge.src edge ix.by_src e.src e h) [
          | inl old ↦ inserted-In edge.dst edge ix.by_dst e.dst e (v.mirrored e old)
          | inr (same, at) ↦ rw same (inserted-new edge.dst edge ix.by_dst)
        ];
        mirrored_back = λ e h. elim (In-inserted edge.dst edge ix.by_dst e.dst e h) [
          | inl old ↦ inserted-In edge.src edge ix.by_src e.src e (v.mirrored_back e old)
          | inr (same, at) ↦ rw same (inserted-new edge.src edge ix.by_src)
        ];
        no_loop = λ e h. elim (In-inserted edge.src edge ix.by_src e.src e h) [
          | inl old ↦ v.no_loop e old
          | inr (same, at) ↦ rw same (ne_of_eqb edge.src edge.dst straight)
        ];
        unique = λ s. elim (Bool-cases (eqb_ℤ edge.src s)) [
          | inl t ↦
              rw
                (
                  get_or-insert edge.src s (edges_at edge.src ix.by_src ++ edge ∷ []) [] ix.by_src,
                  t,
                )
                (UniqueLinks-append (edges_at edge.src ix.by_src) edge new (v.unique edge.src))
          | inr f ↦
              rw
                (
                  get_or-insert edge.src s (edges_at edge.src ix.by_src ++ edge ∷ []) [] ix.by_src,
                  f,
                )
                (v.unique s)
        ];
        holds = λ e h. elim (In-inserted edge.src edge ix.by_src e.src e h) [
          | inl old ↦ v.holds e old
          | inr (same, at) ↦ rw same p
        ];
      }

  pub IsIndex-weaken :
      (Q : GraphEdge → Type 0) (ix : EdgeIndex)
      → ((e : GraphEdge) → P e → Q e)
      → IsIndex P ix
      → IsIndex Q ix
  IsIndex-weaken Q ix f v = record {
    src_of = v.src_of;
    dst_of = v.dst_of;
    mirrored = v.mirrored;
    mirrored_back = v.mirrored_back;
    no_loop = v.no_loop;
    unique = v.unique;
    holds = λ e h. f e (v.holds e h);
  }
