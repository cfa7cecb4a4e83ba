-- ===== src/State/Compaction.antt =====
-- What `compact_states` keeps.
use x_dsi_cet.Base.{
  ◌≡◌, refl, sym, ap, ◌∙◌, ◌⊎◌, inl, inr, true, false, none, some, List, [], ◌∷◌, arith, Bool-cases,
  Option-cases, In,
}
use x_dsi_cet.Base.Int.{ℤ, ◌≤ℤ◌, leb_ℤ→le}
use x_dsi_cet.Base.Text.{Text, text_eq, text_eq→eq, text_eq_refl}
use x_dsi_cet.Base.Dict.{
  Dict, text_key, lookup, values, lookup-insert, lookup-In, In-values, DistinctKeys,
  insert-DistinctKeys,
}
use x_dsi_cet.Base.Sort.{sort-In, In-sort}
use x_dsi_cet.Platform.{Platform}
use x_dsi_cet.State.{
  PartialTrendState, state_id, state_le, note_state, gives_way, latest_states, compact_states,
}

module _ (p : Platform) where
  -- The table holds a state under the id, no older than a given time.
  abbrev Holds : Text → ℤ → Dict Text PartialTrendState → Type 0
  Holds id time latest =
      (t : PartialTrendState) × (lookup id latest ≡ some t)
      × (state_id p t ≡ id)
      × (time ≤ℤ t.last_event_time_ms)

  -- Every entry stands under its id.
  abbrev ById : Dict Text PartialTrendState → Type 0
  ById latest = (id : Text) (t : PartialTrendState) → lookup id latest ≡ some t → state_id p t ≡ id

  -- One of the states has the id of `s` and is as recent.
  abbrev pub IsCovered : PartialTrendState → List PartialTrendState → Type 0
  IsCovered s states =
      (t : PartialTrendState) × In t states
      × (state_id p t ≡ state_id p s)
      × (s.last_event_time_ms ≤ℤ t.last_event_time_ms)

  gives_way-le :
      (s t : PartialTrendState)
      → gives_way p s (some t) ≡ true
      → t.last_event_time_ms ≤ℤ s.last_event_time_ms
  gives_way-le s t h = leb_ℤ→le t.last_event_time_ms s.last_event_time_ms h

  stays-le :
      (s t : PartialTrendState)
      → gives_way p s (some t) ≡ false
      → s.last_event_time_ms ≤ℤ t.last_event_time_ms
  stays-le s t h = ground arith

  note_state-Holds :
      (s : PartialTrendState) (id : Text) (time : ℤ) (latest : Dict Text PartialTrendState)
      → Holds id time latest
      → Holds id time (note_state p s latest)
  unfolding note_state
  note_state-Holds s id time latest (t, found, named, recent) =
      elim (Bool-cases (gives_way p s (lookup (state_id p s) latest))) [
        | inr f ↦ rw f (t, found, named, recent)
        | inl g ↦ elim (Bool-cases (text_eq (state_id p s) id)) [
          | inl same ↦
              rw (g, lookup-insert (state_id p s) id s latest, same)
                (s, refl, text_eq→eq _ id same, later (text_eq→eq _ id same) g)
          | inr other ↦
              rw (g, lookup-insert (state_id p s) id s latest, other) (t, found, named, recent)
        ]
      ]
    where
      later :
          state_id p s ≡ id
          → gives_way p s (lookup (state_id p s) latest) ≡ true
          → time ≤ℤ s.last_event_time_ms
      later same g =
          let old =
            gives_way-le s t
              (ap (gives_way p s) (sym (ap (λ x. lookup x latest) same ∙ found)) ∙ g) in
          omega (arith, old, recent)

  note_state_self :
      (s : PartialTrendState) (latest : Dict Text PartialTrendState)
      → ById latest
      → Holds (state_id p s) s.last_event_time_ms (note_state p s latest)
  unfolding note_state
  note_state_self s latest v = elim (Bool-cases (gives_way p s (lookup (state_id p s) latest))) [
    | inl g ↦
        rw (g, lookup-insert (state_id p s) (state_id p s) s latest, text_eq_refl (state_id p s))
          (s, refl, refl, omega arith)
    | inr f ↦ elim (Option-cases (lookup (state_id p s) latest)) [
      | inl none_there ↦ absurd (never (ap (gives_way p s) (sym none_there) ∙ f))
      | inr (t, found) ↦
          rw f
            (t, found, v (state_id p s) t found, stays-le s t (ap (gives_way p s) (sym found) ∙ f))
    ]
  ]
    where
      never : true ≡ false → ⊥
      never h = cc

  note_state-ById :
      (s : PartialTrendState) (latest : Dict Text PartialTrendState)
      → ById latest
      → ById (note_state p s latest)
  unfolding note_state
  note_state-ById s latest v id t =
      elim (Bool-cases (gives_way p s (lookup (state_id p s) latest))) [
        | inr f ↦ rw f (v id t)
        | inl g ↦ elim (Bool-cases (text_eq (state_id p s) id)) [
          | inl same ↦
              rw (g, lookup-insert (state_id p s) id s latest, same)
                (λ h. own (text_eq→eq _ id same) h)
          | inr other ↦ rw (g, lookup-insert (state_id p s) id s latest, other) (v id t)
        ]
      ]
    where
      own : state_id p s ≡ id → some s ≡ some t → state_id p t ≡ id
      own same h = let back : s ≡ t = cc in ap (state_id p) (sym back) ∙ same

  latest_states-Holds :
      (states : List PartialTrendState) (id : Text) (time : ℤ)
      (latest : Dict Text PartialTrendState)
      → Holds id time latest
      → Holds id time (latest_states p states latest)
  unfolding latest_states
  latest_states-Holds [] id time latest h = h
  latest_states-Holds (s ∷ states) id time latest h =
      latest_states-Holds states id time (note_state p s latest)
        (note_state-Holds s id time latest h)

  In-Holds :
      (states : List PartialTrendState) (s : PartialTrendState)
      (latest : Dict Text PartialTrendState)
      → ById latest
      → In s states
      → Holds (state_id p s) s.last_event_time_ms (latest_states p states latest)
  unfolding latest_states
  In-Holds [] s latest v k = absurd k
  In-Holds (x ∷ states) s latest v (inl same) =
      latest_states-Holds states (state_id p s) s.last_event_time_ms (note_state p x latest)
        (rw (← same) (note_state_self s latest v))
  In-Holds (x ∷ states) s latest v (inr k) =
      In-Holds states s (note_state p x latest) (note_state-ById x latest v) k

  -- Of every state that is compacted there is a state left with its id that is as recent.
  pub compact_states-covers :
      (states : List PartialTrendState) (s : PartialTrendState)
      → In s states
      → IsCovered s (compact_states p states)
  unfolding compact_states lookup
  compact_states-covers states s k =
      let (t, found, named, recent) = In-Holds states s [] (λ id u h. absurd (never h)) k in
      (t, sort-In (state_le p) t _ (lookup-In (state_id p s) t _ found), named, recent)
    where
      never : {u : PartialTrendState} → none ≡ some u → ⊥
      never h = cc

  latest_states-ById :
      (states : List PartialTrendState) (latest : Dict Text PartialTrendState)
      → ById latest
      → ById (latest_states p states latest)
  unfolding latest_states
  latest_states-ById [] latest v = v
  latest_states-ById (s ∷ states) latest v =
      latest_states-ById states (note_state p s latest) (note_state-ById s latest v)

  latest_states-DistinctKeys :
      (states : List PartialTrendState) (latest : Dict Text PartialTrendState)
      → DistinctKeys latest
      → DistinctKeys (latest_states p states latest)
  unfolding latest_states note_state
  latest_states-DistinctKeys [] latest d = d
  latest_states-DistinctKeys (s ∷ states) latest d =
      latest_states-DistinctKeys states (note_state p s latest)
        (elim (Bool-cases (gives_way p s (lookup (state_id p s) latest))) [
          | inl g ↦ rw g (insert-DistinctKeys (state_id p s) s latest d)
          | inr f ↦ rw f d
        ])

  -- No two states that are left have the same id.
  pub compact_states_unique :
      (states : List PartialTrendState) (a b : PartialTrendState)
      → In a (compact_states p states)
      → In b (compact_states p states)
      → state_id p a ≡ state_id p b
      → a ≡ b
  unfolding compact_states lookup
  compact_states_unique states a b ha hb same =
      let latest = latest_states p states [] in
      let named = latest_states-ById states [] (λ id u h. absurd (never h)) in
      let distinct = latest_states-DistinctKeys states [] tt in
      let (i, at_i) = In-values a latest distinct (In-sort (state_le p) a (values latest) ha) in
      let (j, at_j) = In-values b latest distinct (In-sort (state_le p) b (values latest) hb) in
      let keys_agree = sym (named i a at_i) ∙ same ∙ named j b at_j in
      some_injective (sym at_i ∙ ap (λ k. lookup k latest) keys_agree ∙ at_j)
    where
      never : {u : PartialTrendState} → none ≡ some u → ⊥
      never h = cc

      some_injective : some a ≡ some b → a ≡ b
      some_injective h = cc

  -- The values of the table were there before or are among the states.
  lookup-latest_states :
      (states : List PartialTrendState) (latest : Dict Text PartialTrendState) (id : Text)
      (t : PartialTrendState)
      → lookup id (latest_states p states latest) ≡ some t
      → In t states ⊎ (lookup id latest ≡ some t)
  unfolding latest_states note_state
  lookup-latest_states [] latest id t h = inr h
  lookup-latest_states (s ∷ states) latest id t h =
      elim (lookup-latest_states states (note_state p s latest) id t h) [
        | inl k ↦ inl (inr k)
        | inr found ↦ elim (Bool-cases (gives_way p s (lookup (state_id p s) latest))) [
          | inr f ↦ inr (rw f at found)
          | inl g ↦ elim (Bool-cases (text_eq (state_id p s) id)) [
            | inl same ↦
                inl (inl (back (rw (g, lookup-insert (state_id p s) id s latest, same) at found)))
            | inr other ↦ inr (rw (g, lookup-insert (state_id p s) id s latest, other) at found)
          ]
        ]
      ]
    where
      back : some s ≡ some t → t ≡ s
      back h = cc

  -- What is left was among the states.
  pub In-compact_states :
      (states : List PartialTrendState) (t : PartialTrendState)
      → In t (compact_states p states)
      → In t states
  unfolding compact_states lookup
  In-compact_states states t h =
      let latest = latest_states p states [] in
      let distinct = latest_states-DistinctKeys states [] tt in
      let (i, found) = In-values t latest distinct (In-sort (state_le p) t (values latest) h) in
      elim (lookup-latest_states states [] i t found) [
        | inl k ↦ k
        | inr never ↦ absurd (clash never)
      ]
    where
      clash : none ≡ some t → ⊥
      clash h = cc
