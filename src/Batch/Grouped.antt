-- ===== src/Batch/Grouped.antt =====
-- The groups that jobs/recompute_trends_prod.py makes of its rows: one for each key, with the events
-- of the rows that have it.
use mathlib.Core.Path.{subst}
use x_dsi_cet.Base.{
  ◌≡◌, refl, sym, ap, ◌∙◌, ◌⊎◌, inl, inr, true, false, List, [], ◌∷◌, ◌++◌, Bool-cases, All, All-In,
  In, In-append_left, In-append_right, In-append_cases,
}
use x_dsi_cet.Base.Text.{text_eq_refl}
use x_dsi_cet.SecurityGraph.{NativeVertex}
use x_dsi_cet.Bridge.{NativeLibrary}
use x_dsi_cet.Bridge.Calls.{Host}
use x_dsi_cet.Base.Text.{Text}
use x_dsi_cet.Value.{Fields}
use x_dsi_cet.Batch.{GroupKey, same_group}
use x_dsi_cet.Batch.Buckets.{same_group→eq}
use x_dsi_cet.Batch.Recompute.{
  RecomputeRow, RecomputeGroup, row_event, row_key, group_key, new_group, add_row, group_rows,
}

pub same_group_refl : (k : GroupKey) → same_group k k ≡ true
same_group_refl (a, b, c) = rw (text_eq_refl a, text_eq_refl b, text_eq_refl c) refl

-- The event and the key of one of the rows.
abbrev pub IsRowOfKey : List RecomputeRow → GroupKey → NativeVertex → Type 0
IsRowOfKey rows key e = (r : RecomputeRow) × In r rows × (row_key r ≡ key) × (row_event r ≡ e)

-- A group of a row's key that has its event.
abbrev pub Holds : List RecomputeGroup → RecomputeRow → Type 0
Holds groups r =
    (g : RecomputeGroup) × In g groups × (group_key g ≡ row_key r) × In (row_event r) g.events

abbrev pub DistinctGroups : List RecomputeGroup → Type 0
DistinctGroups [] = Unit
DistinctGroups (g ∷ groups) =
    All (λ h. same_group (group_key g) (group_key h) ≡ false) groups × DistinctGroups groups

distinct_keys :
    (g h : RecomputeGroup)
    → same_group (group_key g) (group_key h) ≡ false
    → group_key g ≡ group_key h
    → ⊥
distinct_keys g h f same =
    clash f (ap (same_group (group_key g)) (sym same) ∙ same_group_refl (group_key g))
  where
    clash :
        same_group (group_key g) (group_key h) ≡ false
        → same_group (group_key g) (group_key h) ≡ true
        → ⊥
    clash f t = cc

one_group :
    (groups : List RecomputeGroup) (g h : RecomputeGroup)
    → DistinctGroups groups
    → In g groups
    → In h groups
    → group_key g ≡ group_key h
    → g ≡ h
one_group [] g h d i j same = absurd i
one_group (x ∷ groups) g h d (inl a) (inl b) same = a ∙ sym b
one_group (x ∷ groups) g h d (inr i) (inr j) same = one_group groups g h d.1 i j same
one_group (x ∷ groups) g h d (inl a) (inr j) same = absurd (
    distinct_keys x h (All-In (λ y. same_group (group_key x) (group_key y) ≡ false) groups d.0 h j)
      (ap group_key (sym a) ∙ same))
one_group (x ∷ groups) g h d (inr i) (inl b) same = absurd (
    distinct_keys x g (All-In (λ y. same_group (group_key x) (group_key y) ≡ false) groups d.0 g i)
      (ap group_key (sym b) ∙ sym same))

module _ (host : Host) (lib : NativeLibrary) (dumps : Fields → Text) (replay_id : Text) where
  abbrev add : RecomputeRow → List RecomputeGroup → List RecomputeGroup
  add r groups = add_row host lib dumps replay_id r groups

  add_row-Holds : (r : RecomputeRow) (groups : List RecomputeGroup) → Holds (add r groups) r
  unfolding add_row new_group
  add_row-Holds r [] = (new_group host lib dumps replay_id r, inl refl, refl, inl refl)
  add_row-Holds r (g ∷ groups) = elim (Bool-cases (same_group (group_key g) (row_key r))) [
    | inl t ↦
        rw (add_row, t)
          (
            record g { events = g.events ++ row_event r ∷ [] },
            inl refl,
            same_group→eq (group_key g) (row_key r) t,
            In-append_right (row_event r) g.events _ (inl refl),
          )
    | inr f ↦ let (h, i, key, e) = add_row-Holds r groups in rw (add_row, f) (h, inr i, key, e)
  ]

  -- A group stays, perhaps with one more event.
  add_row-keeps :
      (r s : RecomputeRow) (groups : List RecomputeGroup) → Holds groups s → Holds (add r groups) s
  unfolding add_row
  add_row-keeps r s [] (h, i, key, e) = absurd i
  add_row-keeps r s (g ∷ groups) (h, i, key, e) =
      elim (Bool-cases (same_group (group_key g) (row_key r))) [
        | inl t ↦ rw (add_row, t) (grown i)
        | inr f ↦ rw (add_row, f) (behind i (λ k. add_row-keeps r s groups (h, k, key, e)))
      ]
    where
      grown :
          In h (g ∷ groups) → Holds (record g { events = g.events ++ row_event r ∷ [] } ∷ groups) s
      grown (inl same) = (
        record g { events = g.events ++ row_event r ∷ [] },
        inl refl,
        ap group_key (sym same) ∙ key,
        In-append_left (row_event s) g.events _
            (subst (λ (x : RecomputeGroup). In (row_event s) x.events) same e),
      )
      grown (inr k) = (h, inr k, key, e)

      behind :
          In h (g ∷ groups) → (In h groups → Holds (add r groups) s) → Holds (g ∷ add r groups) s
      behind (inl same) f = (h, inl same, key, e)
      behind (inr k) f = let (x, j, a, b) = f k in (x, inr j, a, b)

  -- Where an event of a group comes from.
  abbrev Origin : RecomputeRow → List RecomputeGroup → RecomputeGroup → NativeVertex → Type 0
  Origin r groups g e =
      ((row_event r ≡ e) × (row_key r ≡ group_key g))
      ⊎ ((h : RecomputeGroup) × In h groups × (group_key h ≡ group_key g) × In e h.events)

  add_row-Origin :
      (r : RecomputeRow) (groups : List RecomputeGroup) (g : RecomputeGroup) (e : NativeVertex)
      → In g (add r groups)
      → In e g.events
      → Origin r groups g e
  unfolding add_row new_group
  add_row-Origin r [] g e (inr k) j = absurd k
  add_row-Origin r [] g e (inl same) j =
      elim (subst (λ (x : RecomputeGroup). In e x.events) same j) [
        | inl at ↦ inl (sym at, ap group_key (sym same))
        | inr k ↦ absurd k
      ]
  add_row-Origin r (x ∷ groups) g e i j = elim (Bool-cases (same_group (group_key x) (row_key r))) [
    | inl t ↦ grown t (rw (add_row, t) at i)
    | inr f ↦ behind (rw (add_row, f) at i) (λ k. add_row-Origin r groups g e k j)
  ]
    where
      split :
          same_group (group_key x) (row_key r) ≡ true
          → record x { events = x.events ++ row_event r ∷ [] } ≡ g
          → In e x.events ⊎ In e (row_event r ∷ [])
          → Origin r (x ∷ groups) g e
      split t same (inl k) = inr (x, inl refl, ap group_key same, k)
      split t same (inr (inl at)) =
          inl (sym at, sym (same_group→eq (group_key x) (row_key r) t) ∙ ap group_key same)
      split t same (inr (inr k)) = absurd k

      grown :
          same_group (group_key x) (row_key r) ≡ true
          → In g (record x { events = x.events ++ row_event r ∷ [] } ∷ groups)
          → Origin r (x ∷ groups) g e
      grown t (inl same) = split t (sym same) (
          In-append_cases e x.events (row_event r ∷ [])
            (subst (λ (y : RecomputeGroup). In e y.events) same j))
      grown t (inr k) = inr (g, inr k, refl, j)

      behind :
          In g (x ∷ add r groups)
          → (In g (add r groups) → Origin r groups g e)
          → Origin r (x ∷ groups) g e
      behind (inl same) f = inr (g, inl same, refl, j)
      behind (inr k) f = elim (f k) [
        | inl new ↦ inl new
        | inr (h, l, key, m) ↦ inr (h, inr l, key, m)
      ]

  All-add_row :
      (key : GroupKey) (r : RecomputeRow) (groups : List RecomputeGroup)
      → same_group key (row_key r) ≡ false
      → All (λ h. same_group key (group_key h) ≡ false) groups
      → All (λ h. same_group key (group_key h) ≡ false) (add r groups)
  unfolding add_row new_group
  All-add_row key r [] f h = (f, tt)
  All-add_row key r (g ∷ groups) f (a, h) =
      elim (Bool-cases (same_group (group_key g) (row_key r))) [
        | inl t ↦ rw (add_row, t) (a, h)
        | inr n ↦ rw (add_row, n) (a, All-add_row key r groups f h)
      ]

  add_row-DistinctGroups :
      (r : RecomputeRow) (groups : List RecomputeGroup)
      → DistinctGroups groups
      → DistinctGroups (add r groups)
  unfolding add_row new_group
  add_row-DistinctGroups r [] d = (tt, tt)
  add_row-DistinctGroups r (g ∷ groups) (a, d) =
      elim (Bool-cases (same_group (group_key g) (row_key r))) [
        | inl t ↦ rw (add_row, t) (a, d)
        | inr n ↦
            rw (add_row, n)
              (All-add_row (group_key g) r groups n a, add_row-DistinctGroups r groups d)
      ]

  -- The events of each group come from rows of its key.
  abbrev FromRows : List RecomputeRow → List RecomputeGroup → Type 0
  FromRows rows groups =
      (g : RecomputeGroup) (e : NativeVertex)
      → In g groups
      → In e g.events
      → IsRowOfKey rows (group_key g) e

  group_rows-FromRows :
      (rows all : List RecomputeRow) (groups : List RecomputeGroup)
      → ((r : RecomputeRow) → In r rows → In r all)
      → FromRows all groups
      → FromRows all (group_rows host lib dumps replay_id groups rows)
  unfolding group_rows
  group_rows-FromRows [] all groups within f = f
  group_rows-FromRows (r ∷ rows) all groups within f =
      group_rows-FromRows rows all (add r groups) (λ s i. within s (inr i))
        (λ g e i j. elim (add_row-Origin r groups g e i j) [
          | inl (same, key) ↦ (r, within r (inl refl), key, same)
          | inr (h, k, key, l) ↦
              let (s, m, its_key, same) = f h e k l in (s, m, its_key ∙ key, same)
        ])

  group_rows-Holds :
      (rows : List RecomputeRow) (groups : List RecomputeGroup) (r : RecomputeRow)
      → Holds groups r ⊎ In r rows
      → Holds (group_rows host lib dumps replay_id groups rows) r
  unfolding group_rows
  group_rows-Holds [] groups r (inl h) = h
  group_rows-Holds [] groups r (inr i) = absurd i
  group_rows-Holds (s ∷ rows) groups r (inl h) =
      group_rows-Holds rows (add s groups) r (inl (add_row-keeps s r groups h))
  group_rows-Holds (s ∷ rows) groups r (inr (inr i)) =
      group_rows-Holds rows (add s groups) r (inr i)
  group_rows-Holds (s ∷ rows) groups r (inr (inl same)) =
      group_rows-Holds rows (add s groups) r
        (inl (subst (Holds (add s groups)) (sym same) (add_row-Holds s groups)))

  group_rows-DistinctGroups :
      (rows : List RecomputeRow) (groups : List RecomputeGroup)
      → DistinctGroups groups
      → DistinctGroups (group_rows host lib dumps replay_id groups rows)
  unfolding group_rows
  group_rows-DistinctGroups [] groups d = d
  group_rows-DistinctGroups (r ∷ rows) groups d =
      group_rows-DistinctGroups rows (add r groups) (add_row-DistinctGroups r groups d)

  -- A group has the key of a row.
  add_row-key :
      (r : RecomputeRow) (groups : List RecomputeGroup) (g : RecomputeGroup)
      → In g (add r groups)
      → (row_key r ≡ group_key g)
        ⊎ ((h : RecomputeGroup) × In h groups × (group_key h ≡ group_key g))
  unfolding add_row new_group
  add_row-key r [] g (inl same) = inl (ap group_key (sym same))
  add_row-key r [] g (inr k) = absurd k
  add_row-key r (x ∷ groups) g i = elim (Bool-cases (same_group (group_key x) (row_key r))) [
    | inl t ↦ grown (rw (add_row, t) at i)
    | inr f ↦ behind (rw (add_row, f) at i) (add_row-key r groups g)
  ]
    where
      grown :
          In g (record x { events = x.events ++ row_event r ∷ [] } ∷ groups)
          → (row_key r ≡ group_key g)
            ⊎ ((h : RecomputeGroup) × In h (x ∷ groups) × (group_key h ≡ group_key g))
      grown (inl same) = inr (x, inl refl, ap group_key (sym same))
      grown (inr k) = inr (g, inr k, refl)

      behind :
          In g (x ∷ add r groups)
          → (In g (add r groups)
              → (row_key r ≡ group_key g)
                ⊎ ((h : RecomputeGroup) × In h groups × (group_key h ≡ group_key g)))
          → (row_key r ≡ group_key g)
            ⊎ ((h : RecomputeGroup) × In h (x ∷ groups) × (group_key h ≡ group_key g))
      behind (inl same) f = inr (x, inl refl, ap group_key (sym same))
      behind (inr k) f = elim (f k) [ inl key ↦ inl key | inr (h, l, key) ↦ inr (h, inr l, key) ]

  group_rows-key :
      (rows all : List RecomputeRow) (groups : List RecomputeGroup) (g : RecomputeGroup)
      → ((r : RecomputeRow) → In r rows → In r all)
      → ((h : RecomputeGroup)
          → In h groups
          → (r : RecomputeRow) × In r all × (row_key r ≡ group_key h))
      → In g (group_rows host lib dumps replay_id groups rows)
      → (r : RecomputeRow) × In r all × (row_key r ≡ group_key g)
  unfolding group_rows
  group_rows-key [] all groups g within f i = f g i
  group_rows-key (r ∷ rows) all groups g within f i =
      group_rows-key rows all (add r groups) g (λ s j. within s (inr j))
        (λ h j. elim (add_row-key r groups h j) [
          | inl key ↦ (r, within r (inl refl), key)
          | inr (x, k, key) ↦ let (s, l, its_key) = f x k in (s, l, its_key ∙ key)
        ])
        i

  -- The groups of the rows.
  abbrev pub groups_of : List RecomputeRow → List RecomputeGroup
  groups_of rows = group_rows host lib dumps replay_id [] rows

  -- An event of a group is that of a row of its key.
  pub groups_of-IsRowOfKey :
      (rows : List RecomputeRow) (g : RecomputeGroup) (e : NativeVertex)
      → In g (groups_of rows)
      → In e g.events
      → IsRowOfKey rows (group_key g) e
  groups_of-IsRowOfKey rows = group_rows-FromRows rows rows [] (λ r i. i) (λ g e i j. absurd i)

  -- Every row of the key of a group has its event in the group.
  pub groups_of-event :
      (rows : List RecomputeRow) (g : RecomputeGroup) (r : RecomputeRow)
      → In g (groups_of rows)
      → In r rows
      → row_key r ≡ group_key g
      → In (row_event r) g.events
  groups_of-event rows g r i j key =
      let (h, k, its_key, e) = group_rows-Holds rows [] r (inr j) in
      let same : h ≡ g =
        one_group (groups_of rows) h g (group_rows-DistinctGroups rows [] tt) k i (its_key ∙ key) in
      subst (λ (x : RecomputeGroup). In (row_event r) x.events) same e

  pub groups_of-key :
      (rows : List RecomputeRow) (g : RecomputeGroup)
      → In g (groups_of rows)
      → (r : RecomputeRow) × In r rows × (row_key r ≡ group_key g)
  groups_of-key rows g = group_rows-key rows rows [] g (λ r i. i) (λ h j. absurd j)
