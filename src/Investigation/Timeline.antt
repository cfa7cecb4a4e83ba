-- ===== src/Investigation/Timeline.antt =====
-- `build_timeline` of bindings/python/investigation.py: its order, and what it holds.
use x_dsi_cet.Base.{
  ℕ, suc, ◌≡◌, refl, ap, ◌∙◌, ◌⊎◌, inl, inr, true, false, ◌≤◌, Option, none, some, ◌&&◌, ◌||◌, List,
  [], ◌∷◌, map, Bool-cases, All, All-In, All-of_In, In, In-map, map-In, arith, length, leb,
}
use x_dsi_cet.Base.Int.{ℤ, pos, ltb_ℤ, eqb_ℤ, eqb_ℤ→eq}
use x_dsi_cet.Base.Text.{codes}
use x_dsi_cet.Base.Dict.{Dict, int_key, lookup}
use x_dsi_cet.Base.Sort.{sort, IsSorted, sort-IsSorted, length-sort, In-sort, sort-In}
use x_dsi_cet.Base.Result.{ok, ok-injective}
use x_dsi_cet.Value.{Fields, Event, arr, obj, nil, end}
use x_dsi_cet.Platform.{Platform}
use x_dsi_cet.Document.{get_value, ints_of}
use x_dsi_cet.Investigation.{
  TimelineEntry, attributes_of, entry_of_event, entry_of, numbered, time_or_zero, entry_le,
  build_timeline,
}

-- The time that an entry is sorted by: an absent one counts as zero.
abbrev pub moment : Option ℤ → ℤ
moment none = pos 0
moment (some t) = t

-- Earlier, or at the same time and not behind it in the path.
abbrev pub IsBefore : TimelineEntry → TimelineEntry → Type 0
IsBefore a b =
    (ltb_ℤ (moment a.event_time_ms) (moment b.event_time_ms) ≡ true)
    ⊎ ((moment a.event_time_ms ≡ moment b.event_time_ms) × (a.ordinal ≤ b.ordinal))

abbrev pub InOrder : List TimelineEntry → Type 0
InOrder [] = Unit
InOrder (x ∷ xs) = All (IsBefore x) xs × InOrder xs

-- The entry has the details of the event, or none.
abbrev pub Describes : Option Event → TimelineEntry → Type 0
Describes none x =
    (x.event_type ≡ none)
    × (x.event_time_ms ≡ none)
    × (x.partition_key ≡ none)
    × (x.attributes ≡ obj end)
Describes (some e) x =
    (x.event_type ≡ e.event_type)
    × (x.event_time_ms ≡ e.event_time_ms)
    × (x.partition_key ≡ e.partition_key)
    × (x.attributes ≡ get_value (codes "attributes") (obj end) e.fields)

-- The entry of a position of the path.
abbrev pub IsEntryAt : Dict ℤ Event → ℕ × ℤ → TimelineEntry → Type 0
IsEntryAt events_by_id (i, eid) x =
    (x.ordinal ≡ i) × (x.event_id ≡ eid) × Describes (lookup eid events_by_id) x

-- The entries of the ids of the path, one for each position, in order.
abbrev pub IsTimeline : Dict ℤ Event → List ℤ → List TimelineEntry → Type 0
IsTimeline events_by_id ids timeline =
    InOrder timeline
    × (length timeline ≡ length ids)
    × All (λ row. (x : TimelineEntry) × In x timeline × IsEntryAt events_by_id row x)
        (numbered 0 ids)
    × All (λ x. (row : ℕ × ℤ) × In row (numbered 0 ids) × IsEntryAt events_by_id row x) timeline

time_or_zero-moment : (t : Option ℤ) → time_or_zero t ≡ moment t
unfolding time_or_zero
time_or_zero-moment none = refl
time_or_zero-moment (some t) = refl

entry_le-IsBefore : (a b : TimelineEntry) → entry_le a b ≡ true → IsBefore a b
unfolding entry_le
entry_le-IsBefore a b h =
    by_times (moment a.event_time_ms) (moment b.event_time_ms) a.ordinal b.ordinal
      (rw (← time_or_zero-moment a.event_time_ms, ← time_or_zero-moment b.event_time_ms) h)
  where
    by_times :
        (t u : ℤ) (i j : ℕ)
        → (ltb_ℤ t u || (eqb_ℤ t u && leb i j)) ≡ true
        → (ltb_ℤ t u ≡ true) ⊎ ((t ≡ u) × (i ≤ j))
    by_times t u i j h = elim (Bool-cases (ltb_ℤ t u)) [
      | inl lt ↦ inl lt
      | inr f ↦ inr (eqb_ℤ→eq t u (ground arith), ground arith)
    ]

IsSorted-InOrder : (xs : List TimelineEntry) → IsSorted entry_le xs → InOrder xs
IsSorted-InOrder [] s = tt
IsSorted-InOrder (x ∷ xs) (first, s) = (
  All-of_In (IsBefore x) xs
      (λ y i. entry_le-IsBefore x y (All-In (λ z. entry_le x z ≡ true) xs first y i)),
  IsSorted-InOrder xs s,
)

entry_of-IsEntryAt :
    (events_by_id : Dict ℤ Event) (row : ℕ × ℤ)
    → IsEntryAt events_by_id row (entry_of events_by_id row)
unfolding entry_of entry_of_event attributes_of
entry_of-IsEntryAt events_by_id (i, eid) = by_event (lookup eid events_by_id)
  where
    by_event :
        (e : Option Event)
        → ((entry_of_event e (i, eid)).ordinal ≡ i)
          × ((entry_of_event e (i, eid)).event_id ≡ eid)
          × Describes e (entry_of_event e (i, eid))
    by_event none = (refl, refl, (refl, refl, refl, refl))
    by_event (some e) = (refl, refl, (refl, refl, refl, refl))

entry_le_total : (a b : TimelineEntry) → (entry_le a b ≡ true) ⊎ (entry_le b a ≡ true)
unfolding entry_le
entry_le_total a b = elim (Bool-cases (entry_le a b)) [
  | inl t ↦ inl t
  | inr f ↦
      inr
        (other (time_or_zero a.event_time_ms) (time_or_zero b.event_time_ms) a.ordinal b.ordinal f)
]
  where
    other :
        (t u : ℤ) (i j : ℕ)
        → (ltb_ℤ t u || (eqb_ℤ t u && leb i j)) ≡ false
        → (ltb_ℤ u t || (eqb_ℤ u t && leb j i)) ≡ true
    other t u i j h = ground arith

entry_le_trans :
    (a b c : TimelineEntry) → entry_le a b ≡ true → entry_le b c ≡ true → entry_le a c ≡ true
unfolding entry_le
entry_le_trans a b c =
    go (time_or_zero a.event_time_ms) (time_or_zero b.event_time_ms) (time_or_zero c.event_time_ms)
      a.ordinal b.ordinal c.ordinal
  where
    go :
        (t u v : ℤ) (i j k : ℕ)
        → (ltb_ℤ t u || (eqb_ℤ t u && leb i j)) ≡ true
        → (ltb_ℤ u v || (eqb_ℤ u v && leb j k)) ≡ true
        → (ltb_ℤ t v || (eqb_ℤ t v && leb i k)) ≡ true
    go t u v i j k g h = ground arith

length-map-numbered :
    (f : ℕ × ℤ → TimelineEntry) (i : ℕ) (ids : List ℤ)
    → length (map f (numbered i ids)) ≡ length ids
length-map-numbered f i [] = refl
length-map-numbered f i (eid ∷ ids) = ap suc (length-map-numbered f (suc i) ids)

-- A timeline that is built is sorted by time, an absent one as zero, and then by ordinal; it has
-- one entry for each position of the path of the trend, with the details of the position's event.
pub build_timeline-IsTimeline :
    (p : Platform) (trend : Fields) (events_by_id : Dict ℤ Event) (ids : List ℤ)
    (timeline : List TimelineEntry)
    → ints_of p (get_value (codes "path") (arr nil) trend) ≡ ok ids
    → build_timeline p trend events_by_id ≡ ok timeline
    → IsTimeline events_by_id ids timeline
unfolding build_timeline
build_timeline-IsTimeline p trend events_by_id ids timeline path e =
    let rows = map (entry_of events_by_id) (numbered 0 ids) in
    let same : sort entry_le rows ≡ timeline = ok-injective _ timeline (rw path at e) in
    rw (← same) (
      IsSorted-InOrder (sort entry_le rows)
          (sort-IsSorted entry_le entry_le_total entry_le_trans rows),
      length-sort entry_le rows ∙ length-map-numbered (entry_of events_by_id) 0 ids,
      All-of_In _ (numbered 0 ids) (λ row i. (
        entry_of events_by_id row,
        sort-In entry_le _ rows (In-map (entry_of events_by_id) row (numbered 0 ids) i),
        entry_of-IsEntryAt events_by_id row,
      )),
      All-of_In _ (sort entry_le rows) (λ x i.
          let (row, j, same_entry) =
            map-In (entry_of events_by_id) x (numbered 0 ids) (In-sort entry_le x rows i) in
          (row, j, rw same_entry (entry_of-IsEntryAt events_by_id row))),
    )
