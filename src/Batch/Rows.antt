-- ===== src/Batch/Rows.antt =====
-- What the trends of jobs/recompute_trends_prod.py say of the rows that they are made of.
use mathlib.Core.Path.{subst}
use x_dsi_cet.Base.{
  ◌≡◌, refl, sym, ap, ◌∙◌, inl, inr, Bool, true, not, ◌&&◌, ◌||◌, Option, none, some, List, [], ◌∷◌,
  map, keep, keep-In, In-keep, In, Bool-cases, All, All-of_In, arith, length,
}
use x_dsi_cet.Base.Int.{ℤ, leb_ℤ, eqb_ℤ, eqb_ℤ→eq}
use x_dsi_cet.Base.Text.{Text}
use x_dsi_cet.Base.Dict.{int_key, has}
use x_dsi_cet.Base.Result.{ok, >>=-eq-ok, ok-injective}
use x_dsi_cet.Value.{Fields}
use x_dsi_cet.SecurityGraph.{NativeVertex}
use x_dsi_cet.SecurityGraph.Edges.{All-append}
use x_dsi_cet.Bridge.{NativeLibrary}
use x_dsi_cet.Bridge.Calls.{Host}
use x_dsi_cet.Batch.{id_of, time_of, least, greatest, times_by_id, prepared, GroupKey, same_group}
use x_dsi_cet.Batch.Buckets.{same_group→eq}
use x_dsi_cet.Batch.Times.{Between, least-Between, IsOneOf, least-IsOneOf, greatest-IsOneOf}
use x_dsi_cet.Batch.Earliest.{path_times, path_times-of_event, path_times-event}
use x_dsi_cet.Batch.Grouped.{
  same_group_refl, groups_of, groups_of-IsRowOfKey, groups_of-event, groups_of-key,
}
use x_dsi_cet.Batch.Recompute.{
  RecomputeRow, RecomputeGroup, RecomputedTrend, row_event, row_key, group_key, recomputed_trend,
  recompute_match, recompute_group, concat_ok, recompute_partition, failing,
}

abbrev pub trend_key : RecomputedTrend → GroupKey
trend_key t = (t.query_id, t.query_version, t.partition_key)

-- The rows of the query, the version and the partition of a trend whose events stand in its path.
abbrev pub rows_of : RecomputedTrend → List RecomputeRow → List RecomputeRow
rows_of t rows = keep (λ r. same_group (trend_key t) (row_key r) && has r.event_id t.path) rows

-- No row of the same event is earlier.
abbrev pub IsFirst : List RecomputeRow → RecomputeRow → Type 0
IsFirst rows r =
    All (λ s. (not (eqb_ℤ s.event_id r.event_id) || leb_ℤ r.event_time_ms s.event_time_ms) ≡ true)
      rows

-- A time that is there is that of the first row of an event.
abbrev pub IsTimeIn : List RecomputeRow → Option ℤ → Type 0
IsTimeIn rows none = Unit
IsTimeIn rows (some t) = (r : RecomputeRow) × In r rows × (r.event_time_ms ≡ t) × IsFirst rows r

-- Each event has a row, at the time of the given one or before, whose time is between the two.
abbrev pub IsSpan : List RecomputeRow → Option ℤ → Option ℤ → Type 0
IsSpan rows start last =
    All
      (λ r.
        (f : RecomputeRow) × In f rows
        × (f.event_id ≡ r.event_id)
        × (leb_ℤ f.event_time_ms r.event_time_ms ≡ true)
        × Between start last f.event_time_ms)
      rows
    × IsTimeIn rows start
    × IsTimeIn rows last

-- The trend is of the query, the version and the partition of a row, counts its path, and spans the
-- first times of the events of its path.
abbrev pub IsRecomputed : List RecomputeRow → RecomputedTrend → Type 0
IsRecomputed rows t =
    ((r : RecomputeRow) × In r rows × (row_key r ≡ trend_key t))
    × (t.event_count ≡ length t.path)
    × IsSpan (rows_of t rows) t.trend_start_ms t.trend_end_ms

and_left : (a b : Bool) → (a && b) ≡ true → a ≡ true
and_left a b h = ground arith

and_right : (a b : Bool) → (a && b) ≡ true → b ≡ true
and_right a b h = ground arith

module _ (host : Host) (lib : NativeLibrary) (dumps : Fields → Text) (replay_id : Text)
    (rows : List RecomputeRow) (g : RecomputeGroup)
    (i : In g (groups_of host lib dumps replay_id rows)) (path : List ℤ) where
  abbrev mine : List RecomputeRow
  mine = keep (λ r. same_group (group_key g) (row_key r) && has r.event_id path) rows

  abbrev times : List ℤ
  times = path_times g.events path

  mine-In :
      (r : RecomputeRow)
      → In r rows
      → row_key r ≡ group_key g
      → has r.event_id path ≡ true
      → In r mine
  mine-In r j key h =
      keep-In r (λ s. same_group (group_key g) (row_key s) && has s.event_id path) rows
        (both (ap (same_group (group_key g)) key ∙ same_group_refl (group_key g)) h) j
    where
      both : {a b : Bool} → a ≡ true → b ≡ true → (a && b) ≡ true
      both h k = rw (h, k) refl

  In-mine :
      (r : RecomputeRow) → In r mine → In (row_event r) g.events × (has r.event_id path ≡ true)
  In-mine r j =
      let (test, k) =
        In-keep r (λ s. same_group (group_key g) (row_key s) && has s.event_id path) rows j in
      (
        groups_of-event host lib dumps replay_id rows g r i k
            (sym (same_group→eq (group_key g) (row_key r) (and_left _ _ test))),
        and_right (same_group (group_key g) (row_key r)) (has r.event_id path) test,
      )

  -- The row of an event of the group whose id stands in the path.
  row_of :
      (f : NativeVertex)
      → In f g.events
      → has (id_of f) path ≡ true
      → (s : RecomputeRow) × In s mine × (row_event s ≡ f)
  row_of f j h =
      let (s, l, key, same) = groups_of-IsRowOfKey host lib dumps replay_id rows g f i j in
      (s, mine-In s l key (ap (λ e. has (id_of e) path) same ∙ h), same)

  first_of :
      (r : RecomputeRow)
      → In r mine
      → (f : RecomputeRow) × In f mine
        × (f.event_id ≡ r.event_id)
        × (leb_ℤ f.event_time_ms r.event_time_ms ≡ true)
        × Between (least times) (greatest times) f.event_time_ms
  first_of r j =
      let (e, h) = In-mine r j in
      let (f, k, same, le, found) = path_times-of_event g.events path (row_event r) e h in
      let (s, l, its) = row_of f k (ap (λ n. has n path) same ∙ h) in
      (
        s,
        l,
        ap id_of its ∙ same,
        subst (λ (t : ℤ). leb_ℤ t r.event_time_ms ≡ true) (sym (ap time_of its)) le,
        subst (Between (least times) (greatest times)) (sym (ap time_of its))
            (least-Between times (time_of f) found),
      )

  time_in : (o : Option ℤ) → IsOneOf times o → IsTimeIn mine o
  time_in none h = tt
  time_in (some u) h =
      let (f, k, in_path, time, earliest) = path_times-event g.events path u h in
      let (s, l, its) = row_of f k in_path in
      (
        s,
        l,
        ap time_of its ∙ time,
        All-of_In _ mine (λ q m. elim (Bool-cases (eqb_ℤ q.event_id s.event_id)) [
          | inr other ↦ rw other refl
          | inl t ↦ rw t (
              subst (λ (x : ℤ). leb_ℤ x q.event_time_ms ≡ true) (sym (ap time_of its))
                (earliest (row_event q) (In-mine q m).0
                  (eqb_ℤ→eq q.event_id s.event_id t ∙ ap id_of its)))
        ]),
      )

  mine-IsSpan : IsSpan mine (least times) (greatest times)
  mine-IsSpan = (
    All-of_In _ mine first_of,
    time_in (least times) (least-IsOneOf times),
    time_in (greatest times) (greatest-IsOneOf times),
  )

  recomputed_trend-IsRecomputed :
      (stats : Text)
      → IsRecomputed rows (
          recomputed_trend host lib dumps replay_id g
            (times_by_id [] (prepared g.events))
            stats
            path)
  unfolding recomputed_trend
  recomputed_trend-IsRecomputed stats =
      (groups_of-key host lib dumps replay_id rows g i, refl, mine-IsSpan)

module _ (host : Host) (lib : NativeLibrary) (dumps : Fields → Text) (replay_id : Text)
    (rows : List RecomputeRow) where
  map-IsRecomputed :
      (g : RecomputeGroup) (stats : Text) (paths : List (List ℤ))
      → In g (groups_of host lib dumps replay_id rows)
      → All (IsRecomputed rows) (
          map
            (recomputed_trend host lib dumps replay_id g (times_by_id [] (prepared g.events)) stats)
            paths)
  map-IsRecomputed g stats [] i = tt
  map-IsRecomputed g stats (path ∷ paths) i = (
    recomputed_trend-IsRecomputed host lib dumps replay_id rows g i path stats,
    map-IsRecomputed g stats paths i,
  )

  recompute_group-IsRecomputed :
      (g : RecomputeGroup) (trends : List RecomputedTrend)
      → In g (groups_of host lib dumps replay_id rows)
      → recompute_group host lib dumps replay_id g ≡ ok trends
      → All (IsRecomputed rows) trends
  unfolding recompute_group
  recompute_group-IsRecomputed g trends i e =
      let (m, _, last) =
        >>=-eq-ok
          (failing host lib dumps replay_id
            (recompute_match host lib dumps replay_id g (prepared g.events)))
          _ e in
      rw (← ok-injective _ trends last) (map-IsRecomputed g _ m.paths i)

  concat_ok-IsRecomputed :
      (groups : List RecomputeGroup) (trends : List RecomputedTrend)
      → ((g : RecomputeGroup) → In g groups → In g (groups_of host lib dumps replay_id rows))
      → concat_ok host lib dumps replay_id (recompute_group host lib dumps replay_id) groups
        ≡ ok trends
      → All (IsRecomputed rows) trends
  unfolding concat_ok
  concat_ok-IsRecomputed [] trends within e = rw (← ok-injective [] trends e) tt
  concat_ok-IsRecomputed (g ∷ groups) trends within e =
      let (first, found, more) = >>=-eq-ok (recompute_group host lib dumps replay_id g) _ e in
      let (rest, others, last) = >>=-eq-ok (concat_ok host lib dumps replay_id _ groups) _ more in
      rw (← ok-injective _ trends last) (
        All-append (IsRecomputed rows) first rest
          (recompute_group-IsRecomputed g first (within g (inl refl)) found)
          (concat_ok-IsRecomputed groups rest (λ h j. within h (inr j)) others))

-- A recomputed trend is of the query, the version and the partition of one of the rows, and counts
-- the events of its path. Among the rows of the three with an event of the path, each event has a
-- first time, which is between the start and the end of the trend; and the start and the end, where
-- they are there, are such first times.
pub recompute_partition-IsRecomputed :
    (host : Host) (lib : NativeLibrary) (dumps : Fields → Text) (replay_id : Text)
    (rows : List RecomputeRow) (trends : List RecomputedTrend)
    → recompute_partition host lib dumps replay_id rows ≡ ok trends
    → All (IsRecomputed rows) trends
unfolding recompute_partition
recompute_partition-IsRecomputed host lib dumps replay_id rows trends e =
    concat_ok-IsRecomputed host lib dumps replay_id rows (groups_of host lib dumps replay_id rows)
      trends (λ g i. i) e
