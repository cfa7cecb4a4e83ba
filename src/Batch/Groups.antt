-- ===== src/Batch/Groups.antt =====
-- `process_partition` of notebooks/0xDSI_CET_Databricks_prod.py: the groups that its rows are of.
use x_dsi_cet.Base.{
  ◌≡◌, refl, ap, sym, ◌∙◌, inl, inr, none, List, [], ◌∷◌, Option-cases, All, In, In-append_left,
  In-append_right, map-In,
}
use x_dsi_cet.Base.Int.{ℤ}
use x_dsi_cet.Base.Text.{Text, codes}
use x_dsi_cet.Base.Dict.{Dict}
use x_dsi_cet.Base.Result.{Result, ok, raise, >>=-eq-ok, ok-injective}
use x_dsi_cet.Value.{Fields}
use x_dsi_cet.SecurityGraph.{NativeVertex}
use x_dsi_cet.SecurityGraph.Edges.{All-append}
use x_dsi_cet.Bridge.{NativeLibrary}
use x_dsi_cet.Bridge.Calls.{Host, CetMatch}
use x_dsi_cet.Batch.{known_times, times_by_id, prepared, GroupKey}
use x_dsi_cet.Batch.Times.{least-IsInterval}
use x_dsi_cet.Batch.Detect.{
  QueryConfig, EventRow, NativeRuntime, OutputRow, failed, EventGroup, bucket_from, config_for,
  stat, trend_row, failure, trend_rows, detect_match, detect_group, detect_groups, detect_partition,
}
use x_dsi_cet.Batch.Buckets.{IsRowOf, group_keys, row_keys, In-bucket_from, bucket_from-In}

module _ (host : Host) (lib : NativeLibrary) (dumps : Fields → Text)
    (native_runtime : NativeRuntime) where
  trend_row-IsRowOf :
      (key : GroupKey) (cfg : QueryConfig) (found : Dict ℤ ℤ) (m : CetMatch) (path : List ℤ)
      (row : OutputRow)
      → trend_row host lib dumps native_runtime key cfg found m path ≡ ok row
      → IsRowOf key row
  unfolding trend_row
  trend_row-IsRowOf (q, v, p) cfg found m path row e =
      let (a, _, more) =
        >>=-eq-ok (stat host lib dumps native_runtime (codes "paths_truncated") m.stats) _ e in
      let (b, _, rest) =
        >>=-eq-ok (stat host lib dumps native_runtime (codes "states_truncated") m.stats) _ more in
      let (c, _, last) =
        >>=-eq-ok (stat host lib dumps native_runtime (codes "temporal_rejects") m.stats) _ rest in
      rw (← ok-injective _ row last) (refl, least-IsInterval (known_times found path), refl)

  trend_rows-IsRowOf :
      (key : GroupKey) (cfg : QueryConfig) (events : List NativeVertex) (m : CetMatch)
      (paths : List (List ℤ))
      → All (IsRowOf key) (trend_rows host lib dumps native_runtime key cfg events m paths)
  unfolding trend_rows failure
  trend_rows-IsRowOf key cfg events m [] = tt
  trend_rows-IsRowOf key cfg events m (path ∷ paths) =
      one (trend_row host lib dumps native_runtime key cfg (times_by_id [] events) m path)
        (trend_row-IsRowOf key cfg (times_by_id [] events) m path)
        (trend_rows-IsRowOf key cfg events m paths)
    where
      one :
          (r : Result OutputRow)
          → ((row : OutputRow) → r ≡ ok row → IsRowOf key row)
          → All (IsRowOf key) (trend_rows host lib dumps native_runtime key cfg events m paths)
          → All (IsRowOf key) (elim r [
            | ok row ↦ row ∷ trend_rows host lib dumps native_runtime key cfg events m paths
            | raise e ↦ failure host lib dumps native_runtime key cfg events e ∷ []
          ])
      one (ok row) f rest = (f row refl, rest)
      one (raise e) f rest = (refl, tt)

  detect_group-IsRowOf :
      (configs : List QueryConfig) (key : GroupKey) (given : List NativeVertex)
      → All (IsRowOf key) (detect_group host lib dumps native_runtime configs (key, given))
  unfolding detect_group failure
  detect_group-IsRowOf configs key given = elim (Option-cases (config_for key configs)) [
    | inl absent ↦ rw (detect_group, absent) (refl, tt)
    | inr (cfg, present) ↦
        rw (detect_group, present)
          (run cfg (detect_match host lib dumps native_runtime key cfg (prepared given)))
  ]
    where
      run :
          (cfg : QueryConfig) (r : Result CetMatch)
          → All (IsRowOf key) (elim r [
            | ok m ↦ trend_rows host lib dumps native_runtime key cfg (prepared given) m m.paths
            | raise e ↦ failure host lib dumps native_runtime key cfg (prepared given) e ∷ []
          ])
      run cfg (ok m) = trend_rows-IsRowOf key cfg (prepared given) m m.paths
      run cfg (raise e) = (refl, tt)

  -- A row of a group that a list of keys has.
  abbrev pub IsRowOfSome : List GroupKey → OutputRow → Type 0
  IsRowOfSome keys row = (key : GroupKey) × In key keys × IsRowOf key row

  detect_groups-IsRowOfSome :
      (configs : List QueryConfig) (keys : List GroupKey) (groups : List EventGroup)
      → ((k : GroupKey) → In k (group_keys groups) → In k keys)
      → All (IsRowOfSome keys) (detect_groups host lib dumps native_runtime configs groups)
  unfolding detect_groups
  detect_groups-IsRowOfSome configs keys [] f = tt
  detect_groups-IsRowOfSome configs keys ((key, given) ∷ groups) f =
      All-append (IsRowOfSome keys)
        (detect_group host lib dumps native_runtime configs (key, given)) _
        (noted _ (detect_group-IsRowOf configs key given))
        (detect_groups-IsRowOfSome configs keys groups (λ k h. f k (inr h)))
    where
      noted : (rows : List OutputRow) → All (IsRowOf key) rows → All (IsRowOfSome keys) rows
      noted [] h = tt
      noted (row ∷ rows) (h, more) = ((key, f key (inl refl), h), noted rows more)

  -- Every row that comes out is of a group of the rows that went in; a trend counts the events of
  -- its path, and its start and end are both absent or in order.
  pub detect_partition-IsRowOf :
      (configs : List QueryConfig) (rows : List EventRow)
      → All
          (IsRowOfSome (row_keys rows))
          (detect_partition host lib dumps native_runtime configs rows)
  unfolding detect_partition
  detect_partition-IsRowOf configs rows =
      detect_groups-IsRowOfSome configs (row_keys rows) (bucket_from [] rows) (λ k h.
        elim (In-bucket_from k rows [] h) [ inl never ↦ elim never [ ] | inr found ↦ found ])

  In-detect_groups :
      (configs : List QueryConfig) (row : OutputRow) (g : EventGroup) (groups : List EventGroup)
      → In g groups
      → In row (detect_group host lib dumps native_runtime configs g)
      → In row (detect_groups host lib dumps native_runtime configs groups)
  unfolding detect_groups
  In-detect_groups configs row g [] i h = elim i [ ]
  In-detect_groups configs row g (d ∷ groups) (inl e) h =
      In-append_left row (detect_group host lib dumps native_runtime configs d) _ (rw (← e) h)
  In-detect_groups configs row g (d ∷ groups) (inr i) h =
      In-append_right row (detect_group host lib dumps native_runtime configs d) _
        (In-detect_groups configs row g groups i h)

  detect_group_missing :
      (configs : List QueryConfig) (key : GroupKey) (given : List NativeVertex)
      → config_for key configs ≡ none
      → In
          (failed key (codes "unknown") (codes "{}") none)
          (detect_group host lib dumps native_runtime configs (key, given))
  unfolding detect_group
  detect_group_missing configs key given absent = rw (detect_group, absent) (inl refl)

  -- A group of the rows whose query has no configuration has the row that says so, whatever
  -- happens to the other groups.
  pub detect_partition_missing :
      (configs : List QueryConfig) (rows : List EventRow) (key : GroupKey)
      → In key (row_keys rows)
      → config_for key configs ≡ none
      → In
          (failed key (codes "unknown") (codes "{}") none)
          (detect_partition host lib dumps native_runtime configs rows)
  unfolding detect_partition
  detect_partition_missing configs rows key i absent =
      let ((k, given), found, same) =
        map-In (λ g. g.0) key (bucket_from [] rows) (bucket_from-In key rows [] (inr i)) in
      In-detect_groups configs _ (k, given) (bucket_from [] rows) found
        (rw same (
          detect_group_missing configs k given
            (ap (λ j. config_for j configs) (sym same) ∙ absent)))
