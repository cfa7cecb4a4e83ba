-- ===== src/Batch.antt =====
-- What the batch programs share: `trend_id` and `build_temporal_edges`, which
-- jobs/recompute_trends_prod.py and notebooks/0xDSI_CET_Databricks_prod.py both define, and the
-- preparation of the events of a partition.
pub mod Recompute
pub mod Detect
pub mod Order
pub mod Times
pub mod Earliest
pub mod Grouped
pub mod Rows
pub mod Buckets
pub mod Groups
use x_dsi_cet.Base.{
  ℕ, Bool, true, false, not, ◌&&◌, ◌||◌, Option, none, some, List, [], ◌∷◌, ◌++◌, map,
  if◌then◌else◌, length,
}
use x_dsi_cet.Base.Int.{ℤ, pos, leb_ℤ, ltb_ℤ, eqb_ℤ, min_ℤ, max_ℤ}
use x_dsi_cet.Base.Text.{Text, codes, text_eq, int_text, join}
use x_dsi_cet.Base.Dict.{Dict, int_key, has, lookup, insert}
use x_dsi_cet.Base.Sort.{sort}
use x_dsi_cet.Platform.{Platform, Float}
use x_dsi_cet.SecurityGraph.{NativeVertex}
use x_dsi_cet.Bridge.Calls.{NativeEdge}

unfoldable pub trend_id : Platform → Text → Text → Text → List ℤ → Text
unfolding join int_text
trend_id p query_id query_version partition_key path = p.sha256_hex (
    query_id
    ++ b':'
      ∷ (query_version ++ b':' ∷ (partition_key ++ b':' ∷ join (codes ",") (map int_text path))))

abbrev pub id_of : NativeVertex → ℤ
id_of (id, _, _, _) = id

abbrev pub time_of : NativeVertex → ℤ
time_of (_, _, _, time) = time

-- `events[-1][3]`.
unfoldable pub last_event_time : NativeVertex → List NativeVertex → ℤ
last_event_time e [] = time_of e
last_event_time e (f ∷ es) = last_event_time f es

unfoldable pub edges_from : ℤ → ℤ → NativeVertex → List NativeVertex → List NativeEdge
edges_from start last e [] = []
edges_from start last e (f ∷ es) = (id_of e, id_of f, start, last) ∷ edges_from start last f es

unfoldable pub build_temporal_edges : List NativeVertex → List NativeEdge
unfolding last_event_time edges_from
build_temporal_edges [] = []
build_temporal_edges (e ∷ es) = edges_from (time_of e) (last_event_time e es) e es

-- `sorted(…, key=lambda x: (x[3], x[0]))`.
unfoldable pub vertex_le : NativeVertex → NativeVertex → Bool
vertex_le a b =
    ltb_ℤ (time_of a) (time_of b) || (eqb_ℤ (time_of a) (time_of b) && leb_ℤ (id_of a) (id_of b))

-- The loop over the sorted events, with the set of the ids seen.
unfoldable pub dedupe : List ℤ → List NativeVertex → List NativeVertex
unfolding has
dedupe seen [] = []
dedupe seen (e ∷ es) =
    let rest = dedupe (id_of e ∷ seen) es in if has (id_of e) seen then rest else e ∷ rest

unfoldable pub prepared : List NativeVertex → List NativeVertex
unfolding sort vertex_le dedupe
prepared events = dedupe [] (sort vertex_le events)

-- `{e[0]: e[3] for e in events}`.
unfoldable pub times_by_id : Dict ℤ ℤ → List NativeVertex → Dict ℤ ℤ
unfolding insert
times_by_id found [] = found
times_by_id found (e ∷ es) = times_by_id (insert (id_of e) (time_of e) found) es

-- The times of the ids of a path that are known.
unfoldable pub known_times : Dict ℤ ℤ → List ℤ → List ℤ
unfolding lookup
known_times found [] = []
known_times found (id ∷ path) =
    let rest = known_times found path in elim (lookup id found) [ none ↦ rest | some t ↦ t ∷ rest ]

-- `min(times) if times else None`, and the same with `max`.
unfoldable pub least_from : ℤ → List ℤ → ℤ
least_from t [] = t
least_from t (u ∷ ts) = least_from (min_ℤ t u) ts

unfoldable pub greatest_from : ℤ → List ℤ → ℤ
greatest_from t [] = t
greatest_from t (u ∷ ts) = greatest_from (max_ℤ t u) ts

unfoldable pub least : List ℤ → Option ℤ
unfolding least_from
least [] = none
least (t ∷ ts) = some (least_from t ts)

unfoldable pub greatest : List ℤ → Option ℤ
unfolding greatest_from
greatest [] = none
greatest (t ∷ ts) = some (greatest_from t ts)

-- `x or default`: an empty text, 0 and 0.0 give way as well.
abbrev pub int_or_default : ℤ → Option ℤ → ℤ
int_or_default default none = default
int_or_default default (some n) = if eqb_ℤ n (pos 0) then default else n

abbrev pub text_or_default : Text → Option Text → Text
text_or_default default none = default
text_or_default default (some []) = default
text_or_default default (some (c ∷ s)) = c ∷ s

abbrev is_zero_float : Platform → Float → Bool
is_zero_float p x = p.le x (p.float_of_int (pos 0)) && p.le (p.float_of_int (pos 0)) x

abbrev pub float_or_one : Platform → Option Float → Float
float_or_one p none = p.float_of_int (pos 1)
float_or_one p (some x) = if is_zero_float p x then p.float_of_int (pos 1) else x

-- The key of a group of rows: query, version and partition.
abbrev pub GroupKey : Type 0
GroupKey = Text × Text × Text

abbrev pub same_group : GroupKey → GroupKey → Bool
same_group (a, b, c) (d, e, f) = text_eq a d && (text_eq b e && text_eq c f)
