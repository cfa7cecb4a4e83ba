-- ===== src/SecurityGraph.antt =====
-- bindings/python/security_graph.py: security events and the graph of their relations. The set of
-- keys that `build` has seen and the list of edges that it has made stand in one record.
pub mod Build
pub mod Edges
pub mod Within
pub mod Sound
use x_dsi_cet.Base.{
  ℕ, Bool, true, false, not, ◌&&◌, ◌||◌, Option, none, some, List, [], ◌∷◌, ◌++◌, map,
  if◌then◌else◌, any, keep,
}
use x_dsi_cet.Base.Int.{ℤ, ◌-ℤ◌, abs, leb_ℤ, ltb_ℤ, eqb_ℤ, min_ℤ, max_ℤ}
use x_dsi_cet.Base.Text.{Text, codes, text_eq, text_le, split}
use x_dsi_cet.Base.Dict.{Dict, text_key, int_key, has, insert, get_or, values}
use x_dsi_cet.Base.Sort.{sort}
use x_dsi_cet.Base.Result.{Result, ok, raise, type_error, ◌>>=◌, ◌>>◌, require, map_ok}
use x_dsi_cet.Value.{
  Value, Fields, null, bool, int, str, arr, obj, end, field, get_item, set_default, truthy, walk,
  value_eq,
}
use x_dsi_cet.Platform.{Platform, str_of}
use x_dsi_cet.Document.{
  get_value, item, first_true, with_get, dict_of, update, is_in, text_item, int_item,
}

pub record SecurityEvent : Type 0 where
  pub event_id : ℤ
  pub partition_key : Text
  pub event_type : Text
  pub event_time_ms : ℤ
  pub attributes : Fields

-- The keys of a raw event that are not copied to its attributes.
unfoldable pub own_keys : List Text
own_keys =
    codes "event_id"
    ∷ codes "partition_key"
    ∷ codes "event_type"
    ∷ codes "event_time_ms"
    ∷ codes "event_time"
    ∷ codes "attributes"
    ∷ codes "payload"
    ∷ []

unfoldable pub with_rest : Fields → Fields → Fields
unfolding own_keys has set_default
with_rest attrs end = attrs
with_rest attrs (field k v raw) =
    with_rest (if has k own_keys then attrs else set_default k v attrs) raw

-- `SecurityEvent.from_dict`.
unfoldable pub event_from : Platform → Value → Result SecurityEvent
unfolding with_get dict_of first_true with_rest int_item text_item str_of
event_from p v = do
  raw ← with_get v
  given ← dict_of (first_true (codes "attributes" ∷ codes "payload" ∷ []) (obj end) raw)
  let attrs = with_rest given raw
  let key = codes "partition_key"
  event_id ← int_item p (codes "event_id") raw
  event_type ← text_item p (codes "event_type") raw
  event_time ← int_item p (codes "event_time_ms") raw
  ok (record {
    event_id = event_id;
    partition_key =
        str_of p (first_true (key ∷ []) (first_true (key ∷ []) (str (codes "default")) attrs) raw);
    event_type = event_type;
    event_time_ms = event_time;
    attributes = attrs;
  })

abbrev pub NativeVertex : Type 0
NativeVertex = ℤ × Text × Text × ℤ

unfoldable pub as_native_vertex : SecurityEvent → NativeVertex
as_native_vertex e = (e.event_id, e.partition_key, e.event_type, e.event_time_ms)

-- `SecurityEvent.as_dict`: the attributes replace the fields of the same name.
unfoldable pub as_dict : SecurityEvent → Fields
unfolding update
as_dict e =
    update
      (field (codes "event_id") (int e.event_id) (
        field (codes "partition_key") (str e.partition_key) (
          field (codes "event_type") (str e.event_type) (
            field (codes "event_time_ms") (int e.event_time_ms)
              (field (codes "attributes") (obj e.attributes) end)))))
      e.attributes

-- `_nested_get`. What is in a text or a list is not indexed by it.
unfoldable pub nested_get : Fields → Text → Result Value
unfolding get_item first_true is_in walk split
nested_get d key = elim (get_item key d) [
  | some v ↦ ok v
  | none ↦
      let attrs = first_true (codes "attributes" ∷ codes "payload" ∷ []) (obj end) d in
      is_in key attrs >>= λ found. elim found [
        | true ↦ elim attrs [ obj fields ↦ item key fields | _ ↦ raise type_error ]
        | false ↦ ok (walk (split b'.' key) attrs)
      ]
]

pub record EdgeMetadata : Type 0 where
  pub src : ℤ
  pub dst : ℤ
  pub relation : Text
  pub window_start_ms : ℤ
  pub window_end_ms : ℤ
  pub evidence : Fields

pub record SecurityGraph : Type 0 where
  pub events : List SecurityEvent
  pub native_events : List NativeVertex
  pub native_edges : List (ℤ × ℤ × ℤ × ℤ)
  pub edge_metadata : List EdgeMetadata

-- `SecurityGraph.events_by_id`.
unfoldable pub events_by_id_from : Dict ℤ Fields → List SecurityEvent → Dict ℤ Fields
unfolding insert as_dict
events_by_id_from found [] = found
events_by_id_from found (e ∷ es) = events_by_id_from (insert e.event_id (as_dict e) found) es

unfoldable pub events_by_id : SecurityGraph → Dict ℤ Fields
unfolding events_by_id_from
events_by_id g = events_by_id_from [] g.events

pub record SecurityGraphBuilder : Type 0 where
  pub entity_keys : List Text
  pub max_gap_ms : Option ℤ

abbrev pub EdgeKey : Type 0
EdgeKey = ℤ × ℤ × Text

abbrev pub same_key : EdgeKey → EdgeKey → Bool
same_key (a, b, r) (c, d, s) = eqb_ℤ a c && (eqb_ℤ b d && text_eq r s)

pub record EdgeSet : Type 0 where
  pub seen : List EdgeKey
  pub meta : List EdgeMetadata

-- `_edge_window`.
unfoldable pub edge_window : SecurityEvent → SecurityEvent → ℤ × ℤ
edge_window a b = (min_ℤ a.event_time_ms b.event_time_ms, max_ℤ a.event_time_ms b.event_time_ms)

unfoldable pub too_far : Option ℤ → SecurityEvent → SecurityEvent → Bool
unfolding ◌-ℤ◌ abs
too_far none a b = false
too_far (some gap) a b = ltb_ℤ gap (abs (b.event_time_ms -ℤ a.event_time_ms))

-- The end of `_add_edge`, with the two events in the order of their times.
unfoldable pub add_ordered : SecurityEvent → SecurityEvent → Text → Fields → EdgeSet → EdgeSet
unfolding any edge_window
add_ordered src dst relation evidence s =
    let key : EdgeKey = (src.event_id, dst.event_id, relation) in
    let (start, last) = edge_window src dst in
    if any (same_key key) s.seen then s else record {
      seen = s.seen ++ key ∷ [];
      meta =
          s.meta
          ++ record {
            src = src.event_id;
            dst = dst.event_id;
            relation = relation;
            window_start_ms = start;
            window_end_ms = last;
            evidence = evidence;
          }
            ∷ [];
    }

-- `_add_edge`.
unfoldable pub add_edge :
    SecurityGraphBuilder → SecurityEvent → SecurityEvent → Text → Fields → EdgeSet → EdgeSet
unfolding too_far add_ordered
add_edge builder a b relation evidence s =
    if eqb_ℤ a.event_id b.event_id
    then s
    else if too_far builder.max_gap_ms a b
    then s
    else if leb_ℤ a.event_time_ms b.event_time_ms
    then add_ordered a b relation evidence s
    else add_ordered b a relation evidence s

-- The sort keys `(partition_key, event_time_ms, event_id)` and `(event_time_ms, event_id)`.
unfoldable pub time_le : SecurityEvent → SecurityEvent → Bool
time_le a b =
    ltb_ℤ a.event_time_ms b.event_time_ms
    || (eqb_ℤ a.event_time_ms b.event_time_ms && leb_ℤ a.event_id b.event_id)

unfoldable pub place_le : SecurityEvent → SecurityEvent → Bool
unfolding text_eq text_le time_le
place_le a b =
    if text_eq a.partition_key b.partition_key
    then time_le a b
    else text_le a.partition_key b.partition_key
