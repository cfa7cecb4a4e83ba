-- ===== src/Connectors/Normalize.antt =====
-- bindings/python/connectors/base.py: the canonical event that a connector makes of a raw one. The
-- clock, the hash that stands for a missing id, and `json.dumps` are arguments.
use x_dsi_cet.Base.{Bool, true, false, not, Option, none, some, List, [], ◌∷◌, if◌then◌else◌}
use x_dsi_cet.Base.Int.{ℤ}
use x_dsi_cet.Base.Text.{Text, codes, is_empty}
use x_dsi_cet.Base.Dict.{text_key, has}
use x_dsi_cet.Base.Result.{Result, ok, ◌>>=◌, map_ok}
use x_dsi_cet.Value.{Value, Fields, null, int, str, obj, end, field, get_item, set_default}
use x_dsi_cet.Platform.{Platform, str_of}
use x_dsi_cet.Contracts.{int_of}
use x_dsi_cet.Document.{first_true, dict_of}

pub record ConnectorEvent : Type 0 where
  pub event_id : Value
  pub partition_key : Text
  pub event_type : Text
  pub event_time_ms : ℤ
  pub event_time : Value
  pub attributes : Fields
  pub source_name : Text
  pub raw : Fields

-- `value not in (None, "")`.
unfoldable pub is_present : Value → Bool
unfolding is_empty
is_present null = false
is_present (str s) = not (is_empty s)
is_present _ = true

-- The loop over the names, in one dictionary.
unfoldable pub first_present : List Text → Fields → Option Value
unfolding get_item is_present
first_present [] d = none
first_present (name ∷ names) d =
    let later = first_present names d in
    elim (get_item name d) [ none ↦ later | some v ↦ if is_present v then some v else later ]

abbrev pub within_dict : List Text → Value → Option Value
within_dict names (obj attrs) = first_present names attrs
within_dict names _ = none

-- `_first`.
unfoldable pub first_of : List Text → Value → Fields → Value
unfolding first_present first_true
first_of names default d = elim (first_present names d) [
  | some v ↦ v
  | none ↦
      elim (within_dict names
        (first_true (codes "attributes" ∷ codes "payload" ∷ []) (obj end) d)) [
          | some v ↦ v
          | none ↦ default
        ]
]

-- The keys of a raw event that are not copied to the attributes.
unfoldable pub canonical_keys : List Text
canonical_keys =
    codes "event_id"
    ∷ codes "id"
    ∷ codes "partition_key"
    ∷ codes "event_type"
    ∷ codes "type"
    ∷ codes "event_time_ms"
    ∷ codes "event_time"
    ∷ codes "timestamp"
    ∷ codes "attributes"
    ∷ codes "payload"
    ∷ []

unfoldable pub with_attributes : Fields → Fields → Fields
unfolding canonical_keys has set_default
with_attributes attrs end = attrs
with_attributes attrs (field k v raw) =
    with_attributes (if has k canonical_keys then attrs else set_default k v attrs) raw

module _ (p : Platform) (now_ms : ℤ) (hash_id : Fields → ℤ) (dumps : Fields → Text) where
  -- `normalize_connector_event`.
  unfoldable pub normalize_event : Text → Fields → Result ConnectorEvent
  unfolding dict_of first_true with_attributes first_of int_of str_of
  normalize_event source_name raw = do
    given ← dict_of (first_true (codes "attributes" ∷ codes "payload" ∷ []) (obj end) raw)
    event_time_ms ←
        int_of p (first_of (codes "event_time_ms" ∷ codes "timestamp_ms" ∷ []) (int now_ms) raw)
    ok (record {
      event_id =
          first_of (codes "event_id" ∷ codes "id" ∷ codes "message_id" ∷ []) (int (hash_id raw))
            raw;
      partition_key = str_of p (
          first_of
            (codes "partition_key"
              ∷ codes "tenant_id"
              ∷ codes "user_id"
              ∷ codes "host_id"
              ∷ codes "source_ip"
              ∷ [])
            (str (codes "default")) raw);
      event_type = str_of p (
          first_of
            (codes "event_type" ∷ codes "type" ∷ codes "eventName" ∷ codes "activity_name" ∷ [])
            (str (codes "Unknown")) raw);
      event_time_ms = event_time_ms;
      event_time = first_of (codes "event_time" ∷ codes "timestamp" ∷ []) null raw;
      attributes = with_attributes given raw;
      source_name = source_name;
      raw = raw;
    })

  abbrev raw_or : Fields → Fields → Fields
  raw_or end out = out
  raw_or (field k v d) out = field k v d

  abbrev canonical_fields : ConnectorEvent → Fields → Fields
  canonical_fields e rest = field (codes "event_id") e.event_id (
      field (codes "partition_key") (str e.partition_key) (
        field (codes "event_type") (str e.event_type) (
          field (codes "event_time_ms") (int e.event_time_ms) (
            field (codes "event_time") e.event_time (
              field (codes "attributes") (obj e.attributes)
                (field (codes "source_name") (str e.source_name) rest))))))

  -- `ConnectorEvent.as_dict`.
  unfoldable pub event_dict : ConnectorEvent → Fields
  event_dict e =
      canonical_fields e
        (field (codes "raw_json") (str (dumps (raw_or e.raw (canonical_fields e end)))) end)

  unfoldable pub normalize_many : Text → List Fields → Result (List Fields)
  unfolding map_ok normalize_event event_dict
  normalize_many source_name events =
      map_ok (λ raw. normalize_event source_name raw >>= λ e. ok (event_dict e)) events
