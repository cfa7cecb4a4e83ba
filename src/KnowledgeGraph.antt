-- ===== src/KnowledgeGraph.antt =====
-- bindings/python/temporal_kg.py: the entities of events, when they were seen, and which were seen
-- together. `json.dumps` is an argument.
pub mod Seen
use x_dsi_cet.Base.{
  ℕ, suc, Bool, true, false, not, Option, none, some, List, [], ◌∷◌, ◌++◌, if◌then◌else◌,
}
use x_dsi_cet.Base.Int.{ℤ, pos, min_ℤ, max_ℤ}
use x_dsi_cet.Base.Text.{Text, codes, text_le, is_empty}
use x_dsi_cet.Base.Dict.{Dict, text_key, lookup, insert, values}
use x_dsi_cet.Base.Sort.{sort}
use x_dsi_cet.Base.Result.{Result, ok, raise, type_error, attribute_error, ◌>>=◌}
use x_dsi_cet.Value.{Value, Fields, null, int, str, arr, obj, nil, end, field, get_item}
use x_dsi_cet.Platform.{Platform, Float, str_of, float_of}
use x_dsi_cet.Contracts.{int_of}
use x_dsi_cet.Document.{get_value, item, first_true, iterate, with_get, int_item, int_or}

unfoldable pub entity_fields : List (Text × Text)
entity_fields =
    (codes "user", codes "user_id")
    ∷ (codes "host", codes "host_id")
    ∷ (codes "session", codes "session_id")
    ∷ (codes "ip", codes "source_ip")
    ∷ (codes "cloud_account", codes "cloud_account_id")
    ∷ (codes "process", codes "process_id")
    ∷ (codes "asset", codes "asset_id")
    ∷ []

-- `_get`.
unfoldable pub get_entity : Fields → Text → Result Value
unfolding get_item first_true with_get get_value
get_entity event name = elim (get_item name event) [
  | some v ↦ ok v
  | none ↦
      with_get (first_true (codes "attributes" ∷ codes "payload" ∷ []) (obj end) event) >>= λ attrs.
      ok (get_value name null attrs)
]

-- `value in (None, "")`.
unfoldable pub is_missing : Value → Bool
unfolding is_empty
is_missing null = true
is_missing (str s) = is_empty s
is_missing _ = false

pub record EntityRow : Type 0 where
  pub entity_id : Text
  pub entity_type : Text
  pub entity_key : Text
  pub first_seen_ms : ℤ
  pub last_seen_ms : ℤ
  pub attributes : Text

pub record EntityRelation : Type 0 where
  pub src_entity_id : Text
  pub dst_entity_id : Text
  pub relation_type : Text
  pub event_id : ℤ
  pub event_time_ms : ℤ

pub record TrendEvidence : Type 0 where
  pub trend_id : Value
  pub query_id : Value
  pub event_id : ℤ
  pub ordinal : ℕ
  pub risk_score : Float

pub record TemporalKg : Type 0 where
  pub entities : List EntityRow
  pub relations : List EntityRelation
  pub trend_evidence : List TrendEvidence

-- `entity_latest`, and the entities of one event.
abbrev pub EntityTable : Type 0
EntityTable = Dict Text EntityRow

abbrev pub EventEntity : Type 0
EventEntity = Text × Text

abbrev pub entity_le : EntityRow → EntityRow → Bool
entity_le a b = text_le a.entity_id b.entity_id

-- `first_seen_ms` and `last_seen_ms` of the new row.
abbrev pub first_seen : ℤ → Option EntityRow → ℤ
first_seen ts none = ts
first_seen ts (some prev) = min_ℤ ts prev.first_seen_ms

abbrev pub last_seen : ℤ → Option EntityRow → ℤ
last_seen ts none = ts
last_seen ts (some prev) = max_ℤ ts prev.last_seen_ms

module _ (p : Platform) (dumps : Fields → Text) where
  unfoldable pub entity_id : Text → Value → Text
  unfolding str_of
  entity_id entity_type value = p.sha256_hex (entity_type ++ b':' ∷ str_of p value)

  unfoldable pub entity_row : ℤ → Text → Text → Value → EntityTable → EntityRow
  unfolding entity_id lookup str_of
  entity_row ts entity_type name value table =
      let id = entity_id entity_type value in
      record {
        entity_id = id;
        entity_type = entity_type;
        entity_key = str_of p value;
        first_seen_ms = first_seen ts (lookup id table);
        last_seen_ms = last_seen ts (lookup id table);
        attributes = dumps (field (codes "source_field") (str name) end);
      }

  -- The loop over the entity fields of an event.
  unfoldable pub note_entities :
      Fields → ℤ → List (Text × Text) → EntityTable → Result (EntityTable × List EventEntity)
  unfolding get_entity is_missing entity_row insert
  note_entities event ts [] table = ok (table, [])
  note_entities event ts ((entity_type, name) ∷ more) table = get_entity event name >>= λ value.
      if is_missing value
      then note_entities event ts more table
      else (let row = entity_row ts entity_type name value table in
          note_entities event ts more (insert row.entity_id row table) >>= λ noted.
          ok (noted.0, (entity_type, row.entity_id) ∷ noted.1))

  unfoldable pub relations_to : EventEntity → List EventEntity → ℤ → ℤ → List EntityRelation
  relations_to a [] event_id ts = []
  relations_to (a_type, a_id) ((b_type, b_id) ∷ entities) event_id ts =
      record {
        src_entity_id = a_id;
        dst_entity_id = b_id;
        relation_type = codes "co_observed:" ++ (a_type ++ b':' ∷ b_type);
        event_id = event_id;
        event_time_ms = ts;
      }
      ∷ relations_to (a_type, a_id) entities event_id ts

  -- The two loops over the entities of an event.
  unfoldable pub relations_of : List EventEntity → ℤ → ℤ → List EntityRelation
  unfolding relations_to
  relations_of [] event_id ts = []
  relations_of (a ∷ entities) event_id ts =
      relations_to a entities event_id ts ++ relations_of entities event_id ts

  -- `int(e["event_id"])` is only asked for where there is a pair of entities.
  unfoldable pub event_relations : Fields → List EventEntity → ℤ → Result (List EntityRelation)
  unfolding int_item relations_of
  event_relations event [] ts = ok []
  event_relations event (a ∷ []) ts = ok []
  event_relations event (a ∷ b ∷ entities) ts =
      int_item p (codes "event_id") event >>= λ id. ok (relations_of (a ∷ b ∷ entities) id ts)

  -- The loop over the events.
  unfoldable pub note_events :
      List Fields → EntityTable → Result (EntityTable × List EntityRelation)
  unfolding int_or note_entities entity_fields event_relations
  note_events [] table = ok (table, [])
  note_events (event ∷ events) table = do
    ts ← int_or p (codes "event_time_ms") (int (pos 0)) event
    noted ← note_entities event ts entity_fields table
    relations ← event_relations event noted.1 ts
    rest ← note_events events noted.0
    ok (rest.0, relations ++ rest.1)

  abbrev float_found : Option Float → Result Float
  float_found none = raise type_error
  float_found (some x) = ok x

  -- The loop over the path of a trend.
  unfoldable pub path_evidence : Fields → ℕ → List Value → Result (List TrendEvidence)
  unfolding item int_of get_value float_of
  path_evidence t ordinal [] = ok []
  path_evidence t ordinal (eid ∷ path) = do
    trend_id ← item (codes "trend_id") t
    event_id ← int_of p eid
    risk_score ← float_found (float_of p (get_value (codes "risk_score") (int (pos 0)) t))
    rest ← path_evidence t (suc ordinal) path
    ok (
        record {
          trend_id = trend_id;
          query_id = get_value (codes "query_id") null t;
          event_id = event_id;
          ordinal = ordinal;
          risk_score = risk_score;
        }
        ∷ rest)

  unfoldable pub trends_evidence : List Fields → Result (List TrendEvidence)
  unfolding iterate get_value path_evidence
  trends_evidence [] = ok []
  trends_evidence (t ∷ trends) = do
    path ← iterate (get_value (codes "path") (arr nil) t)
    first ← path_evidence t 0 path
    rest ← trends_evidence trends
    ok (first ++ rest)

  unfoldable pub build_temporal_kg : List Fields → List Fields → Result TemporalKg
  unfolding note_events trends_evidence sort text_le values
  build_temporal_kg events trends = do
    noted ← note_events events []
    evidence ← trends_evidence trends
    ok (record {
      entities = sort entity_le (values noted.0);
      relations = noted.1;
      trend_evidence = evidence;
    })
