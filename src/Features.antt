-- ===== src/Features.antt =====
-- bindings/python/features.py: what a trend reports about its path.
use x_dsi_cet.Base.{ℕ, Option, none, some, List, [], ◌∷◌, map, if◌then◌else◌, length}
use x_dsi_cet.Base.Int.{ℤ, ◌-ℤ◌}
use x_dsi_cet.Base.Text.{Text, codes, text_le, is_empty}
use x_dsi_cet.Base.Dict.{text_key, add}
use x_dsi_cet.Base.Sort.{sort}
use x_dsi_cet.Base.Result.{Result, ok, raise, attribute_error, ◌>>=◌}
use x_dsi_cet.Value.{Value, Event, null, str, obj, get_item, get_key, truthy, type_text}
use x_dsi_cet.Platform.{Platform, str_of}
use x_dsi_cet.Dsl.Validate.{first_time, last_time}

-- `attrs = event.get("attributes") or event`, then `attrs.get(name)`; only a dictionary has `get`.
abbrev get_from : Text → Value → Result (Option Value)
get_from name (obj fs) = ok (get_item name fs)
get_from name _ = raise attribute_error

abbrev get_from_option : Text → Event → Option Value → Result (Option Value)
get_from_option name e none = ok (get_key name e)
get_from_option name e (some v) = if truthy v then get_from name v else ok (get_key name e)

unfoldable pub attribute : Text → Event → Result (Option Value)
unfolding get_key get_item truthy
attribute name e = get_from_option name e (get_key (codes "attributes") e)

-- `value is not None and value != ""`.
abbrev bucket_value : Option Value → Option Value
bucket_value none = none
bucket_value (some null) = none
bucket_value (some (str s)) = if is_empty s then none else some (str s)
bucket_value (some v) = some v

abbrev add_text : Platform → Option Value → List Text → List Text
add_text p none texts = texts
add_text p (some v) texts = add (str_of p v) texts

-- The set of one bucket over the events of the path.
unfoldable pub bucket : Platform → Text → List Event → List Text → Result (List Text)
unfolding attribute add str_of is_empty
bucket p name [] texts = ok texts
bucket p name (e ∷ es) texts = do
  v ← attribute name e
  bucket p name es (add_text p (bucket_value v) texts)

pub record Bucket : Type 0 where
  pub name : Text
  pub texts : List Text

abbrev keep_bucket : Text → List Text → List Bucket → List Bucket
keep_bucket name [] rest = rest
keep_bucket name (t ∷ ts) rest = record { name = name; texts = sort text_le (t ∷ ts) } ∷ rest

-- The buckets, in their order, with the field that each is filled from.
unfoldable pub bucket_fields : List (Text × Text)
bucket_fields =
    (codes "users", codes "user_id")
    ∷ (codes "hosts", codes "host_id")
    ∷ (codes "sessions", codes "session_id")
    ∷ (codes "ips", codes "source_ip")
    ∷ (codes "assets", codes "asset_id")
    ∷ (codes "cloud_accounts", codes "cloud_account_id")
    ∷ (codes "processes", codes "process_id")
    ∷ []

unfoldable pub extract_from : Platform → List (Text × Text) → List Event → Result (List Bucket)
unfolding bucket sort text_le
extract_from p [] path = ok []
extract_from p ((name, source) ∷ more) path = do
  texts ← bucket p source path []
  rest ← extract_from p more path
  ok (keep_bucket name texts rest)

unfoldable pub extract_entities : Platform → List Event → Result (List Bucket)
unfolding extract_from bucket_fields
extract_entities p path = extract_from p bucket_fields path

pub record TrendFeatures : Type 0 where
  pub event_count : ℕ
  pub trend_start_time_ms : ℤ
  pub trend_end_time_ms : ℤ
  pub duration_ms : ℤ
  pub event_types : List Text
  pub distinct_event_types : List Text
  pub entities : List Bucket

unfoldable pub text_set : List Text → List Text
unfolding add
text_set [] = []
text_set (t ∷ ts) = add t (text_set ts)

-- Of an empty path there is a count of 0 and nothing else: `none`.
unfoldable pub extract_trend_features : Platform → List Event → Result (Option TrendFeatures)
unfolding extract_entities first_time last_time ◌-ℤ◌ text_set sort text_le type_text
extract_trend_features p [] = ok none
extract_trend_features p (first ∷ rest) = do
  entities ← extract_entities p (first ∷ rest)
  let start = first_time first rest
  let stop = last_time first rest
  let types = map type_text (first ∷ rest)
  ok (
      some (record {
        event_count = length (first ∷ rest);
        trend_start_time_ms = start;
        trend_end_time_ms = stop;
        duration_ms = stop -ℤ start;
        event_types = types;
        distinct_event_types = sort text_le (text_set types);
        entities = entities;
      }))
