-- ===== src/Contracts.antt =====
-- bindings/python/event_contracts.py: the checks on the events of a batch. A raw event is a
-- dictionary of values.
pub mod Batches
use x_dsi_cet.Base.{
  Bool, true, false, not, ◌&&◌, Option, none, some, List, [], ◌∷◌, if◌then◌else◌, all,
}
use x_dsi_cet.Base.Int.{ℤ, pos}
use x_dsi_cet.Base.Text.{Text, codes, is_empty}
use x_dsi_cet.Base.Dict.{int_key, has}
use x_dsi_cet.Base.Result.{
  Result, ok, raise, key_error, value_error, type_error, ◌>>=◌, ◌>>◌, require,
}
use x_dsi_cet.Value.{Value, Fields, null, bool, int, str, arr, obj, get_item}
use x_dsi_cet.Platform.{Platform, str_of}

unfoldable pub required_event_fields : List Text
required_event_fields =
    codes "event_id" ∷ codes "partition_key" ∷ codes "event_type" ∷ codes "event_time_ms" ∷ []

abbrev found : Option Value → Bool
found none = false
found (some _) = true

-- `f in event`.
abbrev pub has_field : Fields → Text → Bool
has_field event f = found (get_item f event)

-- `event[f]`.
abbrev pub value_found : Option Value → Result Value
value_found none = raise key_error
value_found (some v) = ok v

abbrev int_found : Option ℤ → Result ℤ
int_found none = raise value_error
int_found (some n) = ok n

module _ (p : Platform) where
  -- `int(v)`.
  unfoldable pub int_of : Value → Result ℤ
  int_of (bool true) = ok (pos 1)
  int_of (bool false) = ok (pos 0)
  int_of (int n) = ok n
  int_of (str s) = int_found (p.int_of_text s)
  int_of _ = raise type_error

  -- `int(event[f])`.
  unfoldable pub int_field : Text → Fields → Result ℤ
  unfolding int_of get_item
  int_field f event = value_found (get_item f event) >>= int_of

  unfoldable pub validate_event : Fields → Result (Unit {0})
  unfolding required_event_fields all get_item int_field str_of is_empty
  validate_event event =
      require (all (has_field event) required_event_fields) value_error
      >> (int_field (codes "event_id") event >>= λ _.
          int_field (codes "event_time_ms") event >>= λ _.
          value_found (get_item (codes "event_type") event) >>= λ type.
          require (not (is_empty (str_of p type))) value_error)

  -- The loop of `validate_events`, with the ids seen.
  unfoldable pub validate_batch : List ℤ → List Fields → Result (Unit {0})
  unfolding validate_event int_field has
  validate_batch seen [] = ok tt
  validate_batch seen (event ∷ rest) =
      validate_event event
      >> (int_field (codes "event_id") event >>= λ id.
          let more = validate_batch (id ∷ seen) rest in
          if has id seen then raise value_error else more)

  unfoldable pub validate_events : List Fields → Result (Unit {0})
  unfolding validate_batch
  validate_events events = validate_batch [] events
