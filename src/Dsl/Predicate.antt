-- ===== src/Dsl/Predicate.antt =====
-- `FieldPredicate.evaluate` and `AbsenceSpec.matches` of bindings/python/dsl.py.
use x_dsi_cet.Base.{
  Bool, true, false, not, ◌&&◌, ◌||◌, Option, none, some, List, [], ◌∷◌, ◌==◌, if◌then◌else◌, any,
}
use x_dsi_cet.Base.Text.{Text, codes, is_empty, text_eq}
use x_dsi_cet.Base.Result.{Result, ok, raise, value_error, type_error, re_error, ◌>>=◌, all_ok}
use x_dsi_cet.Value.{
  Value, Values, Fields, Event, null, str, arr, obj, nil, cons, get_item, value_eq, truthy,
  get_field, type_text,
}
use x_dsi_cet.Platform.{Platform, Float, str_of, float_of}
use x_dsi_cet.Dsl.Query.{FieldPredicate, AbsenceSpec}

abbrev is_null : Value → Bool
is_null null = true
is_null _ = false

-- `op in {…}`.
unfoldable pub one_of : Text → List Text → Bool
unfolding any
one_of op names = any (text_eq op) names

unfoldable pub is_prefix : Text → Text → Bool
is_prefix [] t = true
is_prefix (a ∷ s) [] = false
is_prefix (a ∷ s) (b ∷ t) = (a == b) && is_prefix s t

-- `s in t` for two texts.
unfoldable pub is_substring : Text → Text → Bool
unfolding is_prefix
is_substring s [] = is_empty s
is_substring s (c ∷ t) = is_prefix s (c ∷ t) || is_substring s t

unfoldable pub in_values : Value → Values → Bool
in_values a nil = false
in_values a (cons x xs) = value_eq a x || in_values a xs

-- `a in d` for a dictionary: lists and dictionaries are no keys.
abbrev in_keys : Value → Fields → Result Bool
in_keys (arr _) d = raise type_error
in_keys (obj _) d = raise type_error
in_keys (str s) d = ok (elim (get_item s d) [ none ↦ false | some _ ↦ true ])
in_keys _ d = ok false

-- `a in s` for a text: only a text can be sought there.
abbrev in_text : Value → Text → Result Bool
in_text (str a) s = ok (is_substring a s)
in_text _ s = raise type_error

abbrev in_container : Value → Value → Result Bool
in_container a (arr xs) = ok (in_values a xs)
in_container a (obj d) = in_keys a d
in_container a (str s) = in_text a s
in_container a _ = raise type_error

-- `actual in (expected or [])`.
unfoldable pub is_in : Value → Value → Result Bool
unfolding truthy in_values
is_in actual expected = if truthy expected then in_container actual expected else ok false

abbrev negate : Bool → Result Bool
negate b = ok (not b)

module _ (p : Platform) where
  -- `a > b` and the rest, on floats; any other operation is an error.
  unfoldable pub compare_floats : Text → Float → Float → Result Bool
  unfolding one_of
  compare_floats op a b =
      if one_of op (codes "gt" ∷ codes ">" ∷ [])
      then ok (p.lt b a)
      else if one_of op (codes "gte" ∷ codes ">=" ∷ [])
      then ok (p.le b a)
      else if one_of op (codes "lt" ∷ codes "<" ∷ [])
      then ok (p.lt a b)
      else if one_of op (codes "lte" ∷ codes "<=" ∷ [])
      then ok (p.le a b)
      else raise value_error

  -- A value that is no number makes the comparison false, whatever the operation.
  unfoldable pub compare_numbers : Text → Value → Value → Result Bool
  unfolding compare_floats
  compare_numbers op actual expected = elim (float_of p actual) [
    | none ↦ ok false
    | some a ↦ elim (float_of p expected) [ none ↦ ok false | some b ↦ compare_floats op a b ]
  ]

  -- The test of `contains` and of `regex`; an invalid expression raises `re.error`.
  unfoldable pub search_text : Value → Value → Result Bool
  search_text actual expected =
      if is_null actual
      then ok false
      else elim (p.regex_search (str_of p expected) (str_of p actual)) [
        | none ↦ raise re_error
        | some b ↦ ok b
      ]

  unfoldable pub apply_op : Text → Value → Value → Result Bool
  unfolding is_in compare_numbers search_text one_of
  apply_op op actual expected =
      if one_of op (codes "exists" ∷ codes "present" ∷ [])
      then negate (is_null actual)
      else if one_of op (codes "not_exists" ∷ codes "absent" ∷ [])
      then ok (is_null actual)
      else if one_of op (codes "eq" ∷ codes "==" ∷ [])
      then ok (value_eq actual expected)
      else if one_of op (codes "ne" ∷ codes "!=" ∷ [])
      then negate (value_eq actual expected)
      else if text_eq op (codes "in")
      then is_in actual expected
      else if text_eq op (codes "not_in")
      then is_in actual expected >>= negate
      else if text_eq op (codes "contains")
      then ok (not (is_null actual) && is_substring (str_of p expected) (str_of p actual))
      else if text_eq op (codes "regex")
      then search_text actual expected
      else compare_numbers op actual expected

  -- `self.event_type and str(event.get("event_type")) != self.event_type`.
  unfoldable pub other_type : Option Text → Event → Bool
  other_type none e = false
  other_type (some t) e = not (is_empty t) && not (text_eq (type_text e) t)

  unfoldable pub evaluate : FieldPredicate → Event → Result Bool
  unfolding apply_op other_type
  evaluate f e =
      if other_type f.event_type e then ok true else apply_op f.op (get_field e f.field) f.value

  unfoldable pub absence_matches : AbsenceSpec → Event → Result Bool
  unfolding evaluate all_ok
  absence_matches a e =
      if not (text_eq (type_text e) a.event_type)
      then ok false
      else all_ok (λ f. evaluate f e) a.field_predicates
