-- ===== src/Document.antt =====
-- Python's access to a dictionary that was read from JSON: `d[k]`, `d.get(k, default)`, `a or b`,
-- iteration, and the conversions `str`, `int`, `bool` and `dict` of what is found. A field that the
-- code takes over without a conversion must have its declared type here: another type raises.
use x_dsi_cet.Base.{
  Bool, true, false, Option, none, some, List, [], ◌∷◌, if◌then◌else◌, ◌&&◌, ◌||◌, ◌==◌,
}
use x_dsi_cet.Base.Int.{ℤ}
use x_dsi_cet.Base.Text.{Text, text_eq}
use x_dsi_cet.Base.Result.{
  Result, ok, raise, value_error, type_error, attribute_error, ◌>>=◌, map_ok,
}
use x_dsi_cet.Value.{
  Value, Values, Fields, null, int, str, arr, obj, nil, cons, end, field, get_item, truthy,
  value_eq,
}
use x_dsi_cet.Platform.{Platform, str_of}
use x_dsi_cet.Contracts.{int_of, value_found, has_field}

-- `d.get(k, default)`.
unfoldable pub get_value : Text → Value → Fields → Value
unfolding get_item
get_value k default d = elim (get_item k d) [ none ↦ default | some v ↦ v ]

-- `d[k]`.
unfoldable pub item : Text → Fields → Result Value
unfolding get_item
item k d = value_found (get_item k d)

-- `d.get(k1) or d.get(k2) or … or default`.
unfoldable pub first_true : List Text → Value → Fields → Value
unfolding get_value truthy
first_true [] default d = default
first_true (k ∷ ks) default d =
    let v = get_value k null d in if truthy v then v else first_true ks default d

-- The same without a default: the last value stands, whatever it is.
unfoldable pub first_or_last : Text → List Text → Fields → Value
unfolding get_value truthy
first_or_last k [] d = get_value k null d
first_or_last k (j ∷ js) d =
    let v = get_value k null d in let rest = first_or_last j js d in if truthy v then v else rest

unfoldable pub list_of : Values → List Value
list_of nil = []
list_of (cons v vs) = v ∷ list_of vs

unfoldable pub letters : Text → List Value
letters [] = []
letters (c ∷ s) = str (c ∷ []) ∷ letters s

unfoldable pub key_values : Fields → List Value
key_values end = []
key_values (field k v d) = str k ∷ key_values d

-- `for x in v`.
unfoldable pub iterate : Value → Result (List Value)
unfolding list_of letters key_values
iterate (arr vs) = ok (list_of vs)
iterate (str s) = ok (letters s)
iterate (obj d) = ok (key_values d)
iterate _ = raise type_error

-- `d[k]` and `d.get(k)` of a value: only a dictionary has them.
unfoldable pub indexed : Value → Result Fields
indexed (obj d) = ok d
indexed _ = raise type_error

unfoldable pub with_get : Value → Result Fields
with_get (obj d) = ok d
with_get _ = raise attribute_error

-- `dict(v)`. A list of pairs is outside of the model: every list but the empty one is refused.
unfoldable pub dict_of : Value → Result Fields
dict_of (obj d) = ok d
dict_of (arr nil) = ok end
dict_of (str []) = ok end
dict_of (str (c ∷ s)) = raise value_error
dict_of _ = raise type_error

-- A field that may be `None`, with its declared type.
unfoldable pub optional_text : Value → Result (Option Text)
optional_text null = ok none
optional_text (str s) = ok (some s)
optional_text _ = raise type_error

unfoldable pub optional_int : Value → Result (Option ℤ)
optional_int null = ok none
optional_int (int n) = ok (some n)
optional_int _ = raise type_error

unfoldable pub of_list : List Value → Values
of_list [] = nil
of_list (v ∷ vs) = cons v (of_list vs)

unfoldable pub texts_value : List Text → Values
texts_value [] = nil
texts_value (s ∷ ss) = cons (str s) (texts_value ss)

-- `d[k] = v` and `d.update(e)`.
unfoldable pub put : Text → Value → Fields → Fields
unfolding text_eq
put k v end = field k v end
put k v (field j w d) = if text_eq j k then field j v d else field j w (put k v d)

unfoldable pub update : Fields → Fields → Fields
unfolding put
update d end = d
update d (field k v e) = update (put k v d) e

-- `k in v` for a text `k`: a key, an element or a part of the text.
unfoldable pub starts_with : Text → Text → Bool
starts_with [] s = true
starts_with (c ∷ k) [] = false
starts_with (c ∷ k) (d ∷ s) = (c == d) && starts_with k s

unfoldable pub is_part : Text → Text → Bool
unfolding starts_with
is_part k [] = starts_with k []
is_part k (c ∷ s) = starts_with k (c ∷ s) || is_part k s

unfoldable pub is_element : Value → Values → Bool
unfolding value_eq
is_element v nil = false
is_element v (cons w vs) = value_eq w v || is_element v vs

unfoldable pub is_in : Text → Value → Result Bool
unfolding is_part is_element get_item
is_in k (obj d) = ok (has_field d k)
is_in k (str s) = ok (is_part k s)
is_in k (arr vs) = ok (is_element (str k) vs)
is_in k _ = raise type_error

module _ (p : Platform) where
  -- `str(d[k])` and `str(d.get(k, default))`.
  unfoldable pub text_item : Text → Fields → Result Text
  unfolding item str_of
  text_item k d = item k d >>= λ v. ok (str_of p v)

  unfoldable pub text_or : Text → Value → Fields → Text
  unfolding get_value str_of
  text_or k default d = str_of p (get_value k default d)

  -- `int(d[k])` and `int(d.get(k, default))`.
  unfoldable pub int_item : Text → Fields → Result ℤ
  unfolding item int_of
  int_item k d = item k d >>= int_of p

  unfoldable pub int_or : Text → Value → Fields → Result ℤ
  unfolding get_value int_of
  int_or k default d = int_of p (get_value k default d)

  -- `[str(x) for x in v]` and `[int(x) for x in v]`.
  unfoldable pub texts_of : Value → Result (List Text)
  unfolding iterate map_ok str_of
  texts_of v = iterate v >>= map_ok (λ x. ok (str_of p x))

  unfoldable pub ints_of : Value → Result (List ℤ)
  unfolding iterate map_ok int_of
  ints_of v = iterate v >>= map_ok (int_of p)
