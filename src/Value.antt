-- ===== src/Value.antt =====
-- The dynamic values that events carry (JSON without floating-point numbers), the events of the
-- runtime, and the field accessors: `_field` of bindings/python/standing/runtime.py and `_get_field`
-- of bindings/python/dsl.py.
use x_dsi_cet.Base.{
  ℕ, suc, Bool, true, false, not, ◌&&◌, Option, none, some, List, [], ◌∷◌, ◌==◌, if◌then◌else◌,
}
use x_dsi_cet.Base.Int.{ℤ, pos, eqb_ℤ}
use x_dsi_cet.Base.Text.{Text, codes, text_eq, is_empty, split}

mutual
  pub data Value : Type 0 where
    null : Value
    bool : Bool → Value
    int : ℤ → Value
    str : Text → Value
    arr : Values → Value
    obj : Fields → Value

  pub data Values : Type 0 where
    nil : Values
    cons : Value → Values → Values

  pub data Fields : Type 0 where
    end : Fields
    field : Text → Value → Fields → Fields

-- `d[k]` of a dictionary, if `k in d`. Keys are distinct, as in a Python dict.
unfoldable pub get_item : Text → Fields → Option Value
get_item k end = none
get_item k (field j v fs) = if text_eq j k then some v else get_item k fs

unfoldable pub set_default : Text → Value → Fields → Fields
set_default k v end = field k v end
set_default k v (field j w fs) = field j w (if text_eq j k then fs else set_default k v fs)

unfoldable pub size_fields : Fields → ℕ
size_fields end = 0
size_fields (field k v fs) = suc (size_fields fs)

abbrev of_bool : Bool → ℤ
of_bool true = pos 1
of_bool false = pos 0

-- A number against a value: `True == 1` holds in Python.
unfoldable pub num_eq : ℤ → Value → Bool
num_eq n (bool b) = eqb_ℤ n (of_bool b)
num_eq n (int m) = eqb_ℤ n m
num_eq n _ = false

-- `a == b`: lists element by element, dictionaries key by key whatever the order.
unfoldable mutual
  pub value_eq : Value → Value → Bool
  value_eq null null = true
  value_eq null _ = false
  value_eq (bool a) b = num_eq (of_bool a) b
  value_eq (int n) b = num_eq n b
  value_eq (str s) (str t) = text_eq s t
  value_eq (str s) _ = false
  value_eq (arr xs) (arr ys) = values_eq xs ys
  value_eq (arr xs) _ = false
  value_eq (obj fs) (obj gs) = (size_fields fs == size_fields gs) && fields_within fs gs
  value_eq (obj fs) _ = false

  pub values_eq : Values → Values → Bool
  values_eq nil nil = true
  values_eq nil _ = false
  values_eq (cons x xs) nil = false
  values_eq (cons x xs) (cons y ys) = value_eq x y && values_eq xs ys

  pub fields_within : Fields → Fields → Bool
  fields_within end gs = true
  fields_within (field k v fs) gs =
      elim (get_item k gs) [ none ↦ false | some w ↦ value_eq v w ] && fields_within fs gs

-- `bool(v)`.
unfoldable pub truthy : Value → Bool
truthy null = false
truthy (bool b) = b
truthy (int n) = not (eqb_ℤ n (pos 0))
truthy (str s) = not (is_empty s)
truthy (arr nil) = false
truthy (arr (cons _ _)) = true
truthy (obj end) = false
truthy (obj (field _ _ _)) = true

-- An event whose four contract fields have their types, beside the other keys of its dictionary.
pub record Event : Type 0 where
  pub event_id : ℤ
  pub event_time_ms : Option ℤ
  pub partition_key : Option Text
  pub event_type : Option Text
  pub fields : Fields

-- `event[k]`, if `k in event`.
unfoldable pub get_key : Text → Event → Option Value
get_key k e =
    if text_eq k (codes "event_id")
    then some (int e.event_id)
    else if text_eq k (codes "event_time_ms")
    then optional int e.event_time_ms
    else if text_eq k (codes "partition_key")
    then optional str e.partition_key
    else if text_eq k (codes "event_type")
    then optional str e.event_type
    else get_item k e.fields
  where
    optional : {A : Type 0} → (A → Value) → Option A → Option Value
    optional f none = none
    optional f (some a) = some (f a)

-- `d.get(k) or rest`.
abbrev or_else : Option Value → Value → Value
or_else none rest = rest
or_else (some v) rest = if truthy v then v else rest

-- `event.get("attributes") or event.get("payload") or {}`.
unfoldable pub attributes_of : Event → Value
unfolding get_key truthy
attributes_of e =
    or_else (get_key (codes "attributes") e) (or_else (get_key (codes "payload") e) (obj end))

-- The loop over the parts of a dotted name. Absent and `None` are both `null`.
unfoldable pub walk : List Text → Value → Value
unfolding get_item
walk [] v = v
walk (part ∷ parts) (obj fs) = elim (get_item part fs) [ none ↦ null | some v ↦ walk parts v ]
walk (part ∷ parts) _ = null

-- `_get_field` of dsl.py.
unfoldable pub get_field : Event → Text → Value
unfolding attributes_of walk split
get_field e name = elim (get_key name e) [
  | some v ↦ v
  | none ↦ walk (split b'.' name) (attributes_of e)
]

abbrev item_of : Text → Value → Option Value
item_of name (obj fs) = get_item name fs
item_of name _ = none

-- `_field` of standing/runtime.py: an attribute may also have a dot in its own name.
unfoldable pub event_field : Event → Text → Value
unfolding attributes_of walk split
event_field e name = elim (get_key name e) [
  | some v ↦ v
  | none ↦ elim (item_of name (attributes_of e)) [
    | some v ↦ v
    | none ↦ walk (split b'.' name) (attributes_of e)
  ]
]

-- `str(event.get("event_type"))`, `_partition` and `_event_time`.
unfoldable pub type_text : Event → Text
type_text e = elim e.event_type [ none ↦ codes "None" | some t ↦ t ]

unfoldable pub partition_of : Event → Text
partition_of e = elim e.partition_key [ none ↦ codes "default" | some p ↦ p ]

unfoldable pub time_of : Event → ℤ
time_of e = elim e.event_time_ms [ none ↦ pos 0 | some t ↦ t ]
