-- ===== src/Connectors/Accepted.antt =====
-- The events of bindings/python/connectors/base.py against the contract of
-- bindings/python/event_contracts.py.
use x_dsi_cet.Base.{
  ◌≡◌, refl, ◌⊎◌, inl, inr, true, false, Option, none, some, List, [], ◌∷◌, Bool-cases, all, arith,
  if◌then◌else◌,
}
use x_dsi_cet.Base.Int.{ℤ, pos, negsuc}
use x_dsi_cet.Base.Text.{Text, codes, is_empty, text_eq, int_text, decimal}
use x_dsi_cet.Base.Decimal.{decimal_ne_nil}
use x_dsi_cet.Base.Result.{ok, >>=-eq-ok, ok-injective}
use x_dsi_cet.Value.{Value, Fields, null, bool, int, str, arr, obj, end, get_item}
use x_dsi_cet.Platform.{Platform, str_of}
use x_dsi_cet.Contracts.{int_of, int_field, validate_event, required_event_fields}
use x_dsi_cet.Document.{first_true, dict_of}
use x_dsi_cet.AttackChain.Tokens.{not-is_empty}
use x_dsi_cet.Connectors.Normalize.{
  ConnectorEvent, is_present, first_present, first_of, normalize_event, event_dict, within_dict,
}

-- What the default of `_first` satisfies, and each present value, the result satisfies.
module _ (P : Value → Type 0) (present : (v : Value) → is_present v ≡ true → P v) where
  abbrev HoldsOf : Option Value → Type 0
  HoldsOf none = Unit
  HoldsOf (some v) = P v

  first_present-HoldsOf : (names : List Text) (d : Fields) → HoldsOf (first_present names d)
  unfolding first_present
  first_present-HoldsOf [] d = tt
  first_present-HoldsOf (name ∷ names) d =
      one (get_item name d) (first_present names d) (first_present-HoldsOf names d)
    where
      pick :
          (v : Value) (later : Option Value)
          → HoldsOf later
          → (is_present v ≡ true) ⊎ (is_present v ≡ false)
          → HoldsOf (if is_present v then some v else later)
      pick v later h (inl t) = rw t (present v t)
      pick v later h (inr f) = rw f h

      one :
          (found later : Option Value)
          → HoldsOf later
          → HoldsOf (elim found [ none ↦ later | some v ↦ if is_present v then some v else later ])
      one none later h = h
      one (some v) later h = pick v later h (Bool-cases (is_present v))

  within_dict-HoldsOf : (names : List Text) (v : Value) → HoldsOf (within_dict names v)
  within_dict-HoldsOf names (obj d) = first_present-HoldsOf names d
  within_dict-HoldsOf names null = tt
  within_dict-HoldsOf names (bool b) = tt
  within_dict-HoldsOf names (int n) = tt
  within_dict-HoldsOf names (str s) = tt
  within_dict-HoldsOf names (arr vs) = tt

  first_of-HoldsOf :
      (names : List Text) (default : Value) (d : Fields) → P default → P (first_of names default d)
  unfolding first_of
  first_of-HoldsOf names default d h =
      two (first_present names d) (within_dict names _) (first_present-HoldsOf names d) (
        within_dict-HoldsOf names
          (first_true (codes "attributes" ∷ codes "payload" ∷ []) (obj end) d))
    where
      two :
          (a b : Option Value)
          → HoldsOf a
          → HoldsOf b
          → P (elim a [ some v ↦ v | none ↦ elim b [ some v ↦ v | none ↦ default ] ])
      two (some v) b h k = h
      two none (some v) h k = k
      two none none _ k = h

int_text-is_empty : (n : ℤ) → is_empty (int_text n) ≡ false
unfolding int_text is_empty
int_text-is_empty (pos n) = not-is_empty (decimal n) (decimal_ne_nil n)
int_text-is_empty (negsuc n) = refl

module _ (p : Platform) (now_ms : ℤ) (hash_id : Fields → ℤ) (dumps : Fields → Text) where
  -- What is present has a text that is not empty, if the containers have one.
  present_text :
      ((v : Value) → is_empty (p.repr v) ≡ false)
      → (v : Value) → is_present v ≡ true
      → is_empty (str_of p v) ≡ false
  unfolding is_present str_of is_empty
  present_text r null h = cc
  present_text r (bool true) h = refl
  present_text r (bool false) h = refl
  present_text r (int n) h = int_text-is_empty n
  present_text r (str s) h = ground arith
  present_text r (arr vs) h = r (arr vs)
  present_text r (obj d) h = r (obj d)

  event_dict-valid :
      (e : ConnectorEvent) (id : ℤ)
      → int_of p e.event_id ≡ ok id
      → is_empty e.event_type ≡ false
      → validate_event p (event_dict p now_ms hash_id dumps e) ≡ ok tt
  unfolding validate_event event_dict required_event_fields all int_field get_item text_eq int_of
      str_of
  event_dict-valid e id h k = rw (validate_event, event_dict, all, int_field, get_item, h, k) refl

  -- Where lists and dictionaries have a text, a normalised event whose id is a number, or the text
  -- of one, satisfies the contract of events: all required fields are there, and the type is not
  -- empty.
  pub normalize_event-valid :
      (source_name : Text) (raw : Fields) (e : ConnectorEvent) (id : ℤ)
      → ((v : Value) → is_empty (p.repr v) ≡ false)
      → normalize_event p now_ms hash_id dumps source_name raw ≡ ok e
      → int_of p e.event_id ≡ ok id
      → validate_event p (event_dict p now_ms hash_id dumps e) ≡ ok tt
  unfolding normalize_event
  normalize_event-valid source_name raw e id texts made h =
      let (given, _, first) =
        >>=-eq-ok (dict_of (first_true (codes "attributes" ∷ codes "payload" ∷ []) (obj end) raw)) _
          made in
      let (time, _, last) =
        >>=-eq-ok
          (int_of p (first_of (codes "event_time_ms" ∷ codes "timestamp_ms" ∷ []) (int now_ms) raw))
          _ first in
      event_dict-valid e id h (
        moved _ last (
          first_of-HoldsOf (λ v. is_empty (str_of p v) ≡ false) (present_text texts)
            (codes "event_type" ∷ codes "type" ∷ codes "eventName" ∷ codes "activity_name" ∷ [])
            (str (codes "Unknown")) raw refl))
    where
      moved :
          (c : ConnectorEvent)
          → ok c ≡ ok e
          → is_empty c.event_type ≡ false
          → is_empty e.event_type ≡ false
      moved c same k = rw (← ok-injective c e same) k
