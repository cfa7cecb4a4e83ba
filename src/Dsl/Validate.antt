-- ===== src/Dsl/Validate.antt =====
-- `filter_events_for_query`, `validate_absence`, `validate_relations` and `validate_path` of
-- bindings/python/dsl.py.
use x_dsi_cet.Base.{
  ℕ, zero, suc, Bool, true, false, not, ◌&&◌, ◌||◌, Option, none, some, List, [], ◌∷◌, ◌++◌, leb,
  ◌==◌, if◌then◌else◌, any, length,
}
use x_dsi_cet.Base.Int.{ℤ, pos, negsuc, ◌-ℤ◌, ltb_ℤ, eqb_ℤ, min_ℤ, max_ℤ}
use x_dsi_cet.Base.Text.{Text, codes, text_eq}
use x_dsi_cet.Base.Result.{
  Result, ok, raise, value_error, type_error, ◌>>=◌, all_ok, any_ok, keep_ok,
}
use x_dsi_cet.Value.{Value, Event, null, arr, obj, value_eq, get_field, type_text, time_of}
use x_dsi_cet.Platform.{Platform}
use x_dsi_cet.Dsl.Query.{QuerySpec, AbsenceSpec, RelationConstraint, referenced_event_types}
use x_dsi_cet.Dsl.Predicate.{evaluate, absence_matches, one_of}

abbrev nonempty : {A : Type 0} → List A → Bool
nonempty [] = false
nonempty (_ ∷ _) = true

-- `path_events[i] for i in self.steps if 0 <= i < len(path_events)`.
unfoldable pub at : List Event → ℕ → List Event
at [] i = []
at (e ∷ es) zero = e ∷ []
at (e ∷ es) (suc i) = at es i

unfoldable pub selected_at : List Event → List ℤ → List Event
unfolding at
selected_at path [] = []
selected_at path (pos i ∷ is) = at path i ++ selected_at path is
selected_at path (negsuc _ ∷ is) = selected_at path is

unfoldable pub selected : List Event → List ℤ → List Event
unfolding selected_at
selected path [] = path
selected path (i ∷ is) = selected_at path (i ∷ is)

unfoldable pub field_values : Text → List Event → List Value
unfolding get_field
field_values name [] = []
field_values name (e ∷ es) = elim (get_field e name) [
  | null ↦ field_values name es
  | v ↦ v ∷ field_values name es
]

-- `set(values)`: lists and dictionaries are not hashable; the first of equal values stays.
abbrev hashable : Value → Bool
hashable (arr _) = false
hashable (obj _) = false
hashable _ = true

unfoldable pub all_hashable : List Value → Bool
all_hashable [] = true
all_hashable (v ∷ vs) = hashable v && all_hashable vs

unfoldable pub in_set : Value → List Value → Bool
unfolding any
in_set v vs = any (value_eq v) vs

unfoldable pub value_set : List Value → List Value
unfolding in_set
value_set [] = []
value_set (v ∷ vs) = let s = value_set vs in if in_set v s then s else v ∷ s

abbrev count_set : List Value → Result ℕ
count_set vs = if all_hashable vs then ok (length (value_set vs)) else raise type_error

unfoldable pub relation_validate : RelationConstraint → List Event → Result Bool
unfolding selected field_values all_hashable value_set
relation_validate r path =
    let values = field_values r.field (selected path r.steps) in
    if not (nonempty path) || leb (length values) 1
    then ok true
    else if text_eq r.op (codes "same")
    then count_set values >>= (λ n. ok (n == 1))
    else if text_eq r.op (codes "different")
    then count_set values >>= (λ n. ok (n == length values))
    else raise value_error

-- `min` and `max` of the times of a path whose first event is given.
unfoldable pub first_time : Event → List Event → ℤ
unfolding time_of
first_time e [] = time_of e
first_time e (f ∷ es) = min_ℤ (time_of e) (first_time f es)

unfoldable pub last_time : Event → List Event → ℤ
unfolding time_of
last_time e [] = time_of e
last_time e (f ∷ es) = max_ℤ (time_of e) (last_time f es)

abbrev same_partition : Option Text → Option Text → Bool
same_partition none q = true
same_partition (some p) none = false
same_partition (some p) (some q) = text_eq p q

abbrev past : ℤ → Option ℤ → Bool
past gap none = false
past gap (some w) = ltb_ℤ w gap

unfoldable pub has_id : ℤ → List Event → Bool
unfolding any
has_id i es = any (λ e. eqb_ℤ e.event_id i) es

module _ (p : Platform) where
  unfoldable pub filter_events_for_query : QuerySpec → List Event → Result (List Event)
  unfolding referenced_event_types evaluate all_ok keep_ok
  filter_events_for_query q events = referenced_event_types q >>= λ refs.
      keep_ok
        (λ e.
          if nonempty refs && not (one_of (type_text e) refs)
          then ok false
          else all_ok (λ f. evaluate p f e) q.where_)
        events

  -- The events that an absence condition looks at: not of the path, of its partition, within its
  -- first and last time.
  unfoldable pub is_witness : Event → List Event → Event → Bool
  unfolding first_time last_time has_id
  is_witness first rest e =
      not (has_id e.event_id (first ∷ rest))
      && same_partition first.partition_key e.partition_key
      && not (ltb_ℤ (time_of e) (first_time first rest) || ltb_ℤ (last_time first rest) (time_of e))

  unfoldable pub violates : ℤ → Event → AbsenceSpec → Result Bool
  unfolding absence_matches
  violates start e a =
      if past (time_of e -ℤ start) a.within_ms then ok false else absence_matches p a e

  unfoldable pub violated : List AbsenceSpec → Event → List Event → Event → Result Bool
  unfolding violates any_ok is_witness
  violated absence first rest e =
      if is_witness first rest e
      then any_ok (violates (first_time first rest) e) absence
      else ok false

  unfoldable pub validate_absence : QuerySpec → List Event → List Event → Result Bool
  unfolding violated any_ok
  validate_absence q [] events = ok true
  validate_absence q (first ∷ rest) events =
      if not (nonempty q.absence)
      then ok true
      else any_ok (violated q.absence first rest) events >>= λ b. ok (not b)

  unfoldable pub validate_relations : QuerySpec → List Event → Result Bool
  unfolding relation_validate all_ok
  validate_relations q path = all_ok (λ r. relation_validate r path) q.relations

  unfoldable pub validate_path : QuerySpec → List Event → List Event → Result Bool
  unfolding validate_absence validate_relations
  validate_path q path events =
      if not (nonempty path)
      then ok false
      else validate_absence q path events >>= λ absent.
          if absent then validate_relations q path else ok false
