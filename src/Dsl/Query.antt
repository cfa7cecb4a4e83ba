-- ===== src/Dsl/Query.antt =====
-- The query records of bindings/python/dsl.py: `FieldPredicate`, `AbsenceSpec`,
-- `RelationConstraint`, `QuerySpec`, and what a query says about its native execution.
use x_dsi_cet.Base.{Bool, true, false, not, Option, List, [], ◌∷◌, ◌++◌, map, keep}
use x_dsi_cet.Base.Int.{ℤ}
use x_dsi_cet.Base.Text.{Text, codes, join}
use x_dsi_cet.Base.Result.{Result, ok, ◌>>=◌}
use x_dsi_cet.Value.{Value, Fields}
use x_dsi_cet.Dsl.Syntax.{EventStep, parse_pattern, optional, bounded, has_or, native_token}

-- `op` is in lower case, as `from_dict` leaves it.
pub record FieldPredicate : Type 0 where
  pub field : Text
  pub op : Text
  pub value : Value
  pub event_type : Option Text
  pub scope : Text

pub record AbsenceSpec : Type 0 where
  pub event_type : Text
  pub within_ms : Option ℤ
  pub field_predicates : List FieldPredicate

pub record RelationConstraint : Type 0 where
  pub name : Text
  pub field : Text
  pub steps : List ℤ
  pub op : Text

pub record QuerySpec : Type 0 where
  pub query_id : Text
  pub version : Text
  pub pattern : Text
  pub within_ms : ℤ
  pub slide_ms : ℤ
  pub name : Option Text
  pub severity : Text
  pub enabled : Bool
  pub where_ : List FieldPredicate
  pub absence : List AbsenceSpec
  pub relations : List RelationConstraint
  pub score : Fields
  pub tags : List Text

unfoldable pub steps_of : QuerySpec → Result (List EventStep)
steps_of q = parse_pattern q.pattern

unfoldable pub step_types : List EventStep → List Text
step_types [] = []
step_types (s ∷ ss) = s.aliases ++ step_types ss

-- The set of types as a list, whose order and repetitions mean nothing.
unfoldable pub referenced_event_types : QuerySpec → Result (List Text)
unfolding steps_of step_types
referenced_event_types q = do
  steps ← steps_of q
  ok (step_types steps ++ map (λ a. a.event_type) q.absence)

pub data Feature : Type 0 where
  optional_feature bounded_feature or_feature : Feature
  absence_feature relations_feature where_feature : Feature

abbrev when : Bool → Feature → List Feature
when true f = f ∷ []
when false f = []

abbrev nonempty {ℓ} : {A : Type ℓ} → List A → Bool
nonempty [] = false
nonempty (_ ∷ _) = true

unfoldable pub step_features : List EventStep → List Feature
step_features [] = []
step_features (s ∷ ss) =
    when (optional s) optional_feature
    ++ (when (bounded s) bounded_feature ++ (when (has_or s) or_feature ++ step_features ss))

-- Also a set.
unfoldable pub unsupported_native_features : QuerySpec → Result (List Feature)
unfolding steps_of step_features
unsupported_native_features q = do
  steps ← steps_of q
  ok (
      step_features steps
      ++ (when (nonempty q.absence) absence_feature
          ++ (when (nonempty q.relations) relations_feature
              ++ when (nonempty q.where_) where_feature)))

unfoldable pub supports_native_fast_path : QuerySpec → Result Bool
unfolding unsupported_native_features
supports_native_fast_path q = do
  features ← unsupported_native_features q
  ok (not (nonempty features))

unfoldable pub native_pattern : QuerySpec → Result Text
unfolding steps_of join keep
native_pattern q = do
  steps ← steps_of q
  ok (join (codes ",") (map native_token (keep (λ s. not (optional s)) steps)))

unfoldable pub native_name : QuerySpec → Text
native_name q = q.query_id ++ b':' ∷ q.version
