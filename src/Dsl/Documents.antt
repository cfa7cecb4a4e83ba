-- ===== src/Dsl/Documents.antt =====
-- The readers of query documents in bindings/python/dsl.py: the `from_dict` of each record and
-- `parse_query_spec`.
use x_dsi_cet.Base.{true, List, [], ◌∷◌}
use x_dsi_cet.Base.Text.{codes, lower}
use x_dsi_cet.Base.Result.{Result, ok, ◌>>=◌, map_ok}
use x_dsi_cet.Value.{Value, Fields, null, bool, str, arr, obj, nil, end, truthy}
use x_dsi_cet.Platform.{Platform, str_of}
use x_dsi_cet.Contracts.{int_of}
use x_dsi_cet.Document.{
  get_value, item, first_or_last, iterate, indexed, with_get, dict_of, optional_text, optional_int,
  text_item, text_or, int_item, texts_of, ints_of,
}
use x_dsi_cet.Dsl.Query.{FieldPredicate, AbsenceSpec, RelationConstraint, QuerySpec}

module _ (p : Platform) where
  -- `FieldPredicate.from_dict`.
  unfoldable pub predicate_from : Value → Result FieldPredicate
  unfolding indexed text_item text_or lower get_value optional_text
  predicate_from v = do
    d ← indexed v
    name ← text_item p (codes "field") d
    event_type ← optional_text (get_value (codes "event_type") null d)
    ok (record {
      field = name;
      op = lower (text_or p (codes "op") (str (codes "eq")) d);
      value = get_value (codes "value") null d;
      event_type = event_type;
      scope = text_or p (codes "scope") (str (codes "event")) d;
    })

  -- `tuple(FieldPredicate.from_dict(x) for x in d.get("where", []))`.
  unfoldable pub where_from : Fields → Result (List FieldPredicate)
  unfolding get_value iterate map_ok predicate_from
  where_from d = iterate (get_value (codes "where") (arr nil) d) >>= map_ok predicate_from

  -- `AbsenceSpec.from_dict`.
  unfoldable pub absence_from : Value → Result AbsenceSpec
  unfolding indexed text_item get_value optional_int where_from
  absence_from v = do
    d ← indexed v
    event_type ← text_item p (codes "event_type") d
    within ← optional_int (get_value (codes "within_ms") null d)
    predicates ← where_from d
    ok (record { event_type = event_type; within_ms = within; field_predicates = predicates })

  -- `RelationConstraint.from_dict`.
  unfoldable pub relation_from : Value → Result RelationConstraint
  unfolding with_get first_or_last text_item get_value ints_of text_or str_of
  relation_from v = do
    d ← with_get v
    let name = str_of p (first_or_last (codes "name") (codes "relation" ∷ codes "field" ∷ []) d)
    field ← text_item p (codes "field") d
    steps ← ints_of p (get_value (codes "steps") (arr nil) d)
    ok (record {
      name = name;
      field = field;
      steps = steps;
      op = text_or p (codes "op") (str (codes "same")) d;
    })

  unfoldable pub absences_from : Fields → Result (List AbsenceSpec)
  unfolding get_value iterate map_ok absence_from
  absences_from d = iterate (get_value (codes "absence") (arr nil) d) >>= map_ok absence_from

  unfoldable pub relations_from : Fields → Result (List RelationConstraint)
  unfolding get_value iterate map_ok relation_from
  relations_from d = iterate (get_value (codes "relations") (arr nil) d) >>= map_ok relation_from

  unfoldable pub parse_query_spec : Value → Result QuerySpec
  unfolding with_get first_or_last text_or optional_text text_item int_item item int_of where_from
      absences_from relations_from dict_of texts_of get_value truthy str_of
  parse_query_spec v = do
    d ← with_get v
    let query_id = str_of p (first_or_last (codes "query_id") (codes "id" ∷ codes "name" ∷ []) d)
    name ← optional_text (get_value (codes "name") null d)
    pattern ← text_item p (codes "pattern") d
    within ← int_item p (codes "within_ms") d
    default_slide ← item (codes "within_ms") d
    slide ← int_of p (get_value (codes "slide_ms") default_slide d)
    predicates ← where_from d
    absence ← absences_from d
    relations ← relations_from d
    score ← dict_of (get_value (codes "score") (obj end) d)
    tags ← texts_of p (get_value (codes "tags") (arr nil) d)
    ok (record {
      query_id = query_id;
      version = text_or p (codes "version") (str (codes "v1")) d;
      pattern = pattern;
      within_ms = within;
      slide_ms = slide;
      name = name;
      severity = text_or p (codes "severity") (str (codes "medium")) d;
      enabled = truthy (get_value (codes "enabled") (bool true) d);
      where_ = predicates;
      absence = absence;
      relations = relations;
      score = score;
      tags = tags;
    })
