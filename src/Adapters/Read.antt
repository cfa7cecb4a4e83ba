-- ===== src/Adapters/Read.antt =====
-- The document of bindings/python/adapters/sigma.py, read by `parse_query_spec` of
-- bindings/python/dsl.py.
use x_dsi_cet.Base.{◌≡◌, refl, ap, sym, ◌∙◌, true, some, none, List, [], ◌∷◌, map}
use x_dsi_cet.Base.Int.{ℤ, pos}
use x_dsi_cet.Base.Text.{Text, codes, text_eq, lower}
use x_dsi_cet.Base.Result.{ok, map_ok, >>=-eq-ok, >>-eq-ok, ok-injective, require, value_error}
use x_dsi_cet.Value.{
  Value, Values, Fields, bool, int, str, arr, obj, nil, end, field, get_item, truthy,
}
use x_dsi_cet.Platform.{Platform, str_of}
use x_dsi_cet.Contracts.{int_of}
use x_dsi_cet.Document.{
  get_value, item, first_true, first_or_last, iterate, with_get, indexed, dict_of, optional_text,
  list_of, of_list, text_item, text_or, int_item, int_or, texts_of,
}
use x_dsi_cet.Dsl.Query.{FieldPredicate, QuerySpec}
use x_dsi_cet.Dsl.Documents.{
  predicate_from, where_from, absences_from, relations_from, parse_query_spec,
}
use x_dsi_cet.Adapters.{conditions, sequence_of, items_of, sigma_like_to_query}
use x_dsi_cet.AttackChain.Compiled.{list_of-of_list}

-- One equality for each condition field, on whole events of any type.
unfoldable pub equalities : Fields → List FieldPredicate
equalities end = []
equalities (field name v d) =
    record { field = name; op = codes "eq"; value = v; event_type = none; scope = codes "event" }
    ∷ equalities d

module _ (p : Platform) where
  conditions-read :
      (d : Fields) → map_ok (predicate_from p) (list_of (conditions d)) ≡ ok (equalities d)
  unfolding map_ok list_of conditions equalities predicate_from indexed text_item item get_item
      text_eq text_or get_value optional_text str_of lower
  conditions-read end = refl
  conditions-read (field name v d) = rw (map_ok, conditions-read d) refl

  texts_of-total : (vs : List Value) → map_ok (λ x. ok (str_of p x)) vs ≡ ok (map (str_of p) vs)
  unfolding map_ok
  texts_of-total [] = refl
  texts_of-total (v ∷ vs) = rw (map_ok, texts_of-total vs) refl

  abbrev rule_document : Text → Text → Text → Text → ℤ → ℤ → Text → Values → List Value → Fields
  rule_document query_id version name pattern within slide severity where_ tags =
      field (codes "query_id") (str query_id) (
        field (codes "version") (str version) (
          field (codes "name") (str name) (
            field (codes "pattern") (str pattern) (
              field (codes "within_ms") (int within) (
                field (codes "slide_ms") (int slide) (
                  field (codes "severity") (str severity) (
                    field (codes "where") (arr where_) (
                      field (codes "tags") (arr (of_list tags))
                        (field (codes "enabled") (bool true) end)))))))))

  rule_document-read :
      (query_id version name pattern : Text) (within slide : ℤ) (severity : Text) (d : Fields)
      (tags : List Value)
      → (q : QuerySpec) × (parse_query_spec p (
            obj (
              rule_document query_id version name pattern within slide severity
                (conditions d)
                tags))
          ≡ ok q)
        × (q.pattern ≡ pattern)
        × (q.within_ms ≡ within)
        × (q.slide_ms ≡ slide)
        × (q.severity ≡ severity)
        × (q.where_ ≡ equalities d)
  unfolding parse_query_spec get_item with_get get_value item first_or_last iterate dict_of
      optional_text text_item text_or int_item int_or texts_of int_of str_of truthy where_from
      absences_from relations_from text_eq
  rule_document-read query_id version name pattern within slide severity d tags = (
    record {
      query_id = str_of p (
          first_or_last (codes "query_id") (codes "id" ∷ codes "name" ∷ []) (
            rule_document query_id version name pattern within slide severity (conditions d) tags));
      version = version;
      pattern = pattern;
      within_ms = within;
      slide_ms = slide;
      name = some name;
      severity = severity;
      enabled = true;
      where_ = equalities d;
      absence = [];
      relations = [];
      score = end;
      tags = map (str_of p) tags;
    },
    rw
        (
          parse_query_spec,
          get_item,
          with_get,
          get_value,
          item,
          iterate,
          text_item,
          text_or,
          int_item,
          int_or,
          where_from,
          absences_from,
          relations_from,
          texts_of,
          conditions-read d,
          list_of-of_list tags,
          texts_of-total tags,
        )
        refl,
    refl,
    refl,
    refl,
    refl,
    refl,
  )

  -- The document that a rule gives is always read as a query, which has one equality for each of the
  -- rule's condition fields, in their order.
  pub parse_query_spec-sigma_like_to_query :
      (rule document : Fields)
      → sigma_like_to_query p rule ≡ ok document
      → (q : QuerySpec) × (fields : Fields) × (parse_query_spec p (obj document) ≡ ok q)
        × (items_of (first_true (codes "condition_fields" ∷ []) (obj end) rule) ≡ ok fields)
        × (q.where_ ≡ equalities fields)
  unfolding sigma_like_to_query
  parse_query_spec-sigma_like_to_query rule document e =
      let (sequence, _, first) = >>=-eq-ok (sequence_of rule) _ e in
      let (_, second) = >>-eq-ok (require (truthy sequence) value_error) _ first in
      let (fields, given, third) =
        >>=-eq-ok (items_of (first_true (codes "condition_fields" ∷ []) (obj end) rule)) _ second in
      let (tokens, _, fourth) = >>=-eq-ok (texts_of p sequence) _ third in
      let (within, _, fifth) =
        >>=-eq-ok
          (int_of p
            (first_true (codes "timeframe_ms" ∷ codes "within_ms" ∷ []) (int (pos 1800000)) rule))
          _ fourth in
      let (slide, _, sixth) =
        >>=-eq-ok (int_of p (first_true (codes "slide_ms" ∷ []) (int (pos 300000)) rule)) _ fifth in
      let (tags, _, last) = >>=-eq-ok (iterate (get_value (codes "tags") (arr nil) rule)) _ sixth in
      let (q, read, _, _, _, _, where_read) = rule_document-read _ _ _ _ within slide _ fields _ in
      (
        q,
        fields,
        ap (λ d. parse_query_spec p (obj d)) (sym (ok-injective _ document last)) ∙ read,
        given,
        where_read,
      )
