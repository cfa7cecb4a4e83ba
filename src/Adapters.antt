-- ===== src/Adapters.antt =====
-- bindings/python/adapters/sigma.py: the query document that a Sigma-like rule stands for.
pub mod Read
use x_dsi_cet.Base.{Bool, true, false, Option, none, some, List, [], ◌∷◌, ◌++◌, if◌then◌else◌}
use x_dsi_cet.Base.Int.{ℤ, pos}
use x_dsi_cet.Base.Text.{Text, codes, join}
use x_dsi_cet.Base.Result.{
  Result, ok, raise, value_error, type_error, attribute_error, ◌>>=◌, ◌>>◌, require,
}
use x_dsi_cet.Value.{
  Value, Values, Fields, null, bool, int, str, arr, obj, nil, cons, end, field, truthy,
}
use x_dsi_cet.Platform.{Platform, str_of}
use x_dsi_cet.Contracts.{int_of}
use x_dsi_cet.Document.{get_value, first_true, iterate, with_get, of_list, texts_of, text_or}

-- `(rule.get("condition_fields") or {}).items()`.
abbrev pub items_of : Value → Result Fields
items_of (obj d) = ok d
items_of _ = raise attribute_error

unfoldable pub conditions : Fields → Values
conditions end = nil
conditions (field name v d) =
    cons
      (obj (
        field (codes "field") (str name)
          (field (codes "op") (str (codes "eq")) (field (codes "value") v end))))
      (conditions d)

-- `rule.get("sequence") or rule.get("detection", {}).get("sequence")`.
unfoldable pub sequence_of : Fields → Result Value
unfolding get_value truthy with_get
sequence_of rule =
    let given = get_value (codes "sequence") null rule in
    if truthy given
    then ok given
    else (with_get (get_value (codes "detection") (obj end) rule) >>= λ d.
        ok (get_value (codes "sequence") null d))

module _ (p : Platform) where
  -- `str(rule.get(a) or rule.get(b) or default)`, and the same with `int`.
  abbrev text_of : List Text → Text → Fields → Text
  text_of names default rule = str_of p (first_true names (str default) rule)

  abbrev number_of : List Text → ℤ → Fields → Result ℤ
  number_of names default rule = int_of p (first_true names (int default) rule)

  unfoldable pub sigma_like_to_query : Fields → Result Fields
  unfolding sequence_of truthy first_true conditions texts_of join int_of iterate text_or of_list
      str_of get_value
  sigma_like_to_query rule = do
    sequence ← sequence_of rule
    require (truthy sequence) value_error
    fields ← items_of (first_true (codes "condition_fields" ∷ []) (obj end) rule)
    tokens ← texts_of p sequence
    within ← number_of (codes "timeframe_ms" ∷ codes "within_ms" ∷ []) (pos 1800000) rule
    slide ← number_of (codes "slide_ms" ∷ []) (pos 300000) rule
    tags ← iterate (get_value (codes "tags") (arr nil) rule)
    ok (
        field (codes "query_id")
          (str (text_of (codes "id" ∷ codes "title" ∷ []) (codes "sigma_like_rule") rule))
          (field (codes "version") (str (text_or p (codes "version") (str (codes "v1")) rule)) (
            field (codes "name")
              (str (text_of (codes "title" ∷ codes "id" ∷ []) (codes "Sigma-like CET rule") rule))
              (field (codes "pattern") (str (join (codes ",") tokens)) (
                field (codes "within_ms") (int within) (
                  field (codes "slide_ms") (int slide) (
                    field (codes "severity")
                      (str (text_of (codes "level" ∷ codes "severity" ∷ []) (codes "medium") rule))
                      (field (codes "where") (arr (conditions fields)) (
                        field (codes "tags") (arr (of_list (tags ++ str (codes "sigma_like") ∷ [])))
                          (field (codes "enabled") (bool true) end))))))))))
