-- ===== src/Tests/Inputs.antt =====
-- Tests of what enters the program: events of connectors and rules of adapters.
use x_dsi_cet.Base.{◌≡◌, refl, [], ◌∷◌}
use x_dsi_cet.Base.Int.{pos}
use x_dsi_cet.Base.Text.{codes, text_eq, is_empty}
use x_dsi_cet.Base.Result.{Result, ok, raise, value_error}
use x_dsi_cet.Value.{Fields, null, int, str, arr, obj, nil, cons, end, field}
use x_dsi_cet.Platform.{Platform}
use x_dsi_cet.Contracts.{int_of, validate_event}
use x_dsi_cet.Dsl.Query.{QuerySpec}
use x_dsi_cet.Dsl.Documents.{parse_query_spec}
use x_dsi_cet.Document.{first_true}
use x_dsi_cet.Connectors.Normalize.{ConnectorEvent, normalize_event, event_dict}
use x_dsi_cet.Connectors.Accepted.{normalize_event-valid}
use x_dsi_cet.Adapters.{sigma_like_to_query, items_of}
use x_dsi_cet.Adapters.Read.{equalities, parse_query_spec-sigma_like_to_query}
use x_dsi_cet.Tests.Samples.{platform}

-- The platform of the tests, with a text for lists and dictionaries.
abbrev texts_platform : Platform
texts_platform = record platform { repr = λ _. codes "[]" }

abbrev raw : Fields
raw =
    field (codes "id") (int (pos 5)) (
      field (codes "type") (str (codes "login"))
        (field (codes "user_id") (str (codes "alice")) end))

abbrev normalized : ConnectorEvent
normalized = record {
  event_id = int (pos 5);
  partition_key = codes "alice";
  event_type = codes "login";
  event_time_ms = pos 99;
  event_time = null;
  attributes = field (codes "user_id") (str (codes "alice")) end;
  source_name = codes "s";
  raw = raw;
}

normalize_event-raw :
    normalize_event texts_platform (pos 99) (λ _. pos 0) (λ _. []) (codes "s") raw ≡ ok normalized
unfolding normalize_event text_eq is_empty
normalize_event-raw = refl

normalize_event-valid_example :
    validate_event texts_platform
      (event_dict texts_platform (pos 99) (λ _. pos 0) (λ _. []) normalized)
    ≡ ok tt
unfolding is_empty int_of
normalize_event-valid_example =
    normalize_event-valid texts_platform (pos 99) (λ _. pos 0) (λ _. []) (codes "s") raw normalized
      (pos 5) (λ _. refl) normalize_event-raw refl

abbrev rule : Fields
rule = field (codes "title") (str (codes "r")) (
    field (codes "sequence") (arr (cons (str (codes "login")) (cons (str (codes "exec")) nil))) (
      field (codes "condition_fields") (obj (field (codes "user_id") (str (codes "bob")) end)) end))

no_sequence :
    sigma_like_to_query platform (field (codes "title") (str (codes "r")) end) ≡ raise value_error
unfolding sigma_like_to_query text_eq is_empty
no_sequence = refl

abbrev fields_of : Result Fields → Fields
fields_of (ok d) = d
fields_of (raise e) = end

abbrev rule_query : Fields
rule_query = fields_of (sigma_like_to_query platform rule)

parse_query_spec-sigma_like_to_query_example :
    (q : QuerySpec) × (fields : Fields) × (parse_query_spec platform (obj rule_query) ≡ ok q)
    × (items_of (first_true (codes "condition_fields" ∷ []) (obj end) rule) ≡ ok fields)
    × (q.where_ ≡ equalities fields)
unfolding sigma_like_to_query text_eq is_empty
parse_query_spec-sigma_like_to_query_example =
    parse_query_spec-sigma_like_to_query platform rule rule_query refl
