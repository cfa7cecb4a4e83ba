-- ===== src/Registry/Documents.antt =====
-- bindings/python/query_registry.py: how a registry is built, from a document, a file or a list.
-- Reading the file and parsing JSON or YAML are parameters.
use x_dsi_cet.Base.{true, false, Option, none, some, List, [], ◌∷◌, any}
use x_dsi_cet.Base.Text.{Text, codes, text_eq, lower}
use x_dsi_cet.Base.Result.{
  Result, ok, raise, value_error, runtime_error, ◌>>=◌, ◌>>◌, require, map_ok,
}
use x_dsi_cet.Value.{Value, Fields, arr, obj, nil, end, field, get_item}
use x_dsi_cet.Platform.{Platform}
use x_dsi_cet.Contracts.{has_field}
use x_dsi_cet.Document.{get_value, iterate}
use x_dsi_cet.Dsl.Query.{QuerySpec}
use x_dsi_cet.Dsl.Documents.{parse_query_spec}

-- What the reader takes from outside: the suffix and the text of the file, `json.loads`, and
-- `yaml.safe_load` where PyYAML is installed.
pub record RegistryFile : Type 0 where
  pub suffix : Text
  pub text : Result Text
  pub json_loads : Text → Result Value
  pub yaml_load : Option (Text → Result Value)

unfoldable pub load_yaml_if_available : RegistryFile → Result Value
load_yaml_if_available f = elim f.yaml_load [
  | some load ↦ f.text >>= load
  | none ↦ raise runtime_error
]

-- A list is the list of queries; a dictionary must have one.
unfoldable pub registry_document : Value → Result Fields
unfolding get_item
registry_document (arr vs) = ok (field (codes "queries") (arr vs) end)
registry_document (obj d) = require (has_field d (codes "queries")) value_error >> ok d
registry_document _ = raise value_error

unfoldable pub load_registry_document : RegistryFile → Result Fields
unfolding any text_eq lower load_yaml_if_available registry_document
load_registry_document f = do
  text ← f.text
  data_ ← elim (any (text_eq (lower f.suffix)) (codes ".yaml" ∷ codes ".yml" ∷ [])) [
    | true ↦ load_yaml_if_available f
    | false ↦ f.json_loads text
  ]
  registry_document data_

-- A query of `from_iterable`: a record, or the document of one.
pub data QueryOrDocument : Type 0 where
  query : QuerySpec → QueryOrDocument
  document : Value → QueryOrDocument

module _ (p : Platform) where
  unfoldable pub registry_from_dict : Fields → Result (List QuerySpec)
  unfolding get_value iterate map_ok parse_query_spec
  registry_from_dict d =
      iterate (get_value (codes "queries") (arr nil) d) >>= map_ok (parse_query_spec p)

  unfoldable pub registry_from_file : RegistryFile → Result (List QuerySpec)
  unfolding load_registry_document registry_from_dict
  registry_from_file f = load_registry_document f >>= registry_from_dict

  unfoldable pub query_from : QueryOrDocument → Result QuerySpec
  unfolding parse_query_spec
  query_from (query q) = ok q
  query_from (document d) = parse_query_spec p d

  unfoldable pub registry_from_iterable : List QueryOrDocument → Result (List QuerySpec)
  unfolding map_ok query_from
  registry_from_iterable queries = map_ok query_from queries
