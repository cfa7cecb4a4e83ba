-- ===== src/Registry.antt =====
-- bindings/python/query_registry.py: `QueryRegistry`, as the list of its queries.
pub mod Versions
pub mod Documents
use x_dsi_cet.Base.{
  Bool, true, false, ◌&&◌, ◌||◌, Option, none, some, List, [], ◌∷◌, if◌then◌else◌, keep,
}
use x_dsi_cet.Base.Text.{Text, text_eq, text_le}
use x_dsi_cet.Base.Result.{Result, ok, raise, value_error, key_error}
use x_dsi_cet.Base.Sort.{sort}
use x_dsi_cet.Dsl.Query.{QuerySpec}

unfoldable pub enabled : List QuerySpec → List QuerySpec
unfolding keep
enabled queries = keep (λ q. q.enabled) queries

abbrev pub version_fits : Option Text → Text → Bool
version_fits none v = true
version_fits (some w) v = text_eq v w

unfoldable pub matching : Text → Option Text → List QuerySpec → List QuerySpec
unfolding keep
matching query_id version queries =
    keep (λ q. text_eq q.query_id query_id && version_fits version q.version) queries

abbrev pub version_le : QuerySpec → QuerySpec → Bool
version_le a b = text_le a.version b.version

-- `xs[-1]`.
unfoldable pub last_of : QuerySpec → List QuerySpec → QuerySpec
last_of q [] = q
last_of q (r ∷ rest) = last_of r rest

abbrev pub last_result : List QuerySpec → Result QuerySpec
last_result [] = raise key_error
last_result (q ∷ rest) = ok (last_of q rest)

-- `QueryRegistry.get`.
unfoldable pub get_query : Text → Option Text → List QuerySpec → Result QuerySpec
unfolding matching sort last_of text_le
get_query query_id version queries =
    last_result (sort version_le (matching query_id version queries))

unfoldable pub has_version : QuerySpec → List QuerySpec → Bool
has_version q [] = false
has_version q (r ∷ rest) =
    (text_eq r.query_id q.query_id && text_eq r.version q.version) || has_version q rest

-- The loop of `validate_unique_versions`, with the queries seen.
unfoldable pub validate_from : List QuerySpec → List QuerySpec → Result (Unit {0})
unfolding has_version
validate_from seen [] = ok tt
validate_from seen (q ∷ rest) =
    let more = validate_from (q ∷ seen) rest in
    if has_version q seen then raise value_error else more

unfoldable pub validate_unique_versions : List QuerySpec → Result (Unit {0})
unfolding validate_from
validate_unique_versions queries = validate_from [] queries
