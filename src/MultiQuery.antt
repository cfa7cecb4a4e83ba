-- ===== src/MultiQuery.antt =====
-- bindings/python/multi_query_runtime.py: every query of a registry over one list of events, by the
-- native library and the checks behind it. An event is given with its fields typed; `raw_of` is its
-- dictionary. What the graph makes of an event is read back by `typed`, which refuses a contract
-- field of another type, where Python would go on with it.
pub mod Found
pub mod Order
pub mod Sound
use x_dsi_cet.Base.{
  ℕ, Bool, true, false, not, ◌&&◌, ◌||◌, Option, none, some, List, [], ◌∷◌, ◌++◌, map,
  if◌then◌else◌, length, ◌==◌,
}
use x_dsi_cet.Base.Int.{ℤ, pos}
use x_dsi_cet.Base.Text.{Text, codes, text_eq, text_le, int_text, join}
use x_dsi_cet.Base.Dict.{Dict, int_key, text_key, lookup, has, add}
use x_dsi_cet.Base.Sort.{sort}
use x_dsi_cet.Base.Result.{Result, ok, raise, type_error, key_error, ◌>>=◌, ◌>>◌, map_ok}
use x_dsi_cet.Value.{Value, Fields, Event, null, int, str, obj, end, field, get_item, truthy}
use x_dsi_cet.Platform.{Platform, Float}
use x_dsi_cet.Contracts.{validate_events}
use x_dsi_cet.Document.{get_value, optional_text, optional_int, put}
use x_dsi_cet.Dsl.Query.{
  QuerySpec, Feature, optional_feature, bounded_feature, or_feature, absence_feature,
  relations_feature, where_feature, unsupported_native_features, native_name, native_pattern,
}
use x_dsi_cet.Dsl.Validate.{filter_events_for_query, validate_path, first_time, last_time}
use x_dsi_cet.Features.{TrendFeatures, extract_trend_features, text_set}
use x_dsi_cet.Risk.{RiskScore, score_trend}
use x_dsi_cet.Registry.{enabled, validate_unique_versions}
use x_dsi_cet.SecurityGraph.{SecurityGraph, SecurityGraphBuilder, events_by_id}
use x_dsi_cet.SecurityGraph.Build.{RawEvent, document, build}
use x_dsi_cet.Bridge.{NativeLibrary}
use x_dsi_cet.Bridge.Calls.{Host, CetMatch, parse_query, run_hcet}

-- `RuntimeOptions` of this file.
pub record QueryRunOptions : Type 0 where
  pub switch_depth : ℤ
  pub native_threads : ℤ
  pub enable_mmap_arena : Bool
  pub mmap_workspace_bytes : ℤ
  pub raise_on_overflow : Bool

unfoldable pub make_trend_id : Platform → QuerySpec → Text → List ℤ → Text
unfolding join int_text
make_trend_id p q partition_key path = p.sha256_hex (
    q.query_id
    ++ b':' ∷ (q.version ++ b':' ∷ (partition_key ++ b':' ∷ join (codes ",") (map int_text path))))

abbrev put_optional : {A : Type 0} → Text → (A → Value) → Option A → Fields → Fields
put_optional k f none d = d
put_optional k f (some a) d = field k (f a) d

-- The dictionary of an event.
unfoldable pub raw_of : Event → Fields
raw_of e = field (codes "event_id") (int e.event_id) (
    put_optional (codes "partition_key") str e.partition_key (
      put_optional (codes "event_type") str e.event_type
        (put_optional (codes "event_time_ms") int e.event_time_ms e.fields)))

unfoldable pub contract_keys : List Text
contract_keys =
    codes "event_id" ∷ codes "partition_key" ∷ codes "event_type" ∷ codes "event_time_ms" ∷ []

unfoldable pub other_fields : Fields → Fields
unfolding has contract_keys
other_fields end = end
other_fields (field k v d) =
    let rest = other_fields d in if has k contract_keys then rest else field k v rest

abbrev int_value : Value → Result ℤ
int_value (int n) = ok n
int_value _ = raise type_error

unfoldable pub typed : Fields → Result Event
unfolding get_value optional_text optional_int other_fields
typed d = do
  event_id ← int_value (get_value (codes "event_id") null d)
  event_time ← optional_int (get_value (codes "event_time_ms") null d)
  partition ← optional_text (get_value (codes "partition_key") null d)
  event_type ← optional_text (get_value (codes "event_type") null d)
  ok (record {
    event_id = event_id;
    event_time_ms = event_time;
    partition_key = partition;
    event_type = event_type;
    fields = other_fields d;
  })

-- `[by_id[eid] for eid in path if eid in by_id]`.
unfoldable pub found_events : Dict ℤ Fields → List ℤ → List Fields
unfolding lookup
found_events by_id [] = []
found_events by_id (eid ∷ path) =
    let rest = found_events by_id path in
    elim (lookup eid by_id) [ none ↦ rest | some d ↦ d ∷ rest ]

unfoldable pub feature_text : Feature → Text
feature_text optional_feature = codes "optional"
feature_text bounded_feature = codes "bounded"
feature_text or_feature = codes "or"
feature_text absence_feature = codes "absence"
feature_text relations_feature = codes "relations"
feature_text where_feature = codes "where"

pub record QueryTrend : Type 0 where
  pub trend_id : Text
  pub query_id : Text
  pub query_version : Text
  pub partition_key : Text
  pub path : List ℤ
  pub trend_start_time_ms : ℤ
  pub trend_end_time_ms : ℤ
  pub event_count : ℕ
  pub risk_score : Float
  pub severity : Text
  pub features : TrendFeatures
  pub risk_explanation : RiskScore
  pub native_stats : Fields
  pub dsl_native_fallback_features : List Text

-- `features["trend_start_time_ms"]`, of a path without events.
abbrev pub features_found : Option TrendFeatures → Result TrendFeatures
features_found none = raise key_error
features_found (some f) = ok f

abbrev pub partition_text : List Event → Text
partition_text [] = codes "None"
partition_text (e ∷ es) = elim e.partition_key [ none ↦ codes "None" | some t ↦ t ]

-- The key `(query_id, partition_key, trend_id)`, compared from the first.
abbrev pub before_or : Text → Text → Bool → Bool
before_or a b rest = if text_eq a b then rest else text_le a b

unfoldable pub trend_le : QueryTrend → QueryTrend → Bool
unfolding text_eq text_le
trend_le a b =
    before_or a.query_id b.query_id
      (before_or a.partition_key b.partition_key (text_le a.trend_id b.trend_id))

module _ (host : Host) (lib : NativeLibrary) (builder : SecurityGraphBuilder)
    (options : QueryRunOptions) where
  -- One round of the loop over the paths, for a path whose events are all known.
  unfoldable pub query_trend : QuerySpec → CetMatch → List ℤ → List Event → Result QueryTrend
  unfolding extract_trend_features score_trend make_trend_id unsupported_native_features text_set
      sort text_le feature_text truthy get_value
  query_trend q m path path_events = do
    let p = host.platform
    let partition = partition_text path_events
    found ← extract_trend_features p path_events
    features ← features_found found
    risk ← score_trend p q path_events (truthy (get_value (codes "overflow") null m.stats))
    fallback ← unsupported_native_features q
    ok (record {
      trend_id = make_trend_id p q partition path;
      query_id = q.query_id;
      query_version = q.version;
      partition_key = partition;
      path = path;
      trend_start_time_ms = features.trend_start_time_ms;
      trend_end_time_ms = features.trend_end_time_ms;
      event_count = features.event_count;
      risk_score = risk.risk_score;
      severity = risk.severity;
      features = features;
      risk_explanation = risk;
      native_stats = m.stats;
      dsl_native_fallback_features = sort text_le (text_set (map feature_text fallback));
    })

  -- The loop over the paths of a match.
  unfoldable pub path_trends :
      QuerySpec → CetMatch → Dict ℤ Fields → List Event → List (List ℤ) → Result (List QueryTrend)
  unfolding found_events map_ok typed validate_path query_trend
  path_trends q m by_id candidates [] = ok []
  path_trends q m by_id candidates (path ∷ paths) =
      let found = found_events by_id path in
      let rest = path_trends q m by_id candidates paths in
      if not (length found == length path)
      then rest
      else (map_ok typed found >>= λ path_events.
          validate_path host.platform q path_events candidates >>= λ valid.
          if not valid
          then rest
          else (query_trend q m path path_events >>= λ t. rest >>= λ trends. ok (t ∷ trends)))

  unfoldable pub native_match : QuerySpec → SecurityGraph → Result CetMatch
  unfolding native_name native_pattern parse_query run_hcet
  native_match q graph = do
    pattern ← native_pattern q
    native_query ← parse_query host lib (native_name q) pattern q.within_ms q.slide_ms
    run_hcet host lib native_query graph.native_events graph.native_edges options.switch_depth
        options.raise_on_overflow
        (record {
          native_threads = some options.native_threads;
          enable_mmap_arena = some options.enable_mmap_arena;
          mmap_workspace_bytes = some options.mmap_workspace_bytes;
          madvise_hugepage = none;
        })
        none none

  unfoldable pub candidate_graph : List Event → Result SecurityGraph
  unfolding build raw_of
  candidate_graph candidates =
      build builder host.platform (map (λ e. document (obj (raw_of e))) candidates)

  -- `_run_query` behind the test for candidates.
  unfoldable pub run_candidates : QuerySpec → List Event → Result (List QueryTrend)
  unfolding candidate_graph native_match events_by_id path_trends
  run_candidates q candidates = do
    graph ← candidate_graph candidates
    m ← native_match q graph
    path_trends q m (events_by_id graph) candidates m.paths

  -- `_run_query`.
  unfoldable pub run_query : QuerySpec → List Event → Result (List QueryTrend)
  unfolding filter_events_for_query run_candidates
  run_query q all_events = filter_events_for_query host.platform q all_events >>= λ candidates.
      elim candidates [ [] ↦ ok [] | e ∷ es ↦ run_candidates q (e ∷ es) ]

  unfoldable pub run_queries : List QuerySpec → List Event → Result (List QueryTrend)
  unfolding run_query
  run_queries [] events = ok []
  run_queries (q ∷ queries) events =
      run_query q events >>= λ first. run_queries queries events >>= λ rest. ok (first ++ rest)

  -- `CETRuntimeV4(registry, …).run(events)`.
  unfoldable pub run : List QuerySpec → List Event → Result (List QueryTrend)
  unfolding validate_unique_versions validate_events raw_of run_queries enabled sort trend_le
  run registry events =
      validate_unique_versions registry
      >> (validate_events host.platform (map raw_of events)
          >> (run_queries (enabled registry) events >>= λ trends. ok (sort trend_le trends)))
