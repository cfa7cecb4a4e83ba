-- ===== src/MultiQuery/Sound.antt =====
-- The trends of bindings/python/multi_query_runtime.py: each comes from an enabled query whose checks
-- its path has passed, and they are sorted.
use mathlib.Core.Path.{subst}
use x_dsi_cet.Base.{
  ℕ, ◌≡◌, refl, ap, sym, ◌∙◌, inl, inr, true, not, List, [], ◌∷◌, map, Bool-cases, All, All-In,
  All-of_In, In, arith, length, ◌==◌, if◌then◌else◌,
}
use x_dsi_cet.Base.Int.{ℤ}
use x_dsi_cet.Base.Dict.{text_key}
use x_dsi_cet.Base.Sort.{sort, In-sort, IsSorted, sort-IsSorted}
use x_dsi_cet.Base.Result.{Result, ok, ◌>>=◌, >>=-eq-ok, >>-eq-ok, ok-injective, map_ok}
use x_dsi_cet.Value.{Fields, Event}
use x_dsi_cet.Dsl.Query.{QuerySpec, unsupported_native_features}
use x_dsi_cet.Features.{extract_trend_features}
use x_dsi_cet.Risk.{score_trend}
use x_dsi_cet.Contracts.{validate_events}
use x_dsi_cet.Dsl.Validate.{filter_events_for_query, validate_path}
use x_dsi_cet.Registry.{enabled, validate_unique_versions}
use x_dsi_cet.SecurityGraph.{SecurityGraph, SecurityGraphBuilder, events_by_id}
use x_dsi_cet.SecurityGraph.Edges.{All-append}
use x_dsi_cet.Bridge.{NativeLibrary}
use x_dsi_cet.Bridge.Calls.{Host, CetMatch}
use x_dsi_cet.MultiQuery.{
  QueryRunOptions, QueryTrend, found_events, typed, raw_of, features_found, trend_le, query_trend,
  path_trends, candidate_graph, native_match, run_candidates, run_query, run_queries, run,
}
use x_dsi_cet.MultiQuery.Found.{ArePathEvents, found_events-ArePathEvents}
use x_dsi_cet.MultiQuery.Order.{trend_le_total, trend_le_trans}

module _ (host : Host) (lib : NativeLibrary) (builder : SecurityGraphBuilder)
    (options : QueryRunOptions) where
  -- The events of the path of a trend, each what the graph made of the candidate with its id, have
  -- passed the checks of the query among the candidates.
  pub record IsValidTrend (q : QuerySpec) (candidates : List Event) (t : QueryTrend) : Type 0 where
    pub path_events : List Event
    pub of_query : t.query_id ≡ q.query_id
    pub of_version : t.query_version ≡ q.version
    pub of_path : ArePathEvents host.platform candidates t.path path_events
    pub passed : validate_path host.platform q path_events candidates ≡ ok true

  query_trend_fields :
      (q : QuerySpec) (m : CetMatch) (path : List ℤ) (path_events : List Event) (t : QueryTrend)
      → query_trend host lib builder options q m path path_events ≡ ok t
      → (t.query_id ≡ q.query_id) × (t.query_version ≡ q.version) × (t.path ≡ path)
  unfolding query_trend
  query_trend_fields q m path path_events t e =
      let (found, _, first) = >>=-eq-ok (extract_trend_features host.platform path_events) _ e in
      let (features, _, second) = >>=-eq-ok (features_found found) _ first in
      let (risk, _, third) = >>=-eq-ok (score_trend host.platform q path_events _) _ second in
      let (fallback, _, last) = >>=-eq-ok (unsupported_native_features q) _ third in
      rw (← ok-injective _ t last) (refl, refl, refl)

  -- What the loop does for a path whose events are all known.
  abbrev checked_path :
      QuerySpec
      → CetMatch
      → List Event
      → List ℤ
      → List Fields
      → Result (List QueryTrend)
      → Result (List QueryTrend)
  checked_path q m candidates path found rest = map_ok typed found >>= λ path_events.
      validate_path host.platform q path_events candidates >>= λ valid.
      if not valid
      then rest
      else (query_trend host lib builder options q m path path_events >>= λ t.
          rest >>= λ trends. ok (t ∷ trends))

  checked_path-IsValidTrend :
      (q : QuerySpec) (m : CetMatch) (candidates : List Event) (path : List ℤ) (found : List Fields)
      (rest : Result (List QueryTrend)) (trends : List QueryTrend)
      → ((es : List Event)
          → map_ok typed found ≡ ok es
          → ArePathEvents host.platform candidates path es)
      → ((others : List QueryTrend) → rest ≡ ok others → All (IsValidTrend q candidates) others)
      → checked_path q m candidates path found rest ≡ ok trends
      → All (IsValidTrend q candidates) trends
  checked_path-IsValidTrend q m candidates path found rest trends all_found ih e =
      let (path_events, converted, first) = >>=-eq-ok (map_ok typed found) _ e in
      let (valid, verdict, second) =
        >>=-eq-ok (validate_path host.platform q path_events candidates) _ first in
      elim (Bool-cases valid) [
        | inr bad ↦ ih trends (rw bad at second)
        | inl good ↦
            let (t, made, third) =
              >>=-eq-ok (query_trend host lib builder options q m path path_events) _
                (rw good at second) in
            let (others, later, last) = >>=-eq-ok rest _ third in
            let (of_query, of_version, of_path) = query_trend_fields q m path path_events t made in
            let events_of : ArePathEvents host.platform candidates t.path path_events =
              subst (λ (ids : List ℤ). ArePathEvents host.platform candidates ids path_events)
                (sym of_path) (all_found path_events converted) in
            rw (← ok-injective _ trends last) (
              record {
                path_events = path_events;
                of_query = of_query;
                of_version = of_version;
                of_path = events_of;
                passed = verdict ∙ ap ok good;
              },
              ih others later,
            )
      ]

  path_trends-IsValidTrend :
      (q : QuerySpec) (m : CetMatch) (graph : SecurityGraph) (candidates : List Event)
      (paths : List (List ℤ)) (trends : List QueryTrend)
      → candidate_graph host lib builder options candidates ≡ ok graph
      → path_trends host lib builder options q m (events_by_id graph) candidates paths ≡ ok trends
      → All (IsValidTrend q candidates) trends
  unfolding path_trends candidate_graph
  path_trends-IsValidTrend q m graph candidates [] trends g e = rw (← ok-injective [] trends e) tt
  path_trends-IsValidTrend q m graph candidates (path ∷ paths) trends g e =
      elim (Bool-cases (length (found_events (events_by_id graph) path) == length path)) [
        | inr missing ↦
            path_trends-IsValidTrend q m graph candidates paths trends g (rw missing at e)
        | inl all_found ↦
            checked_path-IsValidTrend q m candidates path (found_events (events_by_id graph) path)
              (path_trends host lib builder options q m (events_by_id graph) candidates paths)
              trends
              (λ es h.
                found_events-ArePathEvents host.platform builder candidates graph g path es
                  (same_length _ _ all_found) h)
              (λ others h. path_trends-IsValidTrend q m graph candidates paths others g h)
              (rw all_found at e)
      ]
    where
      same_length : (a b : ℕ) → (a == b) ≡ true → a ≡ b
      same_length a b h = ground arith

  run_candidates-IsValidTrend :
      (q : QuerySpec) (candidates : List Event) (trends : List QueryTrend)
      → run_candidates host lib builder options q candidates ≡ ok trends
      → All (IsValidTrend q candidates) trends
  unfolding run_candidates
  run_candidates-IsValidTrend q candidates trends e =
      let (graph, built, first) =
        >>=-eq-ok (candidate_graph host lib builder options candidates) _ e in
      let (m, _, last) = >>=-eq-ok (native_match host lib builder options q graph) _ first in
      path_trends-IsValidTrend q m graph candidates m.paths trends built last

  -- A trend of a query of a list, on its candidates among the events.
  pub record IsTrendOf (queries : List QuerySpec) (events : List Event) (t : QueryTrend)
      : Type 0 where
    pub query : QuerySpec
    pub query_In : In query queries
    pub candidates : List Event
    pub filtered : filter_events_for_query host.platform query events ≡ ok candidates
    pub valid : IsValidTrend query candidates t

  run_query-IsTrendOf :
      (q : QuerySpec) (queries : List QuerySpec) (events : List Event) (trends : List QueryTrend)
      → In q queries
      → run_query host lib builder options q events ≡ ok trends
      → All (IsTrendOf queries events) trends
  unfolding run_query
  run_query-IsTrendOf q queries events trends i e =
      let (candidates, filtered, next) =
        >>=-eq-ok (filter_events_for_query host.platform q events) _ e in
      All-of_In (IsTrendOf queries events) trends (λ t h. record {
        query = q;
        query_In = i;
        candidates = candidates;
        filtered = filtered;
        valid = All-In (IsValidTrend q candidates) trends (run candidates next) t h;
      })
    where
      run :
          (candidates : List Event)
          → (elim candidates [
            | [] ↦ ok []
            | d ∷ ds ↦ run_candidates host lib builder options q (d ∷ ds)
          ])
            ≡ ok trends
          → All (IsValidTrend q candidates) trends
      run [] h = rw (← ok-injective [] trends h) tt
      run (d ∷ ds) h = run_candidates-IsValidTrend q (d ∷ ds) trends h

  run_queries-IsTrendOf :
      (all_queries queries : List QuerySpec) (events : List Event) (trends : List QueryTrend)
      → ((q : QuerySpec) → In q queries → In q all_queries)
      → run_queries host lib builder options queries events ≡ ok trends
      → All (IsTrendOf all_queries events) trends
  unfolding run_queries
  run_queries-IsTrendOf all_queries [] events trends f e = rw (← ok-injective [] trends e) tt
  run_queries-IsTrendOf all_queries (q ∷ queries) events trends f e =
      let (first, found, next) = >>=-eq-ok (run_query host lib builder options q events) _ e in
      let (rest, others, last) =
        >>=-eq-ok (run_queries host lib builder options queries events) _ next in
      rw (← ok-injective _ trends last) (
        All-append (IsTrendOf all_queries events) first rest
          (run_query-IsTrendOf q all_queries events first (f q (inl refl)) found)
          (run_queries-IsTrendOf all_queries queries events rest (λ r i. f r (inr i)) others))

  -- Every trend of a run is one of an enabled query of the registry: it carries its id and version,
  -- and one event for each id of its path, what the graph made of the candidate with that id, has
  -- passed the checks of the query with the others among the candidates that its filter leaves; and
  -- the trends are sorted by query, partition and trend id.
  pub run-IsTrendOf :
      (registry : List QuerySpec) (events : List Event) (trends : List QueryTrend)
      → run host lib builder options registry events ≡ ok trends
      → All (IsTrendOf (enabled registry) events) trends × IsSorted trend_le trends
  unfolding run
  run-IsTrendOf registry events trends e =
      let (_, first) = >>-eq-ok (validate_unique_versions registry) _ e in
      let (_, second) = >>-eq-ok (validate_events host.platform (map raw_of events)) _ first in
      let (found, made, last) =
        >>=-eq-ok (run_queries host lib builder options (enabled registry) events) _ second in
      rw (← ok-injective _ trends last) (
        All-of_In (IsTrendOf (enabled registry) events) (sort trend_le found) (λ t i.
            All-In (IsTrendOf (enabled registry) events) found
              (run_queries-IsTrendOf (enabled registry) (enabled registry) events found (λ q h. h)
                made)
              t (In-sort trend_le t found i)),
        sort-IsSorted trend_le trend_le_total trend_le_trans found,
      )
