-- ===== src/Standing/Runtime.antt =====
-- `StandingTrendOptions`, `StandingTrendEvent` and `StandingTrendRuntime` of
-- bindings/python/standing/runtime.py, with `MemoryTrendSink` of standing/sinks.py as the sink. An
-- exception in an evaluation leaves the graph as it was mutated, and all else as it was.
pub mod Active
pub mod Stream
pub mod History
pub mod Others
use x_dsi_cet.Base.{
  ℕ, zero, suc, ◌+◌, ◌-◌, Bool, true, false, not, ◌&&◌, ◌||◌, Option, none, some, List, [], ◌∷◌,
  ◌++◌, map, ltb, ◌==◌, if◌then◌else◌, keep, length, drop,
}
use x_dsi_cet.Base.Int.{ℤ, eqb_ℤ}
use x_dsi_cet.Base.Text.{Text, codes, text_eq, text_le, join, int_text, is_empty}
use x_dsi_cet.Base.Dict.{Dict, Key, int_key, text_key, lookup, insert, remove, get_or, keys, has}
use x_dsi_cet.Base.Sort.{sort}
use x_dsi_cet.Base.Result.{Result, ok, raise, key_error, ◌>>=◌}
use x_dsi_cet.Value.{Event, partition_of, type_text}
use x_dsi_cet.Platform.{Platform}
use x_dsi_cet.Features.{TrendFeatures, extract_trend_features}
use x_dsi_cet.Risk.{RiskScore, score_trend}
use x_dsi_cet.Registry.{enabled}
use x_dsi_cet.Dsl.Predicate.{one_of}
use x_dsi_cet.Dsl.Query.{QuerySpec, steps_of, referenced_event_types}
use x_dsi_cet.Dsl.Validate.{validate_path}
use x_dsi_cet.Standing.Match.{EventPath, event_le, match_query_paths}
use x_dsi_cet.Standing.Graph.{
  GraphEdge, GraphMutation, MutationOp, upsert, remove_op, GraphState, edges_at,
  events_for_partition,
}
use x_dsi_cet.Standing.Graph.Operations.{upsert_event, remove_event}

pub record Options : Type 0 where
  pub max_window_events_per_partition : ℕ
  pub max_matches_per_query_partition : ℕ
  pub emit_cancellations : Bool
  pub relation_aware : Bool
  pub include_evidence_graph : Bool
  pub default_max_gap_ms : Option ℤ

pub data TrendEventType : Type 0 where
  positive_match cancel_match state_update : TrendEventType

-- `native_stats` of a standing trend.
pub record StandingStats : Type 0 where
  pub revision : ℕ
  pub candidate_events : ℕ

pub record Trend : Type 0 where
  pub trend_id : Text
  pub query_id : Text
  pub query_version : Text
  pub partition_key : Text
  pub path : List ℤ
  pub features : TrendFeatures
  pub risk : RiskScore
  pub edge_evidence : List GraphEdge
  pub native_stats : StandingStats

pub record TrendEvent : Type 0 where
  pub event_type : TrendEventType
  pub trend_id : Text
  pub query_id : Text
  pub query_version : Text
  pub partition_key : Text
  pub path : List ℤ
  pub revision : ℕ
  pub trend : Trend
  pub reason : Text

pub record Runtime : Type 0 where
  pub registry : List QuerySpec
  pub options : Options
  pub state : GraphState
  pub sinks : List (List TrendEvent)
  pub active : Dict Text TrendEvent

-- `_fingerprint`.
unfoldable pub fingerprint : Platform → QuerySpec → Text → List ℤ → Text
unfolding join int_text
fingerprint p q partition path = p.sha256_hex (
    q.query_id
    ++ b':' ∷ (q.version ++ b':' ∷ (partition ++ b':' ∷ join (codes ",") (map int_text path))))

-- `edges_for_path`: Python visits the pairs in the order of a set, here it is that of the path.
unfoldable pub edges_for_path : GraphState → List ℤ → List GraphEdge
unfolding keep get_or
edges_for_path s [] = []
edges_for_path s (i ∷ []) = []
edges_for_path s (i ∷ j ∷ rest) =
    keep (λ e. eqb_ℤ e.dst j) (edges_at i s.edges.by_src) ++ edges_for_path s (j ∷ rest)

-- The tail of `partition_events` that is looked at; `xs[-0:]` is all of `xs`.
unfoldable pub window_events : ℕ → List Event → List Event
window_events most events =
    if ltb most (length events) && not (most == 0)
    then drop (length events - most) events
    else events

abbrev pub features_found : Option TrendFeatures → Result TrendFeatures
features_found none = raise key_error
features_found (some f) = ok f

-- `not refs or str(e.get("event_type")) in refs`.
abbrev pub relevant : List Text → Event → Bool
relevant [] e = true
relevant (r ∷ refs) e = one_of (type_text e) (r ∷ refs)

module _ (p : Platform) (rt : Runtime) where
  -- The trend event of one valid path; its features exist since the path is not empty.
  unfoldable pub positive_event : QuerySpec → Text → ℕ → List Event → EventPath → Result TrendEvent
  unfolding fingerprint edges_for_path extract_trend_features score_trend
  positive_event q partition revision candidates path_events = do
    let path = map (λ (e : Event). e.event_id) path_events
    found ← extract_trend_features p path_events
    features ← features_found found
    risk ← score_trend p q path_events false
    let evidence = if rt.options.include_evidence_graph then edges_for_path rt.state path else []
    let id = fingerprint p q partition path
    let trend : Trend = record {
      trend_id = id;
      query_id = q.query_id;
      query_version = q.version;
      partition_key = partition;
      path = path;
      features = features;
      risk = risk;
      edge_evidence = evidence;
      native_stats = record { revision = revision; candidate_events = length candidates };
    }
    ok (record {
      event_type = positive_match;
      trend_id = id;
      query_id = q.query_id;
      query_version = q.version;
      partition_key = partition;
      path = path;
      revision = revision;
      trend = trend;
      reason = [];
    })

  unfoldable pub valid_trends :
      QuerySpec → Text → ℕ → List Event → List EventPath → Result (List TrendEvent)
  unfolding positive_event validate_path
  valid_trends q partition revision candidates [] = ok []
  valid_trends q partition revision candidates (path ∷ paths) =
      validate_path p q path candidates >>= λ valid.
      if valid
      then (positive_event q partition revision candidates path >>= λ trend.
          valid_trends q partition revision candidates paths >>= λ rest. ok (trend ∷ rest))
      else valid_trends q partition revision candidates paths

  -- `_evaluate_query_partition`.
  unfoldable pub evaluate_query_partition :
      QuerySpec → Text → List Event → ℕ → Result (List TrendEvent)
  unfolding referenced_event_types steps_of match_query_paths valid_trends keep one_of
  evaluate_query_partition q partition events revision = do
    refs ← referenced_event_types q
    let candidates = keep (relevant refs) events
    steps ← steps_of q
    let paths =
        match_query_paths steps q.within_ms candidates rt.options.max_matches_per_query_partition
    valid_trends q partition revision candidates paths

  unfoldable pub store_trends : List TrendEvent → Dict Text TrendEvent → Dict Text TrendEvent
  unfolding insert
  store_trends [] current = current
  store_trends (t ∷ ts) current = store_trends ts (insert t.trend_id t current)

  -- The trends that hold now, by their ids.
  unfoldable pub current_trends :
      List QuerySpec → Text → List Event → ℕ → Dict Text TrendEvent → Result (Dict Text TrendEvent)
  unfolding evaluate_query_partition store_trends
  current_trends [] partition events revision current = ok current
  current_trends (q ∷ queries) partition events revision current = do
    trends ← evaluate_query_partition q partition events revision
    current_trends queries partition events revision (store_trends trends current)

-- The ids of the active trends of a partition.
unfoldable pub ids_of_partition : Text → Dict Text TrendEvent → List Text
ids_of_partition p [] = []
ids_of_partition p ((tid, t) ∷ rest) =
    let ids = ids_of_partition p rest in if text_eq t.partition_key p then tid ∷ ids else ids

-- `sorted(a - b)`.
unfoldable pub sorted_difference : List Text → List Text → List Text
unfolding keep has sort text_le
sorted_difference a b = sort text_le (keep (λ t. not (has t b)) a)

unfoldable pub op_text : MutationOp → Text
op_text upsert = codes "upsert_event"
op_text remove_op = codes "remove_event"

unfoldable pub cancellation : GraphMutation → TrendEvent → TrendEvent
unfolding op_text
cancellation m prev = record prev {
  event_type = cancel_match;
  revision = m.revision;
  reason = codes "match no longer valid after " ++ op_text m.op;
}

abbrev cons_found : Option TrendEvent → List TrendEvent → List TrendEvent
cons_found none rest = rest
cons_found (some t) rest = t ∷ rest

-- `[d[tid] for tid in ids]`, for ids that are keys.
unfoldable pub trends_at : List Text → Dict Text TrendEvent → List TrendEvent
unfolding lookup
trends_at [] d = []
trends_at (tid ∷ ids) d = cons_found (lookup tid d) (trends_at ids d)

unfoldable pub remove_all : List Text → Dict Text TrendEvent → Dict Text TrendEvent
unfolding remove
remove_all [] d = d
remove_all (tid ∷ ids) d = remove_all ids (remove tid d)

-- `d.update(other)`.
unfoldable pub update_all : Dict Text TrendEvent → Dict Text TrendEvent → Dict Text TrendEvent
unfolding insert
update_all [] d = d
update_all ((tid, t) ∷ rest) d = update_all rest (insert tid t d)

-- What `_reevaluate_partition` emits, and the new `active`.
unfoldable pub outputs :
    Bool → GraphMutation → Text → Dict Text TrendEvent → Dict Text TrendEvent → List TrendEvent
unfolding sorted_difference trends_at cancellation ids_of_partition keys
outputs cancels m p active current =
    let previous_ids = ids_of_partition p active in
    trends_at (sorted_difference (keys current) previous_ids) current
    ++ (if cancels
        then map (cancellation m) (trends_at (sorted_difference previous_ids (keys current)) active)
        else [])

unfoldable pub new_active :
    Text → Dict Text TrendEvent → Dict Text TrendEvent → Dict Text TrendEvent
unfolding remove_all update_all ids_of_partition
new_active p active current = update_all current (remove_all (ids_of_partition p active) active)

unfoldable pub emit_to : List TrendEvent → List (List TrendEvent) → List (List TrendEvent)
emit_to out [] = []
emit_to out (sink ∷ sinks) = (sink ++ out) ∷ emit_to out sinks

module _ (p : Platform) where
  -- `_reevaluate_partition`.
  unfoldable pub reevaluate_partition :
      Runtime → Text → GraphMutation → Runtime × Result (List TrendEvent)
  unfolding current_trends enabled events_for_partition window_events outputs new_active emit_to
  reevaluate_partition rt partition m =
      let events =
        window_events rt.options.max_window_events_per_partition
          (events_for_partition rt.state.events rt.state.by_partition partition) in
      elim (current_trends p rt (enabled rt.registry) partition events m.revision []) [
        | raise e ↦ (rt, raise e)
        | ok current ↦
            let out = outputs rt.options.emit_cancellations m partition rt.active current in
            (
              record rt {
                active = new_active partition rt.active current;
                sinks = emit_to out rt.sinks;
              },
              ok out,
            )
      ]

  -- `mutation.partition_key or _partition(event)`.
  abbrev pub key_or : Option Text → Text → Text
  key_or none q = q
  key_or (some k) q = if is_empty k then q else k

  unfoldable pub process_event : ℤ → Runtime → Event → Runtime × Result (List TrendEvent)
  unfolding reevaluate_partition upsert_event is_empty partition_of
  process_event now rt event =
      let (state, m) = upsert_event now rt.state event in
      reevaluate_partition (record rt { state = state })
        (key_or m.partition_key (partition_of event)) m

  -- `if not mutation.partition_key: return []`.
  abbrev pub reevaluate_if :
      Option Text → Runtime → GraphMutation → Runtime × Result (List TrendEvent)
  reevaluate_if none rt m = (rt, ok [])
  reevaluate_if (some k) rt m = if is_empty k then (rt, ok []) else reevaluate_partition rt k m

  unfoldable pub remove_from : ℤ → Runtime → ℤ → Runtime × Result (List TrendEvent)
  unfolding reevaluate_partition remove_event is_empty
  remove_from now rt i =
      let (state, m) = remove_event now rt.state i in
      reevaluate_if m.partition_key (record rt { state = state }) m

  -- `replay`: an exception ends the loop.
  abbrev also_emit :
      List TrendEvent → Runtime × Result (List TrendEvent) → Runtime × Result (List TrendEvent)
  also_emit out (rt, ok more) = (rt, ok (out ++ more))
  also_emit out (rt, raise e) = (rt, raise e)

  abbrev continue_with :
      (Runtime → Runtime × Result (List TrendEvent))
      → Runtime × Result (List TrendEvent)
      → Runtime × Result (List TrendEvent)
  continue_with f (rt, raise e) = (rt, raise e)
  continue_with f (rt, ok out) = also_emit out (f rt)

  unfoldable pub replay_sorted : ℤ → List Event → Runtime → Runtime × Result (List TrendEvent)
  unfolding process_event
  replay_sorted now [] rt = (rt, ok [])
  replay_sorted now (e ∷ es) rt = continue_with (replay_sorted now es) (process_event now rt e)

  unfoldable pub replay : ℤ → List Event → Runtime → Runtime × Result (List TrendEvent)
  unfolding replay_sorted sort event_le
  replay now events rt = replay_sorted now (sort event_le events) rt
