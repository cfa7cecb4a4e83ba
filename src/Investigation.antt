-- ===== src/Investigation.antt =====
-- bindings/python/investigation.py: the package that an analyst gets for a trend. The events have
-- typed contract fields; the trend is a raw dictionary.
pub mod Timeline
use x_dsi_cet.Base.{
  ℕ, suc, Bool, Option, none, some, List, [], ◌∷◌, ◌++◌, ◌&&◌, ◌||◌, map, if◌then◌else◌, leb,
}
use x_dsi_cet.Base.Int.{ℤ, pos, ltb_ℤ, eqb_ℤ}
use x_dsi_cet.Base.Text.{Text, codes, text_eq}
use x_dsi_cet.Base.Dict.{Dict, int_key, text_key, lookup, get_or}
use x_dsi_cet.Base.Sort.{sort}
use x_dsi_cet.Base.Result.{Result, ok, ◌>>=◌}
use x_dsi_cet.Value.{Value, Fields, Event, null, str, arr, obj, nil, cons, end, get_item}
use x_dsi_cet.Platform.{Platform, str_of}
use x_dsi_cet.Document.{get_value, first_true, ints_of, text_or}

pub record TimelineEntry : Type 0 where
  pub ordinal : ℕ
  pub event_id : ℤ
  pub event_type : Option Text
  pub event_time_ms : Option ℤ
  pub partition_key : Option Text
  pub attributes : Value

-- `event.get("attributes", {})`.
unfoldable pub attributes_of : Event → Value
unfolding get_value
attributes_of e = get_value (codes "attributes") (obj end) e.fields

-- The entry of an event, and of an id without one.
unfoldable pub entry_of_event : Option Event → ℕ × ℤ → TimelineEntry
unfolding attributes_of
entry_of_event none (i, eid) = record {
  ordinal = i;
  event_id = eid;
  event_type = none;
  event_time_ms = none;
  partition_key = none;
  attributes = obj end;
}
entry_of_event (some e) (i, eid) = record {
  ordinal = i;
  event_id = eid;
  event_type = e.event_type;
  event_time_ms = e.event_time_ms;
  partition_key = e.partition_key;
  attributes = attributes_of e;
}

unfoldable pub entry_of : Dict ℤ Event → ℕ × ℤ → TimelineEntry
unfolding entry_of_event lookup
entry_of events_by_id row = entry_of_event (lookup row.1 events_by_id) row

-- `enumerate(ids)`, from a number.
abbrev pub numbered : ℕ → List ℤ → List (ℕ × ℤ)
numbered i [] = []
numbered i (eid ∷ ids) = (i, eid) ∷ numbered (suc i) ids

-- `x.get("event_time_ms") or 0`.
unfoldable pub time_or_zero : Option ℤ → ℤ
time_or_zero none = pos 0
time_or_zero (some t) = t

unfoldable pub entry_le : TimelineEntry → TimelineEntry → Bool
unfolding time_or_zero
entry_le a b =
    let t = time_or_zero a.event_time_ms in
    let u = time_or_zero b.event_time_ms in ltb_ℤ t u || (eqb_ℤ t u && leb a.ordinal b.ordinal)

pub record InvestigationPackage : Type 0 where
  pub trend_id : Value
  pub query_id : Text
  pub severity : Value
  pub risk_score : Value
  pub timeline : List TimelineEntry
  pub mitre_techniques : List Text
  pub why : Value
  pub next_best_questions : List Text
  pub false_positive_checks : List Text
  pub recommended_actions : List Text

module _ (p : Platform) where
  unfoldable pub build_timeline : Fields → Dict ℤ Event → Result (List TimelineEntry)
  unfolding get_value ints_of sort entry_le entry_of
  build_timeline trend events_by_id =
      ints_of p (get_value (codes "path") (arr nil) trend) >>= λ ids.
      ok (sort entry_le (map (entry_of events_by_id) (numbered 0 ids)))

  unfoldable pub next_best_questions : Fields → List Text
  unfolding text_or
  next_best_questions trend =
      (codes "Which entity is common across all events in "
        ++ text_or p (codes "query_id") (str (codes "this trend")) trend
        ++ codes "?")
      ∷ codes "Was MFA, EDR, or a policy control expected between the first and last event?"
      ∷ codes "Did the user/host have prior similar trends in the last 7/30 days?"
      ∷ codes "Which high-value assets or sensitive objects were touched?"
      ∷ codes "Would changing the query window materially alter the detection?"
      ∷ []

  unfoldable pub is_severe : Text → Bool
  unfolding text_eq
  is_severe sev = text_eq sev (codes "critical") || text_eq sev (codes "high")

  unfoldable pub false_positive_checks : Fields → List Text
  unfolding text_or is_severe
  false_positive_checks trend =
      codes "Confirm all events refer to the same intended identity/session/host scope."
      ∷ codes "Check for approved admin activity or maintenance window."
      ∷ codes "Check duplicate or replayed telemetry event IDs."
      ∷ codes "Validate event timestamps and source clock skew."
      ∷ (if is_severe (text_or p (codes "severity") (str (codes "medium")) trend)
          then codes "Require explicit analyst disposition before suppression." ∷ []
          else [])

  -- A `mitre_map` that is absent is empty.
  unfoldable pub build_investigation_package :
      Fields → Dict ℤ Event → Dict Text (List Text) → Result InvestigationPackage
  unfolding build_timeline text_or get_value get_or first_true next_best_questions
      false_positive_checks
  build_investigation_package trend events_by_id mitre_map =
      build_timeline trend events_by_id >>= λ timeline.
      (let query_id = text_or p (codes "query_id") (str (codes "unknown")) trend in
        ok record {
          trend_id = get_value (codes "trend_id") null trend;
          query_id = query_id;
          severity = get_value (codes "severity") null trend;
          risk_score = get_value (codes "risk_score") null trend;
          timeline = timeline;
          mitre_techniques = get_or query_id [] mitre_map;
          why =
              first_true (codes "risk_explanation" ∷ [])
                (arr
                  (cons (str (codes "CET path matched the configured temporal/causal query.")) nil))
                trend;
          next_best_questions = next_best_questions trend;
          false_positive_checks = false_positive_checks trend;
          recommended_actions =
              codes "Preserve raw evidence for the full path."
              ∷ codes "Pivot on shared identity, host, session, and source IP."
              ∷ codes "Run counterfactual replay before changing the rule."
              ∷ [];
        })
