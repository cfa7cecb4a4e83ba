-- ===== src/Tests/Documents.antt =====
-- Tests of the registry, the event contracts, the state store and the difference of trend sets.
use x_dsi_cet.Base.{ℕ, ◌≡◌, refl, inl, inr, not, ◌&&◌, some, List, [], ◌∷◌, In}
use x_dsi_cet.Base.Int.{pos}
use x_dsi_cet.Base.Text.{Text, codes, text_eq}
use x_dsi_cet.Base.Dict.{text_key, has}
use x_dsi_cet.Base.Result.{ok, raise, value_error}
use x_dsi_cet.Value.{Fields, int, str, end, field}
use x_dsi_cet.Dsl.Query.{QuerySpec}
use x_dsi_cet.Registry.{get_query, validate_unique_versions}
use x_dsi_cet.Registry.Versions.{get_query-of_member}
use x_dsi_cet.Contracts.{validate_events}
use x_dsi_cet.Contracts.Batches.{IsBatch, validate_events-IsBatch, IsBatch-validate_events}
use x_dsi_cet.State.{PartialTrendState, compact_states}
use x_dsi_cet.State.Compaction.{
  IsCovered, compact_states-covers, compact_states_unique, In-compact_states,
}
use x_dsi_cet.Counterfactual.{TrendRow, diff_trend_sets}
use x_dsi_cet.Counterfactual.Diff.{ids, diff_trend_sets-ids}
use x_dsi_cet.Tests.Samples.{platform, query}

abbrev newer_query : QuerySpec
newer_query = record query { version = codes "2" }

abbrev queries : List QuerySpec
queries = newer_query ∷ query ∷ []

get_query-of_member_example : get_query (codes "q") (some (codes "1")) queries ≡ ok query
unfolding validate_unique_versions text_eq
get_query-of_member_example = get_query-of_member queries query refl (inr (inl refl))

abbrev raw_event : ℕ → Fields
raw_event id = field (codes "event_id") (int (pos id)) (
    field (codes "partition_key") (str (codes "alice")) (
      field (codes "event_type") (str (codes "login"))
        (field (codes "event_time_ms") (int (pos 100)) end)))

rejects_duplicate : validate_events platform (raw_event 1 ∷ raw_event 1 ∷ []) ≡ raise value_error
unfolding validate_events text_eq
rejects_duplicate = refl

validate_events-IsBatch_example : IsBatch platform (raw_event 1 ∷ raw_event 2 ∷ [])
unfolding validate_events text_eq
validate_events-IsBatch_example =
    validate_events-IsBatch platform (raw_event 1 ∷ raw_event 2 ∷ []) refl

IsBatch-validate_events_example : validate_events platform (raw_event 1 ∷ raw_event 2 ∷ []) ≡ ok tt
unfolding validate_events text_eq
IsBatch-validate_events_example =
    IsBatch-validate_events platform (raw_event 1 ∷ raw_event 2 ∷ [])
      (pos 1 ∷ pos 2 ∷ [], (refl, refl, (refl, refl, tt)), (refl, (refl, tt)))

abbrev partial_state : ℕ → PartialTrendState
partial_state last = record {
  query_id = codes "q";
  query_version = codes "1";
  partition_key = codes "alice";
  prefix_path = pos 1 ∷ [];
  start_time_ms = pos 100;
  last_event_time_ms = pos last;
  expiry_time_ms = pos 1100;
  payload = end;
}

abbrev states : List PartialTrendState
states = partial_state 100 ∷ partial_state 200 ∷ partial_state 150 ∷ []

keeps_latest : compact_states platform states ≡ partial_state 200 ∷ []
unfolding compact_states text_eq
keeps_latest = refl

compact_states-covers_example :
    IsCovered platform (partial_state 150) (compact_states platform states)
compact_states-covers_example =
    compact_states-covers platform states (partial_state 150) (inr (inr (inl refl)))

compact_states_unique_example : partial_state 200 ≡ partial_state 200
unfolding compact_states text_eq
compact_states_unique_example =
    compact_states_unique platform states (partial_state 200) (partial_state 200) (inl refl)
      (inl refl) refl

In-compact_states_example : In (partial_state 200) states
unfolding compact_states text_eq
In-compact_states_example = In-compact_states platform states (partial_state 200) (inl refl)

abbrev row : Text → TrendRow
row id = record { trend_id = id; fields = end }

abbrev base_rows : List TrendRow
base_rows = row (codes "a") ∷ row (codes "b") ∷ []

abbrev candidate_rows : List TrendRow
candidate_rows = row (codes "b") ∷ row (codes "c") ∷ []

adds_new_trend : (diff_trend_sets base_rows candidate_rows).added ≡ row (codes "c") ∷ []
unfolding diff_trend_sets text_eq
adds_new_trend = refl

diff_trend_sets-ids_example :
    (has (codes "c") (ids (diff_trend_sets base_rows candidate_rows).added)
      ≡ (has (codes "c") (ids candidate_rows) && not (has (codes "c") (ids base_rows))))
    × (has (codes "c") (ids (diff_trend_sets base_rows candidate_rows).removed)
        ≡ (has (codes "c") (ids base_rows) && not (has (codes "c") (ids candidate_rows))))
    × (has (codes "c") (ids (diff_trend_sets base_rows candidate_rows).common)
        ≡ (has (codes "c") (ids candidate_rows) && has (codes "c") (ids base_rows)))
diff_trend_sets-ids_example = diff_trend_sets-ids base_rows candidate_rows (codes "c")
