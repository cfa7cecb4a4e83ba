-- ===== src/Tests/Knowledge.antt =====
-- Tests of the knowledge graph: one user, seen by two events that come in the wrong order.
use x_dsi_cet.Base.{◌≡◌, refl, List, [], ◌∷◌, ◌++◌, All, In}
use x_dsi_cet.Base.Int.{ℤ, pos}
use x_dsi_cet.Base.Text.{Text, codes, text_eq, is_empty}
use x_dsi_cet.Base.Sort.{IsSorted}
use x_dsi_cet.Base.Result.{ok}
use x_dsi_cet.Value.{Fields, null, int, str, arr, nil, cons, end, field}
use x_dsi_cet.KnowledgeGraph.{EntityRow, TemporalKg, entity_le, build_temporal_kg}
use x_dsi_cet.KnowledgeGraph.Seen.{IsSeen, sightings_from, build_temporal_kg-IsSeen}
use x_dsi_cet.Tests.Samples.{platform}

abbrev user_event : ℤ → ℤ → Fields → Fields
user_event id time rest =
    field (codes "event_id") (int id) (
      field (codes "event_time_ms") (int time) (field (codes "user_id") (str (codes "alice")) rest))

abbrev events : List Fields
events =
    user_event (pos 1) (pos 50) end
    ∷ user_event (pos 2) (pos 20) (field (codes "host_id") (str (codes "h")) end)
    ∷ []

abbrev trends : List Fields
trends =
    field (codes "trend_id") (str (codes "t"))
      (field (codes "path") (arr (cons (int (pos 2)) nil)) end)
    ∷ []

abbrev dumps : Fields → Text
dumps d = []

abbrev entity : Text → Text → ℤ → ℤ → EntityRow
entity type key first last = record {
  entity_id = type ++ b':' ∷ key;
  entity_type = type;
  entity_key = key;
  first_seen_ms = first;
  last_seen_ms = last;
  attributes = [];
}

abbrev kg : TemporalKg
kg = record {
  entities =
      entity (codes "host") (codes "h") (pos 20) (pos 20)
      ∷ entity (codes "user") (codes "alice") (pos 20) (pos 50)
      ∷ [];
  relations =
      record {
        src_entity_id = codes "user:alice";
        dst_entity_id = codes "host:h";
        relation_type = codes "co_observed:user:host";
        event_id = pos 2;
        event_time_ms = pos 20;
      }
      ∷ [];
  trend_evidence =
      record {
        trend_id = str (codes "t");
        query_id = null;
        event_id = pos 2;
        ordinal = 0;
        risk_score = platform.float_of_int (pos 0);
      }
      ∷ [];
}

build_temporal_kg-events : build_temporal_kg platform dumps events trends ≡ ok kg
unfolding build_temporal_kg text_eq is_empty
build_temporal_kg-events = refl

build_temporal_kg-IsSeen_example :
    All (IsSeen (sightings_from platform dumps events [])) kg.entities
    × All
        (λ s. (row : EntityRow) × In row kg.entities × (row.entity_id ≡ s.0))
        (sightings_from platform dumps events [])
    × IsSorted entity_le kg.entities
build_temporal_kg-IsSeen_example =
    build_temporal_kg-IsSeen platform dumps events trends kg build_temporal_kg-events
