-- ===== src/Tests/Timelines.antt =====
-- Tests of the investigation timeline: a path whose events come late, one of them unknown.
use x_dsi_cet.Base.{◌≡◌, refl, none, List, [], ◌∷◌}
use x_dsi_cet.Base.Int.{ℤ, pos}
use x_dsi_cet.Base.Text.{codes, text_eq}
use x_dsi_cet.Base.Dict.{Dict}
use x_dsi_cet.Base.Result.{ok}
use x_dsi_cet.Value.{Fields, Event, int, arr, obj, nil, cons, end, field}
use x_dsi_cet.Investigation.{TimelineEntry, build_timeline}
use x_dsi_cet.Investigation.Timeline.{IsTimeline, build_timeline-IsTimeline}
use x_dsi_cet.Tests.Samples.{platform, login, command}

abbrev events_by_id : Dict ℤ Event
events_by_id = (pos 1, login) ∷ (pos 2, command) ∷ []

abbrev trend : Fields
trend =
    field (codes "path") (arr (cons (int (pos 2)) (cons (int (pos 1)) (cons (int (pos 7)) nil))))
      end

abbrev timeline : List TimelineEntry
timeline =
    record {
      ordinal = 2;
      event_id = pos 7;
      event_type = none;
      event_time_ms = none;
      partition_key = none;
      attributes = obj end;
    }
    ∷ record {
      ordinal = 1;
      event_id = pos 1;
      event_type = login.event_type;
      event_time_ms = login.event_time_ms;
      partition_key = login.partition_key;
      attributes = obj end;
    }
    ∷ record {
      ordinal = 0;
      event_id = pos 2;
      event_type = command.event_type;
      event_time_ms = command.event_time_ms;
      partition_key = command.partition_key;
      attributes = obj end;
    }
    ∷ []

build_timeline-trend : build_timeline platform trend events_by_id ≡ ok timeline
unfolding build_timeline text_eq
build_timeline-trend = refl

build_timeline-IsTimeline_example : IsTimeline events_by_id (pos 2 ∷ pos 1 ∷ pos 7 ∷ []) timeline
unfolding build_timeline text_eq
build_timeline-IsTimeline_example =
    build_timeline-IsTimeline platform trend events_by_id (pos 2 ∷ pos 1 ∷ pos 7 ∷ []) timeline refl
      build_timeline-trend
