-- ===== src/Tests/Polls.antt =====
-- Tests of the poll loops.
use x_dsi_cet.Base.{ℕ, ◌≡◌, refl, none, some, List, [], ◌∷◌, arith, take, length, All}
use x_dsi_cet.Base.Int.{ℤ, pos}
use x_dsi_cet.Base.Text.{Text, codes, text_eq, is_empty}
use x_dsi_cet.Base.Result.{raise, type_error, map_ok}
use x_dsi_cet.Value.{Fields, int, arr, nil, end, field}
use x_dsi_cet.Tests.Samples.{platform}
use x_dsi_cet.Connectors.{PolledEvent, normalized, poll_normalized, zero_bus_events, batches}
use x_dsi_cet.Connectors.Batching.{
  Fits, joined, yields, batches-joined, batches-Fits, poll_normalized-take,
}

abbrev polled : List ℕ
polled = 1 ∷ 2 ∷ 3 ∷ []

cuts_in_two : batches 2 polled ≡ (1 ∷ 2 ∷ []) ∷ (3 ∷ []) ∷ []
unfolding batches
cuts_in_two = refl

abbrev hash_id : Fields → ℤ
hash_id raw = pos 9

abbrev dumps : Fields → Text
dumps d = []

abbrev raw : ℕ → Fields
raw id = field (codes "id") (int (pos id)) end

-- The second event has a time that is no number.
abbrev raw_events : List PolledEvent
raw_events =
    (pos 5, raw 1) ∷ (pos 6, field (codes "event_time_ms") (arr nil) (raw 2)) ∷ (pos 7, raw 3) ∷ []

-- A limit of zero lets one event through.
zero_limit :
    length (poll_normalized platform hash_id dumps (codes "s") (some (pos 0)) raw_events).yielded
    ≡ 1
unfolding poll_normalized text_eq is_empty
zero_limit = refl

-- Without a limit that comes first, the exception of the second event ends the poll.
stops_at_failure :
    zero_bus_events platform hash_id dumps (codes "s") none raw_events ≡ raise type_error
unfolding zero_bus_events text_eq is_empty
stops_at_failure = refl

batches-joined_example : joined (batches 2 polled) ≡ polled
batches-joined_example = batches-joined 2 polled

batches-Fits_example : All (Fits 2) (batches 2 polled)
batches-Fits_example = batches-Fits 2 polled (omega arith)

poll_normalized-take_example :
    (poll_normalized platform hash_id dumps (codes "s") (some (pos 2)) raw_events
      ≡ yields platform hash_id dumps (codes "s") (take 2 raw_events))
    × (zero_bus_events platform hash_id dumps (codes "s") (some (pos 2)) raw_events
        ≡ map_ok (normalized platform hash_id dumps (codes "s")) (take 2 raw_events))
poll_normalized-take_example =
    poll_normalized-take platform hash_id dumps (codes "s") 2 raw_events (omega arith)
