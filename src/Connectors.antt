-- ===== src/Connectors.antt =====
-- The two loops of `ZeroBusClient` in bindings/python/connectors/zerobus.py over the events of a
-- poll: how many are normalised and emitted, and how what is emitted is put in batches. The pauses
-- between batches are left out, and so is an exception of the poll in the middle of the batches.
pub mod Batching
pub mod Normalize
pub mod Accepted
use x_dsi_cet.Base.{
  ℕ, suc, Bool, true, false, Option, none, some, List, [], ◌∷◌, ◌++◌, leb, if◌then◌else◌, length,
}
use x_dsi_cet.Base.Int.{ℤ, pos, leb_ℤ}
use x_dsi_cet.Base.Text.{Text}
use x_dsi_cet.Base.Result.{Error, Result, ok, raise, ◌>>=◌}
use x_dsi_cet.Value.{Fields}
use x_dsi_cet.Platform.{Platform}
use x_dsi_cet.Connectors.Normalize.{normalize_event, event_dict}

-- `max_messages is not None and emitted >= int(max_messages)`.
unfoldable pub reached : Option ℤ → ℕ → Bool
reached max_messages emitted = elim max_messages [ none ↦ false | some m ↦ leb_ℤ m (pos emitted) ]

-- What a generator yields, and the exception that ends it, if any.
pub record Yields : Type 0 where
  pub yielded : List Fields
  pub failure : Option Error

abbrev pub yield_first : Fields → Yields → Yields
yield_first d rest = record { yielded = d ∷ rest.yielded; failure = rest.failure }

abbrev pub finished : Yields
finished = record { yielded = []; failure = none }

abbrev pub failed_with : Error → Yields
failed_with e = record { yielded = []; failure = some e }

-- `list(…)` of a generator raises what ends it.
abbrev pub list_of_yields : Yields → Result (List Fields)
list_of_yields y = elim y.failure [ none ↦ ok y.yielded | some e ↦ raise e ]

-- An event of the transport, with the clock when it is normalised.
abbrev pub PolledEvent : Type 0
PolledEvent = ℤ × Fields

module _ (p : Platform) (hash_id : Fields → ℤ) (dumps : Fields → Text) (source_name : Text) where
  -- `normalize_connector_event(raw, source_name=…).as_dict()`.
  unfoldable pub normalized : PolledEvent → Result Fields
  unfolding normalize_event event_dict
  normalized (now_ms, raw) = normalize_event p now_ms hash_id dumps source_name raw >>= λ e.
      ok (event_dict p now_ms hash_id dumps e)

  -- The loop of `poll_normalized`.
  unfoldable pub emit_from : Option ℤ → ℕ → List PolledEvent → Yields
  unfolding reached normalized
  emit_from max_messages emitted [] = finished
  emit_from max_messages emitted (x ∷ xs) =
      let rest = emit_from max_messages (suc emitted) xs in
      elim (normalized x) [
        | raise e ↦ failed_with e
        | ok d ↦ yield_first d (if reached max_messages (suc emitted) then finished else rest)
      ]

  unfoldable pub poll_normalized : Option ℤ → List PolledEvent → Yields
  unfolding emit_from
  poll_normalized max_messages events = emit_from max_messages 0 events

  -- `zero_bus_events`, for a transport that gives the events.
  unfoldable pub zero_bus_events : Option ℤ → List PolledEvent → Result (List Fields)
  unfolding poll_normalized
  zero_bus_events max_messages events = list_of_yields (poll_normalized max_messages events)

module _ {A : Type 0} where
  abbrev pub last_batch : List A → List (List A)
  last_batch [] = []
  last_batch (x ∷ batch) = (x ∷ batch) ∷ []

  -- The loop of `batches`.
  unfoldable pub batch_from : ℕ → List A → List A → List (List A)
  batch_from size batch [] = last_batch batch
  batch_from size batch (x ∷ xs) =
      let whole = batch ++ x ∷ [] in
      let cut = batch_from size [] xs in
      let more = batch_from size whole xs in if leb size (length whole) then whole ∷ cut else more

  unfoldable pub batches : ℕ → List A → List (List A)
  unfolding batch_from
  batches size events = batch_from size [] events
