-- ===== src/Connectors/Batching.antt =====
-- The batches of a poll.
use x_dsi_cet.Base.{
  ℕ, zero, suc, ◌+◌, ◌≤◌, ◌<◌, ◌≡◌, refl, ap, ◌∙◌, inl, inr, Bool, true, false, Option, none, some,
  if◌then◌else◌, List, [], ◌∷◌, ◌++◌, append_assoc, arith, leb, Bool-cases, length, length-append,
  take, All,
}
use x_dsi_cet.Base.Int.{ℤ, pos}
use x_dsi_cet.Base.Text.{Text}
use x_dsi_cet.Base.Result.{Error, Result, ok, raise, ◌>>=◌, map_ok}
use x_dsi_cet.Value.{Fields}
use x_dsi_cet.Platform.{Platform}
use x_dsi_cet.Connectors.{
  reached, Yields, yield_first, finished, failed_with, PolledEvent, normalized, emit_from,
  poll_normalized, list_of_yields, zero_bus_events, batch_from, batches,
}

module _ {A : Type 0} where
  abbrev pub joined : List (List A) → List A
  joined [] = []
  joined (b ∷ bs) = b ++ joined bs

  batch_from-joined :
      (size : ℕ) (batch xs : List A) → joined (batch_from size batch xs) ≡ batch ++ xs
  unfolding batch_from
  batch_from-joined size [] [] = refl
  batch_from-joined size (b ∷ batch) [] = refl
  batch_from-joined size batch (x ∷ xs) = elim (Bool-cases (leb size (length (batch ++ x ∷ [])))) [
    | inl t ↦ rw t (
        ap (λ ys. (batch ++ x ∷ []) ++ ys) (batch_from-joined size [] xs)
        ∙ append_assoc batch (x ∷ []) xs)
    | inr f ↦ rw f (batch_from-joined size (batch ++ x ∷ []) xs ∙ append_assoc batch (x ∷ []) xs)
  ]

  -- The batches, one after the other, are the events: none is lost, repeated or moved.
  pub batches-joined : (size : ℕ) (events : List A) → joined (batches size events) ≡ events
  unfolding batches
  batches-joined size events = batch_from-joined size [] events

  -- A batch of the right length.
  abbrev pub Fits : ℕ → List A → Type 0
  Fits size batch = (1 ≤ length batch) × (length batch ≤ size)

  batch_from-Fits :
      (size : ℕ) (batch xs : List A)
      → length batch < size
      → All (Fits size) (batch_from size batch xs)
  unfolding batch_from
  batch_from-Fits size [] [] h = tt
  batch_from-Fits size (b ∷ batch) [] h = ((omega arith, omega (arith, h)), tt)
  batch_from-Fits size batch (x ∷ xs) h =
      let n = length-append batch (x ∷ []) in
      elim (Bool-cases (leb size (length (batch ++ x ∷ [])))) [
        | inl t ↦
            rw t (
              (omega (arith, n), omega (arith, n, h)),
              batch_from-Fits size [] xs (omega (arith, h)),
            )
        | inr f ↦ rw f (batch_from-Fits size (batch ++ x ∷ []) xs (ground arith))
      ]

  -- With a batch size of at least one, no batch is empty or larger than the size.
  pub batches-Fits : (size : ℕ) (events : List A) → 1 ≤ size → All (Fits size) (batches size events)
  unfolding batches
  batches-Fits size events h = batch_from-Fits size [] events (omega (arith, h))

module _ (p : Platform) (hash_id : Fields → ℤ) (dumps : Fields → Text) (source_name : Text) where
  -- Each event normalised and yielded in turn, up to the first that cannot be.
  unfoldable pub yields : List PolledEvent → Yields
  unfolding normalized
  yields [] = finished
  yields (x ∷ xs) =
      let rest = yields xs in
      elim (normalized p hash_id dumps source_name x) [
        | raise e ↦ failed_with e
        | ok d ↦ yield_first d rest
      ]

  emit_from-take :
      (m emitted limit : ℕ) (xs : List PolledEvent)
      → limit ≡ m + suc emitted
      → emit_from p hash_id dumps source_name (some (pos limit)) emitted xs
        ≡ yields (take (suc m) xs)
  unfolding emit_from yields
  emit_from-take m emitted limit [] h = refl
  emit_from-take zero emitted limit (x ∷ xs) h =
      by_event (normalized p hash_id dumps source_name x) (reached (some (pos limit)) (suc emitted))
        (ground arith)
    where
      by_event :
          (r : Result Fields) (b : Bool)
          → b ≡ true
          → (elim r as (λ _. Yields) [
            | raise e ↦ failed_with e
            | ok d ↦ yield_first d (
                if b
                then finished
                else emit_from p hash_id dumps source_name (some (pos limit)) (suc emitted) xs)
          ])
            ≡ (elim r as (λ _. Yields) [
              | raise e ↦ failed_with e
              | ok d ↦ yield_first d (yields [])
            ])
      by_event (raise e) b t = refl
      by_event (ok d) b t = rw t refl
  emit_from-take (suc m) emitted limit (x ∷ xs) h =
      by_event (normalized p hash_id dumps source_name x) (reached (some (pos limit)) (suc emitted))
        (ground arith) (emit_from-take m (suc emitted) limit xs (omega (arith, h)))
    where
      by_event :
          (r : Result Fields) (b : Bool)
          → b ≡ false
          → emit_from p hash_id dumps source_name (some (pos limit)) (suc emitted) xs
            ≡ yields (take (suc m) xs)
          → (elim r as (λ _. Yields) [
            | raise e ↦ failed_with e
            | ok d ↦ yield_first d (
                if b
                then finished
                else emit_from p hash_id dumps source_name (some (pos limit)) (suc emitted) xs)
          ])
            ≡ (elim r as (λ _. Yields) [
              | raise e ↦ failed_with e
              | ok d ↦ yield_first d (yields (take (suc m) xs))
            ])
      by_event (raise e) b f ih = refl
      by_event (ok d) b f ih = rw f (ap (yield_first d) ih)

  list_of_yields-map_ok :
      (xs : List PolledEvent)
      → list_of_yields (yields xs) ≡ map_ok (normalized p hash_id dumps source_name) xs
  unfolding yields map_ok
  list_of_yields-map_ok [] = refl
  list_of_yields-map_ok (x ∷ xs) =
      by_event (normalized p hash_id dumps source_name x) (yields xs).yielded (yields xs).failure
        (map_ok (normalized p hash_id dumps source_name) xs) (list_of_yields-map_ok xs)
    where
      by_event :
          (r : Result Fields) (ds : List Fields) (f : Option Error) (rest : Result (List Fields))
          → list_of_yields (record { yielded = ds; failure = f }) ≡ rest
          → list_of_yields (elim r as (λ _. Yields) [
            | raise e ↦ failed_with e
            | ok d ↦ yield_first d (record { yielded = ds; failure = f })
          ])
            ≡ (r >>= λ d. rest >>= λ ds. ok (d ∷ ds))
      by_event (raise e) ds f rest ih = refl
      by_event (ok d) ds none rest ih = rw (← ih) refl
      by_event (ok d) ds (some e) rest ih = rw (← ih) refl

  -- A poll with a positive limit normalises and yields, one by one, the first events, as many as
  -- the limit allows, and stops at the first that cannot be normalised; as a list it is what comes
  -- of normalising each of these events.
  pub poll_normalized-take :
      (m : ℕ) (events : List PolledEvent)
      → 1 ≤ m
      → (poll_normalized p hash_id dumps source_name (some (pos m)) events ≡ yields (take m events))
        × (zero_bus_events p hash_id dumps source_name (some (pos m)) events
            ≡ map_ok (normalized p hash_id dumps source_name) (take m events))
  unfolding poll_normalized zero_bus_events
  poll_normalized-take zero events h = absurd (omega (arith, h))
  poll_normalized-take (suc m) events h =
      let first = emit_from-take m 0 (suc m) events (omega arith) in
      (first, ap (list_of_yields) first ∙ list_of_yields-map_ok (take (suc m) events))
