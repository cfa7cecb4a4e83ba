-- ===== src/Standing/Runtime/Stream.antt =====
-- The stream of trend events that the runtime emits, against the table of active trends.
use x_dsi_cet.Base.{
  ◌≡◌, refl, sym, ap, ◌∙◌, inl, inr, Bool, true, false, not, ◌&&◌, ◌||◌, some, List, [], ◌∷◌, ◌++◌,
  map, arith, Bool-cases,
}
use x_dsi_cet.Base.Text.{Text, text_eq}
use x_dsi_cet.Base.Dict.{Dict, text_key, lookup, keys, has, add, discard, has-add, has-discard}
use x_dsi_cet.Standing.Graph.{GraphMutation}
use x_dsi_cet.Standing.Runtime.{
  TrendEvent, TrendEventType, positive_match, cancel_match, state_update, ids_of_partition,
  sorted_difference, cancellation, trends_at, outputs, new_active,
}
use x_dsi_cet.Standing.Runtime.Active.{
  ById, lookup-ById, has-keys-new_active, has-ids_of_partition, has-sorted_difference,
}

-- A consumer of the stream: it notes a trend on a positive match and drops it on a cancellation.
abbrev note : TrendEventType → Text → List Text → List Text
note positive_match id ids = add id ids
note cancel_match id ids = discard id ids
note state_update id ids = ids

unfoldable pub follow : List Text → List TrendEvent → List Text
follow ids [] = ids
follow ids (t ∷ ts) = follow (note t.event_type t.trend_id ids) ts

pub follow-append :
    (ids : List Text) (xs ys : List TrendEvent) → follow ids (xs ++ ys) ≡ follow (follow ids xs) ys
unfolding follow
follow-append ids [] ys = refl
follow-append ids (x ∷ xs) ys = follow-append (note x.event_type x.trend_id ids) xs ys

-- Two sets with the same elements.
abbrev pub SameIds : List Text → List Text → Type 0
SameIds a b = (x : Text) → has x a ≡ has x b

note-SameIds :
    (k : TrendEventType) (id : Text) (a b : List Text)
    → SameIds a b
    → SameIds (note k id a) (note k id b)
note-SameIds positive_match id a b h x = has-add x id a ∙ rw (h x) (sym (has-add x id b))
note-SameIds cancel_match id a b h x = has-discard x id a ∙ rw (h x) (sym (has-discard x id b))
note-SameIds state_update id a b h x = h x

pub follow-SameIds :
    (ts : List TrendEvent) (a b : List Text) → SameIds a b → SameIds (follow a ts) (follow b ts)
unfolding follow
follow-SameIds [] a b h = h
follow-SameIds (t ∷ ts) a b h = follow-SameIds ts _ _ (note-SameIds t.event_type t.trend_id a b h)

lookup_of_has :
    (x : Text) (d : Dict Text TrendEvent)
    → has x (keys d) ≡ true
    → (t : TrendEvent) × (lookup x d ≡ some t)
unfolding has keys lookup
lookup_of_has x [] h = cc
lookup_of_has x ((i, t) ∷ d) h = elim (Bool-cases (text_eq i x)) [
  | inl y ↦ (t, rw y)
  | inr n ↦ let (u, found) = lookup_of_has x d (rw n at h) in (u, rw n found)
]

-- Every id of the list is a key.
abbrev AreKeys : List Text → Dict Text TrendEvent → Type 0
AreKeys ids d = (x : Text) → has x ids ≡ true → has x (keys d) ≡ true

AreKeys-tail :
    (i : Text) (ids : List Text) (d : Dict Text TrendEvent) → AreKeys (i ∷ ids) d → AreKeys ids d
unfolding has
AreKeys-tail i ids d h x k = h x (ground arith)

has-cons_self : (i : Text) (ids : List Text) → has i (i ∷ ids) ≡ true
unfolding has
has-cons_self i ids = rw (text_key.eq→same i i refl)

note_positive :
    (t : TrendEvent) (i : Text) (ids : List Text)
    → t.event_type ≡ positive_match
    → t.trend_id ≡ i
    → note t.event_type t.trend_id ids ≡ add i ids
note_positive t i ids kind id = ap (λ k. note k t.trend_id ids) kind ∙ ap (λ j. add j ids) id

follow-trends_at :
    (ids : List Text) (d : Dict Text TrendEvent) (open_ids : List Text)
    → ById d
    → AreKeys ids d
    → (x : Text) → has x (follow open_ids (trends_at ids d)) ≡ (has x ids || has x open_ids)
unfolding follow trends_at has
follow-trends_at [] d open_ids v h x = refl
follow-trends_at (i ∷ ids) d open_ids v h x =
    let (t, found) = lookup_of_has i d (h i (has-cons_self i ids)) in
    let (id, kind) = lookup-ById i t d v found in
    rw found (
      ap (λ s. has x (follow s (trends_at ids d))) (note_positive t i open_ids kind id)
      ∙ follow-trends_at ids d (add i open_ids) v (AreKeys-tail i ids d h) x
      ∙ rw (has-add x i open_ids) (ground arith))

follow-cancellations :
    (m : GraphMutation) (ids : List Text) (d : Dict Text TrendEvent) (open_ids : List Text)
    → ById d
    → AreKeys ids d
    → (x : Text)
    → has x (follow open_ids (map (cancellation m) (trends_at ids d)))
      ≡ (not (has x ids) && has x open_ids)
unfolding follow trends_at has cancellation
follow-cancellations m [] d open_ids v h x = refl
follow-cancellations m (i ∷ ids) d open_ids v h x =
    let (t, found) = lookup_of_has i d (h i (has-cons_self i ids)) in
    let (id, kind) = lookup-ById i t d v found in
    rw (found, id)
      (follow-cancellations m ids d (discard i open_ids) v (AreKeys-tail i ids d h) x
        ∙ rw (has-discard x i open_ids) (ground arith))

-- A consumer that held the active ids before holds those that are active after the output.
pub follow-outputs :
    (m : GraphMutation) (p : Text) (active current : Dict Text TrendEvent)
    → ById active
    → ById current
    → SameIds
        (follow (keys active) (outputs true m p active current))
        (keys (new_active p active current))
unfolding outputs
follow-outputs m p active current va vc x =
    ap (has x) (
      follow-append (keys active)
        (trends_at (sorted_difference (keys current) (ids_of_partition p active)) current) _)
    ∙ (follow-cancellations m (sorted_difference (ids_of_partition p active) (keys current)) active
          (follow (keys active)
            (trends_at (sorted_difference (keys current) (ids_of_partition p active)) current))
          va old_keys x
        ∙ rw
            (
              follow-trends_at (sorted_difference (keys current) (ids_of_partition p active))
                  current (keys active) vc new_keys x,
              has-sorted_difference x (keys current) (ids_of_partition p active),
              has-sorted_difference x (ids_of_partition p active) (keys current),
              has-keys-new_active x p active current,
            )
            (by_tests (has x (ids_of_partition p active)) (has x (keys current))
              (has x (keys active)) (has-ids_of_partition x p active)))
  where
    new_keys : AreKeys (sorted_difference (keys current) (ids_of_partition p active)) current
    new_keys y h =
        let e = has-sorted_difference y (keys current) (ids_of_partition p active) in ground arith

    old_keys : AreKeys (sorted_difference (ids_of_partition p active) (keys current)) active
    old_keys y h =
        let e = has-sorted_difference y (ids_of_partition p active) (keys current) in
        has-ids_of_partition y p active (ground arith)

    by_tests :
        (was is_now held : Bool)
        → (was ≡ true → held ≡ true)
        → (not (was && not is_now) && ((is_now && not was) || held)) ≡ (is_now || (not was && held))
    by_tests true true held h = rw (h refl)
    by_tests true false held h = refl
    by_tests false true held h = refl
    by_tests false false held h = refl
