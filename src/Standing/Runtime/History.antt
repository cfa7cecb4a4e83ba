-- ===== src/Standing/Runtime/History.antt =====
-- Sequences of calls of `process_event` and `remove_event`.
use x_dsi_cet.Base.{
  ◌≡◌, refl, sym, ap, ◌∙◌, inl, inr, true, Option, none, some, List, [], ◌∷◌, ◌++◌, Bool-cases,
}
use mathlib.Core.Path.{subst}
use x_dsi_cet.Base.Int.{ℤ}
use x_dsi_cet.Base.Text.{Text, is_empty}
use x_dsi_cet.Base.Dict.{DistinctKeys, Dict, text_key, keys, has}
use x_dsi_cet.Base.Result.{Result, ok, raise}
use x_dsi_cet.Value.{Event}
use x_dsi_cet.Platform.{Platform}
use x_dsi_cet.Registry.{enabled}
use x_dsi_cet.Standing.Graph.{GraphMutation, events_for_partition}
use x_dsi_cet.Standing.Graph.Operations.{upsert_event, remove_event}
use x_dsi_cet.Standing.Runtime.{
  reevaluate_if, Runtime, TrendEvent, window_events, current_trends, outputs, new_active, emit_to,
  reevaluate_partition, process_event, remove_from,
}
use x_dsi_cet.Standing.Runtime.Active.{
  new_active-DistinctKeys, ById, new_active-ById, current_trends-ById,
}
use x_dsi_cet.Standing.Runtime.Stream.{
  follow, follow-append, SameIds, follow-SameIds, follow-outputs,
}

-- What a call emits: an exception emits nothing.
abbrev pub emitted : Result (List TrendEvent) → List TrendEvent
emitted (ok out) = out
emitted (raise e) = []

-- The runtime emits cancellations, and its active trends stand under their ids.
pub record IsTracking (rt : Runtime) : Type 0 where
  pub cancels : rt.options.emit_cancellations ≡ true
  pub distinct : DistinctKeys rt.active
  pub by_id : ById rt.active

-- What a call does to the table and to the stream.
record Follows (active : Dict Text TrendEvent) (r : Runtime × Result (List TrendEvent))
    : Type 0 where
  tracking : IsTracking r.0
  same : SameIds (follow (keys active) (emitted r.1)) (keys r.0.active)

module _ (p : Platform) where
  reevaluate-Follows :
      (rt : Runtime) (partition : Text) (m : GraphMutation)
      → IsTracking rt
      → Follows rt.active (reevaluate_partition p rt partition m)
  unfolding reevaluate_partition follow
  reevaluate-Follows rt partition m t = by_result current refl
    where
      events : List Event
      events =
          window_events rt.options.max_window_events_per_partition
            (events_for_partition rt.state.events rt.state.by_partition partition)

      current : Result (Dict Text TrendEvent)
      current = current_trends p rt (enabled rt.registry) partition events m.revision []

      by_result :
          (r : Result (Dict Text TrendEvent))
          → current ≡ r
          → Follows rt.active (elim r [
            | raise e ↦ (rt, raise e)
            | ok c ↦ (
              record rt {
                active = new_active partition rt.active c;
                sinks =
                    emit_to
                      (outputs rt.options.emit_cancellations m partition rt.active c)
                      rt.sinks;
              },
              ok (outputs rt.options.emit_cancellations m partition rt.active c),
            )
          ])
      by_result (raise e) q = record { tracking = t; same = λ x. refl }
      by_result (ok c) q =
          let found =
            current_trends-ById p rt (enabled rt.registry) partition events m.revision [] c q tt in
          record {
            tracking = record {
              cancels = t.cancels;
              distinct = new_active-DistinctKeys partition rt.active c t.distinct;
              by_id = new_active-ById partition rt.active c t.by_id found;
            };
            same = λ x.
                ap (λ b. has x (follow (keys rt.active) (outputs b m partition rt.active c)))
                  t.cancels
                ∙ follow-outputs m partition rt.active c t.by_id found x;
          }

  process-Follows :
      (now : ℤ) (rt : Runtime) (event : Event)
      → IsTracking rt
      → Follows rt.active (process_event p now rt event)
  unfolding process_event
  process-Follows now rt event t =
      reevaluate-Follows (record rt { state = (upsert_event now rt.state event).0 }) _
        (upsert_event now rt.state event).1
        (record { cancels = t.cancels; distinct = t.distinct; by_id = t.by_id })

  reevaluate_if-Follows :
      (k : Option Text) (rt : Runtime) (m : GraphMutation)
      → IsTracking rt
      → Follows rt.active (reevaluate_if p k rt m)
  unfolding follow
  reevaluate_if-Follows none rt m t = record { tracking = t; same = λ x. refl }
  reevaluate_if-Follows (some k) rt m t = elim (Bool-cases (is_empty k)) [
    | inl y ↦ rw y (record { tracking = t; same = λ x. refl })
    | inr n ↦ rw n (reevaluate-Follows rt k m t)
  ]

  remove-Follows :
      (now : ℤ) (rt : Runtime) (i : ℤ) → IsTracking rt → Follows rt.active (remove_from p now rt i)
  unfolding remove_from
  remove-Follows now rt i t =
      reevaluate_if-Follows _ (record rt { state = (remove_event now rt.state i).0 })
        (remove_event now rt.state i).1
        (record { cancels = t.cancels; distinct = t.distinct; by_id = t.by_id })

-- A call of the runtime, with the time of its mutation.
pub data Call : Type 0 where
  process : ℤ → Event → Call
  forget : ℤ → ℤ → Call

unfoldable pub call : Platform → Runtime → Call → Runtime × Result (List TrendEvent)
unfolding process_event remove_from
call p rt (process now event) = process_event p now rt event
call p rt (forget now i) = remove_from p now rt i

-- The runtime after some calls, and all that it emitted. A caller goes on after an exception.
unfoldable pub run : Platform → Runtime → List Call → Runtime × List TrendEvent
unfolding call
run p rt [] = (rt, [])
run p rt (c ∷ calls) =
    let first = call p rt c in let rest = run p first.0 calls in (rest.0, emitted first.1 ++ rest.1)

module _ (p : Platform) where
  call-Follows : (rt : Runtime) (c : Call) → IsTracking rt → Follows rt.active (call p rt c)
  unfolding call
  call-Follows rt (process now event) t = process-Follows p now rt event t
  call-Follows rt (forget now i) t = remove-Follows p now rt i t

  run-SameIds :
      (calls : List Call) (rt : Runtime)
      → IsTracking rt
      → SameIds (follow (keys rt.active) (run p rt calls).1) (keys (run p rt calls).0.active)
  unfolding run follow
  run-SameIds [] rt t x = refl
  run-SameIds (c ∷ calls) rt t x =
      let f = call-Follows rt c t in
      ap (has x)
        (follow-append (keys rt.active) (emitted (call p rt c).1) (run p (call p rt c).0 calls).1)
      ∙ follow-SameIds (run p (call p rt c).0 calls).1 _ _ f.same x
      ∙ run-SameIds calls (call p rt c).0 f.tracking x

  -- For every sequence of calls of `process_event` and `remove_event` on a runtime that emits
  -- cancellations and has no active trend yet, also where evaluations raise: a consumer that
  -- notes each positive match and drops each cancelled one holds an id at the end exactly if a
  -- trend with that id is active.
  pub run-follow :
      (calls : List Call) (rt : Runtime) (id : Text)
      → rt.options.emit_cancellations ≡ true
      → rt.active ≡ []
      → has id (follow [] (run p rt calls).1) ≡ has id (keys (run p rt calls).0.active)
  unfolding keys
  run-follow calls rt id cancels fresh =
      ap (λ (d : Dict Text TrendEvent). has id (follow (keys d) (run p rt calls).1)) (sym fresh)
      ∙ run-SameIds calls rt
          (record {
            cancels = cancels;
            distinct = subst DistinctKeys (sym fresh) tt;
            by_id = subst ById (sym fresh) tt;
          })
          id
