-- ===== src/Standing/Match.antt =====
-- `_step_matches` and `_match_query_paths` of bindings/python/standing/runtime.py. A position in the
-- sorted events is the list of the events from there on. The list `out` that the nested functions
-- share is passed along and returned.
pub mod Paths
pub mod Bound
pub mod Shape
pub mod Sound
pub mod Complete
use x_dsi_cet.Base.{
  ℕ, zero, suc, ◌+◌, Bool, true, false, not, ◌&&◌, ◌||◌, Option, none, some, List, [], ◌∷◌, ◌++◌,
  ltb, leb, if◌then◌else◌, any, length,
}
use x_dsi_cet.Base.Int.{ℤ, ◌-ℤ◌, leb_ℤ, ltb_ℤ, eqb_ℤ}
use x_dsi_cet.Base.Text.{Text}
use x_dsi_cet.Base.Sort.{sort}
use x_dsi_cet.Value.{Event, type_text, time_of}
use x_dsi_cet.Dsl.Syntax.{EventStep, optional}
use x_dsi_cet.Dsl.Predicate.{one_of}
use x_dsi_cet.Dsl.Validate.{has_id}

abbrev pub EventPath : Type 0
EventPath = List Event

-- The key `(_event_time(e), _event_id(e))` that events are sorted by.
unfoldable pub event_le : Event → Event → Bool
unfolding time_of
event_le a b =
    ltb_ℤ (time_of a) (time_of b) || (eqb_ℤ (time_of a) (time_of b) && leb_ℤ a.event_id b.event_id)

unfoldable pub step_matches : EventStep → Event → Bool
unfolding one_of type_text
step_matches step e = one_of (type_text e) step.aliases

abbrev pub start_or : Option ℤ → ℤ → ℤ
start_or none t = t
start_or (some s) t = s

-- The tests by which the loop skips an event.
unfoldable pub admits : ℤ → EventStep → EventPath → Option ℤ → Event → Bool
unfolding step_matches time_of has_id
admits within step path start e =
    let effective_start = start_or start (time_of e) in
    step_matches step e
    && not (ltb_ℤ (time_of e) effective_start)
    && not (ltb_ℤ within (time_of e -ℤ effective_start))
    && not (has_id e.event_id path)

-- `step.max_repeats`, or `max(1, len(events) - start_pos)` if that is None.
unfoldable pub max_reps : EventStep → EventPath → ℕ
max_reps step rest = elim step.max_repeats [
  | some m ↦ m
  | none ↦ if ltb (length rest) 1 then 1 else length rest
]

abbrev pub append_path : EventPath → List EventPath → List EventPath
append_path [] out = out
append_path (e ∷ es) out = out ++ (e ∷ es) ∷ []

module _ (within : ℤ) (limit : ℕ) where
  -- A function of the repeats done, the path, its start time and `out`.
  abbrev Search : Type 0
  Search = ℕ → EventPath → Option ℤ → List EventPath → List EventPath

  -- What a search that goes on with the next step is given.
  abbrev Continue : Type 0
  Continue = EventPath → EventPath → Option ℤ → List EventPath → List EventPath

  -- `consume_repeats` up to its loop, which is `loop`.
  unfoldable pub consume : Continue → EventStep → ℕ → EventPath → Search → Search
  consume next step most rest loop reps path start out =
      if leb limit (length out)
      then out
      else (let out' = if leb step.min_repeats reps then next rest path start out else out in
          if leb most reps then out' else loop reps path start out')

  -- `for i in range(pos, len(events))`.
  unfoldable pub consume_loop : Continue → EventStep → ℕ → EventPath → Search
  unfolding consume admits
  consume_loop next step most [] reps path start out = out
  consume_loop next step most (e ∷ rest) reps path start out =
      let loop = consume_loop next step most rest in
      loop reps path start (
        if admits within step path start e
        then consume next step most rest loop (suc reps) (path ++ e ∷ [])
            (some (start_or start (time_of e))) out
        else out)

  -- `rec`.
  unfoldable pub rec : List EventStep → Continue
  unfolding consume_loop consume max_reps optional
  rec [] rest path start out = if leb limit (length out) then out else append_path path out
  rec (step ∷ steps) rest path start out =
      if leb limit (length out)
      then out
      else (let next = rec steps in
          let most = max_reps step rest in
          consume next step most rest (consume_loop next step most rest) 0 path start
            (if optional step then next rest path start out else out))

unfoldable pub match_query_paths : List EventStep → ℤ → List Event → ℕ → List EventPath
unfolding rec event_le sort
match_query_paths steps within events limit =
    rec within limit steps (sort event_le events) [] none []
