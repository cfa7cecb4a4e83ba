-- ===== src/Standing/Match/Bound.antt =====
-- The limit of `_match_query_paths`: the search returns the first `limit` paths of the full search.
use x_dsi_cet.Base.{
  ℕ, suc, ◌≤◌, ◌≡◌, sym, ap, inl, inr, Bool, true, false, Option, none, some, List, [], ◌∷◌, ◌++◌,
  append-nil, append_assoc, arith, leb, if◌then◌else◌, Bool-cases, length, length-append, take,
  length-take-le, take_of_length-le, take-append-take, take-append-full,
}
use mathlib.Core.Path.{◌≡⟨◌⟩◌, ◌∎}
use x_dsi_cet.Base.Int.{ℤ}
use x_dsi_cet.Base.Sort.{sort}
use x_dsi_cet.Value.{Event, time_of}
use x_dsi_cet.Dsl.Syntax.{EventStep, optional}
use x_dsi_cet.Standing.Match.{
  EventPath, event_le, admits, max_reps, start_or, append_path, consume, consume_loop, rec,
  match_query_paths,
}
use x_dsi_cet.Standing.Match.Paths.{path_alone, consumed, looped, all_paths}

-- A search adds the listed paths to `out`, as far as the limit allows.
abbrev Adds : ℕ → (List EventPath → List EventPath) → List EventPath → Type 0
Adds limit f paths = (out : List EventPath) → length out ≤ limit → f out ≡ take limit (out ++ paths)

module _ (limit : ℕ) where
  Adds-nothing : Adds limit (λ out. out) []
  Adds-nothing out h = sym (rw append-nil (take_of_length-le limit out h))

  Adds-then :
      (f g : List EventPath → List EventPath) (xs ys : List EventPath)
      → Adds limit f xs
      → Adds limit g ys
      → Adds limit (λ out. g (f out)) (xs ++ ys)
  Adds-then f g xs ys hf hg out h =
      g (f out)
      ≡⟨ ap g (hf out h) ⟩ g (take limit (out ++ xs))
      ≡⟨ hg (take limit (out ++ xs)) (length-take-le limit (out ++ xs)) ⟩
        take limit (take limit (out ++ xs) ++ ys)
      ≡⟨ take-append-take limit (out ++ xs) ys ⟩ take limit ((out ++ xs) ++ ys)
      ≡⟨ ap (take limit) (append_assoc out xs ys) ⟩ take limit (out ++ (xs ++ ys)) ∎

  Adds-if :
      (b : Bool) (f : List EventPath → List EventPath) (xs : List EventPath)
      → Adds limit f xs
      → Adds limit (λ out. if b then f out else out) (if b then xs else [])
  Adds-if true f xs h = h
  Adds-if false f xs h = Adds-nothing

  Adds-unless :
      (b : Bool) (f : List EventPath → List EventPath) (xs : List EventPath)
      → Adds limit f xs
      → Adds limit (λ out. if b then out else f out) (if b then [] else xs)
  Adds-unless true f xs h = Adds-nothing
  Adds-unless false f xs h = h

  -- The early return at the head of both nested functions.
  Adds-guard :
      (f : List EventPath → List EventPath) (xs : List EventPath)
      → Adds limit f xs
      → Adds limit (λ out. if leb limit (length out) then out else f out) xs
  Adds-guard f xs h out k = elim (Bool-cases (leb limit (length out))) [
    | inl full ↦ rw full (sym (take-append-full limit out xs (ground arith)))
    | inr more ↦ rw more (h out k)
  ]

  Adds-path :
      (path : EventPath)
      → Adds limit
          (λ out. if leb limit (length out) then out else append_path path out)
          (path_alone path)
  Adds-path [] out h = elim (Bool-cases (leb limit (length out))) [
    | inl full ↦ rw full (Adds-nothing out h)
    | inr more ↦ rw more (Adds-nothing out h)
  ]
  Adds-path (e ∷ es) out h = elim (Bool-cases (leb limit (length out))) [
    | inl full ↦ rw full (sym (take-append-full limit out _ (ground arith)))
    | inr more ↦
        rw more
          (sym (take_of_length-le limit _ (ground (arith, length-append out ((e ∷ es) ∷ [])))))
  ]

module _ (within : ℤ) (limit : ℕ) where
  consume-Adds :
      (next : EventPath → EventPath → Option ℤ → List EventPath → List EventPath)
      (next_paths : EventPath → EventPath → Option ℤ → List EventPath)
      → ((rest path : EventPath) (start : Option ℤ)
          → Adds limit (next rest path start) (next_paths rest path start))
      → (step : EventStep) (most : ℕ) (rest : EventPath)
        (loop : ℕ → EventPath → Option ℤ → List EventPath → List EventPath)
        (loop_paths : ℕ → EventPath → Option ℤ → List EventPath)
      → ((reps : ℕ) (path : EventPath) (start : Option ℤ)
          → Adds limit (loop reps path start) (loop_paths reps path start))
      → (reps : ℕ) (path : EventPath) (start : Option ℤ)
      → Adds limit
          (consume within limit next step most rest loop reps path start)
          (consumed within next_paths step most rest loop_paths reps path start)
  unfolding consume consumed
  consume-Adds next np hn step most rest loop lp hl reps path start = Adds-guard limit _ _ (
      Adds-then limit _ _ _ _ (Adds-if limit (leb step.min_repeats reps) _ _ (hn rest path start))
        (Adds-unless limit (leb most reps) _ _ (hl reps path start)))

  consume_loop-Adds :
      (next : EventPath → EventPath → Option ℤ → List EventPath → List EventPath)
      (next_paths : EventPath → EventPath → Option ℤ → List EventPath)
      → ((rest path : EventPath) (start : Option ℤ)
          → Adds limit (next rest path start) (next_paths rest path start))
      → (step : EventStep) (most : ℕ) (rest : EventPath) (reps : ℕ) (path : EventPath)
        (start : Option ℤ)
      → Adds limit
          (consume_loop within limit next step most rest reps path start)
          (looped within next_paths step most rest reps path start)
  unfolding consume_loop looped
  consume_loop-Adds next np hn step most [] reps path start = Adds-nothing limit
  consume_loop-Adds next np hn step most (e ∷ rest) reps path start =
      Adds-then limit _ _ _ _
        (Adds-if limit (admits within step path start e) _ _ (
          consume-Adds next np hn step most rest _ _ (consume_loop-Adds next np hn step most rest)
            (suc reps) (path ++ e ∷ []) (some (start_or start (time_of e)))))
        (consume_loop-Adds next np hn step most rest reps path start)

  rec-Adds :
      (steps : List EventStep) (rest path : EventPath) (start : Option ℤ)
      → Adds limit (rec within limit steps rest path start) (all_paths within steps rest path start)
  unfolding rec all_paths
  rec-Adds [] rest path start = Adds-path limit path
  rec-Adds (step ∷ steps) rest path start = Adds-guard limit _ _ (
      Adds-then limit _ _ _ _ (Adds-if limit (optional step) _ _ (rec-Adds steps rest path start)) (
        consume-Adds _ _ (rec-Adds steps) step (max_reps step rest) rest _ _
          (consume_loop-Adds _ _ (rec-Adds steps) step (max_reps step rest) rest) 0 path start))

-- The search with a limit returns the first `limit` paths of the search without one.
pub match_query_paths-eq-take :
    (steps : List EventStep) (within : ℤ) (events : List Event) (limit : ℕ)
    → match_query_paths steps within events limit
      ≡ take limit (all_paths within steps (sort event_le events) [] none)
unfolding match_query_paths
match_query_paths-eq-take steps within events limit =
    rec-Adds within limit steps (sort event_le events) [] none [] (omega arith)
