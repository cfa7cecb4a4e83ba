-- ===== src/Standing/Match/Complete.antt =====
-- Every match is found by the search of `_match_query_paths`, unless its limit stops it.
use x_dsi_cet.Base.{
  ℕ, zero, suc, ◌+◌, ◌≤◌, ◌<◌, ◌≡◌, ◌≢◌, refl, ap, ◌∙◌, inl, inr, Bool, true, false, Option, none,
  some, List, [], ◌∷◌, ◌++◌, append-nil, append_assoc, arith, leb, ltb, if◌then◌else◌, length,
  length-append, take, In, In-append_left, In-append_right, All, IsSubsequence,
}
use x_dsi_cet.Base.Int.{ℤ}
use x_dsi_cet.Base.Sort.{sort}
use x_dsi_cet.Value.{Event, time_of}
use x_dsi_cet.Dsl.Syntax.{EventStep, optional}
use x_dsi_cet.Dsl.Validate.{has_id}
use x_dsi_cet.Standing.Match.{
  EventPath, event_le, step_matches, admits, max_reps, start_or, match_query_paths,
}
use x_dsi_cet.Standing.Match.Paths.{path_alone, consumed, looped, all_paths}
use x_dsi_cet.Standing.Match.Bound.{match_query_paths-eq-take}
use x_dsi_cet.Standing.Match.Shape.{
  AtMost, Fits, InWindow, Windowed, IsMatch, Chain, Windowed-Chain, IsSubsequence-length,
  IsSubsequence-cons_nil, IsSubsequence-cons_cases,
}

admits-intro :
    (within : ℤ) (step : EventStep) (path : EventPath) (start : Option ℤ) (e : Event)
    → step_matches step e ≡ true
    → InWindow within (start_or start (time_of e)) e
    → has_id e.event_id path ≡ false
    → admits within step path start e ≡ true
unfolding admits
admits-intro within step path start e t w n = ground arith

In-if_true :
    (p : EventPath) (b : Bool) (xs : List EventPath)
    → b ≡ true
    → In p xs
    → In p (if b then xs else [])
In-if_true p b xs t h = rw t h

In-if_false :
    (p : EventPath) (b : Bool) (xs : List EventPath)
    → b ≡ false
    → In p xs
    → In p (if b then [] else xs)
In-if_false p b xs f h = rw f h

abbrev Finds : ℤ → List EventStep → (EventPath → EventPath → Option ℤ → List EventPath) → Type 0
Finds within steps next =
    (rest path : EventPath) (start : Option ℤ) (tail : EventPath)
    → IsSubsequence tail rest
    → Fits steps tail
    → Chain within path start tail
    → path ++ tail ≢ []
    → In (path ++ tail) (next rest path start)

module _ (within : ℤ) (step : EventStep) (steps : List EventStep) (most : ℕ)
    (next : EventPath → EventPath → Option ℤ → List EventPath) (finds : Finds within steps next)
    (tail : EventPath) (fits : Fits steps tail) where
  abbrev FindsRest : EventPath → (ℕ → EventPath → Option ℤ → List EventPath) → EventPath → Type 0
  FindsRest rest f seg =
      (reps : ℕ) (path : EventPath) (start : Option ℤ)
      → IsSubsequence (seg ++ tail) rest
      → All (λ e. step_matches step e ≡ true) seg
      → step.min_repeats ≤ reps + length seg
      → reps + length seg ≤ most
      → Chain within path start (seg ++ tail)
      → path ++ (seg ++ tail) ≢ []
      → In (path ++ (seg ++ tail)) (f reps path start)

  consumed-In :
      (rest : EventPath) (loop : ℕ → EventPath → Option ℤ → List EventPath)
      → ((e : Event) (seg : EventPath) → FindsRest rest loop (e ∷ seg))
      → (seg : EventPath) → FindsRest rest (consumed within next step most rest loop) seg
  unfolding consumed
  consumed-In rest loop hl [] reps path start s t enough few c n = In-append_left _ _ _ (
      In-if_true _ (leb step.min_repeats reps) _ (ground arith)
        (finds rest path start tail s fits c n))
  consumed-In rest loop hl (e ∷ seg) reps path start s t enough few c n =
      In-append_right _ (if leb step.min_repeats reps then next rest path start else []) _ (
        In-if_false _ (leb most reps) _ (ground arith)
          (hl e seg reps path start s t enough few c n))

  looped-In :
      (rest : EventPath) (e : Event) (seg : EventPath)
      → FindsRest rest (looped within next step most rest) (e ∷ seg)
  unfolding looped
  looped-In [] e seg reps path start s t enough few c n = absurd (IsSubsequence-cons_nil s)
  looped-In (y ∷ rest) e seg reps path start s t enough few c n =
      elim (IsSubsequence-cons_cases s) [
        | inl later ↦
            In-append_right _ (if admits within step path start y then _ else []) _
              (looped-In rest e seg reps path start later t enough few c n)
        | inr (same, later) ↦ rw (← same) (
            In-append_left _ _ _ (
              In-if_true _ (admits within step path start e) _
                (admits-intro within step path start e t.0 c.0 c.1)
                (rw (← append_assoc path (e ∷ []) (seg ++ tail)) (
                  consumed-In rest (looped within next step most rest) (looped-In rest) seg
                    (suc reps) (path ++ e ∷ []) (some (start_or start (time_of e))) later t.1
                    (omega arith) (omega arith) c.2
                    (rw (append_assoc path (e ∷ []) (seg ++ tail)) n)))))
      ]

le-max_reps :
    (step : EventStep) (rest : EventPath) (n : ℕ)
    → AtMost step.max_repeats n
    → n ≤ length rest
    → n ≤ max_reps step rest
unfolding max_reps
le-max_reps step rest n a h = at_most step.max_repeats a
  where
    at_most :
        (m : Option ℕ)
        → AtMost m n
        → n ≤ elim m [ some m ↦ m | none ↦ if ltb (length rest) 1 then 1 else length rest ]
    at_most none a = ground arith
    at_most (some m) a = a

In-path_alone : (path : EventPath) → path ≢ [] → In path (path_alone path)
In-path_alone [] n = absurd (n refl)
In-path_alone (e ∷ es) n = inl refl

module _ (within : ℤ) where
  all_paths-Finds : (steps : List EventStep) → Finds within steps (all_paths within steps)
  unfolding all_paths
  all_paths-Finds [] rest path start tail s fits c n =
      rw (ap (◌++◌ path) fits ∙ append-nil path)
        (In-path_alone path (λ e. n (ap (◌++◌ path) fits ∙ append-nil path ∙ e)))
  all_paths-Finds (step ∷ steps) rest path start tail s fits c n =
      let (seg, later, whole, typed, enough, few, fits') = fits in
      let s' : IsSubsequence (seg ++ later) rest = rw whole at s in
      let size : length seg ≤ length rest =
        omega (arith, IsSubsequence-length s', length-append seg later) in
      rw whole (
        In-append_right _ (if optional step then all_paths within steps rest path start else []) _ (
          consumed-In within step steps (max_reps step rest) (all_paths within steps)
            (all_paths-Finds steps) later fits' rest
            (looped within (all_paths within steps) step (max_reps step rest) rest)
            (looped-In within step steps (max_reps step rest) (all_paths within steps)
              (all_paths-Finds steps) later fits' rest)
            seg 0 path start s' typed (omega arith)
            (omega (arith, le-max_reps step rest (length seg) few size)) (rw whole at c)
            (rw whole at n)))

Windowed-ne_nil : (within : ℤ) (p : EventPath) → Windowed within p → p ≢ []
Windowed-ne_nil within [] w e = w
Windowed-ne_nil within (x ∷ p) w e = cc

take-short : (limit : ℕ) (xs : List EventPath) → length (take limit xs) < limit → take limit xs ≡ xs
take-short zero xs h = elim h [ ]
take-short (suc n) [] h = refl
take-short (suc n) (x ∷ xs) h = ap (◌∷◌ x) (take-short n xs (omega arith))

-- If the search returns fewer paths than its limit, every match is among them.
pub IsMatch-match_query_paths :
    (steps : List EventStep) (within : ℤ) (events : List Event) (limit : ℕ) (p : EventPath)
    → length (match_query_paths steps within events limit) < limit
    → IsMatch steps within events p
    → In p (match_query_paths steps within events limit)
IsMatch-match_query_paths steps within events limit p short m =
    let all = all_paths within steps (sort event_le events) [] none in
    let few = match_query_paths-eq-take steps within events limit in
    rw (few ∙ take-short limit all (rw few at short)) (
      all_paths-Finds within steps (sort event_le events) [] none p m.picked m.fits
        (Windowed-Chain within p m.window m.distinct) (Windowed-ne_nil within p m.window))
