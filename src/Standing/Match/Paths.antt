-- ===== src/Standing/Match/Paths.antt =====
-- All the paths that the search of `_match_query_paths` goes through, with no limit on their number.
use x_dsi_cet.Base.{ℕ, suc, Option, some, List, [], ◌∷◌, ◌++◌, leb, if◌then◌else◌}
use x_dsi_cet.Base.Int.{ℤ}
use x_dsi_cet.Value.{time_of}
use x_dsi_cet.Dsl.Syntax.{EventStep, optional}
use x_dsi_cet.Standing.Match.{EventPath, admits, max_reps, start_or}

abbrev pub path_alone : EventPath → List EventPath
path_alone [] = []
path_alone (e ∷ es) = (e ∷ es) ∷ []

module _ (within : ℤ) where
  abbrev pub Paths : Type 0
  Paths = ℕ → EventPath → Option ℤ → List EventPath

  abbrev pub Next : Type 0
  Next = EventPath → EventPath → Option ℤ → List EventPath

  unfoldable pub consumed : Next → EventStep → ℕ → EventPath → Paths → Paths
  consumed next step most rest loop reps path start =
      (if leb step.min_repeats reps then next rest path start else [])
      ++ (if leb most reps then [] else loop reps path start)

  unfoldable pub looped : Next → EventStep → ℕ → EventPath → Paths
  unfolding consumed
  looped next step most [] reps path start = []
  looped next step most (e ∷ rest) reps path start =
      (if admits within step path start e
        then consumed next step most rest (looped next step most rest) (suc reps) (path ++ e ∷ [])
            (some (start_or start (time_of e)))
        else [])
      ++ looped next step most rest reps path start

  unfoldable pub all_paths : List EventStep → Next
  unfolding looped consumed
  all_paths [] rest path start = path_alone path
  all_paths (step ∷ steps) rest path start =
      (if optional step then all_paths steps rest path start else [])
      ++ consumed (all_paths steps) step (max_reps step rest) rest
          (looped (all_paths steps) step (max_reps step rest) rest) 0 path start
