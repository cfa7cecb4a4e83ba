-- ===== src/Tests/Matching.antt =====
-- Tests of `_match_query_paths`.
use x_dsi_cet.Base.{◌≡◌, refl, inl, none, [], ◌∷◌, arith, take, In}
use x_dsi_cet.Base.Int.{pos, ◌-ℤ◌}
use x_dsi_cet.Base.Text.{codes, text_eq}
use x_dsi_cet.Base.Sort.{sort}
use x_dsi_cet.Standing.Match.{event_le, match_query_paths}
use x_dsi_cet.Standing.Match.Paths.{all_paths}
use x_dsi_cet.Standing.Match.Shape.{IsMatch}
use x_dsi_cet.Standing.Match.Bound.{match_query_paths-eq-take}
use x_dsi_cet.Standing.Match.Sound.{match_query_paths-IsMatch}
use x_dsi_cet.Standing.Match.Complete.{IsMatch-match_query_paths}
use x_dsi_cet.Tests.Samples.{login, command, step, steps}

finds_pair :
    match_query_paths steps (pos 1000) (command ∷ login ∷ []) 5 ≡ (login ∷ command ∷ []) ∷ []
unfolding match_query_paths text_eq ◌-ℤ◌
finds_pair = refl

outside_window : match_query_paths steps (pos 99) (command ∷ login ∷ []) 5 ≡ []
unfolding match_query_paths text_eq ◌-ℤ◌
outside_window = refl

-- An optional step is left out twice: once in `rec`, once by no repeat in `consume_repeats`.
optional_repeated :
    match_query_paths
      (record (step (codes "exec")) { min_repeats = 0 } ∷ step (codes "login") ∷ [])
      (pos 1000)
      (login ∷ [])
      5
    ≡ (login ∷ []) ∷ (login ∷ []) ∷ []
unfolding match_query_paths text_eq ◌-ℤ◌
optional_repeated = refl

match_query_paths-IsMatch_example :
    IsMatch steps (pos 1000) (command ∷ login ∷ []) (login ∷ command ∷ [])
unfolding match_query_paths text_eq ◌-ℤ◌
match_query_paths-IsMatch_example =
    match_query_paths-IsMatch steps (pos 1000) (command ∷ login ∷ []) 5 (login ∷ command ∷ [])
      (inl refl)

IsMatch-match_query_paths_example :
    In (login ∷ command ∷ []) (match_query_paths steps (pos 1000) (command ∷ login ∷ []) 5)
unfolding match_query_paths text_eq ◌-ℤ◌
IsMatch-match_query_paths_example =
    IsMatch-match_query_paths steps (pos 1000) (command ∷ login ∷ []) 5 (login ∷ command ∷ [])
      (omega arith)
      (match_query_paths-IsMatch steps (pos 1000) (command ∷ login ∷ []) 5 (login ∷ command ∷ [])
        (inl refl))

match_query_paths-eq-take_example :
    match_query_paths steps (pos 1000) (command ∷ login ∷ []) 1
    ≡ take 1 (all_paths (pos 1000) steps (sort event_le (command ∷ login ∷ [])) [] none)
match_query_paths-eq-take_example =
    match_query_paths-eq-take steps (pos 1000) (command ∷ login ∷ []) 1
