-- ===== src/Standing/Match/Shape.antt =====
-- What a match of a query is, apart from how it is searched for.
use x_dsi_cet.Base.{
  ℕ, ◌≤◌, ◌≡◌, refl, ◌⊎◌, inl, inr, true, false, ◌||◌, Option, none, some, List, [], ◌∷◌, ◌++◌,
  arith, length, All, IsSubsequence, nil, skip, pick,
}
use x_dsi_cet.Base.Int.{ℤ, ◌≤ℤ◌, ◌-ℤ◌}
use x_dsi_cet.Base.Sort.{sort}
use x_dsi_cet.Value.{Event, time_of}
use x_dsi_cet.Dsl.Syntax.{EventStep}
use x_dsi_cet.Dsl.Validate.{has_id}
use x_dsi_cet.Standing.Match.{EventPath, event_le, step_matches, start_or}

abbrev pub AtMost : Option ℕ → ℕ → Type 0
AtMost none n = Unit
AtMost (some m) n = n ≤ m

-- The path is cut into one segment for each step, of as many events of its types as it repeats.
abbrev pub Fits : List EventStep → EventPath → Type 0
Fits [] path = path ≡ []
Fits (step ∷ steps) path =
    (seg : EventPath) × (tail : EventPath) × (path ≡ seg ++ tail)
    × All (λ e. step_matches step e ≡ true) seg
    × (step.min_repeats ≤ length seg)
    × AtMost step.max_repeats (length seg)
    × Fits steps tail

abbrev pub InWindow : ℤ → ℤ → Event → Type 0
InWindow within start e = (start ≤ℤ time_of e) × (time_of e -ℤ start ≤ℤ within)

-- A path with an event, none earlier than the first or later than the window allows.
abbrev pub Windowed : ℤ → EventPath → Type 0
Windowed within [] = ⊥
Windowed within (e ∷ es) = All (InWindow within (time_of e)) (e ∷ es)

abbrev pub DistinctIds : EventPath → Type 0
DistinctIds [] = Unit
DistinctIds (e ∷ es) = (has_id e.event_id es ≡ false) × DistinctIds es

pub record IsMatch (steps : List EventStep) (within : ℤ) (events : List Event) (path : EventPath)
    : Type 0 where
  pub picked : IsSubsequence path (sort event_le events)
  pub fits : Fits steps path
  pub window : Windowed within path
  pub distinct : DistinctIds path

-- The same of what follows a path that is already found, as the search meets it.
abbrev pub Chain : ℤ → EventPath → Option ℤ → EventPath → Type 0
Chain within path start [] = Unit
Chain within path start (e ∷ es) =
    InWindow within (start_or start (time_of e)) e
    × (has_id e.event_id path ≡ false)
    × Chain within (path ++ e ∷ []) (some (start_or start (time_of e))) es

module _ (i : ℤ) where
  pub has_id-append : (xs ys : List Event) → has_id i (xs ++ ys) ≡ (has_id i xs || has_id i ys)
  unfolding has_id
  has_id-append [] ys = refl
  has_id-append (x ∷ xs) ys = ground (arith, has_id-append xs ys)

abbrev pub AllNew : EventPath → EventPath → Type 0
AllNew path es = All (λ e. has_id e.event_id path ≡ false) es

AllNew-append :
    (path : EventPath) (e : Event) (es : EventPath)
    → AllNew (path ++ e ∷ []) es
    → AllNew path es × (has_id e.event_id es ≡ false)
unfolding has_id
AllNew-append path e [] h = (tt, refl)
AllNew-append path e (x ∷ es) h =
    let (new, apart) = AllNew-append path e es h.1 in
    (
      (ground (arith, has_id-append x.event_id path (e ∷ [])), new),
      ground (arith, has_id-append x.event_id path (e ∷ [])),
    )

append-AllNew :
    (path : EventPath) (e : Event) (es : EventPath)
    → AllNew path es
    → has_id e.event_id es ≡ false
    → AllNew (path ++ e ∷ []) es
unfolding has_id
append-AllNew path e [] h k = tt
append-AllNew path e (x ∷ es) h k = (
  ground (arith, has_id-append x.event_id path (e ∷ [])),
  append-AllNew path e es h.1 (ground arith),
)

Chain-new :
    (within : ℤ) (path : EventPath) (start : Option ℤ) (es : EventPath)
    → Chain within path start es
    → AllNew path es × DistinctIds es
Chain-new within path start [] c = (tt, tt)
Chain-new within path start (e ∷ es) c =
    let (new, distinct) = Chain-new within (path ++ e ∷ []) _ es c.2 in
    let (old, apart) = AllNew-append path e es new in ((c.1, old), (apart, distinct))

Chain-window :
    (within s : ℤ) (path es : EventPath)
    → Chain within path (some s) es
    → All (InWindow within s) es
Chain-window within s path [] c = tt
Chain-window within s path (e ∷ es) c = (c.0, Chain-window within s (path ++ e ∷ []) es c.2)

Chain-intro :
    (within s : ℤ) (path es : EventPath)
    → All (InWindow within s) es
    → AllNew path es
    → DistinctIds es
    → Chain within path (some s) es
Chain-intro within s path [] w n d = tt
Chain-intro within s path (e ∷ es) w n d =
    (w.0, n.0, Chain-intro within s (path ++ e ∷ []) es w.1 (append-AllNew path e es n.1 d.0) d.1)

-- From the start of the search the two views agree.
pub Chain-Windowed :
    (within : ℤ) (e : Event) (es : EventPath)
    → Chain within [] none (e ∷ es)
    → Windowed within (e ∷ es) × DistinctIds (e ∷ es)
Chain-Windowed within e es c = (
  (c.0, Chain-window within (time_of e) (e ∷ []) es c.2),
  (Chain-new within [] none (e ∷ es) c).1,
)

AllNew-nil : (es : EventPath) → AllNew [] es
unfolding has_id
AllNew-nil [] = tt
AllNew-nil (e ∷ es) = (refl, AllNew-nil es)

pub Windowed-Chain :
    (within : ℤ) (path : EventPath)
    → Windowed within path
    → DistinctIds path
    → Chain within [] none path
unfolding has_id
Windowed-Chain within [] w d = tt
Windowed-Chain within (e ∷ es) w d = (
  w.0,
  refl,
  Chain-intro within (time_of e) (e ∷ []) es w.1 (append-AllNew [] e es (AllNew-nil es) d.0) d.1,
)

pub IsSubsequence-length : {xs ys : EventPath} → IsSubsequence xs ys → length xs ≤ length ys
IsSubsequence-length nil = omega arith
IsSubsequence-length (skip y s) = omega (arith, IsSubsequence-length s)
IsSubsequence-length (pick y s) = omega (arith, IsSubsequence-length s)

pub IsSubsequence-cons_nil : {x : Event} {xs : EventPath} → ¬ IsSubsequence (x ∷ xs) []
IsSubsequence-cons_nil h = elim h [ ]

pub IsSubsequence-cons_cases :
    {x y : Event} {xs ys : EventPath}
    → IsSubsequence (x ∷ xs) (y ∷ ys)
    → IsSubsequence (x ∷ xs) ys ⊎ ((x ≡ y) × IsSubsequence xs ys)
IsSubsequence-cons_cases (skip y s) = inl s
IsSubsequence-cons_cases (pick y s) = inr (refl, s)
