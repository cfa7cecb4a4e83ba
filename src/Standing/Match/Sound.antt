-- ===== src/Standing/Match/Sound.antt =====
-- Whatever the search of `_match_query_paths` finds is a match.
use x_dsi_cet.Dsl.Validate.{has_id}
use x_dsi_cet.Base.{
  ltb, ◌≢◌, ℕ, suc, ◌+◌, ◌≤◌, ◌<◌, ◌≡◌, refl, sym, ◌∙◌, inl, inr, true, false, Option, none, some,
  List, [], ◌∷◌, ◌++◌, append-nil, append_assoc, arith, leb, if◌then◌else◌, Bool-cases, length, In,
  In-append_cases, In-take, In-if, All, IsSubsequence, skip, pick, nil-IsSubsequence,
}
use x_dsi_cet.Base.Int.{ℤ}
use x_dsi_cet.Base.Sort.{sort}
use x_dsi_cet.Value.{Event, time_of}
use x_dsi_cet.Dsl.Syntax.{EventStep, optional}
use x_dsi_cet.Standing.Match.{
  EventPath, event_le, step_matches, admits, max_reps, start_or, match_query_paths,
}
use x_dsi_cet.Standing.Match.Paths.{path_alone, consumed, looped, all_paths}
use x_dsi_cet.Standing.Match.Bound.{match_query_paths-eq-take}
use x_dsi_cet.Standing.Match.Shape.{
  AtMost, Fits, InWindow, Windowed, DistinctIds, IsMatch, Chain, Chain-Windowed,
}

-- What a search adds to the path that it starts from.
record Found (within : ℤ) (steps : List EventStep) (rest path : EventPath) (start : Option ℤ)
    (p : EventPath) : Type 0 where
  tail : EventPath
  whole : p ≡ path ++ tail
  picked : IsSubsequence tail rest
  fits : Fits steps tail
  chain : Chain within path start tail
  solid : p ≢ []

-- The same where `reps` events of a step are consumed already.
record Repeats (within : ℤ) (step : EventStep) (steps : List EventStep) (most reps : ℕ)
    (rest path : EventPath) (start : Option ℤ) (p : EventPath) : Type 0 where
  seg : EventPath
  tail : EventPath
  whole : p ≡ path ++ (seg ++ tail)
  picked : IsSubsequence (seg ++ tail) rest
  typed : All (λ e. step_matches step e ≡ true) seg
  enough : step.min_repeats ≤ reps + length seg
  few : reps + length seg ≤ most
  fits : Fits steps tail
  chain : Chain within path start (seg ++ tail)
  solid : p ≢ []

admits-parts :
    (within : ℤ) (step : EventStep) (path : EventPath) (start : Option ℤ) (e : Event)
    → admits within step path start e ≡ true
    → (step_matches step e ≡ true)
      × InWindow within (start_or start (time_of e)) e
      × (has_id e.event_id path ≡ false)
unfolding admits
admits-parts within step path start e h = ground arith

module _ (within : ℤ) (step : EventStep) (steps : List EventStep) (most : ℕ)
    (next : EventPath → EventPath → Option ℤ → List EventPath)
    (next-Found : (rest path : EventPath) (start : Option ℤ) (p : EventPath)
      → In p (next rest path start)
      → Found within steps rest path start p) where
  from_next :
      (reps : ℕ) (rest path : EventPath) (start : Option ℤ) (p : EventPath)
      → step.min_repeats ≤ reps
      → reps ≤ most
      → Found within steps rest path start p
      → Repeats within step steps most reps rest path start p
  from_next reps rest path start p h k f = record {
    seg = [];
    tail = f.tail;
    whole = f.whole;
    picked = f.picked;
    typed = tt;
    enough = omega arith;
    few = omega arith;
    fits = f.fits;
    chain = f.chain;
    solid = f.solid;
  }

  consumed-Repeats :
      (rest : EventPath) (loop : ℕ → EventPath → Option ℤ → List EventPath) (reps : ℕ)
      (path : EventPath) (start : Option ℤ) (p : EventPath)
      → (reps < most
          → In p (loop reps path start)
          → Repeats within step steps most reps rest path start p)
      → reps ≤ most
      → In p (consumed within next step most rest loop reps path start)
      → Repeats within step steps most reps rest path start p
  unfolding consumed
  consumed-Repeats rest loop reps path start p hl k h =
      elim (In-append_cases p (if leb step.min_repeats reps then next rest path start else []) _
        h) [
          | inl a ↦
              let (t, found) = In-if p (leb step.min_repeats reps) _ a in
              from_next reps rest path start p (ground arith) k (next-Found rest path start p found)
          | inr b ↦ elim (Bool-cases (leb most reps)) [
            | inl full ↦ absurd (rw full at b)
            | inr more ↦ hl (ground arith) (rw more at b)
          ]
        ]

  one_more :
      (reps : ℕ) (e : Event) (rest path : EventPath) (start : Option ℤ) (p : EventPath)
      → admits within step path start e ≡ true
      → Repeats within step steps most
          (suc reps)
          rest
          (path ++ e ∷ [])
          (some (start_or start (time_of e)))
          p
      → Repeats within step steps most reps (e ∷ rest) path start p
  one_more reps e rest path start p a r =
      let (t, w, n) = admits-parts within step path start e a in
      record {
        seg = e ∷ r.seg;
        tail = r.tail;
        whole = r.whole ∙ append_assoc path (e ∷ []) (r.seg ++ r.tail);
        picked = pick e r.picked;
        typed = (t, r.typed);
        enough = omega (arith, r.enough);
        few = omega (arith, r.few);
        fits = r.fits;
        chain = (w, n, r.chain);
        solid = r.solid;
      }

  passed_over :
      (reps : ℕ) (e : Event) (rest path : EventPath) (start : Option ℤ) (p : EventPath)
      → Repeats within step steps most reps rest path start p
      → Repeats within step steps most reps (e ∷ rest) path start p
  passed_over reps e rest path start p r = record {
    seg = r.seg;
    tail = r.tail;
    whole = r.whole;
    picked = skip e r.picked;
    typed = r.typed;
    enough = r.enough;
    few = r.few;
    fits = r.fits;
    chain = r.chain;
    solid = r.solid;
  }

  looped-Repeats :
      (rest : EventPath) (reps : ℕ) (path : EventPath) (start : Option ℤ) (p : EventPath)
      → reps < most
      → In p (looped within next step most rest reps path start)
      → Repeats within step steps most reps rest path start p
  unfolding looped
  looped-Repeats [] reps path start p k h = elim h [ ]
  looped-Repeats (e ∷ rest) reps path start p k h =
      elim (In-append_cases p
        (if admits within step path start e
          then consumed within next step most rest (looped within next step most rest) (suc reps)
              (path ++ e ∷ []) (some (start_or start (time_of e)))
          else [])
        _ h) [
          | inl a ↦
              let (t, found) = In-if p (admits within step path start e) _ a in
              one_more reps e rest path start p t (
                consumed-Repeats rest (looped within next step most rest) (suc reps)
                  (path ++ e ∷ []) (some (start_or start (time_of e))) p
                  (looped-Repeats rest (suc reps) (path ++ e ∷ [])
                    (some (start_or start (time_of e))) p)
                  k found)
          | inr b ↦ passed_over reps e rest path start p (looped-Repeats rest reps path start p k b)
        ]

AtMost-max_reps :
    (step : EventStep) (rest : EventPath) (n : ℕ)
    → n ≤ max_reps step rest
    → AtMost step.max_repeats n
unfolding max_reps
AtMost-max_reps step rest n h = at_most step.max_repeats h
  where
    at_most :
        (m : Option ℕ)
        → n ≤ elim m [ some m ↦ m | none ↦ if ltb (length rest) 1 then 1 else length rest ]
        → AtMost m n
    at_most none h = tt
    at_most (some m) h = h

AtMost-zero : (m : Option ℕ) → AtMost m 0
AtMost-zero none = tt
AtMost-zero (some m) = omega arith

module _ (within : ℤ) where
  path_alone-Found :
      (rest path : EventPath) (start : Option ℤ) (p : EventPath)
      → In p (path_alone path)
      → Found within [] rest path start p
  path_alone-Found rest [] start p h = elim h [ ]
  path_alone-Found rest (e ∷ es) start p (inl h) = record {
    tail = [];
    whole = h ∙ sym (append-nil (e ∷ es));
    picked = nil-IsSubsequence rest;
    fits = refl;
    chain = tt;
    solid = λ e. cc;
  }
  path_alone-Found rest (e ∷ es) start p (inr h) = elim h [ ]

  all_paths-Found :
      (steps : List EventStep) (rest path : EventPath) (start : Option ℤ) (p : EventPath)
      → In p (all_paths within steps rest path start)
      → Found within steps rest path start p
  unfolding all_paths optional
  all_paths-Found [] rest path start p h = path_alone-Found rest path start p h
  all_paths-Found (step ∷ steps) rest path start p h =
      elim (In-append_cases p (if optional step then all_paths within steps rest path start else [])
        _ h) [
          | inl a ↦
              let (t, found) = In-if p (optional step) _ a in
              skipped (ground arith) (all_paths-Found steps rest path start p found)
          | inr b ↦ repeated (
              consumed-Repeats within step steps (max_reps step rest) (all_paths within steps)
                (all_paths-Found steps) rest
                (looped within (all_paths within steps) step (max_reps step rest) rest) 0 path start
                p
                (looped-Repeats within step steps (max_reps step rest) (all_paths within steps)
                  (all_paths-Found steps) rest 0 path start p)
                (omega arith) b)
        ]
    where
      skipped :
          step.min_repeats ≡ 0
          → Found within steps rest path start p
          → Found within (step ∷ steps) rest path start p
      skipped z f = record {
        tail = f.tail;
        whole = f.whole;
        picked = f.picked;
        fits = ([], f.tail, refl, tt, omega arith, AtMost-zero step.max_repeats, f.fits);
        chain = f.chain;
        solid = f.solid;
      }

      repeated :
          Repeats within step steps (max_reps step rest) 0 rest path start p
          → Found within (step ∷ steps) rest path start p
      repeated r = record {
        tail = r.seg ++ r.tail;
        whole = r.whole;
        picked = r.picked;
        fits = (
          r.seg,
          r.tail,
          refl,
          r.typed,
          omega (arith, r.enough),
          AtMost-max_reps step rest (length r.seg) (omega (arith, r.few)),
          r.fits,
        );
        chain = r.chain;
        solid = r.solid;
      }

-- Every path that the search returns is a match: a subsequence of the sorted events with the
-- segments, the window and the distinct ids that the query asks for.
pub match_query_paths-IsMatch :
    (steps : List EventStep) (within : ℤ) (events : List Event) (limit : ℕ) (p : EventPath)
    → In p (match_query_paths steps within events limit)
    → IsMatch steps within events p
match_query_paths-IsMatch steps within events limit p h = to_match p (
    all_paths-Found within steps (sort event_le events) [] none p
      (In-take p limit _ (rw (match_query_paths-eq-take steps within events limit) at h)))
  where
    shape : (q : EventPath) → q ≢ [] → Chain within [] none q → Windowed within q × DistinctIds q
    shape [] n c = absurd (n refl)
    shape (e ∷ es) n c = Chain-Windowed within e es c

    to_match :
        (q : EventPath)
        → Found within steps (sort event_le events) [] none q
        → IsMatch steps within events q
    to_match q f =
        let chain : Chain within [] none q = rw f.whole f.chain in
        let (window, distinct) = shape q f.solid chain in
        record {
          picked = rw f.whole f.picked;
          fits = rw f.whole f.fits;
          window = window;
          distinct = distinct;
        }
