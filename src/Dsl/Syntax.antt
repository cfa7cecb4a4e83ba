-- ===== src/Dsl/Syntax.antt =====
-- The pattern syntax of bindings/python/dsl.py: `_split_top_level`, `EventStep`, `parse_step` and
-- `parse_pattern`. Digits and blanks are the ASCII ones.
use x_dsi_cet.Base.{
  ℕ, ◌+◌, ◌-◌, Bool, true, false, not, ◌&&◌, ◌||◌, Option, none, some, List, [], ◌∷◌, ◌++◌, map,
  ltb, ◌==◌, if◌then◌else◌, keep, any,
}
use x_dsi_cet.Base.Text.{Text, is_empty, is_space, strip, split, text_eq}
use x_dsi_cet.Base.Decimal.{is_digit, number_from}
use x_dsi_cet.Base.Result.{Result, ok, value_error, ◌>>=◌, ◌>>◌, require, map_ok}

-- The depths of `(` and `{` after a character; neither counts inside the other.
unfoldable pub paren_after : ℕ → ℕ → ℕ → ℕ
paren_after paren brace c =
    if (c == b'(') && (brace == 0)
    then paren + 1
    else if (c == b')') && (brace == 0)
    then paren - 1
    else paren

unfoldable pub brace_after : ℕ → ℕ → ℕ → ℕ
brace_after paren brace c =
    if (c == b'(') && (brace == 0)
    then brace
    else if (c == b')') && (brace == 0)
    then brace
    else if (c == b'{') && (paren == 0)
    then brace + 1
    else if (c == b'}') && (paren == 0)
    then brace - 1
    else brace

-- `tok = "".join(buf).strip(); if tok: tokens.append(tok)`, before the later tokens.
unfoldable pub emit_token : Text → List Text → List Text
unfolding strip is_empty
emit_token buf later = let tok = strip buf in if is_empty tok then later else tok ∷ later

-- The loop over the characters, with the buffer and the two depths.
unfoldable pub split_from : Text → Text → ℕ → ℕ → List Text
unfolding paren_after brace_after emit_token
split_from [] buf paren brace = emit_token buf []
split_from (c ∷ s) buf paren brace =
    let paren' = paren_after paren brace c in
    let brace' = brace_after paren brace c in
    elim ((c == b',') && (paren' == 0) && (brace' == 0)) [
      | true ↦ emit_token buf (split_from s [] paren' brace')
      | false ↦ split_from s (buf ++ c ∷ []) paren' brace'
    ]

unfoldable pub split_top_level : Text → List Text
unfolding split_from
split_top_level pattern = split_from pattern [] 0 0

pub record EventStep : Type 0 where
  pub raw : Text
  pub aliases : List Text
  pub min_repeats : ℕ
  pub max_repeats : Option ℕ

-- `self.aliases[0]`; a parsed step has an alias.
unfoldable pub canonical : EventStep → Text
canonical s = elim s.aliases [ [] ↦ [] | a ∷ _ ↦ a ]

unfoldable pub optional : EventStep → Bool
optional s = s.min_repeats == 0

abbrev is_some_of : ℕ → Option ℕ → Bool
is_some_of n none = false
is_some_of n (some m) = m == n

abbrev is_none : Option ℕ → Bool
is_none none = true
is_none (some _) = false

unfoldable pub kleene_plus : EventStep → Bool
kleene_plus s = (s.min_repeats == 1) && is_none s.max_repeats

unfoldable pub bounded : EventStep → Bool
bounded s =
    not (is_some_of 1 s.max_repeats || is_none s.max_repeats)
    || not ((s.min_repeats == 0) || (s.min_repeats == 1))

unfoldable pub has_or : EventStep → Bool
has_or s = elim s.aliases [ [] ↦ false | a ∷ rest ↦ elim rest [ [] ↦ false | _ ∷ _ ↦ true ] ]

unfoldable pub native_token : EventStep → Text
unfolding canonical kleene_plus
native_token s = if kleene_plus s then canonical s ++ b'+' ∷ [] else canonical s

-- `\s*` and `(\d*)`.
unfoldable pub skip_spaces : Text → Text
unfolding is_space
skip_spaces [] = []
skip_spaces (c ∷ s) = if is_space c then skip_spaces s else c ∷ s

unfoldable pub take_digits : Text → Text
unfolding is_digit
take_digits [] = []
take_digits (c ∷ s) = if is_digit c then c ∷ take_digits s else []

unfoldable pub drop_digits : Text → Text
unfolding is_digit
drop_digits [] = []
drop_digits (c ∷ s) = if is_digit c then drop_digits s else c ∷ s

pub record Bounds : Type 0 where
  pub low : ℕ
  pub high : Option ℕ

-- `\}$`.
abbrev closes : Text → Bool
closes s = text_eq s (b'}' ∷ [])

-- `(?:,\s*(\d*)\s*)?\}$`, behind the lower bound.
unfoldable pub upper_at : ℕ → Text → Option Bounds
unfolding skip_spaces take_digits drop_digits number_from text_eq
upper_at low [] = none
upper_at low (c ∷ s) =
    let digits = take_digits (skip_spaces s) in
    let rest = skip_spaces (drop_digits (skip_spaces s)) in
    if c == b','
    then (if closes rest
        then some (record {
          low = low;
          high = if is_empty digits then none else some (number_from 0 digits);
        })
        else none)
    else if closes (c ∷ s)
    then some (record { low = low; high = some low })
    else none

-- The regular expression `\{\s*(\d+)\s*(?:,\s*(\d*)\s*)?\}$`, matched at this position.
unfoldable pub bounds_at : Text → Option Bounds
unfolding upper_at is_empty
bounds_at [] = none
bounds_at (c ∷ s) =
    let digits = take_digits (skip_spaces s) in
    let rest = skip_spaces (drop_digits (skip_spaces s)) in
    if (c == b'{') && not (is_empty digits) then upper_at (number_from 0 digits) rest else none

-- `re.search`: the text in front of the first match, and the bounds.
unfoldable pub find_bounds : Text → Option (Text × Bounds)
unfolding bounds_at
find_bounds [] = none
find_bounds (c ∷ s) = elim (bounds_at (c ∷ s)) [
  | some b ↦ some ([], b)
  | none ↦ elim (find_bounds s) [ none ↦ none | some (front, b) ↦ some (c ∷ front, b) ]
]

unfoldable pub ends_with : ℕ → Text → Bool
ends_with c [] = false
ends_with c (d ∷ []) = d == c
ends_with c (d ∷ e ∷ s) = ends_with c (e ∷ s)

unfoldable pub drop_last : Text → Text
drop_last [] = []
drop_last (d ∷ []) = []
drop_last (d ∷ e ∷ s) = d ∷ drop_last (e ∷ s)

abbrev begins_with : ℕ → Text → Bool
begins_with c [] = false
begins_with c (d ∷ s) = d == c

abbrev tail_text : Text → Text
tail_text [] = []
tail_text (c ∷ s) = s

-- The name part of a step, and its repeat bounds.
unfoldable pub body_bounds : Text → Text × ℕ × Option ℕ
unfolding find_bounds ends_with drop_last strip
body_bounds raw = elim (find_bounds raw) [
  | some (front, b) ↦ (strip front, b.low, b.high)
  | none ↦
      if ends_with b'+' raw
      then (strip (drop_last raw), 1, none)
      else if ends_with b'?' raw
      then (strip (drop_last raw), 0, some 1)
      else (raw, 1, some 1)
]

unfoldable pub aliases_of : Text → List Text
unfolding ends_with drop_last split strip is_empty keep
aliases_of body =
    if begins_with b'(' body && ends_with b')' body
    then keep (λ x. not (is_empty x)) (map strip (split b'|' (drop_last (tail_text body))))
    else body ∷ []

abbrev no_texts : List Text → Bool
no_texts [] = true
no_texts (_ ∷ _) = false

abbrev pub below_low : ℕ → Option ℕ → Bool
below_low low none = false
below_low low (some high) = ltb high low

unfoldable pub parse_step : Text → Result EventStep
unfolding body_bounds aliases_of any is_empty strip
parse_step token = do
  let raw = strip token
  let (body, low, high) = body_bounds raw
  let aliases = aliases_of body
  require (not (no_texts aliases || any is_empty aliases)) value_error
  require (not (below_low low high)) value_error
  ok (record { raw = raw; aliases = aliases; min_repeats = low; max_repeats = high })

abbrev no_steps : List EventStep → Bool
no_steps [] = true
no_steps (_ ∷ _) = false

unfoldable pub parse_pattern : Text → Result (List EventStep)
unfolding split_top_level parse_step map_ok
parse_pattern pattern = do
  steps ← map_ok parse_step (split_top_level pattern)
  require (not (no_steps steps)) value_error
  ok steps
