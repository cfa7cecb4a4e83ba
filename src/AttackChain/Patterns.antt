-- ===== src/AttackChain/Patterns.antt =====
-- A compiled chain reads back as its steps: `parse_step` after `to_pattern_token`, and
-- `parse_pattern` after the join of the tokens.
use x_dsi_cet.Base.{
  ℕ, ◌≡◌, refl, ◌∙◌, Bool, true, false, not, ◌&&◌, Option, none, some, [], ◌∷◌, ◌++◌, arith, ltb,
  ◌==◌, all, any,
}
use x_dsi_cet.Base.Int.{ℤ, pos, negsuc, pos_part}
use x_dsi_cet.Value.{Value}
use x_dsi_cet.Base.Text.{Text, is_space, strip}
use x_dsi_cet.Base.Result.{ok}
use x_dsi_cet.Dsl.Syntax.{
  EventStep, find_bounds, ends_with, drop_last, body_bounds, aliases_of, below_low, parse_step,
}
use x_dsi_cet.AttackChain.{AttackChainStep, to_pattern_token}
use x_dsi_cet.AttackChain.Tokens.{
  not-is_empty, is_plain, is_solid, all-append, all-weaken, strip-solid, bounds_text, no_brace,
  find_bounds-none, find_bounds-append, find_bounds-here, ends_with-append, drop_last-append,
  ends_with-plain,
}
use x_dsi_cet.AttackChain.Forms.{
  IsPlain, bounds_text-solid, IsToken, alone, plus, mark, braced, to_pattern_token-IsToken,
}

-- What `body_bounds` gives in each of its four cases.
module _ (r : Text) where
  body_bounds-braces :
      (w : Text) (low : ℕ) (high : Option ℕ)
      → find_bounds r ≡ some (w, record { low = low; high = high })
      → body_bounds r ≡ (strip w, low, high)
  unfolding body_bounds
  body_bounds-braces w low high h = rw (body_bounds, h) refl

  body_bounds-plus :
      find_bounds r ≡ none
      → ends_with b'+' r ≡ true
      → body_bounds r ≡ (strip (drop_last r), 1, none)
  unfolding body_bounds
  body_bounds-plus h at_plus = rw (body_bounds, h, at_plus) refl

  body_bounds-mark :
      find_bounds r ≡ none
      → ends_with b'+' r ≡ false
      → ends_with b'?' r ≡ true
      → body_bounds r ≡ (strip (drop_last r), 0, some 1)
  unfolding body_bounds
  body_bounds-mark h at_plus at_mark = rw (body_bounds, h, at_plus, at_mark) refl

  body_bounds-alone :
      find_bounds r ≡ none
      → ends_with b'+' r ≡ false
      → ends_with b'?' r ≡ false
      → body_bounds r ≡ (r, 1, some 1)
  unfolding body_bounds
  body_bounds-alone h at_plus at_mark = rw (body_bounds, h, at_plus, at_mark) refl

-- A name without parentheses is its own and only alias.
aliases_of-plain : (w : Text) → all is_plain w ≡ true → aliases_of w ≡ w ∷ []
unfolding aliases_of all
aliases_of-plain [] h = refl
aliases_of-plain (c ∷ w) h = rw (aliases_of, other c (all is_plain w) h) refl
  where
    other : (c : ℕ) (b : Bool) → (is_plain c && b) ≡ true → (c == b'(') ≡ false
    other c b h = ground arith

module _ (w : Text) (plain : IsPlain w) where
  solid_w : all is_solid w ≡ true
  solid_w = all-weaken is_plain is_solid (λ c h. ground arith) w plain.1

  no_brace_w : all no_brace w ≡ true
  no_brace_w = all-weaken is_plain no_brace (λ c h. ground arith) w plain.1

  strip_w : strip w ≡ w
  strip_w = strip-solid w solid_w

  find_bounds-suffix : (d : ℕ) → no_brace d ≡ true → find_bounds (w ++ d ∷ []) ≡ none
  unfolding all
  find_bounds-suffix d h =
      find_bounds-none (w ++ d ∷ []) (all-append no_brace w (d ∷ []) ∙ rw no_brace_w (one d h))
    where
      one : (d : ℕ) → no_brace d ≡ true → (true && (no_brace d && true)) ≡ true
      one d h = ground arith

  body_bounds-token :
      (low : ℕ) (high : Option ℕ) (t : Text) → IsToken w low high t → body_bounds t ≡ (w, low, high)
  body_bounds-token low high t (alone at_low at_high form) =
      rw (form, at_low, at_high)
        (body_bounds-alone w (find_bounds-none w no_brace_w)
          (ends_with-plain b'+' w (all-weaken is_plain _ (λ c h. ground arith) w plain.1))
          (ends_with-plain b'?' w (all-weaken is_plain _ (λ c h. ground arith) w plain.1)))
  body_bounds-token low high t (plus at_low at_high form) =
      rw
        (
          form,
          at_low,
          at_high,
          body_bounds-plus _ (find_bounds-suffix b'+' refl) (ends_with-append b'+' b'+' w),
          drop_last-append b'+' w,
          strip_w,
        )
        refl
  body_bounds-token low high t (mark at_low at_high form) =
      rw
        (
          form,
          at_low,
          at_high,
          body_bounds-mark _ (find_bounds-suffix b'?' refl) (ends_with-append b'+' b'?' w)
              (ends_with-append b'?' b'?' w),
          drop_last-append b'?' w,
          strip_w,
        )
        refl
  body_bounds-token low high t (braced form) =
      rw
        (
          form,
          body_bounds-braces _ w low high (
              find_bounds-append w (bounds_text low high) _ no_brace_w (find_bounds-here low high)),
          strip_w,
        )
        refl

  -- A token has no blank.
  solid-suffix : (s : Text) → all is_solid s ≡ true → all is_solid (w ++ s) ≡ true
  solid-suffix s h = all-append is_solid w s ∙ rw (solid_w, h) refl

  pub token-solid :
      (low : ℕ) (high : Option ℕ) (t : Text) → IsToken w low high t → all is_solid t ≡ true
  unfolding all is_space
  token-solid low high t (alone a b form) = rw form solid_w
  token-solid low high t (plus a b form) = rw form (solid-suffix (_ ∷ []) refl)
  token-solid low high t (mark a b form) = rw form (solid-suffix (_ ∷ []) refl)
  token-solid low high t (braced form) = rw form (solid-suffix _ (bounds_text-solid low high))

  aliases_of_w : aliases_of w ≡ w ∷ []
  aliases_of_w = aliases_of-plain w plain.1

  parse_step-token :
      (low : ℕ) (high : Option ℕ) (t : Text)
      → IsToken w low high t
      → below_low low high ≡ false
      → parse_step t
        ≡ ok (record { raw = t; aliases = w ∷ []; min_repeats = low; max_repeats = high })
  unfolding parse_step any
  parse_step-token low high t form h =
      rw
        (
          parse_step,
          strip-solid t (token-solid low high t form),
          body_bounds-token low high t form,
          aliases_of_w,
          not-is_empty w plain.0,
          h,
        )
        refl

-- A step whose name is plain and whose bounds are natural numbers in order.
abbrev in_order : ℤ → Option ℤ → Bool
in_order (negsuc _) most = false
in_order (pos low) none = true
in_order (pos low) (some (negsuc _)) = false
in_order (pos low) (some (pos high)) = not (ltb high low)

abbrev pub IsReadable : AttackChainStep → Type 0
IsReadable s = IsPlain s.event_type × (in_order s.min_repeats s.max_repeats ≡ true)

abbrev natural_bound : Option ℤ → Option ℕ
natural_bound none = none
natural_bound (some n) = some (pos_part n)

-- The step of the query language that such a step stands for.
abbrev pub step_of : AttackChainStep → EventStep
step_of s = record {
  raw = to_pattern_token s;
  aliases = s.event_type ∷ [];
  min_repeats = pos_part s.min_repeats;
  max_repeats = natural_bound s.max_repeats;
}

-- Both are the same for a step with natural bounds.
abbrev HasForm : AttackChainStep → Type 0
HasForm s =
    IsToken s.event_type (pos_part s.min_repeats) (natural_bound s.max_repeats) (to_pattern_token s)
    × (below_low (pos_part s.min_repeats) (natural_bound s.max_repeats) ≡ false)

IsReadable-HasForm : (s : AttackChainStep) → IsReadable s → HasForm s
IsReadable-HasForm s (plain, h) = go s.event_type s.alias s.min_repeats s.max_repeats h
  where
    go :
        (w : Text) (alias : Value) (least : ℤ) (most : Option ℤ)
        → in_order least most ≡ true
        → HasForm
            (record { event_type = w; alias = alias; min_repeats = least; max_repeats = most })
    go w alias (negsuc _) most h = cc
    go w alias (pos low) none h = (to_pattern_token-IsToken w alias low none, refl)
    go w alias (pos low) (some (negsuc _)) h = cc
    go w alias (pos low) (some (pos high)) h =
        (to_pattern_token-IsToken w alias low (some high), ground arith)

pub IsReadable-IsToken :
    (s : AttackChainStep)
    → IsReadable s
    → IsToken s.event_type
        (pos_part s.min_repeats)
        (natural_bound s.max_repeats)
        (to_pattern_token s)
IsReadable-IsToken s h = (IsReadable-HasForm s h).0

-- The token of a step whose name is free of blanks and syntax and whose bounds are natural numbers
-- in order is parsed to the step: the name as its only alias, and the same bounds.
pub parse_step-to_pattern_token :
    (s : AttackChainStep) → IsReadable s → parse_step (to_pattern_token s) ≡ ok (step_of s)
parse_step-to_pattern_token s h =
    let (form, order) = IsReadable-HasForm s h in parse_step-token s.event_type h.0 _ _ _ form order
