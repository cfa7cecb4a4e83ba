-- ===== src/AttackChain/Tokens.antt =====
-- A compiled step reads back as the step: `parse_step` after `to_pattern_token`.
use x_dsi_cet.Base.{
  ℕ, ◌≡◌, ◌≢◌, refl, ap, Bool, true, false, not, ◌&&◌, ◌||◌, Option, none, some, [], ◌∷◌, ◌++◌,
  arith, ◌==◌, all,
}
use x_dsi_cet.Base.Text.{
  Text, is_space, is_empty, lstrip, rstrip, strip, keep_unless_blank, decimal, text_eq,
}
use x_dsi_cet.Base.Decimal.{is_digit, all-is_digit-decimal, decimal_ne_nil, number_from-decimal}
use x_dsi_cet.Dsl.Syntax.{
  Bounds, skip_spaces, take_digits, drop_digits, upper_at, bounds_at, find_bounds, ends_with,
  drop_last,
}

-- A character of an event type that no part of the syntax uses.
abbrev pub is_special : ℕ → Bool
is_special c =
    (c == b'(')
    || (c == b')')
    || (c == b'{')
    || (c == b'}')
    || (c == b',')
    || (c == b'+')
    || (c == b'?')
    || (c == b'|')

abbrev pub is_plain : ℕ → Bool
is_plain c = not (is_space c) && not (is_special c)

abbrev pub is_solid : ℕ → Bool
is_solid c = not (is_space c)

pub all-append : (f : ℕ → Bool) (xs ys : Text) → all f (xs ++ ys) ≡ (all f xs && all f ys)
unfolding all
all-append f [] ys = refl
all-append f (x ∷ xs) ys = ground (arith, all-append f xs ys)

pub all-weaken :
    (f g : ℕ → Bool)
    → ((x : ℕ) → f x ≡ true → g x ≡ true)
    → (xs : Text) → all f xs ≡ true
    → all g xs ≡ true
unfolding all
all-weaken f g k [] h = refl
all-weaken f g k (x ∷ xs) h = let first = k x in let rest = all-weaken f g k xs in ground arith

-- A text without blanks is not stripped.
rstrip-solid : (s : Text) → all is_solid s ≡ true → rstrip s ≡ s
unfolding all rstrip keep_unless_blank
rstrip-solid [] h = refl
rstrip-solid (c ∷ []) h = ground arith
rstrip-solid (c ∷ d ∷ s) h = rw (rstrip-solid (d ∷ s) (ground arith)) refl

lstrip-solid : (s : Text) → all is_solid s ≡ true → lstrip s ≡ s
unfolding all lstrip
lstrip-solid [] h = refl
lstrip-solid (c ∷ s) h = ground arith

pub strip-solid : (s : Text) → all is_solid s ≡ true → strip s ≡ s
unfolding strip
strip-solid s h = rw (lstrip-solid s h) (rstrip-solid s h)

-- Digits in front of a text that goes on with something else.
abbrev stops : Text → Bool
stops [] = true
stops (c ∷ s) = not (is_digit c)

abbrev is_blank_free : Text → Bool
is_blank_free [] = true
is_blank_free (c ∷ s) = not (is_space c)

skip_spaces-solid : (s : Text) → is_blank_free s ≡ true → skip_spaces s ≡ s
unfolding skip_spaces
skip_spaces-solid [] h = refl
skip_spaces-solid (c ∷ s) h = ground arith

take_digits-append :
    (ds s : Text) → all is_digit ds ≡ true → stops s ≡ true → take_digits (ds ++ s) ≡ ds
unfolding take_digits all
take_digits-append [] [] h k = refl
take_digits-append [] (c ∷ s) h k = ground arith
take_digits-append (d ∷ ds) s h k = let ih = take_digits-append ds s in ground arith

drop_digits-append :
    (ds s : Text) → all is_digit ds ≡ true → stops s ≡ true → drop_digits (ds ++ s) ≡ s
unfolding drop_digits all
drop_digits-append [] [] h k = refl
drop_digits-append [] (c ∷ s) h k = ground arith
drop_digits-append (d ∷ ds) s h k = let ih = drop_digits-append ds s in ground arith

digits-blank_free :
    (ds s : Text) → all is_digit ds ≡ true → ds ≢ [] → is_blank_free (ds ++ s) ≡ true
unfolding all is_digit is_space
digits-blank_free [] s h n = absurd (n refl)
digits-blank_free (d ∷ ds) s h n = ground arith

-- The text of two bounds in braces is read as the bounds.
abbrev pub upper_text : Option ℕ → Text
upper_text none = []
upper_text (some n) = decimal n

abbrev pub bounds_text : ℕ → Option ℕ → Text
bounds_text low high = b'{' ∷ (decimal low ++ b',' ∷ (upper_text high ++ b'}' ∷ []))

pub not-is_empty : (s : Text) → s ≢ [] → is_empty s ≡ false
unfolding is_empty
not-is_empty [] n = absurd (n refl)
not-is_empty (c ∷ s) n = refl

upper_at-upper_text :
    (low : ℕ) (high : Option ℕ)
    → upper_at low (b',' ∷ (upper_text high ++ b'}' ∷ []))
      ≡ some (record { low = low; high = high })
unfolding upper_at skip_spaces take_digits drop_digits is_empty text_eq
upper_at-upper_text low none = refl
upper_at-upper_text low (some n) =
    let solid =
      skip_spaces-solid (decimal n ++ b'}' ∷ [])
        (digits-blank_free (decimal n) (b'}' ∷ []) (all-is_digit-decimal n) (decimal_ne_nil n)) in
    rw
      (
        solid,
        take_digits-append (decimal n) (b'}' ∷ []) (all-is_digit-decimal n) refl,
        drop_digits-append (decimal n) (b'}' ∷ []) (all-is_digit-decimal n) refl,
        not-is_empty (decimal n) (decimal_ne_nil n),
        number_from-decimal n,
      )
      refl

pub bounds_at-bounds_text :
    (low : ℕ) (high : Option ℕ)
    → bounds_at (bounds_text low high) ≡ some (record { low = low; high = high })
unfolding bounds_at
bounds_at-bounds_text low high =
    let rest = b',' ∷ (upper_text high ++ b'}' ∷ []) in
    let solid =
      skip_spaces-solid (decimal low ++ rest)
        (digits-blank_free (decimal low) rest (all-is_digit-decimal low) (decimal_ne_nil low)) in
    rw
      (
        solid,
        take_digits-append (decimal low) rest (all-is_digit-decimal low) refl,
        drop_digits-append (decimal low) rest (all-is_digit-decimal low) refl,
        not-is_empty (decimal low) (decimal_ne_nil low),
        number_from-decimal low,
      )
      (upper_at-upper_text low high)

abbrev pub no_brace : ℕ → Bool
no_brace c = not (c == b'{')

bounds_at-other : (c : ℕ) (s : Text) → (c == b'{') ≡ false → bounds_at (c ∷ s) ≡ none
unfolding bounds_at
bounds_at-other c s h = ground arith

pub find_bounds-none : (s : Text) → all no_brace s ≡ true → find_bounds s ≡ none
unfolding find_bounds all
find_bounds-none [] h = refl
find_bounds-none (c ∷ s) h =
    rw (bounds_at-other c s (ground arith), find_bounds, find_bounds-none s (ground arith)) refl

pub find_bounds-append :
    (w s : Text) (b : Bounds)
    → all no_brace w ≡ true
    → find_bounds s ≡ some ([], b)
    → find_bounds (w ++ s) ≡ some (w, b)
unfolding find_bounds all
find_bounds-append [] s b h f = f
find_bounds-append (c ∷ w) s b h f =
    rw
      (
        bounds_at-other c (w ++ s) (ground arith),
        find_bounds,
        find_bounds-append w s b (ground arith) f,
      )
      refl

pub ends_with-append : (c d : ℕ) (w : Text) → ends_with c (w ++ d ∷ []) ≡ (d == c)
unfolding ends_with
ends_with-append c d [] = refl
ends_with-append c d (x ∷ []) = refl
ends_with-append c d (x ∷ y ∷ w) = ends_with-append c d (y ∷ w)

pub drop_last-append : (d : ℕ) (w : Text) → drop_last (w ++ d ∷ []) ≡ w
unfolding drop_last
drop_last-append d [] = refl
drop_last-append d (x ∷ []) = refl
drop_last-append d (x ∷ y ∷ w) = ap (◌∷◌ x) (drop_last-append d (y ∷ w))

pub ends_with-plain : (c : ℕ) (w : Text) → all (λ d. not (d == c)) w ≡ true → ends_with c w ≡ false
unfolding ends_with all
ends_with-plain c [] h = refl
ends_with-plain c (d ∷ []) h = ground arith
ends_with-plain c (d ∷ e ∷ w) h = ends_with-plain c (e ∷ w) (ground arith)

pub find_bounds-here :
    (low : ℕ) (high : Option ℕ)
    → find_bounds (bounds_text low high) ≡ some ([], record { low = low; high = high })
unfolding find_bounds
find_bounds-here low high = rw (bounds_at-bounds_text low high, find_bounds) refl
