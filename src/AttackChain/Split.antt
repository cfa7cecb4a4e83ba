-- ===== src/AttackChain/Split.antt =====
-- The pattern of a compiled chain (bindings/python/attack_chain.py) is split at the commas between
-- its tokens and at no other: `_split_top_level` and `parse_pattern` of bindings/python/dsl.py.
use x_dsi_cet.Base.{
  ℕ, ◌≡◌, ◌≢◌, refl, ap, sym, ◌∙◌, Bool, true, false, not, ◌||◌, Option, none, some, List, [], ◌∷◌,
  ◌++◌, append-nil, append_assoc, arith, ◌==◌, all, map, All,
}
use x_dsi_cet.Base.Text.{Text, codes, is_empty, strip, join, decimal}
use x_dsi_cet.Base.Decimal.{is_digit, all-is_digit-decimal}
use x_dsi_cet.Base.Result.{ok, map_ok}
use x_dsi_cet.Dsl.Syntax.{
  parse_step, parse_pattern, split_from, split_top_level, emit_token, paren_after, brace_after,
}
use x_dsi_cet.AttackChain.{AttackChainStep, AttackChain, to_pattern_token, pattern_of}
use x_dsi_cet.AttackChain.Tokens.{
  is_plain, all-weaken, strip-solid, not-is_empty, bounds_text, upper_text,
}
use x_dsi_cet.AttackChain.Forms.{IsPlain, IsToken, alone, plus, mark, braced}
use x_dsi_cet.AttackChain.Patterns.{
  IsReadable, step_of, IsReadable-IsToken, token-solid, parse_step-to_pattern_token,
}

-- A character that leaves the depths as they are and cuts nothing.
abbrev is_quiet : ℕ → Bool
is_quiet c = not ((c == b'(') || (c == b')') || (c == b'{') || (c == b'}') || (c == b','))

paren_after-quiet : (c paren brace : ℕ) → is_quiet c ≡ true → paren_after paren brace c ≡ paren
unfolding paren_after
paren_after-quiet c paren brace h = ground arith

brace_after-quiet : (c paren brace : ℕ) → is_quiet c ≡ true → brace_after paren brace c ≡ brace
unfolding brace_after
brace_after-quiet c paren brace h = ground arith

split_from-char :
    (c : ℕ) (s buf : Text) (paren brace : ℕ)
    → is_quiet c ≡ true
    → split_from (c ∷ s) buf paren brace ≡ split_from s (buf ++ c ∷ []) paren brace
unfolding split_from
split_from-char c s buf paren brace h = rw (split_from, no_comma, paren_same, brace_same) refl
  where
    paren_same : paren_after paren brace c ≡ paren
    paren_same = paren_after-quiet c paren brace h

    brace_same : brace_after paren brace c ≡ brace
    brace_same = brace_after-quiet c paren brace h

    no_comma : (c == b',') ≡ false
    no_comma = ground arith

split_from-run :
    (w s buf : Text) (paren brace : ℕ)
    → all is_quiet w ≡ true
    → split_from (w ++ s) buf paren brace ≡ split_from s (buf ++ w) paren brace
unfolding all
split_from-run [] s buf paren brace h = rw (append-nil buf) refl
split_from-run (c ∷ w) s buf paren brace h =
    split_from-char c (w ++ s) buf paren brace (ground arith)
    ∙ split_from-run w s (buf ++ c ∷ []) paren brace (ground arith)
    ∙ rw (append_assoc buf (c ∷ []) w) refl

-- A text that the splitter takes whole, from one depth of braces to another.
abbrev Moves : ℕ → ℕ → Text → Type 0
Moves before after t =
    (s buf : Text) → split_from (t ++ s) buf 0 before ≡ split_from s (buf ++ t) 0 after

quiet-Moves : (brace : ℕ) (w : Text) → all is_quiet w ≡ true → Moves brace brace w
quiet-Moves brace w h s buf = split_from-run w s buf 0 brace h

append-Moves : (x y z : ℕ) (a b : Text) → Moves x y a → Moves y z b → Moves x z (a ++ b)
append-Moves x y z a b p q s buf =
    ap (λ t. split_from t buf 0 x) (append_assoc a b s)
    ∙ p (b ++ s) buf
    ∙ q s (buf ++ a)
    ∙ ap (λ t. split_from s t 0 z) (append_assoc buf a b)

open-Moves : Moves 0 1 (b'{' ∷ [])
unfolding split_from
open-Moves s buf = refl

comma-Moves : Moves 1 1 (b',' ∷ [])
unfolding split_from
comma-Moves s buf = refl

close-Moves : Moves 1 0 (b'}' ∷ [])
unfolding split_from
close-Moves s buf = refl

digit-quiet : (c : ℕ) → is_digit c ≡ true → is_quiet c ≡ true
unfolding is_digit
digit-quiet c h = ground arith

decimal-Moves : (n : ℕ) → Moves 1 1 (decimal n)
decimal-Moves n =
    quiet-Moves 1 (decimal n)
      (all-weaken is_digit is_quiet digit-quiet (decimal n) (all-is_digit-decimal n))

upper_text-Moves : (high : Option ℕ) → Moves 1 1 (upper_text high)
unfolding all
upper_text-Moves none = quiet-Moves 1 [] refl
upper_text-Moves (some n) = decimal-Moves n

bounds_text-Moves : (low : ℕ) (high : Option ℕ) → Moves 0 0 (bounds_text low high)
bounds_text-Moves low high = append-Moves _ _ _ (b'{' ∷ []) _ open-Moves (
    append-Moves _ _ _ (decimal low) _ (decimal-Moves low) (
      append-Moves _ _ _ (b',' ∷ []) _ comma-Moves
        (append-Moves _ _ _ (upper_text high) (b'}' ∷ []) (upper_text-Moves high) close-Moves)))

quiet_char-Moves : (c : ℕ) → is_quiet c ≡ true → Moves 0 0 (c ∷ [])
quiet_char-Moves c h s buf = split_from-char c s buf 0 0 h

token-Moves :
    (w : Text) (low : ℕ) (high : Option ℕ) (t : Text)
    → IsPlain w
    → IsToken w low high t
    → Moves 0 0 t
token-Moves w low high t plain form = elim form [
  | alone a b f ↦ rw f name
  | plus a b f ↦ rw f (append-Moves _ _ _ w (b'+' ∷ []) name (quiet_char-Moves b'+' refl))
  | mark a b f ↦ rw f (append-Moves _ _ _ w (b'?' ∷ []) name (quiet_char-Moves b'?' refl))
  | braced f ↦ rw f (append-Moves _ _ _ w (bounds_text low high) name (bounds_text-Moves low high))
]
  where
    name : Moves 0 0 w
    name = quiet-Moves 0 w (all-weaken is_plain is_quiet (λ c h. ground arith) w plain.1)

step-Moves : (s : AttackChainStep) → IsReadable s → Moves 0 0 (to_pattern_token s)
step-Moves s h = token-Moves s.event_type _ _ (to_pattern_token s) h.0 (IsReadable-IsToken s h)

-- A token is emitted as it is: it has no blank, and it is not empty.
step-strip : (s : AttackChainStep) → IsReadable s → strip (to_pattern_token s) ≡ to_pattern_token s
step-strip s h =
    strip-solid (to_pattern_token s) (token-solid s.event_type h.0 _ _ _ (IsReadable-IsToken s h))

append-ne_nil : (w t : Text) → w ≢ [] → is_empty (w ++ t) ≡ false
unfolding is_empty
append-ne_nil [] t n = absurd (n refl)
append-ne_nil (c ∷ w) t n = refl

token-is_empty :
    (w : Text) (low : ℕ) (high : Option ℕ) (t : Text)
    → w ≢ []
    → IsToken w low high t
    → is_empty t ≡ false
token-is_empty w low high t n (alone a b f) = rw f (not-is_empty w n)
token-is_empty w low high t n (plus a b f) = rw f (append-ne_nil w _ n)
token-is_empty w low high t n (mark a b f) = rw f (append-ne_nil w _ n)
token-is_empty w low high t n (braced f) = rw f (append-ne_nil w _ n)

emit_token-step :
    (s : AttackChainStep) (later : List Text)
    → IsReadable s
    → emit_token (to_pattern_token s) later ≡ to_pattern_token s ∷ later
unfolding emit_token
emit_token-step s later h =
    rw
      (emit_token, step-strip s h, token-is_empty s.event_type _ _ _ h.0.0 (IsReadable-IsToken s h))
      refl

join-cons :
    (w v : Text) (ws : List Text)
    → join (codes ",") (w ∷ v ∷ ws) ≡ w ++ b',' ∷ join (codes ",") (v ∷ ws)
unfolding join
join-cons w v ws = append_assoc w (codes ",") (join (codes ",") (v ∷ ws))

split-tokens :
    (s : AttackChainStep) (steps : List AttackChainStep)
    → All IsReadable (s ∷ steps)
    → split_from (join (codes ",") (map to_pattern_token (s ∷ steps))) [] 0 0
      ≡ map to_pattern_token (s ∷ steps)
unfolding split_from join
split-tokens s [] (h, _) =
    ap (λ t. split_from t [] 0 0) (sym (append-nil (to_pattern_token s)))
    ∙ step-Moves s h [] []
    ∙ emit_token-step s [] h
split-tokens s (r ∷ steps) (h, k) =
    ap (λ t. split_from t [] 0 0)
      (join-cons (to_pattern_token s) (to_pattern_token r) (map to_pattern_token steps))
    ∙ step-Moves s h (b',' ∷ join (codes ",") (map to_pattern_token (r ∷ steps))) []
    ∙ emit_token-step s _ h
    ∙ ap (◌∷◌ (to_pattern_token s)) (split-tokens r steps k)

parse-tokens :
    (steps : List AttackChainStep)
    → All IsReadable steps
    → map_ok parse_step (map to_pattern_token steps) ≡ ok (map step_of steps)
unfolding map_ok
parse-tokens [] h = refl
parse-tokens (s ∷ steps) (h, k) =
    rw (map_ok, parse_step-to_pattern_token s h, parse-tokens steps k) refl

-- The pattern of an attack chain whose steps are readable, and not none at all, is parsed to
-- exactly those steps, in their order.
pub parse_pattern-pattern_of :
    (c : AttackChain)
    → c.steps ≢ []
    → All IsReadable c.steps
    → parse_pattern (pattern_of c) ≡ ok (map step_of c.steps)
unfolding parse_pattern split_top_level pattern_of
parse_pattern-pattern_of c n h = go c.steps n h
  where
    go :
        (steps : List AttackChainStep)
        → steps ≢ []
        → All IsReadable steps
        → parse_pattern (join (codes ",") (map to_pattern_token steps)) ≡ ok (map step_of steps)
    go [] n h = absurd (n refl)
    go (s ∷ steps) n h =
        rw (parse_pattern, split_top_level, split-tokens s steps h, parse-tokens (s ∷ steps) h) refl
