-- ===== src/AttackChain/Forms.antt =====
-- The four forms of the pattern token of a step: `to_pattern_token` of
-- bindings/python/attack_chain.py.
use x_dsi_cet.Base.{
  ℕ, ◌≡◌, ◌≢◌, refl, ap, ◌∙◌, inl, inr, true, Option, none, some, [], ◌∷◌, ◌++◌, append_assoc,
  arith, Bool-cases, all,
}
use x_dsi_cet.Base.Int.{ℤ, pos, eqb_ℤ, eqb_ℤ→eq}
use x_dsi_cet.Value.{Value}
use x_dsi_cet.Base.Text.{Text, is_space, int_text, decimal}
use x_dsi_cet.Base.Decimal.{is_digit, all-is_digit-decimal}
use x_dsi_cet.AttackChain.{AttackChainStep, to_pattern_token}
use x_dsi_cet.AttackChain.Tokens.{
  is_plain, is_solid, all-append, all-weaken, upper_text, bounds_text,
}

-- An event type without blanks and without characters of the pattern syntax.
abbrev pub IsPlain : Text → Type 0
IsPlain w = (w ≢ []) × (all is_plain w ≡ true)

-- The integers that an attack chain holds for the bounds.
abbrev as_int : Option ℕ → Option ℤ
as_int none = none
as_int (some n) = some (pos n)

abbrev chain_step : Text → Value → ℕ → Option ℕ → AttackChainStep
chain_step w alias low high = record {
  event_type = w;
  alias = alias;
  min_repeats = pos low;
  max_repeats = as_int high;
}

-- The digits of a bound, and the braces around them, have no blank.
digit-solid : (c : ℕ) → is_digit c ≡ true → is_solid c ≡ true
unfolding is_digit is_space
digit-solid c h = ground arith

digits-solid : (n : ℕ) → all is_solid (decimal n) ≡ true
digits-solid n = all-weaken is_digit is_solid digit-solid (decimal n) (all-is_digit-decimal n)

upper_text-solid : (high : Option ℕ) → all is_solid (upper_text high) ≡ true
unfolding all
upper_text-solid none = refl
upper_text-solid (some n) = digits-solid n

pub bounds_text-solid : (low : ℕ) (high : Option ℕ) → all is_solid (bounds_text low high) ≡ true
unfolding all is_space
bounds_text-solid low high =
    all-append is_solid (decimal low) _
    ∙ rw
        (digits-solid low, all-append is_solid (upper_text high) (b'}' ∷ []), upper_text-solid high)
        refl

-- The four forms of a token.
pub data IsToken (w : Text) (low : ℕ) (high : Option ℕ) (t : Text) : Type 0 where
  alone : low ≡ 1 → high ≡ some 1 → t ≡ w → IsToken w low high t
  plus : low ≡ 1 → high ≡ none → t ≡ w ++ b'+' ∷ [] → IsToken w low high t
  mark : low ≡ 0 → high ≡ some 1 → t ≡ w ++ b'?' ∷ [] → IsToken w low high t
  braced : t ≡ w ++ bounds_text low high → IsToken w low high t

pos_injective : {m n : ℕ} → pos m ≡ pos n → m ≡ n
pos_injective h = cc

inside-braces :
    (w a b : Text)
    → w ++ b'{' ∷ ((a ++ b',' ∷ b) ++ b'}' ∷ []) ≡ w ++ b'{' ∷ (a ++ b',' ∷ (b ++ b'}' ∷ []))
inside-braces w a b = ap (λ t. w ++ b'{' ∷ t) (append_assoc a (b',' ∷ b) (b'}' ∷ []))

pub to_pattern_token-IsToken :
    (w : Text) (alias : Value) (low : ℕ) (high : Option ℕ)
    → IsToken w low high (to_pattern_token (chain_step w alias low high))
unfolding to_pattern_token int_text
to_pattern_token-IsToken w alias low none = elim (Bool-cases (eqb_ℤ (pos low) (pos 1))) [
  | inl t ↦ rw t (plus (pos_injective (eqb_ℤ→eq _ _ t)) refl refl)
  | inr f ↦ rw f (braced (inside-braces w (decimal low) []))
]
to_pattern_token-IsToken w alias low (some m) = elim (Bool-cases (eqb_ℤ (pos m) (pos 1))) [
  | inr more ↦
      let whole : IsToken w low (some m)
          (w ++ b'{' ∷ ((decimal low ++ b',' ∷ decimal m) ++ b'}' ∷ [])) =
        braced (inside-braces w (decimal low) (decimal m)) in
      elim (Bool-cases (eqb_ℤ (pos low) (pos 0))) [
        | inl a ↦ elim (Bool-cases (eqb_ℤ (pos low) (pos 1))) [
          | inl b ↦ rw (more, a, b) whole
          | inr b ↦ rw (more, a, b) whole
        ]
        | inr a ↦ elim (Bool-cases (eqb_ℤ (pos low) (pos 1))) [
          | inl b ↦ rw (more, a, b) whole
          | inr b ↦ rw (more, a, b) whole
        ]
      ]
  | inl one ↦
      let at_one : some m ≡ some 1 = ap some (pos_injective (eqb_ℤ→eq _ _ one)) in
      elim (Bool-cases (eqb_ℤ (pos low) (pos 0))) [
        | inl zero_low ↦
            rw (one, zero_low) (mark (pos_injective (eqb_ℤ→eq _ _ zero_low)) at_one refl)
        | inr some_low ↦ elim (Bool-cases (eqb_ℤ (pos low) (pos 1))) [
          | inl one_low ↦
              rw (one, some_low, one_low) (alone (pos_injective (eqb_ℤ→eq _ _ one_low)) at_one refl)
          | inr more_low ↦
              rw (one, some_low, more_low) (braced (inside-braces w (decimal low) (decimal m)))
        ]
      ]
]
