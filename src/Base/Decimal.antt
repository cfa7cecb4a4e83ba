-- ===== src/Base/Decimal.antt =====
-- The decimal text of a number: its digits, and that they stand for the number.
use x_dsi_cet.Base.{
  ℕ, zero, suc, ◌+◌, ◌-◌, ◌*◌, ◌/◌, ◌%◌, ◌<◌, ◌≡◌, ◌≢◌, refl, ap, inl, inr, Bool, true, ◌&&◌, [],
  ◌∷◌, arith, ltb, leb, Bool-cases, all,
}
use x_dsi_cet.Base.Text.{Text, decimal_from, decimal}

unfoldable pub is_digit : ℕ → Bool
is_digit c = leb b'0' c && leb c b'9'

-- The number that a text of digits stands for, behind the number read so far.
unfoldable pub number_from : ℕ → Text → ℕ
number_from n [] = n
number_from n (c ∷ s) = number_from (n * 10 + (c - b'0')) s

decimal_from-digits :
    (fuel n : ℕ) (rest : Text)
    → all is_digit rest ≡ true
    → all is_digit (decimal_from fuel n rest) ≡ true
unfolding decimal_from all is_digit
decimal_from-digits zero n rest h = h
decimal_from-digits (suc fuel) n rest h = elim (Bool-cases (ltb n 10)) [
  | inl t ↦ rw t (ground arith)
  | inr f ↦ rw f (decimal_from-digits fuel (n / 10) ((b'0' + n % 10) ∷ rest) (ground arith))
]

pub all-is_digit-decimal : (n : ℕ) → all is_digit (decimal n) ≡ true
unfolding decimal all
all-is_digit-decimal n = decimal_from-digits (suc n) n [] refl

decimal_from-cons_ne_nil : (fuel n c : ℕ) (rest : Text) → decimal_from fuel n (c ∷ rest) ≢ []
unfolding decimal_from
decimal_from-cons_ne_nil zero n c rest = cc
decimal_from-cons_ne_nil (suc fuel) n c rest = elim (Bool-cases (ltb n 10)) [
  | inl t ↦ rw t (λ h. cc)
  | inr f ↦ rw f (decimal_from-cons_ne_nil fuel (n / 10) (b'0' + n % 10) (c ∷ rest))
]

pub decimal_ne_nil : (n : ℕ) → decimal n ≢ []
unfolding decimal decimal_from
decimal_ne_nil n = elim (Bool-cases (ltb n 10)) [
  | inl t ↦ rw t (λ h. cc)
  | inr f ↦ rw f (decimal_from-cons_ne_nil n (n / 10) (b'0' + n % 10) [])
]

number_from-decimal_from :
    (fuel n : ℕ) (rest : Text)
    → n < fuel
    → number_from 0 (decimal_from fuel n rest) ≡ number_from n rest
unfolding decimal_from number_from
number_from-decimal_from zero n rest h = absurd (omega arith)
number_from-decimal_from (suc fuel) n rest h = elim (Bool-cases (ltb n 10)) [
  | inl t ↦
      let e : 0 * 10 + (b'0' + n - b'0') ≡ n = omega arith in rw t (ap (λ k. number_from k rest) e)
  | inr f ↦
      let small : n / 10 < fuel = ground arith in
      let e : n / 10 * 10 + (b'0' + n % 10 - b'0') ≡ n = omega arith in
      rw (f, number_from-decimal_from fuel (n / 10) ((b'0' + n % 10) ∷ rest) small)
        (ap (λ k. number_from k rest) e)
]

pub number_from-decimal : (n : ℕ) → number_from 0 (decimal n) ≡ n
unfolding decimal number_from
number_from-decimal n = number_from-decimal_from (suc n) n [] (omega arith)
