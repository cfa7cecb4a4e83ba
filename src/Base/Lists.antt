-- ===== src/Base/Lists.antt =====
-- Lists measured by native numbers, membership as a computed type, and truncation to a length.
use Prim.Native.Nat.{ℕ, zero, suc, ◌+◌, ◌≤◌}
use mathlib.Core.Path.{◌≡◌, refl, ap, sym, ◌∙◌}
use mathlib.Core.Logic.{◌⊎◌, inl, inr}
use mathlib.Core.Bool.{Bool, true, false, ◌||◌, ◌&&◌}
use mathlib.Core.List.{List, [], ◌∷◌, ◌++◌, map}
use native.Mathlib.Omega.{arith}
use x_dsi_cet.Base.Tests.{if◌then◌else◌, Bool-cases}

module _ {ℓ} {A : Type ℓ} where
  abbrev pub length : List A → ℕ
  length [] = 0
  length (x ∷ xs) = suc (length xs)

  abbrev pub take : ℕ → List A → List A
  take zero xs = []
  take (suc n) [] = []
  take (suc n) (x ∷ xs) = x ∷ take n xs

  abbrev pub drop : ℕ → List A → List A
  drop zero xs = xs
  drop (suc n) [] = []
  drop (suc n) (x ∷ xs) = drop n xs

  pub length-append : (xs ys : List A) → length (xs ++ ys) ≡ length xs + length ys
  length-append [] ys = omega arith
  length-append (x ∷ xs) ys = omega (arith, length-append xs ys)

  pub length-take-le : (n : ℕ) (xs : List A) → length (take n xs) ≤ n
  length-take-le zero xs = omega arith
  length-take-le (suc n) [] = omega arith
  length-take-le (suc n) (x ∷ xs) = omega (arith, length-take-le n xs)

  -- Taking as many as there are, or more, takes the whole list.
  pub take_of_length-le : (most : ℕ) (ys : List A) → length ys ≤ most → take most ys ≡ ys
  take_of_length-le (suc most) (y ∷ ys) k = rw (take_of_length-le most ys (omega (arith, k))) refl
  take_of_length-le (suc most) [] k = refl
  take_of_length-le zero (y ∷ ys) k = absurd (omega (arith, k))
  take_of_length-le zero [] k = refl

  -- What is cut off early is cut off in the end.
  pub take-append-take : (n : ℕ) (xs ys : List A) → take n (take n xs ++ ys) ≡ take n (xs ++ ys)
  take-append-take zero xs ys = refl
  take-append-take (suc n) [] ys = refl
  take-append-take (suc n) (x ∷ xs) ys = ap (◌∷◌ x) (take-append-take n xs ys)

  -- A full list hides all that is appended.
  pub take-append-full : (n : ℕ) (xs ys : List A) → length xs ≡ n → take n (xs ++ ys) ≡ xs
  take-append-full zero [] ys h = refl
  take-append-full zero (x ∷ xs) ys h = absurd (omega arith)
  take-append-full (suc n) [] ys h = absurd (omega arith)
  take-append-full (suc n) (x ∷ xs) ys h = ap (◌∷◌ x) (take-append-full n xs ys (omega arith))

module _ {A : Type 0} where
  -- `In x xs`: the element stands in the list.
  abbrev pub In : A → List A → Type 0
  In x [] = ⊥
  In x (y ∷ ys) = (x ≡ y) ⊎ In x ys

  pub In-append_left : (x : A) (xs ys : List A) → In x xs → In x (xs ++ ys)
  In-append_left x [] ys h = elim h [ ]
  In-append_left x (y ∷ xs) ys (inl e) = inl e
  In-append_left x (y ∷ xs) ys (inr h) = inr (In-append_left x xs ys h)

  pub In-append_right : (x : A) (xs ys : List A) → In x ys → In x (xs ++ ys)
  In-append_right x [] ys h = h
  In-append_right x (y ∷ xs) ys h = inr (In-append_right x xs ys h)

  pub In-append_cases : (x : A) (xs ys : List A) → In x (xs ++ ys) → In x xs ⊎ In x ys
  In-append_cases x [] ys h = inr h
  In-append_cases x (y ∷ xs) ys (inl e) = inl (inl e)
  In-append_cases x (y ∷ xs) ys (inr h) = elim (In-append_cases x xs ys h) [
    | inl a ↦ inl (inr a)
    | inr b ↦ inr b
  ]

  pub In-take : (x : A) (n : ℕ) (xs : List A) → In x (take n xs) → In x xs
  In-take x zero xs h = elim h [ ]
  In-take x (suc n) [] h = elim h [ ]
  In-take x (suc n) (y ∷ xs) (inl e) = inl e
  In-take x (suc n) (y ∷ xs) (inr h) = inr (In-take x n xs h)

  pub In-if : (x : A) (b : Bool) (xs : List A) → In x (if b then xs else []) → (b ≡ true) × In x xs
  In-if x true xs h = (refl, h)
  In-if x false xs h = elim h [ ]

  -- The elements that pass a test, in order.
  unfoldable pub keep : (A → Bool) → List A → List A
  keep p [] = []
  keep p (x ∷ xs) = let rest = keep p xs in if p x then x ∷ rest else rest

  unfoldable pub any : (A → Bool) → List A → Bool
  any p [] = false
  any p (x ∷ xs) = p x || any p xs

  unfoldable pub all : (A → Bool) → List A → Bool
  all p [] = true
  all p (x ∷ xs) = p x && all p xs

  In-keep_head :
      (x : A) (p : A → Bool) (y : A) (xs : List A)
      → p y ≡ true
      → (In x (keep p xs) → (p x ≡ true) × In x xs)
      → In x (y ∷ keep p xs)
      → (p x ≡ true) × In x (y ∷ xs)
  In-keep_head x p y xs t ih (inl e) = (ap p e ∙ t, inl e)
  In-keep_head x p y xs t ih (inr k) = let r = ih k in (r.0, inr r.1)

  pub In-keep : (x : A) (p : A → Bool) (xs : List A) → In x (keep p xs) → (p x ≡ true) × In x xs
  unfolding keep
  In-keep x p [] h = elim h [ ]
  In-keep x p (y ∷ xs) h = elim (Bool-cases (p y)) [
    | inl t ↦ In-keep_head x p y xs t (In-keep x p xs) (rw t at h)
    | inr f ↦ let r = In-keep x p xs (rw f at h) in (r.0, inr r.1)
  ]

  pub keep-In : (x : A) (p : A → Bool) (xs : List A) → p x ≡ true → In x xs → In x (keep p xs)
  unfolding keep
  keep-In x p [] t h = elim h [ ]
  keep-In x p (y ∷ xs) t (inl e) = rw (ap p (sym e) ∙ t) (inl e)
  keep-In x p (y ∷ xs) t (inr h) = elim (Bool-cases (p y)) [
    | inl b ↦ rw b (inr (keep-In x p xs t h))
    | inr b ↦ rw b (keep-In x p xs t h)
  ]

  -- `All P xs`: the predicate holds of every element.
  abbrev pub All {κ} : (A → Type κ) → List A → Type κ
  All P [] = Unit
  All P (x ∷ xs) = P x × All P xs

  pub All-In {κ} : (P : A → Type κ) (xs : List A) → All P xs → (x : A) → In x xs → P x
  All-In P [] a x h = elim h [ ]
  All-In P (y ∷ xs) a x (inl e) = rw e a.0
  All-In P (y ∷ xs) a x (inr h) = All-In P xs a.1 x h

  pub All-of_In {κ} : (P : A → Type κ) (xs : List A) → ((x : A) → In x xs → P x) → All P xs
  All-of_In P [] f = tt
  All-of_In P (x ∷ xs) f = (f x (inl refl), All-of_In P xs (λ y h. f y (inr h)))

  -- `IsSubsequence xs ys`: `xs` is `ys` with elements left out.
  pub data IsSubsequence : List A → List A → Type 0 where
    nil : IsSubsequence [] []
    skip : {xs ys : List A} (y : A) → IsSubsequence xs ys → IsSubsequence xs (y ∷ ys)
    pick : {xs ys : List A} (y : A) → IsSubsequence xs ys → IsSubsequence (y ∷ xs) (y ∷ ys)

  pub nil-IsSubsequence : (ys : List A) → IsSubsequence [] ys
  nil-IsSubsequence [] = nil
  nil-IsSubsequence (y ∷ ys) = skip y (nil-IsSubsequence ys)

module _ {A B : Type 0} where
  pub In-map : (f : A → B) (x : A) (xs : List A) → In x xs → In (f x) (map f xs)
  In-map f x [] h = elim h [ ]
  In-map f x (y ∷ xs) (inl e) = inl (ap f e)
  In-map f x (y ∷ xs) (inr h) = inr (In-map f x xs h)

  pub map-In : (f : A → B) (b : B) (xs : List A) → In b (map f xs) → (x : A) × In x xs × (b ≡ f x)
  map-In f b [] h = elim h [ ]
  map-In f b (y ∷ xs) (inl e) = (y, inl refl, e)
  map-In f b (y ∷ xs) (inr h) = let (x, k, e) = map-In f b xs h in (x, inr k, e)

module _ {A : Type 0} (p : A → Bool) where
  pub any-In : (x : A) (xs : List A) → In x xs → p x ≡ true → any p xs ≡ true
  unfolding any
  any-In x [] h t = elim h [ ]
  any-In x (y ∷ xs) (inl e) t = rw (← e) (rw t)
  any-In x (y ∷ xs) (inr h) t = ground (arith, any-In x xs h t)

  pub any_none : (xs : List A) → ((x : A) → In x xs → p x ≡ false) → any p xs ≡ false
  unfolding any
  any_none [] f = refl
  any_none (x ∷ xs) f = rw (f x (inl refl)) (any_none xs (λ y h. f y (inr h)))

  pub any-eq-false : (x : A) (xs : List A) → any p xs ≡ false → In x xs → p x ≡ false
  any-eq-false x xs h k = elim (Bool-cases (p x)) [
    | inl t ↦ let e = any-In x xs k t in cc
    | inr f ↦ f
  ]
