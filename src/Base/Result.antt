-- ===== src/Base/Result.antt =====
-- Python exceptions as values: a result, or the class of what was raised.
use x_dsi_cet.Base.{◌≡◌, refl, Bool, true, false, List, [], ◌∷◌, if◌then◌else◌}

pub data Error : Type 0 where
  value_error key_error type_error overflow_error runtime_error re_error attribute_error
        index_error :
      Error

pub data Result (A : Type 0) : Type 0 where
  ok : A → Result A
  raise : Error → Result A

infixl 5 ◌>>=◌ ◌>>◌
abbrev pub ◌>>=◌ : {A B : Type 0} → Result A → (A → Result B) → Result B
ok a >>= f = f a
raise e >>= f = raise e

abbrev pub ◌>>◌ : {B : Type 0} → Result (Unit {0}) → Result B → Result B
ok _ >> next = next
raise e >> next = raise e

-- `if not b: raise e`.
abbrev pub require : Bool → Error → Result (Unit {0})
require b e = if b then ok tt else raise e

-- What comes after a bind runs only where the first part gives a value.
pub >>=-eq-ok :
    {X Y : Type 0} (first : Result X) (next : X → Result Y) {y : Y}
    → (first >>= next) ≡ ok y
    → (x : X) × (first ≡ ok x) × (next x ≡ ok y)
>>=-eq-ok (raise e) next h = cc
>>=-eq-ok (ok x) next h = (x, refl, h)

pub >>-eq-ok :
    {X : Type 0} (first : Result (Unit {0})) (next : Result X) {y : X}
    → (first >> next) ≡ ok y
    → (first ≡ ok tt) × (next ≡ ok y)
>>-eq-ok (raise e) next h = cc
>>-eq-ok (ok _) next h = (refl, h)

pub ok-injective : {A : Type 0} (a b : A) → ok a ≡ ok b → a ≡ b
ok-injective a b h = cc

module _ {A : Type 0} where
  -- `all(f(x) for x in xs)` and `any(…)`: the first answer that settles it stops the loop.
  unfoldable pub all_ok : (A → Result Bool) → List A → Result Bool
  all_ok f [] = ok true
  all_ok f (x ∷ xs) = f x >>= λ b. if b then all_ok f xs else ok false

  unfoldable pub any_ok : (A → Result Bool) → List A → Result Bool
  any_ok f [] = ok false
  any_ok f (x ∷ xs) = f x >>= λ b. if b then ok true else any_ok f xs

  -- `[x for x in xs if f(x)]`.
  unfoldable pub keep_ok : (A → Result Bool) → List A → Result (List A)
  keep_ok f [] = ok []
  keep_ok f (x ∷ xs) = f x >>= λ b. keep_ok f xs >>= λ rest. ok (if b then x ∷ rest else rest)

module _ {A B : Type 0} where
  -- `[f(x) for x in xs]`.
  unfoldable pub map_ok : (A → Result B) → List A → Result (List B)
  map_ok f [] = ok []
  map_ok f (x ∷ xs) = f x >>= λ y. map_ok f xs >>= λ ys. ok (y ∷ ys)
