-- ===== src/Base/TextSets.antt =====
-- Membership in a sorted list of texts and in the part of a list that passes a test.
use x_dsi_cet.Base.{
  ◌≡◌, refl, sym, ap, ◌∙◌, inl, inr, Bool, ◌&&◌, ◌||◌, List, [], ◌∷◌, arith, Bool-cases, keep,
}
use x_dsi_cet.Base.Text.{Text, text_eq, text_eq→eq, text_le}
use x_dsi_cet.Base.Dict.{text_key, has}
use x_dsi_cet.Base.Sort.{insert as sorted_insert, sort}

has-insert :
    (i x : Text) (xs : List Text) → has i (sorted_insert text_le x xs) ≡ (text_eq x i || has i xs)
unfolding has sorted_insert
has-insert i x [] = refl
has-insert i x (y ∷ ys) = elim (Bool-cases (text_le x y)) [
  | inl t ↦ rw t refl
  | inr f ↦ rw (f, has-insert i x ys) (ground arith)
]

pub has-sort : (i : Text) (xs : List Text) → has i (sort text_le xs) ≡ has i xs
unfolding sort has
has-sort i [] = refl
has-sort i (x ∷ xs) = has-insert i x (sort text_le xs) ∙ rw (has-sort i xs) refl

-- Keeping by a test on texts: the id is left if it was there and passes.
pub has-keep : (f : Text → Bool) (i : Text) (xs : List Text) → has i (keep f xs) ≡ (has i xs && f i)
unfolding keep has
has-keep f i [] = refl
has-keep f i (x ∷ xs) = elim (Bool-cases (text_eq x i)) [
  | inl t ↦
      let at : f x ≡ f i = ap f (text_eq→eq x i t) in
      elim (Bool-cases (f x)) [
        | inl y ↦ rw (y, t) (sym (sym at ∙ y))
        | inr n ↦ rw (n, t, has-keep f i xs, sym at ∙ n) (ground arith)
      ]
  | inr o ↦ elim (Bool-cases (f x)) [
    | inl y ↦ rw (y, o) (has-keep f i xs)
    | inr n ↦ rw (n, o) (has-keep f i xs)
  ]
]
