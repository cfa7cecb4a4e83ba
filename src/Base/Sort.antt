-- ===== src/Base/Sort.antt =====
-- Python's `sorted` with a key: a stable insertion sort by a Boolean order, and what it keeps.
use x_dsi_cet.Base.{
  suc, ◌≡◌, refl, ap, ◌∙◌, ◌⊎◌, inl, inr, Bool, true, false, List, [], ◌∷◌, arith, if◌then◌else◌,
  Bool-cases, In, All, length,
}

module _ {A : Type 0} (le : A → A → Bool) where
  unfoldable pub insert : A → List A → List A
  insert x [] = x ∷ []
  insert x (y ∷ ys) = if le x y then x ∷ y ∷ ys else y ∷ insert x ys

  unfoldable pub sort : List A → List A
  unfolding insert
  sort [] = []
  sort (x ∷ xs) = insert x (sort xs)

  pub length-insert : (x : A) (ys : List A) → length (insert x ys) ≡ suc (length ys)
  unfolding insert
  length-insert x [] = refl
  length-insert x (y ∷ ys) = ground (arith, length-insert x ys)

  pub length-sort : (xs : List A) → length (sort xs) ≡ length xs
  unfolding sort
  length-sort [] = refl
  length-sort (x ∷ xs) = length-insert x (sort xs) ∙ ap suc (length-sort xs)

  In-insert_swap :
      {z x y : A} (r s : List A)
      → (In z r → (z ≡ x) ⊎ In z s)
      → In z (y ∷ r)
      → (z ≡ x) ⊎ In z (y ∷ s)
  In-insert_swap r s f (inl e) = inr (inl e)
  In-insert_swap r s f (inr h) = elim (f h) [ inl e ↦ inl e | inr k ↦ inr (inr k) ]

  pub In-insert : (z x : A) (ys : List A) → In z (insert x ys) → (z ≡ x) ⊎ In z ys
  unfolding insert
  In-insert z x [] h = h
  In-insert z x (y ∷ ys) h = elim (Bool-cases (le x y)) [
    | inl t ↦ rw t at h
    | inr f ↦ In-insert_swap _ ys (In-insert z x ys) (rw f at h)
  ]

  insert_swap :
      {z x y : A} (r s : List A)
      → ((z ≡ x) ⊎ In z s → In z r)
      → (z ≡ x) ⊎ In z (y ∷ s)
      → In z (y ∷ r)
  insert_swap r s f (inl e) = inr (f (inl e))
  insert_swap r s f (inr (inl e)) = inl e
  insert_swap r s f (inr (inr k)) = inr (f (inr k))

  pub insert-In : (z x : A) (ys : List A) → (z ≡ x) ⊎ In z ys → In z (insert x ys)
  unfolding insert
  insert-In z x [] h = h
  insert-In z x (y ∷ ys) h = elim (Bool-cases (le x y)) [
    | inl t ↦ rw t h
    | inr f ↦ rw f (insert_swap _ ys (insert-In z x ys) h)
  ]

  sort_cons : {z x : A} (r s : List A) → (In z r → In z s) → (z ≡ x) ⊎ In z r → (z ≡ x) ⊎ In z s
  sort_cons r s f (inl e) = inl e
  sort_cons r s f (inr h) = inr (f h)

  pub In-sort : (z : A) (xs : List A) → In z (sort xs) → In z xs
  unfolding sort
  In-sort z [] h = elim h [ ]
  In-sort z (x ∷ xs) h = sort_cons _ xs (In-sort z xs) (In-insert z x (sort xs) h)

  pub sort-In : (z : A) (xs : List A) → In z xs → In z (sort xs)
  unfolding sort
  sort-In z [] h = elim h [ ]
  sort-In z (x ∷ xs) h = insert-In z x (sort xs) (sort_cons xs _ (sort-In z xs) h)

  -- Every element stands at or before those behind it.
  abbrev pub IsSorted : List A → Type 0
  IsSorted [] = Unit
  IsSorted (x ∷ xs) = All (λ y. le x y ≡ true) xs × IsSorted xs

  module _ (total : (x y : A) → (le x y ≡ true) ⊎ (le y x ≡ true))
      (trans : (x y z : A) → le x y ≡ true → le y z ≡ true → le x z ≡ true) where
    All-le_trans :
        (x y : A) (ys : List A)
        → le x y ≡ true
        → All (λ z. le y z ≡ true) ys
        → All (λ z. le x z ≡ true) ys
    All-le_trans x y [] h a = tt
    All-le_trans x y (z ∷ ys) h a = (trans x y z h a.0, All-le_trans x y ys h a.1)

    All-insert :
        (z x : A) (ys : List A)
        → le z x ≡ true
        → All (λ y. le z y ≡ true) ys
        → All (λ y. le z y ≡ true) (insert x ys)
    unfolding insert
    All-insert z x [] h a = (h, tt)
    All-insert z x (y ∷ ys) h a = elim (Bool-cases (le x y)) [
      | inl t ↦ rw t (h, a)
      | inr f ↦ rw f (a.0, All-insert z x ys h a.1)
    ]

    insert-IsSorted : (x : A) (ys : List A) → IsSorted ys → IsSorted (insert x ys)
    unfolding insert
    insert-IsSorted x [] s = (tt, tt)
    insert-IsSorted x (y ∷ ys) s = elim (Bool-cases (le x y)) [
      | inl t ↦ rw t ((t, All-le_trans x y ys t s.0), s)
      | inr f ↦ rw f (All-insert y x ys (flipped f (total x y)) s.0, insert-IsSorted x ys s.1)
    ]
      where
        flipped : le x y ≡ false → (le x y ≡ true) ⊎ (le y x ≡ true) → le y x ≡ true
        flipped f (inl t) = cc
        flipped f (inr t) = t

    pub sort-IsSorted : (xs : List A) → IsSorted (sort xs)
    unfolding sort
    sort-IsSorted [] = tt
    sort-IsSorted (x ∷ xs) = insert-IsSorted x (sort xs) (sort-IsSorted xs)
