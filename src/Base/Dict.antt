-- ===== src/Base/Dict.antt =====
-- Python dictionaries and sets, as lists in insertion order with a test of equality on the keys.
use x_dsi_cet.Base.{
  ◌≡◌, refl, sym, ap, ◌∙◌, ◌⊎◌, inl, inr, Bool, true, false, not, ◌&&◌, ◌||◌, Option, none, some,
  List, [], ◌∷◌, ◌++◌, arith, if◌then◌else◌, Bool-cases, In,
}
use x_dsi_cet.Base.Int.{ℤ, eqb_ℤ, eqb_ℤ→eq, eq→eqb_ℤ}
use x_dsi_cet.Base.Text.{Text, text_eq, text_eq→eq, eq→text_eq}

pub record Key (K : Type 0) : Type 0 where
  pub same : K → K → Bool
  pub same→eq : (a b : K) → same a b ≡ true → a ≡ b
  pub eq→same : (a b : K) → a ≡ b → same a b ≡ true

instance abbrev pub int_key : Key ℤ
int_key = record { same = eqb_ℤ; same→eq = eqb_ℤ→eq; eq→same = eq→eqb_ℤ }

instance abbrev pub text_key : Key Text
text_key = record { same = text_eq; same→eq = text_eq→eq; eq→same = eq→text_eq }

abbrev pub Dict : Type 0 → Type 0 → Type 0
Dict K V = List (K × V)

module _ {K : Type 0} ⦃q : Key K⦄ where
  pub same_refl : (a : K) → q.same a a ≡ true
  same_refl a = q.eq→same a a refl

  pub same-sym : (a b : K) → q.same a b ≡ q.same b a
  same-sym a b = elim (Bool-cases (q.same a b)) [
    | inl t ↦ t ∙ sym (q.eq→same b a (sym (q.same→eq a b t)))
    | inr f ↦ elim (Bool-cases (q.same b a)) [
      | inl t ↦ absurd (clash f (q.eq→same a b (sym (q.same→eq b a t))))
      | inr g ↦ f ∙ sym g
    ]
  ]
    where
      clash : q.same a b ≡ false → q.same a b ≡ true → ⊥
      clash f t = cc

  -- A set of keys: a list in which `has` is all that counts.
  unfoldable pub has : K → List K → Bool
  has k [] = false
  has k (j ∷ js) = q.same j k || has k js

  unfoldable pub add : K → List K → List K
  unfolding has
  add k js = if has k js then js else js ++ k ∷ []

  unfoldable pub discard : K → List K → List K
  discard k [] = []
  discard k (j ∷ js) = let rest = discard k js in if q.same j k then rest else j ∷ rest

  pub has-append : (k : K) (xs ys : List K) → has k (xs ++ ys) ≡ (has k xs || has k ys)
  unfolding has
  has-append k [] ys = refl
  has-append k (x ∷ xs) ys = ground (arith, has-append k xs ys)

  pub has-add : (k j : K) (js : List K) → has k (add j js) ≡ (q.same j k || has k js)
  unfolding add has
  has-add k j js = elim (Bool-cases (has j js)) [
    | inl old ↦ rw old (known (Bool-cases (q.same j k)) old)
    | inr new ↦ rw new (ground (arith, has-append k js (j ∷ [])))
  ]
    where
      known :
          (q.same j k ≡ true) ⊎ (q.same j k ≡ false)
          → has j js ≡ true
          → has k js ≡ (q.same j k || has k js)
      known (inl t) h = rw t (ap (λ i. has i js) (sym (q.same→eq j k t)) ∙ h)
      known (inr f) h = rw f

  pub has-discard : (k j : K) (js : List K) → has k (discard j js) ≡ (not (q.same j k) && has k js)
  unfolding discard has
  has-discard k j [] = ground arith
  has-discard k j (i ∷ js) = elim (Bool-cases (q.same i j)) [
    | inl t ↦ rw t (rw (q.same→eq i j t) (ground (arith, has-discard k j js)))
    | inr f ↦ rw f (kept f (Bool-cases (q.same i k)) (has-discard k j js))
  ]
    where
      kept :
          q.same i j ≡ false
          → (q.same i k ≡ true) ⊎ (q.same i k ≡ false)
          → has k (discard j js) ≡ (not (q.same j k) && has k js)
          → (q.same i k || has k (discard j js)) ≡ (not (q.same j k) && (q.same i k || has k js))
      kept f (inl t) h =
          let apart : q.same j k ≡ false =
            ap (q.same j) (sym (q.same→eq i k t)) ∙ same-sym j i ∙ f in
          rw (t, apart)
      kept f (inr g) h = rw g h

abbrev or_default : {V : Type 0} → V → Option V → V
or_default d none = d
or_default d (some v) = v

module _ {K V : Type 0} ⦃q : Key K⦄ where
  unfoldable pub lookup : K → Dict K V → Option V
  lookup k [] = none
  lookup k ((j, v) ∷ m) = if q.same j k then some v else lookup k m

  -- `d[k] = v` keeps the place of a key that is there.
  unfoldable pub insert : K → V → Dict K V → Dict K V
  insert k v [] = (k, v) ∷ []
  insert k v ((j, w) ∷ m) = if q.same j k then (j, v) ∷ m else (j, w) ∷ insert k v m

  -- `d.pop(k, None)`.
  unfoldable pub remove : K → Dict K V → Dict K V
  remove k [] = []
  remove k ((j, w) ∷ m) = let rest = remove k m in if q.same j k then rest else (j, w) ∷ rest

  unfoldable pub get_or : K → V → Dict K V → V
  unfolding lookup
  get_or k d m = or_default d (lookup k m)

  unfoldable pub values : Dict K V → List V
  values [] = []
  values ((j, v) ∷ m) = v ∷ values m

  unfoldable pub keys : Dict K V → List K
  keys [] = []
  keys ((j, v) ∷ m) = j ∷ keys m

  pub lookup-insert :
      (k j : K) (v : V) (m : Dict K V)
      → lookup j (insert k v m) ≡ (if q.same k j then some v else lookup j m)
  unfolding lookup insert
  lookup-insert k j v [] = refl
  lookup-insert k j v ((i, w) ∷ m) = elim (Bool-cases (q.same i k)) [
    | inl t ↦ rw t (replaced t (Bool-cases (q.same i j)))
    | inr f ↦ rw f (later f (Bool-cases (q.same i j)) (lookup-insert k j v m))
  ]
    where
      replaced :
          q.same i k ≡ true
          → (q.same i j ≡ true) ⊎ (q.same i j ≡ false)
          → (if q.same i j then some v else lookup j m)
            ≡ (if q.same k j then some v else if q.same i j then some w else lookup j m)
      replaced t (inl u) = rw (u, ap (λ x. q.same x j) (sym (q.same→eq i k t)) ∙ u)
      replaced t (inr g) = rw (g, ap (λ x. q.same x j) (sym (q.same→eq i k t)) ∙ g)

      later :
          q.same i k ≡ false
          → (q.same i j ≡ true) ⊎ (q.same i j ≡ false)
          → lookup j (insert k v m) ≡ (if q.same k j then some v else lookup j m)
          → (if q.same i j then some w else lookup j (insert k v m))
            ≡ (if q.same k j then some v else if q.same i j then some w else lookup j m)
      later f (inl u) ih =
          let apart : q.same k j ≡ false =
            ap (q.same k) (sym (q.same→eq i j u)) ∙ same-sym k i ∙ f in
          rw (u, apart)
      later f (inr g) ih = rw g ih

  pub lookup-remove :
      (k j : K) (m : Dict K V) → lookup j (remove k m) ≡ (if q.same k j then none else lookup j m)
  unfolding lookup remove
  lookup-remove k j [] = ground arith
  lookup-remove k j ((i, w) ∷ m) = elim (Bool-cases (q.same i k)) [
    | inl t ↦ rw t (rw (q.same→eq i k t) (ground (arith, lookup-remove k j m)))
    | inr f ↦ rw f (kept f (Bool-cases (q.same i j)) (lookup-remove k j m))
  ]
    where
      kept :
          q.same i k ≡ false
          → (q.same i j ≡ true) ⊎ (q.same i j ≡ false)
          → lookup j (remove k m) ≡ (if q.same k j then none else lookup j m)
          → (if q.same i j then some w else lookup j (remove k m))
            ≡ (if q.same k j then none else if q.same i j then some w else lookup j m)
      kept f (inl u) ih =
          let apart : q.same k j ≡ false =
            ap (q.same k) (sym (q.same→eq i j u)) ∙ same-sym k i ∙ f in
          rw (u, apart)
      kept f (inr g) ih = rw g ih

  abbrev pub DistinctKeys : Dict K V → Type 0
  DistinctKeys [] = Unit
  DistinctKeys ((j, v) ∷ m) = (has j (keys m) ≡ false) × DistinctKeys m

  pub has-keys-insert :
      (k j : K) (v : V) (m : Dict K V)
      → has j (keys (insert k v m)) ≡ (q.same k j || has j (keys m))
  unfolding has keys insert
  has-keys-insert k j v [] = refl
  has-keys-insert k j v ((i, w) ∷ m) = elim (Bool-cases (q.same i k)) [
    | inl t ↦ rw t (rw (q.same→eq i k t) (ground arith))
    | inr f ↦ rw f (ground (arith, has-keys-insert k j v m))
  ]

  pub has-keys-remove :
      (k j : K) (m : Dict K V) → has j (keys (remove k m)) ≡ true → has j (keys m) ≡ true
  unfolding has keys remove
  has-keys-remove k j [] h = h
  has-keys-remove k j ((i, w) ∷ m) h = ground (arith, has-keys-remove k j m)

  pub insert-DistinctKeys :
      (k : K) (v : V) (m : Dict K V) → DistinctKeys m → DistinctKeys (insert k v m)
  unfolding insert keys has
  insert-DistinctKeys k v [] d = (refl, tt)
  insert-DistinctKeys k v ((i, w) ∷ m) d = elim (Bool-cases (q.same i k)) [
    | inl t ↦ rw t d
    | inr f ↦
        rw f (ground (arith, has-keys-insert k i v m, same-sym k i), insert-DistinctKeys k v m d.1)
  ]

  pub remove-DistinctKeys : (k : K) (m : Dict K V) → DistinctKeys m → DistinctKeys (remove k m)
  unfolding remove keys
  remove-DistinctKeys k [] d = tt
  remove-DistinctKeys k ((i, w) ∷ m) d = elim (Bool-cases (q.same i k)) [
    | inl t ↦ rw t (remove-DistinctKeys k m d.1)
    | inr f ↦ rw f (ground (arith, has-keys-remove k i m), remove-DistinctKeys k m d.1)
  ]

  pub lookup-has : (k : K) (v : V) (m : Dict K V) → lookup k m ≡ some v → has k (keys m) ≡ true
  unfolding lookup has keys
  lookup-has k v [] h = cc
  lookup-has k v ((i, w) ∷ m) h = ground (arith, lookup-has k v m)

  -- Every value is found under its key.
  pub In-values :
      (v : V) (m : Dict K V) → DistinctKeys m → In v (values m) → (k : K) × (lookup k m ≡ some v)
  unfolding values lookup
  In-values v ((i, w) ∷ m) d (inl e) = (i, rw (same_refl i) (ap some (sym e)))
  In-values v ((i, w) ∷ m) d (inr h) =
      let (k, found) = In-values v m d.1 h in (k, past k found (Bool-cases (q.same i k)))
    where
      past :
          (k : K)
          → lookup k m ≡ some v
          → (q.same i k ≡ true) ⊎ (q.same i k ≡ false)
          → (if q.same i k then some w else lookup k m) ≡ some v
      past k found (inl t) =
          let there = lookup-has i v m (ap (λ x. lookup x m) (q.same→eq i k t) ∙ found) in
          absurd (clash d.0 there)
        where
          clash : has i (keys m) ≡ false → has i (keys m) ≡ true → ⊥
          clash f t = cc
      past k found (inr f) = rw f found
  In-values v [] d h = elim h [ ]

  pub lookup-In : (k : K) (v : V) (m : Dict K V) → lookup k m ≡ some v → In v (values m)
  unfolding values lookup
  lookup-In k v [] h = cc
  lookup-In k v ((i, w) ∷ m) h = elim (Bool-cases (q.same i k)) [
    | inl t ↦ let e : some w ≡ some v = rw t at h in inl (cc)
    | inr f ↦ inr (lookup-In k v m (rw f at h))
  ]

  pub get_or-insert :
      (k j : K) (v d : V) (m : Dict K V)
      → get_or j d (insert k v m) ≡ (if q.same k j then v else get_or j d m)
  unfolding get_or
  get_or-insert k j v d m = elim (Bool-cases (q.same k j)) [
    | inl t ↦ rw (lookup-insert k j v m, t)
    | inr f ↦ rw (lookup-insert k j v m, f)
  ]

  pub get_or-remove :
      (k j : K) (d : V) (m : Dict K V)
      → get_or j d (remove k m) ≡ (if q.same k j then d else get_or j d m)
  unfolding get_or
  get_or-remove k j d m = elim (Bool-cases (q.same k j)) [
    | inl t ↦ rw (lookup-remove k j m, t)
    | inr f ↦ rw (lookup-remove k j m, f)
  ]
