-- ===== src/Batch/Times.antt =====
-- The times that the batch programs find for a path: those of the earliest events with its ids.

use x_dsi_cet.Base.{
  ◌≡◌, refl, sym, ap, ◌∙◌, ◌⊎◌, inl, inr, Bool, true, false, Option, none, some, List, [], ◌∷◌,
  Bool-cases, Option-cases, In, arith, if◌then◌else◌,
}
use x_dsi_cet.Base.Int.{ℤ, leb_ℤ, ltb_ℤ, eqb_ℤ, eqb_ℤ→eq, eqb_ℤ-refl, min_ℤ, max_ℤ}
use x_dsi_cet.Base.Dict.{Dict, int_key, has, lookup, insert, lookup-insert}
use x_dsi_cet.SecurityGraph.{NativeVertex}
use x_dsi_cet.Batch.{
  id_of, time_of, times_by_id, known_times, least_from, greatest_from, least, greatest,
}
use x_dsi_cet.Batch.Order.{ids, DistinctIds}

-- A time between two bounds that are there.
abbrev pub Between : Option ℤ → Option ℤ → ℤ → Type 0
Between (some a) (some b) x = (leb_ℤ a x ≡ true) × (leb_ℤ x b ≡ true)
Between (some a) none x = ⊥
Between none b x = ⊥

least_from-le : (t : ℤ) (ts : List ℤ) (x : ℤ) → In x (t ∷ ts) → leb_ℤ (least_from t ts) x ≡ true
unfolding least_from
least_from-le t [] x (inl e) = rw e (same t)
  where
    same : (t : ℤ) → leb_ℤ t t ≡ true
    same t = ground arith
least_from-le t [] x (inr h) = absurd h
least_from-le t (u ∷ ts) x (inr (inr h)) = least_from-le (min_ℤ t u) ts x (inr h)
least_from-le t (u ∷ ts) x (inr (inl e)) =
    rw e (lower t u (least_from (min_ℤ t u) ts) (least_from-le (min_ℤ t u) ts _ (inl refl)))
  where
    lower : (t u m : ℤ) → leb_ℤ m (min_ℤ t u) ≡ true → leb_ℤ m u ≡ true
    lower t u m h = ground arith
least_from-le t (u ∷ ts) x (inl e) =
    rw e (lower t u (least_from (min_ℤ t u) ts) (least_from-le (min_ℤ t u) ts _ (inl refl)))
  where
    lower : (t u m : ℤ) → leb_ℤ m (min_ℤ t u) ≡ true → leb_ℤ m t ≡ true
    lower t u m h = ground arith

le-greatest_from :
    (t : ℤ) (ts : List ℤ) (x : ℤ) → In x (t ∷ ts) → leb_ℤ x (greatest_from t ts) ≡ true
unfolding greatest_from
le-greatest_from t [] x (inl e) = rw e (same t)
  where
    same : (t : ℤ) → leb_ℤ t t ≡ true
    same t = ground arith
le-greatest_from t [] x (inr h) = absurd h
le-greatest_from t (u ∷ ts) x (inr (inr h)) = le-greatest_from (max_ℤ t u) ts x (inr h)
le-greatest_from t (u ∷ ts) x (inr (inl e)) =
    rw e (higher t u (greatest_from (max_ℤ t u) ts) (le-greatest_from (max_ℤ t u) ts _ (inl refl)))
  where
    higher : (t u m : ℤ) → leb_ℤ (max_ℤ t u) m ≡ true → leb_ℤ u m ≡ true
    higher t u m h = ground arith
le-greatest_from t (u ∷ ts) x (inl e) =
    rw e (higher t u (greatest_from (max_ℤ t u) ts) (le-greatest_from (max_ℤ t u) ts _ (inl refl)))
  where
    higher : (t u m : ℤ) → leb_ℤ (max_ℤ t u) m ≡ true → leb_ℤ t m ≡ true
    higher t u m h = ground arith

pub least-Between : (ts : List ℤ) (x : ℤ) → In x ts → Between (least ts) (greatest ts) x
unfolding least greatest
least-Between [] x h = absurd h
least-Between (t ∷ ts) x h = (least_from-le t ts x h, le-greatest_from t ts x h)

one_of_two : (t u m x : ℤ) (ts : List ℤ) → (m ≡ t) ⊎ (m ≡ u) → In x (m ∷ ts) → In x (t ∷ u ∷ ts)
one_of_two t u m x ts c (inr h) = inr (inr h)
one_of_two t u m x ts (inl c) (inl e) = inl (e ∙ c)
one_of_two t u m x ts (inr c) (inl e) = inr (inl (e ∙ c))

if-cases : (b : Bool) (t u : ℤ) → ((if b then u else t) ≡ t) ⊎ ((if b then u else t) ≡ u)
if-cases true t u = inr refl
if-cases false t u = inl refl

least_from-In : (t : ℤ) (ts : List ℤ) → In (least_from t ts) (t ∷ ts)
unfolding least_from
least_from-In t [] = inl refl
least_from-In t (u ∷ ts) =
    one_of_two t u (min_ℤ t u) _ ts (if-cases (ltb_ℤ u t) t u) (least_from-In (min_ℤ t u) ts)

greatest_from-In : (t : ℤ) (ts : List ℤ) → In (greatest_from t ts) (t ∷ ts)
unfolding greatest_from
greatest_from-In t [] = inl refl
greatest_from-In t (u ∷ ts) =
    one_of_two t u (max_ℤ t u) _ ts (if-cases (ltb_ℤ t u) t u) (greatest_from-In (max_ℤ t u) ts)

-- A bound that is there is one of the times.
abbrev pub IsOneOf : List ℤ → Option ℤ → Type 0
IsOneOf ts none = Unit
IsOneOf ts (some t) = In t ts

pub least-IsOneOf : (ts : List ℤ) → IsOneOf ts (least ts)
unfolding least
least-IsOneOf [] = tt
least-IsOneOf (t ∷ ts) = least_from-In t ts

pub greatest-IsOneOf : (ts : List ℤ) → IsOneOf ts (greatest ts)
unfolding greatest
greatest-IsOneOf [] = tt
greatest-IsOneOf (t ∷ ts) = greatest_from-In t ts

some_injective : (a b : ℤ) → some a ≡ some b → a ≡ b
some_injective a b h = cc

pub known_times-In :
    (found : Dict ℤ ℤ) (path : List ℤ) (u : ℤ)
    → In u (known_times found path)
    → (i : ℤ) × (has i path ≡ true) × (lookup i found ≡ some u)
unfolding known_times has
known_times-In found [] u h = absurd h
known_times-In found (i ∷ path) u h = elim (Option-cases (lookup i found)) [
  | inl e ↦ behind (known_times-In found path u (rw (known_times, e) at h))
  | inr (t, e) ↦
      let j : In u (t ∷ known_times found path) = rw (known_times, e) at h in
      elim j [
        | inl same ↦ (i, rw (eqb_ℤ-refl i) refl, e ∙ ap some (sym same))
        | inr k ↦ behind (known_times-In found path u k)
      ]
]
  where
    behind :
        (j : ℤ) × (has j path ≡ true) × (lookup j found ≡ some u)
        → (j : ℤ) × (has j (i ∷ path) ≡ true) × (lookup j found ≡ some u)
    behind (j, k, e) = (j, ground arith, e)

pub In-known_times :
    (found : Dict ℤ ℤ) (path : List ℤ) (i u : ℤ)
    → has i path ≡ true
    → lookup i found ≡ some u
    → In u (known_times found path)
unfolding known_times has
In-known_times found [] i u h e = cc
In-known_times found (j ∷ path) i u h e = elim (Bool-cases (eqb_ℤ j i)) [
  | inl t ↦
      let here : lookup j found ≡ some u = ap (λ k. lookup k found) (eqb_ℤ→eq j i t) ∙ e in
      rw (known_times, here) (inl refl)
  | inr f ↦
      let k = In-known_times found path i u (rw f at h) e in
      elim (Option-cases (lookup j found)) [
        | inl n ↦ rw (known_times, n) k
        | inr (t, s) ↦ rw (known_times, s) (inr k)
      ]
]

times_by_id-other :
    (es : List NativeVertex) (found : Dict ℤ ℤ) (i : ℤ)
    → has i (ids es) ≡ false
    → lookup i (times_by_id found es) ≡ lookup i found
unfolding times_by_id has
times_by_id-other [] found i h = refl
times_by_id-other (e ∷ es) found i h =
    let apart : eqb_ℤ (id_of e) i ≡ false = ground arith in
    times_by_id-other es (insert (id_of e) (time_of e) found) i (ground arith)
    ∙ rw (lookup-insert (id_of e) i (time_of e) found, apart) refl

has-ids : (e : NativeVertex) (es : List NativeVertex) → In e es → has (id_of e) (ids es) ≡ true
unfolding has
has-ids e [] h = absurd h
has-ids e (x ∷ es) (inl same) = rw (ap id_of same, eqb_ℤ-refl (id_of x)) refl
has-ids e (x ∷ es) (inr h) = let k = has-ids e es h in ground arith

-- The time of an event, where no two events have its id.
pub times_by_id-time :
    (es : List NativeVertex) (found : Dict ℤ ℤ) (e : NativeVertex)
    → DistinctIds es
    → In e es
    → lookup (id_of e) (times_by_id found es) ≡ some (time_of e)
unfolding times_by_id
times_by_id-time [] found e d h = absurd h
times_by_id-time (x ∷ es) found e d (inl same) =
    ap
      (λ (y : NativeVertex). lookup (id_of y) (times_by_id (insert (id_of x) (time_of x) found) es))
      same
    ∙ times_by_id-other es (insert (id_of x) (time_of x) found) (id_of x) d.0
    ∙ lookup-insert (id_of x) (id_of x) (time_of x) found
    ∙ rw (eqb_ℤ-refl (id_of x)) (ap (λ (y : NativeVertex). some (time_of y)) (sym same))
times_by_id-time (x ∷ es) found e d (inr h) =
    times_by_id-time es (insert (id_of x) (time_of x) found) e d.1 h

pub lookup-times_by_id :
    (es : List NativeVertex) (found : Dict ℤ ℤ) (i u : ℤ)
    → lookup i (times_by_id found es) ≡ some u
    → (lookup i found ≡ some u) ⊎ ((e : NativeVertex) × In e es × (id_of e ≡ i) × (time_of e ≡ u))
unfolding times_by_id
lookup-times_by_id [] found i u h = inl h
lookup-times_by_id (x ∷ es) found i u h =
    elim (lookup-times_by_id es (insert (id_of x) (time_of x) found) i u h) [
      | inr (e, k, same, time) ↦ inr (e, inr k, same, time)
      | inl known ↦
          let k : (if eqb_ℤ (id_of x) i then some (time_of x) else lookup i found) ≡ some u =
            sym (lookup-insert (id_of x) i (time_of x) found) ∙ known in
          elim (Bool-cases (eqb_ℤ (id_of x) i)) [
            | inl t ↦
                inr (x, inl refl, eqb_ℤ→eq (id_of x) i t, some_injective (time_of x) u (rw t at k))
            | inr f ↦ inl (rw f at k)
          ]
    ]

-- Two times that are both absent, or both there and in order.
abbrev pub IsInterval : Option ℤ → Option ℤ → Type 0
IsInterval none none = Unit
IsInterval (some a) (some b) = leb_ℤ a b ≡ true
IsInterval none (some b) = ⊥
IsInterval (some a) none = ⊥

pub least-IsInterval : (ts : List ℤ) → IsInterval (least ts) (greatest ts)
unfolding least greatest
least-IsInterval [] = tt
least-IsInterval (t ∷ ts) =
    through (least_from t ts) t (greatest_from t ts) (least_from-le t ts t (inl refl))
      (le-greatest_from t ts t (inl refl))
  where
    through : (a t b : ℤ) → leb_ℤ a t ≡ true → leb_ℤ t b ≡ true → leb_ℤ a b ≡ true
    through a t b h k = ground arith
