-- ===== src/Batch/Earliest.antt =====
-- The preparation of the events of a partition keeps the earliest event of each id.
use mathlib.Core.Path.{subst}
use x_dsi_cet.Base.{
  ◌≡◌, refl, sym, ap, ◌∙◌, inl, inr, Bool, true, false, ◌&&◌, ◌||◌, none, some, List, [], ◌∷◌,
  Bool-cases, All-In, All-of_In, In, arith,
}
use x_dsi_cet.Base.Int.{ℤ, leb_ℤ, ltb_ℤ, eqb_ℤ, eqb_ℤ→eq, eq→eqb_ℤ}
use x_dsi_cet.Base.Dict.{int_key, has, lookup}
use x_dsi_cet.Base.Sort.{sort, In-sort, sort-In, IsSorted, sort-IsSorted}
use x_dsi_cet.SecurityGraph.{NativeVertex}
use x_dsi_cet.Batch.{id_of, time_of, vertex_le, dedupe, prepared, times_by_id, known_times}
use x_dsi_cet.Batch.Order.{prepared-IsSorted, vertex_le_total, vertex_le_trans, All-dedupe}
use x_dsi_cet.Batch.Times.{known_times-In, In-known_times, times_by_id-time, lookup-times_by_id}

vertex_le-time : (a b : NativeVertex) → vertex_le a b ≡ true → leb_ℤ (time_of a) (time_of b) ≡ true
unfolding vertex_le
vertex_le-time a b h = go (time_of a) (time_of b) (leb_ℤ (id_of a) (id_of b)) h
  where
    go : (t u : ℤ) (l : Bool) → (ltb_ℤ t u || (eqb_ℤ t u && l)) ≡ true → leb_ℤ t u ≡ true
    go t u l h = ground arith

-- An event with the id, at that time or before.
abbrev pub FirstOf : List NativeVertex → NativeVertex → Type 0
FirstOf es e =
    (f : NativeVertex) × In f es × (id_of f ≡ id_of e) × (leb_ℤ (time_of f) (time_of e) ≡ true)

FirstOf-behind : (x e : NativeVertex) (es : List NativeVertex) → FirstOf es e → FirstOf (x ∷ es) e
FirstOf-behind x e es (f, i, same, le) = (f, inr i, same, le)

dedupe-FirstOf :
    (es : List NativeVertex) (seen : List ℤ) (e : NativeVertex)
    → IsSorted vertex_le es
    → In e es
    → has (id_of e) seen ≡ false
    → FirstOf (dedupe seen es) e
unfolding dedupe has
dedupe-FirstOf [] seen e s i n = absurd i
dedupe-FirstOf (x ∷ es) seen e (first, s) i n = elim (Bool-cases (eqb_ℤ (id_of x) (id_of e))) [
  | inl t ↦
      let same = eqb_ℤ→eq (id_of x) (id_of e) t in
      let new : has (id_of x) seen ≡ false = ap (λ j. has j seen) same ∙ n in
      rw new (x, inl refl, same, at_or_after i)
  | inr f ↦
      let later = dedupe-FirstOf es (id_of x ∷ seen) e s (other f i) (rw f n) in
      elim (Bool-cases (has (id_of x) seen)) [
        | inl old ↦ rw old later
        | inr new ↦ rw new (FirstOf-behind x e (dedupe (id_of x ∷ seen) es) later)
      ]
]
  where
    same_time : (t : ℤ) → leb_ℤ t t ≡ true
    same_time t = ground arith

    at_or_after : In e (x ∷ es) → leb_ℤ (time_of x) (time_of e) ≡ true
    at_or_after (inl same) =
        subst (λ (y : NativeVertex). leb_ℤ (time_of x) (time_of y) ≡ true) (sym same)
          (same_time (time_of x))
    at_or_after (inr k) = vertex_le-time x e (All-In (λ y. vertex_le x y ≡ true) es first e k)

    clash : eqb_ℤ (id_of x) (id_of e) ≡ false → id_of x ≡ id_of e → ⊥
    clash f same = let t = eq→eqb_ℤ (id_of x) (id_of e) same in differ f t
      where
        differ : {b : Bool} → b ≡ false → b ≡ true → ⊥
        differ f t = cc

    other : eqb_ℤ (id_of x) (id_of e) ≡ false → In e (x ∷ es) → In e es
    other f (inl same) = absurd (clash f (sym (ap id_of same)))
    other f (inr k) = k

prepared-FirstOf : (es : List NativeVertex) (e : NativeVertex) → In e es → FirstOf (prepared es) e
unfolding prepared has
prepared-FirstOf es e i =
    dedupe-FirstOf (sort vertex_le es) [] e
      (sort-IsSorted vertex_le vertex_le_total vertex_le_trans es) (sort-In vertex_le e es i) refl

In-prepared : (es : List NativeVertex) (e : NativeVertex) → In e (prepared es) → In e es
unfolding prepared
In-prepared es e i = In-sort vertex_le e es (
    All-In (λ f. In f (sort vertex_le es)) (dedupe [] (sort vertex_le es))
      (All-dedupe (λ f. In f (sort vertex_le es)) (sort vertex_le es) []
        (All-of_In _ (sort vertex_le es) (λ f j. j)))
      e i)

-- The times that are found for a path in the given events.
abbrev pub path_times : List NativeVertex → List ℤ → List ℤ
path_times es path = known_times (times_by_id [] (prepared es)) path

-- Each event with an id of the path has an earliest one with that id, whose time is found.
pub path_times-of_event :
    (es : List NativeVertex) (path : List ℤ) (e : NativeVertex)
    → In e es
    → has (id_of e) path ≡ true
    → (f : NativeVertex) × In f es
      × (id_of f ≡ id_of e)
      × (leb_ℤ (time_of f) (time_of e) ≡ true)
      × In (time_of f) (path_times es path)
path_times-of_event es path e i h =
    let (f, j, same, le) = prepared-FirstOf es e i in
    (
      f,
      In-prepared es f j,
      same,
      le,
      In-known_times (times_by_id [] (prepared es)) path (id_of f) (time_of f)
          (ap (λ k. has k path) same ∙ h)
          (times_by_id-time (prepared es) [] f (prepared-IsSorted es).1 j),
    )

-- Each time that is found is that of an event with an id of the path, and none with its id is
-- earlier.
pub path_times-event :
    (es : List NativeVertex) (path : List ℤ) (u : ℤ)
    → In u (path_times es path)
    → (f : NativeVertex) × In f es
      × (has (id_of f) path ≡ true)
      × (time_of f ≡ u)
      × ((s : NativeVertex) → In s es → id_of s ≡ id_of f → leb_ℤ (time_of f) (time_of s) ≡ true)
unfolding lookup
path_times-event es path u h =
    let (i, k, found) = known_times-In (times_by_id [] (prepared es)) path u h in
    elim (lookup-times_by_id (prepared es) [] i u found) [
      | inl nothing ↦ absurd (never nothing)
      | inr (f, j, same, time) ↦ (
        f,
        In-prepared es f j,
        ap (λ n. has n path) same ∙ k,
        time,
        λ s l eq. earliest f j s (prepared-FirstOf es s l) eq,
      )
    ]
  where
    never : none ≡ some u → ⊥
    never h = cc

    same_some : (a b : ℤ) → some a ≡ some b → a ≡ b
    same_some a b h = cc

    earliest :
        (f : NativeVertex)
        → In f (prepared es)
        → (s : NativeVertex) → FirstOf (prepared es) s
        → id_of s ≡ id_of f
        → leb_ℤ (time_of f) (time_of s) ≡ true
    earliest f j s (g, l, id, le) eq =
        let distinct = (prepared-IsSorted es).1 in
        let times : time_of g ≡ time_of f = same_some (time_of g) (time_of f) (
          sym (times_by_id-time (prepared es) [] g distinct l)
          ∙ ap (λ n. lookup n (times_by_id [] (prepared es))) (id ∙ eq)
          ∙ times_by_id-time (prepared es) [] f distinct j) in
        subst (λ (t : ℤ). leb_ℤ t (time_of s) ≡ true) times le
