-- ===== src/Batch/Order.antt =====
-- The events that the batch programs give to the engine (jobs/recompute_trends_prod.py and
-- notebooks/0xDSI_CET_Databricks_prod.py): sorted by time, with each id once.
use x_dsi_cet.Base.{
  ◌≡◌, refl, ap, sym, ◌∙◌, ◌⊎◌, inl, inr, Bool, true, false, not, ◌&&◌, ◌||◌, List, [], ◌∷◌, map,
  Bool-cases, All, arith,
}
use x_dsi_cet.Base.Int.{ℤ, leb_ℤ, ltb_ℤ, eqb_ℤ, eqb_ℤ→eq, eqb_ℤ-refl}
use x_dsi_cet.Base.Dict.{int_key, has}
use x_dsi_cet.Base.Sort.{sort, insert, IsSorted, sort-IsSorted}
use x_dsi_cet.SecurityGraph.{NativeVertex}
use x_dsi_cet.Batch.{id_of, time_of, vertex_le, dedupe, prepared}

pub vertex_le_total : (a b : NativeVertex) → (vertex_le a b ≡ true) ⊎ (vertex_le b a ≡ true)
unfolding vertex_le
vertex_le_total a b = elim (Bool-cases (vertex_le a b)) [
  | inl t ↦ inl t
  | inr f ↦ inr (other (time_of a) (time_of b) (id_of a) (id_of b) f)
]
  where
    other :
        (t u i j : ℤ)
        → (ltb_ℤ t u || (eqb_ℤ t u && leb_ℤ i j)) ≡ false
        → (ltb_ℤ u t || (eqb_ℤ u t && leb_ℤ j i)) ≡ true
    other t u i j h = ground arith

pub vertex_le_trans :
    (a b c : NativeVertex) → vertex_le a b ≡ true → vertex_le b c ≡ true → vertex_le a c ≡ true
unfolding vertex_le
vertex_le_trans a b c = go (time_of a) (time_of b) (time_of c) (id_of a) (id_of b) (id_of c)
  where
    go :
        (t u v i j k : ℤ)
        → (ltb_ℤ t u || (eqb_ℤ t u && leb_ℤ i j)) ≡ true
        → (ltb_ℤ u v || (eqb_ℤ u v && leb_ℤ j k)) ≡ true
        → (ltb_ℤ t v || (eqb_ℤ t v && leb_ℤ i k)) ≡ true
    go t u v i j k g h = ground arith

abbrev pub ids : List NativeVertex → List ℤ
ids es = map id_of es

abbrev pub DistinctIds : List NativeVertex → Type 0
DistinctIds [] = Unit
DistinctIds (e ∷ es) = (has (id_of e) (ids es) ≡ false) × DistinctIds es

has-insert :
    (i : ℤ) (x : NativeVertex) (es : List NativeVertex)
    → has i (ids (insert vertex_le x es)) ≡ (eqb_ℤ (id_of x) i || has i (ids es))
unfolding insert has
has-insert i x [] = refl
has-insert i x (e ∷ es) = elim (Bool-cases (vertex_le x e)) [
  | inl t ↦ rw t refl
  | inr f ↦
      rw (f, has-insert i x es) (exchange (eqb_ℤ (id_of e) i) (eqb_ℤ (id_of x) i) (has i (ids es)))
]
  where
    exchange : (a b c : Bool) → (a || (b || c)) ≡ (b || (a || c))
    exchange a b c = ground arith

has-ids-sort : (i : ℤ) (es : List NativeVertex) → has i (ids (sort vertex_le es)) ≡ has i (ids es)
unfolding sort has
has-ids-sort i [] = refl
has-ids-sort i (e ∷ es) =
    has-insert i e (sort vertex_le es) ∙ ap (λ b. eqb_ℤ (id_of e) i || b) (has-ids-sort i es)

has_same : (i j : ℤ) (seen : List ℤ) → eqb_ℤ j i ≡ true → has i seen ≡ has j seen
has_same i j seen h = ap (λ k. has k seen) (sym (eqb_ℤ→eq j i h))

has-dedupe :
    (i : ℤ) (es : List NativeVertex) (seen : List ℤ)
    → has i (ids (dedupe seen es)) ≡ (has i (ids es) && not (has i seen))
unfolding dedupe has
has-dedupe i [] seen = refl
has-dedupe i (e ∷ es) seen =
    let ih = has-dedupe i es (id_of e ∷ seen) in
    elim (Bool-cases (has (id_of e) seen)) [
      | inl old ↦ rw (old, ih) (drop_old (eqb_ℤ (id_of e) i) _ _ _ old (has_same i (id_of e) seen))
      | inr new ↦ rw (new, ih) (keep_new (eqb_ℤ (id_of e) i) _ _ _ new (has_same i (id_of e) seen))
    ]
  where
    drop_old :
        (same more old old_e : Bool)
        → old_e ≡ true
        → (same ≡ true → old ≡ old_e)
        → (more && not (same || old)) ≡ ((same || more) && not old)
    drop_old same more old old_e h k = ground arith

    keep_new :
        (same more old old_e : Bool)
        → old_e ≡ false
        → (same ≡ true → old ≡ old_e)
        → (same || (more && not (same || old))) ≡ ((same || more) && not old)
    keep_new same more old old_e h k = ground arith

dedupe-DistinctIds : (es : List NativeVertex) (seen : List ℤ) → DistinctIds (dedupe seen es)
unfolding dedupe has
dedupe-DistinctIds [] seen = tt
dedupe-DistinctIds (e ∷ es) seen = elim (Bool-cases (has (id_of e) seen)) [
  | inl old ↦ rw old (dedupe-DistinctIds es (id_of e ∷ seen))
  | inr new ↦ rw new (gone, dedupe-DistinctIds es (id_of e ∷ seen))
]
  where
    never : (a b c : Bool) → a ≡ true → (b && not (a || c)) ≡ false
    never a b c h = ground arith

    gone : has (id_of e) (ids (dedupe (id_of e ∷ seen) es)) ≡ false
    gone = has-dedupe (id_of e) es (id_of e ∷ seen) ∙ never _ _ _ (eqb_ℤ-refl (id_of e))

pub All-dedupe :
    (P : NativeVertex → Type 0) (es : List NativeVertex) (seen : List ℤ)
    → All P es
    → All P (dedupe seen es)
unfolding dedupe
All-dedupe P [] seen h = tt
All-dedupe P (e ∷ es) seen (p, h) = elim (Bool-cases (has (id_of e) seen)) [
  | inl old ↦ rw old (All-dedupe P es (id_of e ∷ seen) h)
  | inr new ↦ rw new (p, All-dedupe P es (id_of e ∷ seen) h)
]

dedupe-IsSorted :
    (es : List NativeVertex) (seen : List ℤ)
    → IsSorted vertex_le es
    → IsSorted vertex_le (dedupe seen es)
unfolding dedupe
dedupe-IsSorted [] seen h = tt
dedupe-IsSorted (e ∷ es) seen (first, h) = elim (Bool-cases (has (id_of e) seen)) [
  | inl old ↦ rw old (dedupe-IsSorted es (id_of e ∷ seen) h)
  | inr new ↦ rw new (All-dedupe _ es (id_of e ∷ seen) first, dedupe-IsSorted es (id_of e ∷ seen) h)
]

-- The events that go to the engine are in the order of their times, and of their ids at equal
-- times; no id comes twice; and their ids are exactly those of the given events.
pub prepared-IsSorted :
    (es : List NativeVertex)
    → IsSorted vertex_le (prepared es)
      × DistinctIds (prepared es)
      × ((i : ℤ) → has i (ids (prepared es)) ≡ has i (ids es))
unfolding prepared has
prepared-IsSorted es = (
  dedupe-IsSorted (sort vertex_le es) []
      (sort-IsSorted vertex_le vertex_le_total vertex_le_trans es),
  dedupe-DistinctIds (sort vertex_le es) [],
  λ i. has-dedupe i (sort vertex_le es) [] ∙ all_new _ ∙ has-ids-sort i es,
)
  where
    all_new : (b : Bool) → (b && true) ≡ b
    all_new b = ground arith
