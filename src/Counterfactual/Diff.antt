-- ===== src/Counterfactual/Diff.antt =====
-- The ids of the three parts of a difference.
use x_dsi_cet.Base.{
  ◌≡◌, refl, ◌∙◌, inl, inr, Bool, true, not, ◌&&◌, ◌||◌, none, some, List, [], ◌∷◌, map, arith,
  Bool-cases, keep,
}
use x_dsi_cet.Base.Text.{Text, text_eq, text_eq→eq, text_le}
use x_dsi_cet.Base.Dict.{Dict, text_key, lookup, insert, keys, has, lookup-insert, has-keys-insert}
use x_dsi_cet.Base.Sort.{sort}
use x_dsi_cet.Base.TextSets.{has-sort, has-keep}
use x_dsi_cet.Counterfactual.{TrendRow, by_id, rows_at, only_in, in_both, diff_trend_sets}

abbrev pub ids : List TrendRow → List Text
ids rows = map (λ (t : TrendRow). t.trend_id) rows

abbrev ById : Dict Text TrendRow → Type 0
ById d = (i : Text) (t : TrendRow) → lookup i d ≡ some t → t.trend_id ≡ i

insert-ById : (t : TrendRow) (d : Dict Text TrendRow) → ById d → ById (insert t.trend_id t d)
insert-ById t d v i u = elim (Bool-cases (text_eq t.trend_id i)) [
  | inl same ↦ rw (lookup-insert t.trend_id i t d, same) (own (text_eq→eq t.trend_id i same))
  | inr other ↦ rw (lookup-insert t.trend_id i t d, other) (v i u)
]
  where
    own : t.trend_id ≡ i → some t ≡ some u → u.trend_id ≡ i
    own same h = cc

by_id-ById : (rows : List TrendRow) (d : Dict Text TrendRow) → ById d → ById (by_id rows d)
unfolding by_id
by_id-ById [] d v = v
by_id-ById (t ∷ rows) d v = by_id-ById rows (insert t.trend_id t d) (insert-ById t d v)

has-keys-by_id :
    (i : Text) (rows : List TrendRow) (d : Dict Text TrendRow)
    → has i (keys (by_id rows d)) ≡ (has i (ids rows) || has i (keys d))
unfolding by_id has
has-keys-by_id i [] d = refl
has-keys-by_id i (t ∷ rows) d =
    has-keys-by_id i rows (insert t.trend_id t d)
    ∙ rw (has-keys-insert t.trend_id i t d) (ground arith)

lookup_of_has :
    (i : Text) (d : Dict Text TrendRow)
    → has i (keys d) ≡ true
    → (t : TrendRow) × (lookup i d ≡ some t)
unfolding has keys lookup
lookup_of_has i [] h = cc
lookup_of_has i ((j, t) ∷ d) h = elim (Bool-cases (text_eq j i)) [
  | inl y ↦ (t, rw y)
  | inr n ↦ let (u, found) = lookup_of_has i d (rw n at h) in (u, rw n found)
]

abbrev AreKeys : List Text → Dict Text TrendRow → Type 0
AreKeys is d = (i : Text) → has i is ≡ true → has i (keys d) ≡ true

has-ids-rows_at :
    (is : List Text) (d : Dict Text TrendRow)
    → ById d
    → AreKeys is d
    → (i : Text) → has i (ids (rows_at is d)) ≡ has i is
unfolding rows_at has
has-ids-rows_at [] d v k i = refl
has-ids-rows_at (j ∷ is) d v k i =
    let (t, found) = lookup_of_has j d (k j (ground (arith, text_key.eq→same j j refl))) in
    let rest = has-ids-rows_at is d v (λ x h. k x (ground arith)) i in
    rw (found, v j t found, rest) refl

-- The trends added are those of the candidate alone, those removed are of the base alone, and the
-- common ones are of both, each id by id.
pub diff_trend_sets-ids :
    (base candidate : List TrendRow) (i : Text)
    → (has i (ids (diff_trend_sets base candidate).added)
        ≡ (has i (ids candidate) && not (has i (ids base))))
      × (has i (ids (diff_trend_sets base candidate).removed)
          ≡ (has i (ids base) && not (has i (ids candidate))))
      × (has i (ids (diff_trend_sets base candidate).common)
          ≡ (has i (ids candidate) && has i (ids base)))
unfolding diff_trend_sets only_in in_both lookup keys has
diff_trend_sets-ids base candidate i =
    let b = by_id base [] in
    let c = by_id candidate [] in
    let named_b = by_id-ById base [] (λ j t h. absurd (never h)) in
    let named_c = by_id-ById candidate [] (λ j t h. absurd (never h)) in
    (
      has-ids-rows_at (only_in (keys c) (keys b)) c named_c (λ j h. left_of j _ _ h) i
          ∙ part i _ (keys c)
          ∙ rw (from_rows candidate, from_rows base) refl,
      has-ids-rows_at (only_in (keys b) (keys c)) b named_b (λ j h. left_of j _ _ h) i
          ∙ part i _ (keys b)
          ∙ rw (from_rows candidate, from_rows base) refl,
      has-ids-rows_at (in_both (keys c) (keys b)) c named_c (λ j h. left_of j _ _ h) i
          ∙ part i _ (keys c)
          ∙ rw (from_rows candidate, from_rows base) refl,
    )
  where
    never : {t : TrendRow} → none ≡ some t → ⊥
    never h = cc

    part :
        (j : Text) (f : Text → Bool) (xs : List Text)
        → has j (sort text_le (keep f xs)) ≡ (has j xs && f j)
    part j f xs = has-sort j (keep f xs) ∙ has-keep f j xs

    left_of :
        (j : Text) (f : Text → Bool) (xs : List Text)
        → has j (sort text_le (keep f xs)) ≡ true
        → has j xs ≡ true
    left_of j f xs h = let e = part j f xs in ground arith

    from_rows : (rows : List TrendRow) → has i (keys (by_id rows [])) ≡ has i (ids rows)
    from_rows rows = has-keys-by_id i rows [] ∙ ground arith
