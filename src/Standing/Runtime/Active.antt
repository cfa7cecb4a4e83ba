-- ===== src/Standing/Runtime/Active.antt =====
-- The table of active trends: which ids `_reevaluate_partition` leaves in it.
use x_dsi_cet.Base.{
  All, ℕ, ◌≡◌, refl, sym, ap, ◌∙◌, ◌⊎◌, inl, inr, Bool, true, false, not, ◌&&◌, ◌||◌, none, some,
  List, [], ◌∷◌, arith, if◌then◌else◌, Bool-cases, keep,
}
use x_dsi_cet.Base.Text.{Text, text_eq, text_eq→eq}
use x_dsi_cet.Base.TextSets.{has-sort, has-keep}
use x_dsi_cet.Base.Dict.{
  Dict, text_key, lookup, insert, remove, keys, has, DistinctKeys, insert-DistinctKeys,
  remove-DistinctKeys, has-keys-insert, same-sym,
}
use x_dsi_cet.Base.Result.{ok, ◌>>=◌, >>=-eq-ok, ok-injective}
use x_dsi_cet.Value.{Event}
use x_dsi_cet.Platform.{Platform}
use x_dsi_cet.Dsl.Query.{QuerySpec, steps_of, referenced_event_types}
use x_dsi_cet.Dsl.Validate.{validate_path}
use x_dsi_cet.Features.{extract_trend_features}
use x_dsi_cet.Risk.{score_trend}
use x_dsi_cet.Standing.Match.{EventPath, match_query_paths}
use x_dsi_cet.Standing.Runtime.{
  relevant, features_found, Runtime, TrendEvent, positive_match, positive_event, valid_trends,
  evaluate_query_partition, store_trends, current_trends, ids_of_partition, sorted_difference,
  remove_all, update_all, new_active,
}

-- Every entry is a positive match under its own id.
abbrev pub IsEntry : Text → TrendEvent → Type 0
IsEntry k t = (t.trend_id ≡ k) × (t.event_type ≡ positive_match)

abbrev pub ById : Dict Text TrendEvent → Type 0
ById [] = Unit
ById ((k, t) ∷ d) = IsEntry k t × ById d

pub lookup-ById :
    (k : Text) (t : TrendEvent) (d : Dict Text TrendEvent)
    → ById d
    → lookup k d ≡ some t
    → IsEntry k t
unfolding lookup
lookup-ById k t [] v h = absurd (never h)
  where
    never : none ≡ some t → ⊥
    never h = cc
lookup-ById k t ((i, u) ∷ d) v h = elim (Bool-cases (text_eq i k)) [
  | inl y ↦ same (text_eq→eq i k y) (rw y at h)
  | inr n ↦ lookup-ById k t d v.1 (rw n at h)
]
  where
    same : i ≡ k → some u ≡ some t → IsEntry k t
    same at e =
        let (id, kind) = v.0 in
        let back : t ≡ u = cc in
        (
          ap (λ (x : TrendEvent). x.trend_id) back ∙ id ∙ at,
          ap (λ (x : TrendEvent). x.event_type) back ∙ kind,
        )

pub insert-ById :
    (k : Text) (t : TrendEvent) (d : Dict Text TrendEvent)
    → IsEntry k t
    → ById d
    → ById (insert k t d)
unfolding insert
insert-ById k t [] e v = (e, tt)
insert-ById k t ((i, u) ∷ d) e v = elim (Bool-cases (text_eq i k)) [
  | inl y ↦ rw y ((e.0 ∙ sym (text_eq→eq i k y), e.1), v.1)
  | inr n ↦ rw n (v.0, insert-ById k t d e v.1)
]

remove-ById : (k : Text) (d : Dict Text TrendEvent) → ById d → ById (remove k d)
unfolding remove
remove-ById k [] v = tt
remove-ById k ((i, u) ∷ d) v = elim (Bool-cases (text_eq i k)) [
  | inl y ↦ rw y (remove-ById k d v.1)
  | inr n ↦ rw n (v.0, remove-ById k d v.1)
]

remove_all-ById : (ids : List Text) (d : Dict Text TrendEvent) → ById d → ById (remove_all ids d)
unfolding remove_all
remove_all-ById [] d v = v
remove_all-ById (i ∷ ids) d v = remove_all-ById ids (remove i d) (remove-ById i d v)

update_all-ById : (c d : Dict Text TrendEvent) → ById c → ById d → ById (update_all c d)
unfolding update_all
update_all-ById [] d w v = v
update_all-ById ((i, t) ∷ c) d w v = update_all-ById c (insert i t d) w.1 (insert-ById i t d w.0 v)

pub new_active-ById :
    (p : Text) (active current : Dict Text TrendEvent)
    → ById active
    → ById current
    → ById (new_active p active current)
unfolding new_active
new_active-ById p active current v w =
    update_all-ById current (remove_all (ids_of_partition p active) active) w
      (remove_all-ById (ids_of_partition p active) active v)

pub has-keys-remove_eq :
    (k j : Text) (d : Dict Text TrendEvent)
    → has j (keys (remove k d)) ≡ (not (text_eq k j) && has j (keys d))
unfolding has keys remove
has-keys-remove_eq k j [] = ground arith
has-keys-remove_eq k j ((i, w) ∷ d) = elim (Bool-cases (text_eq i k)) [
  | inl t ↦ rw t (rw (text_eq→eq i k t) (ground (arith, has-keys-remove_eq k j d)))
  | inr f ↦ rw f (kept f (Bool-cases (text_eq i j)) (has-keys-remove_eq k j d))
]
  where
    kept :
        text_eq i k ≡ false
        → (text_eq i j ≡ true) ⊎ (text_eq i j ≡ false)
        → has j (keys (remove k d)) ≡ (not (text_eq k j) && has j (keys d))
        → (text_eq i j || has j (keys (remove k d)))
          ≡ (not (text_eq k j) && (text_eq i j || has j (keys d)))
    kept f (inl u) ih =
        let apart : text_eq k j ≡ false =
          ap (text_eq k) (sym (text_eq→eq i j u)) ∙ same-sym k i ∙ f in
        rw (u, apart)
    kept f (inr g) ih = rw g ih

has-keys-remove_all :
    (j : Text) (ids : List Text) (d : Dict Text TrendEvent)
    → has j (keys (remove_all ids d)) ≡ (not (has j ids) && has j (keys d))
unfolding remove_all has
has-keys-remove_all j [] d = refl
has-keys-remove_all j (i ∷ ids) d =
    has-keys-remove_all j ids (remove i d) ∙ rw (has-keys-remove_eq i j d) (ground arith)

has-keys-update_all :
    (j : Text) (c d : Dict Text TrendEvent)
    → has j (keys (update_all c d)) ≡ (has j (keys c) || has j (keys d))
unfolding update_all has keys
has-keys-update_all j [] d = refl
has-keys-update_all j ((i, t) ∷ c) d =
    has-keys-update_all j c (insert i t d) ∙ rw (has-keys-insert i j t d) (ground arith)

-- The trends of the partition are replaced by the current ones, and no other id goes.
pub has-keys-new_active :
    (j p : Text) (active current : Dict Text TrendEvent)
    → has j (keys (new_active p active current))
      ≡ (has j (keys current) || (not (has j (ids_of_partition p active)) && has j (keys active)))
unfolding new_active
has-keys-new_active j p active current =
    has-keys-update_all j current (remove_all (ids_of_partition p active) active)
    ∙ rw (has-keys-remove_all j (ids_of_partition p active) active)

pub has-ids_of_partition :
    (j p : Text) (d : Dict Text TrendEvent)
    → has j (ids_of_partition p d) ≡ true
    → has j (keys d) ≡ true
unfolding ids_of_partition has keys
has-ids_of_partition j p [] h = h
has-ids_of_partition j p ((i, t) ∷ d) h = ground (arith, has-ids_of_partition j p d)

pub has-sorted_difference :
    (j : Text) (a b : List Text) → has j (sorted_difference a b) ≡ (has j a && not (has j b))
unfolding sorted_difference
has-sorted_difference j a b = has-sort j _ ∙ has-keep (λ t. not (has t b)) j a

-- What an evaluation finds are positive matches of the partition, stored under their ids.
abbrev pub IsFoundIn : Text → TrendEvent → Type 0
IsFoundIn partition t = (t.event_type ≡ positive_match) × (t.partition_key ≡ partition)

abbrev pub AllFound : Text → List TrendEvent → Type 0
AllFound partition ts = All (IsFoundIn partition) ts

module _ (p : Platform) (rt : Runtime) where
  positive_event-IsFoundIn :
      (q : QuerySpec) (partition : Text) (revision : ℕ) (candidates : List Event) (path : EventPath)
      (t : TrendEvent)
      → positive_event p rt q partition revision candidates path ≡ ok t
      → IsFoundIn partition t
  unfolding positive_event
  positive_event-IsFoundIn q partition revision candidates path t h =
      let (found, _, h1) = >>=-eq-ok (extract_trend_features p path) _ h in
      let (features, _, h2) = >>=-eq-ok (features_found found) _ h1 in
      let (risk, _, h3) = >>=-eq-ok (score_trend p q path false) _ h2 in
      let same = sym (ok-injective _ t h3) in
      (ap (λ (u : TrendEvent). u.event_type) same, ap (λ (u : TrendEvent). u.partition_key) same)

  valid_trends-AllFound :
      (q : QuerySpec) (partition : Text) (revision : ℕ) (candidates : List Event)
      (paths : List EventPath) (ts : List TrendEvent)
      → valid_trends p rt q partition revision candidates paths ≡ ok ts
      → AllFound partition ts
  unfolding valid_trends
  valid_trends-AllFound q partition revision candidates [] ts h = rw (← ok-injective [] ts h) tt
  valid_trends-AllFound q partition revision candidates (path ∷ paths) ts h =
      let (valid, _, h1) = >>=-eq-ok (validate_path p q path candidates) _ h in
      by_test valid h1 (valid_trends-AllFound q partition revision candidates paths)
    where
      by_test :
          (b : Bool)
          → (if b
              then (positive_event p rt q partition revision candidates path >>= λ trend.
                  valid_trends p rt q partition revision candidates paths >>= λ rest.
                  ok (trend ∷ rest))
              else valid_trends p rt q partition revision candidates paths)
            ≡ ok ts
          → ((us : List TrendEvent)
              → valid_trends p rt q partition revision candidates paths ≡ ok us
              → AllFound partition us)
          → AllFound partition ts
      by_test false g ih = ih ts g
      by_test true g ih =
          let (t, found, g1) =
            >>=-eq-ok (positive_event p rt q partition revision candidates path) _ g in
          let (rest, more, g2) =
            >>=-eq-ok (valid_trends p rt q partition revision candidates paths) _ g1 in
          rw (← ok-injective _ ts g2)
            (positive_event-IsFoundIn q partition revision candidates path t found, ih rest more)

  pub evaluate-AllFound :
      (q : QuerySpec) (partition : Text) (events : List Event) (revision : ℕ) (ts : List TrendEvent)
      → evaluate_query_partition p rt q partition events revision ≡ ok ts
      → AllFound partition ts
  unfolding evaluate_query_partition
  evaluate-AllFound q partition events revision ts h =
      let (refs, _, h1) = >>=-eq-ok (referenced_event_types q) _ h in
      let (steps, _, h2) = >>=-eq-ok (steps_of q) _ h1 in
      valid_trends-AllFound q partition revision (keep (relevant refs) events)
        (match_query_paths steps q.within_ms (keep (relevant refs) events)
          rt.options.max_matches_per_query_partition)
        ts h2

  store_trends-ById :
      (partition : Text) (ts : List TrendEvent) (d : Dict Text TrendEvent)
      → AllFound partition ts
      → ById d
      → ById (store_trends p rt ts d)
  unfolding store_trends
  store_trends-ById partition [] d a v = v
  store_trends-ById partition (t ∷ ts) d a v =
      store_trends-ById partition ts (insert t.trend_id t d) a.1
        (insert-ById t.trend_id t d (refl, a.0.0) v)

  pub current_trends-ById :
      (queries : List QuerySpec) (partition : Text) (events : List Event) (revision : ℕ)
      (d current : Dict Text TrendEvent)
      → current_trends p rt queries partition events revision d ≡ ok current
      → ById d
      → ById current
  unfolding current_trends
  current_trends-ById [] partition events revision d current h v = rw (← ok-injective d current h) v
  current_trends-ById (q ∷ queries) partition events revision d current h v =
      let (ts, found, h1) =
        >>=-eq-ok (evaluate_query_partition p rt q partition events revision) _ h in
      current_trends-ById queries partition events revision (store_trends p rt ts d) current h1 (
        store_trends-ById partition ts d (evaluate-AllFound q partition events revision ts found) v)

remove_all-DistinctKeys :
    (ids : List Text) (d : Dict Text TrendEvent) → DistinctKeys d → DistinctKeys (remove_all ids d)
unfolding remove_all
remove_all-DistinctKeys [] d v = v
remove_all-DistinctKeys (i ∷ ids) d v =
    remove_all-DistinctKeys ids (remove i d) (remove-DistinctKeys i d v)

update_all-DistinctKeys :
    (c d : Dict Text TrendEvent) → DistinctKeys d → DistinctKeys (update_all c d)
unfolding update_all
update_all-DistinctKeys [] d v = v
update_all-DistinctKeys ((i, t) ∷ c) d v =
    update_all-DistinctKeys c (insert i t d) (insert-DistinctKeys i t d v)

pub new_active-DistinctKeys :
    (p : Text) (active current : Dict Text TrendEvent)
    → DistinctKeys active
    → DistinctKeys (new_active p active current)
unfolding new_active
new_active-DistinctKeys p active current v =
    update_all-DistinctKeys current (remove_all (ids_of_partition p active) active)
      (remove_all-DistinctKeys (ids_of_partition p active) active v)

-- An id stands in the list of a partition exactly if its trend is of the partition.
pub has-ids_of_partition_eq :
    (k p : Text) (t : TrendEvent) (d : Dict Text TrendEvent)
    → DistinctKeys d
    → lookup k d ≡ some t
    → has k (ids_of_partition p d) ≡ text_eq t.partition_key p
unfolding ids_of_partition lookup has keys
has-ids_of_partition_eq k p t [] v h = absurd (never h)
  where
    never : none ≡ some t → ⊥
    never h = cc
has-ids_of_partition_eq k p t ((i, u) ∷ d) v h = elim (Bool-cases (text_eq i k)) [
  | inl y ↦ here y (Bool-cases (text_eq u.partition_key p)) (rw y at h)
  | inr n ↦
      there n (Bool-cases (text_eq u.partition_key p))
        (has-ids_of_partition_eq k p t d v.1 (rw n at h))
]
  where
    absent : text_eq i k ≡ true → has k (ids_of_partition p d) ≡ false
    absent y = elim (Bool-cases (has k (ids_of_partition p d))) [
      | inl found ↦
          let key : has i (keys d) ≡ true =
            ap (λ j. has j (keys d)) (text_eq→eq i k y) ∙ has-ids_of_partition k p d found in
          absurd (clash key v.0)
      | inr none_found ↦ none_found
    ]
      where
        clash : has i (keys d) ≡ true → has i (keys d) ≡ false → ⊥
        clash a b = cc

    here :
        text_eq i k ≡ true
        → (text_eq u.partition_key p ≡ true) ⊎ (text_eq u.partition_key p ≡ false)
        → some u ≡ some t
        → has k
            (if text_eq u.partition_key p then i ∷ ids_of_partition p d else ids_of_partition p d)
          ≡ text_eq t.partition_key p
    here y (inl same) e =
        let back : u ≡ t = cc in
        rw same (rw y (sym (ap (λ (x : TrendEvent). text_eq x.partition_key p) (sym back) ∙ same)))
    here y (inr other) e =
        let back : u ≡ t = cc in
        rw other
          (absent y ∙ sym (ap (λ (x : TrendEvent). text_eq x.partition_key p) (sym back) ∙ other))

    there :
        text_eq i k ≡ false
        → (text_eq u.partition_key p ≡ true) ⊎ (text_eq u.partition_key p ≡ false)
        → has k (ids_of_partition p d) ≡ text_eq t.partition_key p
        → has k
            (if text_eq u.partition_key p then i ∷ ids_of_partition p d else ids_of_partition p d)
          ≡ text_eq t.partition_key p
    there n (inl same) ih = rw same (rw n ih)
    there n (inr other) ih = rw other ih
