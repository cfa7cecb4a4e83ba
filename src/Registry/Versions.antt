-- ===== src/Registry/Versions.antt =====
-- What a registry that passes `validate_unique_versions` gives for `get`.
use x_dsi_cet.Base.{
  ◌≡◌, refl, ap, ◌∙◌, inl, inr, Bool, true, false, ◌&&◌, ◌||◌, some, List, [], ◌∷◌, arith,
  Bool-cases, keep, In, All,
}
use x_dsi_cet.Base.Text.{Text, text_eq, text_eq_refl}
use x_dsi_cet.Base.Dict.{text_key, same-sym}
use x_dsi_cet.Base.Result.{ok, raise}
use x_dsi_cet.Dsl.Query.{QuerySpec}
use x_dsi_cet.Registry.{matching, get_query, has_version, validate_from, validate_unique_versions}

abbrev same_version : QuerySpec → QuerySpec → Bool
same_version q r = text_eq r.query_id q.query_id && text_eq r.version q.version

same_version-sym : (q r : QuerySpec) → same_version q r ≡ same_version r q
same_version-sym q r = rw (same-sym r.query_id q.query_id, same-sym r.version q.version) refl

same_version_refl : (q : QuerySpec) → same_version q q ≡ true
same_version_refl q = rw (text_eq_refl q.query_id, text_eq_refl q.version) refl

abbrev DistinctVersions : List QuerySpec → Type 0
DistinctVersions [] = Unit
DistinctVersions (q ∷ rest) = (has_version q rest ≡ false) × DistinctVersions rest

abbrev AllNew : List QuerySpec → List QuerySpec → Type 0
AllNew seen queries = All (λ r. has_version r seen ≡ false) queries

AllNew-split :
    (q : QuerySpec) (seen rest : List QuerySpec)
    → AllNew (q ∷ seen) rest
    → AllNew seen rest × (has_version q rest ≡ false)
unfolding has_version
AllNew-split q seen [] h = (tt, refl)
AllNew-split q seen (r ∷ rest) h =
    let (new, apart) = AllNew-split q seen rest h.1 in
    let turn = same_version-sym q r in ((ground arith, new), ground arith)

validate_from-DistinctVersions :
    (seen queries : List QuerySpec)
    → validate_from seen queries ≡ ok tt
    → AllNew seen queries × DistinctVersions queries
unfolding validate_from
validate_from-DistinctVersions seen [] h = (tt, tt)
validate_from-DistinctVersions seen (q ∷ rest) h = elim (Bool-cases (has_version q seen)) [
  | inl t ↦ absurd (never (rw t at h))
  | inr f ↦
      let (new, distinct) = validate_from-DistinctVersions (q ∷ seen) rest (rw f at h) in
      let (old, apart) = AllNew-split q seen rest new in ((f, old), (apart, distinct))
]
  where
    never : {e : _} → raise e ≡ ok tt → ⊥
    never h = cc

module _ (q : QuerySpec) where
  no_others :
      (queries : List QuerySpec)
      → has_version q queries ≡ false
      → keep (same_version q) queries ≡ []
  unfolding has_version keep
  no_others [] h = refl
  no_others (r ∷ rest) h = elim (Bool-cases (same_version q r)) [
    | inl t ↦ absurd (never t h)
    | inr f ↦ rw f (no_others rest (rw f at h))
  ]
    where
      never : same_version q r ≡ true → (same_version q r || has_version q rest) ≡ false → ⊥
      never t h = cc

  other_version :
      (r : QuerySpec) (queries : List QuerySpec)
      → In q queries
      → has_version r queries ≡ false
      → same_version q r ≡ false
  unfolding has_version
  other_version r [] k h = absurd k
  other_version r (s ∷ rest) (inl same) h = same_version-sym q r ∙ ap (same_version r) same ∙ first
    where
      first : same_version r s ≡ false
      first = ground arith
  other_version r (s ∷ rest) (inr k) h = other_version r rest k (ground arith)

  keep-only :
      (queries : List QuerySpec)
      → In q queries
      → DistinctVersions queries
      → keep (same_version q) queries ≡ q ∷ []
  unfolding keep
  keep-only [] k d = absurd k
  keep-only (r ∷ rest) (inl same) d =
      rw (← same, same_version_refl q, no_others rest (ap (λ x. has_version x rest) same ∙ d.0))
        refl
  keep-only (r ∷ rest) (inr k) d = rw (other_version r rest k d.0) (keep-only rest k d.1)

-- In a registry that `validate_unique_versions` accepts, `get` with the id and the version of any
-- of its queries returns that query.
pub get_query-of_member :
    (queries : List QuerySpec) (q : QuerySpec)
    → validate_unique_versions queries ≡ ok tt
    → In q queries
    → get_query q.query_id (some q.version) queries ≡ ok q
unfolding get_query matching validate_unique_versions
get_query-of_member queries q v k =
    rw (keep-only q queries k (validate_from-DistinctVersions [] queries v).1) refl
