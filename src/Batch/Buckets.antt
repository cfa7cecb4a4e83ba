-- ===== src/Batch/Buckets.antt =====
-- The buckets of notebooks/0xDSI_CET_Databricks_prod.py: their keys are those of the rows.
use x_dsi_cet.Base.{
  ◌≡◌, refl, sym, ◌∙◌, ◌⊎◌, inl, inr, true, List, [], ◌∷◌, map, Bool-cases, In, arith, length,
}
use x_dsi_cet.Base.Text.{text_eq→eq}
use x_dsi_cet.SecurityGraph.{NativeVertex}
use x_dsi_cet.Batch.{GroupKey, same_group}
use x_dsi_cet.Batch.Times.{IsInterval}
use x_dsi_cet.Batch.Detect.{
  EventRow, OutputRow, trend, failed, row_key, row_event, EventGroup, add_to_bucket, bucket_from,
}

-- The row is of the group; a trend counts its path, and its times are in order.
abbrev pub IsRowOf : GroupKey → OutputRow → Type 0
IsRowOf key (trend t) =
    (t.group ≡ key) × IsInterval t.trend_start_ms t.trend_end_ms × (t.event_count ≡ length t.path)
IsRowOf key (failed k severity payload e) = k ≡ key

abbrev pub group_keys : List EventGroup → List GroupKey
group_keys groups = map (λ g. g.0) groups

abbrev pub row_keys : List EventRow → List GroupKey
row_keys rows = map row_key rows

pub same_group→eq : (a b : GroupKey) → same_group a b ≡ true → a ≡ b
same_group→eq (a, b, c) (d, e, f) h =
    let first = text_eq→eq a d (ground arith) in
    let second = text_eq→eq b e (ground arith) in
    let third = text_eq→eq c f (ground arith) in rw (first, second, third) refl

In-add_to_bucket :
    (k key : GroupKey) (e : NativeVertex) (groups : List EventGroup)
    → In k (group_keys (add_to_bucket key e groups))
    → In k (group_keys groups) ⊎ (k ≡ key)
unfolding add_to_bucket
In-add_to_bucket k key e [] (inl h) = inr h
In-add_to_bucket k key e [] (inr h) = elim h [ ]
In-add_to_bucket k key e ((j, es) ∷ groups) h = elim (Bool-cases (same_group j key)) [
  | inl t ↦ inl (rw t at h)
  | inr f ↦ later (rw f at h) (In-add_to_bucket k key e groups)
]
  where
    later :
        (k ≡ j) ⊎ In k (group_keys (add_to_bucket key e groups))
        → (In k (group_keys (add_to_bucket key e groups)) → In k (group_keys groups) ⊎ (k ≡ key))
        → ((k ≡ j) ⊎ In k (group_keys groups)) ⊎ (k ≡ key)
    later (inl h) ih = inl (inl h)
    later (inr h) ih = elim (ih h) [ inl old ↦ inl (inr old) | inr new ↦ inr new ]

add_to_bucket-In :
    (k key : GroupKey) (e : NativeVertex) (groups : List EventGroup)
    → In k (group_keys groups) ⊎ (k ≡ key)
    → In k (group_keys (add_to_bucket key e groups))
unfolding add_to_bucket
add_to_bucket-In k key e [] (inl h) = elim h [ ]
add_to_bucket-In k key e [] (inr h) = inl h
add_to_bucket-In k key e ((j, es) ∷ groups) h = elim (Bool-cases (same_group j key)) [
  | inl t ↦ rw t (here t h)
  | inr f ↦ rw f (there h (add_to_bucket-In k key e groups))
]
  where
    here :
        same_group j key ≡ true
        → ((k ≡ j) ⊎ In k (group_keys groups)) ⊎ (k ≡ key)
        → (k ≡ j) ⊎ In k (group_keys groups)
    here t (inl old) = old
    here t (inr new) = inl (new ∙ sym (same_group→eq j key t))

    there :
        ((k ≡ j) ⊎ In k (group_keys groups)) ⊎ (k ≡ key)
        → (In k (group_keys groups) ⊎ (k ≡ key) → In k (group_keys (add_to_bucket key e groups)))
        → (k ≡ j) ⊎ In k (group_keys (add_to_bucket key e groups))
    there (inl (inl e)) ih = inl e
    there (inl (inr old)) ih = inr (ih (inl old))
    there (inr new) ih = inr (ih (inr new))

-- The groups of the rows are those of the buckets.
pub In-bucket_from :
    (k : GroupKey) (rows : List EventRow) (groups : List EventGroup)
    → In k (group_keys (bucket_from groups rows))
    → In k (group_keys groups) ⊎ In k (row_keys rows)
unfolding bucket_from
In-bucket_from k [] groups h = inl h
In-bucket_from k (r ∷ rows) groups h =
    elim (In-bucket_from k rows (add_to_bucket (row_key r) (row_event r) groups) h) [
      | inl before ↦ elim (In-add_to_bucket k (row_key r) (row_event r) groups before) [
        | inl old ↦ inl old
        | inr new ↦ inr (inl new)
      ]
      | inr after ↦ inr (inr after)
    ]

pub bucket_from-In :
    (k : GroupKey) (rows : List EventRow) (groups : List EventGroup)
    → In k (group_keys groups) ⊎ In k (row_keys rows)
    → In k (group_keys (bucket_from groups rows))
unfolding bucket_from
bucket_from-In k [] groups (inl h) = h
bucket_from-In k [] groups (inr h) = elim h [ ]
bucket_from-In k (r ∷ rows) groups h =
    bucket_from-In k rows (add_to_bucket (row_key r) (row_event r) groups) (moved h)
  where
    moved :
        In k (group_keys groups) ⊎ In k (row_keys (r ∷ rows))
        → In k (group_keys (add_to_bucket (row_key r) (row_event r) groups)) ⊎ In k (row_keys rows)
    moved (inl old) = inl (add_to_bucket-In k (row_key r) (row_event r) groups (inl old))
    moved (inr (inl new)) = inl (add_to_bucket-In k (row_key r) (row_event r) groups (inr new))
    moved (inr (inr later)) = inr later
