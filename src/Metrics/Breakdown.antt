-- ===== src/Metrics/Breakdown.antt =====
-- The counts of bindings/python/metrics.py: those of the queries make up the count of all trends.
use x_dsi_cet.Base.{
  ℕ, suc, ◌+◌, ◌≤◌, ◌≡◌, refl, ap, sym, ◌∙◌, inl, inr, List, [], ◌∷◌, ◌++◌, map, Bool-cases, true,
  false, All, if◌then◌else◌, arith, length,
}
use x_dsi_cet.Base.Int.{ℤ, pos, eqb_ℤ→eq}
use x_dsi_cet.Base.Text.{codes, text_eq→eq}
use x_dsi_cet.Base.Result.{ok, >>=-eq-ok, ok-injective}
use x_dsi_cet.Value.{Value, Fields, null, bool, int, str, arr, obj, num_eq, value_eq, truthy}
use x_dsi_cet.SecurityGraph.Build.{is_hashable}
use x_dsi_cet.Metrics.{
  Metric, counted, all_queries, query_of_trend, tally, by_query, overflow_of, count_overflow,
  metrics_from_trends,
}

abbrev pub total : List (Value × ℕ) → ℕ
total [] = 0
total ((v, n) ∷ table) = n + total table

-- No row is of the query of an earlier one.
abbrev pub DistinctQueries : List (Value × ℕ) → Type 0
DistinctQueries [] = Unit
DistinctQueries ((w, n) ∷ table) =
    All (λ row. value_eq w row.0 ≡ false) table × DistinctQueries table

-- The trends that `table` counts for a query, and those of a list.
unfoldable pub weight : Value → List (Value × ℕ) → ℕ
unfolding value_eq
weight u [] = 0
weight u ((w, n) ∷ table) = (if value_eq w u then n else 0) + weight u table

unfoldable pub trends_of : Value → List Fields → ℕ
unfolding value_eq query_of_trend
trends_of u [] = 0
trends_of u (t ∷ ts) = (if value_eq (query_of_trend t) u then 1 else 0) + trends_of u ts

-- One metric of all trends, one of each query, which counts its trends and stands once, and one of
-- the overflows, of which there are not more than trends.
abbrev pub IsBreakdown : List Fields → List Metric → Type 0
IsBreakdown trends ms =
    (table : List (Value × ℕ)) × (overflow : ℕ) × (ms
      ≡ counted (codes "trends_emitted") all_queries (length trends)
        ∷ (map (λ row. counted (codes "trends_emitted") row.0 row.1) table
            ++ counted (codes "native_overflow_trends") all_queries overflow ∷ []))
    × (total table ≡ length trends)
    × DistinctQueries table
    × ((u : Value) → weight u table ≡ trends_of u trends)
    × (overflow ≤ length trends)

total-tally : (v : Value) (table : List (Value × ℕ)) → total (tally v table) ≡ suc (total table)
unfolding tally
total-tally v [] = refl
total-tally v ((w, n) ∷ table) = elim (Bool-cases (value_eq w v)) [
  | inl t ↦ rw t (omega arith)
  | inr f ↦ rw f (let ih = total-tally v table in omega arith)
]

All-tally :
    (w v : Value) (table : List (Value × ℕ))
    → value_eq w v ≡ false
    → All (λ row. value_eq w row.0 ≡ false) table
    → All (λ row. value_eq w row.0 ≡ false) (tally v table)
unfolding tally
All-tally w v [] d h = (d, tt)
All-tally w v ((x, n) ∷ table) d (a, h) = elim (Bool-cases (value_eq x v)) [
  | inl t ↦ rw t (a, h)
  | inr f ↦ rw f (a, All-tally w v table d h)
]

tally-DistinctQueries :
    (v : Value) (table : List (Value × ℕ)) → DistinctQueries table → DistinctQueries (tally v table)
unfolding tally
tally-DistinctQueries v [] h = (tt, tt)
tally-DistinctQueries v ((w, n) ∷ table) (a, h) = elim (Bool-cases (value_eq w v)) [
  | inl t ↦ rw t (a, h)
  | inr f ↦ rw f (All-tally w v table f a, tally-DistinctQueries v table h)
]

-- Among the values that can be keys, `True` and `1`, and `False` and `0`, are equal; the others are
-- equal only to themselves.
unfoldable canon : Value → Value
canon (bool true) = int (pos 1)
canon (bool false) = int (pos 0)
canon v = v

value_eq-canon_left : (a b : Value) → is_hashable a ≡ true → value_eq a b ≡ value_eq (canon a) b
unfolding value_eq canon is_hashable num_eq
value_eq-canon_left null b h = refl
value_eq-canon_left (bool true) b h = refl
value_eq-canon_left (bool false) b h = refl
value_eq-canon_left (int n) b h = refl
value_eq-canon_left (str s) b h = refl
value_eq-canon_left (arr vs) b h = refl
value_eq-canon_left (obj d) b h = refl

num_eq-canon : (n : ℤ) (b : Value) → num_eq n b ≡ true → int n ≡ canon b
unfolding num_eq canon
num_eq-canon n (bool true) h = ap int (eqb_ℤ→eq n (pos 1) h)
num_eq-canon n (bool false) h = ap int (eqb_ℤ→eq n (pos 0) h)
num_eq-canon n (int m) h = ap int (eqb_ℤ→eq n m h)
num_eq-canon n null h = cc
num_eq-canon n (str s) h = cc
num_eq-canon n (arr vs) h = cc
num_eq-canon n (obj d) h = cc

value_eq-canon : (a b : Value) → is_hashable a ≡ true → value_eq a b ≡ true → canon a ≡ canon b
unfolding value_eq canon is_hashable
value_eq-canon null null g h = refl
value_eq-canon null (bool b) g h = cc
value_eq-canon null (int n) g h = cc
value_eq-canon null (str s) g h = cc
value_eq-canon null (arr vs) g h = cc
value_eq-canon null (obj d) g h = cc
value_eq-canon (bool true) b g h = num_eq-canon (pos 1) b h
value_eq-canon (bool false) b g h = num_eq-canon (pos 0) b h
value_eq-canon (int n) b g h = num_eq-canon n b h
value_eq-canon (str s) (str t) g h = ap str (text_eq→eq s t h)
value_eq-canon (str s) null g h = cc
value_eq-canon (str s) (bool b) g h = cc
value_eq-canon (str s) (int n) g h = cc
value_eq-canon (str s) (arr vs) g h = cc
value_eq-canon (str s) (obj d) g h = cc
value_eq-canon (arr vs) b g h = cc
value_eq-canon (obj d) b g h = cc

value_eq-cong :
    (w v u : Value)
    → is_hashable w ≡ true
    → is_hashable v ≡ true
    → value_eq w v ≡ true
    → value_eq w u ≡ value_eq v u
value_eq-cong w v u g h e =
    value_eq-canon_left w u g
    ∙ ap (λ a. value_eq a u) (value_eq-canon w v g e)
    ∙ sym (value_eq-canon_left v u h)

abbrev HashableKeys : List (Value × ℕ) → Type 0
HashableKeys table = All (λ row. is_hashable row.0 ≡ true) table

tally-HashableKeys :
    (v : Value) (table : List (Value × ℕ))
    → is_hashable v ≡ true
    → HashableKeys table
    → HashableKeys (tally v table)
unfolding tally
tally-HashableKeys v [] g h = (g, tt)
tally-HashableKeys v ((w, n) ∷ table) g (a, h) = elim (Bool-cases (value_eq w v)) [
  | inl t ↦ rw t (a, h)
  | inr f ↦ rw f (a, tally-HashableKeys v table g h)
]

weight-tally :
    (u v : Value) (table : List (Value × ℕ))
    → is_hashable v ≡ true
    → HashableKeys table
    → weight u (tally v table) ≡ (if value_eq v u then 1 else 0) + weight u table
unfolding tally weight
weight-tally u v [] g h = refl
weight-tally u v ((w, n) ∷ table) g (a, h) = elim (Bool-cases (value_eq w v)) [
  | inl t ↦ rw (t, value_eq-cong w v u a g t) (ground arith)
  | inr f ↦ rw (f, weight-tally u v table g h) (omega arith)
]

weight-by_query :
    (u : Value) (ts : List Fields) (table result : List (Value × ℕ))
    → HashableKeys table
    → by_query table ts ≡ ok result
    → weight u result ≡ trends_of u ts + weight u table
unfolding by_query trends_of
weight-by_query u [] table result h e =
    let same = ok-injective table result e in rw (← same) (omega arith)
weight-by_query u (t ∷ ts) table result h e = elim (Bool-cases (is_hashable (query_of_trend t))) [
  | inl good ↦
      let ih =
        weight-by_query u ts (tally (query_of_trend t) table) result
          (tally-HashableKeys (query_of_trend t) table good h) (rw good at e) in
      let one = weight-tally u (query_of_trend t) table good h in omega arith
  | inr bad ↦ absurd (let failed = rw bad at e in cc)
]

total-by_query :
    (ts : List Fields) (table result : List (Value × ℕ))
    → by_query table ts ≡ ok result
    → total result ≡ length ts + total table
unfolding by_query
total-by_query [] table result e =
    let same = ok-injective table result e in rw (← same) (omega arith)
total-by_query (t ∷ ts) table result e = elim (Bool-cases (is_hashable (query_of_trend t))) [
  | inl good ↦
      let ih = total-by_query ts (tally (query_of_trend t) table) result (rw good at e) in
      let one = total-tally (query_of_trend t) table in omega arith
  | inr bad ↦ absurd (let failed = rw bad at e in cc)
]

by_query-DistinctQueries :
    (ts : List Fields) (table result : List (Value × ℕ))
    → DistinctQueries table
    → by_query table ts ≡ ok result
    → DistinctQueries result
unfolding by_query
by_query-DistinctQueries [] table result h e = rw (← ok-injective table result e) h
by_query-DistinctQueries (t ∷ ts) table result h e =
    elim (Bool-cases (is_hashable (query_of_trend t))) [
      | inl good ↦
          by_query-DistinctQueries ts (tally (query_of_trend t) table) result
            (tally-DistinctQueries (query_of_trend t) table h) (rw good at e)
      | inr bad ↦ absurd (let failed = rw bad at e in cc)
    ]

count_overflow-bound : (ts : List Fields) (n : ℕ) → count_overflow ts ≡ ok n → n ≤ length ts
unfolding count_overflow
count_overflow-bound [] n e = let zero = ok-injective 0 n e in omega arith
count_overflow-bound (t ∷ ts) n e =
    let (v, _, more) = >>=-eq-ok (overflow_of t) _ e in
    let (m, counted', last) = >>=-eq-ok (count_overflow ts) _ more in
    let ih = count_overflow-bound ts m counted' in
    elim (Bool-cases (truthy v)) [
      | inl t' ↦ let one = ok-injective _ n (rw t' at last) in omega arith
      | inr f ↦ let same = ok-injective _ n (rw f at last) in omega arith
    ]

-- The metrics of trends: the count of all trends; one metric of each query, no query twice, whose
-- counts add up to the first and are the numbers of the trends of the queries; and the count of
-- the overflows, at most that of the trends.
pub metrics_from_trends-IsBreakdown :
    (trends : List Fields) (ms : List Metric)
    → metrics_from_trends trends ≡ ok ms
    → IsBreakdown trends ms
unfolding metrics_from_trends weight
metrics_from_trends-IsBreakdown trends ms e =
    let (table, found, more) = >>=-eq-ok (by_query [] trends) _ e in
    let (overflow, seen, last) = >>=-eq-ok (count_overflow trends) _ more in
    let all = total-by_query trends [] table found in
    (
      table,
      overflow,
      sym (ok-injective _ ms last),
      omega arith,
      by_query-DistinctQueries trends [] table tt found,
      λ u. let each = weight-by_query u trends [] table tt found in omega arith,
      count_overflow-bound trends overflow seen,
    )
