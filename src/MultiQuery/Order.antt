-- ===== src/MultiQuery/Order.antt =====
-- The order in which bindings/python/multi_query_runtime.py sorts its trends.
use x_dsi_cet.Base.{◌≡◌, ap, sym, ◌∙◌, ◌⊎◌, Bool, true, arith}
use x_dsi_cet.Base.Text.{
  Text, text_eq, text_eq→eq, eq→text_eq, text_le, text_le_total, text_le_trans, text_le_antisym,
}
use x_dsi_cet.Base.Dict.{text_key, same-sym}
use x_dsi_cet.MultiQuery.{QueryTrend, before_or, trend_le}

-- The order of the trends.
before_or_total :
    (a b : Text) (r s : Bool)
    → (r ≡ true) ⊎ (s ≡ true)
    → (before_or a b r ≡ true) ⊎ (before_or b a s ≡ true)
before_or_total a b r s h = let flip = same-sym a b in let le = text_le_total a b in ground arith

before_or_trans :
    (a b c : Text) (r s t : Bool)
    → (r ≡ true → s ≡ true → t ≡ true)
    → before_or a b r ≡ true
    → before_or b c s ≡ true
    → before_or a c t ≡ true
before_or_trans a b c r s t k g h =
    let through = text_le_trans a b c in
    let ab_eq : text_eq a b ≡ true → text_eq b c ≡ text_eq a c =
      λ e. ap (λ x. text_eq x c) (sym (text_eq→eq a b e)) in
    let ab_le : text_eq a b ≡ true → text_le b c ≡ text_le a c =
      λ e. ap (λ x. text_le x c) (sym (text_eq→eq a b e)) in
    let bc_eq : text_eq b c ≡ true → text_eq a b ≡ text_eq a c =
      λ e. ap (λ x. text_eq a x) (text_eq→eq b c e) in
    let bc_le : text_eq b c ≡ true → text_le a b ≡ text_le a c =
      λ e. ap (λ x. text_le a x) (text_eq→eq b c e) in
    let ac : text_eq a c ≡ true → text_le a b ≡ true → text_le b c ≡ true → text_eq a b ≡ true =
      λ e l m.
        eq→text_eq a b (text_le_antisym a b l (ap (λ x. text_le b x) (text_eq→eq a c e) ∙ m)) in
    ground arith

pub trend_le_total : (t u : QueryTrend) → (trend_le t u ≡ true) ⊎ (trend_le u t ≡ true)
unfolding trend_le
trend_le_total t u =
    before_or_total t.query_id u.query_id _ _
      (before_or_total t.partition_key u.partition_key _ _ (text_le_total t.trend_id u.trend_id))

pub trend_le_trans :
    (t u v : QueryTrend) → trend_le t u ≡ true → trend_le u v ≡ true → trend_le t v ≡ true
unfolding trend_le
trend_le_trans t u v = before_or_trans t.query_id u.query_id v.query_id _ _ _ (
    before_or_trans t.partition_key u.partition_key v.partition_key _ _ _
      (text_le_trans t.trend_id u.trend_id v.trend_id))
