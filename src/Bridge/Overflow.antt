-- ===== src/Bridge/Overflow.antt =====
-- bindings/python/bridge.py: with `raise_on_overflow`, a run whose statistics report an overflow
-- returns no match.
use x_dsi_cet.Base.{
  ◌≡◌, refl, ap, ◌∙◌, ◌⊎◌, inl, inr, Bool, true, false, Option, List, Bool-cases, Option-cases,
  if◌then◌else◌,
}
use x_dsi_cet.Base.Int.{ℤ, eqb_ℤ, pos}
use x_dsi_cet.Base.Text.{Text, codes, text_eq}
use x_dsi_cet.Base.Result.{Result, ok, raise, runtime_error, ◌>>=◌, ◌>>◌, require}
use x_dsi_cet.Value.{Value, Fields, end, field, obj, null, truthy, get_item, set_default}
use x_dsi_cet.Document.{get_value, put}
use x_dsi_cet.SecurityGraph.{NativeVertex}
use x_dsi_cet.Bridge.{
  CetQuery, NativeLibrary, zero_result, zero_exec_stats, zero_runtime_stats, c_size,
}
use x_dsi_cet.Bridge.Calls.{
  NativeEdge, Host, CetMatch, RuntimeOptions, build_graph, run_classic, run_hcet_parallel, run_hcet,
  exec_stats_dict, runtime_stats_dict, runtime_config, check_overflow, paths_from_result,
  unavailable,
}
use x_dsi_cet.Bridge.Dispatch.{run_hcet-cases}

-- The overflow flag of the statistics of a match, as the code reads it.
abbrev pub overflowed : Fields → Bool
overflowed stats = truthy (get_value (codes "overflow") null stats)

-- What is true of each match that a call returns.
abbrev Returns : (CetMatch → Type 0) → Result CetMatch → Type 0
Returns P (ok m) = P m
Returns P (raise e) = Unit

Returns->>= :
    {A : Type 0} (P : CetMatch → Type 0) (first : Result A) (next : A → Result CetMatch)
    → ((a : A) → Returns P (next a))
    → Returns P (first >>= next)
Returns->>= P (ok a) next h = h a
Returns->>= P (raise e) next h = tt

Returns->> :
    (P : CetMatch → Type 0) (first : Result (Unit {0})) (next : Result CetMatch)
    → Returns P next
    → Returns P (first >> next)
Returns->> P (ok tt) next h = h
Returns->> P (raise e) next h = tt

abbrev IsComplete : CetMatch → Type 0
IsComplete m = overflowed m.stats ≡ false

module _ (host : Host) (lib : NativeLibrary) where
  -- A match whose statistics have passed the check has no overflow.
  checked :
      (stats : Fields) (next : Result (List (List ℤ)))
      → Returns IsComplete (
          check_overflow host lib true stats
          >> (next >>= λ paths. ok (record { paths = paths; stats = stats })))
  unfolding check_overflow
  checked stats next = elim (Bool-cases (overflowed stats)) [
    | inl t ↦ rw (check_overflow, t) tt
    | inr f ↦ rw (check_overflow, f) (Returns->>= IsComplete next _ (λ paths. f))
  ]

  get_value-set_default :
      (k j : Text) (d v : Value) (stats : Fields)
      → text_eq j k ≡ false
      → get_value k d (set_default j v stats) ≡ get_value k d stats
  unfolding get_value get_item set_default
  get_value-set_default k j d v end n = rw (get_value, get_item, n) refl
  get_value-set_default k j d v (field i w stats) n = elim (Bool-cases (text_eq i k)) [
    | inl t ↦ rw (get_value, set_default, get_item, t) refl
    | inr f ↦
        rw (get_value, set_default, get_item, f)
          (shut (Bool-cases (text_eq i j)) (get_value-set_default k j d v stats n))
  ]
    where
      shut :
          (text_eq i j ≡ true) ⊎ (text_eq i j ≡ false)
          → get_value k d (set_default j v stats) ≡ get_value k d stats
          → get_value k d (if text_eq i j then stats else set_default j v stats)
            ≡ get_value k d stats
      shut (inl t) ih = rw t refl
      shut (inr f) ih = rw f ih

  module _ (query : CetQuery) (events : List NativeVertex) (edges : List NativeEdge)
      (depth : ℤ) where
    run_classic-IsComplete : Returns IsComplete (run_classic host lib query events edges depth true)
    unfolding run_classic
    run_classic-IsComplete = elim (Option-cases lib.cet_execute_hcet_ex) [
      | inl absent ↦
          rw (run_classic, absent)
            (Returns->>= IsComplete (build_graph host lib events edges) _ (λ g.
              plain (paths_from_result (lib.cet_execute_hcet g query (c_size depth) zero_result))))
      | inr (f, present) ↦
          rw (run_classic, present)
            (Returns->>= IsComplete (build_graph host lib events edges) _ (λ g.
              let run = f g query (c_size depth) zero_result zero_exec_stats in
              checked (exec_stats_dict host run.1) (paths_from_result run.0)))
    ]
      where
        plain :
            (next : Result (List (List ℤ)))
            → Returns IsComplete (next >>= λ paths. ok (record { paths = paths; stats = end }))
        plain (ok paths) = refl
        plain (raise e) = tt

    run_hcet_parallel-IsComplete :
        (o : RuntimeOptions)
        → Returns IsComplete (run_hcet_parallel host lib query events edges depth o true)
    unfolding run_hcet_parallel
    run_hcet_parallel-IsComplete o = elim (Option-cases lib.cet_execute_hcet_parallel_ex) [
      | inl absent ↦
          rw (run_hcet_parallel, absent)
            (noted (run_classic host lib query events edges depth true) run_classic-IsComplete)
      | inr (f, present) ↦
          rw (run_hcet_parallel, present)
            (Returns->>= IsComplete (build_graph host lib events edges) _ (λ g.
              Returns->>= IsComplete (runtime_config host lib o true) _ (λ cfg.
                let run =
                  f g query (c_size depth) cfg zero_result zero_exec_stats zero_runtime_stats in
                Returns->> IsComplete (require (eqb_ℤ run.3 (pos 0)) runtime_error) _ (
                  checked
                    (put (codes "runtime") (obj (runtime_stats_dict host run.2))
                      (exec_stats_dict host run.1))
                    (paths_from_result run.0)))))
    ]
      where
        noted :
            (r : Result CetMatch)
            → Returns IsComplete r
            → Returns IsComplete (
                r >>= λ m. ok (record {
                  paths = m.paths;
                  stats = set_default (codes "runtime") (unavailable host lib) m.stats;
                }))
        noted (ok m) h =
            ap truthy (
              get_value-set_default (codes "overflow") (codes "runtime") null (unavailable host lib)
                m.stats refl)
            ∙ h
        noted (raise e) h = tt

    -- With `raise_on_overflow`, a match that a call returns, with any options and from any library,
    -- has no overflow in its statistics.
    pub run_hcet-overflow :
        (o : RuntimeOptions) (arena : Option Bool) (bytes : Option ℤ) (m : CetMatch)
        → run_hcet host lib query events edges depth true o arena bytes ≡ ok m
        → overflowed m.stats ≡ false
    run_hcet-overflow o arena bytes m e =
        let valid =
          run_hcet-cases host lib query events edges depth true (Returns IsComplete) o arena bytes
            run_hcet_parallel-IsComplete run_classic-IsComplete in
        rw e at valid
