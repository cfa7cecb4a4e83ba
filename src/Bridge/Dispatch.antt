-- ===== src/Bridge/Dispatch.antt =====
-- bindings/python/bridge.py: the dispatch of `run_hcet`, its limits on the size of the input, and
-- the flag `raise_on_overflow`.
use x_dsi_cet.Base.{
  ◌≡◌, refl, ◌⊎◌, inl, inr, Bool, true, false, Option, none, List, ◌<◌, ltb, lt→ltb, length,
  Bool-cases, Option-cases, if◌then◌else◌,
}
use x_dsi_cet.Base.Int.{ℤ}
use x_dsi_cet.Base.Result.{Result, Error, ok, raise, overflow_error, ◌>>=◌}
use x_dsi_cet.Value.{Fields}
use x_dsi_cet.SecurityGraph.{NativeVertex}
use x_dsi_cet.Bridge.{CetQuery, NativeLibrary, cet_max_events, cet_max_edges}
use x_dsi_cet.Bridge.Calls.{
  NativeEdge, Host, CetMatch, RuntimeOptions, build_graph, run_classic, run_hcet_parallel, run_hcet,
  all_options, asks_runtime,
}

-- What is left of a match without its statistics.
abbrev pub paths_of : Result CetMatch → Result (List (List ℤ))
paths_of r = r >>= λ m. ok m.paths

module _ (host : Host) (lib : NativeLibrary) where
  build_graph_oversized :
      (events : List NativeVertex) (edges : List NativeEdge)
      → (cet_max_events < length events) ⊎ (cet_max_edges < length edges)
      → build_graph host lib events edges ≡ raise overflow_error
  unfolding build_graph
  build_graph_oversized events edges (inl h) =
      rw (build_graph, lt→ltb cet_max_events (length events) h) refl
  build_graph_oversized events edges (inr h) =
      elim (Bool-cases (ltb cet_max_events (length events))) [
        | inl t ↦ rw (build_graph, t) refl
        | inr f ↦ rw (build_graph, f, lt→ltb cet_max_edges (length edges) h) refl
      ]

  module _ (query : CetQuery) (events : List NativeVertex) (edges : List NativeEdge) (depth : ℤ)
      (raises : Bool) where
    -- A property of the results of both ways to run is one of `run_hcet`.
    pub run_hcet-cases :
        (P : Result CetMatch → Type 0) (o : RuntimeOptions) (arena : Option Bool) (bytes : Option ℤ)
        → ((o : RuntimeOptions) → P (run_hcet_parallel host lib query events edges depth o raises))
        → P (run_classic host lib query events edges depth raises)
        → P (run_hcet host lib query events edges depth raises o arena bytes)
    unfolding run_hcet
    run_hcet-cases P o arena bytes parallel classic =
        go (asks_runtime (all_options o arena bytes)) _ (parallel (all_options o arena bytes))
          classic
      where
        go :
            (b : Bool) (x : Result CetMatch) {y : Result CetMatch}
            → P x
            → P y
            → P (if b then x else y)
        go true x h k = h
        go false x h k = k

    run_classic-raise :
        {e : Error}
        → build_graph host lib events edges ≡ raise e
        → run_classic host lib query events edges depth raises ≡ raise e
    unfolding run_classic
    run_classic-raise h = rw (run_classic, h) refl

    run_hcet_parallel-raise :
        {e : Error} (o : RuntimeOptions)
        → build_graph host lib events edges ≡ raise e
        → run_hcet_parallel host lib query events edges depth o raises ≡ raise e
    unfolding run_hcet_parallel
    run_hcet_parallel-raise o h = elim (Option-cases lib.cet_execute_hcet_parallel_ex) [
      | inl absent ↦ rw (run_hcet_parallel, absent, run_classic-raise h) refl
      | inr (f, present) ↦ rw (run_hcet_parallel, present, h) refl
    ]

    -- A call with more events or more edges than the C structures hold raises an OverflowError,
    -- whatever its options are and whatever the library does.
    pub run_hcet_oversized :
        (o : RuntimeOptions) (arena : Option Bool) (bytes : Option ℤ)
        → (cet_max_events < length events) ⊎ (cet_max_edges < length edges)
        → run_hcet host lib query events edges depth raises o arena bytes ≡ raise overflow_error
    run_hcet_oversized o arena bytes h =
        let failed = build_graph_oversized events edges h in
        run_hcet-cases (λ r. r ≡ raise overflow_error) o arena bytes
          (λ o. run_hcet_parallel-raise o failed) (run_classic-raise failed)

    run_hcet_parallel_fallback :
        (o : RuntimeOptions)
        → lib.cet_execute_hcet_parallel_ex ≡ none
        → paths_of (run_hcet_parallel host lib query events edges depth o raises)
          ≡ paths_of (run_classic host lib query events edges depth raises)
    unfolding run_hcet_parallel run_classic
    run_hcet_parallel_fallback o absent =
        rw (run_hcet_parallel, absent)
          (kept (run_classic host lib query events edges depth raises) _)
      where
        kept :
            (r : Result CetMatch) (f : CetMatch → Fields)
            → paths_of (r >>= λ m. ok (record { paths = m.paths; stats = f m })) ≡ paths_of r
        kept (ok m) f = refl
        kept (raise e) f = refl

    -- Where the library has no parallel entry, the options of a call change neither the paths that
    -- it returns nor the exception that it raises.
    pub run_hcet_fallback :
        (o : RuntimeOptions) (arena : Option Bool) (bytes : Option ℤ)
        → lib.cet_execute_hcet_parallel_ex ≡ none
        → paths_of (run_hcet host lib query events edges depth raises o arena bytes)
          ≡ paths_of (run_classic host lib query events edges depth raises)
    run_hcet_fallback o arena bytes absent =
        run_hcet-cases
          (λ r. paths_of r ≡ paths_of (run_classic host lib query events edges depth raises)) o
          arena bytes (λ o. run_hcet_parallel_fallback o absent) refl
