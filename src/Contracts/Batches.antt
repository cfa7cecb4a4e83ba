-- ===== src/Contracts/Batches.antt =====
-- What a batch that `validate_events` accepts is like.
use x_dsi_cet.Base.{◌≡◌, refl, inl, inr, false, List, [], ◌∷◌, Bool-cases, All, arith}
use x_dsi_cet.Base.Int.{ℤ}
use x_dsi_cet.Base.Text.{codes}
use x_dsi_cet.Base.Dict.{int_key, has, same-sym}
use x_dsi_cet.Base.Result.{Result, ok, raise, value_error, ◌>>◌, >>=-eq-ok}
use x_dsi_cet.Value.{Fields}
use x_dsi_cet.Platform.{Platform}
use x_dsi_cet.Contracts.{int_field, validate_event, validate_batch, validate_events}

abbrev pub DistinctIds : List ℤ → Type 0
DistinctIds [] = Unit
DistinctIds (i ∷ is) = (has i is ≡ false) × DistinctIds is

module _ (p : Platform) where
  -- The ids are those of the events, in order, and each event is valid.
  abbrev pub AreIds : List Fields → List ℤ → Type 0
  AreIds [] [] = Unit
  AreIds [] (_ ∷ _) = ⊥
  AreIds (_ ∷ _) [] = ⊥
  AreIds (e ∷ es) (i ∷ is) =
      (validate_event p e ≡ ok tt) × (int_field p (codes "event_id") e ≡ ok i) × AreIds es is

  -- The events are valid, and their ids differ.
  abbrev pub IsBatch : List Fields → Type 0
  IsBatch events = (ids : List ℤ) × AreIds events ids × DistinctIds ids

  abbrev AllNew : List ℤ → List ℤ → Type 0
  AllNew seen ids = All (λ i. has i seen ≡ false) ids

  AllNew-split :
      (j : ℤ) (seen ids : List ℤ) → AllNew (j ∷ seen) ids → AllNew seen ids × (has j ids ≡ false)
  unfolding has
  AllNew-split j seen [] h = (tt, refl)
  AllNew-split j seen (i ∷ ids) h =
      let (new, apart) = AllNew-split j seen ids h.1 in
      let turn = same-sym i j in ((ground arith, new), ground arith)

  AllNew-join :
      (j : ℤ) (seen ids : List ℤ) → AllNew seen ids → has j ids ≡ false → AllNew (j ∷ seen) ids
  unfolding has
  AllNew-join j seen [] h k = tt
  AllNew-join j seen (i ∷ ids) h k =
      let turn = same-sym i j in
      let first = h.0 in (ground arith, AllNew-join j seen ids h.1 (ground arith))

  valid_then :
      (first : Result (Unit {0})) (next : Result (Unit {0}))
      → (first >> next) ≡ ok tt
      → (first ≡ ok tt) × (next ≡ ok tt)
  valid_then (ok tt) next h = (refl, h)
  valid_then (raise e) next h = absurd (never h)
    where
      never : raise e ≡ ok tt → ⊥
      never h = cc

  validate_batch-ids :
      (seen : List ℤ) (events : List Fields)
      → validate_batch p seen events ≡ ok tt
      → (ids : List ℤ) × AreIds events ids × DistinctIds ids × AllNew seen ids
  unfolding validate_batch
  validate_batch-ids seen [] h = ([], tt, tt, tt)
  validate_batch-ids seen (e ∷ es) h =
      let (valid, rest) = valid_then (validate_event p e) _ h in
      let (i, at_i, more) = >>=-eq-ok (int_field p (codes "event_id") e) _ rest in
      elim (Bool-cases (has i seen)) [
        | inl t ↦ absurd (never (rw t at more))
        | inr f ↦
            let (ids, are, distinct, new) = validate_batch-ids (i ∷ seen) es (rw f at more) in
            let (old, apart) = AllNew-split i seen ids new in
            (i ∷ ids, (valid, at_i, are), (apart, distinct), (f, old))
      ]
    where
      never : raise value_error ≡ ok tt → ⊥
      never h = cc

  ids-validate_batch :
      (seen : List ℤ) (events : List Fields) (ids : List ℤ)
      → AreIds events ids
      → DistinctIds ids
      → AllNew seen ids
      → validate_batch p seen events ≡ ok tt
  unfolding validate_batch
  ids-validate_batch seen [] [] a d n = refl
  ids-validate_batch seen [] (_ ∷ _) a d n = absurd a
  ids-validate_batch seen (_ ∷ _) [] a d n = absurd a
  ids-validate_batch seen (e ∷ es) (i ∷ ids) a d n =
      rw (a.0, a.1, n.0)
        (ids-validate_batch (i ∷ seen) es ids a.2 d.1 (AllNew-join i seen ids n.1 d.0))

  -- A batch that `validate_events` accepts consists of valid events, with ids that differ.
  pub validate_events-IsBatch :
      (events : List Fields) → validate_events p events ≡ ok tt → IsBatch events
  unfolding validate_events
  validate_events-IsBatch events h =
      let (ids, are, distinct, _) = validate_batch-ids [] events h in (ids, are, distinct)

  -- `validate_events` accepts every batch of valid events whose ids differ.
  pub IsBatch-validate_events :
      (events : List Fields) → IsBatch events → validate_events p events ≡ ok tt
  unfolding validate_events has
  IsBatch-validate_events events (ids, a, d) = ids-validate_batch [] events ids a d (none_seen ids)
    where
      none_seen : (ids : List ℤ) → AllNew [] ids
      none_seen [] = tt
      none_seen (i ∷ ids) = (refl, none_seen ids)
