-- ===== src/SecurityGraph/Within.antt =====
-- The lists that `SecurityGraphBuilder.build` of bindings/python/security_graph.py makes on its way
-- hold events of the graph.
use x_dsi_cet.Base.{◌≡◌, inl, inr, Bool, List, [], ◌∷◌, Bool-cases, In, All, All-of_In}
use x_dsi_cet.Base.Text.{Text, text_eq}
use x_dsi_cet.Base.Dict.{Dict, text_key, insert, get_or, lookup, values}
use x_dsi_cet.Base.Result.{ok, raise, type_error, >>=-eq-ok, ok-injective}
use x_dsi_cet.Value.{Value, value_eq}
use x_dsi_cet.SecurityGraph.{SecurityEvent, as_dict, nested_get, time_le}
use x_dsi_cet.SecurityGraph.Build.{
  by_partition_from, neighbours, Group, is_hashable, add_to_group, grouped, group_of, latest,
}
use x_dsi_cet.SecurityGraph.Edges.{All-append}

module _ (events : List SecurityEvent) where
  abbrev pub Within : List SecurityEvent → Type 0
  Within es = All (λ e. In e events) es

  pub Within-In :
      (es : List SecurityEvent) → ((e : SecurityEvent) → In e es → In e events) → Within es
  Within-In es f = All-of_In (λ e. In e events) es f

  pub events-Within : Within events
  events-Within = Within-In events (λ e h. h)

  -- The lists of a dictionary.
  abbrev PartitionsWithin : Dict Text (List SecurityEvent) → Type 0
  PartitionsWithin m = All (λ entry. Within entry.1) m

  abbrev pub GroupsWithin : List Group → Type 0
  GroupsWithin gs = All (λ g. Within g.1) gs

  Within-get_or :
      (k : Text) (m : Dict Text (List SecurityEvent)) → PartitionsWithin m → Within (get_or k [] m)
  unfolding get_or lookup
  Within-get_or k [] h = tt
  Within-get_or k ((j, es) ∷ m) (h, rest) = elim (Bool-cases (text_eq j k)) [
    | inl t ↦ rw t h
    | inr f ↦ rw f (Within-get_or k m rest)
  ]

  insert-PartitionsWithin :
      (k : Text) (es : List SecurityEvent) (m : Dict Text (List SecurityEvent))
      → Within es
      → PartitionsWithin m
      → PartitionsWithin (insert k es m)
  unfolding insert
  insert-PartitionsWithin k es [] h tt = (h, tt)
  insert-PartitionsWithin k es ((j, ds) ∷ m) h (d, rest) = elim (Bool-cases (text_eq j k)) [
    | inl t ↦ rw t (h, rest)
    | inr f ↦ rw f (d, insert-PartitionsWithin k es m h rest)
  ]

  pub by_partition_from-PartitionsWithin :
      (es : List SecurityEvent) (m : Dict Text (List SecurityEvent))
      → PartitionsWithin m
      → Within es
      → PartitionsWithin (by_partition_from m es)
  unfolding by_partition_from
  by_partition_from-PartitionsWithin [] m h k = h
  by_partition_from-PartitionsWithin (e ∷ es) m h (i, k) =
      by_partition_from-PartitionsWithin es _
        (insert-PartitionsWithin e.partition_key _ m
          (All-append (λ d. In d events) (get_or e.partition_key [] m) (e ∷ [])
            (Within-get_or e.partition_key m h) (i, tt))
          h)
        k

  pub values-Within :
      (m : Dict Text (List SecurityEvent)) → PartitionsWithin m → All Within (values m)
  unfolding values
  values-Within [] h = tt
  values-Within ((k, es) ∷ m) (h, rest) = (h, values-Within m rest)

  add_to_group-GroupsWithin :
      (v : Value) (e : SecurityEvent) (gs : List Group)
      → In e events
      → GroupsWithin gs
      → GroupsWithin (add_to_group v e gs)
  unfolding add_to_group
  add_to_group-GroupsWithin v e [] i h = ((i, tt), tt)
  add_to_group-GroupsWithin v e ((w, es) ∷ gs) i (h, rest) = elim (Bool-cases (value_eq w v)) [
    | inl t ↦ rw t (All-append (λ d. In d events) es (e ∷ []) h (i, tt), rest)
    | inr f ↦ rw f (h, add_to_group-GroupsWithin v e gs i rest)
  ]

  pub grouped-GroupsWithin :
      (wanted : Value → Bool) (key : Text) (es : List SecurityEvent) (gs : List Group)
      (result : List Group)
      → GroupsWithin gs
      → Within es
      → grouped wanted key gs es ≡ ok result
      → GroupsWithin result
  unfolding grouped
  grouped-GroupsWithin wanted key [] gs result h k e = rw (← ok-injective gs result e) h
  grouped-GroupsWithin wanted key (d ∷ es) gs result h (i, k) e =
      let (v, _, rest) = >>=-eq-ok (nested_get (as_dict d) key) _ e in
      elim (Bool-cases (wanted v)) [
        | inr skip ↦ grouped-GroupsWithin wanted key es gs result h k (rw skip at rest)
        | inl take ↦ elim (Bool-cases (is_hashable v)) [
          | inl good ↦
              grouped-GroupsWithin wanted key es _ result (add_to_group-GroupsWithin v d gs i h) k
                (rw (take, good) at rest)
          | inr bad ↦ absurd (raised (rw (take, bad) at rest))
        ]
      ]
    where
      raised : raise type_error ≡ ok result → ⊥
      raised h = cc

  pub group_of-Within : (v : Value) (gs : List Group) → GroupsWithin gs → Within (group_of v gs)
  unfolding group_of
  group_of-Within v [] h = tt
  group_of-Within v ((w, es) ∷ gs) (h, rest) = elim (Bool-cases (value_eq w v)) [
    | inl t ↦ rw t h
    | inr f ↦ rw f (group_of-Within v gs rest)
  ]

  pub latest-In :
      (e : SecurityEvent) (es : List SecurityEvent)
      → In e events
      → Within es
      → In (latest e es) events
  unfolding latest
  latest-In e [] i h = i
  latest-In e (d ∷ es) i (j, h) = elim (Bool-cases (time_le d e)) [
    | inl t ↦ rw (latest, t) (latest-In e es i h)
    | inr f ↦ rw (latest, f) (latest-In d es j h)
  ]

  abbrev pub PairsWithin : List (SecurityEvent × SecurityEvent) → Type 0
  PairsWithin ps = All (λ p. In p.0 events × In p.1 events) ps

  pub neighbours-PairsWithin : (es : List SecurityEvent) → Within es → PairsWithin (neighbours es)
  unfolding neighbours
  neighbours-PairsWithin [] h = tt
  neighbours-PairsWithin (a ∷ []) h = tt
  neighbours-PairsWithin (a ∷ b ∷ es) (i, (j, h)) = ((i, j), neighbours-PairsWithin (b ∷ es) (j, h))
