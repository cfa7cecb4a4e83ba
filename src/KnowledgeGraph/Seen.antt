-- ===== src/KnowledgeGraph/Seen.antt =====
-- bindings/python/temporal_kg.py: an entity is first and last seen at the least and the greatest time
-- of the events that name it, in whatever order these come.
use mathlib.Core.Path.{subst}
use x_dsi_cet.Base.{
  ◌≡◌, refl, sym, ap, ◌∙◌, inl, inr, Bool, true, false, not, ◌&&◌, ◌||◌, Option, none, some, List,
  [], ◌∷◌, Bool-cases, All, All-In, All-of_In, In, arith, if◌then◌else◌, ◌⊎◌,
}
use x_dsi_cet.Base.Int.{ℤ, pos, leb_ℤ, min_ℤ, max_ℤ}
use x_dsi_cet.Base.Text.{
  Text, codes, text_eq, text_eq→eq, text_eq_refl, text_le_total, text_le_trans,
}
use x_dsi_cet.Base.Dict.{
  text_key, lookup, insert, values, lookup-insert, DistinctKeys, insert-DistinctKeys, In-values,
  lookup-In,
}
use x_dsi_cet.Base.Sort.{sort, In-sort, sort-In, IsSorted, sort-IsSorted}
use x_dsi_cet.Base.Result.{ok, raise, >>=-eq-ok, ok-injective}
use x_dsi_cet.Value.{Fields, int}
use x_dsi_cet.Platform.{Platform}
use x_dsi_cet.Document.{int_or}
use x_dsi_cet.KnowledgeGraph.{
  entity_fields, get_entity, is_missing, EntityRow, EntityRelation, EntityTable, EventEntity,
  TemporalKg, entity_id, first_seen, last_seen, entity_row, note_entities, event_relations,
  note_events, trends_evidence, entity_le, build_temporal_kg,
}

-- An entity is named by an event with a time.
abbrev pub Sighting : Type 0
Sighting = Text × ℤ

-- A sighting of the entity of a row is between its two times.
abbrev pub is_within : EntityRow → Sighting → Bool
is_within row s =
    not (text_eq s.0 row.entity_id) || (leb_ℤ row.first_seen_ms s.1 && leb_ℤ s.1 row.last_seen_ms)

-- The two times of a row are those of sightings of its entity, and all the others are between them.
abbrev pub IsSeen : List Sighting → EntityRow → Type 0
IsSeen sightings row =
    In (row.entity_id, row.first_seen_ms) sightings
    × In (row.entity_id, row.last_seen_ms) sightings
    × All (λ s. is_within row s ≡ true) sightings

module _ (p : Platform) (dumps : Fields → Text) where
  -- The sightings by the fields of an event, before those that are known.
  unfoldable pub sighted : Fields → ℤ → List (Text × Text) → List Sighting → List Sighting
  unfolding get_entity is_missing entity_id
  sighted event ts [] known = known
  sighted event ts ((entity_type, name) ∷ wanted) known = elim (get_entity event name) [
    | raise e ↦ sighted event ts wanted known
    | ok value ↦
        if is_missing value
        then sighted event ts wanted known
        else sighted event ts wanted ((entity_id p dumps entity_type value, ts) ∷ known)
  ]

  -- The sightings by the events, the latest first.
  unfoldable pub sightings_from : List Fields → List Sighting → List Sighting
  unfolding sighted int_or
  sightings_from [] known = known
  sightings_from (event ∷ events) known =
      elim (int_or p (codes "event_time_ms") (int (pos 0)) event) [
        | raise e ↦ sightings_from events known
        | ok ts ↦ sightings_from events (sighted event ts entity_fields known)
      ]

-- What the table says of an id: its row, or that it was not seen.
abbrev Noted : List Sighting → Text → Option EntityRow → Type 0
Noted known k none = All (λ s. text_eq s.0 k ≡ false) known
Noted known k (some row) = (row.entity_id ≡ k) × IsSeen known row

abbrev Tracks : List Sighting → EntityTable → Type 0
Tracks known table = (k : Text) → Noted known k (lookup k table)

Noted-other :
    (k id : Text) (ts : ℤ) (known : List Sighting) (found : Option EntityRow)
    → text_eq id k ≡ false
    → Noted known k found
    → Noted ((id, ts) ∷ known) k found
Noted-other k id ts known none f h = (f, h)
Noted-other k id ts known (some row) f (same, (i, j, all)) =
    (same, (inr i, inr j, (rw (same, f) refl, all)))

All-wider :
    (row wider : EntityRow) (known : List Sighting)
    → wider.entity_id ≡ row.entity_id
    → leb_ℤ wider.first_seen_ms row.first_seen_ms ≡ true
    → leb_ℤ row.last_seen_ms wider.last_seen_ms ≡ true
    → All (λ s. is_within row s ≡ true) known
    → All (λ s. is_within wider s ≡ true) known
All-wider row wider known same h k all = All-of_In _ known (λ s i. rw same (
    go (text_eq s.0 row.entity_id) wider.first_seen_ms row.first_seen_ms s.1 row.last_seen_ms
      wider.last_seen_ms h k (All-In (λ s. is_within row s ≡ true) known all s i)))
  where
    go :
        (b : Bool) (x f t l y : ℤ)
        → leb_ℤ x f ≡ true
        → leb_ℤ l y ≡ true
        → (not b || (leb_ℤ f t && leb_ℤ t l)) ≡ true
        → (not b || (leb_ℤ x t && leb_ℤ t y)) ≡ true
    go b x f t l y h k m = ground arith

min_ℤ-cases : (a b : ℤ) → (min_ℤ a b ≡ a) ⊎ (min_ℤ a b ≡ b)
min_ℤ-cases a b = elim (Bool-cases (leb_ℤ a b)) [
  | inl t ↦ inl (ground arith)
  | inr f ↦ inr (ground arith)
]

max_ℤ-cases : (a b : ℤ) → (max_ℤ a b ≡ a) ⊎ (max_ℤ a b ≡ b)
max_ℤ-cases a b = elim (Bool-cases (leb_ℤ a b)) [
  | inl t ↦ inr (ground arith)
  | inr f ↦ inl (ground arith)
]

In-pair :
    (known : List Sighting) {a b : Text} {t u : ℤ}
    → a ≡ b
    → t ≡ u
    → In (a, t) known
    → In (b, u) known
In-pair known {a} {b} {t} {u} p q h =
    subst (λ (x : Text). In (x, u) known) p (subst (λ (x : ℤ). In (a, x) known) q h)

-- A row that takes one more sighting into account.
new_row-IsSeen :
    (id : Text) (ts : ℤ) (known : List Sighting) (prev : Option EntityRow) (row : EntityRow)
    → row.entity_id ≡ id
    → row.first_seen_ms ≡ first_seen ts prev
    → row.last_seen_ms ≡ last_seen ts prev
    → Noted known id prev
    → IsSeen ((id, ts) ∷ known) row
new_row-IsSeen id ts known none row same first last unseen = (
  inl (rw (same, first) refl),
  inl (rw (same, last) refl),
  (
    rw (same, first, last) (here (text_eq id id) ts),
    All-of_In _ known (λ s i.
        rw same
          (elsewhere (text_eq s.0 id) _ (All-In (λ s. text_eq s.0 id ≡ false) known unseen s i))),
  ),
)
  where
    here : (b : Bool) (t : ℤ) → (not b || (leb_ℤ t t && leb_ℤ t t)) ≡ true
    here b t = ground arith

    elsewhere : (b c : Bool) → b ≡ false → (not b || c) ≡ true
    elsewhere b c f = rw f refl
new_row-IsSeen id ts known (some prev) row same first last (old, (i, j, all)) = (
  elim (min_ℤ-cases ts prev.first_seen_ms) [
    | inl e ↦ inl (rw (same, first) (ap (λ (t : ℤ). (id, t)) e))
    | inr e ↦ inr (In-pair known (old ∙ sym same) (sym (first ∙ e)) i)
  ],
  elim (max_ℤ-cases ts prev.last_seen_ms) [
    | inl e ↦ inl (rw (same, last) (ap (λ (t : ℤ). (id, t)) e))
    | inr e ↦ inr (In-pair known (old ∙ sym same) (sym (last ∙ e)) j)
  ],
  (
    rw (same, first, last) (here (text_eq id id) ts prev.first_seen_ms prev.last_seen_ms),
    All-wider prev row known (same ∙ sym old) (rw first (lower ts prev.first_seen_ms))
        (rw last (higher ts prev.last_seen_ms)) all,
  ),
)
  where
    lower : (t f : ℤ) → leb_ℤ (min_ℤ t f) f ≡ true
    lower t f = ground arith

    higher : (t l : ℤ) → leb_ℤ l (max_ℤ t l) ≡ true
    higher t l = ground arith

    here : (b : Bool) (t f l : ℤ) → (not b || (leb_ℤ (min_ℤ t f) t && leb_ℤ t (max_ℤ t l))) ≡ true
    here b t f l = ground arith

insert-Tracks :
    (id : Text) (ts : ℤ) (known : List Sighting) (table : EntityTable) (row : EntityRow)
    → row.entity_id ≡ id
    → row.first_seen_ms ≡ first_seen ts (lookup id table)
    → row.last_seen_ms ≡ last_seen ts (lookup id table)
    → Tracks known table
    → Tracks ((id, ts) ∷ known) (insert id row table)
insert-Tracks id ts known table row same first last h k = elim (Bool-cases (text_eq id k)) [
  | inl t ↦
      rw (lookup-insert id k row table, t)
        (
          same ∙ text_eq→eq id k t,
          new_row-IsSeen id ts known (lookup id table) row same first last (h id),
        )
  | inr f ↦
      rw (lookup-insert id k row table, f) (Noted-other k id ts known (lookup k table) f (h k))
]

-- A table that tracks the sightings, with each id once.
abbrev IsTable : List Sighting → EntityTable → Type 0
IsTable known table = Tracks known table × DistinctKeys table

module _ (p : Platform) (dumps : Fields → Text) where
  note_entities-IsTable :
      (event : Fields) (ts : ℤ) (wanted : List (Text × Text)) (known : List Sighting)
      (table : EntityTable) (noted : EntityTable × List EventEntity)
      → IsTable known table
      → note_entities p dumps event ts wanted table ≡ ok noted
      → IsTable (sighted p dumps event ts wanted known) noted.0
  unfolding note_entities sighted entity_row
  note_entities-IsTable event ts [] known table noted h e = rw (← ok-injective _ noted e) h
  note_entities-IsTable event ts ((entity_type, name) ∷ wanted) known table noted h e =
      let (value, read, next) = >>=-eq-ok (get_entity event name) _ e in
      rw (sighted, read)
        (elim (Bool-cases (is_missing value)) [
          | inl missing ↦
              rw missing
                (note_entities-IsTable event ts wanted known table noted h (rw missing at next))
          | inr there ↦
              let row = entity_row p dumps ts entity_type name value table in
              let (more, found, last) =
                >>=-eq-ok (note_entities p dumps event ts wanted (insert row.entity_id row table)) _
                  (rw there at next) in
              rw (there, ← ok-injective _ noted last)
                (note_entities-IsTable event ts wanted ((row.entity_id, ts) ∷ known)
                  (insert row.entity_id row table) more
                  (
                    insert-Tracks row.entity_id ts known table row refl refl refl h.0,
                    insert-DistinctKeys row.entity_id row table h.1,
                  )
                  found)
        ])

  note_events-IsTable :
      (events : List Fields) (known : List Sighting) (table : EntityTable)
      (noted : EntityTable × List EntityRelation)
      → IsTable known table
      → note_events p dumps events table ≡ ok noted
      → IsTable (sightings_from p dumps events known) noted.0
  unfolding note_events sightings_from
  note_events-IsTable [] known table noted h e = rw (← ok-injective _ noted e) h
  note_events-IsTable (event ∷ events) known table noted h e =
      let (ts, time, first) =
        >>=-eq-ok (int_or p (codes "event_time_ms") (int (pos 0)) event) _ e in
      let (seen, found, second) =
        >>=-eq-ok (note_entities p dumps event ts entity_fields table) _ first in
      let (relations, _, third) = >>=-eq-ok (event_relations p dumps event seen.1 ts) _ second in
      let (rest, others, last) = >>=-eq-ok (note_events p dumps events seen.0) _ third in
      rw (sightings_from, time, ← ok-injective _ noted last)
        (note_events-IsTable events (sighted p dumps event ts entity_fields known) seen.0 rest
          (note_entities-IsTable event ts entity_fields known table seen h found) others)

  lookup-Noted :
      (known : List Sighting) (table : EntityTable) (row : EntityRow)
      → IsTable known table
      → In row (values table)
      → IsSeen known row
  lookup-Noted known table row (h, distinct) i =
      let (k, found) = In-values row table distinct i in
      let noted : Noted known k (some row) = rw found at (h k) in noted.1

  sighting-values :
      (known : List Sighting) (table : EntityTable) (s : Sighting)
      → Tracks known table
      → In s known
      → (row : EntityRow) × In row (values table) × (row.entity_id ≡ s.0)
  sighting-values known table s h i = by_row (lookup s.0 table) refl (h s.0)
    where
      never : text_eq s.0 s.0 ≡ false → text_eq s.0 s.0 ≡ true → ⊥
      never f t = cc

      by_row :
          (found : Option EntityRow)
          → lookup s.0 table ≡ found
          → Noted known s.0 found
          → (row : EntityRow) × In row (values table) × (row.entity_id ≡ s.0)
      by_row (some row) e noted = (row, lookup-In s.0 row table e, noted.0)
      by_row none e unseen =
          absurd (never (All-In (λ r. text_eq r.0 s.0 ≡ false) known unseen s i) (text_eq_refl s.0))

  -- The entities of a knowledge graph are sorted by their ids. They are those that the events name,
  -- and each is first and last seen at the least and the greatest time of the events that name it,
  -- in whatever order these come.
  pub build_temporal_kg-IsSeen :
      (events trends : List Fields) (kg : TemporalKg)
      → build_temporal_kg p dumps events trends ≡ ok kg
      → All (IsSeen (sightings_from p dumps events [])) kg.entities
        × All
            (λ s. (row : EntityRow) × In row kg.entities × (row.entity_id ≡ s.0))
            (sightings_from p dumps events [])
        × IsSorted entity_le kg.entities
  unfolding build_temporal_kg
  build_temporal_kg-IsSeen events trends kg e =
      let (noted, found, first) = >>=-eq-ok (note_events p dumps events []) _ e in
      let (evidence, _, last) = >>=-eq-ok (trends_evidence p dumps trends) _ first in
      let known = sightings_from p dumps events [] in
      let table = note_events-IsTable events [] [] noted (empty, tt) found in
      rw (← ok-injective _ kg last) (
        All-of_In (IsSeen known) (sort entity_le (values noted.0)) (λ row i.
            lookup-Noted known noted.0 row table (In-sort entity_le row (values noted.0) i)),
        All-of_In _ known (λ s i.
            let (row, j, same) = sighting-values known noted.0 s table.0 i in
            (row, sort-In entity_le row (values noted.0) j, same)),
        sort-IsSorted entity_le (λ a b. text_le_total a.entity_id b.entity_id)
            (λ a b c. text_le_trans a.entity_id b.entity_id c.entity_id) (values noted.0),
      )
    where
      empty : Tracks [] []
      empty k = tt
