-- ===== src/MultiQuery/Found.antt =====
-- The events of a path in bindings/python/multi_query_runtime.py: each is what the graph made of a
-- candidate with the id that stands in the path.
use mathlib.Core.Path.{subst}
use x_dsi_cet.Base.{
  suc, ◌≤◌, ◌≡◌, refl, sym, ap, ◌∙◌, ◌⊎◌, inl, inr, some, List, [], ◌∷◌, map, Bool-cases,
  Option-cases, In, map-In, arith, length, if◌then◌else◌,
}
use x_dsi_cet.Base.Int.{ℤ, eqb_ℤ, eqb_ℤ→eq}
use x_dsi_cet.Base.Text.{codes, text_eq}
use x_dsi_cet.Base.Dict.{Dict, int_key, lookup, insert, lookup-insert}
use x_dsi_cet.Base.Sort.{sort, In-sort}
use x_dsi_cet.Base.Result.{Result, ok, map_ok, >>=-eq-ok, ok-injective}
use x_dsi_cet.Value.{Fields, Event, obj, end, get_item}
use x_dsi_cet.Platform.{Platform}
use x_dsi_cet.Contracts.{int_of}
use x_dsi_cet.Document.{first_true, dict_of, item, int_item, text_item, with_get}
use x_dsi_cet.SecurityGraph.{
  SecurityEvent, SecurityGraph, SecurityGraphBuilder, event_from, as_dict, events_by_id_from,
  events_by_id, place_le,
}
use x_dsi_cet.SecurityGraph.Build.{RawEvent, document, security_event, build_edges, build}
use x_dsi_cet.MultiQuery.{found_events, typed, raw_of}

-- The event is what the graph made of a candidate with the id.
pub record IsEventOf (p : Platform) (candidates : List Event) (eid : ℤ) (e : Event) : Type 0 where
  pub candidate : Event
  pub candidate_In : In candidate candidates
  pub same_id : candidate.event_id ≡ eid
  pub in_graph : SecurityEvent
  pub read : security_event p (document (obj (raw_of candidate))) ≡ ok in_graph
  pub given_back : typed (as_dict in_graph) ≡ ok e

-- One event for each id of a path.
abbrev pub ArePathEvents : Platform → List Event → List ℤ → List Event → Type 0
ArePathEvents p candidates [] [] = Unit
ArePathEvents p candidates [] (e ∷ es) = ⊥
ArePathEvents p candidates (eid ∷ path) [] = ⊥
ArePathEvents p candidates (eid ∷ path) (e ∷ es) =
    IsEventOf p candidates eid e × ArePathEvents p candidates path es

event_from-id :
    (p : Platform) (raw : Fields) (se : SecurityEvent)
    → event_from p (obj raw) ≡ ok se
    → int_item p (codes "event_id") raw ≡ ok se.event_id
unfolding event_from with_get
event_from-id p raw se e =
    let (given, _, first) =
      >>=-eq-ok (dict_of (first_true (codes "attributes" ∷ codes "payload" ∷ []) (obj end) raw)) _
        e in
    let (id, found, second) = >>=-eq-ok (int_item p (codes "event_id") raw) _ first in
    let (type, _, third) = >>=-eq-ok (text_item p (codes "event_type") raw) _ second in
    let (time, _, last) = >>=-eq-ok (int_item p (codes "event_time_ms") raw) _ third in
    rw (← ok-injective _ se last) found

security_event-id :
    (p : Platform) (c : Event) (se : SecurityEvent)
    → security_event p (document (obj (raw_of c))) ≡ ok se
    → c.event_id ≡ se.event_id
unfolding security_event raw_of int_item item get_item int_of text_eq
security_event-id p c se e = ok-injective c.event_id se.event_id (event_from-id p (raw_of c) se e)

-- The events of a graph that the dictionary is made of.
abbrev FoundIn : List SecurityEvent → ℤ → Fields → Type 0
FoundIn es eid d = (se : SecurityEvent) × In se es × (se.event_id ≡ eid) × (as_dict se ≡ d)

FoundIn-behind :
    (e : SecurityEvent) (es : List SecurityEvent) (eid : ℤ) (d : Fields)
    → FoundIn es eid d
    → FoundIn (e ∷ es) eid d
FoundIn-behind e es eid d (se, i, same, dict) = (se, inr i, same, dict)

lookup-events_by_id_from :
    (es : List SecurityEvent) (found : Dict ℤ Fields) (eid : ℤ) (d : Fields)
    → lookup eid (events_by_id_from found es) ≡ some d
    → (lookup eid found ≡ some d) ⊎ FoundIn es eid d
unfolding events_by_id_from
lookup-events_by_id_from [] found eid d h = inl h
lookup-events_by_id_from (e ∷ es) found eid d h =
    elim (lookup-events_by_id_from es (insert e.event_id (as_dict e) found) eid d h) [
      | inr later ↦ inr (FoundIn-behind e es eid d later)
      | inl known ↦
          let k : (if eqb_ℤ e.event_id eid then some (as_dict e) else lookup eid found) ≡ some d =
            sym (lookup-insert e.event_id eid (as_dict e) found) ∙ known in
          elim (Bool-cases (eqb_ℤ e.event_id eid)) [
            | inl t ↦
                inr
                  (e, inl refl, eqb_ℤ→eq e.event_id eid t, some_injective (as_dict e) d (rw t at k))
            | inr f ↦ inl (rw f at k)
          ]
    ]
  where
    some_injective : (a b : Fields) → some a ≡ some b → a ≡ b
    some_injective a b h = cc

map_ok-In :
    {X Y : Type 0} (f : X → Result Y) (xs : List X) (ys : List Y) (y : Y)
    → map_ok f xs ≡ ok ys
    → In y ys
    → (x : X) × In x xs × (f x ≡ ok y)
unfolding map_ok
map_ok-In f [] ys y e i = absurd (subst (In y) (sym (ok-injective [] ys e)) i)
map_ok-In f (x ∷ xs) ys y e i =
    let (z, first, more) = >>=-eq-ok (f x) _ e in
    let (zs, rest, last) = >>=-eq-ok (map_ok f xs) _ more in
    let j : In y (z ∷ zs) = subst (In y) (sym (ok-injective (z ∷ zs) ys last)) i in
    elim j [
      | inl same ↦ (x, inl refl, first ∙ ap ok (sym same))
      | inr k ↦ let (w, l, made) = map_ok-In f xs zs y rest k in (w, inr l, made)
    ]

graph-FoundIn :
    (builder : SecurityGraphBuilder) (p : Platform) (raw_events : List RawEvent)
    (graph : SecurityGraph) (se : SecurityEvent)
    → build builder p raw_events ≡ ok graph
    → In se graph.events
    → (raw : RawEvent) × In raw raw_events × (security_event p raw ≡ ok se)
unfolding build
graph-FoundIn builder p raw_events graph se e i =
    let (given, read, first) = >>=-eq-ok (map_ok (security_event p) raw_events) _ e in
    let (edges, _, last) = >>=-eq-ok (build_edges builder (sort place_le given)) _ first in
    let same : sort place_le given ≡ graph.events =
      ap (λ (g : SecurityGraph). g.events) (ok-injective _ graph last) in
    map_ok-In (security_event p) raw_events given se read
      (In-sort place_le se given (subst (In se) (sym same) i))

module _ (p : Platform) (builder : SecurityGraphBuilder) (candidates : List Event)
    (graph : SecurityGraph)
    (built : build builder p (map (λ (e : Event). document (obj (raw_of e))) candidates)
      ≡ ok graph) where
  lookup-IsEventOf :
      (eid : ℤ) (d : Fields) (e : Event)
      → lookup eid (events_by_id graph) ≡ some d
      → typed d ≡ ok e
      → IsEventOf p candidates eid e
  unfolding events_by_id lookup
  lookup-IsEventOf eid d e h t = elim (lookup-events_by_id_from graph.events [] eid d h) [
    | inl nothing ↦ absurd (never nothing)
    | inr (se, i, same, dict) ↦
        let (raw, j, made) = graph-FoundIn builder p _ graph se built i in
        let (c, k, origin) = map-In (λ (e : Event). document (obj (raw_of e))) raw candidates j in
        let read : security_event p (document (obj (raw_of c))) ≡ ok se =
          ap (security_event p) (sym origin) ∙ made in
        record {
          candidate = c;
          candidate_In = k;
          same_id = security_event-id p c se read ∙ same;
          in_graph = se;
          read = read;
          given_back = ap typed dict ∙ t;
        }
  ]
    where
      never : lookup {K = ℤ} {V = Fields} eid [] ≡ some d → ⊥
      never h = cc

  length-found_events :
      (by_id : Dict ℤ Fields) (path : List ℤ) → length (found_events by_id path) ≤ length path
  unfolding found_events
  length-found_events by_id [] = omega arith
  length-found_events by_id (eid ∷ path) = elim (Option-cases (lookup eid by_id)) [
    | inl e ↦ rw (found_events, e) (omega (arith, length-found_events by_id path))
    | inr (d, e) ↦ rw (found_events, e) (omega (arith, length-found_events by_id path))
  ]

  -- Where none of the ids of a path is unknown, its events are those of the ids.
  pub found_events-ArePathEvents :
      (path : List ℤ) (es : List Event)
      → length (found_events (events_by_id graph) path) ≡ length path
      → map_ok typed (found_events (events_by_id graph) path) ≡ ok es
      → ArePathEvents p candidates path es
  unfolding found_events map_ok
  found_events-ArePathEvents [] [] h e = tt
  found_events-ArePathEvents [] (x ∷ es) h e = cc
  found_events-ArePathEvents (eid ∷ path) es h e =
      elim (Option-cases (lookup eid (events_by_id graph))) [
        | inl unknown ↦
            let short : length (found_events (events_by_id graph) path) ≡ suc (length path) =
              rw (found_events, unknown) at h in
            let bound = length-found_events (events_by_id graph) path in absurd (omega arith)
        | inr (d, known) ↦
            let rest_length : suc (length (found_events (events_by_id graph) path))
                ≡ suc (length path) =
              rw (found_events, known) at h in
            let all : map_ok typed (d ∷ found_events (events_by_id graph) path) ≡ ok es =
              rw (found_events, known) at e in
            let (x, first, more) = >>=-eq-ok (typed d) _ all in
            let (xs, rest, last) =
              >>=-eq-ok (map_ok typed (found_events (events_by_id graph) path)) _ more in
            subst (ArePathEvents p candidates (eid ∷ path)) (ok-injective (x ∷ xs) es last) (
              lookup-IsEventOf eid d x known first,
              found_events-ArePathEvents path xs (omega arith) rest,
            )
      ]
