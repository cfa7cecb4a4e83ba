-- ===== src/AttackChain/Compiled.antt =====
-- The query document that a chain compiles to (bindings/python/attack_chain.py), read back by
-- `parse_query_spec` of bindings/python/dsl.py.
use x_dsi_cet.Base.{
  ◌≡◌, ◌≢◌, refl, sym, ap, ◌∙◌, inl, inr, Bool, true, false, ◌||◌, Option, none, some, List, [],
  ◌∷◌, ◌++◌, append-nil, append_assoc, Bool-cases, arith, if◌then◌else◌,
}
use x_dsi_cet.Base.Text.{Text, codes, text_eq}
use x_dsi_cet.Base.Dict.{text_key, has, add, has-append}
use x_dsi_cet.Base.Result.{ok, map_ok}
use x_dsi_cet.Value.{Value, Fields, arr, obj, end, field, get_item, set_default, truthy}
use x_dsi_cet.Platform.{Platform, str_of}
use x_dsi_cet.Contracts.{int_of}
use x_dsi_cet.Document.{
  get_value, item, first_or_last, iterate, with_get, dict_of, optional_text, list_of, of_list,
  texts_value, text_item, text_or, int_item, int_or, texts_of,
}
use x_dsi_cet.Dsl.Query.{FieldPredicate, AbsenceSpec, RelationConstraint, QuerySpec}
use x_dsi_cet.Dsl.Documents.{
  predicate_from, absence_from, relation_from, where_from, absences_from, relations_from,
  parse_query_spec,
}
use x_dsi_cet.AttackChain.{AttackChain, to_query_spec_dict, pattern_of, unique, scored}
use x_dsi_cet.AttackChain.Tokens.{not-is_empty}

pub list_of-of_list : (vs : List Value) → list_of (of_list vs) ≡ vs
unfolding list_of of_list
list_of-of_list [] = refl
list_of-of_list (v ∷ vs) = ap (◌∷◌ v) (list_of-of_list vs)

-- The first occurrence of each text, in order, of those that are not marked.
unfoldable pub firsts : List Text → List Text → List Text
unfolding has
firsts marked [] = []
firsts marked (t ∷ ts) =
    let rest = firsts marked ts in
    let new = firsts (t ∷ marked) ts in if has t marked then rest else t ∷ new

-- A dictionary with one more key, and one that has the techniques unless it has some.
unfoldable pub with_last : Text → Value → Fields → Fields
with_last k v end = field k v end
with_last k v (field j w d) = field j w (with_last k v d)

abbrev pub with_techniques : List Text → Fields → Fields
with_techniques [] score = score
with_techniques (m ∷ mitre) score = elim (get_item (codes "mitre") score) [
  | some v ↦ score
  | none ↦ with_last (codes "mitre") (arr (texts_value (m ∷ mitre))) score
]

unique-firsts :
    (ts seen marked : List Text)
    → ((t : Text) → has t seen ≡ has t marked)
    → unique seen ts ≡ seen ++ firsts marked ts
unfolding unique firsts add has
unique-firsts [] seen marked h = sym (append-nil seen)
unique-firsts (t ∷ ts) seen marked h = elim (Bool-cases (has t marked)) [
  | inl old ↦ rw (unique, add, h t, old) (unique-firsts ts seen marked h)
  | inr new ↦
      rw (unique, add, h t, new)
        (unique-firsts ts (seen ++ t ∷ []) (t ∷ marked)
            (λ u. has-append u seen (t ∷ []) ∙ rw (h u) (turned (has u marked) (text_eq t u)))
          ∙ append_assoc seen (t ∷ []) (firsts (t ∷ marked) ts))
]
  where
    turned : (a b : Bool) → (a || (b || false)) ≡ (b || a)
    turned a b = ground arith

set_default-with_last :
    (k : Text) (v : Value) (d : Fields)
    → set_default k v d ≡ (elim (get_item k d) [ some w ↦ d | none ↦ with_last k v d ])
unfolding set_default get_item with_last
set_default-with_last k v end = refl
set_default-with_last k v (field j w d) = elim (Bool-cases (text_eq j k)) [
  | inl t ↦ rw (set_default, get_item, t) refl
  | inr f ↦ rw (set_default, get_item, f, set_default-with_last k v d) (by_item (get_item k d))
]
  where
    by_item :
        (o : Option Value)
        → field j w (elim o [ some u ↦ d | none ↦ with_last k v d ])
          ≡ (elim o [ some u ↦ field j w d | none ↦ with_last k v (field j w d) ])
    by_item none = refl
    by_item (some u) = refl

scored-with_techniques :
    (mitre : List Text) (score : Fields) → scored mitre score ≡ with_techniques mitre score
scored-with_techniques [] score = refl
scored-with_techniques (m ∷ mitre) score =
    set_default-with_last (codes "mitre") (arr (texts_value (m ∷ mitre))) score

module _ (p : Platform) where
  texts_of-texts_value :
      (ts : List Text) → map_ok (λ x. ok (str_of p x)) (list_of (texts_value ts)) ≡ ok ts
  unfolding map_ok list_of texts_value str_of
  texts_of-texts_value [] = refl
  texts_of-texts_value (t ∷ ts) = rw (map_ok, texts_of-texts_value ts) refl

  -- The query that a chain stands for, once its predicates, absences and relations are read.
  abbrev pub query_of :
      AttackChain → List FieldPredicate → List AbsenceSpec → List RelationConstraint → QuerySpec
  query_of c predicates absences relations = record {
    query_id = c.chain_id;
    version = c.version;
    name = some c.name;
    pattern = pattern_of c;
    within_ms = c.within_ms;
    slide_ms = c.slide_ms;
    severity = c.severity;
    enabled = true;
    where_ = predicates;
    absence = absences;
    relations = relations;
    score = with_techniques c.mitre c.score;
    tags = firsts [] (c.tags ++ codes "attack_chain" ∷ c.mitre);
  }

  -- The document that a chain with an id compiles to, where the readers accept the chain's
  -- predicates, absences and relations, is read as the query with what they make of these, the
  -- fields of the chain, the compiled pattern, the first occurrence of each tag, and the score with
  -- the techniques unless it has some.
  pub parse_query_spec-to_query_spec_dict :
      (c : AttackChain) (predicates : List FieldPredicate) (absences : List AbsenceSpec)
      (relations : List RelationConstraint)
      → c.chain_id ≢ []
      → map_ok (predicate_from p) c.where_ ≡ ok predicates
      → map_ok (absence_from p) c.absence ≡ ok absences
      → map_ok (relation_from p) c.relations ≡ ok relations
      → parse_query_spec p (obj (to_query_spec_dict c))
        ≡ ok (query_of c predicates absences relations)
  unfolding parse_query_spec to_query_spec_dict get_item with_get get_value item first_or_last
      iterate dict_of optional_text text_item text_or int_item int_or texts_of int_of str_of truthy
      where_from absences_from relations_from text_eq
  parse_query_spec-to_query_spec_dict c predicates absences relations n h k l =
      rw
        (
          parse_query_spec,
          to_query_spec_dict,
          get_item,
          with_get,
          get_value,
          item,
          first_or_last,
          iterate,
          text_item,
          text_or,
          int_item,
          int_or,
          where_from,
          absences_from,
          relations_from,
          texts_of,
          list_of-of_list c.where_,
          h,
          list_of-of_list c.absence,
          k,
          list_of-of_list c.relations,
          l,
          texts_of-texts_value (unique [] (c.tags ++ codes "attack_chain" ∷ c.mitre)),
          not-is_empty c.chain_id n,
          unique-firsts (c.tags ++ codes "attack_chain" ∷ c.mitre) [] [] (λ t. refl),
          scored-with_techniques c.mitre c.score,
        )
        refl
