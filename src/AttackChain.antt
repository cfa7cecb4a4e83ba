-- ===== src/AttackChain.antt =====
-- bindings/python/attack_chain.py: attack chains and their compilation to query documents.
pub mod Tokens
pub mod Forms
pub mod Patterns
pub mod Split
pub mod Compiled
use x_dsi_cet.Base.{
  ℕ, Bool, true, false, not, ◌&&◌, ◌||◌, Option, none, some, List, [], ◌∷◌, ◌++◌, map,
  if◌then◌else◌,
}
use x_dsi_cet.Base.Int.{ℤ, pos, eqb_ℤ}
use x_dsi_cet.Base.Text.{Text, codes, join, int_text}
use x_dsi_cet.Base.Dict.{text_key, add}
use x_dsi_cet.Base.Result.{Result, ok, ◌>>=◌, map_ok}
use x_dsi_cet.Value.{
  Value, Values, Fields, null, bool, int, str, arr, obj, nil, cons, end, field, get_item,
  set_default,
}
use x_dsi_cet.Platform.{Platform, str_of}
use x_dsi_cet.Contracts.{int_of}
use x_dsi_cet.Document.{
  get_value, item, first_true, first_or_last, iterate, indexed, with_get, dict_of, of_list,
  texts_value, text_item, text_or, int_item, int_or, texts_of,
}

pub record AttackChainStep : Type 0 where
  pub event_type : Text
  pub alias : Value
  pub min_repeats : ℤ
  pub max_repeats : Option ℤ

abbrev braces : Text → Text → Text
braces token inside = token ++ b'{' ∷ (inside ++ b'}' ∷ [])

abbrev is_one : ℤ → Bool
is_one n = eqb_ℤ n (pos 1)

unfoldable pub to_pattern_token : AttackChainStep → Text
unfolding int_text
to_pattern_token s = elim s.max_repeats [
  | some most ↦
      if eqb_ℤ s.min_repeats (pos 0) && is_one most
      then s.event_type ++ b'?' ∷ []
      else if not (is_one s.min_repeats && is_one most)
      then braces s.event_type (int_text s.min_repeats ++ b',' ∷ int_text most)
      else s.event_type
  | none ↦
      if is_one s.min_repeats
      then s.event_type ++ b'+' ∷ []
      else braces s.event_type (int_text s.min_repeats ++ b',' ∷ [])
]

pub record AttackChain : Type 0 where
  pub chain_id : Text
  pub version : Text
  pub name : Text
  pub steps : List AttackChainStep
  pub within_ms : ℤ
  pub slide_ms : ℤ
  pub severity : Text
  pub where_ : List Value
  pub relations : List Value
  pub absence : List Value
  pub score : Fields
  pub mitre : List Text
  pub tags : List Text

module _ (p : Platform) where
  -- `None if ("max_repeats" in s and s.get("max_repeats") is None) else int(…)`.
  abbrev most_from : Option Value → Result (Option ℤ)
  most_from (some null) = ok none
  most_from (some v) = int_of p v >>= λ n. ok (some n)
  most_from none = ok (some (pos 1))

  unfoldable pub step_from : Value → Result AttackChainStep
  unfolding indexed text_item get_value int_or int_of get_item
  step_from v = do
    s ← indexed v
    event_type ← text_item p (codes "event_type") s
    least ← int_or p (codes "min_repeats") (int (pos 1)) s
    most ← most_from (get_item (codes "max_repeats") s)
    ok (record {
      event_type = event_type;
      alias = get_value (codes "alias") null s;
      min_repeats = least;
      max_repeats = most;
    })

  -- `d.get("chain_id") or d.get("query_id") or d["name"]`.
  unfoldable pub chain_id_from : Fields → Result Text
  unfolding first_true item str_of
  chain_id_from d = elim (first_true (codes "chain_id" ∷ codes "query_id" ∷ []) null d) [
    | null ↦ item (codes "name") d >>= λ v. ok (str_of p v)
    | v ↦ ok (str_of p v)
  ]

  unfoldable pub chain_from : Value → Result AttackChain
  unfolding with_get get_value iterate map_ok step_from chain_id_from text_or first_or_last int_item
      item int_of dict_of texts_of str_of
  chain_from v = do
    d ← with_get v
    raw_steps ← iterate (get_value (codes "steps") (arr nil) d)
    steps ← map_ok step_from raw_steps
    chain_id ← chain_id_from d
    within ← int_item p (codes "within_ms") d
    default_slide ← item (codes "within_ms") d
    slide ← int_of p (get_value (codes "slide_ms") default_slide d)
    predicates ← iterate (get_value (codes "where") (arr nil) d)
    relations ← iterate (get_value (codes "relations") (arr nil) d)
    absence ← iterate (get_value (codes "absence") (arr nil) d)
    score ← dict_of (get_value (codes "score") (obj end) d)
    mitre ← texts_of p (get_value (codes "mitre") (arr nil) d)
    tags ← texts_of p (get_value (codes "tags") (arr nil) d)
    ok (record {
      chain_id = chain_id;
      version = text_or p (codes "version") (str (codes "v1")) d;
      name = str_of p (first_or_last (codes "name") (codes "chain_id" ∷ codes "query_id" ∷ []) d);
      steps = steps;
      within_ms = within;
      slide_ms = slide;
      severity = text_or p (codes "severity") (str (codes "medium")) d;
      where_ = predicates;
      relations = relations;
      absence = absence;
      score = score;
      mitre = mitre;
      tags = tags;
    })

-- `dict.fromkeys`: the texts without repetitions, in order, behind those that are there.
unfoldable pub unique : List Text → List Text → List Text
unfolding add
unique seen [] = seen
unique seen (t ∷ ts) = unique (add t seen) ts

unfoldable pub pattern_of : AttackChain → Text
unfolding join to_pattern_token
pattern_of c = join (codes ",") (map to_pattern_token c.steps)

abbrev scored : List Text → Fields → Fields
scored [] score = score
scored (m ∷ mitre) score = set_default (codes "mitre") (arr (texts_value (m ∷ mitre))) score

unfoldable pub to_query_spec_dict : AttackChain → Fields
unfolding pattern_of unique set_default texts_value of_list
to_query_spec_dict c =
    let tags = unique [] (c.tags ++ codes "attack_chain" ∷ c.mitre) in
    field (codes "query_id") (str c.chain_id) (
      field (codes "version") (str c.version) (
        field (codes "name") (str c.name) (
          field (codes "pattern") (str (pattern_of c)) (
            field (codes "within_ms") (int c.within_ms) (
              field (codes "slide_ms") (int c.slide_ms) (
                field (codes "severity") (str c.severity) (
                  field (codes "where") (arr (of_list c.where_)) (
                    field (codes "relations") (arr (of_list c.relations)) (
                      field (codes "absence") (arr (of_list c.absence)) (
                        field (codes "score") (obj (scored c.mitre c.score)) (
                          field (codes "tags") (arr (texts_value tags))
                            (field (codes "enabled") (bool true) end))))))))))))

-- `AttackChain.from_dict(x).to_query_spec_dict()`.
unfoldable pub compile_one : Platform → Value → Result Value
unfolding chain_from to_query_spec_dict
compile_one p v = chain_from p v >>= λ c. ok (obj (to_query_spec_dict c))

-- `compile_attack_chain`: the list under `queries`.
unfoldable pub compile_attack_chain : Platform → Fields → Result (List Value)
unfolding get_item iterate map_ok compile_one
compile_attack_chain p document = elim (get_item (codes "attack_chains") document) [
  | some chains ↦ iterate chains >>= map_ok (compile_one p)
  | none ↦ compile_one p (obj document) >>= λ q. ok (q ∷ [])
]
