-- ===== src/Tests/Chains.antt =====
-- Tests of attack chains: their compilation, and the patterns read back.
use x_dsi_cet.Base.{◌≡◌, refl, none, some, [], ◌∷◌, all}
use x_dsi_cet.Base.Int.{pos}
use x_dsi_cet.Base.Text.{codes, join, text_eq, is_empty, is_space}
use x_dsi_cet.Base.Result.{ok, map_ok}
use x_dsi_cet.Value.{Value, null, int, str, arr, obj, nil, cons, end, field}
use x_dsi_cet.Dsl.Syntax.{parse_step, parse_pattern}
use x_dsi_cet.Dsl.Documents.{parse_query_spec}
use x_dsi_cet.AttackChain.{
  AttackChainStep, AttackChain, to_pattern_token, chain_from, pattern_of, to_query_spec_dict,
}
use x_dsi_cet.AttackChain.Patterns.{IsReadable, step_of, parse_step-to_pattern_token}
use x_dsi_cet.AttackChain.Split.{parse_pattern-pattern_of}
use x_dsi_cet.AttackChain.Compiled.{query_of, parse_query_spec-to_query_spec_dict}
use x_dsi_cet.Tests.Samples.{platform}

abbrev login : AttackChainStep
login = record {
  event_type = codes "login";
  alias = null;
  min_repeats = pos 1;
  max_repeats = some (pos 1);
}

abbrev failures : AttackChainStep
failures = record {
  event_type = codes "fail";
  alias = null;
  min_repeats = pos 2;
  max_repeats = some (pos 5);
}

abbrev chain : AttackChain
chain = record {
  chain_id = codes "c";
  version = codes "v1";
  name = codes "Chain";
  steps = failures ∷ login ∷ [];
  within_ms = pos 1000;
  slide_ms = pos 1000;
  severity = codes "high";
  where_ = [];
  relations = [];
  absence = [];
  score = end;
  mitre = codes "T1110" ∷ [];
  tags = codes "T1110" ∷ [];
}

failures-token : to_pattern_token failures ≡ codes "fail{2,5}"
unfolding to_pattern_token
failures-token = refl

chain-pattern : pattern_of chain ≡ codes "fail{2,5},login"
unfolding pattern_of join to_pattern_token
chain-pattern = refl

-- A chain document without a bound on the repeats, by its name alone.
abbrev chain_document : Value
chain_document = obj (
    field (codes "name") (str (codes "n")) (
      field (codes "within_ms") (int (pos 10)) (
        field (codes "steps")
          (arr (
            cons
              (obj (
                field (codes "event_type") (str (codes "a"))
                  (field (codes "max_repeats") null end)))
              nil))
          end)))

chain_from_example :
    chain_from platform chain_document
    ≡ ok (record {
      chain_id = codes "n";
      version = codes "v1";
      name = codes "n";
      steps =
          record { event_type = codes "a"; alias = null; min_repeats = pos 1; max_repeats = none }
          ∷ [];
      within_ms = pos 10;
      slide_ms = pos 10;
      severity = codes "medium";
      where_ = [];
      relations = [];
      absence = [];
      score = end;
      mitre = [];
      tags = [];
    })
unfolding chain_from text_eq is_empty
chain_from_example = refl

failures-IsReadable : IsReadable failures
unfolding all is_space
failures-IsReadable = (((λ e. cc), refl), refl)

login-IsReadable : IsReadable login
unfolding all is_space
login-IsReadable = (((λ e. cc), refl), refl)

parse_step-to_pattern_token_example : parse_step (to_pattern_token failures) ≡ ok (step_of failures)
parse_step-to_pattern_token_example = parse_step-to_pattern_token failures failures-IsReadable

parse_pattern-pattern_of_example :
    parse_pattern (pattern_of chain) ≡ ok (step_of failures ∷ step_of login ∷ [])
parse_pattern-pattern_of_example =
    parse_pattern-pattern_of chain (λ e. cc) (failures-IsReadable, (login-IsReadable, tt))

parse_query_spec-to_query_spec_dict_example :
    parse_query_spec platform (obj (to_query_spec_dict chain))
    ≡ ok (query_of platform chain [] [] [])
unfolding map_ok
parse_query_spec-to_query_spec_dict_example =
    parse_query_spec-to_query_spec_dict platform chain [] [] [] (λ e. cc) refl refl refl
