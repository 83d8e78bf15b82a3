-- ===== src/RouteTable/Examples.antt =====
-- Tests of the route table, and its theorems at concrete inputs.
use lunaroute.Prelude.{
  ◌≡◌, refl, Bool, false, String, Option, none, some, List, [], ◌∷◌, ◌++◌, if◌then◌else◌, str_eq,
}
use lunaroute.Prelude.Int.{ℤ, pos, negsuc}
use lunaroute.Normalized.{NormalizedRequest}
use lunaroute.RouteTable.{
  openai, new_context, RuleMatcher, model_pattern, listener_is, always, RoutingRule, sort_rules,
  with_rules, add_rule, decision_of, matches, first_match, find_route, rule_name,
}
use lunaroute.RouteTable.Order.{IsSorted, of_priority, route_table_order}
use lunaroute.RouteTable.Matching.{without_context, find_route-without_context}

-- A regex engine that knows the pattern `gpt` and takes every other pattern for invalid.
abbrev knows_gpt : String → Option (String → Bool)
knows_gpt p = if str_eq p "gpt" then some (λ model. str_eq model "gpt-4") else none

abbrev request : NormalizedRequest
request = record {
  messages = [];
  system = none;
  model = "gpt-4";
  max_tokens = none;
  temperature = none;
  top_p = none;
  top_k = none;
  stop_sequences = [];
  stream = false;
  tools = [];
  tool_choice = none;
  tool_results = [];
  metadata = [];
}

abbrev rule : ℤ → RuleMatcher → String → RoutingRule
rule priority matcher p = record {
  priority = priority;
  name = none;
  matcher = matcher;
  strategy = none;
  primary = some p;
  fallbacks = [];
}

abbrev rules : List RoutingRule
rules =
    rule (pos 1) always "late"
    ∷ rule (pos 10) (listener_is openai) "dead"
    ∷ rule (pos 10) (model_pattern "gpt") "gpt"
    ∷ rule (negsuc 0) always "last"
    ∷ []

gpt_wins :
    find_route knows_gpt (with_rules rules) request new_context
    ≡ some (record {
      strategy = none;
      primary = some "gpt";
      fallbacks = [];
      matched_rule = some "rule_priority_10";
    })
unfolding find_route with_rules sort_rules first_match matches new_context decision_of
gpt_wins = refl

negative_name : rule_name none (negsuc 41) ≡ "rule_priority_-42"
unfolding rule_name
negative_name = refl

route_table_order_example :
    IsSorted (with_rules rules)
    × IsSorted (add_rule (with_rules rules) (rule (pos 5) always "mid"))
    × (of_priority (pos 10) (with_rules rules) ≡ of_priority (pos 10) rules)
    × (of_priority (pos 10) (add_rule (with_rules rules) (rule (pos 5) always "mid"))
        ≡ of_priority (pos 10) rules ++ of_priority (pos 10) (rule (pos 5) always "mid" ∷ []))
route_table_order_example = route_table_order rules (rule (pos 5) always "mid") (pos 10)

find_route-without_context_example :
    find_route knows_gpt rules request new_context
    ≡ find_route knows_gpt (without_context rules) request new_context
find_route-without_context_example = find_route-without_context knows_gpt rules request
