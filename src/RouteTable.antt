-- ===== src/RouteTable.antt =====
-- crates/lunaroute-routing/src/router.rs: the routing rules and the decision that they make.
-- The regex crate is a parameter: `compile pattern` is the test of a compiled pattern, or none
-- where the pattern is invalid. The cache of a compiled pattern changes no answer and is left out.
pub mod Order
pub mod Matching
mod Examples
use lunaroute.Prelude.{
  ℕ, zero, suc, ◌+◌, ◌-◌, ◌*◌, ◌/◌, ◌%◌, ◌^◌, ◌≤◌, ◌<◌, ◌≡◌, refl, sym, ap, ap₂, subst, ◌∙◌, ◌≢◌,
  ◌↔◌, ◌⊎◌, inl, inr, Bool, true, false, not, ◌&&◌, ◌||◌, String, Option, none, some, List, [], ◌∷◌,
  ◌++◌, map, arith, leb, ltb, ◌==◌, if◌then◌else◌, length, replicate, All, Bool-cases, Option-cases,
  Result, ok, err, ◌>>=◌, map_err, get_elem?, get_elem?-some, length-append, str_eq, str_eq_iff,
}
use lunaroute.Prelude.Words.{
  u32_max, u32_size, u64_max, u64_size, saturating_add, saturating_mul, checked_add,
}
use Prim.Native.String.{◌++◌ as str_append}
use lunaroute.Prelude.Texts.{show_digits}
use lunaroute.Prelude.Int.{ℤ, pos, negsuc, leb_ℤ, eq_ℤ}
use lunaroute.Prelude.Maps.{insert}
use lunaroute.Normalized.{NormalizedRequest}
use lunaroute.Strategy.{RoutingStrategy, provider_ids, StrategyError}
use lunaroute.Strategy

pub data ListenerType : Type 0 where
  openai anthropic : ListenerType

pub record RoutingContext : Type 0 where
  pub listener : Option ListenerType
  pub provider_override : Option String
  pub headers : List (String × String)

-- `RoutingContext::new`.
unfoldable pub new_context : RoutingContext
new_context = record { listener = none; provider_override = none; headers = [] }

pub with_listener : RoutingContext → ListenerType → RoutingContext
with_listener c listener = record c { listener = some listener }

unfoldable pub with_provider_override : RoutingContext → String → RoutingContext
with_provider_override c provider = record c { provider_override = some provider }

pub with_header : RoutingContext → String → String → RoutingContext
with_header c key value = record c { headers = insert key value c.headers }

pub data RuleMatcher : Type 0 where
  model_pattern : String → RuleMatcher
  listener_is : ListenerType → RuleMatcher
  provider_override_set always : RuleMatcher

pub record RoutingRule : Type 0 where
  pub priority : ℤ
  pub name : Option String
  pub matcher : RuleMatcher
  pub strategy : Option RoutingStrategy
  pub primary : Option String
  pub fallbacks : List String

pub data RuleError : Type 0 where
  no_target : RuleError
  invalid_strategy : StrategyError → RuleError

-- `RoutingRule::validate`.
unfoldable pub validate : Option RoutingStrategy → Option String → Result RuleError (Unit {0})
validate none none = err no_target
validate (some s) primary = map_err invalid_strategy (Strategy.validate s)
validate none (some p) = ok tt

unfoldable pub option_ids : Option String → List String
option_ids none = []
option_ids (some p) = p ∷ []

unfoldable pub strategy_ids : Option RoutingStrategy → List String
strategy_ids none = []
strategy_ids (some s) = provider_ids s

unfoldable pub all_provider_ids : RoutingRule → List String
unfolding option_ids strategy_ids
all_provider_ids r = strategy_ids r.strategy ++ (option_ids r.primary ++ r.fallbacks)

-- `Ordering` of the stable sort by descending priority: a rule goes before those of lower or equal
-- priority that come after it.
unfoldable pub insert_rule : RoutingRule → List RoutingRule → List RoutingRule
insert_rule r [] = r ∷ []
insert_rule r (q ∷ qs) = if leb_ℤ q.priority r.priority then r ∷ q ∷ qs else q ∷ insert_rule r qs

-- `sort_by_key(|r| Reverse(r.priority))`, which is stable.
unfoldable pub sort_rules : List RoutingRule → List RoutingRule
unfolding insert_rule
sort_rules [] = []
sort_rules (r ∷ rs) = insert_rule r (sort_rules rs)

-- A route table is its list of rules. `with_rules` and `add_rule` sort it.
unfoldable pub with_rules : List RoutingRule → List RoutingRule
with_rules rules = sort_rules rules

unfoldable pub add_rule : List RoutingRule → RoutingRule → List RoutingRule
add_rule rules rule = sort_rules (rules ++ rule ∷ [])

pub record RoutingDecision : Type 0 where
  pub strategy : Option RoutingStrategy
  pub primary : Option String
  pub fallbacks : List String
  pub matched_rule : Option String

-- An i32 has ten digits at most.
show_i32 : ℤ → String
unfolding show_digits
show_i32 (pos n) = show_digits 10 n ""
show_i32 (negsuc n) = str_append "-" (show_digits 10 (n + 1) "")

-- `rule.name`, or a name made from the priority.
unfoldable pub rule_name : Option String → ℤ → String
unfolding show_i32
rule_name (some name) priority = name
rule_name none priority = str_append "rule_priority_" (show_i32 priority)

listener_eq : ListenerType → Option ListenerType → Bool
listener_eq openai (some openai) = true
listener_eq anthropic (some anthropic) = true
listener_eq _ _ = false

is_some {ℓ} : {A : Type ℓ} → Option A → Bool
is_some none = false
is_some (some a) = true

-- The target of a rule, a strategy before a primary; none for a rule that has neither, which
-- `find_route` skips.
unfoldable pub target :
    Option RoutingStrategy → Option String → Option (Option RoutingStrategy × Option String)
target (some s) primary = some (some s, none)
target none (some p) = some (none, some p)
target none none = none

decide_by : RoutingRule → Option (Option RoutingStrategy × Option String) → Option RoutingDecision
unfolding rule_name
decide_by r none = none
decide_by r (some (s, p)) = some (record {
  strategy = s;
  primary = p;
  fallbacks = r.fallbacks;
  matched_rule = some (rule_name r.name r.priority);
})

-- The decision of a matching rule.
unfoldable pub decision_of : RoutingRule → Option RoutingDecision
unfolding decide_by target
decision_of r = decide_by r (target r.strategy r.primary)

unfoldable pub override_decision : String → RoutingDecision
override_decision provider = record {
  strategy = none;
  primary = some provider;
  fallbacks = [];
  matched_rule = some "provider_override";
}

or_next {ℓ} : {A : Type ℓ} → Option A → Option A → Option A
or_next (some a) o = some a
or_next none o = o

module _ (compile : String → Option (String → Bool)) where
  matches_pattern : Option (String → Bool) → String → Bool
  matches_pattern none model = false
  matches_pattern (some test) model = test model

  unfoldable pub matches : RuleMatcher → NormalizedRequest → RoutingContext → Bool
  unfolding matches_pattern listener_eq is_some
  matches (model_pattern pattern) q c = matches_pattern (compile pattern) q.model
  matches (listener_is l) q c = listener_eq l c.listener
  matches provider_override_set q c = is_some c.provider_override
  matches always q c = true

  -- The loop over the rules.
  unfoldable pub first_match :
      List RoutingRule → NormalizedRequest → RoutingContext → Option RoutingDecision
  unfolding or_next
  first_match [] q c = none
  first_match (r ∷ rs) q c =
      let rest = first_match rs q c in
      if matches r.matcher q c then or_next (decision_of r) rest else rest

  find_with :
      Option String → List RoutingRule → NormalizedRequest → RoutingContext → Option RoutingDecision
  find_with (some provider) rules q c = some (override_decision provider)
  find_with none rules q c = first_match rules q c

  unfoldable pub find_route :
      List RoutingRule → NormalizedRequest → RoutingContext → Option RoutingDecision
  unfolding find_with
  find_route rules q c = find_with c.provider_override rules q c
