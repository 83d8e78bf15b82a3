-- ===== src/Router/Examples.antt =====
-- Tests of the router, and its theorems at concrete inputs.
use lunaroute.Prelude.{
  ℕ, ◌*◌, ◌≢◌, ◌≡◌, refl, Bool, false, String, Option, none, some, List, [], ◌∷◌, arith, length, ok,
  err, All,
}
use lunaroute.Prelude.Int.{pos}
use lunaroute.Prelude.Maps.{lookup, insert, IsUnique}
use lunaroute.CircuitBreaker.{CircuitBreaker, default_config, transition_to_open}
use lunaroute.CircuitBreaker
use lunaroute.CircuitBreaker.Invariant.{IsConfig}
use lunaroute.Health.{HealthMonitorConfig, HealthMonitor}
use lunaroute.Normalized.{
  NormalizedRequest, NormalizedResponse, end_event, stop, rate_limit_exceeded, provider_error,
}
use lunaroute.RouteTable.{
  always, RoutingRule, RoutingDecision, new_context, find_route, decision_of, first_match, matches,
}
use lunaroute.Strategy
use lunaroute.Health
use lunaroute.Notification.{inject_notification_if_needed}
use lunaroute.Strategy.{
  all_providers_rate_limited, select_provider, StrategyState, RateLimitState, RoutingStrategy,
  limits_alternative, provider_ids,
}
use lunaroute.Router.{
  Sent, Provider, Router, new, set_breaker, is_rate_limit, try_provider, get_circuit_breaker,
  get_strategy_state, set_strategy_state, select_provider_from_strategy, inject, logged, settle,
}
use lunaroute.Router.Sending.{
  out_of_fuel, send, alternatives, send_by, attempt, contains, continue_with, pick, recover_from,
  switch_reason, try_alternatives, unwrap_rule,
}
use lunaroute.Router.Streaming.{stream}
use lunaroute.Router.Answers.{candidates_of}
use lunaroute.Router.Fuel.{alternatives_end}
use lunaroute.Router.Invariant.{Inv, new-Inv}
use lunaroute.Router.Keeping.{send-Inv}
use lunaroute.Router.Streams.{Streamed, stream-Streamed}
use lunaroute.Strategy.Limits.{IsLimited}
use lunaroute.Router.Exhausted.{no_selection_no_fallbacks}

abbrev request : NormalizedRequest
request = record {
  messages = [];
  system = none;
  model = "gpt-4";
  max_tokens = none;
  temperature = none;
  top_p = none;
  top_k = none;
  stop_sequences = [];
  stream = false;
  tools = [];
  tool_choice = none;
  tool_results = [];
  metadata = [];
}

abbrev hello : NormalizedResponse
hello = record {
  id = "1";
  model = "gpt-4";
  choices = [];
  usage = record { prompt_tokens = 1; completion_tokens = 1; total_tokens = 2 };
  created = pos 0;
  metadata = [];
}

abbrev limited : Provider
limited = record {
  send = λ log q. err (rate_limit_exceeded (some 30));
  stream = λ log q. err (rate_limit_exceeded none);
  get_notification_message = none;
}

abbrev working : Provider
working = record {
  send = λ log q. ok hello;
  stream = λ log q. ok (ok (end_event stop) ∷ []);
  get_notification_message = none;
}

abbrev alternation : RoutingStrategy
alternation = limits_alternative ("a" ∷ []) ("b" ∷ []) 60

abbrev rule : RoutingRule
rule = record {
  priority = pos 1;
  name = some "r";
  matcher = always;
  strategy = some alternation;
  primary = none;
  fallbacks = "c" ∷ [];
}

abbrev decision : RoutingDecision
decision = record {
  strategy = some alternation;
  primary = none;
  fallbacks = "c" ∷ [];
  matched_rule = some "r";
}

abbrev health_config : HealthMonitorConfig ℕ
health_config = record {
  healthy_threshold = 95;
  unhealthy_threshold = 75;
  failure_window = 60;
  min_requests = 10;
}

-- A router whose first provider is rate limited.
abbrev router : Router ℕ
router = record {
  route_table = rule ∷ [];
  providers = ("a", limited) ∷ ("b", working) ∷ ("c", working) ∷ [];
  health_monitor = record { providers = []; config = health_config };
  circuit_breakers = [];
  circuit_breaker_config = default_config;
  strategy_states = [];
  notification_config = none;
  log = [];
}

-- Each request takes a second.
abbrev clock : List Sent → ℕ
clock log = 1_000_000_000 * length log

abbrev no_regex : String → Option (String → Bool)
no_regex p = none

abbrev no_text : List String → String
no_text ps = ""

routed : find_route no_regex (rule ∷ []) request new_context ≡ some decision
unfolding find_route new_context decision_of first_match matches
routed = refl

-- The alternative answers after the rate limit.
alternative_answers :
    let (r, result) = send clock no_regex no_text request router in
    (result ≡ ok hello)
    × (r.log
        ≡ record { provider = "a"; request = request }
          ∷ record { provider = "b"; request = request }
          ∷ [])
unfolding send find_route new_context first_match matches decision_of send_by
    select_provider_from_strategy Strategy.select_provider Strategy.is_rate_limited lookup
    get_strategy_state Strategy.new attempt try_provider CircuitBreaker.allow_request
    get_circuit_breaker set_strategy_state CircuitBreaker.new CircuitBreaker.record_failure
    CircuitBreaker.record_success Health.record_failure Health.record_success insert alternatives
    contains continue_with pick recover_from switch_reason try_alternatives unwrap_rule inject
    is_rate_limit logged set_breaker settle Strategy.clear_expired_rate_limits provider_ids
    Strategy.record_rate_limit Strategy.calculate_rate_limit_duration Strategy.first_free
    Strategy.retain_live inject_notification_if_needed Strategy.is_expired
alternative_answers = (refl, refl)

alternatives_end_example :
    (alternatives clock 3 alternation "r" request "a" router ("a" ∷ [])).1 ≢ out_of_fuel
unfolding provider_ids
alternatives_end_example =
    alternatives_end clock ("a" ∷ []) ("b" ∷ []) 60 "r" request "a" router ("a" ∷ [])

default-IsConfig : IsConfig default_config
default-IsConfig = omega arith

router-Inv : Inv (new (rule ∷ []) router.providers health_config default_config none 0)
router-Inv =
    new-Inv (rule ∷ []) router.providers health_config default_config none 0 default-IsConfig

send-Inv_example :
    Inv
      (send clock no_regex no_text request
        (new (rule ∷ []) router.providers health_config default_config none 0)).0
send-Inv_example =
    send-Inv clock no_regex no_text request
      (new (rule ∷ []) router.providers health_config default_config none 0) router-Inv

stream-Streamed_example :
    Streamed (candidates_of decision) request router (stream clock no_regex request router)
stream-Streamed_example = stream-Streamed clock request no_regex router decision routed

abbrev opened : CircuitBreaker
opened = transition_to_open (CircuitBreaker.new default_config 0) 0

abbrev shielded : Router ℕ
shielded = record router { circuit_breakers = ("a", opened) ∷ [] }

found : lookup "a" shielded.circuit_breakers ≡ some opened
unfolding lookup
found = refl

-- Both providers of the strategy are limited; the fallback "c" would work.
abbrev exhausted_state : StrategyState
unfolding Strategy.record_rate_limit Strategy.new
exhausted_state =
    Strategy.record_rate_limit (Strategy.record_rate_limit Strategy.new "a" (some 30) 60 0) "b"
      (some 30) 60 0

abbrev exhausted : Router ℕ
exhausted = record router { strategy_states = ("r", exhausted_state) ∷ [] }

limits_reached :
    let st = get_strategy_state exhausted "r" in
    IsUnique st.rate_limit_states × All (IsLimited st 0) ("a" ∷ "b" ∷ [])
unfolding get_strategy_state lookup insert Strategy.new Strategy.is_rate_limited
    Strategy.record_rate_limit Strategy.calculate_rate_limit_duration Strategy.is_expired
limits_reached = ((refl, (refl, tt)), (refl, (refl, tt)))

no_selection_no_fallbacks_example :
    let (r, result) = send clock no_regex no_text request exhausted in
    (r.log ≡ [])
    × (result
        ≡ err
            (provider_error "Strategy selection failed: All providers are currently rate-limited"))
unfolding unwrap_rule
no_selection_no_fallbacks_example =
    no_selection_no_fallbacks clock no_regex no_text request exhausted decision ("a" ∷ [])
      ("b" ∷ []) 60 routed refl limits_reached.0 limits_reached.1
