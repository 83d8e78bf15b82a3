-- ===== src/Router.antt =====
-- crates/lunaroute-routing/src/provider_router.rs: the state of the router and one attempt at a
-- provider. A provider is the trait object: how it answers, given the requests sent so far, and its
-- notification message. The router keeps the log of the requests that it sends, which the code does
-- not, so that statements can speak of them. One request is served at a time. Metrics are left out.
pub mod Sending
pub mod Streaming
pub mod Attempt
pub mod Rounds
pub mod Fuel
pub mod Selecting
pub mod Contacts
pub mod Serving
pub mod Answers
pub mod Invariant
pub mod Keeping
pub mod Streams
pub mod Shield
pub mod Exhausted
mod Examples
use lunaroute.Prelude.{
  ℕ, zero, suc, ◌+◌, ◌-◌, ◌*◌, ◌/◌, ◌%◌, ◌^◌, ◌≤◌, ◌<◌, ◌≡◌, refl, sym, ap, ap₂, subst, ◌∙◌, ◌≢◌,
  ◌↔◌, ◌⊎◌, inl, inr, Bool, true, false, not, ◌&&◌, ◌||◌, String, Option, none, some, List, [], ◌∷◌,
  ◌++◌, map, arith, leb, ltb, ◌==◌, if◌then◌else◌, length, replicate, All, Bool-cases, Option-cases,
  Result, ok, err, ◌>>=◌, map_err, get_elem?, get_elem?-some, length-append, str_eq, str_eq_iff,
}
use lunaroute.Prelude.Words.{
  u32_max, u32_size, u64_max, u64_size, saturating_add, saturating_mul, checked_add,
}
use Prim.Native.String.{◌++◌ as str_append}
use lunaroute.Prelude.Maps.{lookup, insert}
use lunaroute.CircuitBreaker.{CircuitBreaker, CircuitBreakerConfig, allow_request}
use lunaroute.CircuitBreaker
use lunaroute.Health.{HealthMonitor, HealthMonitorConfig}
use lunaroute.Health
use lunaroute.Normalized.{
  NormalizedRequest, NormalizedResponse, NormalizedStreamEvent, Error, provider_error,
  rate_limit_exceeded,
}
use lunaroute.Notification.{
  ProviderSwitchNotificationConfig, SwitchReason, rate_limit, service_issue, circuit_breaker,
  inject_notification_if_needed,
}
use lunaroute.RouteTable.{RoutingRule, RoutingDecision, new_context, find_route}
use lunaroute.Strategy.{
  RoutingStrategy, round_robin, weighted_round_robin, limits_alternative, provider_ids,
  StrategyError, empty_provider_list, zero_total_weight, weight_overflow,
  invalid_limits_alternative, all_providers_rate_limited, StrategyState, select_provider,
  record_rate_limit,
}
use lunaroute.Strategy

-- A request that was sent to a provider.
pub record Sent : Type 0 where
  pub provider : String
  pub request : NormalizedRequest

pub record Provider : Type 0 where
  pub send : List Sent → NormalizedRequest → Result Error NormalizedResponse
  pub stream :
      List Sent → NormalizedRequest → Result Error (List (Result Error NormalizedStreamEvent))
  pub get_notification_message : Option String

pub record Router (F : Type 0) : Type 0 where
  pub route_table : List RoutingRule
  pub providers : List (String × Provider)
  pub health_monitor : HealthMonitor F
  pub circuit_breakers : List (String × CircuitBreaker)
  pub circuit_breaker_config : CircuitBreakerConfig
  pub strategy_states : List (String × StrategyState)
  pub notification_config : Option ProviderSwitchNotificationConfig
  pub log : List Sent

show_error : StrategyError → String
show_error empty_provider_list = "Provider list cannot be empty"
show_error zero_total_weight = "Total weight cannot be zero"
show_error weight_overflow = "Weight overflow: total weight exceeds maximum allowed value"
show_error (invalid_limits_alternative m) =
    str_append "Invalid limits-alternative configuration: " m
show_error all_providers_rate_limited = "All providers are currently rate-limited"

or_new {ℓ} : {A : Type ℓ} → Option A → A → A
or_new none a = a
or_new (some b) a = b

-- `matches!(err, Error::RateLimitExceeded { .. })`.
unfoldable pub is_rate_limit : Error → Bool
is_rate_limit (rate_limit_exceeded secs) = true
is_rate_limit _ = false

message_of : Option Provider → Option String
message_of none = none
message_of (some p) = p.get_notification_message

module _ {F : Type 0} where
  register_all : HealthMonitor F → List (String × Provider) → ℕ → HealthMonitor F
  register_all h [] now = h
  register_all h ((k, p) ∷ ps) now = register_all (Health.register_provider h k now) ps now

  -- `Router::new`.
  unfoldable pub new :
      List RoutingRule
      → List (String × Provider)
      → HealthMonitorConfig F
      → CircuitBreakerConfig
      → Option ProviderSwitchNotificationConfig
      → ℕ
      → Router F
  unfolding register_all
  new route_table providers health_config breaker_config notification_config now = record {
    route_table = route_table;
    providers = providers;
    health_monitor = register_all (Health.new health_config) providers now;
    circuit_breakers = [];
    circuit_breaker_config = breaker_config;
    strategy_states = [];
    notification_config = notification_config;
    log = [];
  }

  -- The breaker of a provider; a missing one is made at the time of the call.
  unfoldable pub get_circuit_breaker : Router F → String → ℕ → CircuitBreaker
  unfolding or_new
  get_circuit_breaker r p now =
      or_new (lookup p r.circuit_breakers) (CircuitBreaker.new r.circuit_breaker_config now)

  unfoldable pub set_breaker : Router F → String → CircuitBreaker → Router F
  set_breaker r p b = record r { circuit_breakers = insert p b r.circuit_breakers }

  unfoldable pub get_strategy_state : Router F → String → StrategyState
  unfolding or_new
  get_strategy_state r rule = or_new (lookup rule r.strategy_states) Strategy.new

  unfoldable pub set_strategy_state : Router F → String → StrategyState → Router F
  set_strategy_state r rule st = record r { strategy_states = insert rule st r.strategy_states }

  unfoldable pub select_provider_from_strategy :
      Router F → RoutingStrategy → String → ℕ → Router F × Result Error String
  unfolding show_error
  select_provider_from_strategy r strategy rule now =
      let (st, result) = select_provider (get_strategy_state r rule) strategy now in
      (
        set_strategy_state r rule st,
        map_err (λ e. provider_error (str_append "Strategy selection failed: " (show_error e)))
            result,
      )

  -- `inject_notification_if_needed`, with the message of the new provider.
  unfoldable pub inject :
      Router F → NormalizedRequest → String → String → SwitchReason → NormalizedRequest
  unfolding message_of
  inject r q original new_provider reason =
      (inject_notification_if_needed r.notification_config
        (message_of (lookup new_provider r.providers)) q original new_provider reason).0

  note_rate_limit :
      Router F → String → Error → Option RoutingStrategy → Option String → ℕ → Router F
  note_rate_limit r p (rate_limit_exceeded secs) (some (limits_alternative ps qs base)) (some rule)
        now =
      set_strategy_state r rule (record_rate_limit (get_strategy_state r rule) p secs base now)
  note_rate_limit r p _ _ _ now = r

  -- What is recorded once the provider has answered.
  unfoldable pub settle :
      Router F
      → String
      → Result Error NormalizedResponse
      → Option RoutingStrategy
      → Option String
      → ℕ
      → Router F
  unfolding note_rate_limit
  settle r p (ok response) strategy rule now =
      record (set_breaker r p (CircuitBreaker.record_success (get_circuit_breaker r p now) now)) {
        health_monitor = Health.record_success r.health_monitor p now;
      }
  settle r p (err e) strategy rule now =
      note_rate_limit
        (record (set_breaker r p
          (CircuitBreaker.record_failure (get_circuit_breaker r p now) now)) {
            health_monitor = Health.record_failure r.health_monitor p now;
          })
        p e strategy rule now

  -- The log after one more request.
  unfoldable pub logged : Router F → String → NormalizedRequest → Router F
  logged r p q = record r { log = r.log ++ (record { provider = p; request = q }) ∷ [] }

  module _ (clock : List Sent → ℕ) where
    call_provider :
        Option Provider
        → Router F
        → String
        → NormalizedRequest
        → Option RoutingStrategy
        → Option String
        → Router F × Result Error NormalizedResponse
    unfolding settle logged
    call_provider none r p q strategy rule =
        (r, err (provider_error (str_append "Provider '" (str_append p "' not found"))))
    call_provider (some provider) r p q strategy rule =
        let reply = provider.send r.log q in
        let r' = logged r p q in (settle r' p reply strategy rule (clock r'.log), reply)

    -- `try_provider`.
    unfoldable pub try_provider :
        Router F
        → String
        → NormalizedRequest
        → Option RoutingStrategy
        → Option String
        → Router F × Result Error NormalizedResponse
    unfolding call_provider
    try_provider r p q strategy rule =
        let (b, allowed) = allow_request (get_circuit_breaker r p (clock r.log)) (clock r.log) in
        let r' = set_breaker r p b in
        if allowed then call_provider (lookup p r'.providers) r' p q strategy rule else (
          r',
          err (
              provider_error (str_append "Circuit breaker open for provider '" (str_append p "'"))),
        )
