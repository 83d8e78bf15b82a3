-- ===== src/Router/Invariant.antt =====
-- What holds of the router between two requests, kept by every selection, attempt and request.
use lunaroute.Prelude.{
  ℕ, ◌≡◌, refl, sym, subst, ◌∙◌, ◌≢◌, inl, inr, String, Option, none, some, List, [], arith,
  Bool-cases, Result, ok, err, str_eq,
}
use lunaroute.Prelude.Maps.{lookup, insert}
use lunaroute.CircuitBreaker.{CircuitBreaker, CircuitBreakerConfig, allow_request}
use lunaroute.CircuitBreaker
use lunaroute.Health.{HealthMonitor, HealthMonitorConfig}
use lunaroute.Normalized.{NormalizedRequest, NormalizedResponse, Error, rate_limit_exceeded}
use lunaroute.Notification.{ProviderSwitchNotificationConfig}
use lunaroute.RouteTable.{RoutingRule}
use lunaroute.Strategy.{RoutingStrategy, limits_alternative, StrategyState}
use lunaroute.Router.{
  Sent, Provider, Router, is_rate_limit, get_circuit_breaker, set_breaker, get_strategy_state,
  set_strategy_state, select_provider_from_strategy, inject, settle, logged, try_provider,
}
use lunaroute.Router.{call_provider, note_rate_limit, or_new}
use lunaroute.CircuitBreaker.Invariant.{IsConfig}
use lunaroute.CircuitBreaker.Invariant
use lunaroute.CircuitBreaker.{allows, succeeds, fails, step}
use lunaroute.Strategy.Capacity.{record_rate_limit-Inv, select_provider-Inv}
use lunaroute.Strategy.Capacity
use lunaroute.Prelude.Maps.{lookup-insert}
use lunaroute.Router

-- A breaker that has the router's configuration and its own invariant.
pub record IsBreaker (c : CircuitBreakerConfig) (b : CircuitBreaker) : Type 0 where
  pub configured : b.config ≡ c
  pub sound : Invariant.Inv b

abbrev pub HasValues : {A : Type 0} → (A → Type 0) → List (String × A) → Type 0
HasValues P kvs = (k : String) (a : _) → lookup k kvs ≡ some a → P a

pub record Inv {F : Type 0} (r : Router F) : Type 0 where
  pub is_config : IsConfig r.circuit_breaker_config
  pub breakers : HasValues (IsBreaker r.circuit_breaker_config) r.circuit_breakers
  pub strategies : HasValues Capacity.Inv r.strategy_states

insert_values :
    {A : Type 0} (P : A → Type 0) (k : String) (a : A) (kvs : List (String × A))
    → P a
    → HasValues P kvs
    → HasValues P (insert k a kvs)
insert_values P k a kvs h f k' b e = elim (Bool-cases (str_eq k k')) [
  | inl same ↦ ground (arith, lookup-insert k k' a kvs)
  | inr other ↦ f k' b (ground (arith, lookup-insert k k' a kvs))
]

or_new_values :
    {A : Type 0} (P : A → Type 0) (o : Option A) (a : A)
    → ((b : A) → o ≡ some b → P b)
    → P a
    → P (or_new o a)
unfolding or_new
or_new_values P none a f h = h
or_new_values P (some b) a f h = f b refl

-- A call keeps what holds of a breaker.
step-IsBreaker :
    (c : CircuitBreakerConfig) (b : CircuitBreaker) (call : ℕ × CircuitBreaker.Call)
    → IsConfig c
    → IsBreaker c b
    → IsBreaker c (step b call)
step-IsBreaker c b call k v = record {
  configured = Invariant.step-config b call ∙ v.configured;
  sound = Invariant.step-Inv b call (subst IsConfig (sym v.configured) k) v.sound;
}

module _ {F : Type 0} where
  get_circuit_breaker-IsBreaker :
      (r : Router F) (p : String) (now : ℕ)
      → Inv r
      → IsBreaker r.circuit_breaker_config (get_circuit_breaker r p now)
  unfolding get_circuit_breaker
  get_circuit_breaker-IsBreaker r p now v =
      or_new_values (IsBreaker r.circuit_breaker_config) (lookup p r.circuit_breakers) _
        (v.breakers p)
        (record {
          configured = unfold CircuitBreaker.new in refl;
          sound = Invariant.new-Inv r.circuit_breaker_config now;
        })

  set_breaker-Inv :
      (r : Router F) (p : String) (b : CircuitBreaker)
      → Inv r
      → IsBreaker r.circuit_breaker_config b
      → Inv (set_breaker r p b)
  unfolding set_breaker
  set_breaker-Inv r p b v h = record {
    is_config = v.is_config;
    breakers =
        insert_values (IsBreaker r.circuit_breaker_config) p b r.circuit_breakers h v.breakers;
    strategies = v.strategies;
  }

  state-Inv : (r : Router F) (rule : String) → Inv r → Capacity.Inv (get_strategy_state r rule)
  unfolding get_strategy_state
  state-Inv r rule v =
      or_new_values Capacity.Inv (lookup rule r.strategy_states) _ (v.strategies rule)
        Capacity.new-Inv

  set_strategy_state-Inv :
      (r : Router F) (rule : String) (st : StrategyState)
      → Inv r
      → Capacity.Inv st
      → Inv (set_strategy_state r rule st)
  unfolding set_strategy_state
  set_strategy_state-Inv r rule st v h = record {
    is_config = v.is_config;
    breakers = v.breakers;
    strategies = insert_values Capacity.Inv rule st r.strategy_states h v.strategies;
  }

  pub select-Inv :
      (r : Router F) (s : RoutingStrategy) (rule : String) (now : ℕ)
      → Inv r
      → Inv (select_provider_from_strategy r s rule now).0
  unfolding select_provider_from_strategy
  select-Inv r s rule now v =
      set_strategy_state-Inv r rule _ v
        (select_provider-Inv (get_strategy_state r rule) s now (state-Inv r rule v))

  note-Inv :
      (r : Router F) (p : String) (e : Error) (s : Option RoutingStrategy) (rule : Option String)
      (now : ℕ)
      → Inv r
      → Inv (note_rate_limit r p e s rule now)
  unfolding note_rate_limit
  note-Inv r p (rate_limit_exceeded secs) (some (limits_alternative ps qs base)) (some rule) now v =
      set_strategy_state-Inv r rule _ v
        (record_rate_limit-Inv (get_strategy_state r rule) p secs base now (state-Inv r rule v))
  note-Inv r p _ _ _ now v = v

  called-Inv :
      (r : Router F) (p : String) (call : CircuitBreaker.Call) (now : ℕ)
      → Inv r
      → Inv (set_breaker r p (step (get_circuit_breaker r p now) (now, call)))
  called-Inv r p call now v = set_breaker-Inv r p _ v (
      step-IsBreaker r.circuit_breaker_config _ (now, call) v.is_config
        (get_circuit_breaker-IsBreaker r p now v))

  -- The health and the log play no part in the invariant.
  rest-Inv :
      (r : Router F) (h : HealthMonitor F) (log : List Sent)
      → Inv r
      → Inv (record r { health_monitor = h; log = log })
  rest-Inv r h log v = record {
    is_config = v.is_config;
    breakers = v.breakers;
    strategies = v.strategies;
  }

  settle-Inv :
      (r : Router F) (p : String) (reply : Result Error NormalizedResponse)
      (s : Option RoutingStrategy) (rule : Option String) (now : ℕ)
      → Inv r
      → Inv (settle r p reply s rule now)
  unfolding settle step
  settle-Inv r p (ok response) s rule now v = rest-Inv _ _ _ (called-Inv r p succeeds now v)
  settle-Inv r p (err e) s rule now v =
      note-Inv _ p e s rule now (rest-Inv _ _ _ (called-Inv r p fails now v))

  call-Inv :
      (clock : List Sent → ℕ) (o : Option Provider) (r : Router F) (p : String)
      (q : NormalizedRequest) (s : Option RoutingStrategy) (rule : Option String)
      → Inv r
      → Inv (call_provider clock o r p q s rule).0
  unfolding call_provider logged
  call-Inv clock none r p q s rule v = v
  call-Inv clock (some provider) r p q s rule v =
      settle-Inv (logged r p q) p _ s rule _ (unfold logged in rest-Inv r r.health_monitor _ v)

  pub try_provider-Inv :
      (clock : List Sent → ℕ) (r : Router F) (p : String) (q : NormalizedRequest)
      (s : Option RoutingStrategy) (rule : Option String)
      → Inv r
      → Inv (try_provider clock r p q s rule).0
  unfolding try_provider
  try_provider-Inv clock r p q s rule v =
      elim (Bool-cases (allow_request (get_circuit_breaker r p (clock r.log)) (clock r.log)).1) [
        | inl allowed ↦ rw allowed (
            call-Inv clock
              (lookup p
                (set_breaker r p
                  (allow_request (get_circuit_breaker r p (clock r.log))
                    (clock r.log)).0).providers)
              _ p q s rule admitted)
        | inr refused ↦ rw refused admitted
      ]
    where
      admitted :
          Inv (
            set_breaker r p (allow_request (get_circuit_breaker r p (clock r.log)) (clock r.log)).0)
      admitted = unfold step in called-Inv r p allows (clock r.log) v

  -- A new router satisfies the invariant, when its thresholds are u32 values.
  pub new-Inv :
      (table : List RoutingRule) (providers : List (String × Provider))
      (health : HealthMonitorConfig F) (c : CircuitBreakerConfig)
      (notification : Option ProviderSwitchNotificationConfig) (now : ℕ)
      → IsConfig c
      → Inv (Router.new table providers health c notification now)
  unfolding Router.new
  new-Inv table providers health c notification now k = record {
    is_config = k;
    breakers = λ p b e. absurd (missing p b e);
    strategies = λ rule st e. absurd (missing rule st e);
  }
    where
      missing : {A : Type 0} (k' : String) (a : A) → lookup k' [] ≢ some a
      missing k' a e = unfold lookup in cc
