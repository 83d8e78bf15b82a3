-- ===== src/Router/Shield.antt =====
-- A circuit breaker keeps requests from its provider.
use lunaroute.Prelude.{ℕ, ◌+◌, ◌≤◌, ◌<◌, ◌≡◌, refl, false, String, Option, some, List, arith, err}
use lunaroute.Prelude.Maps.{lookup}
use lunaroute.CircuitBreaker.{CircuitBreaker, allow_request}
use lunaroute.Normalized.{NormalizedRequest, Error}
use lunaroute.Strategy.{RoutingStrategy}
use lunaroute.Router.{Sent, Router, is_rate_limit, get_circuit_breaker, set_breaker, try_provider}
use lunaroute.CircuitBreaker.{open_circuit}

module _ {F : Type 0} (clock : List Sent → ℕ) where
  -- While the circuit of a provider is open and its timeout has not passed, an attempt at it sends
  -- nothing, fails with an error that is no rate limit, and leaves the health and the strategies as
  -- they are.
  pub open_circuit_shields :
      (r : Router F) (p : String) (q : NormalizedRequest) (s : Option RoutingStrategy)
      (rule : Option String) (b : CircuitBreaker)
      → lookup p r.circuit_breakers ≡ some b
      → b.state ≡ open_circuit
      → clock r.log < b.last_state_change + b.config.timeout
      → b.last_state_change ≤ clock r.log
      → let (r', result) = try_provider clock r p q s rule in
        (r'.log ≡ r.log)
        × (r'.health_monitor ≡ r.health_monitor)
        × (r'.strategy_states ≡ r.strategy_states)
        × ((e : Error) × (result ≡ err e) × (is_rate_limit e ≡ false))
  unfolding try_provider set_breaker is_rate_limit
  open_circuit_shields r p q s rule b here opened late since =
      rw (closed_off, try_provider) (refl, refl, refl, (_, refl, refl))
    where
      at_hand : get_circuit_breaker r p (clock r.log) ≡ b
      at_hand = unfold get_circuit_breaker in rw here refl

      closed_off : (allow_request (get_circuit_breaker r p (clock r.log)) (clock r.log)).1 ≡ false
      closed_off = rw at_hand (unfold allow_request in ground arith)
