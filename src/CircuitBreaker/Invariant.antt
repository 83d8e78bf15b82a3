-- ===== src/CircuitBreaker/Invariant.antt =====
-- What holds of a circuit breaker between two calls.
use lunaroute.Prelude.{ℕ, ◌≤◌, ◌<◌, ◌≡◌, sym, subst, ◌⊎◌, List, [], ◌∷◌, arith}
use lunaroute.Prelude.Words.{u32_max}
use lunaroute.CircuitBreaker.{
  closed, half_open, CircuitBreakerConfig, CircuitBreaker, new, Call, allows, succeeds, fails,
  forces_open, forces_close, step, run,
}

-- The fields of a configuration are u32 values.
pub record IsConfig (c : CircuitBreakerConfig) : Type 0 where
  pub failures_fit : c.failure_threshold ≤ u32_max
  pub successes_fit : c.success_threshold ≤ u32_max

-- The counters fit, and a state whose counter has reached its threshold has been left.
pub record Inv (b : CircuitBreaker) : Type 0 where
  pub fits : b.consecutive_failures ≤ u32_max
  pub below_failures :
      b.state ≡ closed
      → (b.consecutive_failures ≡ 0) ⊎ (b.consecutive_failures < b.config.failure_threshold)
  pub below_successes :
      b.state ≡ half_open
      → (b.consecutive_successes ≡ 0) ⊎ (b.consecutive_successes < b.config.success_threshold)
  pub tested : b.state ≡ half_open → b.consecutive_failures ≡ 0
  pub untested : (b.state ≡ half_open) ⊎ (b.consecutive_successes ≡ 0)

pub new-Inv : (c : CircuitBreakerConfig) (now : ℕ) → Inv (new c now)
unfolding new
new-Inv c now = ground arith

pub step-config : (b : CircuitBreaker) (c : ℕ × Call) → (step b c).config ≡ b.config
unfolding step
step-config b (now, allows) = ground arith
step-config b (now, _) = ground arith

-- Every call keeps the invariant.
pub step-Inv : (b : CircuitBreaker) (c : ℕ × Call) → IsConfig b.config → Inv b → Inv (step b c)
unfolding step
step-Inv b (now, allows) k v = ground arith
step-Inv b (now, succeeds) k v = ground arith
step-Inv b (now, fails) k v = ground arith
step-Inv b (now, forces_open) k v = ground arith
step-Inv b (now, forces_close) k v = ground arith

run-Inv : (b : CircuitBreaker) (cs : List (ℕ × Call)) → IsConfig b.config → Inv b → Inv (run b cs)
unfolding run
run-Inv b [] k v = v
run-Inv b (c ∷ cs) k v =
    run-Inv (step b c) cs (subst IsConfig (sym (step-config b c)) k) (step-Inv b c k v)

-- Whatever calls a new breaker of a u32 configuration has served, in any order and at any times: the
-- failure counter is at most u32::MAX; while the circuit is closed that counter is 0 or below
-- failure_threshold; while it is half-open the failure counter is 0 and the success counter is 0 or
-- below success_threshold; in any other state the success counter is 0. While the circuit is open the
-- failure counter is bounded only by u32::MAX.
pub run-new-Inv :
    (c : CircuitBreakerConfig) (now : ℕ) (cs : List (ℕ × Call))
    → IsConfig c
    → Inv (run (new c now) cs)
unfolding new
run-new-Inv c now cs k = run-Inv (new c now) cs k (new-Inv c now)
