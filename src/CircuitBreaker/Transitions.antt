-- ===== src/CircuitBreaker/Transitions.antt =====
-- Which calls change the state of a breaker, and which requests it lets through.
use lunaroute.Prelude.{ℕ, ◌+◌, ◌≤◌, ◌<◌, ◌≡◌, refl, sym, subst, ◌↔◌, ◌⊎◌, false, arith}
use lunaroute.CircuitBreaker.{
  CircuitState, closed, open_circuit, half_open, CircuitBreaker, allow_request, Call, allows,
  succeeds, fails, forces_open, forces_close, step, elapsed,
}
use lunaroute.CircuitBreaker.Invariant.{IsConfig, Inv}

-- The state `s` that a call at the time `now` leads to: the edges of the state diagram, then the
-- calls that leave the state as it is. No two rows apply to the same call.
pub data Edge (b : CircuitBreaker) (now : ℕ) (c : Call) (s : CircuitState) : Type 0 where
  trip :
      b.state ≡ closed
      → c ≡ fails
      → b.config.failure_threshold ≤ b.consecutive_failures + 1
      → s ≡ open_circuit
      → Edge b now c s
  probe :
      b.state ≡ open_circuit
      → c ≡ allows
      → b.config.timeout ≤ elapsed b.last_state_change now
      → s ≡ half_open
      → Edge b now c s
  recover :
      b.state ≡ half_open
      → c ≡ succeeds
      → b.config.success_threshold ≤ b.consecutive_successes + 1
      → s ≡ closed
      → Edge b now c s
  relapse : b.state ≡ half_open → c ≡ fails → s ≡ open_circuit → Edge b now c s
  forced_open : c ≡ forces_open → s ≡ open_circuit → Edge b now c s
  forced_close : c ≡ forces_close → s ≡ closed → Edge b now c s
  tolerate :
      b.state ≡ closed
      → c ≡ fails
      → b.consecutive_failures + 1 < b.config.failure_threshold
      → s ≡ closed
      → Edge b now c s
  pass : b.state ≡ closed → (c ≡ allows) ⊎ (c ≡ succeeds) → s ≡ closed → Edge b now c s
  wait :
      b.state ≡ open_circuit
      → c ≡ allows
      → elapsed b.last_state_change now < b.config.timeout
      → s ≡ open_circuit
      → Edge b now c s
  ignore : b.state ≡ open_circuit → (c ≡ succeeds) ⊎ (c ≡ fails) → s ≡ open_circuit → Edge b now c s
  test_more :
      b.state ≡ half_open
      → c ≡ succeeds
      → b.consecutive_successes + 1 < b.config.success_threshold
      → s ≡ half_open
      → Edge b now c s
  test : b.state ≡ half_open → c ≡ allows → s ≡ half_open → Edge b now c s

ruleset edges = (
  trip, probe, recover, relapse, forced_open, forced_close, tolerate, pass, wait, ignore, test_more,
  test,
)

-- The row of the table that a call takes.
step-Edge_state :
    (b : CircuitBreaker) (now : ℕ) (c : Call)
    → IsConfig b.config
    → Inv b
    → Edge b now c (step b (now, c)).state
unfolding step
step-Edge_state b now allows k v = grind (arith, edges)
step-Edge_state b now succeeds k v = grind (arith, edges)
step-Edge_state b now fails k v = grind (arith, edges)
step-Edge_state b now forces_open k v = forced_open refl refl
step-Edge_state b now forces_close k v = forced_close refl refl

-- The state that a row of the table names is the one that the call leads to.
Edge-state :
    (b : CircuitBreaker) (now : ℕ) (c : Call) (s : CircuitState)
    → IsConfig b.config
    → Inv b
    → Edge b now c s
    → s ≡ (step b (now, c)).state
unfolding step
Edge-state b now c s k v (trip h g l e) = ground arith
Edge-state b now c s k v (probe h g l e) = ground arith
Edge-state b now c s k v (recover h g l e) = ground arith
Edge-state b now c s k v (relapse h g e) = ground arith
Edge-state b now c s k v (forced_open g e) = ground arith
Edge-state b now c s k v (forced_close g e) = ground arith
Edge-state b now c s k v (tolerate h g l e) = ground arith
Edge-state b now c s k v (pass h g e) = ground arith
Edge-state b now c s k v (wait h g l e) = ground arith
Edge-state b now c s k v (ignore h g e) = ground arith
Edge-state b now c s k v (test_more h g l e) = ground arith
Edge-state b now c s k v (test h g e) = ground arith

-- In every state that meets the invariant, as all states do that calls can reach, and for thresholds
-- that are u32 values, a call leads exactly to the state that the table of edges names: a row applies
-- if and only if the call leads to its state. Calls that are not forced change the state as follows.
-- The circuit opens from closed exactly on the failure with which failure_threshold failures in a row
-- are reached; it is half-opened exactly by a request at the timeout or later; it closes from
-- half-open exactly on the success with which success_threshold is reached, and opens on any failure.
-- A forced call sets its state.
pub step-Edge :
    (b : CircuitBreaker) (now : ℕ) (c : Call) (s : CircuitState)
    → IsConfig b.config
    → Inv b
    → Edge b now c s ↔ (s ≡ (step b (now, c)).state)
step-Edge b now c s k v =
    (Edge-state b now c s k v, λ e. subst (Edge b now c) (sym e) (step-Edge_state b now c k v))

-- A request is refused exactly when the circuit is open and its timeout has not elapsed.
pub allow_request-refused_iff :
    (b : CircuitBreaker) (now : ℕ)
    → ((allow_request b now).1 ≡ false)
      ↔ ((b.state ≡ open_circuit) × (elapsed b.last_state_change now < b.config.timeout))
unfolding allow_request
allow_request-refused_iff b now = ground arith
