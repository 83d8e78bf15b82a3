-- ===== src/CircuitBreaker.antt =====
-- crates/lunaroute-routing/src/circuit_breaker.rs: the circuit breaker of one provider.
-- An `Instant` is a number of nanoseconds and is an argument of each call that reads the clock;
-- a `Duration` is a number of nanoseconds. The atomics are fields of the state, and each call
-- returns the new state.
pub mod Invariant
pub mod Transitions
pub mod Opening
pub mod Recovery
pub mod Race
mod Examples
use lunaroute.Prelude.{
  Result, ok, err, ℕ, ◌+◌, ◌-◌, ◌/◌, ◌%◌, Bool, true, false, String, List, [], ◌∷◌, leb, ◌==◌,
  if◌then◌else◌,
}
use lunaroute.Prelude.Words.{u32_max, u32_size, saturating_add}

pub data CircuitState : Type 0 where
  closed open_circuit half_open : CircuitState

-- The encoding of `CircuitState` in an `AtomicU8`.
pub to_u8 : CircuitState → ℕ
to_u8 closed = 0
to_u8 open_circuit = 1
to_u8 half_open = 2

pub from_u8 : ℕ → CircuitState
from_u8 value =
    if value == 0
    then closed
    else (if value == 1 then open_circuit else (if value == 2 then half_open else closed))

pub record CircuitBreakerConfig : Type 0 where
  pub failure_threshold : ℕ
  pub success_threshold : ℕ
  pub timeout : ℕ

pub data ConfigError : Type 0 where
  zero_failure_threshold zero_success_threshold zero_timeout : ConfigError

abbrev pub nanos_per_milli : ℕ
nanos_per_milli = 1_000_000

abbrev pub default_config : CircuitBreakerConfig
default_config = record { failure_threshold = 5; success_threshold = 2; timeout = 60_000_000_000 }

pub validate : CircuitBreakerConfig → Result ConfigError (Unit {0})
validate c =
    if c.failure_threshold == 0
    then err zero_failure_threshold
    else (if c.success_threshold == 0
        then err zero_success_threshold
        else (if c.timeout / nanos_per_milli == 0 then err zero_timeout else ok tt))

-- `CircuitBreakerConfig::new`.
pub new_config : ℕ → ℕ → ℕ → Result ConfigError CircuitBreakerConfig
unfolding validate
new_config failure_threshold success_threshold timeout = elim (validate config) [
  | ok _ ↦ ok config
  | err e ↦ err e
]
  where
    config : CircuitBreakerConfig
    config = record {
      failure_threshold = failure_threshold;
      success_threshold = success_threshold;
      timeout = timeout;
    }

pub record CircuitBreaker : Type 0 where
  pub state : CircuitState
  pub config : CircuitBreakerConfig
  pub consecutive_failures : ℕ
  pub consecutive_successes : ℕ
  pub last_state_change : ℕ

-- `CircuitBreaker::new`: the configuration is taken as it is, not validated.
unfoldable pub new : CircuitBreakerConfig → ℕ → CircuitBreaker
new config now = record {
  state = closed;
  config = config;
  consecutive_failures = 0;
  consecutive_successes = 0;
  last_state_change = now;
}

unfoldable pub transition_to_open : CircuitBreaker → ℕ → CircuitBreaker
transition_to_open b now = record b {
  state = open_circuit;
  last_state_change = now;
  consecutive_failures = 0;
  consecutive_successes = 0;
}

unfoldable pub transition_to_closed : CircuitBreaker → ℕ → CircuitBreaker
transition_to_closed b now = record b {
  state = closed;
  last_state_change = now;
  consecutive_failures = 0;
  consecutive_successes = 0;
}

-- The exchange of `Open` for `HalfOpen`, won, and the writes after it.
transition_to_half_open : CircuitBreaker → ℕ → CircuitBreaker
transition_to_half_open b now = record b {
  state = half_open;
  last_state_change = now;
  consecutive_failures = 0;
  consecutive_successes = 0;
}

-- `Instant::elapsed` is 0 for an instant that lies ahead, as `-` is here.
abbrev pub elapsed : ℕ → ℕ → ℕ
elapsed since now = now - since

allow_in : CircuitState → CircuitBreaker → ℕ → CircuitBreaker × Bool
unfolding transition_to_half_open
allow_in closed b now = (b, true)
allow_in open_circuit b now =
    if leb b.config.timeout (elapsed b.last_state_change now)
    then (transition_to_half_open b now, true)
    else (b, false)
allow_in half_open b now = (b, true)

unfoldable pub allow_request : CircuitBreaker → ℕ → CircuitBreaker × Bool
unfolding allow_in
allow_request b now = allow_in b.state b now

-- `fetch_update` gives the value before the update, and the code adds 1 to it: a u32 sum, which
-- wraps in a release build.
abbrev pub counted : ℕ → ℕ
counted old = (old + 1) % u32_size

success_in : CircuitState → CircuitBreaker → ℕ → CircuitBreaker
unfolding transition_to_closed
success_in closed b now = record b { consecutive_failures = 0 }
success_in half_open b now =
    let b' = record b {
      consecutive_successes = saturating_add u32_max b.consecutive_successes 1;
      consecutive_failures = 0;
    } in
    if leb b.config.success_threshold (counted b.consecutive_successes)
    then transition_to_closed b' now
    else b'
success_in open_circuit b now = record b { consecutive_failures = 0 }

unfoldable pub record_success : CircuitBreaker → ℕ → CircuitBreaker
unfolding success_in
record_success b now = success_in b.state b now

failure_in : CircuitState → CircuitBreaker → ℕ → CircuitBreaker
unfolding transition_to_open
failure_in closed b now =
    let b' = record b {
      consecutive_failures = saturating_add u32_max b.consecutive_failures 1;
      consecutive_successes = 0;
    } in
    if leb b.config.failure_threshold (counted b.consecutive_failures)
    then transition_to_open b' now
    else b'
failure_in half_open b now = transition_to_open (record b { consecutive_successes = 0 }) now
failure_in open_circuit b now = record b {
  consecutive_failures = saturating_add u32_max b.consecutive_failures 1;
}

unfoldable pub record_failure : CircuitBreaker → ℕ → CircuitBreaker
unfolding failure_in
record_failure b now = failure_in b.state b now

unfoldable pub force_open : CircuitBreaker → ℕ → CircuitBreaker
unfolding transition_to_open
force_open b now = transition_to_open b now

unfoldable pub force_close : CircuitBreaker → ℕ → CircuitBreaker
unfolding transition_to_closed
force_close b now = transition_to_closed b now

-- The calls that a client can make of a shared breaker, each at its time.
pub data Call : Type 0 where
  allows succeeds fails forces_open forces_close : Call

unfoldable pub step : CircuitBreaker → ℕ × Call → CircuitBreaker
unfolding allow_request record_success record_failure force_open force_close
step b (now, allows) = (allow_request b now).0
step b (now, succeeds) = record_success b now
step b (now, fails) = record_failure b now
step b (now, forces_open) = force_open b now
step b (now, forces_close) = force_close b now

unfoldable pub run : CircuitBreaker → List (ℕ × Call) → CircuitBreaker
unfolding step
run b [] = b
run b (c ∷ cs) = run (step b c) cs
