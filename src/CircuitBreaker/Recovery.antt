-- ===== src/CircuitBreaker/Recovery.antt =====
-- An open circuit refuses requests for its timeout, and a probed one closes again.
use lunaroute.Prelude.{
  ℕ, zero, suc, ◌+◌, ◌-◌, ◌≤◌, ◌<◌, ◌≡◌, refl, ◌≢◌, true, false, List, [], ◌∷◌, arith, length, All,
}
use lunaroute.Prelude.Words.{u32_max}
use lunaroute.CircuitBreaker.{
  closed, open_circuit, half_open, CircuitBreaker, transition_to_open, allow_request,
  record_success, Call, allows, succeeds, fails, forces_open, forces_close, step, run, elapsed,
}
use lunaroute.CircuitBreaker.Invariant.{IsConfig}

-- A call in the window of `timeout` nanoseconds from `t`, other than the forced close.
abbrev pub IsWithin : ℕ → ℕ → ℕ × Call → Type 0
IsWithin t timeout (now, c) = (t ≤ now) × (now < t + timeout) × (c ≢ forces_close)

-- An open circuit whose timeout started at `t` or later.
record OpenSince (b : CircuitBreaker) (t timeout : ℕ) : Type 0 where
  is_open : b.state ≡ open_circuit
  since : t ≤ b.last_state_change
  config : b.config.timeout ≡ timeout

step-OpenSince :
    (b : CircuitBreaker) (t timeout : ℕ) (c : ℕ × Call)
    → IsWithin t timeout c
    → OpenSince b t timeout
    → OpenSince (step b c) t timeout
unfolding step
step-OpenSince b t timeout (now, allows) w o = ground arith
step-OpenSince b t timeout (now, succeeds) w o = ground arith
step-OpenSince b t timeout (now, fails) w o = ground arith
step-OpenSince b t timeout (now, forces_open) w o = ground arith
step-OpenSince b t timeout (now, forces_close) w o = absurd (w.2 refl)

run-OpenSince :
    (b : CircuitBreaker) (t timeout : ℕ) (cs : List (ℕ × Call))
    → All (IsWithin t timeout) cs
    → OpenSince b t timeout
    → OpenSince (run b cs) t timeout
unfolding run
run-OpenSince b t timeout [] w o = o
run-OpenSince b t timeout (c ∷ cs) w o =
    run-OpenSince (step b c) t timeout cs w.1 (step-OpenSince b t timeout c w.0 o)

refuses :
    (b : CircuitBreaker) (t timeout now : ℕ)
    → OpenSince b t timeout
    → t ≤ now
    → now < t + timeout
    → (allow_request b now).1 ≡ false
unfolding allow_request
refuses b t timeout now o g h = ground arith

-- After the circuit opened at `t`, every request from `t` up to before `t + timeout` is refused,
-- whatever calls other than a forced close are made in that window.
pub open_window_refuses :
    (b : CircuitBreaker) (t now : ℕ) (cs : List (ℕ × Call))
    → All (IsWithin t b.config.timeout) cs
    → t ≤ now
    → now < t + b.config.timeout
    → (allow_request (run (transition_to_open b t) cs) now).1 ≡ false
unfolding transition_to_open
open_window_refuses b t now cs w g h =
    refuses _ t b.config.timeout now
      (run-OpenSince (transition_to_open b t) t b.config.timeout cs w
        (record { is_open = refl; since = omega arith; config = refl }))
      g h

-- Successes reported at the given times.
pub successes : CircuitBreaker → List ℕ → CircuitBreaker
successes b [] = b
successes b (t ∷ ts) = successes (record_success b t) ts

-- A half-open breaker, `m + 1` successes short of its threshold.
record Testing (b : CircuitBreaker) (m : ℕ) : Type 0 where
  testing : b.state ≡ half_open
  short : b.consecutive_successes + suc m ≡ b.config.success_threshold
  fits : b.config.success_threshold ≤ u32_max

success-Testing :
    (b : CircuitBreaker) (m t : ℕ) → Testing b (suc m) → Testing (record_success b t) m
unfolding record_success
success-Testing b m t h = ground arith

last_success : (b : CircuitBreaker) (t : ℕ) → Testing b 0 → (record_success b t).state ≡ closed
unfolding record_success
last_success b t h = ground arith

Testing-closes :
    (b : CircuitBreaker) (m : ℕ) (ts : List ℕ)
    → Testing b m
    → length ts ≡ suc m
    → (successes b ts).state ≡ closed
unfolding successes
Testing-closes b m [] h e = absurd (omega arith)
Testing-closes b zero (t ∷ []) h e = last_success b t h
Testing-closes b zero (t ∷ u ∷ ts) h e = absurd (omega arith)
Testing-closes b (suc m) (t ∷ ts) h e =
    Testing-closes (record_success b t) m ts (success-Testing b m t h) (omega arith)

Testing-stays :
    (b : CircuitBreaker) (m : ℕ) (ts : List ℕ)
    → Testing b m
    → length ts ≤ m
    → (successes b ts).state ≡ half_open
unfolding successes
Testing-stays b m [] h e = h.testing
Testing-stays b zero (t ∷ ts) h e = absurd (omega arith)
Testing-stays b (suc m) (t ∷ ts) h e =
    Testing-stays (record_success b t) m ts (success-Testing b m t h) (omega arith)

probe-Testing :
    (b : CircuitBreaker) (now m : ℕ)
    → b.state ≡ open_circuit
    → b.config.timeout ≤ elapsed b.last_state_change now
    → IsConfig b.config
    → b.config.success_threshold ≡ suc m
    → Testing (allow_request b now).0 m × ((allow_request b now).1 ≡ true)
unfolding allow_request
probe-Testing b now m o h k e = ground arith

-- Recovery: once the timeout has elapsed, an open circuit admits the next request, and then as many
-- successes as the threshold, and no fewer, close it.
pub recovery :
    (b : CircuitBreaker) (now : ℕ) (ts : List ℕ)
    → b.state ≡ open_circuit
    → b.config.timeout ≤ elapsed b.last_state_change now
    → IsConfig b.config
    → 0 < b.config.success_threshold
    → let (probed, admitted) = allow_request b now in
      (admitted ≡ true)
      × (length ts ≡ b.config.success_threshold → (successes probed ts).state ≡ closed)
      × (length ts < b.config.success_threshold → (successes probed ts).state ≡ half_open)
recovery b now ts o h k pos = (
  probed.1,
  λ e. Testing-closes _ m ts probed.0 (omega (arith, n)),
  λ e. Testing-stays _ m ts probed.0 (omega (arith, n)),
)
  where
    m : ℕ
    m = b.config.success_threshold - 1

    n : b.config.success_threshold ≡ suc m
    n = omega arith

    probed : Testing (allow_request b now).0 m × ((allow_request b now).1 ≡ true)
    probed = probe-Testing b now m o h k n
