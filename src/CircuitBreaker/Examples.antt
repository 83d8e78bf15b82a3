-- ===== src/CircuitBreaker/Examples.antt =====
-- Tests of the circuit breaker, and its theorems at concrete inputs.
use lunaroute.Prelude.{ℕ, ◌≡◌, refl, ◌↔◌, true, false, List, [], ◌∷◌, arith}
use lunaroute.CircuitBreaker.{
  closed, open_circuit, half_open, CircuitBreaker, new, transition_to_open, allow_request, Call,
  allows, fails, step, run,
}
use lunaroute.CircuitBreaker.Invariant.{IsConfig, Inv}
use lunaroute.CircuitBreaker.Invariant.{run-new-Inv}
use lunaroute.CircuitBreaker.{default_config}
use lunaroute.CircuitBreaker.Transitions.{Edge, step-Edge}
use lunaroute.CircuitBreaker.Opening.{success, failure, record_all, HasRun, opens_iff_HasRun}
use lunaroute.CircuitBreaker.Recovery.{successes, open_window_refuses, recovery}
use lunaroute.CircuitBreaker.Race.{writes, opening_writes, take, drop, opening_race}

default-IsConfig : IsConfig default_config
default-IsConfig = omega arith

abbrev five_failures : List (ℕ × Call)
five_failures = (1, fails) ∷ (2, fails) ∷ (3, fails) ∷ (4, fails) ∷ (5, fails) ∷ []

five_failures_open : (run (new default_config 0) five_failures).state ≡ open_circuit
unfolding run new
five_failures_open = refl

run-new-Inv_example : Inv (run (new default_config 0) five_failures)
run-new-Inv_example = run-new-Inv default_config 0 five_failures default-IsConfig

abbrev opened : CircuitBreaker
opened = record {
  state = open_circuit;
  config = default_config;
  consecutive_failures = 0;
  consecutive_successes = 0;
  last_state_change = 5;
}

opened-Inv : Inv opened
opened-Inv = ground arith

step-Edge_example :
    Edge opened 60_000_000_005 allows half_open
    ↔ (half_open ≡ (step opened (60_000_000_005, allows)).state)
step-Edge_example = step-Edge opened 60_000_000_005 allows half_open default-IsConfig opened-Inv

opens_iff_HasRun_example :
    ((record_all (new default_config 0) ((1, failure) ∷ (2, success) ∷ [])).state ≡ open_circuit)
    ↔ HasRun 5 ((1, failure) ∷ (2, success) ∷ [])
opens_iff_HasRun_example =
    opens_iff_HasRun default_config 0 ((1, failure) ∷ (2, success) ∷ []) default-IsConfig
      (omega arith)

open_window_refuses_example :
    (allow_request (run (transition_to_open opened 10) ((20, fails) ∷ (30, allows) ∷ [])) 40).1
    ≡ false
open_window_refuses_example =
    open_window_refuses opened 10 40 ((20, fails) ∷ (30, allows) ∷ [])
      ((omega arith, omega arith, λ e. cc), ((omega arith, omega arith, λ e. cc), tt)) (omega arith)
      (omega arith)

recovery_example : (successes (allow_request opened 70_000_000_000).0 (1 ∷ 2 ∷ [])).state ≡ closed
recovery_example =
    (recovery opened 70_000_000_000 (1 ∷ 2 ∷ []) refl (omega arith) default-IsConfig
        (omega arith)).1
      refl

opening_race_example :
    let opened = (writes (new default_config 0) (take 1 (opening_writes 60_000_000_000))).0 in
    let (probed, admitted) = allow_request opened 60_000_000_000 in
    (opened.state ≡ open_circuit)
    × (admitted ≡ true)
    × ((writes probed (drop 1 (opening_writes 60_000_000_000))).0.state ≡ half_open)
opening_race_example =
    opening_race (new default_config 0) 60_000_000_000 (unfold new in omega arith)
